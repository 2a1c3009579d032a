-- ===== src/Perms/Tests.antt =====
-- Grants on concrete permissions.
use tempogate.Common.{
  any, ◌≡◌, refl, some, none, [], ◌∷◌, String, ◌≢◌, ◌==◌, eq_iff, false, cut_last, trim_space,
  is_space,
}
use tempogate.Perms.{
  Perms, ok, refused, worker_role, malformed_entry, invalid_role, add, merge, namespaces, to_claim,
  parse_claim, parse_config, bits,
}
use tempogate.Perms.Levels.{IsMap, role_at}
use tempogate.Perms.Claim.{parse_claim-to_claim}

program : Unit {0}
unfolding merge to_claim parse_claim parse_config add bits cut_last trim_space is_space role_at any
program = tt

abbrev writer : Perms
writer =
    record { namespace = "orders"; role = "write" }
    ∷ record { namespace = "a:b"; role = "read" }
    ∷ []

abbrev reader : Perms
reader =
    record { namespace = "orders"; role = "read" }
    ∷ record { namespace = "temporal-system"; role = "admin" }
    ∷ []

claimed : to_claim (some writer) ≡ "a:b:read" ∷ "orders:write" ∷ []
unfolding program
claimed = refl

merged :
    merge (some writer ∷ none ∷ some reader ∷ [])
    ≡ record { namespace = "orders"; role = "write" }
      ∷ record { namespace = "a:b"; role = "read" }
      ∷ record { namespace = "temporal-system"; role = "admin" }
      ∷ []
unfolding program
merged = refl

configured :
    parse_config (" orders:write " ∷ "orders:read" ∷ [])
    ≡ ok (record { namespace = "orders"; role = "write" } ∷ [])
unfolding program
configured = refl

no_worker :
    parse_config ("orders:admin" ∷ "orders:worker" ∷ []) ≡ refused worker_role 1 "orders:worker"
unfolding program
no_worker = refl

no_role : parse_claim ("orders:root" ∷ []) ≡ refused invalid_role 0 "orders:root"
unfolding program
no_role = refl

bare : parse_claim ("orders" ∷ []) ≡ refused malformed_entry 0 "orders"
unfolding program
bare = refl

writer-IsMap : IsMap writer
unfolding program
writer-IsMap = (refl, (refl, tt))

-- A text that the empty one is told apart from.
is_named : (name : String) → (name == "") ≡ false → name ≢ ""
is_named name e same = cc (e, (eq_iff name "").1 same)

parse_claim-to_claim_example :
    (qs : Perms) × (parse_claim (to_claim (some writer)) ≡ ok qs)
    × (role_at "a:b" qs ≡ role_at "a:b" writer)
    × IsMap (namespaces (some writer))
unfolding program
parse_claim-to_claim_example =
    parse_claim-to_claim writer "a:b" writer-IsMap
      ((is_named "orders" refl, refl), ((is_named "a:b" refl, refl), tt))

abbrev orders_writer : Perms
orders_writer = record { namespace = "orders"; role = "write" } ∷ []
