-- ===== src/Authz/Tests.antt =====
-- A policy on concrete rules. Addresses are in lower case here, and `lower` is the identity.
use tempogate.Common.{
  String, ◌≡◌, refl, if◌then◌else◌, [], ◌∷◌, some, any, cut, cut_last, split, trim_space, is_space,
  contains,
}
use tempogate.Perms.{bits, add, merge, namespaces, parse_config}
use tempogate.Perms.Levels.{level, role_at}
use tempogate.Authz.{
  Rule, Policy, select_email, select_domain, ok, invalid_rule, group_rule, grants_nothing,
  email_domain, parse, resolve, system_role,
}
use tempogate.Authz.Rules.{parse-IsSound}
use tempogate.Authz.Resolve.{rules_level, address, is_matched, resolve-level}

abbrev same : String → String
same s = s

program : Unit {0}
unfolding parse resolve any cut cut_last split trim_space is_space contains bits add merge
    parse_config role_at system_role namespaces
program = tt

abbrev alice_writes : Rule
alice_writes = record {
  index = 0;
  raw = "email:alice@example.com=orders:write";
  grant = record { namespace = "orders"; role = "write" } ∷ [];
  kind = select_email;
  value = "alice@example.com";
}

abbrev staff_reads : Rule
staff_reads = record {
  index = 1;
  raw = "domain:example.com = orders:read,stock:read";
  grant =
      record { namespace = "orders"; role = "read" }
      ∷ record { namespace = "stock"; role = "read" }
      ∷ [];
  kind = select_domain;
  value = "example.com";
}

abbrev policy : Policy
policy = record { rules = alice_writes ∷ staff_reads ∷ []; dflt = [] }

parsed : parse same (alice_writes.raw ∷ staff_reads.raw ∷ []) " " ≡ ok policy
unfolding program
parsed = refl

alice :
    resolve same policy " alice@example.com"
    ≡ record { namespace = "orders"; role = "write" }
      ∷ record { namespace = "stock"; role = "read" }
      ∷ []
unfolding program
alice = refl

stranger : resolve same policy "bob@example.org" ≡ []
unfolding program
stranger = refl

refused_group : parse same ("group:ops=orders:read" ∷ []) "" ≡ invalid_rule 0 group_rule
unfolding program
refused_group = refl

empty_rule : parse same ("email:a@b= " ∷ []) "" ≡ invalid_rule 0 grants_nothing
unfolding program
empty_rule = refl

cluster_admin :
    system_role (some (record { namespace = "temporal-system"; role = "admin" } ∷ [])) ≡ "admin"
unfolding program
cluster_admin = refl

resolve-level_example : level "orders" (resolve same policy "alice@example.com") ≡ (
    if is_matched same policy "alice@example.com"
    then rules_level "orders"
        (address same "alice@example.com")
        (email_domain (address same "alice@example.com"))
        policy.rules
    else level "orders" policy.dflt)
resolve-level_example =
    resolve-level same policy "alice@example.com" "orders"
      (parse-IsSound same (alice_writes.raw ∷ staff_reads.raw ∷ []) " " parsed)
