-- ===== src/Keys/Tests.antt =====
-- The denylist, its cache and a revocation, run.
use tempogate.Common.{
  ◌≡◌, refl, true, false, none, List, [], ◌∷◌, arith, eq_refl, first, any, delete, update, All,
}
use tempogate.State.Driver.{up}
use tempogate.State.IntegrationKeys.{
  IntegrationKey, KeyTables, RevokedResult, known, marked, mark_integration_key_revoked,
}
use tempogate.State.IntegrationKeys
use tempogate.State.IntegrationKeys.Revocation.{IsDenied}
use tempogate.Keys.Denylist.{
  Order, CacheEntry, new_denylist_cache, max_entries_or, store, hydrate, probe, is_revoked, on_miss,
  jti_of, has_jti,
}
use tempogate.Keys.Denylist.Bounds.{IsIteration}
use tempogate.Keys.Denylist.Race.{revoke_overtaken}
use tempogate.Keys.Revoked.{check, checked, run}
use tempogate.Admin.{Keyring, revoke}

-- the map, met as it stands
abbrev pub plain_order : Order
plain_order es = es

weaken :
    (x : CacheEntry) (es more : List CacheEntry)
    → All (λ e. any (has_jti (jti_of e)) es ≡ true) more
    → All (λ e. any (has_jti (jti_of e)) (x ∷ es) ≡ true) more
unfolding any
weaken x es [] h = tt
weaken x es (e ∷ more) h = (ground (arith, h.0), weaken x es more h.1)

met : (es : List CacheEntry) → All (λ e. any (has_jti (jti_of e)) es ≡ true) es
unfolding any
met [] = tt
met (e ∷ es) = (rw (eq_refl (jti_of e)), weaken e es es (met es))

plain_order-IsIteration : IsIteration plain_order
plain_order-IsIteration es = (met es, λ some_entry. some_entry)

abbrev key : IntegrationKey
key = record {
  id = "k1";
  namespace = "billing";
  role = "write";
  owner = "ci";
  jti = "j1";
  created_at = 10;
  expires_at = none;
  revoked_at = none;
}

abbrev keyring : Keyring
keyring = record {
  tables = record { keys = key ∷ []; denied = [] };
  cache = new_denylist_cache 30 2;
}

program : Unit {0}
unfolding IntegrationKeys.is_revoked mark_integration_key_revoked store hydrate probe is_revoked
    revoke first any delete update max_entries_or
program = tt

-- A check before the revocation has cached the jti as active.
abbrev warm : Keyring
warm = run keyring (check up plain_order 5 5 "j1" ∷ [])

cached : (checked up plain_order 6 6 "j1" warm).1 ≡ known false
unfolding program
cached = refl

abbrev behind : Keyring
behind = (revoke up plain_order 7 7 "k1" warm).0

withdrawn : (checked up plain_order 8 8 "j1" behind).1 ≡ known true
unfolding program
withdrawn = refl

-- With room for two, the third answer drops the first active entry met.
third :
    probe 9 "a" (
      store plain_order 8 "c" false
        (store plain_order 7 "b" true (store plain_order 6 "a" false (new_denylist_cache 30 2))))
    ≡ none
unfolding program
third = refl

-- A check looks into the empty cache at 6, the key is revoked at 7, and the answer is stored at 8.
abbrev overtaken : Keyring
overtaken = (revoke up plain_order 7 7 "k1" keyring).0

revoke_overtaken_example :
    ((is_revoked plain_order 36 36 "j1" (known true) overtaken.cache).1 ≡ known true)
    × IsDenied "j1" overtaken.tables
    × ((is_revoked plain_order 36 36 "j1"
          (known true)
          (on_miss plain_order 8 "j1"
            (IntegrationKeys.is_revoked up "j1" keyring.tables)
            (probe 6 "j1" keyring.cache)
            overtaken.cache).0).1
        ≡ known false)
unfolding program
revoke_overtaken_example =
    revoke_overtaken up up plain_order plain_order plain_order 6 7 7 8 36 36 "k1" "j1" keyring
      (known true) refl refl refl refl (omega arith) (omega arith)
