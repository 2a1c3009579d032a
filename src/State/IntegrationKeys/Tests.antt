-- ===== src/State/IntegrationKeys/Tests.antt =====
-- The tables of integration keys, on one key that is saved and revoked twice.
use tempogate.Common.{◌≡◌, refl, none, some, [], ◌∷◌, first, any, update, true}
use tempogate.State.Driver.{IsUp, up}
use tempogate.State.IntegrationKeys.{
  IntegrationKey, KeyTables, saved, found, known, save_integration_key, integration_key_by_id,
  mark_integration_key_revoked, is_revoked, id_of,
}
use tempogate.State.IntegrationKeys.Revocation.{
  Outcome, verdict, mark_integration_key_revoked-Outcome,
}
use tempogate.Common.{entry}

abbrev key : IntegrationKey
key = record {
  id = "k1";
  namespace = "billing";
  role = "write";
  owner = "ci";
  jti = "j1";
  created_at = 10;
  expires_at = none;
  revoked_at = none;
}

abbrev empty : KeyTables
empty = record { keys = []; denied = [] }

abbrev stored : KeyTables
stored = record { keys = key ∷ []; denied = [] }

program : Unit {0}
unfolding save_integration_key integration_key_by_id mark_integration_key_revoked is_revoked first
    any update entry
program = tt

saved_key : save_integration_key up key empty ≡ (stored, saved)
unfolding program
saved_key = refl

-- The second revocation keeps the first one's time.
twice :
    integration_key_by_id up "k1"
      (mark_integration_key_revoked up "k1" 30 (mark_integration_key_revoked up "k1" 20 stored).0).0
    ≡ found (record key { revoked_at = some 20 })
unfolding program
twice = refl

denied : is_revoked up "j1" (mark_integration_key_revoked up "k1" 20 stored).0 ≡ known true
unfolding program
denied = refl

mark_integration_key_revoked-Outcome_example :
    Outcome "k1" 20 stored (mark_integration_key_revoked up "k1" 20 stored)
    × (IsUp up
        → (mark_integration_key_revoked up "k1" 20 stored).1
          ≡ verdict (entry id_of "k1" stored.keys))
mark_integration_key_revoked-Outcome_example =
    mark_integration_key_revoked-Outcome up "k1" 20 stored
