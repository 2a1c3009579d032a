-- ===== src/Admin.antt =====
-- admin/keys.go, revoke: what the DELETE of an integration key does to the tables and to the cache
-- of the denylist, which stands behind the hydrator. Both are in `Keyring`, with the readings of the
-- clock as arguments.
pub mod Guard
pub mod Keys
mod Tests
use tempogate.Common.{ℕ, String}
use tempogate.State.Driver.{Driver}
use tempogate.State.IntegrationKeys.{KeyTables, MarkResult, marked, mark_integration_key_revoked}
use tempogate.Keys.Denylist.{DenylistCache, Order, hydrate}

pub record Keyring : Type 0 where
  pub tables : KeyTables
  pub cache : DenylistCache

-- The hydration behind a revocation that succeeds.
abbrev pub hydrated : Order → ℕ → DenylistCache → KeyTables × MarkResult → Keyring × MarkResult
hydrated order now c (t, marked j) =
    (record { tables = t; cache = hydrate order now j c }, marked j)
hydrated order now c (t, MarkResult.not_found) =
    (record { tables = t; cache = c }, MarkResult.not_found)
hydrated order now c (t, MarkResult.failed) = (record { tables = t; cache = c }, MarkResult.failed)

-- revoke
unfoldable pub revoke : Driver → Order → ℕ → ℕ → String → Keyring → Keyring × MarkResult
revoke db order at now id k =
    hydrated order now k.cache (mark_integration_key_revoked db id at k.tables)
