-- ===== src/State/IntegrationKeys.antt =====
-- state/sqlite/integration_keys.go and jti_denylist.go: the integration_keys and jti_denylist
-- tables. The change feed is left out. SQLite's order of texts is an argument of ListIntegrationKeys.
pub mod Revocation
mod Tests
use tempogate.Common.{
  ℕ, String, Bool, true, false, ◌||◌, not, ◌&&◌, Option, none, some, List, ◌∷◌, ◌==◌, if◌then◌else◌,
  is_none, ltb, length, first, any, update, ◌+◌, zero, suc,
}
use tempogate.Common.Ordered.{select, sort}
use tempogate.Common.Limit.{ℤ, pos, negsuc, take}
use tempogate.State.Driver.{Driver}

pub record IntegrationKey : Type 0 where
  pub id : String
  pub namespace : String
  pub role : String
  pub owner : String
  pub jti : String
  pub created_at : ℕ
  pub expires_at : Option ℕ
  pub revoked_at : Option ℕ

pub record DeniedRow : Type 0 where
  pub jti : String
  pub revoked_at : ℕ

pub record KeyTables : Type 0 where
  pub keys : List IntegrationKey
  pub denied : List DeniedRow

pub data SaveKeyResult : Type 0 where
  saved failed : SaveKeyResult

pub data KeyResult : Type 0 where
  found : IntegrationKey → KeyResult
  not_found failed : KeyResult

-- marked carries the jti.
pub data MarkResult : Type 0 where
  marked : String → MarkResult
  not_found failed : MarkResult

pub data RevokedResult : Type 0 where
  known : Bool → RevokedResult
  failed : RevokedResult

pub record ListFilter : Type 0 where
  pub owner : String
  pub namespace : String
  pub limit : ℤ
  pub cursor : String

pub data ListResult : Type 0 where
  listed : List IntegrationKey → ListResult
  failed : ListResult

abbrev pub id_of : IntegrationKey → String
id_of k = k.id

abbrev pub jti_of : IntegrationKey → String
jti_of k = k.jti

abbrev pub denied_jti : DeniedRow → String
denied_jti r = r.jti

-- CHECK (role IN …)
abbrev pub has_role : IntegrationKey → Bool
has_role k =
    (k.role == "read") || ((k.role == "write") || ((k.role == "worker") || (k.role == "admin")))

-- SaveIntegrationKey: the primary key is the id, and jti is UNIQUE.
unfoldable pub save_integration_key :
    Driver → IntegrationKey → KeyTables → KeyTables × SaveKeyResult
save_integration_key db k t =
    if db 0
      || (not (has_role k)
          || (any (λ r. id_of r == k.id) t.keys || any (λ r. jti_of r == k.jti) t.keys))
    then (t, SaveKeyResult.failed)
    else (record t { keys = k ∷ t.keys }, saved)

-- IntegrationKeyByID
unfoldable pub integration_key_by_id : Driver → String → KeyTables → KeyResult
integration_key_by_id db id t =
    if db 0
    then KeyResult.failed
    else elim (first (λ r. id_of r == id) t.keys) [ some k ↦ found k | none ↦ KeyResult.not_found ]

-- A limit that is not positive falls back to defaultListLimit. One more than it is taken to fit int.
abbrev pub normalised : ℤ → ℕ
normalised (pos zero) = 50
normalised (pos (suc n)) = suc n
normalised (negsuc n) = 50

-- The WHERE clause of the SELECT, before its cursor.
abbrev pub wanted : String → String → IntegrationKey → Bool
wanted owner namespace k =
    ((owner == "") || (k.owner == owner)) && ((namespace == "") || (k.namespace == namespace))

abbrev pub behind : (String → String → Bool) → String → IntegrationKey → Bool
behind before cursor k = (cursor == "") || before k.id cursor

-- ListIntegrationKeys: the query, the scan of a row and the end of the rows may each report an error.
unfoldable pub list_integration_keys :
    (String → String → Bool) → Driver → ListFilter → KeyTables → ListResult
list_integration_keys before db f t =
    let rows = take (normalised f.limit + 1) (
      sort id_of before
        (select (λ k. wanted f.owner f.namespace k && behind before f.cursor k) t.keys)) in
    if db 0 || ((db 1 && ltb 0 (length rows)) || db 2) then ListResult.failed else listed rows

abbrev pub stamp : ℕ → IntegrationKey → IntegrationKey
stamp at k = record k { revoked_at = some at }

-- The WHERE clause of the UPDATE.
abbrev pub unrevoked : String → IntegrationKey → Bool
unrevoked id k = (id_of k == id) && is_none k.revoked_at

-- INSERT OR IGNORE
abbrev pub deny : String → ℕ → List DeniedRow → List DeniedRow
deny j at rows =
    if any (λ r. denied_jti r == j) rows then rows else record { jti = j; revoked_at = at } ∷ rows

-- The statements behind the SELECT. An error of one of them rolls the transaction back.
abbrev pub mark_found : Driver → String → ℕ → String → KeyTables → KeyTables × MarkResult
mark_found db id at j t = if db 2 || (db 3 || db 4) then (t, MarkResult.failed) else (
  record { keys = update (unrevoked id) (stamp at) t.keys; denied = deny j at t.denied },
  marked j,
)

-- MarkIntegrationKeyRevoked
unfoldable pub mark_integration_key_revoked :
    Driver → String → ℕ → KeyTables → KeyTables × MarkResult
mark_integration_key_revoked db id at t =
    if db 0 || db 1 then (t, MarkResult.failed) else elim (first (λ r. id_of r == id) t.keys) [
      | none ↦ (t, MarkResult.not_found)
      | some k ↦ mark_found db id at k.jti t
    ]

-- IsRevoked
unfoldable pub is_revoked : Driver → String → KeyTables → RevokedResult
is_revoked db j t =
    if db 0 then RevokedResult.failed else known (any (λ r. denied_jti r == j) t.denied)
