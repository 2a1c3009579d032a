-- ===== src/State/Refresh.antt =====
-- state/sqlite/refresh.go: the refresh_tokens table. `hash` stands for the SHA-256 of
-- state/internal/secret, `lower` for the lower() of SQLite.
pub mod History
pub mod Reuse
pub mod Revocation
pub mod Family
pub mod Lookup
mod Tests
use tempogate.Common.{
  ℕ, zero, suc, String, Bool, ◌&&◌, Option, none, some, List, [], ◌∷◌, ◌==◌, if◌then◌else◌, is_some,
  is_none, first, any, update, count,
}
use tempogate.Oidc.Model.{Refresh}
use tempogate.State.Driver.{Driver}

-- A row: the columns of refreshColumns and the two stamps.
pub record RefreshRow : Type 0 where
  pub token_hash : String
  pub jti : String
  pub client_id : String
  pub connector_id : String
  pub subject : String
  pub email : String
  pub family_id : String
  pub auth_time : ℕ
  pub created_at : ℕ
  pub expires_at : ℕ
  pub consumed_at : Option ℕ
  pub revoked_at : Option ℕ

pub data SaveResult : Type 0 where
  saved duplicate family_revoked failed : SaveResult

pub data ConsumeResult : Type 0 where
  consumed reused : Refresh → ConsumeResult
  not_found failed : ConsumeResult

pub data RevokeResult : Type 0 where
  revoked : ℕ → RevokeResult
  session_not_found failed : RevokeResult

-- scanRefresh: the row's fields, with the token that the caller presented.
abbrev pub scan_refresh : String → RefreshRow → Refresh
scan_refresh token r = record {
  token = token;
  jti = r.jti;
  client_id = r.client_id;
  connector_id = r.connector_id;
  subject = r.subject;
  email = r.email;
  family_id = r.family_id;
  auth_time = r.auth_time;
  created_at = r.created_at;
  expires_at = r.expires_at;
}

abbrev pub in_family : String → RefreshRow → Bool
in_family family_id r = r.family_id == family_id

-- family_id = ? AND revoked_at IS NOT NULL
abbrev pub revoked_in : String → RefreshRow → Bool
revoked_in family_id r = in_family family_id r && is_some r.revoked_at

-- consumed_at IS NULL AND revoked_at IS NULL
abbrev pub is_live : RefreshRow → Bool
is_live r = is_none r.consumed_at && is_none r.revoked_at

abbrev pub has_hash : String → RefreshRow → Bool
has_hash h r = r.token_hash == h

-- The WHERE clauses of the two statements of ConsumeRefresh.
abbrev pub live_for : String → String → RefreshRow → Bool
live_for h client_id r = has_hash h r && ((r.client_id == client_id) && is_live r)

abbrev pub spent_for : String → String → RefreshRow → Bool
spent_for h client_id r = has_hash h r && ((r.client_id == client_id) && is_some r.consumed_at)

abbrev pub consume_row : ℕ → RefreshRow → RefreshRow
consume_row at r = record r { consumed_at = some at }

abbrev pub revoke_row : ℕ → RefreshRow → RefreshRow
revoke_row at r = record r { revoked_at = some at }

-- … AND revoked_at IS NULL
abbrev pub unrevoked : (RefreshRow → Bool) → RefreshRow → Bool
unrevoked p r = p r && is_none r.revoked_at

-- revokeRefresh. The RETURNING clause is read of the rows as the statement found them: it says
-- which of them had not been consumed.
unfoldable pub revoke_refresh :
    Driver → (RefreshRow → Bool) → ℕ → List RefreshRow → List RefreshRow × RevokeResult
revoke_refresh db p at rows =
    if db 0
    then (rows, RevokeResult.failed)
    else let rows' = update (unrevoked p) (revoke_row at) rows in
      if db 1
      then (rows', RevokeResult.failed)
      else (rows', revoked (count (λ r. unrevoked p r && is_none r.consumed_at) rows))

-- The part of RevokeRefreshFamily behind revokeRefresh.
abbrev pub check_family :
    Driver → String → List RefreshRow × RevokeResult → List RefreshRow × RevokeResult
check_family db family_id (rows', revoked zero) =
    if db 2
    then (rows', RevokeResult.failed)
    else if any (in_family family_id) rows'
    then (rows', revoked 0)
    else (rows', session_not_found)
check_family db family_id (rows', revoked (suc n)) = (rows', revoked (suc n))
check_family db family_id (rows', session_not_found) = (rows', session_not_found)
check_family db family_id (rows', RevokeResult.failed) = (rows', RevokeResult.failed)

unfoldable pub revoke_refresh_family :
    Driver → String → ℕ → List RefreshRow → List RefreshRow × RevokeResult
revoke_refresh_family db family_id at rows =
    check_family db family_id (revoke_refresh db (in_family family_id) at rows)

unfoldable pub revoke_refresh_by_email :
    (String → String) → Driver → String → ℕ → List RefreshRow → List RefreshRow × RevokeResult
revoke_refresh_by_email lower db email at rows =
    revoke_refresh db (λ r. lower r.email == lower email) at rows

unfoldable pub revoke_refresh_by_subject :
    Driver → String → String → ℕ → List RefreshRow → List RefreshRow × RevokeResult
revoke_refresh_by_subject db connector_id subject at rows =
    revoke_refresh db (λ r. (r.connector_id == connector_id) && (r.subject == subject)) at rows

module _ (hash : String → String) where
  abbrev pub row_of : Refresh → RefreshRow
  row_of r = record {
    token_hash = hash r.token;
    jti = r.jti;
    client_id = r.client_id;
    connector_id = r.connector_id;
    subject = r.subject;
    email = r.email;
    family_id = r.family_id;
    auth_time = r.auth_time;
    created_at = r.created_at;
    expires_at = r.expires_at;
    consumed_at = none;
    revoked_at = none;
  }

  -- SaveRefresh. The SELECT of a revoked family has no row to insert, so the primary key is not
  -- even tested there.
  unfoldable pub save_refresh : Driver → Refresh → List RefreshRow → List RefreshRow × SaveResult
  save_refresh db r rows =
      if db 0
      then (rows, SaveResult.failed)
      else if any (revoked_in r.family_id) rows
      then (rows, if db 1 then SaveResult.failed else family_revoked)
      else if any (has_hash (hash r.token)) rows
      then (rows, duplicate)
      else (row_of r ∷ rows, if db 1 then SaveResult.failed else saved)

  -- ConsumeRefresh.
  unfoldable pub consume_refresh :
      Driver → String → String → ℕ → List RefreshRow → List RefreshRow × ConsumeResult
  consume_refresh db token client_id at rows =
      let h = hash token in
      if db 0 then (rows, ConsumeResult.failed) else elim (first (live_for h client_id) rows) [
        | some r ↦
            (update (live_for h client_id) (consume_row at) rows, consumed (scan_refresh token r))
        | none ↦
            if db 1
            then (rows, ConsumeResult.failed)
            else elim (first (spent_for h client_id) rows) [
              | some r ↦ (rows, reused (scan_refresh token r))
              | none ↦ (rows, not_found)
            ]
      ]
