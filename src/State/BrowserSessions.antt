-- ===== src/State/BrowserSessions.antt =====
-- state/sqlite/browser_sessions.go: the browser_sessions table. `hash` stands for the SHA-256 of
-- state/internal/secret.
pub mod Stored
mod Tests
use tempogate.Common.{
  ℕ, String, ◌==◌, Option, none, some, List, ◌∷◌, if◌then◌else◌, first, any, delete,
}
use tempogate.Oidc.Model.{BrowserSession}
use tempogate.State.Driver.{Driver}

pub record SessionRow : Type 0 where
  pub sid_hash : String
  pub connector_id : String
  pub subject : String
  pub email : String
  pub created_at : ℕ
  pub expires_at : ℕ

pub data SaveSessionResult : Type 0 where
  saved duplicate failed : SaveSessionResult

pub data LookupSessionResult : Type 0 where
  found : BrowserSession → LookupSessionResult
  not_found failed : LookupSessionResult

pub data DeleteSessionResult : Type 0 where
  deleted failed : DeleteSessionResult

abbrev pub sid_hash_of : SessionRow → String
sid_hash_of r = r.sid_hash

abbrev pub scan_session : String → SessionRow → BrowserSession
scan_session sid r = record {
  sid = sid;
  connector_id = r.connector_id;
  subject = r.subject;
  email = r.email;
  created_at = r.created_at;
  expires_at = r.expires_at;
}

module _ (hash : String → String) where
  abbrev pub session_row : BrowserSession → SessionRow
  session_row bs = record {
    sid_hash = hash bs.sid;
    connector_id = bs.connector_id;
    subject = bs.subject;
    email = bs.email;
    created_at = bs.created_at;
    expires_at = bs.expires_at;
  }

  -- SaveBrowserSession.
  unfoldable pub save_browser_session :
      Driver → BrowserSession → List SessionRow → List SessionRow × SaveSessionResult
  save_browser_session db bs rows =
      if db 0
      then (rows, SaveSessionResult.failed)
      else if any (λ r. sid_hash_of r == hash bs.sid) rows
      then (rows, duplicate)
      else (session_row bs ∷ rows, saved)

  -- LookupBrowserSession.
  unfoldable pub lookup_browser_session : Driver → String → List SessionRow → LookupSessionResult
  lookup_browser_session db sid rows =
      if db 0
      then LookupSessionResult.failed
      else elim (first (λ r. sid_hash_of r == hash sid) rows) [
        | some r ↦ found (scan_session sid r)
        | none ↦ not_found
      ]

  -- DeleteBrowserSession: an unknown sid is no error.
  unfoldable pub delete_browser_session :
      Driver → String → List SessionRow → List SessionRow × DeleteSessionResult
  delete_browser_session db sid rows =
      if db 0
      then (rows, DeleteSessionResult.failed)
      else (delete (λ r. sid_hash_of r == hash sid) rows, deleted)
