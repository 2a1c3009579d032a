-- ===== src/Oidc/Session.antt =====
-- oidc/session.go: the browser session of the device pages, a signed cookie over a row of the
-- table. The sid generator's answers, the clock's readings and the request's cookie are arguments.
pub mod Active
mod Tests
use tempogate.Common.{
  ℕ, ◌+◌, ◌/◌, String, Bool, true, false, not, ◌&&◌, Option, none, some, List, ◌==◌, if◌then◌else◌,
  ltb, is_none,
}
use tempogate.State.Driver.{Driver}
use tempogate.State.BrowserSessions.{
  SessionRow, SaveSessionResult, saved, duplicate, LookupSessionResult, found, not_found,
  DeleteSessionResult, deleted, save_browser_session, lookup_browser_session,
  delete_browser_session,
}
use tempogate.Oidc.Model.{Identity, BrowserSession}
use tempogate.Oidc.Binding.{Cookie}
use tempogate.Oidc.Mac.{Signer, mac_label_session_cookie, signed, verify_signed}

-- SessionManager: `hash` is the table's, and read_cookie how net/http reads the named cookie off a
-- header. The time to live is in nanoseconds.
pub record SessionManager : Type 0 where
  pub hash : String → String
  pub signer : Signer
  pub read_cookie : String → String → Option String
  pub ttl : ℕ
  pub cookie_name : String
  pub cookie_path : String
  pub cookie_secure : Bool

pub data IssueResult : Type 0 where
  issued : String → Cookie → IssueResult
  failed : IssueResult

-- no_session is ErrNoSession.
pub data GetResult : Type 0 where
  active : BrowserSession → GetResult
  no_session failed : GetResult

pub data ClearResult : Type 0 where
  cleared : Cookie → ClearResult
  failed : ClearResult

module _ (m : SessionManager) where
  abbrev pub sign_cookie : String → String
  sign_cookie sid = signed m.signer mac_label_session_cookie sid

  abbrev pub verify_cookie : String → Option String
  verify_cookie value = verify_signed m.signer mac_label_session_cookie value

  abbrev pub sid_of_cookie : Option String → Option String
  sid_of_cookie none = none
  sid_of_cookie (some value) = verify_cookie value

  -- sidFromRequest
  abbrev pub sid_from_request : String → Option String
  sid_from_request header = sid_of_cookie (m.read_cookie header m.cookie_name)

  abbrev pub session_cookie : String → Cookie
  session_cookie sid = record {
    name = m.cookie_name;
    value = sign_cookie sid;
    path = m.cookie_path;
    secure = m.cookie_secure;
    max_age = some (m.ttl / 1_000_000_000);
  }

  abbrev pub cleared_cookie : Cookie
  cleared_cookie = record {
    name = m.cookie_name;
    value = "";
    path = m.cookie_path;
    secure = m.cookie_secure;
    max_age = none;
  }

  abbrev pub new_session : String → Identity → ℕ → BrowserSession
  new_session sid id now = record {
    sid = sid;
    connector_id = id.connector_id;
    subject = id.subject;
    email = id.email;
    created_at = now;
    expires_at = now + m.ttl;
  }

  abbrev pub issue_saved :
      String → List SessionRow × SaveSessionResult → List SessionRow × IssueResult
  issue_saved sid (rows, saved) = (rows, issued sid (session_cookie sid))
  issue_saved sid (rows, duplicate) = (rows, IssueResult.failed)
  issue_saved sid (rows, SaveSessionResult.failed) = (rows, IssueResult.failed)

  abbrev pub issue_for :
      Driver → Option String → Identity → ℕ → List SessionRow → List SessionRow × IssueResult
  issue_for db none id now rows = (rows, IssueResult.failed)
  issue_for db (some sid) id now rows =
      issue_saved sid (save_browser_session m.hash db (new_session sid id now) rows)

  -- IssueCookie; the generator's answer is an argument, none for its error.
  unfoldable pub issue_cookie :
      Driver → Option String → Identity → ℕ → List SessionRow → List SessionRow × IssueResult
  issue_cookie = issue_for

  abbrev pub usable : ℕ → BrowserSession → Bool
  usable now bs = ltb now bs.expires_at && not (bs.subject == "")

  abbrev pub get_found : ℕ → LookupSessionResult → GetResult
  get_found now (found bs) = if usable now bs then active bs else no_session
  get_found now not_found = no_session
  get_found now LookupSessionResult.failed = GetResult.failed

  abbrev pub get_for : Driver → ℕ → Option String → List SessionRow → GetResult
  get_for db now none rows = no_session
  get_for db now (some sid) rows = get_found now (lookup_browser_session m.hash db sid rows)

  -- Get
  unfoldable pub get : Driver → ℕ → String → List SessionRow → GetResult
  get db now header rows = get_for db now (sid_from_request header) rows

  abbrev pub clear_deleted : List SessionRow × DeleteSessionResult → List SessionRow × ClearResult
  clear_deleted (rows, deleted) = (rows, cleared cleared_cookie)
  clear_deleted (rows, DeleteSessionResult.failed) = (rows, ClearResult.failed)

  abbrev pub clear_for : Driver → Option String → List SessionRow → List SessionRow × ClearResult
  clear_for db none rows = (rows, cleared cleared_cookie)
  clear_for db (some sid) rows = clear_deleted (delete_browser_session m.hash db sid rows)

  -- Clear
  unfoldable pub clear : Driver → String → List SessionRow → List SessionRow × ClearResult
  clear db header rows = clear_for db (sid_from_request header) rows
