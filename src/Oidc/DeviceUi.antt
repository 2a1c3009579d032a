-- ===== src/Oidc/DeviceUi.antt =====
-- oidc/device_ui.go: the pages on which a person approves a device's sign-in. What the handlers
-- take from elsewhere is in `DeviceUi`, what one request meets is in `UiRequest`; the templates,
-- the security headers, logs and redaction are left out. `T` is the limiter's type of tokens.
pub mod UserCode
pub mod Bounce
pub mod Attempts
pub mod Pages
pub mod Decision
pub mod Approval
pub mod Throttled
pub mod SignedIn
mod Tests
use tempogate.Common.{ℕ, String, Bool, Option, List}
use tempogate.Oidc.Model.{BrowserSession}
use tempogate.Oidc.Reply.{Tables}
use tempogate.Oidc.Binding.{Cookie}
use tempogate.Oidc.Mac.{Signer}
use tempogate.Oidc.Grants.{Form}
use tempogate.Oidc.Token.{Server, Request, Resolved}
use tempogate.Oidc.Session.{SessionManager}
use tempogate.Ratelimit.{Arithmetic, Limiter}
use tempogate.State.BrowserSessions.{SessionRow}
use tempogate.State.Driver.{Driver}

-- What net/url makes of a Referer that parses: its Scheme, its Host, whether it has a User, and its
-- EscapedPath.
pub record Referer : Type 0 where
  pub scheme : String
  pub host : String
  pub has_user : Bool
  pub escaped_path : String

-- deviceBounceState, Exp in seconds
pub record BounceState : Type 0 where
  pub user_code : String
  pub nonce : String
  pub exp : ℕ

-- The templates, each with the values that its page shows.
pub data Page : Type 0 where
  enter_page : String → Page
  confirm_page : String → String → String → Page
  approved_page denied_page noaccess_page : Page
  error_page : String → Page

pub data Answer : Type 0 where
  html : ℕ → Page → Answer
  see_other : String → Option Cookie → Answer
  server_error : Answer

-- One request: the readings of the clock, the draws of the generators, the limiter's key of the
-- client, and the database driver in each call of the store.
pub record UiRequest : Type 0 where
  pub cookie : String
  pub origin : String
  pub referer : String
  pub body : String
  pub client_key : String
  pub now : ℕ
  pub now_sign : ℕ
  pub now_deny : ℕ
  pub now_session : ℕ
  pub now_ip : ℕ
  pub now_attempt : ℕ
  pub nonce : Option String
  pub sid : Option String
  pub redeem : Request
  pub session_db : Driver
  pub lookup_db : Driver
  pub deny_db : Driver
  pub decide_db : Driver

module _ (T : Type 0) where
  -- `escaped_path` and `path` are those of the issuer's URL; the functions are those of net/url,
  -- encoding/json and strings.EqualFold.
  pub record DeviceUi : Type 0 where
    pub server : Server
    pub sessions : SessionManager
    pub signer : Signer
    pub arithmetic : Arithmetic T
    pub resolve : String → Resolved
    pub issuer : String
    pub issuer_scheme : String
    pub issuer_host : String
    pub issuer_escaped_path : String
    pub issuer_path : String
    pub internal_client_id : String
    pub internal_client_secret : String
    pub parse_query : String → Option Form
    pub parse_referer : String → Option Referer
    pub query_escape : String → String
    pub encode_query : List (String × String) → String
    pub equal_fold : String → String → Bool
    pub marshal : BounceState → String
    pub unmarshal : String → Option BounceState

  -- What the handlers read and write.
  pub record Ui : Type 0 where
    pub tables : Tables
    pub sessions : List SessionRow
    pub ip_attempts : Limiter T
    pub session_attempts : Limiter T
