-- ===== src/Oidc/Authorize.antt =====
-- oidc/authorize.go and oidc/params.go: the authorization endpoint. What the handler takes from
-- elsewhere is in `Authorizer`, what one request meets is in `AuthorizeRequest`; redaction is left
-- out.
pub mod Sent
mod Tests
pub mod Completable
use Prim.Native.Char.{Char, code}
use Prim.Native.String.{len}
use tempogate.Common.{
  ℕ, ◌+◌, String, Bool, true, false, not, ◌&&◌, ◌||◌, Option, none, some, List, [], ◌∷◌, ◌==◌, ◌<>◌,
  if◌then◌else◌, ltb, leb, any, is_space, is_char,
}
use tempogate.Oidc.Model.{AuthRequest}
use tempogate.Oidc.Reply.{
  Failure, Result, ok, err, oauth_err, oauth_error, server_error, bad_request,
}
use tempogate.Oidc.Client.{ClientRegistry, is_confidential}
use tempogate.Oidc.Client.Redirects.{
  Url, Validation, valid, unknown_client, unauthorized_client, redirect_uri_not_allowed, validate,
}
use tempogate.Oidc.Grants.{ParamCap, check_param_lengths}
use tempogate.Oidc.Connector.{Connector, Connectors, BeginParams}
use tempogate.Oidc.Binding.{
  UpstreamBinding, Cookie, cookie, code_challenge, request_id, callback_path,
}
use tempogate.Oidc.Binding
use tempogate.Oidc.Callback.{authorization_response}
use tempogate.State.Driver.{Driver}
use tempogate.State.AuthRequests.{SaveRequestResult, saved, duplicate, save_auth_request}

pub record AuthorizeInput : Type 0 where
  pub response_type : String
  pub client_id : String
  pub redirect_uri : String
  pub scope : String
  pub state : String
  pub code_challenge : String
  pub code_challenge_method : String
  pub nonce : String

-- `parse` is url.Parse, `location` as for the callback.
pub record Authorizer : Type 0 where
  pub parse : String → Option Url
  pub clients : ClientRegistry
  pub binding : UpstreamBinding
  pub connectors : Connectors
  pub issuer : String
  pub location : String → List (String × String) → Option String

pub record AuthorizeRequest : Type 0 where
  pub now : ℕ
  pub random_state : Option String
  pub save_db : Driver

-- authorizeOutput, an error sent back through the redirect URI, or an error.
pub data Answer : Type 0 where
  to_upstream : String → Cookie → Answer
  to_client : String → Answer
  refused : Failure → Answer

-- authRequestTTL, 5 * time.Minute
abbrev pub auth_request_ttl : ℕ
auth_request_ttl = 300_000_000_000

-- 'A'-'Z', 'a'-'z', '0'-'9', '-' and '_'
unfoldable pub is_base64url : ℕ → Bool
is_base64url c =
    (leb b'A' c && leb c b'Z')
    || ((leb b'a' c && leb c b'z')
        || ((leb b'0' c && leb c b'9')
            || ((leb b'-' c && leb c b'-') || (leb b'_' c && leb c b'_'))))

all_base64url : String → Bool
unfolding is_base64url
all_base64url String.[] = true
all_base64url (String.◌∷◌ c s) = is_base64url (code c) && all_base64url s

-- validCodeChallenge: 43 bytes, each of them of the alphabet.
unfoldable pub valid_code_challenge : String → Bool
unfolding all_base64url
valid_code_challenge v = (leb 43 (len v) && leb (len v) 43) && all_base64url v

onto_first : Char → List String → List String
onto_first c [] = (String.◌∷◌ c "") ∷ []
onto_first c (x ∷ xs) = (String.◌∷◌ c x) ∷ xs

-- strings.Fields, with an empty text for every space too many
fields : String → List String
unfolding onto_first
fields String.[] = "" ∷ []
fields (String.◌∷◌ c s) = let rest = fields s in if is_space c then "" ∷ rest else onto_first c rest

-- scopeContains, of a word that is not empty
unfoldable pub scope_contains : String → String → Bool
unfolding fields
scope_contains scope want = any (λ s. s == want) (fields scope)

-- authorize's caps
abbrev pub authorize_caps : AuthorizeInput → List ParamCap
authorize_caps i =
    record { value = i.client_id; max = 256; excess = "client_id exceeds 256 bytes" }
    ∷ record { value = i.redirect_uri; max = 2048; excess = "redirect_uri exceeds 2048 bytes" }
    ∷ record { value = i.scope; max = 1024; excess = "scope exceeds 1024 bytes" }
    ∷ record { value = i.state; max = 512; excess = "state exceeds 512 bytes" }
    ∷ record { value = i.nonce; max = 512; excess = "nonce exceeds 512 bytes" }
    ∷ []

module _ (a : Authorizer) where
  -- check
  unfoldable pub check : AuthorizeInput → Result (Unit {0})
  unfolding valid_code_challenge scope_contains
  check i =
      if not (i.response_type == "code")
      then oauth_err bad_request "unsupported_response_type" "only response_type=code is supported"
      else if not (scope_contains i.scope "openid")
      then oauth_err bad_request "invalid_scope" "scope must include openid"
      else if i.code_challenge == ""
      then (if not (is_confidential a.clients i.client_id)
          then oauth_err bad_request "invalid_request" "code_challenge is required (PKCE)"
          else ok tt)
      else if not (valid_code_challenge i.code_challenge)
      then oauth_err bad_request "invalid_request"
          "code_challenge must be 43 base64url characters (S256)"
      else if not (i.code_challenge_method == "S256")
      then oauth_err bad_request "invalid_request" "code_challenge_method must be S256"
      else ok tt

  abbrev pub begin_params : Connector → String → BeginParams
  begin_params conn state = record {
    redirect_uri = a.issuer <> callback_path conn.id;
    state = state;
    code_challenge = code_challenge a.binding conn.id state;
    nonce = Binding.nonce a.binding conn.id state;
    request_id = request_id a.binding conn.id state;
  }

  -- An error that goes back to the client.
  abbrev pub report : Option String → Answer
  report (some url) = to_client url
  report none = refused server_error

  abbrev pub report_error : AuthorizeInput → Failure → Answer
  report_error i (oauth_error status code desc) = report (
      authorization_response a.location i.redirect_uri a.issuer i.state
        (("error", code) ∷ ("error_description", desc) ∷ []))
  report_error i other = refused other

module _ (a : Authorizer) (q : AuthorizeRequest) (i : AuthorizeInput) where
  abbrev pub request_of : String → AuthRequest
  request_of state = record {
    internal_state = state;
    connector_id = a.connectors.active.id;
    client_id = i.client_id;
    redirect_uri = i.redirect_uri;
    scope = i.scope;
    client_state = i.state;
    code_challenge = i.code_challenge;
    code_challenge_method = i.code_challenge_method;
    nonce = i.nonce;
    created_at = q.now;
    expires_at = q.now + auth_request_ttl;
  }

  -- The start of the connector's sign-in, and the cookie beside it.
  abbrev pub depart : String → Option String → Answer
  depart state none = refused server_error
  depart state (some url) = to_upstream url (cookie a.binding a.connectors.active.id state)

  abbrev pub begin_saved : String → List AuthRequest × SaveRequestResult → List AuthRequest × Answer
  begin_saved state (rows, saved) = (
    rows,
    depart state (a.connectors.active.begin_sign_in (begin_params a a.connectors.active state)),
  )
  begin_saved state (rows, duplicate) = (rows, refused server_error)
  begin_saved state (rows, SaveRequestResult.failed) = (rows, refused server_error)

  abbrev pub begin_login : List AuthRequest → Option String → List AuthRequest × Answer
  begin_login rows none = (rows, refused server_error)
  begin_login rows (some state) =
      begin_saved state (save_auth_request q.save_db (request_of state) rows)

  abbrev pub checked : List AuthRequest → Result (Unit {0}) → List AuthRequest × Answer
  checked rows (ok tt) = begin_login rows q.random_state
  checked rows (err e) = (rows, report_error a i e)

  -- What the registry says of the client and its redirect URI.
  abbrev pub validated : List AuthRequest → Validation → List AuthRequest × Answer
  validated rows valid = checked rows (check a i)
  validated rows unknown_client =
      (rows, refused (oauth_error bad_request "invalid_client" "unknown client_id"))
  validated rows unauthorized_client = (
    rows,
    refused (
        oauth_error bad_request "unauthorized_client"
          "client is not registered for the authorization-code flow"),
  )
  validated rows redirect_uri_not_allowed = (
    rows,
    refused
        (oauth_error bad_request "invalid_request" "redirect_uri not registered for this client"),
  )

  abbrev pub sized : List AuthRequest → Result (Unit {0}) → List AuthRequest × Answer
  sized rows (err e) = (rows, refused e)
  sized rows (ok tt) = validated rows (validate a.parse a.clients i.client_id i.redirect_uri)

  -- handle
  unfoldable pub authorize : List AuthRequest → List AuthRequest × Answer
  authorize rows = sized rows (check_param_lengths (authorize_caps i))
