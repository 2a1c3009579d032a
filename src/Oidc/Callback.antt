-- ===== src/Oidc/Callback.antt =====
-- oidc/callback.go: the upstream sign-in's way back. What the handler takes from elsewhere is in
-- `Callback`, what one request meets is in `CallbackRequest`; logs and redaction are left out.
pub mod Admission
pub mod Browser
pub mod SignIn
use tempogate.Common.{
  ℕ, ◌+◌, String, Bool, true, false, not, Option, none, some, List, [], ◌∷◌, ◌++◌, ◌<>◌, ◌==◌,
  if◌then◌else◌, ltb, any, cut_last, split, trim_space, is_some,
}
use tempogate.Oidc.Model.{AuthRequest, AuthCode}
use tempogate.Oidc.Reply.{Failure, Result, oauth_error, server_error, bad_request, ok, err}
use tempogate.Oidc.Token.{Resolved}
use tempogate.Oidc.Token.Issue.{permitted}
use tempogate.Oidc.Grants.{no_access}
use tempogate.Oidc.Connector.{
  Connector, Connectors, lookup, CompleteParams, Completion, Completed, completed, upstream_denied,
  missing_response, upstream_error, UpstreamIdentity,
}
use tempogate.Oidc.Binding.{
  UpstreamBinding, Cookie, bound_to_browser, clear_cookie, code_verifier, request_id, callback_path,
}
use tempogate.Oidc.Binding
use tempogate.State.Driver.{Driver}
use tempogate.State.AuthRequests.{ConsumeRequestResult, consumed, not_found, consume_auth_request}
use tempogate.State.AuthCodes.{AuthCodeRow, SaveCodeResult, saved, duplicate, save_auth_code}

-- The tables that a browser's sign-in reads and writes.
pub record Logins : Type 0 where
  pub requests : List AuthRequest
  pub codes : List AuthCodeRow

-- The handler's collaborators: the store's hash, the binding, the connectors, the domains, the
-- resolver and the issuer; `location` sets parameters, in order, in the query of a URI, as
-- net/url does, and is none when the URI does not parse.
pub record Callback : Type 0 where
  pub hash : String → String
  pub binding : UpstreamBinding
  pub connectors : Connectors
  pub allowed_domains : List String
  pub lower : String → String
  pub resolve : String → Resolved
  pub issuer : String
  pub location : String → List (String × String) → Option String

-- One request: the path, the Cookie header and the query, the readings of the clock, the drawn
-- code, and the driver in each call of the store.
pub record CallbackRequest : Type 0 where
  pub connector : String
  pub cookie : String
  pub params : String → String
  pub now : ℕ
  pub now_code : ℕ
  pub random_code : Option String
  pub consume_db : Driver
  pub save_db : Driver

-- callbackOutput and the error beside it: a redirect to the client with a cookie to clear, the
-- page for an address with a cookie to clear, huma's 404, or an error.
pub data Response : Type 0 where
  redirected : String → Cookie → Response
  forbidden_page : String → Cookie → Response
  no_such_connector : Response
  failed : Failure → Response

pub data Reason : Type 0 where
  success missing_state state_not_bound unknown_state expired_request connector_mismatch : Reason
  upstream_was_denied missing_code upstream_failed authz_denied internal unrouted : Reason
  refused_by : String → Reason

abbrev pub Outcome : Type 0
Outcome = Logins × Response × Reason

-- authCodeTTL, 1 * time.Minute
abbrev pub auth_code_ttl : ℕ
auth_code_ttl = 60_000_000_000

-- The text behind an '@' that is not the last character.
abbrev domain_of : String → Option String
domain_of email = elim (cut_last b'@' email) [
  | none ↦ none
  | some (local, domain) ↦ if domain == "" then none else some domain
]

-- emailDomainAllowed
unfoldable pub email_domain_allowed : (String → String) → List String → String → Bool
email_domain_allowed lower allowed email = elim (domain_of email) [
  | none ↦ false
  | some domain ↦ any (λ d. d == lower domain) allowed
]

domains_of : (String → String) → List String → List String
domains_of lower [] = []
domains_of lower (raw ∷ raws) =
    let rest = domains_of lower raws in
    let d = lower (trim_space raw) in if d == "" then rest else d ∷ rest

-- ParseDomains: the set is the list of its members.
unfoldable pub parse_domains : (String → String) → String → List String
unfolding domains_of
parse_domains lower raw = domains_of lower (split b',' raw)

-- authorizationResponse (oidc/authorize.go)
unfoldable pub authorization_response :
    (String → List (String × String) → Option String)
    → String
    → String
    → String
    → List (String × String)
    → Option String
authorization_response location redirect_uri issuer state params = location redirect_uri (
    params
    ++ ((if state == "" then [] else ("state", state) ∷ [])
        ++ (if issuer == "" then [] else ("iss", issuer) ∷ [])))

module _ (c : Callback) where
  -- refusal
  unfoldable pub refusal : UpstreamIdentity → String → String
  refusal id connector_refusal =
      if not id.email_verified
      then "email_unverified"
      else if not (email_domain_allowed c.lower c.allowed_domains id.email)
      then "domain_not_allowed"
      else connector_refusal

  -- redirect: the Location of an answer to the client, none if its URI does not parse.
  abbrev pub redirect : AuthRequest → List (String × String) → Option String
  redirect ar params =
      authorization_response c.location ar.redirect_uri c.issuer ar.client_state params

  abbrev pub answer_client : Cookie → Reason → Logins → Option String → Outcome
  answer_client clear reason t (some url) = (t, redirected url clear, reason)
  answer_client clear reason t none = (t, failed server_error, reason)

  unfoldable pub named : Completed → Completed
  named (completed done) = if done.identity.subject == "" then upstream_error else completed done
  named (upstream_denied code desc) = upstream_denied code desc
  named missing_response = missing_response
  named upstream_error = upstream_error

  abbrev pub complete_params : Connector → (String → String) → String → CompleteParams
  complete_params conn params state = record {
    redirect_uri = c.issuer <> callback_path conn.id;
    params = params;
    code_verifier = code_verifier c.binding conn.id state;
    nonce = Binding.nonce c.binding conn.id state;
    request_id = request_id c.binding conn.id state;
  }

  -- completeUpstream
  unfoldable pub complete_upstream : Connector → (String → String) → String → Completed
  unfolding named
  complete_upstream conn params state =
      named (conn.complete_sign_in (complete_params conn params state))

module _ (c : Callback) (q : CallbackRequest) where
  abbrev pub code_of : Connector → AuthRequest → UpstreamIdentity → String → AuthCode
  code_of conn ar id code = record {
    code = code;
    client_id = ar.client_id;
    redirect_uri = ar.redirect_uri;
    connector_id = conn.id;
    subject = id.subject;
    email = id.email;
    scope = ar.scope;
    code_challenge = ar.code_challenge;
    code_challenge_method = ar.code_challenge_method;
    nonce = ar.nonce;
    family_id = "";
    created_at = q.now_code;
    expires_at = q.now_code + auth_code_ttl;
  }

  -- The last step: a failed redirect is an internal error.
  abbrev pub deliver : Cookie → Logins → Option String → Outcome
  deliver clear t (some url) = (t, redirected url clear, success)
  deliver clear t none = (t, failed server_error, internal)

  abbrev pub after_save :
      AuthRequest → Cookie → String → Logins → List AuthCodeRow × SaveCodeResult → Outcome
  after_save ar clear code t (rows, saved) =
      deliver clear (record t { codes = rows }) (redirect c ar (("code", code) ∷ []))
  after_save ar clear code t (rows, duplicate) =
      (record t { codes = rows }, failed server_error, internal)
  after_save ar clear code t (rows, SaveCodeResult.failed) =
      (record t { codes = rows }, failed server_error, internal)

  -- The code of an admitted person who has permissions, as newCode drew it.
  abbrev pub mint_code :
      Connector → AuthRequest → Cookie → UpstreamIdentity → Logins → Option String → Outcome
  mint_code conn ar clear id t none = (t, failed server_error, internal)
  mint_code conn ar clear id t (some code) =
      after_save ar clear code t (save_auth_code c.hash q.save_db (code_of conn ar id code) t.codes)

  -- Behind the gates: an account without permissions is refused at the client.
  abbrev pub admit :
      Connector → AuthRequest → Cookie → UpstreamIdentity → Logins → Result (List String) → Outcome
  admit conn ar clear id t (ok claim) = mint_code conn ar clear id t q.random_code
  admit conn ar clear id t (err server_error) = (t, failed server_error, internal)
  admit conn ar clear id t (err _) =
      answer_client c clear authz_denied t
        (redirect c ar (("error", "access_denied") ∷ ("error_description", no_access) ∷ []))

  unfoldable pub gate : Connector → AuthRequest → Cookie → Completion → Logins → Outcome
  unfolding refusal
  gate conn ar clear done t =
      let refused = refusal c done.identity done.refusal in
      if refused == ""
      then admit conn ar clear done.identity t (permitted (c.resolve done.identity.email))
      else (t, forbidden_page done.identity.email clear, refused_by refused)

  unfoldable pub upstream_answer : Connector → AuthRequest → Cookie → Logins → Completed → Outcome
  unfolding gate
  upstream_answer conn ar clear t (completed done) = gate conn ar clear done t
  upstream_answer conn ar clear t (upstream_denied code desc) =
      answer_client c clear upstream_was_denied t
        (redirect c ar (("error", code) ∷ ("error_description", desc) ∷ []))
  upstream_answer conn ar clear t missing_response =
      (t, failed (oauth_error bad_request "invalid_request" "missing code"), missing_code)
  upstream_answer conn ar clear t upstream_error = (
    t,
    failed (
        oauth_error 502 "upstream_error"
          ("could not complete " <> (conn.display_name <> " sign-in"))),
    upstream_failed,
  )

  -- What complete does with the request that it consumed.
  unfoldable pub resume : Connector → String → AuthRequest → Logins → Outcome
  unfolding upstream_answer
  resume conn state ar t =
      if ltb ar.expires_at q.now
      then (
        t,
        failed (oauth_error bad_request "invalid_request" "auth request expired"),
        expired_request,
      )
      else if not (ar.connector_id == conn.id)
      then (
        t,
        failed (
            oauth_error bad_request "invalid_request"
              "state was issued for another sign-in method"),
        connector_mismatch,
      )
      else upstream_answer conn ar (clear_cookie c.binding conn.id state) t
          (complete_upstream c conn q.params state)

  unfoldable pub after_consume :
      Connector → String → Logins → List AuthRequest × ConsumeRequestResult → Outcome
  unfolding resume
  after_consume conn state t (rows, consumed ar) =
      resume conn state ar (record t { requests = rows })
  after_consume conn state t (rows, not_found) = (
    record t { requests = rows },
    failed (oauth_error bad_request "invalid_request" "unknown or already-used state"),
    unknown_state,
  )
  after_consume conn state t (rows, ConsumeRequestResult.failed) =
      (record t { requests = rows }, failed server_error, internal)

  -- complete
  unfoldable pub complete : Connector → Logins → Outcome
  unfolding after_consume
  complete conn t =
      let state = q.params conn.state_param in
      if state == ""
      then (t, failed (oauth_error bad_request "invalid_request" "missing state"), missing_state)
      else if not (bound_to_browser c.binding q.cookie conn.id state)
      then (
        t,
        failed
            (oauth_error bad_request "invalid_request" "sign-in was not started in this browser"),
        state_not_bound,
      )
      else after_consume conn state t (consume_auth_request q.consume_db state t.requests)

  abbrev pub route : Logins → Option Connector → Outcome
  route t none = (t, no_such_connector, unrouted)
  route t (some conn) = complete conn t

  -- handle
  unfoldable pub handle : Logins → Outcome
  handle t = route t (lookup c.connectors q.connector)
