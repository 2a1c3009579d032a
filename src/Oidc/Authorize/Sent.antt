-- ===== src/Oidc/Authorize/Sent.antt =====
-- oidc/authorize.go: whom the authorization endpoint sends on, and what it has stored then.
use tempogate.Common.{
  String, ◌≡◌, ◌≢◌, refl, ap, ◌⊎◌, true, Option, none, some, List, arith, eq_iff,
}
use tempogate.Oidc.Model.{AuthRequest}
use tempogate.Oidc.Reply.{Result, Failure, ok, err, oauth_error, no_permissions, server_error}
use tempogate.Oidc.Client.{is_confidential}
use tempogate.Oidc.Client.Redirects.{
  Validation, valid, unknown_client, unauthorized_client, redirect_uri_not_allowed, validate,
}
use tempogate.Oidc.Binding.{Cookie, cookie}
use tempogate.State.AuthRequests.{SaveRequestResult, saved, duplicate, save_auth_request}
use tempogate.Oidc.Authorize.{
  AuthorizeInput, Authorizer, AuthorizeRequest, Answer, to_upstream, refused, valid_code_challenge,
  scope_contains, check, begin_params, report, report_error, request_of, depart, begin_saved,
  begin_login, checked, validated, sized, authorize,
}

module _ (a : Authorizer) (q : AuthorizeRequest) (i : AuthorizeInput) where
  -- the code flow with PKCE, or with a confidential client
  abbrev pub IsCodeFlow : Type 0
  IsCodeFlow =
      (i.response_type ≡ "code")
      × (scope_contains i.scope "openid" ≡ true)
      × (((i.code_challenge ≡ "") × (is_confidential a.clients i.client_id ≡ true))
          ⊎ ((valid_code_challenge i.code_challenge ≡ true) × (i.code_challenge_method ≡ "S256")))

  check_ok : (u : Unit {0}) → check a i ≡ ok u → IsCodeFlow
  unfolding check
  check_ok u e = ground (
    arith,
    eq_iff i.response_type "code",
    eq_iff i.code_challenge "",
    eq_iff i.code_challenge_method "S256",
  )

  -- what an upstream sign-in began with
  abbrev pub IsBegun : List AuthRequest → List AuthRequest → String → Cookie → Type 0
  IsBegun rows rows' url binding =
      (state : String) × (q.random_state ≡ some state)
      × (save_auth_request q.save_db (request_of a q i state) rows ≡ (rows', saved))
      × (a.connectors.active.begin_sign_in (begin_params a a.connectors.active state) ≡ some url)
      × (binding ≡ cookie a.binding a.connectors.active.id state)

  depart_upstream :
      (state : String) (o : Option String) {url : String} {binding : Cookie}
      → depart a q i state o ≡ to_upstream url binding
      → (o ≡ some url) × (binding ≡ cookie a.binding a.connectors.active.id state)
  depart_upstream state none e = cc
  depart_upstream state (some url) e = (cc, cc)

  begin_saved_upstream :
      (state : String) (o : List AuthRequest × SaveRequestResult) {rows' : List AuthRequest}
      {url : String} {binding : Cookie}
      → begin_saved a q i state o ≡ (rows', to_upstream url binding)
      → (o ≡ (rows', saved))
        × ((a.connectors.active.begin_sign_in (begin_params a a.connectors.active state) ≡ some url)
            × (binding ≡ cookie a.binding a.connectors.active.id state))
  begin_saved_upstream state (rows, saved) e =
      (ap (λ o. (o.0, saved)) e, depart_upstream state _ (ap (λ o. o.1) e))
  begin_saved_upstream state (rows, duplicate) e = cc
  begin_saved_upstream state (rows, SaveRequestResult.failed) e = cc

  begin_login_upstream :
      (rows : List AuthRequest) (o : Option String) {rows' : List AuthRequest} {url : String}
      {binding : Cookie}
      → q.random_state ≡ o
      → begin_login a q i rows o ≡ (rows', to_upstream url binding)
      → IsBegun rows rows' url binding
  begin_login_upstream rows none d e = cc
  begin_login_upstream rows (some state) d e =
      let (stored, (begun, own)) = begin_saved_upstream state _ e in (state, d, stored, begun, own)

  report_upstream :
      (o : Option String) {url : String} {binding : Cookie} → report a o ≢ to_upstream url binding
  report_upstream (some url) e = cc
  report_upstream none e = cc

  report_error_upstream :
      (x : Failure) {url : String} {binding : Cookie} → report_error a i x ≢ to_upstream url binding
  report_error_upstream (oauth_error status code desc) e = report_upstream _ e
  report_error_upstream no_permissions e = cc
  report_error_upstream server_error e = cc

  checked_upstream :
      (rows : List AuthRequest) (o : Result (Unit {0})) {rows' : List AuthRequest} {url : String}
      {binding : Cookie}
      → check a i ≡ o
      → checked a q i rows o ≡ (rows', to_upstream url binding)
      → IsCodeFlow × IsBegun rows rows' url binding
  checked_upstream rows (ok tt) c e =
      (check_ok tt c, begin_login_upstream rows q.random_state refl e)
  checked_upstream rows (err x) c e = absurd (report_error_upstream x (ap (λ o. o.1) e))

  validated_upstream :
      (rows : List AuthRequest) (o : Validation) {rows' : List AuthRequest} {url : String}
      {binding : Cookie}
      → validated a q i rows o ≡ (rows', to_upstream url binding)
      → (o ≡ valid) × (IsCodeFlow × IsBegun rows rows' url binding)
  validated_upstream rows valid e = (refl, checked_upstream rows (check a i) refl e)
  validated_upstream rows unknown_client e = cc
  validated_upstream rows unauthorized_client e = cc
  validated_upstream rows redirect_uri_not_allowed e = cc

  sized_upstream :
      (rows : List AuthRequest) (o : Result (Unit {0})) {rows' : List AuthRequest} {url : String}
      {binding : Cookie}
      → sized a q i rows o ≡ (rows', to_upstream url binding)
      → (validate a.parse a.clients i.client_id i.redirect_uri ≡ valid)
        × (IsCodeFlow × IsBegun rows rows' url binding)
  sized_upstream rows (ok tt) e =
      validated_upstream rows (validate a.parse a.clients i.client_id i.redirect_uri) e
  sized_upstream rows (err x) e = cc

  -- A browser that the authorization endpoint sends upstream came for a client with a redirect
  -- URI of that client, for the code flow with a well-formed S256 challenge, or, of a confidential
  -- client, without one; the request is stored under the drawn state with all that it asked for,
  -- and the cookie binds this state, at the connector that begins, to the browser.
  pub authorize_sound :
      (rows rows' : List AuthRequest) {url : String} {binding : Cookie}
      → authorize a q i rows ≡ (rows', to_upstream url binding)
      → (validate a.parse a.clients i.client_id i.redirect_uri ≡ valid)
        × (IsCodeFlow × IsBegun rows rows' url binding)
  unfolding authorize
  authorize_sound rows rows' e = sized_upstream rows _ e

  -- an answer that stays with the authorization server
  abbrev pub IsShown : List AuthRequest → List AuthRequest × Answer → Type 0
  IsShown rows o = (o.0 ≡ rows) × ((f : Failure) × (o.1 ≡ refused f))

  validated-IsShown :
      (rows : List AuthRequest) (o : Validation) → o ≢ valid → IsShown rows (validated a q i rows o)
  validated-IsShown rows valid other = absurd (other refl)
  validated-IsShown rows unknown_client other = (refl, (_, refl))
  validated-IsShown rows unauthorized_client other = (refl, (_, refl))
  validated-IsShown rows redirect_uri_not_allowed other = (refl, (_, refl))

  sized-IsShown :
      (rows : List AuthRequest) (o : Result (Unit {0}))
      → validate a.parse a.clients i.client_id i.redirect_uri ≢ valid
      → IsShown rows (sized a q i rows o)
  sized-IsShown rows (ok tt) other = validated-IsShown rows _ other
  sized-IsShown rows (err x) other = (refl, (x, refl))

  -- No open redirect: a request whose client or redirect URI the registry does not validate
  -- stores nothing, and its browser is sent neither upstream nor to that URI.
  pub authorize_unregistered :
      (rows : List AuthRequest)
      → validate a.parse a.clients i.client_id i.redirect_uri ≢ valid
      → IsShown rows (authorize a q i rows)
  unfolding authorize
  authorize_unregistered rows other = sized-IsShown rows _ other
