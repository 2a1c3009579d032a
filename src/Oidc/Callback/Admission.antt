-- ===== src/Oidc/Callback/Admission.antt =====
-- oidc/callback.go: what a sign-in that ends with an authorization code has met.
use mathlib.Core.Path.{ap₂}
use tempogate.Common.{
  ◌≤◌, String, ◌≡◌, ◌≢◌, refl, sym, ap, true, false, Option, none, some, List, [], ◌∷◌, arith, ◌==◌,
  eq_iff, ltb, Bool-cases, inl, inr,
}
use tempogate.Oidc.Model.{AuthRequest}
use tempogate.Oidc.Reply.{Result, ok, err, oauth_error, no_permissions, server_error}
use tempogate.Oidc.Token.Issue.{permitted}
use tempogate.Oidc.Connector.{
  Connector, lookup, Completion, Completed, completed, upstream_denied, missing_response,
  upstream_error, UpstreamIdentity,
}
use tempogate.Oidc.Binding.{Cookie, bound_to_browser, clear_cookie}
use tempogate.State.AuthRequests.{ConsumeRequestResult, consumed, not_found, consume_auth_request}
use tempogate.State.AuthCodes.{AuthCodeRow, SaveCodeResult, saved, duplicate, save_auth_code}
use tempogate.Oidc.Callback.{
  Logins, Callback, CallbackRequest, Response, Reason, redirected, success, authz_denied,
  upstream_was_denied, email_domain_allowed, refusal, named, redirect, answer_client,
  complete_params, complete_upstream, code_of, deliver, after_save, mint_code, admit, gate,
  upstream_answer, resume, after_consume, complete, route, handle,
}

completed_injective : {a b : Completion} → completed a ≡ completed b → a ≡ b
completed_injective e = cc

not_equal : {a b : String} → (a == b) ≡ false → a ≢ b
not_equal {a} {b} h e = cc (h, (eq_iff a b).1 e)

module _ (c : Callback) (q : CallbackRequest) where
  -- what a person has met whom the callback admits
  abbrev pub IsAdmitted : UpstreamIdentity → Type 0
  IsAdmitted id =
      (id.email_verified ≡ true)
      × (email_domain_allowed c.lower c.allowed_domains id.email ≡ true)
      × ((claim : List String) × (permitted (c.resolve id.email) ≡ ok claim))

  -- the code that went into the table, and the way it is sent
  abbrev pub IsCode :
      Connector
      → AuthRequest
      → UpstreamIdentity
      → List AuthCodeRow
      → List AuthCodeRow
      → String
      → Type 0
  IsCode conn ar id rows rows' url =
      (code : String) × (q.random_code ≡ some code)
      × (save_auth_code c.hash q.save_db (code_of c q conn ar id code) rows ≡ (rows', saved))
      × (redirect c ar (("code", code) ∷ []) ≡ some url)

  -- a redirect that carries such a code
  abbrev IsSent :
      Connector → AuthRequest → Cookie → UpstreamIdentity → Logins → Logins → Response → Type 0
  IsSent conn ar clear id t t' r =
      (t'.requests ≡ t.requests)
      × ((url : String) × (r ≡ redirected url clear) × IsCode conn ar id t.codes t'.codes url)

  deliver_success :
      (clear : Cookie) (t t' : Logins) (o : Option String) {r : Response}
      → deliver c q clear t o ≡ (t', r, success)
      → (t ≡ t') × ((url : String) × (r ≡ redirected url clear) × (o ≡ some url))
  deliver_success clear t t' (some url) e = (cc, (url, cc, refl))
  deliver_success clear t t' none e = cc

  after_save_success :
      (ar : AuthRequest) (clear : Cookie) (code : String) (t t' : Logins) {r : Response}
      (o : List AuthCodeRow × SaveCodeResult)
      → after_save c q ar clear code t o ≡ (t', r, success)
      → (o ≡ (t'.codes, saved))
        × (t'.requests ≡ t.requests)
        × ((url : String) × (r ≡ redirected url clear)
            × (redirect c ar (("code", code) ∷ []) ≡ some url))
  after_save_success ar clear code t t' (rows, saved) e =
      let (same, sent) = deliver_success clear (record t { codes = rows }) t' _ e in
      (ap (λ u. (u.codes, saved)) same, sym (ap (λ u. u.requests) same), sent)
  after_save_success ar clear code t t' (rows, duplicate) e = cc
  after_save_success ar clear code t t' (rows, SaveCodeResult.failed) e = cc

  mint_code_success :
      (conn : Connector) (ar : AuthRequest) (clear : Cookie) (id : UpstreamIdentity) (t t' : Logins)
      (o : Option String) {r : Response}
      → mint_code c q conn ar clear id t o ≡ (t', r, success)
      → q.random_code ≡ o
      → IsSent conn ar clear id t t' r
  mint_code_success conn ar clear id t t' none e d = cc
  mint_code_success conn ar clear id t t' (some code) e d =
      let (stored, kept, sent) = after_save_success ar clear code t t' _ e in
      (kept, (sent.0, sent.1, (code, d, stored, sent.2)))

  refused_at_client :
      (clear : Cookie) (reason : Reason) (t t' : Logins) (o : Option String) {r : Response}
      → reason ≢ success
      → answer_client c clear reason t o ≢ (t', r, success)
  refused_at_client clear reason t t' (some url) other e = other (ap (λ u. u.2) e)
  refused_at_client clear reason t t' none other e = other (ap (λ u. u.2) e)

  admit_success :
      (conn : Connector) (ar : AuthRequest) (clear : Cookie) (id : UpstreamIdentity) (t t' : Logins)
      (o : Result (List String)) {r : Response}
      → admit c q conn ar clear id t o ≡ (t', r, success)
      → ((claim : List String) × (o ≡ ok claim)) × IsSent conn ar clear id t t' r
  admit_success conn ar clear id t t' (ok claim) e =
      ((claim, refl), mint_code_success conn ar clear id t t' q.random_code e refl)
  admit_success conn ar clear id t t' (err server_error) e = cc
  admit_success conn ar clear id t t' (err no_permissions) e =
      absurd (refused_at_client clear authz_denied t t' _ (λ h. cc) e)
  admit_success conn ar clear id t t' (err (oauth_error status code desc)) e =
      absurd (refused_at_client clear authz_denied t t' _ (λ h. cc) e)

  refusal_clean :
      (id : UpstreamIdentity) (own : String)
      → refusal c id own ≡ ""
      → (id.email_verified ≡ true)
        × (email_domain_allowed c.lower c.allowed_domains id.email ≡ true)
        × (own ≡ "")
  unfolding refusal
  refusal_clean id own e = elim (Bool-cases id.email_verified) [
    | inl proven ↦ elim (Bool-cases (email_domain_allowed c.lower c.allowed_domains id.email)) [
      | inl domain ↦ (proven, domain, rw (proven, domain) at e)
      | inr foreign ↦ cc (rw (proven, foreign) at e)
    ]
    | inr unproven ↦ cc (rw unproven at e)
  ]

  gate_success :
      (conn : Connector) (ar : AuthRequest) (clear : Cookie) (done : Completion) (t t' : Logins)
      {r : Response}
      → gate c q conn ar clear done t ≡ (t', r, success)
      → IsAdmitted done.identity × (done.refusal ≡ "") × IsSent conn ar clear done.identity t t' r
  unfolding gate
  gate_success conn ar clear done t t' e =
      elim (Bool-cases (refusal c done.identity done.refusal == "")) [
        | inl clean ↦
            let (proven, domain, own) =
              refusal_clean done.identity done.refusal ((eq_iff _ "").0 clean) in
            let (claim, sent) = admit_success conn ar clear done.identity t t' _ (rw clean at e) in
            ((proven, domain, claim), own, sent)
        | inr dirty ↦ cc (rw dirty at e)
      ]

  upstream_success :
      (conn : Connector) (ar : AuthRequest) (clear : Cookie) (t t' : Logins) (o : Completed)
      {r : Response}
      → upstream_answer c q conn ar clear t o ≡ (t', r, success)
      → (done : Completion) × (o ≡ completed done)
        × (gate c q conn ar clear done t ≡ (t', r, success))
  unfolding upstream_answer
  upstream_success conn ar clear t t' (completed done) e = (done, refl, e)
  upstream_success conn ar clear t t' (upstream_denied code desc) e =
      absurd (refused_at_client clear upstream_was_denied t t' _ (λ h. cc) e)
  upstream_success conn ar clear t t' missing_response e = cc
  upstream_success conn ar clear t t' upstream_error e = cc

  named_completed :
      (o : Completed) {done : Completion}
      → named c o ≡ completed done
      → (o ≡ completed done) × (done.identity.subject ≢ "")
  unfolding named
  named_completed (completed d) {done} e = elim (Bool-cases (d.identity.subject == "")) [
    | inl empty ↦ cc (rw empty at e)
    | inr subject ↦
        let same : d ≡ done = completed_injective (rw subject at e) in
        (ap completed same, rw same at (not_equal subject))
  ]
  named_completed (upstream_denied code desc) e = cc
  named_completed missing_response e = cc
  named_completed upstream_error e = cc

  -- a sign-in that ends with a code
  abbrev pub IsLogin : Logins → Logins → Response → Type 0
  IsLogin t t' r =
      (conn : Connector) × (ar : AuthRequest) × (done : Completion) × (url : String) × (lookup
          c.connectors q.connector
        ≡ some conn)
      × (bound_to_browser c.binding q.cookie conn.id (q.params conn.state_param) ≡ true)
      × (consume_auth_request q.consume_db (q.params conn.state_param) t.requests
          ≡ (t'.requests, consumed ar))
      × (q.now ≤ ar.expires_at)
      × (ar.connector_id ≡ conn.id)
      × (conn.complete_sign_in (complete_params c conn q.params (q.params conn.state_param))
          ≡ completed done)
      × (done.identity.subject ≢ "")
      × IsAdmitted done.identity
      × (done.refusal ≡ "")
      × (r ≡ redirected url (clear_cookie c.binding conn.id (q.params conn.state_param)))
      × IsCode conn ar done.identity t.codes t'.codes url

  resume_success :
      (conn : Connector) (state : String) (ar : AuthRequest) (t t' : Logins) {r : Response}
      → resume c q conn state ar t ≡ (t', r, success)
      → (q.now ≤ ar.expires_at)
        × (ar.connector_id ≡ conn.id)
        × (upstream_answer c q conn ar
              (clear_cookie c.binding conn.id state)
              t
              (complete_upstream c conn q.params state)
            ≡ (t', r, success))
  unfolding resume
  resume_success conn state ar t t' e = elim (Bool-cases (ltb ar.expires_at q.now)) [
    | inl late ↦ cc (rw late at e)
    | inr fresh ↦ elim (Bool-cases (ar.connector_id == conn.id)) [
      | inl same ↦ (ground arith, (eq_iff _ _).0 same, rw (fresh, same) at e)
      | inr other ↦ cc (rw (fresh, other) at e)
    ]
  ]

  after_consume_success :
      (conn : Connector) (state : String) (t t' : Logins)
      (o : List AuthRequest × ConsumeRequestResult) {r : Response}
      → after_consume c q conn state t o ≡ (t', r, success)
      → (ar : AuthRequest) × (o.1 ≡ consumed ar)
        × (resume c q conn state ar (record t { requests = o.0 }) ≡ (t', r, success))
  unfolding after_consume
  after_consume_success conn state t t' (rows, consumed ar) e = (ar, refl, e)
  after_consume_success conn state t t' (rows, not_found) e = cc
  after_consume_success conn state t t' (rows, ConsumeRequestResult.failed) e = cc

  complete_success :
      (conn : Connector) (t t' : Logins) {r : Response}
      → complete c q conn t ≡ (t', r, success)
      → (bound_to_browser c.binding q.cookie conn.id (q.params conn.state_param) ≡ true)
        × (after_consume c q conn
              (q.params conn.state_param)
              t
              (consume_auth_request q.consume_db (q.params conn.state_param) t.requests)
            ≡ (t', r, success))
  unfolding complete
  complete_success conn t t' e = elim (Bool-cases (q.params conn.state_param == "")) [
    | inl empty ↦ cc (rw empty at e)
    | inr given ↦
        elim (Bool-cases
          (bound_to_browser c.binding q.cookie conn.id (q.params conn.state_param))) [
            | inl own ↦ (own, rw (given, own) at e)
            | inr forged ↦ cc (rw (given, forged) at e)
          ]
  ]

  handle_success :
      (t t' : Logins) (o : Option Connector) {r : Response}
      → route c q t o ≡ (t', r, success)
      → (conn : Connector) × (o ≡ some conn) × (complete c q conn t ≡ (t', r, success))
  handle_success t t' none e = cc
  handle_success t t' (some conn) e = (conn, refl, e)

  -- A callback that ends with a code was made to a configured connector by the browser that the
  -- state is bound to; the state's request was pending at the store, is consumed by this callback,
  -- is not expired and was made for this connector; the connector itself completed the sign-in,
  -- with the values derived for this state, for a named person with a proven address in an allowed
  -- domain, whom neither the connector nor the resolver refuses; and the code in the browser's
  -- redirect is the drawn one, stored for this person with the client, the redirect URI, the
  -- challenge and the nonce of the request.
  pub handle_sound :
      (t t' : Logins) {r : Response} → handle c q t ≡ (t', r, success) → IsLogin t t' r
  unfolding handle complete_upstream
  handle_sound t t' e =
      let (conn, known, e1) = handle_success t t' (lookup c.connectors q.connector) e in
      let (own, e2) = complete_success conn t t' e1 in
      let (ar, handed, e3) = after_consume_success conn (q.params conn.state_param) t t' _ e2 in
      let (fresh, same, e4) = resume_success conn (q.params conn.state_param) ar _ t' e3 in
      let (done, answered, e5) = upstream_success conn ar _ _ t' _ e4 in
      let (proven, subject) = named_completed _ answered in
      let (admitted, own_gate, (kept, (url, sent, coded))) = gate_success conn ar _ done _ t' e5 in
      (
        conn,
        ar,
        done,
        url,
        known,
        own,
        ap₂ (λ rows o. (rows, o)) (sym kept) handed,
        fresh,
        same,
        proven,
        subject,
        admitted,
        own_gate,
        sent,
        coded,
      )
