-- ===== src/Oidc/Authorize/Completable.antt =====
-- oidc/authorize.go before oidc/callback.go: a sign-in that began can be completed.
use tempogate.Common.{
  ◌+◌, ◌≤◌, String, ◌≡◌, ◌≢◌, refl, sym, ap, ◌∙◌, true, false, some, List, [], ◌∷◌, arith, ◌==◌,
  eq_iff, eq_refl, ltb, Bool-cases, inl, inr,
}
use tempogate.Oidc.Model.{AuthRequest}
use tempogate.Oidc.Connector.{Connector, lookup, Completion, completed}
use tempogate.Oidc.Binding.{UpstreamBinding, Cookie, cookie, clear_cookie, bound_to_browser}
use tempogate.State.Driver.{IsUp}
use tempogate.State.AuthRequests.{consumed, consume_auth_request, save_auth_request, saved}
use tempogate.State.AuthRequests.Pending.{consume_auth_request-save}
use tempogate.State.AuthCodes.{AuthCodeRow, save_auth_code}
use tempogate.State.AuthCodes as Codes
use tempogate.Oidc.Callback.{
  Logins, Callback, CallbackRequest, redirected, success, refusal, named, redirect, complete_params,
  complete_upstream, code_of, gate, upstream_answer, resume, after_consume, complete, route, handle,
}
use tempogate.Oidc.Callback.Admission.{IsAdmitted}
use tempogate.Oidc.Authorize.{
  AuthorizeInput, Authorizer, AuthorizeRequest, to_upstream, request_of, auth_request_ttl,
  authorize,
}
use tempogate.Oidc.Authorize.Sent.{authorize_sound}

some_injective : {a b : String} → some a ≡ some b → a ≡ b
some_injective e = cc

not_equal : (a b : String) → a ≢ b → (a == b) ≡ false
not_equal a b h = elim (Bool-cases (a == b)) [
  | inl same ↦ absurd (h ((eq_iff a b).0 same))
  | inr other ↦ other
]

-- A browser that sends the binding cookie back is bound to the state of its sign-in.
pub bound_to_browser-cookie :
    (b : UpstreamBinding) (header id state : String)
    → b.read_cookie header (cookie b id state).name ≡ some (cookie b id state).value
    → bound_to_browser b header id state ≡ true
unfolding bound_to_browser cookie
bound_to_browser-cookie b header id state e = rw (e, eq_refl) refl

module _ (c : Callback) (q : CallbackRequest) where
  gate-success :
      (conn : Connector) (ar : AuthRequest) (clear : Cookie) (done : Completion) (t : Logins)
      {codes : List AuthCodeRow} {code url : String}
      → IsAdmitted c q done.identity
      → done.refusal ≡ ""
      → q.random_code ≡ some code
      → save_auth_code c.hash q.save_db (code_of c q conn ar done.identity code) t.codes
        ≡ (codes, Codes.saved)
      → redirect c ar (("code", code) ∷ []) ≡ some url
      → gate c q conn ar clear done t ≡ (record t { codes = codes }, redirected url clear, success)
  unfolding gate refusal
  gate-success conn ar clear done t (proven, domain, (claim, granted)) own drawn stored located =
      rw (proven, domain, own, granted, drawn, stored, located) refl

  resume-success :
      (conn : Connector) (ar : AuthRequest) (state : String) (done : Completion) (t : Logins)
      {codes : List AuthCodeRow} {code url : String}
      → q.now ≤ ar.expires_at
      → ar.connector_id ≡ conn.id
      → conn.complete_sign_in (complete_params c conn q.params state) ≡ completed done
      → done.identity.subject ≢ ""
      → IsAdmitted c q done.identity
      → done.refusal ≡ ""
      → q.random_code ≡ some code
      → save_auth_code c.hash q.save_db (code_of c q conn ar done.identity code) t.codes
        ≡ (codes, Codes.saved)
      → redirect c ar (("code", code) ∷ []) ≡ some url
      → resume c q conn state ar t ≡ (
        record t { codes = codes },
        redirected url (clear_cookie c.binding conn.id state),
        success,
      )
  unfolding resume complete_upstream named upstream_answer
  resume-success conn ar state done t in_time same proven subject admitted own drawn stored
        located =
      let fresh : ltb ar.expires_at q.now ≡ false = ground arith in
      let known : (ar.connector_id == conn.id) ≡ true = (eq_iff _ _).1 same in
      let subject' = not_equal done.identity.subject "" subject in
      rw (fresh, known, proven, subject')
        (gate-success conn ar (clear_cookie c.binding conn.id state) done t admitted own drawn
          stored located)

  complete-success :
      (conn : Connector) (state : String) (t : Logins) {rows : List AuthRequest} {ar : AuthRequest}
      → q.params conn.state_param ≡ state
      → state ≢ ""
      → bound_to_browser c.binding q.cookie conn.id state ≡ true
      → consume_auth_request q.consume_db state t.requests ≡ (rows, consumed ar)
      → complete c q conn t ≡ resume c q conn state ar (record t { requests = rows })
  unfolding complete after_consume
  complete-success conn state t presented given own handed =
      rw (presented, not_equal state "" given, own, handed) refl

-- A sign-in can be completed: once a browser was sent upstream, the callback of the same
-- connector ends with a code that is sent to the redirect URI of the request, when the browser
-- presents the state with its cookie within five minutes, the tables are as the endpoint left
-- them, the driver answers, the connector names an admitted person, a code is drawn and stored,
-- and the redirect URI parses.
pub authorize-handle :
    (a : Authorizer) (p : AuthorizeRequest) (i : AuthorizeInput) (c : Callback)
    (q : CallbackRequest) (rows : List AuthRequest) (t : Logins) (state : String)
    (done : Completion) {upstream url code : String} {sent : Cookie} {codes : List AuthCodeRow}
    → authorize a p i rows ≡ (t.requests, to_upstream upstream sent)
    → p.random_state ≡ some state
    → state ≢ ""
    → c.binding ≡ a.binding
    → lookup c.connectors q.connector ≡ some a.connectors.active
    → q.params a.connectors.active.state_param ≡ state
    → a.binding.read_cookie q.cookie sent.name ≡ some sent.value
    → q.now ≤ p.now + auth_request_ttl
    → IsUp q.consume_db
    → a.connectors.active.complete_sign_in (complete_params c a.connectors.active q.params state)
      ≡ completed done
    → done.identity.subject ≢ ""
    → IsAdmitted c q done.identity
    → done.refusal ≡ ""
    → q.random_code ≡ some code
    → save_auth_code c.hash q.save_db
        (code_of c q a.connectors.active (request_of a p i state) done.identity code)
        t.codes
      ≡ (codes, Codes.saved)
    → redirect c (request_of a p i state) (("code", code) ∷ []) ≡ some url
    → ((handle c q t).0.codes ≡ codes)
      × ((handle c q t).1 ≡ redirected url (clear_cookie c.binding a.connectors.active.id state))
      × ((handle c q t).2 ≡ success)
unfolding handle
authorize-handle a p i c q rows t state done {sent = sent} {codes = codes} begun drawn given same
      known presented back in_time ready proven subject admitted own drawn_code stored located =
    let conn = a.connectors.active in
    let (_, (_, (state', drawn', pending, _, cookie_sent))) =
      authorize_sound a p i rows t.requests begun in
    let state_same : state' ≡ state = some_injective (sym drawn' ∙ drawn) in
    let pending' : save_auth_request p.save_db (request_of a p i state) rows ≡ (t.requests, saved) =
      ap (λ s. save_auth_request p.save_db (request_of a p i s) rows) (sym state_same) ∙ pending in
    let sent_same : sent ≡ cookie a.binding conn.id state =
      cookie_sent ∙ ap (cookie a.binding conn.id) state_same in
    let bound : bound_to_browser c.binding q.cookie conn.id state ≡ true =
      ap (λ b. bound_to_browser b q.cookie conn.id state) same
      ∙ bound_to_browser-cookie a.binding q.cookie conn.id state (rw sent_same at back) in
    let handed =
      (consume_auth_request-save p.save_db q.consume_db (request_of a p i state) rows ready
        pending').0 in
    let o = consume_auth_request q.consume_db state t.requests in
    let whole : handle c q t ≡ (
      record t { requests = o.0; codes = codes },
      redirected _ (clear_cookie c.binding conn.id state),
      success,
    ) =
      ap (route c q t) known
      ∙ complete-success c q conn state t presented given bound (ap (λ r. (o.0, r)) handed)
      ∙ resume-success c q conn (request_of a p i state) state done (record t { requests = o.0 })
          in_time refl proven subject admitted own drawn_code stored located in
    (ap (λ x. x.0.codes) whole, ap (λ x. x.1) whole, ap (λ x. x.2) whole)
