-- ===== src/Oidc/Callback/Browser.antt =====
-- oidc/callback.go: who can finish a sign-in, and how often.
use tempogate.Common.{
  String, ◌≡◌, ◌≢◌, refl, sym, ap, ◌∙◌, false, Option, none, some, ◌==◌, eq_refl, if◌then◌else◌,
  Bool-cases, inl, inr, entry,
}
use tempogate.Oidc.Connector.{Connector, lookup}
use tempogate.Oidc.Binding.{Cookie, bound_to_browser}
use tempogate.Oidc.Model.{AuthRequest}
use tempogate.State.Driver.{IsUp}
use tempogate.State.AuthRequests.{state_of, consumed, consume_auth_request}
use tempogate.State.AuthRequests.Pending.{answer, consume_auth_request-answer}
use tempogate.Oidc.Callback.{
  Logins, Callback, CallbackRequest, Response, redirected, success, Outcome, complete, route,
  handle,
}
use tempogate.Oidc.Callback.Admission.{handle_sound}

-- an outcome that leaves the tables alone and sends nobody to a client
abbrev pub IsRefusal : Logins → Outcome → Type 0
IsRefusal t o = (o.0 ≡ t) × ((url : String) (clear : Cookie) → o.1 ≢ redirected url clear)

complete_forged :
    (c : Callback) (q : CallbackRequest) (conn : Connector) (t : Logins)
    → bound_to_browser c.binding q.cookie conn.id (q.params conn.state_param) ≡ false
    → IsRefusal t (complete c q conn t)
unfolding complete
complete_forged c q conn t forged = elim (Bool-cases (q.params conn.state_param == "")) [
  | inl empty ↦ rw empty (refl, λ url clear e. cc)
  | inr given ↦ rw (given, forged) (refl, λ url clear e. cc)
]

route_forged :
    (c : Callback) (q : CallbackRequest) (t : Logins) (o : Option Connector)
    → ((conn : Connector)
        → o ≡ some conn
        → bound_to_browser c.binding q.cookie conn.id (q.params conn.state_param) ≡ false)
    → IsRefusal t (route c q t o)
route_forged c q t none forged = (refl, λ url clear e. cc)
route_forged c q t (some conn) forged = complete_forged c q conn t (forged conn refl)

-- A callback from a browser that the presented state is not bound to changes no table, so that
-- the pending sign-in stays, and sends nobody to a client.
pub handle-forged :
    (c : Callback) (q : CallbackRequest) (t : Logins)
    → ((conn : Connector)
        → lookup c.connectors q.connector ≡ some conn
        → bound_to_browser c.binding q.cookie conn.id (q.params conn.state_param) ≡ false)
    → IsRefusal t (handle c q t)
unfolding handle
handle-forged c q t forged = route_forged c q t (lookup c.connectors q.connector) forged

-- The state that a request presents to the connector of its path.
abbrev pub Presents : Callback → CallbackRequest → String → Type 0
Presents c q state =
    (conn : Connector)
    → lookup c.connectors q.connector ≡ some conn
    → q.params conn.state_param ≡ state

-- A success has consumed the pending request of the state that it presents.
handed_out :
    (c : Callback) (q : CallbackRequest) (state : String) (t t' : Logins) {r : Response}
    → Presents c q state
    → handle c q t ≡ (t', r, success)
    → (ar : AuthRequest) × (consume_auth_request q.consume_db state t.requests
        ≡ (t'.requests, consumed ar))
handed_out c q state t t' presents e =
    let (conn, ar, _, _, found, _, handed, _, _, _, _, _, _, _, _) = handle_sound c q t t' e in
    (ar, rw (presents conn found) at handed)

-- A state for which a callback ended with a code ends no other one with a code: not at any
-- connector, when no request is stored under the state again and the driver answers the
-- consumptions of both.
pub handle-once :
    (c : Callback) (q q' : CallbackRequest) (state : String) (t t' later later' : Logins)
    {r r' : Response}
    → Presents c q state
    → Presents c q' state
    → IsUp q.consume_db
    → IsUp q'.consume_db
    → handle c q t ≡ (t', r, success)
    → entry state_of state later.requests ≡ entry state_of state t'.requests
    → handle c q' later ≢ (later', r', success)
handle-once c q q' state t t' later later' presents presents' ready ready' first_time between
      again =
    let (_, handed) = handed_out c q state t t' presents first_time in
    let (_, handed') = handed_out c q' state later later' presents' again in
    let spent : entry state_of state t'.requests ≡ none =
      ap (λ o. entry state_of state o.0) (sym handed)
      ∙ (consume_auth_request-answer q.consume_db state state t.requests ready).1
      ∙ ap (λ b. if b then none else entry state_of state t.requests) (eq_refl state) in
    let replay =
      (consume_auth_request-answer q'.consume_db state state later.requests ready').0
      ∙ ap answer (between ∙ spent) in
    cc (ap (λ o. o.1) handed', replay)
