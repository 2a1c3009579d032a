-- ===== src/Oidc/DeviceUi/Approval.antt =====
-- The approval of a device's sign-in: what stands behind the page that says so.
use mathlib.Core.Option
use tempogate.Common.{
  ℕ, ◌<◌, String, ◌≡◌, ◌≢◌, refl, sym, ap, ◌∙◌, Bool, true, false, Option, none, some, List, ◌==◌,
  eq_iff, eq_refl, arith, ltb, Bool-cases, inl, inr, entry, map-some,
}
use tempogate.Oidc.Model.{BrowserSession}
use tempogate.Oidc.Reply.{Failure, Result, ok, err, no_permissions, oauth_error}
use tempogate.Oidc.Grants.{Form}
use tempogate.Oidc.Token.Issue.{permitted}
use tempogate.Oidc.Session.{GetResult, active, no_session, get}
use tempogate.Ratelimit.{Limiter, allow}
use tempogate.State.Driver.{IsUp}
use tempogate.State.DeviceCodes.{
  DeviceCodeRow, DecideResult, decided, not_pending, user_code_of, approve_row, approve_device_code,
  deny_device_code,
}
use tempogate.State.DeviceCodes.Decision.{
  is_pending, OneRowPerUserCode, verdict, settled, decide_device_code-outcome,
}
use tempogate.Oidc.DeviceUi.{DeviceUi, UiRequest, Ui, approved_page, Answer, html}
use tempogate.Oidc.DeviceUi.UserCode.{canonical_user_code}
use tempogate.Oidc.DeviceUi.Bounce.{origin_allowed}
use tempogate.Oidc.DeviceUi.Attempts.{
  spend_session, spend_ip, spend_user_code_attempt, refund_user_code_attempt,
}
use tempogate.Oidc.DeviceUi.Pages.{devices_of, denied_answer, deny_for_no_access, unless_no_access}
use tempogate.Oidc.DeviceUi.Decision.{
  identity_of, decision_made, decide, decide_permitted, decision_spent, decision_session,
  decision_form, handle_decision,
}

-- A decision that counts found a row that was pending and had not expired.
verdict_decided :
    (now : ℕ) (o : Option DeviceCodeRow)
    → verdict now o ≡ decided
    → (r : DeviceCodeRow) × (o ≡ some r) × (now < r.expires_at) × (is_pending r ≡ true)
verdict_decided now none e = cc
verdict_decided now (some r) e = (r, refl, ground arith, ground arith)

settled_found :
    (now : ℕ) (set : DeviceCodeRow → DeviceCodeRow) {o : Option DeviceCodeRow} {r : DeviceCodeRow}
    → o ≡ some r
    → ltb now r.expires_at ≡ true
    → is_pending r ≡ true
    → Option.map (settled now set) o ≡ some (set r)
settled_found now set {o} {r} found fresh pending =
    map-some (settled now set) found ∙ rw (fresh, pending)

module _ {T : Type 0} (u : DeviceUi T) (q : UiRequest) where
  -- the tables that a spent attempt leaves alone
  spend_session-tables :
      (w : Ui T) (p : Limiter T × Bool) → (spend_session u q w p).0.tables ≡ w.tables
  spend_session-tables w (l, true) = refl
  spend_session-tables w (l, false) = refl

  spend_ip-tables :
      (sid : String) (w : Ui T) (p : Limiter T × Bool) → (spend_ip u q sid w p).0.tables ≡ w.tables
  spend_ip-tables sid w (l, false) = refl
  spend_ip-tables sid w (l, true) = elim (Bool-cases (sid == "")) [
    | inl e ↦ rw e refl
    | inr e ↦ rw e (
        spend_session-tables (record w { ip_attempts = l })
          (allow u.arithmetic w.session_attempts q.now_attempt sid))
  ]

  pub spend_user_code_attempt-tables :
      (sid : String) (w : Ui T) → (spend_user_code_attempt u q sid w).0.tables ≡ w.tables
  unfolding spend_user_code_attempt
  spend_user_code_attempt-tables sid w =
      spend_ip-tables sid w (allow u.arithmetic w.ip_attempts q.now_ip q.client_key)

  decision_made_approved :
      (bs : BrowserSession) (w : Ui T) (p : List DeviceCodeRow × DecideResult) {w' : Ui T}
      → decision_made u q true bs w p ≡ (w', html 200 approved_page)
      → (p.1 ≡ decided) × (devices_of w' ≡ p.0)
  unfolding refund_user_code_attempt
  decision_made_approved bs w (rows, decided) e = (refl, sym (ap (λ x. devices_of (x.0)) e))
  decision_made_approved bs w (rows, not_pending) e = cc
  decision_made_approved bs w (rows, DecideResult.failed) e = cc

  denied_answer_not :
      (w : Ui T) (p : List DeviceCodeRow × DecideResult) {w' : Ui T}
      → denied_answer u q w p ≢ (w', html 200 approved_page)
  denied_answer_not w (rows, decided) = λ e. cc e
  denied_answer_not w (rows, not_pending) = λ e. cc e
  denied_answer_not w (rows, DecideResult.failed) = λ e. cc e

  unless_no_access_approved :
      (canonical : String) (w : Ui T) (r : Result (List String)) (next : Unit {0} → Ui T × Answer)
      {w' : Ui T}
      → unless_no_access u q canonical w r next ≡ (w', html 200 approved_page)
      → ((claim : List String) × (r ≡ ok claim)) × (next tt ≡ (w', html 200 approved_page))
  unfolding deny_for_no_access
  unless_no_access_approved canonical w (ok claim) next e = ((claim, refl), e)
  unless_no_access_approved canonical w (err no_permissions) next e =
      elim (denied_answer_not w (deny_device_code q.deny_db canonical q.now_deny (devices_of w))
        e) [ ]
  unless_no_access_approved canonical w (err Failure.server_error) next e = cc
  unless_no_access_approved canonical w (err (oauth_error s c d)) next e = cc

  decide_permitted_approved :
      (canonical : String) (bs : BrowserSession) (w : Ui T) {w' : Ui T}
      → decide_permitted u q true canonical bs w ≡ (w', html 200 approved_page)
      → ((claim : List String) × (permitted (u.resolve bs.email) ≡ ok claim))
        × ((approve_device_code q.decide_db canonical (identity_of bs) q.now (devices_of w)).1
            ≡ decided)
        × (devices_of w'
            ≡ (approve_device_code q.decide_db canonical (identity_of bs) q.now (devices_of w)).0)
  decide_permitted_approved canonical bs w e =
      let (granted, made) =
        unless_no_access_approved canonical w (permitted (u.resolve bs.email))
          (λ _. decide u q true canonical bs w) e in
      let (counted, left) =
        decision_made_approved bs w
          (approve_device_code q.decide_db canonical (identity_of bs) q.now (devices_of w)) made in
      (granted, counted, left)

  -- the row under a canonical code, before and behind its approval for a session's person
  abbrev pub IsApproved : String → BrowserSession → List DeviceCodeRow → List DeviceCodeRow → Type 0
  IsApproved canonical bs rows rows' =
      (r : DeviceCodeRow) × (entry user_code_of canonical rows ≡ some r)
      × (q.now < r.expires_at)
      × (is_pending r ≡ true)
      × (entry user_code_of canonical rows' ≡ some (approve_row (identity_of bs) q.now r))

  approve-IsApproved :
      (canonical : String) (bs : BrowserSession) (rows : List DeviceCodeRow)
      → IsUp q.decide_db
      → OneRowPerUserCode rows
      → (approve_device_code q.decide_db canonical (identity_of bs) q.now rows).1 ≡ decided
      → IsApproved canonical bs rows
          (approve_device_code q.decide_db canonical (identity_of bs) q.now rows).0
  approve-IsApproved canonical bs rows up one counted =
      let (answered, left, _, _) =
        decide_device_code-outcome q.decide_db (identity_of bs) q.now canonical canonical rows one
          up in
      let (r, found, live, pending) =
        verdict_decided q.now (entry user_code_of canonical rows) (sym answered ∙ counted) in
      let fresh : ltb q.now r.expires_at ≡ true = ground arith in
      (
        r,
        found,
        live,
        pending,
        left
            ∙ rw (eq_refl canonical)
                (settled_found q.now (approve_row (identity_of bs) q.now) found fresh pending),
      )

  decision_spent_approved :
      (canonical : String) (bs : BrowserSession) (p : Ui T × Bool) {w' : Ui T}
      → decision_spent u q true canonical bs p ≡ (w', html 200 approved_page)
      → decide_permitted u q true canonical bs p.0 ≡ (w', html 200 approved_page)
  decision_spent_approved canonical bs (w, true) e = e
  decision_spent_approved canonical bs (w, false) e = cc

  decision_session-IsApproved :
      (form : Form) (w : Ui T) (o : GetResult) {w' : Ui T}
      → IsUp q.decide_db
      → OneRowPerUserCode (devices_of w)
      → decision_session u q true form w o ≡ (w', html 200 approved_page)
      → (bs : BrowserSession) × (o ≡ active bs)
        × (form "csrf_token" ≡ bs.sid)
        × ((claim : List String) × (permitted (u.resolve bs.email) ≡ ok claim))
        × IsApproved (canonical_user_code (form "user_code")) bs (devices_of w) (devices_of w')
  decision_session-IsApproved form w GetResult.failed up one e = cc
  decision_session-IsApproved form w no_session up one e = cc
  decision_session-IsApproved form w (active bs) {w'} up one e =
      elim (Bool-cases (form "csrf_token" == bs.sid)) [
        | inr other ↦ cc (rw other at e)
        | inl same ↦ elim (Bool-cases (canonical_user_code (form "user_code") == "")) [
          | inl empty ↦ cc (rw (same, empty) at e)
          | inr named ↦
              let code = canonical_user_code (form "user_code") in
              let spent = spend_user_code_attempt u q bs.sid w in
              let kept = ap (λ t. t.devices) (spend_user_code_attempt-tables bs.sid w) in
              let (granted, counted, left) =
                decide_permitted_approved code bs spent.0
                  (decision_spent_approved code bs spent (rw (same, named) at e)) in
              let approved =
                approve-IsApproved code bs (devices_of w) up one (rw kept at counted) in
              (
                bs,
                refl,
                (eq_iff (form "csrf_token") bs.sid).0 same,
                granted,
                rw (left, kept) approved,
              )
        ]
      ]

  decision_form_approved :
      (w : Ui T) (o : Option Form) {w' : Ui T}
      → decision_form u q true w o ≡ (w', html 200 approved_page)
      → (form : Form) × (o ≡ some form)
        × (decision_session u q true form w
              (get u.sessions q.session_db q.now_session q.cookie w.sessions)
            ≡ (w', html 200 approved_page))
  decision_form_approved w none e = cc
  decision_form_approved w (some form) e = (form, refl, e)

  -- The page that says approved is shown, by a driver that answers and with at most one row for a
  -- user code, only to a POST from an allowed origin whose form holds the sid of an active session
  -- as its CSRF token, when the session's person is granted a permission; and then the row of the
  -- form's canonical code was pending and had not expired, and is now approved for this person.
  pub handle_decision-IsApproved :
      (w : Ui T) {w' : Ui T}
      → IsUp q.decide_db
      → OneRowPerUserCode (devices_of w)
      → handle_decision u q true w ≡ (w', html 200 approved_page)
      → (origin_allowed u q.origin q.referer ≡ true)
        × ((form : Form) × (bs : BrowserSession) × (u.parse_query q.body ≡ some form)
            × (get u.sessions q.session_db q.now_session q.cookie w.sessions ≡ active bs)
            × (form "csrf_token" ≡ bs.sid)
            × ((claim : List String) × (permitted (u.resolve bs.email) ≡ ok claim))
            × IsApproved (canonical_user_code (form "user_code")) bs (devices_of w) (devices_of w'))
  unfolding handle_decision
  handle_decision-IsApproved w up one e = elim (Bool-cases (origin_allowed u q.origin q.referer)) [
    | inr foreign ↦ cc (rw foreign at e)
    | inl allowed ↦
        let (form, sent, e1) = decision_form_approved w (u.parse_query q.body) (rw allowed at e) in
        let (bs, signed_in, token, granted, approved) =
          decision_session-IsApproved form w
            (get u.sessions q.session_db q.now_session q.cookie w.sessions) up one e1 in
        (allowed, (form, bs, sent, signed_in, token, granted, approved))
  ]
