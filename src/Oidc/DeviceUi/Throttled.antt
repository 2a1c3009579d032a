-- ===== src/Oidc/DeviceUi/Throttled.antt =====
-- Attempts at a user code over the budget: what they are answered tells nothing of the codes.
use tempogate.Common.{
  String, ◌≡◌, ◌≢◌, refl, sym, ap, ◌∙◌, Bool, true, false, ◌&&◌, Option, none, some, List, ◌==◌,
  leb, Bool-cases, inl, inr,
}
use tempogate.Oidc.Model.{BrowserSession}
use tempogate.Oidc.Reply.{Tables, Failure, Result, ok, err, no_permissions, oauth_error}
use tempogate.Oidc.Grants.{Form}
use tempogate.Oidc.DeviceAuthorization.{format_user_code}
use tempogate.Oidc.Token.Issue.{permitted}
use tempogate.Oidc.Session.{GetResult, active, no_session, get}
use tempogate.Ratelimit.{Limiter, allow}
use tempogate.State.DeviceCodes.{
  DeviceCodeRow, DecideResult, decided, not_pending, approve_device_code, deny_device_code,
}
use tempogate.Oidc.DeviceUi.{
  DeviceUi, UiRequest, Ui, confirm_page, Answer, html, see_other, server_error,
}
use tempogate.Oidc.DeviceUi.UserCode.{canonical_user_code}
use tempogate.Oidc.DeviceUi.Bounce.{sign_bounce_state, origin_allowed}
use tempogate.Oidc.DeviceUi.Attempts.{
  Usability, usable, unusable, user_code_usable, spend_session, spend_ip, spend_user_code_attempt,
  refund_user_code_attempt,
}
use tempogate.Oidc.DeviceUi.Pages.{
  too_many_attempts_page, devices_of, denied_answer, deny_for_no_access, unless_no_access, bounce,
  enter_usable, enter_spent, enter_session, enter_form, handle_enter_post, confirm_usable,
  confirm_spent, confirm_session, handle_confirm,
}
use tempogate.Oidc.DeviceUi.Decision.{
  identity_of, decision_made, decide, decide_permitted, decision_spent, decision_session,
  decision_form, handle_decision,
}
use tempogate.Oidc.DeviceUi.Approval.{spend_user_code_attempt-tables}

module _ {T : Type 0} where
  abbrev pub with_tables : Ui T → Tables → Ui T
  with_tables w t = record w { tables = t }

  -- The tables are left alone, and the answer would be 429 whatever they held.
  abbrev pub IsBlindAt : (Ui T → Ui T × Answer) → Ui T → Type 0
  IsBlindAt handler w =
      ((handler w).0.tables ≡ w.tables)
      × ((t : Tables) → (handler (with_tables w t)).1 ≡ too_many_attempts_page)

  -- So is every answer of 429.
  abbrev pub IsBlind : (Ui T → Ui T × Answer) → Type 0
  IsBlind handler = (w : Ui T) → (handler w).1 ≡ too_many_attempts_page → IsBlindAt handler w

abbrev is_429 : Answer → Bool
is_429 (html n page) = leb 429 n && leb n 429
is_429 (see_other location cookie) = false
is_429 server_error = false

-- An answer that is no 429 is not the page of too many attempts.
other_page : {a : Answer} → is_429 a ≡ false → a ≢ too_many_attempts_page
other_page h e = cc (sym h ∙ ap is_429 e)

module _ {T : Type 0} (u : DeviceUi T) (q : UiRequest) where
  -- an answer of spend, with other tables
  abbrev swapped : Tables → Ui T × Bool → Ui T × Bool
  swapped t (w, b) = (with_tables w t, b)

  spend_session-swapped :
      (w : Ui T) (t : Tables) (p : Limiter T × Bool)
      → spend_session u q (with_tables w t) p ≡ swapped t (spend_session u q w p)
  spend_session-swapped w t (l, true) = refl
  spend_session-swapped w t (l, false) = refl

  spend_ip-swapped :
      (sid : String) (w : Ui T) (t : Tables) (p : Limiter T × Bool)
      → spend_ip u q sid (with_tables w t) p ≡ swapped t (spend_ip u q sid w p)
  spend_ip-swapped sid w t (l, false) = refl
  spend_ip-swapped sid w t (l, true) = elim (Bool-cases (sid == "")) [
    | inl e ↦ rw e refl
    | inr e ↦ rw e (
        spend_session-swapped (record w { ip_attempts = l }) t
          (allow u.arithmetic w.session_attempts q.now_attempt sid))
  ]

  spend-swapped :
      (sid : String) (w : Ui T) (t : Tables)
      → spend_user_code_attempt u q sid (with_tables w t)
        ≡ swapped t (spend_user_code_attempt u q sid w)
  unfolding spend_user_code_attempt
  spend-swapped sid w t =
      spend_ip-swapped sid w t (allow u.arithmetic w.ip_attempts q.now_ip q.client_key)

  -- A step that answers 429 to an attempt over the budget, and to no other.
  attempt-IsBlind :
      (sid : String) (f : Ui T × Bool → Ui T × Answer)
      → ((w : Ui T) → f (w, false) ≡ (w, too_many_attempts_page))
      → ((w : Ui T) → is_429 (f (w, true)).1 ≡ false)
      → IsBlind λ w. f (spend_user_code_attempt u q sid w)
  attempt-IsBlind sid f over never w e = (
    attempt_tables (spend_user_code_attempt u q sid w) e ∙ spend_user_code_attempt-tables u q sid w,
    λ t. rw (spend-swapped sid w t) (attempt_again t (spend_user_code_attempt u q sid w) e),
  )
    where
      attempt_tables :
          (p : Ui T × Bool) → (f p).1 ≡ too_many_attempts_page → (f p).0.tables ≡ p.0.tables
      attempt_tables (w, false) h = ap (λ x. x.0.tables) (over w)
      attempt_tables (w, true) h = elim (other_page (never w) h) [ ]

      attempt_again :
          (t : Tables) (p : Ui T × Bool)
          → (f p).1 ≡ too_many_attempts_page
          → (f (swapped t p)).1 ≡ too_many_attempts_page
      attempt_again t (w, false) h = ap (λ x. x.1) (over (with_tables w t))
      attempt_again t (w, true) h = elim (other_page (never w) h) [ ]

  -- What comes behind an attempt that is within the budget is never answered 429.
  bounce_other : (w : Ui T) (o : Option String) → is_429 (bounce u q w o).1 ≡ false
  bounce_other w none = refl
  bounce_other w (some s) = refl

  enter_usable_other :
      (canonical sid : String) (w : Ui T) (o : Usability)
      → is_429 (enter_usable u q canonical sid w o).1 ≡ false
  enter_usable_other canonical sid w Usability.failed = refl
  enter_usable_other canonical sid w unusable = refl
  enter_usable_other canonical sid w usable = elim (Bool-cases (sid == "")) [
    | inl e ↦ rw e (
        bounce_other (refund_user_code_attempt u q sid w)
          (sign_bounce_state u q.now_sign canonical q.nonce))
    | inr e ↦ rw e refl
  ]

  denied_answer_other :
      (w : Ui T) (p : List DeviceCodeRow × DecideResult) → is_429 (denied_answer u q w p).1 ≡ false
  denied_answer_other w (rows, decided) = refl
  denied_answer_other w (rows, not_pending) = refl
  denied_answer_other w (rows, DecideResult.failed) = refl

  unless_no_access_other :
      (canonical : String) (w : Ui T) (r : Result (List String)) (next : Unit {0} → Ui T × Answer)
      → is_429 (next tt).1 ≡ false
      → is_429 (unless_no_access u q canonical w r next).1 ≡ false
  unfolding deny_for_no_access
  unless_no_access_other canonical w (ok claim) next other = other
  unless_no_access_other canonical w (err no_permissions) next other =
      denied_answer_other w (deny_device_code q.deny_db canonical q.now_deny (devices_of w))
  unless_no_access_other canonical w (err Failure.server_error) next other = refl
  unless_no_access_other canonical w (err (oauth_error s c d)) next other = refl

  confirm_usable_other :
      (canonical : String) (bs : BrowserSession) (w : Ui T) (o : Usability)
      → is_429 (confirm_usable u q canonical bs w o).1 ≡ false
  confirm_usable_other canonical bs w Usability.failed = refl
  confirm_usable_other canonical bs w unusable = refl
  confirm_usable_other canonical bs w usable =
      unless_no_access_other canonical (refund_user_code_attempt u q bs.sid w)
        (permitted (u.resolve bs.email))
        (λ _. (
          refund_user_code_attempt u q bs.sid w,
          html 200 (confirm_page (format_user_code canonical) bs.email bs.sid),
        ))
        refl

  decision_made_other :
      (approve : Bool) (bs : BrowserSession) (w : Ui T) (p : List DeviceCodeRow × DecideResult)
      → is_429 (decision_made u q approve bs w p).1 ≡ false
  decision_made_other approve bs w (rows, decided) = refl
  decision_made_other approve bs w (rows, not_pending) = refl
  decision_made_other approve bs w (rows, DecideResult.failed) = refl

  decide_permitted_other :
      (approve : Bool) (canonical : String) (bs : BrowserSession) (w : Ui T)
      → is_429 (decide_permitted u q approve canonical bs w).1 ≡ false
  decide_permitted_other true canonical bs w =
      unless_no_access_other canonical w (permitted (u.resolve bs.email))
        (λ _. decide u q true canonical bs w)
        (decision_made_other true bs w
          (approve_device_code q.decide_db canonical (identity_of bs) q.now (devices_of w)))
  decide_permitted_other false canonical bs w =
      decision_made_other false bs w (deny_device_code q.decide_db canonical q.now (devices_of w))

  enter_spent-IsBlind :
      (canonical sid : String)
      → IsBlind λ w. enter_spent u q canonical sid (spend_user_code_attempt u q sid w)
  enter_spent-IsBlind canonical sid =
      attempt-IsBlind sid (enter_spent u q canonical sid) (λ w. refl)
        λ w. enter_usable_other canonical sid w (user_code_usable q canonical (devices_of w))

  enter_session-IsBlind :
      (canonical : String) (o : GetResult) → IsBlind λ w. enter_session u q canonical w o
  enter_session-IsBlind canonical GetResult.failed w e = (refl, λ t. e)
  enter_session-IsBlind canonical no_session w e = enter_spent-IsBlind canonical "" w e
  enter_session-IsBlind canonical (active bs) w e = enter_spent-IsBlind canonical bs.sid w e

  enter_form-IsBlind : (o : Option Form) → IsBlind λ w. enter_form u q w o
  enter_form-IsBlind none w e = (refl, λ t. e)
  enter_form-IsBlind (some form) w e =
      elim (Bool-cases (canonical_user_code (form "user_code") == "")) [
        | inl empty ↦ rw empty (refl, λ t. rw empty at e)
        | inr named ↦ rw named (
            enter_session-IsBlind (canonical_user_code (form "user_code"))
              (get u.sessions q.session_db q.now_session q.cookie w.sessions) w (rw named at e))
      ]

  confirm_session-IsBlind :
      (canonical : String) (o : GetResult) → IsBlind λ w. confirm_session u q canonical w o
  confirm_session-IsBlind canonical GetResult.failed w e = (refl, λ t. e)
  confirm_session-IsBlind canonical no_session w e = (refl, λ t. e)
  confirm_session-IsBlind canonical (active bs) w e =
      attempt-IsBlind bs.sid (confirm_spent u q canonical bs) (λ w'. refl)
        (λ w'. confirm_usable_other canonical bs w' (user_code_usable q canonical (devices_of w')))
        w e

  decision_session-IsBlind :
      (approve : Bool) (form : Form) (o : GetResult)
      → IsBlind λ w. decision_session u q approve form w o
  decision_session-IsBlind approve form GetResult.failed w e = (refl, λ t. e)
  decision_session-IsBlind approve form no_session w e = (refl, λ t. e)
  decision_session-IsBlind approve form (active bs) w e =
      elim (Bool-cases (form "csrf_token" == bs.sid)) [
        | inr other ↦ rw other (refl, λ t. rw other at e)
        | inl same ↦ elim (Bool-cases (canonical_user_code (form "user_code") == "")) [
          | inl empty ↦ rw (same, empty) (refl, λ t. rw (same, empty) at e)
          | inr named ↦
              let canonical = canonical_user_code (form "user_code") in
              rw (same, named)
                (attempt-IsBlind bs.sid (decision_spent u q approve canonical bs) (λ w'. refl)
                  (λ w'. decide_permitted_other approve canonical bs w') w (rw (same, named) at e))
        ]
      ]

  decision_form-IsBlind :
      (approve : Bool) (o : Option Form) → IsBlind λ w. decision_form u q approve w o
  decision_form-IsBlind approve none w e = (refl, λ t. e)
  decision_form-IsBlind approve (some form) w e =
      decision_session-IsBlind approve form
        (get u.sessions q.session_db q.now_session q.cookie w.sessions) w e

  -- A request that the entry form, the confirm page, the approval or the denial answers with the
  -- page of too many attempts has left the tables alone, and would have had the same answer with
  -- any other tables: it tells nothing of the codes.
  pub too_many_attempts-IsBlind :
      (user_code : String) (approve : Bool)
      → IsBlind (handle_enter_post u q)
        × IsBlind (handle_confirm u q user_code)
        × IsBlind (handle_decision u q approve)
  unfolding handle_enter_post handle_confirm handle_decision
  too_many_attempts-IsBlind user_code approve = (
    λ w e. enter_form-IsBlind (u.parse_query q.body) w e,
    λ w e. elim (Bool-cases (canonical_user_code user_code == "")) [
      | inl empty ↦ rw empty (refl, λ t. rw empty at e)
      | inr named ↦ rw named (
          confirm_session-IsBlind (canonical_user_code user_code)
            (get u.sessions q.session_db q.now_session q.cookie w.sessions) w (rw named at e))
    ],
    λ w e. elim (Bool-cases (origin_allowed u q.origin q.referer)) [
      | inl allowed ↦
          rw allowed (decision_form-IsBlind approve (u.parse_query q.body) w (rw allowed at e))
      | inr foreign ↦ rw foreign (refl, λ t. rw foreign at e)
    ],
  )
