-- ===== src/Oidc/DeviceUi/Pages.antt =====
-- oidc/device_ui.go: the handlers of the pages. A template that fails is left out.
use tempogate.Common.{
  String, Bool, true, false, not, Option, none, some, List, [], ◌∷◌, ◌==◌, ◌<>◌, if◌then◌else◌,
  trim_right_char,
}
use tempogate.Oidc.Model.{BrowserSession}
use tempogate.Oidc.Reply.{Failure, Result, ok, err, no_permissions, oauth_error}
use tempogate.Oidc.Grants.{Form}
use tempogate.Oidc.Token.Issue.{permitted}
use tempogate.Oidc.DeviceAuthorization.{format_user_code}
use tempogate.Oidc.Session.{GetResult, active, no_session, get}
use tempogate.State.DeviceCodes.{
  DeviceCodeRow, DecideResult, decided, not_pending, deny_device_code,
}
use tempogate.Oidc.DeviceUi.{
  DeviceUi, UiRequest, Ui, enter_page, confirm_page, noaccess_page, error_page, Answer, html,
  see_other, server_error,
}
use tempogate.Oidc.DeviceUi.UserCode.{canonical_user_code}
use tempogate.Oidc.DeviceUi.Bounce.{sign_bounce_state}
use tempogate.Oidc.DeviceUi.Attempts.{
  Usability, usable, unusable, user_code_usable, spend_user_code_attempt, refund_user_code_attempt,
}

abbrev pub msg_unusable_user_code : String
msg_unusable_user_code =
    "That code is not valid. Check the code on your device and try again, or restart the sign-in from your device."

abbrev pub msg_too_many_attempts : String
msg_too_many_attempts = "Too many attempts. Wait a minute, then try again."

abbrev pub msg_not_completed : String
msg_not_completed = "That sign-in could not be completed. Restart the sign-in from your device."

abbrev pub msg_malformed : String
msg_malformed = "Your submission was malformed. Please return to your device and try again."

-- errorPage and errorHTMLPage
abbrev pub error_answer : String → Answer
error_answer reason = html 200 (error_page reason)

abbrev pub too_many_attempts_page : Answer
too_many_attempts_page = html 429 (error_page msg_too_many_attempts)

module _ {T : Type 0} where
  abbrev pub devices_of : Ui T → List DeviceCodeRow
  devices_of w = w.tables.devices

  abbrev pub with_devices : Ui T → List DeviceCodeRow → Ui T
  with_devices w rows = record w { tables = record (w.tables) { devices = rows } }

module _ {T : Type 0} (u : DeviceUi T) where
  abbrev pub public_path : String → String
  public_path p = trim_right_char b'/' u.issuer_path <> p

  unfoldable pub confirm_redirect : String → String
  confirm_redirect canonical =
      public_path "/device/confirm"
      <> ("?user_code=" <> u.query_escape (format_user_code canonical))

  abbrev pub sso_callback_uri : String
  sso_callback_uri = u.issuer <> "/device/sso-callback"

  -- handleEnterGet
  unfoldable pub handle_enter_get : String → Answer
  handle_enter_get user_code =
      html 200 (enter_page (format_user_code (canonical_user_code user_code)))

  module _ (q : UiRequest) where
    -- the redirect to /authorize with the signed state
    abbrev pub bounce : Ui T → Option String → Ui T × Answer
    bounce w none = (w, server_error)
    bounce w (some state) = (
      w,
      see_other
          (u.issuer
            <> ("/authorize?"
                <> u.encode_query (
                    ("response_type", "code")
                    ∷ ("client_id", u.internal_client_id)
                    ∷ ("redirect_uri", sso_callback_uri)
                    ∷ ("scope", "openid email")
                    ∷ ("state", state)
                    ∷ [])))
          none,
    )

    abbrev pub enter_usable : String → String → Ui T → Usability → Ui T × Answer
    enter_usable canonical sid w Usability.failed = (w, server_error)
    enter_usable canonical sid w unusable = (w, error_answer msg_unusable_user_code)
    enter_usable canonical sid w usable =
        let w' = refund_user_code_attempt u q sid w in
        if not (sid == "")
        then (w', see_other (confirm_redirect canonical) none)
        else bounce w' (sign_bounce_state u q.now_sign canonical q.nonce)

    abbrev pub enter_spent : String → String → Ui T × Bool → Ui T × Answer
    enter_spent canonical sid (w, false) = (w, too_many_attempts_page)
    enter_spent canonical sid (w, true) =
        enter_usable canonical sid w (user_code_usable q canonical (devices_of w))

    abbrev pub enter_session : String → Ui T → GetResult → Ui T × Answer
    enter_session canonical w GetResult.failed = (w, server_error)
    enter_session canonical w no_session =
        enter_spent canonical "" (spend_user_code_attempt u q "" w)
    enter_session canonical w (active bs) =
        enter_spent canonical bs.sid (spend_user_code_attempt u q bs.sid w)

    abbrev pub enter_form : Ui T → Option Form → Ui T × Answer
    enter_form w none = (w, error_answer msg_malformed)
    enter_form w (some form) =
        let canonical = canonical_user_code (form "user_code") in
        if canonical == ""
        then (w, error_answer "Enter the code shown on your device.")
        else enter_session canonical w
            (get u.sessions q.session_db q.now_session q.cookie w.sessions)

    -- handleEnterPost
    unfoldable pub handle_enter_post : Ui T → Ui T × Answer
    handle_enter_post w = enter_form w (u.parse_query q.body)

    abbrev pub denied_answer : Ui T → List DeviceCodeRow × DecideResult → Ui T × Answer
    denied_answer w (rows, decided) = (with_devices w rows, html 403 noaccess_page)
    denied_answer w (rows, not_pending) = (with_devices w rows, html 403 noaccess_page)
    denied_answer w (rows, DecideResult.failed) = (with_devices w rows, server_error)

    -- denyForNoAccess
    unfoldable pub deny_for_no_access : String → Ui T → Ui T × Answer
    deny_for_no_access canonical w =
        denied_answer w (deny_device_code q.deny_db canonical q.now_deny (devices_of w))

    -- refuseIfNoAccess: the answer of a refusal, or what comes next
    abbrev pub unless_no_access :
        String → Ui T → Result (List String) → (Unit {0} → Ui T × Answer) → Ui T × Answer
    unless_no_access canonical w (ok claim) next = next tt
    unless_no_access canonical w (err no_permissions) next = deny_for_no_access canonical w
    unless_no_access canonical w (err Failure.server_error) next = (w, server_error)
    unless_no_access canonical w (err (oauth_error s c d)) next = (w, server_error)

    abbrev pub refuse_if_no_access :
        BrowserSession → String → Ui T → (Unit {0} → Ui T × Answer) → Ui T × Answer
    refuse_if_no_access bs canonical w next =
        unless_no_access canonical w (permitted (u.resolve bs.email)) next

    abbrev pub confirm_usable : String → BrowserSession → Ui T → Usability → Ui T × Answer
    confirm_usable canonical bs w Usability.failed = (w, server_error)
    confirm_usable canonical bs w unusable = (w, error_answer msg_unusable_user_code)
    confirm_usable canonical bs w usable =
        let w' = refund_user_code_attempt u q bs.sid w in
        refuse_if_no_access bs canonical w'
          λ _. (w', html 200 (confirm_page (format_user_code canonical) bs.email bs.sid))

    abbrev pub confirm_spent : String → BrowserSession → Ui T × Bool → Ui T × Answer
    confirm_spent canonical bs (w, false) = (w, too_many_attempts_page)
    confirm_spent canonical bs (w, true) =
        confirm_usable canonical bs w (user_code_usable q canonical (devices_of w))

    abbrev pub confirm_session : String → Ui T → GetResult → Ui T × Answer
    confirm_session canonical w GetResult.failed = (w, server_error)
    confirm_session canonical w no_session = (
      w,
      see_other
          (public_path "/device" <> ("?user_code=" <> u.query_escape (format_user_code canonical)))
          none,
    )
    confirm_session canonical w (active bs) =
        confirm_spent canonical bs (spend_user_code_attempt u q bs.sid w)

    -- handleConfirm
    unfoldable pub handle_confirm : String → Ui T → Ui T × Answer
    handle_confirm user_code w =
        let canonical = canonical_user_code user_code in
        if canonical == ""
        then (w, error_answer msg_not_completed)
        else confirm_session canonical w
            (get u.sessions q.session_db q.now_session q.cookie w.sessions)
