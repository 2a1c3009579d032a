-- ===== src/Oidc/DeviceUi/Decision.antt =====
-- oidc/device_ui.go: the way back from the sign-in, and the POSTs that approve and deny.
use tempogate.Common.{
  String, Bool, true, false, not, ◌&&◌, ◌||◌, Option, none, some, List, ◌==◌, if◌then◌else◌,
}
use tempogate.Oidc.Model.{Identity, BrowserSession}
use tempogate.Oidc.Reply.{Tables, Result, ok, err}
use tempogate.Oidc.Grants.{Form}
use tempogate.Oidc.Token.{Redemption, RedemptionRequest, redeem_authorization_code}
use tempogate.Oidc.Session.{IssueResult, issued, GetResult, active, no_session, issue_cookie, get}
use tempogate.State.BrowserSessions.{SessionRow}
use tempogate.State.DeviceCodes.{
  DeviceCodeRow, DecideResult, decided, not_pending, approve_device_code, deny_device_code,
}
use tempogate.Oidc.DeviceUi.{
  DeviceUi, UiRequest, Ui, Page, approved_page, denied_page, Answer, html, see_other, server_error,
}
use tempogate.Oidc.DeviceUi.UserCode.{canonical_user_code}
use tempogate.Oidc.DeviceUi.Bounce.{verify_bounce_state, origin_allowed}
use tempogate.Oidc.DeviceUi.Attempts.{spend_user_code_attempt, refund_user_code_attempt}
use tempogate.Oidc.DeviceUi.Pages.{
  msg_unusable_user_code, msg_not_completed, msg_malformed, error_answer, too_many_attempts_page,
  confirm_redirect, sso_callback_uri, devices_of, with_devices, deny_for_no_access,
  refuse_if_no_access,
}

abbrev pub identity_of : BrowserSession → Identity
identity_of bs = record { connector_id = bs.connector_id; subject = bs.subject; email = bs.email }

abbrev pub decision_page : Bool → Page
decision_page true = approved_page
decision_page false = denied_page

-- the request that redeemAuthCode makes
abbrev pub redemption_request : {T : Type 0} → DeviceUi T → String → RedemptionRequest
redemption_request u code = record {
  code = code;
  client_id = u.internal_client_id;
  redirect_uri = sso_callback_uri u;
  code_verifier = "";
  client_secret = u.internal_client_secret;
}

module _ {T : Type 0} (u : DeviceUi T) (q : UiRequest) where
  abbrev pub callback_issued : String → Ui T → List SessionRow × IssueResult → Ui T × Answer
  callback_issued user_code w (rows, issued sid cookie) =
      (record w { sessions = rows }, see_other (confirm_redirect u user_code) (some cookie))
  callback_issued user_code w (rows, IssueResult.failed) =
      (record w { sessions = rows }, server_error)

  abbrev pub callback_redeemed : String → Ui T → Tables × Result Redemption → Ui T × Answer
  callback_redeemed user_code w (t, err f) =
      (record w { tables = t }, error_answer msg_not_completed)
  callback_redeemed user_code w (t, ok r) =
      callback_issued user_code (record w { tables = t })
        (issue_cookie u.sessions q.session_db q.sid r.identity q.now_session w.sessions)

  -- redeemAuthCode
  abbrev pub redeem_auth_code : String → Tables → Tables × Result Redemption
  redeem_auth_code code = redeem_authorization_code u.server q.redeem (redemption_request u code)

  abbrev pub callback_verified : String → Ui T → Option String → Ui T × Answer
  callback_verified code w none = (w, error_answer msg_not_completed)
  callback_verified code w (some user_code) =
      callback_redeemed user_code w (redeem_auth_code code w.tables)

  abbrev pub denied_verified : Ui T → Option String → Ui T × Answer
  denied_verified w none = (w, error_answer msg_not_completed)
  denied_verified w (some user_code) = deny_for_no_access u q user_code w

  -- handleSSODenied
  unfoldable pub handle_sso_denied : String → Ui T → Ui T × Answer
  handle_sso_denied state w = denied_verified w (verify_bounce_state u q.now state)

  -- handleSSOCallback
  unfoldable pub handle_sso_callback : String → String → String → Ui T → Ui T × Answer
  unfolding handle_sso_denied
  handle_sso_callback code state error w =
      if (error == "access_denied") && not (state == "")
      then handle_sso_denied state w
      else if (code == "") || (state == "")
      then (w, error_answer msg_not_completed)
      else callback_verified code w (verify_bounce_state u q.now state)

  abbrev pub decision_made :
      Bool → BrowserSession → Ui T → List DeviceCodeRow × DecideResult → Ui T × Answer
  decision_made approve bs w (rows, not_pending) =
      (with_devices w rows, error_answer msg_unusable_user_code)
  decision_made approve bs w (rows, DecideResult.failed) = (with_devices w rows, server_error)
  decision_made approve bs w (rows, decided) =
      (refund_user_code_attempt u q bs.sid (with_devices w rows), html 200 (decision_page approve))

  abbrev pub decide : Bool → String → BrowserSession → Ui T → Ui T × Answer
  decide true canonical bs w =
      decision_made true bs w
        (approve_device_code q.decide_db canonical (identity_of bs) q.now (devices_of w))
  decide false canonical bs w =
      decision_made false bs w (deny_device_code q.decide_db canonical q.now (devices_of w))

  -- the check that stands before an approval only
  abbrev pub decide_permitted : Bool → String → BrowserSession → Ui T → Ui T × Answer
  decide_permitted true canonical bs w =
      refuse_if_no_access u q bs canonical w λ _. decide true canonical bs w
  decide_permitted false canonical bs w = decide false canonical bs w

  abbrev pub decision_spent : Bool → String → BrowserSession → Ui T × Bool → Ui T × Answer
  decision_spent approve canonical bs (w, false) = (w, too_many_attempts_page)
  decision_spent approve canonical bs (w, true) = decide_permitted approve canonical bs w

  abbrev pub decision_session : Bool → Form → Ui T → GetResult → Ui T × Answer
  decision_session approve form w GetResult.failed = (w, server_error)
  decision_session approve form w no_session =
      (w, error_answer "Your sign-in has expired. Restart the sign-in from your device.")
  decision_session approve form w (active bs) =
      let canonical = canonical_user_code (form "user_code") in
      if not (form "csrf_token" == bs.sid)
      then (
        w,
        error_answer "That submission could not be verified. Restart the sign-in from your device.",
      )
      else if canonical == ""
      then (
        w,
        error_answer
            "That submission was missing the device code. Restart the sign-in from your device.",
      )
      else decision_spent approve canonical bs (spend_user_code_attempt u q bs.sid w)

  abbrev pub decision_form : Bool → Ui T → Option Form → Ui T × Answer
  decision_form approve w none = (w, error_answer msg_malformed)
  decision_form approve w (some form) =
      decision_session approve form w
        (get u.sessions q.session_db q.now_session q.cookie w.sessions)

  -- handleDecision
  unfoldable pub handle_decision : Bool → Ui T → Ui T × Answer
  handle_decision approve w =
      if origin_allowed u q.origin q.referer
      then decision_form approve w (u.parse_query q.body)
      else (
        w,
        error_answer
            "That request did not come from the expected page. Restart the sign-in from your device.",
      )
