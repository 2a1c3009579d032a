-- ===== src/Oidc/DeviceUi/Attempts.antt =====
-- oidc/device_ui.go: the budgets of attempts at a user code, and the code's lookup.
use tempogate.Common.{
  ℕ, String, Bool, true, false, not, ◌||◌, List, ◌==◌, if◌then◌else◌, ltb, is_some,
}
use tempogate.Oidc.Model.{DeviceCode}
use tempogate.Ratelimit.{Limiter, allow, refund}
use tempogate.State.DeviceCodes.{
  DeviceCodeRow, LookupResult, found, lookup_device_code_by_user_code,
}
use tempogate.Oidc.DeviceUi.{DeviceUi, UiRequest, Ui}

pub data Usability : Type 0 where
  usable unusable failed : Usability

-- What userCodeUsable reads off the row that the lookup found.
abbrev pub is_usable : ℕ → DeviceCode → Bool
is_usable now dc = not (ltb dc.expires_at now || (is_some dc.approved_at || is_some dc.denied_at))

abbrev pub usability : ℕ → LookupResult → Usability
usability now (found dc) = if is_usable now dc then usable else unusable
usability now LookupResult.not_found = unusable
usability now LookupResult.failed = Usability.failed

-- userCodeUsable
unfoldable pub user_code_usable : UiRequest → String → List DeviceCodeRow → Usability
user_code_usable q canonical rows =
    usability q.now (lookup_device_code_by_user_code q.lookup_db canonical rows)

module _ {T : Type 0} (u : DeviceUi T) (q : UiRequest) where
  abbrev pub spend_session : Ui T → Limiter T × Bool → Ui T × Bool
  spend_session w (l, true) = (record w { session_attempts = l }, true)
  spend_session w (l, false) = (
    record w { session_attempts = l; ip_attempts = refund u.arithmetic w.ip_attempts q.client_key },
    false,
  )

  abbrev pub spend_ip : String → Ui T → Limiter T × Bool → Ui T × Bool
  spend_ip sid w (l, false) = (record w { ip_attempts = l }, false)
  spend_ip sid w (l, true) =
      let w' = record w { ip_attempts = l } in
      if sid == ""
      then (w', true)
      else spend_session w' (allow u.arithmetic w.session_attempts q.now_attempt sid)

  -- spendUserCodeAttempt
  unfoldable pub spend_user_code_attempt : String → Ui T → Ui T × Bool
  spend_user_code_attempt sid w =
      spend_ip sid w (allow u.arithmetic w.ip_attempts q.now_ip q.client_key)

  -- refundUserCodeAttempt
  unfoldable pub refund_user_code_attempt : String → Ui T → Ui T
  refund_user_code_attempt sid w = record w {
    ip_attempts = refund u.arithmetic w.ip_attempts q.client_key;
    session_attempts =
        if sid == "" then w.session_attempts else refund u.arithmetic w.session_attempts sid;
  }
