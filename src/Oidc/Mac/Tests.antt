-- ===== src/Oidc/Mac/Tests.antt =====
-- Signed values, run.
use tempogate.Common.{◌≡◌, refl, none, some, cut}
use tempogate.Oidc.Mac.{
  signed, verify_signed, mac_label_session_cookie, mac_label_device_bounce_state,
}
use tempogate.Oidc.Mac.Plain.{plain, escape, unescape}

verified :
    verify_signed plain mac_label_session_cookie (signed plain mac_label_session_cookie "sid.1")
    ≡ some "sid.1"
unfolding signed verify_signed cut escape unescape
verified = refl

under_other_label :
    verify_signed plain mac_label_device_bounce_state
      (signed plain mac_label_session_cookie "sid.1")
    ≡ none
unfolding signed verify_signed cut escape unescape
under_other_label = refl
