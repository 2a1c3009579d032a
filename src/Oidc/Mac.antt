-- ===== src/Oidc/Mac.antt =====
-- oidc/mac.go, and the wire shape "payload.mac" of its MACs, which the session cookie of
-- oidc/session.go and the bounce state of oidc/device_ui.go share.
pub mod Sealed
pub mod Plain
mod Tests
use tempogate.Common.{String, Bool, ◌||◌, Option, none, some, ◌==◌, ◌<>◌, if◌then◌else◌, cut}

-- HMAC-SHA256 with the signing key inside, and unpadded base64url.
pub record Signer : Type 0 where
  pub hmac : String → String
  pub encode : String → String
  pub decode : String → Option String

abbrev pub mac_label_session_cookie : String
mac_label_session_cookie = "tempogate/session-cookie"

abbrev pub mac_label_device_bounce_state : String
mac_label_device_bounce_state = "tempogate/device/bounce-state"

module _ (s : Signer) where
  -- labeledMAC
  abbrev pub labeled_mac : String → String → String
  labeled_mac label msg = s.hmac (label <> ("\0" <> msg))

  -- What signCookie and signBounceState make of a payload.
  unfoldable pub signed : String → String → String
  signed label raw = s.encode raw <> ("." <> s.encode (labeled_mac label raw))

  abbrev pub compare_mac : String → Option String → Option String → Option String
  compare_mac label (some raw) (some got) = if got == labeled_mac label raw then some raw else none
  compare_mac label (some raw) none = none
  compare_mac label none got = none

  abbrev pub open_halves : String → Option (String × String) → Option String
  open_halves label none = none
  open_halves label (some (a, b)) =
      if (a == "") || (b == "") then none else compare_mac label (s.decode a) (s.decode b)

  -- What verifyCookie and verifyBounceState read: strings.SplitN(…, ".", 2), both halves, the MAC.
  unfoldable pub verify_signed : String → String → Option String
  verify_signed label value = open_halves label (cut b'.' value)
