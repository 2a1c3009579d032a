-- ===== src/Oidc/DeviceUi/Bounce.antt =====
-- oidc/device_ui.go: the signed state of the bounce through the sign-in, and the test of where a
-- POST comes from.
use text.Mathlib.Text.{starts_with}
use tempogate.Common.{
  ℕ, ◌+◌, ◌/◌, ◌≤◌, String, ◌≡◌, refl, sym, Bool, false, not, ◌&&◌, ◌||◌, Option, none, some, arith,
  ◌==◌, ◌<>◌, if◌then◌else◌, ltb, cut, trim_right_char,
}
use tempogate.Oidc.Mac.{
  mac_label_session_cookie, mac_label_device_bounce_state, signed, verify_signed,
}
use tempogate.Oidc.Mac.Sealed.{IsWire, verify_signed-signed, verify_signed-foreign}
use tempogate.Oidc.Session.{SessionManager, sign_cookie, verify_cookie}
use tempogate.Oidc.DeviceUi.{DeviceUi, BounceState, Referer}
use tempogate.Oidc.DeviceUi.UserCode.{canonical_user_code, canonical_user_code_idem}

-- 10 * time.Minute
abbrev pub device_state_ttl : ℕ
device_state_ttl = 600_000_000_000

-- Time.Unix, of a count of nanoseconds
abbrev pub unix : ℕ → ℕ
unix t = t / 1_000_000_000

module _ {T : Type 0} (u : DeviceUi T) where
  abbrev pub bounce_state : ℕ → String → String → BounceState
  bounce_state now canonical nonce = record {
    user_code = canonical;
    nonce = nonce;
    exp = unix (now + device_state_ttl);
  }

  abbrev pub sign_drawn : ℕ → String → Option String → Option String
  sign_drawn now canonical none = none
  sign_drawn now canonical (some nonce) =
      some (
        signed u.signer mac_label_device_bounce_state
          (u.marshal (bounce_state now canonical nonce)))

  -- signBounceState; the nonce generator's answer is an argument.
  unfoldable pub sign_bounce_state : ℕ → String → Option String → Option String
  sign_bounce_state = sign_drawn

  abbrev pub read_payload : ℕ → Option BounceState → Option String
  read_payload now none = none
  read_payload now (some p) =
      if ltb p.exp (unix now)
      then none
      else if canonical_user_code p.user_code == ""
      then none
      else some (canonical_user_code p.user_code)

  abbrev pub read_raw : ℕ → Option String → Option String
  read_raw now none = none
  read_raw now (some raw) = read_payload now (u.unmarshal raw)

  -- verifyBounceState
  unfoldable pub verify_bounce_state : ℕ → String → Option String
  verify_bounce_state now value =
      read_raw now (verify_signed u.signer mac_label_device_bounce_state value)

  -- The last line of refererAllowed, on the issuer's path without its slashes at the end.
  abbrev pub path_under : String → String → Bool
  path_under base p = (base == "") || ((p == base) || starts_with p (base <> "/"))

  abbrev pub referer_matches : Option Referer → Bool
  referer_matches none = false
  referer_matches (some ref) =
      not ref.has_user
      && (u.equal_fold ref.scheme u.issuer_scheme
          && (u.equal_fold ref.host u.issuer_host
              && path_under (trim_right_char b'/' u.issuer_escaped_path) ref.escaped_path))

  unfoldable pub referer_allowed : String → Bool
  referer_allowed referer = referer_matches (u.parse_referer referer)

  unfoldable pub origin_allowed : String → String → Bool
  unfolding referer_allowed
  origin_allowed origin referer =
      if not (origin == "")
      then origin == u.issuer_scheme <> ("://" <> u.issuer_host)
      else referer_allowed referer

  unix_mono : (a b : ℕ) → a ≤ b → unix a ≤ unix b
  unix_mono a b h = omega arith

  -- A bounce state that was signed for a canonical code gives this code back at every reading of
  -- the clock until ten minutes later, provided JSON reads what it wrote of the state, which is no
  -- empty text, and the code is not empty.
  pub verify_bounce_state-sign_bounce_state :
      (wire : IsWire u.signer) (now later : ℕ) (raw nonce : String) {value : String}
      → u.unmarshal (u.marshal (bounce_state now (canonical_user_code raw) nonce))
        ≡ some (bounce_state now (canonical_user_code raw) nonce)
      → (u.marshal (bounce_state now (canonical_user_code raw) nonce) == "") ≡ false
      → (canonical_user_code raw == "") ≡ false
      → later ≤ now + device_state_ttl
      → sign_bounce_state now (canonical_user_code raw) (some nonce) ≡ some value
      → verify_bounce_state later value ≡ some (canonical_user_code raw)
  unfolding sign_bounce_state verify_bounce_state
  verify_bounce_state-sign_bounce_state wire now later raw nonce {value} reads full named fresh e =
      let p = bounce_state now (canonical_user_code raw) nonce in
      let made : signed u.signer mac_label_device_bounce_state (u.marshal p) ≡ value = cc e in
      let live : ltb (unix (now + device_state_ttl)) (unix later) ≡ false =
        ground (arith, unix_mono later (now + device_state_ttl) fresh) in
      rw (
        sym made,
        verify_signed-signed u.signer wire mac_label_device_bounce_state (u.marshal p) full,
        reads,
        live,
        canonical_user_code_idem raw,
        named,
      )

  -- With one key for both, a session cookie does not verify as a bounce state, nor a bounce state
  -- as a session cookie, provided the MAC has no collision.
  pub bounce_state-foreign :
      (wire : IsWire u.signer) (m : SessionManager) (now : ℕ) (sid : String) (p : BounceState)
      → m.signer ≡ u.signer
      → ((x y : String) → u.signer.hmac x ≡ u.signer.hmac y → x ≡ y)
      → (sid == "") ≡ false
      → (u.marshal p == "") ≡ false
      → (verify_bounce_state now (sign_cookie m sid) ≡ none)
        × (verify_cookie m (signed u.signer mac_label_device_bounce_state (u.marshal p)) ≡ none)
  unfolding verify_bounce_state cut
  bounce_state-foreign wire m now sid p one free named full = (
    rw (
      one,
      verify_signed-foreign u.signer wire mac_label_session_cookie mac_label_device_bounce_state sid
          free refl refl (λ e. cc e) named,
    ),
    rw (
      one,
      verify_signed-foreign u.signer wire mac_label_device_bounce_state mac_label_session_cookie
          (u.marshal p) free refl refl (λ e. cc e) full,
    ),
  )
