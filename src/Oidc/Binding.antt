-- ===== src/Oidc/Binding.antt =====
-- oidc/upstreambinding.go: the values derived from a connector and an internal state, and the
-- cookie that binds the state to a browser.
use tempogate.Common.{
  ℕ, String, Bool, true, false, not, ◌&&◌, Option, none, some, ◌==◌, ◌<>◌, if◌then◌else◌, leb,
  trim_space, trim_right_char,
}

-- The key is inside `hmac`, which is HMAC-SHA256 of a message. The others are SHA-256, unpadded
-- base64url and hexadecimal; hex_state is the first 16 digits of the hexadecimal SHA-256 of a
-- state, and read_cookie is how net/http reads the named cookie off a header.
pub record UpstreamBinding : Type 0 where
  pub hmac : String → String
  pub sha256 : String → String
  pub base64url : String → String
  pub hex : String → String
  pub hex_state : String → String
  pub read_cookie : String → String → Option String
  pub secure : Bool
  pub issuer_path : String
  pub name_prefix : String

-- http.Cookie, HttpOnly and SameSite=Lax always. A MaxAge of -1 is none.
pub record Cookie : Type 0 where
  pub name : String
  pub value : String
  pub path : String
  pub secure : Bool
  pub max_age : Option ℕ

-- CallbackPath
abbrev pub callback_path : String → String
callback_path connector_id = "/callback/" <> connector_id

module _ (b : UpstreamBinding) where
  unfoldable pub mac : String → String → String → String
  mac label connector_id internal_state =
      b.hmac (label <> (connector_id <> ("\0" <> internal_state)))

  unfoldable pub derive : String → String → String → String
  unfolding mac
  derive label connector_id internal_state = b.base64url (mac label connector_id internal_state)

  unfoldable pub code_verifier : String → String → String
  unfolding derive
  code_verifier = derive "tempogate/upstream/pkce-verifier\0"

  unfoldable pub code_challenge : String → String → String
  unfolding code_verifier
  code_challenge connector_id internal_state =
      b.base64url (b.sha256 (code_verifier connector_id internal_state))

  unfoldable pub nonce : String → String → String
  unfolding derive
  nonce = derive "tempogate/upstream/nonce\0"

  unfoldable pub request_id : String → String → String
  unfolding mac
  request_id connector_id internal_state =
      "_" <> b.hex (mac "tempogate/upstream/request-id\0" connector_id internal_state)

  unfoldable pub binding_value : String → String → String
  unfolding derive
  binding_value = derive "tempogate/upstream/browser-binding\0"

  abbrev pub cookie_name : String → String
  cookie_name internal_state = b.name_prefix <> b.hex_state internal_state

  -- cookie
  make_cookie : String → String → String → Option ℕ → Cookie
  make_cookie connector_id internal_state value max_age = record {
    name = cookie_name internal_state;
    value = value;
    path = if b.secure then "/" else b.issuer_path <> callback_path connector_id;
    secure = b.secure;
    max_age = max_age;
  }

  -- Cookie, for the 300 seconds of an auth request
  unfoldable pub cookie : String → String → Cookie
  unfolding make_cookie binding_value
  cookie connector_id internal_state =
      make_cookie connector_id internal_state (binding_value connector_id internal_state) (some 300)

  unfoldable pub clear_cookie : String → String → Cookie
  unfolding make_cookie
  clear_cookie connector_id internal_state = make_cookie connector_id internal_state "" none

  bound_value : String → Option String → Bool
  bound_value want none = false
  bound_value want (some got) = got == want

  unfoldable pub bound_to_browser : String → String → String → Bool
  unfolding bound_value binding_value
  bound_to_browser cookie_header connector_id internal_state =
      bound_value (binding_value connector_id internal_state)
        (b.read_cookie cookie_header (cookie_name internal_state))

abbrev strict : UpstreamBinding → UpstreamBinding
strict b = record b { secure = true; issuer_path = ""; name_prefix = "__Host-tempogate_upstream_" }

plain : UpstreamBinding → String → UpstreamBinding
plain b path = record b {
  secure = false;
  issuer_path = trim_right_char b'/' path;
  name_prefix = "tempogate_upstream_";
}

-- NewUpstreamBinding: the fields that it sets, over the functions of b. The key stands in b's hmac,
-- and its length is an argument, as are url.Parse, with a URL's scheme and path, and
-- strings.EqualFold.
unfoldable pub new_upstream_binding :
    (String → Option (String × String))
    → (String → String → Bool)
    → ℕ
    → String
    → UpstreamBinding
    → Option UpstreamBinding
unfolding plain
new_upstream_binding parse_url equal_fold key_length issuer b =
    if not (leb key_length 32 && leb 32 key_length)
    then none
    else some (elim (parse_url (trim_space issuer)) [
      | none ↦ strict b
      | some u ↦ if equal_fold u.0 "http" then plain b u.1 else strict b
    ])
