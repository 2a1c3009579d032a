-- ===== src/Oidc/Client/Redirects.antt =====
-- oidc/client.go: which redirect URIs a client may register, and which it may then use. `parse`
-- is url.Parse of net/url, none for an error; a `Url` is what the code reads of its result.
use text.Mathlib.Text.{starts_with}
use tempogate.Common.{
  ℕ, String, Bool, false, not, ◌&&◌, ◌||◌, Option, none, some, List, ◌==◌, if◌then◌else◌, any,
  contains, is_char,
}
use tempogate.Oidc.Client.{Client, ClientRegistry, authorization_code, allows}

-- The parts of url.URL, with Hostname(), Port(), EscapedPath() and String(). `userinfo` is that
-- User is not nil.
pub record Url : Type 0 where
  pub scheme : String
  pub opaque : String
  pub host : String
  pub hostname : String
  pub port : String
  pub path : String
  pub escaped_path : String
  pub raw_query : String
  pub force_query : Bool
  pub userinfo : Bool
  pub text : String

pub data UriFault : Type 0 where
  unparsable not_absolute no_host host_ends_with_colon has_userinfo has_fragment : UriFault
  no_path loopback_port loopback_query insecure unsupported_scheme : UriFault

pub data Checked {ℓ} (A : Type ℓ) : Type ℓ where
  passed : A → Checked A
  fault : UriFault → Checked A

-- strings.HasSuffix, of one character
unfoldable pub ends_with : ℕ → String → Bool
ends_with n String.[] = false
ends_with n (String.◌∷◌ c String.[]) = is_char n c
ends_with n (String.◌∷◌ c (String.◌∷◌ d s)) = ends_with n (String.◌∷◌ d s)

-- isLoopback
unfoldable pub is_loopback : Url → Bool
is_loopback u =
    (u.scheme == "http")
    && ((u.hostname == "127.0.0.1") || ((u.hostname == "::1") && starts_with u.host "[::1]"))

-- The switch of parseRedirectURI.
unfoldable pub structural : String → Url → Checked Url
unfolding ends_with
structural raw u =
    if (u.scheme == "") || not (u.opaque == "")
    then fault not_absolute
    else if u.host == ""
    then fault no_host
    else if ends_with b':' u.host
    then fault host_ends_with_colon
    else if u.userinfo
    then fault has_userinfo
    else if contains b'#' raw
    then fault has_fragment
    else passed u

-- What checkRegisteredRedirectURI asks of a URI that parsed.
unfoldable pub registrable : Bool → Url → Checked Url
unfolding is_loopback
registrable allow_insecure u =
    if u.path == ""
    then fault no_path
    else if is_loopback u
    then (if not (u.port == "")
        then fault loopback_port
        else if not (u.raw_query == "") || u.force_query
        then fault loopback_query
        else passed u)
    else if u.scheme == "https"
    then passed u
    else if (u.scheme == "http") && allow_insecure
    then passed u
    else if u.scheme == "http"
    then fault insecure
    else fault unsupported_scheme

abbrev pub and_check : Checked Url → (Url → Checked Url) → Checked Url
and_check (fault f) k = fault f
and_check (passed u) k = k u

pub data Validation : Type 0 where
  valid unknown_client unauthorized_client redirect_uri_not_allowed : Validation

module _ (parse : String → Option Url) where
  abbrev pub parsed : String → Option Url → Checked Url
  parsed raw none = fault unparsable
  parsed raw (some u) = structural raw u

  -- parseRedirectURI
  unfoldable pub parse_redirect_uri : String → Checked Url
  parse_redirect_uri raw = parsed raw (parse raw)

  -- checkRegisteredRedirectURI
  unfoldable pub check_registered_redirect_uri : Bool → String → Checked Url
  unfolding parse_redirect_uri
  check_registered_redirect_uri allow_insecure raw =
      and_check (parse_redirect_uri raw) (registrable allow_insecure)

  unfoldable pub same_but_port : Url → Option Url → Bool
  same_but_port req none = false
  same_but_port req (some u) =
      is_loopback u
      && ((req.scheme == u.scheme)
          && ((req.hostname == u.hostname) && (req.escaped_path == u.escaped_path)))

  -- The loopback exception, for the parsed request.
  abbrev pub loopback_match : String → List String → Checked Url → Bool
  loopback_match raw uris (fault f) = false
  loopback_match raw uris (passed req) =
      (is_loopback req && not (ends_with b':' req.host))
      && (((req.text == raw) && ((req.raw_query == "") && not req.force_query))
          && any (λ reg. same_but_port req (parse reg)) uris)

  -- matchRedirectURI
  unfoldable pub match_redirect_uri : Client → String → Bool
  unfolding parse_redirect_uri same_but_port
  match_redirect_uri c raw =
      not (raw == "")
      && (any (λ u. u == raw) c.redirect_uris
          || loopback_match raw c.redirect_uris (parse_redirect_uri raw))

  abbrev pub validate_client : String → Option Client → Validation
  validate_client uri none = unknown_client
  validate_client uri (some c) =
      if not (allows c authorization_code)
      then unauthorized_client
      else if match_redirect_uri c uri
      then valid
      else redirect_uri_not_allowed

  -- Validate
  unfoldable pub validate : ClientRegistry → String → String → Validation
  unfolding match_redirect_uri
  validate reg client_id uri = validate_client uri (reg client_id)
