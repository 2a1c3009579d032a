-- ===== src/Oidc/Token/BasicAuth.antt =====
-- oidc/token.go: the Authorization header of a token request, the challenge that answers it, and the
-- check of the configured lifetimes. strings.EqualFold, base64 and url.QueryUnescape are arguments;
-- a header is ASCII, so that its bytes are its characters.
mod Tests
use Prim.Native.String.{len, slice}
use tempogate.Common.{
  ℕ, String, Bool, false, not, ◌&&◌, ◌||◌, Option, none, some, ◌==◌, if◌then◌else◌, leb, ltb, cut,
  trim_space,
}
use tempogate.Oidc.Reply.{Failure, oauth_error, no_permissions, server_error}

abbrev is_invalid_client : Failure → Bool
is_invalid_client (oauth_error status code desc) =
    leb status 401 && leb 401 status && (code == "invalid_client")
is_invalid_client no_permissions = false
is_invalid_client server_error = false

abbrev or_raw : String → Option String → String
or_raw raw none = raw
or_raw raw (some s) = s

module _ (equal_fold : String → String → Bool) (decode unescape : String → Option String) where
  -- hasBasicScheme, whose prefix has 6 bytes
  unfoldable pub has_basic_scheme : String → Bool
  has_basic_scheme header = leb 6 (len header) && equal_fold (slice header 0 6) "Basic "

  abbrev credentials : Option (String × String) → Option (String × String)
  credentials none = none
  credentials (some (u, p)) = some (or_raw u (unescape u), or_raw p (unescape p))

  abbrev decoded : Option String → Option (String × String)
  decoded none = none
  decoded (some raw) = credentials (cut b':' raw)

  -- parseBasicAuth
  unfoldable pub parse_basic_auth : String → Option (String × String)
  unfolding has_basic_scheme
  parse_basic_auth header =
      if leb (len header) 6 || not (has_basic_scheme header)
      then none
      else decoded (decode (trim_space (slice header 6 (len header))))

  -- withBasicChallenge: is the error answered with a WWW-Authenticate header?
  unfoldable pub with_basic_challenge : Failure → String → Bool
  unfolding has_basic_scheme
  with_basic_challenge e header = is_invalid_client e && has_basic_scheme header

-- ValidateTokenLifetimes: are the lifetimes accepted? A negative one is refused as 0 is.
unfoldable pub validate_token_lifetimes : ℕ → ℕ → ℕ → Bool
validate_token_lifetimes access refresh_idle refresh_max =
    if leb access 0 || (leb refresh_idle 0 || leb refresh_max 0)
    then false
    else if leb refresh_idle access
    then false
    else not (ltb refresh_max refresh_idle)
