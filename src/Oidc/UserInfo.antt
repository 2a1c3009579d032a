-- ===== src/Oidc/UserInfo.antt =====
-- oidc/userinfo.go: the userinfo endpoint, behind keys.Verifier. `equal_fold` is that of
-- package strings.
pub mod Access
mod Tests
use Prim.Native.String.{len, slice}
use tempogate.Common.{
  ℕ, String, Bool, true, false, not, ◌||◌, Option, none, some, ◌==◌, if◌then◌else◌, leb, cut,
  trim_space,
}
use tempogate.State.IntegrationKeys.{RevokedResult}
use tempogate.Keys.Denylist.{DenylistCache, Order}
use tempogate.Keys.Verifier.{
  Token, Verifier, VerifyResult, verified, invalid, not_access_token, token_revoked, check_failed,
  verify,
}

pub record UserInfoBody : Type 0 where
  pub sub : String
  pub idp : String
  pub email : String
  pub email_verified : Bool
  pub name : String

pub data UserInfoResult : Type 0 where
  described : UserInfoBody → UserInfoResult
  unauthorized : String → UserInfoResult

-- the part before the '@', if there is one
abbrev pub local_or : String → String → Option (String × String) → String
local_or email sub none = if not (email == "") then email else sub
local_or email sub (some (a, b)) =
    if not (a == "") then a else if not (email == "") then email else sub

unfoldable pub display_name : String → String → String
display_name email sub = local_or email sub (cut b'@' email)

module _ (equal_fold : String → String → Bool) where
  abbrev pub nonempty : String → Option String
  nonempty tok = if tok == "" then none else some tok

  -- bearerToken, whose prefix has 7 bytes
  unfoldable pub bearer_token : String → Option String
  bearer_token header =
      if leb (len header) 7 || not (equal_fold (slice header 0 7) "Bearer ")
      then none
      else nonempty (trim_space (slice header 7 (len header)))

abbrev pub body_of : Token → UserInfoBody
body_of tok = record {
  sub = tok.subject;
  idp = tok.idp;
  email = tok.email;
  email_verified = true;
  name = display_name tok.email tok.subject;
}

abbrev pub describe : DenylistCache × VerifyResult → DenylistCache × UserInfoResult
describe (c, verified tok) =
    if tok.subject == ""
    then (c, unauthorized "token has no subject")
    else (c, described (body_of tok))
describe (c, invalid) = (c, unauthorized "the access token is invalid or expired")
describe (c, not_access_token) = (c, unauthorized "the access token is invalid or expired")
describe (c, token_revoked) = (c, unauthorized "the access token is invalid or expired")
describe (c, check_failed) = (c, unauthorized "the access token is invalid or expired")

module _ (equal_fold : String → String → Bool) (v : Verifier) (order : Order) (now later : ℕ)
    (checker : String → RevokedResult) where
  abbrev pub handle_bearer : Option String → DenylistCache → DenylistCache × UserInfoResult
  handle_bearer none c = (c, unauthorized "missing or malformed Authorization: Bearer header")
  handle_bearer (some raw) c = describe (verify v order now later checker raw c)

  -- handle
  unfoldable pub handle : String → DenylistCache → DenylistCache × UserInfoResult
  unfolding bearer_token
  handle authorization c = handle_bearer (bearer_token equal_fold authorization) c
