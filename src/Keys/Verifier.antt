-- ===== src/Keys/Verifier.antt =====
-- keys/verifier.go, Verify: a token is one that jwt.Parse accepts under the published keys, the
-- issuer, the audience and the clock; what it says is an argument.
use tempogate.Common.{
  ℕ, String, Bool, true, false, not, ◌||◌, Option, none, some, ◌==◌, if◌then◌else◌,
}
use tempogate.State.IntegrationKeys.{RevokedResult, known}
use tempogate.Keys.Denylist.{DenylistCache, Order, is_revoked}

-- The claims that the code reads, "" for an absent one, and the type of the protected header.
pub record Token : Type 0 where
  pub typ : String
  pub jti : String
  pub subject : String
  pub email : String
  pub idp : String

pub record Verifier : Type 0 where
  pub parse : String → Option Token
  pub has_denylist : Bool

pub data VerifyResult : Type 0 where
  verified : Token → VerifyResult
  invalid not_access_token token_revoked check_failed : VerifyResult

-- AccessTokenType
abbrev pub access_token_type : String
access_token_type = "at+jwt"

abbrev pub answered : Token → DenylistCache × RevokedResult → DenylistCache × VerifyResult
answered tok (c, known true) = (c, token_revoked)
answered tok (c, known false) = (c, verified tok)
answered tok (c, RevokedResult.failed) = (c, check_failed)

module _ (v : Verifier) (order : Order) (now later : ℕ) (checker : String → RevokedResult) where
  abbrev pub check_token : Option Token → DenylistCache → DenylistCache × VerifyResult
  check_token none c = (c, invalid)
  check_token (some tok) c =
      if not (tok.typ == access_token_type)
      then (c, not_access_token)
      else if not v.has_denylist || (tok.jti == "")
      then (c, verified tok)
      else answered tok (is_revoked order now later tok.jti (checker tok.jti) c)

  -- Verify
  unfoldable pub verify : String → DenylistCache → DenylistCache × VerifyResult
  verify raw c = check_token (v.parse raw) c
