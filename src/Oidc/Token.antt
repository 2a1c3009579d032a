-- ===== src/Oidc/Token.antt =====
-- oidc/token.go: the token endpoint. What the handlers take from elsewhere is in `Server`, what
-- one request meets is in `Request`.
pub mod Redeem
pub mod Revoke
pub mod Issue
mod BasicAuth
use Prim.Native.Char.{code}
use tempogate.Common.{
  ℕ, zero, suc, ◌+◌, String, Bool, true, false, not, ◌&&◌, ◌||◌, Option, none, some, List, [], ◌∷◌,
  ◌==◌, if◌then◌else◌, ltb, leb, length,
}
use tempogate.Oidc.Model.{AuthCode, Refresh, Identity}
use tempogate.Oidc.Reply.{
  Tables, Failure, Result, ok, err, oauth_err, oauth_error, no_permissions, server_error,
  bad_request, unauthorized, Handler, pure, ◌>>=◌, ◌>>◌, continue, refuse_if,
}
use tempogate.Oidc.Client.{
  Client, ClientRegistry, GrantType, authorization_code, allows, authenticate,
}
use tempogate.State.Driver.{Driver}
use tempogate.State.AuthCodes.{RedeemResult, redeemed, consume_auth_code}
use tempogate.State.AuthCodes
use tempogate.State.Refresh.{
  RevokeResult, revoked, session_not_found, SaveResult, saved, duplicate, family_revoked,
  revoke_refresh_family, save_refresh,
}

-- keys.MintRequest and keys.IDTokenRequest, as issue fills them.
pub record MintRequest : Type 0 where
  pub subject : String
  pub email : String
  pub idp : String
  pub ttl : ℕ
  pub permissions : List String
  pub client_id : String

pub record IdTokenRequest : Type 0 where
  pub subject : String
  pub email : String
  pub idp : String
  pub audience : String
  pub nonce : String
  pub auth_time : ℕ
  pub ttl : ℕ

-- What PermissionResolver.Resolve returns: an error, a nil grant, or a grant as its claim.
pub data Resolved : Type 0 where
  resolve_error nil_grant : Resolved
  grant : List String → Resolved

-- The collaborators of the endpoint: the store's hash, SHA-256 and its base64url, the registry,
-- the connectors, the domain allowlist, the resolver, the signer and the lifetimes.
pub record Server : Type 0 where
  pub hash : String → String
  pub sha256 : String → String
  pub s256 : String → String
  pub clients : ClientRegistry
  pub connector_configured : String → Bool
  pub domain_allowed : String → Bool
  pub resolve : String → Resolved
  pub token_subject : String → String → String
  pub mint : MintRequest → Option (String × String)
  pub mint_id_token : IdTokenRequest → Option String
  pub access_ttl : ℕ
  pub refresh_ttl : ℕ
  pub refresh_max_lifetime : ℕ

-- What one request meets: the readings of the clock, the draws of the generators (none: the
-- source of randomness failed), and the database driver in each call of the store.
pub record Request : Type 0 where
  pub now : ℕ
  pub now_auth : ℕ
  pub now_issue : ℕ
  pub random_family : Option String
  pub random_family_issue : Option String
  pub random_refresh : Option String
  pub consume_db : Driver
  pub revoke_db : Driver
  pub save_db : Driver
  pub lookup_db : Driver
  pub poll_db : Driver

-- 5 * time.Minute
abbrev pub id_token_ttl : ℕ
id_token_ttl = 300_000_000_000

pub record RedemptionRequest : Type 0 where
  pub code : String
  pub client_id : String
  pub redirect_uri : String
  pub code_verifier : String
  pub client_secret : String

pub record Redemption : Type 0 where
  pub identity : Identity
  pub client_id : String
  pub nonce : String
  pub family_id : String

pub record Lineage : Type 0 where
  pub family_id : String
  pub auth_time : ℕ

pub record TokenResponse : Type 0 where
  pub access_token : String
  pub expires_in : ℕ
  pub refresh_token : String
  pub id_token : String

-- The code points of a text.
abbrev pub code_points : String → List ℕ
code_points String.[] = []
code_points (String.◌∷◌ c s) = code c ∷ code_points s

-- 'A'-'Z', 'a'-'z', '0'-'9', '-', '.', '_' and '~'
unfoldable pub is_unreserved : ℕ → Bool
is_unreserved c =
    (leb b'A' c && leb c b'Z')
    || ((leb b'a' c && leb c b'z')
        || ((leb b'0' c && leb c b'9')
            || ((leb b'-' c && leb c b'-')
                || ((leb b'.' c && leb c b'.')
                    || ((leb b'_' c && leb c b'_') || (leb b'~' c && leb c b'~'))))))

unfoldable pub all_unreserved : List ℕ → Bool
unfolding is_unreserved
all_unreserved [] = true
all_unreserved (c ∷ cs) = is_unreserved c && all_unreserved cs

-- validCodeVerifier. A text of unreserved characters has one byte to a character, so its bytes
-- may be counted by its code points.
unfoldable pub valid_code_verifier : String → Bool
unfolding all_unreserved
valid_code_verifier v =
    leb 43 (length (code_points v))
    && (leb (length (code_points v)) 128 && all_unreserved (code_points v))

module _ (s : Server) where
  -- authenticateClient
  unfoldable pub authenticate_client : String → String → GrantType → Result Client
  authenticate_client client_id secret g = elim (s.clients client_id) [
    | none ↦ oauth_err unauthorized "invalid_client" "unknown client"
    | some c ↦
        if (not (c.secret == "") || not (secret == ""))
          && not (authenticate s.sha256 s.clients client_id secret)
        then oauth_err unauthorized "invalid_client" "client authentication failed"
        else if allows c g
        then ok c
        else oauth_err bad_request "unauthorized_client"
            "client is not registered for this grant type"
  ]

  -- verifyPKCE
  abbrev pub verify_pkce : String → String → Bool
  verify_pkce verifier challenge = s.s256 verifier == challenge

  revoke_answer : Tables → RevokeResult → Result (Unit {0})
  revoke_answer t (revoked n) = ok tt
  revoke_answer t session_not_found = err server_error
  revoke_answer t RevokeResult.failed = err server_error

  module _ (q : Request) where
    -- revokeFamily. The log line and the counter stand outside the model.
    unfoldable pub revoke_family : String → ℕ → Handler (Unit {0})
    unfolding revoke_answer
    revoke_family family_id at t =
        let (rows, r) = revoke_refresh_family q.revoke_db family_id at t.refresh in
        (record t { refresh = rows }, revoke_answer t r)

    -- The PKCE switch behind the other checks of a redeemed code.
    unfoldable pub check_pkce : Client → String → String → Handler (Unit {0})
    check_pkce c verifier challenge =
        if not (challenge == "")
        then (do
          refuse_if (verifier == "")
              (oauth_error bad_request "invalid_grant" "code_verifier is required (PKCE)")
          refuse_if (not (verify_pkce verifier challenge))
              (oauth_error bad_request "invalid_grant" "PKCE verification failed"))
        else refuse_if (c.secret == "") (
            oauth_error bad_request "invalid_grant"
              "authorization code is not bound to a PKCE challenge")

    -- What RedeemAuthorizationCode makes of the answer of ConsumeAuthCode.
    unfoldable pub redeem_answer :
        RedemptionRequest → Client → String → RedeemResult → Handler Redemption
    unfolding revoke_family check_pkce
    redeem_answer rr c family_id (AuthCodes.reused ac) = do
      (if ac.family_id == "" then pure (ok tt) else revoke_family ac.family_id q.now)
      pure (oauth_err bad_request "invalid_grant" "unknown or already-redeemed authorization code")
    redeem_answer rr c family_id AuthCodes.not_found =
        pure
          (oauth_err bad_request "invalid_grant" "unknown or already-redeemed authorization code")
    redeem_answer rr c family_id RedeemResult.failed = pure (err server_error)
    redeem_answer rr c family_id (redeemed ac) = do
      refuse_if (ltb ac.expires_at q.now)
          (oauth_error bad_request "invalid_grant" "authorization code expired")
      refuse_if (ac.subject == "") (
          oauth_error bad_request "invalid_grant"
            "authorization code predates this tempogate version; sign in again")
      refuse_if (not (rr.client_id == ac.client_id)) (
          oauth_error bad_request "invalid_grant"
            "client_id does not match the authorization request")
      refuse_if (not (rr.redirect_uri == ac.redirect_uri)) (
          oauth_error bad_request "invalid_grant"
            "redirect_uri does not match the authorization request")
      check_pkce c rr.code_verifier ac.code_challenge
      pure (
          ok (record {
            identity = record {
              connector_id = ac.connector_id;
              subject = ac.subject;
              email = ac.email;
            };
            client_id = ac.client_id;
            nonce = ac.nonce;
            family_id = family_id;
          }))

    -- The consume of RedeemAuthorizationCode.
    unfoldable pub consume_code : RedemptionRequest → Client → String → Handler Redemption
    unfolding redeem_answer
    consume_code rr c family_id t =
        let (rows, r) = consume_auth_code s.hash q.consume_db rr.code family_id q.now t.codes in
        redeem_answer rr c family_id r (record t { codes = rows })

    -- The checks of a request that come before its code is touched.
    unfoldable pub check_redemption : RedemptionRequest → Result Client
    unfolding authenticate_client
    check_redemption rr =
        if rr.code == ""
        then oauth_err bad_request "invalid_request" "code is required"
        else elim (authenticate_client rr.client_id rr.client_secret authorization_code) [
          | err e ↦ err e
          | ok c ↦
              if (c.secret == "") && (rr.code_verifier == "")
              then oauth_err bad_request "invalid_request" "code_verifier is required (PKCE)"
              else if not (rr.code_verifier == "") && not (valid_code_verifier rr.code_verifier)
              then oauth_err bad_request "invalid_request"
                  "code_verifier must be 43-128 characters of [A-Za-z0-9-._~] (RFC 7636)"
              else ok c
        ]

    -- RedeemAuthorizationCode
    unfoldable pub redeem_authorization_code : RedemptionRequest → Handler Redemption
    unfolding check_redemption consume_code
    redeem_authorization_code rr = do
      c ← pure (check_redemption rr)
      elim q.random_family [
        | none ↦ pure (err server_error)
        | some family_id ↦ consume_code rr c family_id
      ]
