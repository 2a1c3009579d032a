-- ===== src/Oidc/Grants.antt =====
-- oidc/token.go and oidc/device_token.go: the three grants of the token endpoint and their
-- dispatch. A form is its Get method; `basic` is what parseBasicAuth reads off the header.
pub mod Code
pub mod Rotation
pub mod Device
mod Tests
use Prim.Native.String.{len}
use tempogate.Common.{
  ℕ, ◌+◌, String, Bool, true, false, not, ◌&&◌, ◌||◌, Option, none, some, List, [], ◌∷◌, ◌==◌,
  if◌then◌else◌, ltb, leb, ◌≡◌, is_some, is_none,
}
use tempogate.Oidc.Model.{DeviceCode, Refresh, Identity}
use tempogate.Oidc.Reply.{
  Tables, Failure, Result, ok, err, oauth_err, oauth_error, no_permissions, server_error,
  bad_request, unauthorized, Handler, pure, ◌>>=◌, ◌>>◌, continue, refuse_if,
}
use tempogate.Oidc.Client.{GrantType, refresh_token, device_code}
use tempogate.State.Refresh.{ConsumeResult, consumed, reused, consume_refresh}
use tempogate.State.Refresh as StateRefresh
use tempogate.State.DeviceCodes
use tempogate.State.DeviceCodes.{
  LookupResult, PollResult, found, polled, lookup_device_code_by_device_code, poll_device_code,
  consume_device_code,
}
use tempogate.Oidc.Token.{
  Server, Request, RedemptionRequest, Redemption, Lineage, TokenResponse, authenticate_client,
  revoke_family, redeem_authorization_code,
}
use tempogate.Oidc.Token.Issue.{issue}

abbrev pub Form : Type 0
Form = String → String

abbrev pub no_access : String
no_access = "no Temporal access is granted to this account; ask an administrator for access"

-- clientCredentials
unfoldable pub client_credentials : Form → Option (String × String) → String × String
client_credentials form (some (id, secret)) = (id, secret)
client_credentials form none = (form "client_id", form "client_secret")

-- errors.Is(err, errNoPermissions): what a grant does instead.
abbrev pub on_no_permissions : {A : Type 0} → Handler A → Tables × Result A → Tables × Result A
on_no_permissions k (t, ok a) = (t, ok a)
on_no_permissions k (t, err no_permissions) = k t
on_no_permissions k (t, err server_error) = (t, err server_error)
on_no_permissions k (t, err (oauth_error status code desc)) = (t, oauth_err status code desc)

abbrev pub refused : {A : Type 0} → String → String → Handler A
refused code desc = pure (oauth_err bad_request code desc)

-- A grant that refuses the account without permissions succeeds only as the issuing does.
pub refused_success :
    (code desc : String) (o : Tables × Result TokenResponse) {t' : Tables} {r : TokenResponse}
    → on_no_permissions (refused code desc) o ≡ (t', ok r)
    → o ≡ (t', ok r)
refused_success code desc (t, ok a) e = e
refused_success code desc (t, err no_permissions) e = cc
refused_success code desc (t, err server_error) e = cc
refused_success code desc (t, err (oauth_error status c d)) e = cc

module _ (s : Server) (q : Request) where
  unfoldable pub authorization_code_grant : Form → Option (String × String) → Handler TokenResponse
  authorization_code_grant form basic = do
    let (client_id, secret) = client_credentials form basic
    r ← redeem_authorization_code s q (record {
      code = form "code";
      client_id = client_id;
      redirect_uri = form "redirect_uri";
      code_verifier = form "code_verifier";
      client_secret = secret;
    })
    λ t. on_no_permissions (refused "invalid_grant" no_access) (
        issue s q r.identity r.client_id r.nonce
          (record { family_id = r.family_id; auth_time = q.now_auth }) t)

  -- The family goes, and the request is refused.
  unfoldable pub revoke_and_refuse : String → String → Handler TokenResponse
  revoke_and_refuse family_id desc = do
    revoke_family s q family_id q.now
    refused "invalid_grant" desc

  -- The connector, the allowlist and the resolver are consulted afresh at every rotation.
  unfoldable pub rotate : Refresh → Handler TokenResponse
  unfolding revoke_and_refuse
  rotate rt t =
      if not (s.connector_configured rt.connector_id)
      then revoke_and_refuse rt.family_id
          "the sign-in method of this session is no longer available; sign in again" t
      else if not (s.domain_allowed rt.email)
      then revoke_and_refuse rt.family_id "email domain is no longer allowed" t
      else on_no_permissions (revoke_and_refuse rt.family_id no_access) (
          issue s q
            (record { connector_id = rt.connector_id; subject = rt.subject; email = rt.email })
            rt.client_id "" (record { family_id = rt.family_id; auth_time = rt.auth_time }) t)

  -- What refreshTokenGrant does with a live token that it consumed.
  unfoldable pub renew : Refresh → Handler TokenResponse
  unfolding rotate
  renew rt = do
    refuse_if (ltb rt.expires_at q.now)
        (oauth_error bad_request "invalid_grant" "refresh token expired")
    refuse_if (not (ltb q.now (rt.auth_time + s.refresh_max_lifetime))) (
        oauth_error bad_request "invalid_grant"
          "session reached its maximum lifetime; sign in again")
    refuse_if (rt.subject == "") (
        oauth_error bad_request "invalid_grant"
          "refresh token predates this tempogate version; sign in again")
    rotate rt

  unfoldable pub refresh_answer : ConsumeResult → Handler TokenResponse
  unfolding renew
  refresh_answer (consumed rt) = renew rt
  refresh_answer (reused rt) =
      revoke_and_refuse rt.family_id "refresh token already used; the session has been revoked"
  refresh_answer StateRefresh.not_found =
      refused "invalid_grant" "unknown, revoked, or other client's refresh token"
  refresh_answer ConsumeResult.failed = pure (err server_error)

  unfoldable pub refresh_token_grant : Form → Option (String × String) → Handler TokenResponse
  unfolding refresh_answer
  refresh_token_grant form basic =
      let (client_id, secret) = client_credentials form basic in
      if form "refresh_token" == ""
      then refused "invalid_request" "refresh_token is required"
      else (do
        c ← pure (authenticate_client s client_id secret refresh_token)
        λ t.
            (let (rows, r) =
                consume_refresh s.hash q.consume_db (form "refresh_token") client_id q.now
                  t.refresh in
              refresh_answer r (record t { refresh = rows })))

  -- The consume whose failure deviceCodeGrant swallows.
  unfoldable pub forget_device_code : String → Handler (Unit {0})
  forget_device_code code t =
      (record t { devices = (consume_device_code s.hash q.consume_db code t.devices).0 }, ok tt)

  unfoldable pub device_answer : LookupResult → Handler TokenResponse
  device_answer DeviceCodes.not_found t = refused "invalid_grant" "device_code already consumed" t
  device_answer LookupResult.failed t = pure (err server_error) t
  device_answer (found final) t =
      if final.subject == ""
      then refused "invalid_grant" "device code predates this tempogate version; sign in again" t
      else on_no_permissions (refused "access_denied" no_access) (
          issue s q
            (record {
              connector_id = final.connector_id;
              subject = final.subject;
              email = final.email;
            })
            final.client_id "" (record { family_id = ""; auth_time = 0 }) t)

  -- The claim of an approved code, and the tokens for it.
  unfoldable pub claim_device_code : String → Handler TokenResponse
  unfolding device_answer
  claim_device_code code t =
      let (rows, r) = consume_device_code s.hash q.consume_db code t.devices in
      device_answer r (record t { devices = rows })

  -- Behind a well-paced poll: expiry and denial end the flow, and only an approval goes on.
  unfoldable pub settle_device_code : String → DeviceCode → Handler TokenResponse
  unfolding claim_device_code forget_device_code
  settle_device_code code dc =
      if ltb dc.expires_at q.now
      then (do forget_device_code code; refused "expired_token" "device_code expired")
      else if is_some dc.denied_at
      then (do
        forget_device_code code
        refused "access_denied" "the device authorization request was denied")
      else if is_none dc.approved_at
      then refused "authorization_pending" "user has not yet completed the device authorization"
      else claim_device_code code

  unfoldable pub poll_answer : String → DeviceCode → PollResult → Handler TokenResponse
  unfolding settle_device_code
  poll_answer code dc (polled true) t =
      refused "slow_down" "polling faster than the agreed interval" t
  poll_answer code dc (polled false) t = settle_device_code code dc t
  poll_answer code dc PollResult.not_found t =
      refused "invalid_grant" "unknown or already-consumed device_code" t
  poll_answer code dc PollResult.failed t = pure (err server_error) t

  -- Behind the authentication of the client. `others` is what other requests write between the
  -- read and the swap of the poll.
  unfoldable pub lookup_answer :
      (List DeviceCodes.DeviceCodeRow → List DeviceCodes.DeviceCodeRow)
      → String
      → String
      → LookupResult
      → Handler TokenResponse
  unfolding poll_answer
  lookup_answer others client_id code DeviceCodes.not_found t =
      refused "invalid_grant" "unknown or already-consumed device_code" t
  lookup_answer others client_id code LookupResult.failed t = pure (err server_error) t
  lookup_answer others client_id code (found dc) t =
      if client_id == dc.client_id
      then (let (rows, r) = poll_device_code s.hash q.poll_db others code q.now t.devices in
          poll_answer code dc r (record t { devices = rows }))
      else pure
          (oauth_err unauthorized "invalid_client"
            "client_id does not match the device authorization request")
          t

  unfoldable pub device_code_grant :
      (List DeviceCodes.DeviceCodeRow → List DeviceCodes.DeviceCodeRow)
      → Form
      → Option (String × String)
      → Handler TokenResponse
  unfolding lookup_answer
  device_code_grant others form basic =
      let (client_id, secret) = client_credentials form basic in
      let code = form "device_code" in
      if code == ""
      then refused "invalid_request" "device_code is required"
      else if client_id == ""
      then refused "invalid_request" "client_id is required"
      else (do
        c ← pure (authenticate_client s client_id secret device_code)
        λ t.
            lookup_answer others client_id code
              (lookup_device_code_by_device_code s.hash q.lookup_db code t.devices) t)

-- paramCap, with the description of an excess written out.
pub record ParamCap : Type 0 where
  pub value : String
  pub max : ℕ
  pub excess : String

-- checkParamLengths: the first parameter over its cap is refused.
unfoldable pub check_param_lengths : List ParamCap → Result (Unit {0})
check_param_lengths [] = ok tt
check_param_lengths (c ∷ cs) =
    if ltb c.max (len c.value)
    then oauth_err bad_request "invalid_request" c.excess
    else check_param_lengths cs

abbrev pub token_caps : Form → List ParamCap
token_caps form =
    record { value = form "client_id"; max = 256; excess = "client_id exceeds 256 bytes" }
    ∷ record { value = form "redirect_uri"; max = 2048; excess = "redirect_uri exceeds 2048 bytes" }
    ∷ record { value = form "code"; max = 1024; excess = "code exceeds 1024 bytes" }
    ∷ record {
      value = form "code_verifier";
      max = 1024;
      excess = "code_verifier exceeds 1024 bytes";
    }
    ∷ record {
      value = form "refresh_token";
      max = 1024;
      excess = "refresh_token exceeds 1024 bytes";
    }
    ∷ record { value = form "device_code"; max = 1024; excess = "device_code exceeds 1024 bytes" }
    ∷ []

module _ (s : Server) (q : Request) where
  dispatch_grant :
      (List DeviceCodes.DeviceCodeRow → List DeviceCodes.DeviceCodeRow)
      → Form
      → Option (String × String)
      → Handler TokenResponse
  dispatch_grant others form basic t =
      if form "grant_type" == "authorization_code"
      then authorization_code_grant s q form basic t
      else if form "grant_type" == "refresh_token"
      then refresh_token_grant s q form basic t
      else if form "grant_type" == "urn:ietf:params:oauth:grant-type:device_code"
      then device_code_grant s q others form basic t
      else if form "grant_type" == ""
      then refused "invalid_request" "grant_type is required" t
      else refused "unsupported_grant_type"
          "only authorization_code, refresh_token, and urn:ietf:params:oauth:grant-type:device_code are supported"
          t

  -- dispatch. The store of device codes is wired in; the declarations for the log's redaction
  -- stand outside the model.
  unfoldable pub dispatch :
      (List DeviceCodes.DeviceCodeRow → List DeviceCodes.DeviceCodeRow)
      → Form
      → Option (String × String)
      → Handler TokenResponse
  unfolding check_param_lengths dispatch_grant
  dispatch others form basic = do
    pure (check_param_lengths (token_caps form))
    dispatch_grant others form basic
