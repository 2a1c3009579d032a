-- ===== src/Oidc/Grants/Tests.antt =====
-- The token endpoint on one concrete server. The hash, SHA-256 and base64url(SHA-256) are the
-- identity here, and the signer writes out what it signs.
use tempogate.Common.{
  arith, String, ◌≡◌, ◌≢◌, refl, true, false, none, some, List, [], ◌∷◌, inr, ◌==◌, eq_iff,
  trim_space, is_space, ◌⊎◌, if◌then◌else◌, first, any, update, delete, count,
}
use tempogate.Oidc.Model.{AuthCode, Refresh}
use tempogate.Oidc.Client.{
  Client, authorization_code, refresh_token, device_code, allows, authenticate,
}
use tempogate.Oidc.Reply.{Tables, ok, err, oauth_err, oauth_error, bad_request, server_error}
use tempogate.State.Driver.{IsUp, up}
use tempogate.State.AuthCodes
use tempogate.State.AuthCodes.{consume_auth_code, reused}
use tempogate.State.AuthCodes.Single as AuthCodesSingle
use tempogate.State.Refresh
use tempogate.State.Refresh.{
  save_refresh, consume_refresh, revoke_refresh, revoke_refresh_family, consumed, scan_refresh,
}
use tempogate.State.Refresh.History
use tempogate.State.DeviceCodes
use tempogate.State.DeviceCodes.{
  lookup_device_code_by_device_code, poll_device_code, consume_device_code,
}
use tempogate.Oidc.Token.{
  Server, Request, RedemptionRequest, Redemption, TokenResponse, nil_grant, grant,
  valid_code_verifier, authenticate_client, revoke_family, check_pkce, redeem_answer, consume_code,
  check_redemption, redeem_authorization_code,
}
use tempogate.Oidc.Token.Revoke.{Ended}
use tempogate.Oidc.Token.Redeem.{redeem_authorization_code-replay}
use tempogate.Oidc.Token.Issue.{issue, persist, expiry, permitted, start_lineage}
use tempogate.Perms.{merge, to_claim}
use tempogate.Authz.{Policy, select_email, resolve}
use tempogate.Authz.Resolve.{is_matched}
use tempogate.Oidc.Token.Issue.Authorized.{policy_resolver, issue-authorized}
use tempogate.Oidc.Grants.Code.{
  IsSignIn, authorization_code_grant_sound, authorization_code_grant-once,
}
use tempogate.Oidc.Grants.Rotation.{
  IsRotation, refresh_token_grant_sound, refresh_token_grant-once, refresh_token_grant-reused,
  refresh_token_grant-withdrawn,
}
use tempogate.Oidc.Grants.Device.{IsDeviceSignIn, device_code_grant_sound}
use tempogate.State.Refresh.Revocation.{IsRevoked}
use tempogate.Oidc.Grants.{
  Form, authorization_code_grant, refresh_token_grant, device_code_grant, revoke_and_refuse, rotate,
  renew, refresh_answer, forget_device_code, device_answer, claim_device_code, settle_device_code,
  poll_answer, lookup_answer, client_credentials,
}

abbrev same : String → String
same s = s

abbrev answers : IsUp up
answers n = refl

abbrev cli : Client
cli = record {
  redirect_uris = "http://127.0.0.1/cb" ∷ [];
  grant_types = authorization_code ∷ refresh_token ∷ device_code ∷ [];
  secret = "";
}

abbrev server : Server
server = record {
  hash = same;
  sha256 = same;
  s256 = same;
  clients = λ id. some cli;
  connector_configured = λ id. true;
  domain_allowed = λ email. true;
  resolve = λ email. grant ("default:read" ∷ []);
  token_subject = λ connector subject. subject;
  mint = λ m. some (m.subject, "j1");
  mint_id_token = λ m. some m.nonce;
  access_ttl = 3_000_000_000;
  refresh_ttl = 100;
  refresh_max_lifetime = 1000;
}

abbrev at_fifty : Request
at_fifty = record {
  now = 50;
  now_auth = 51;
  now_issue = 52;
  random_family = some "f1";
  random_family_issue = some "f2";
  random_refresh = some "r1";
  consume_db = up;
  revoke_db = up;
  save_db = up;
  lookup_db = up;
  poll_db = up;
}

abbrev verifier : String
verifier = "abcdefghijklmnopqrstuvwxyz0123456789-._~ABCDEFG"

abbrev code_row : AuthCodes.AuthCodeRow
code_row = record {
  code_hash = "c1";
  client_id = "cli";
  redirect_uri = "http://127.0.0.1/cb";
  connector_id = "google";
  subject = "u1";
  email = "u@example.com";
  scope = "openid";
  code_challenge = verifier;
  code_challenge_method = "S256";
  nonce = "n1";
  family_id = "";
  created_at = 10;
  expires_at = 70;
  consumed_at = none;
}

abbrev refresh_row : Refresh.RefreshRow
refresh_row = record {
  token_hash = "r0";
  jti = "j0";
  client_id = "cli";
  connector_id = "google";
  subject = "u1";
  email = "u@example.com";
  family_id = "f0";
  auth_time = 10;
  created_at = 10;
  expires_at = 110;
  consumed_at = none;
  revoked_at = none;
}

abbrev device_row : DeviceCodes.DeviceCodeRow
device_row = record {
  device_code_hash = "d1";
  user_code = "ABCD-EFGH";
  client_id = "cli";
  scope = "openid";
  connector_id = some "google";
  subject = some "u1";
  email = some "u@example.com";
  approved_at = some 40;
  denied_at = none;
  last_polled_at = none;
  interval_seconds = 5;
  created_at = 10;
  expires_at = 70;
}

abbrev tables : Tables
tables = record { codes = code_row ∷ []; refresh = refresh_row ∷ []; devices = device_row ∷ [] }

abbrev fields : List (String × String)
fields =
    ("client_id", "cli")
    ∷ ("redirect_uri", "http://127.0.0.1/cb")
    ∷ ("code", "c1")
    ∷ ("code_verifier", verifier)
    ∷ ("refresh_token", "r0")
    ∷ ("device_code", "d1")
    ∷ []

-- url.Values.Get
abbrev get : List (String × String) → Form
get [] key = ""
get ((k, v) ∷ kvs) key = if k == key then v else get kvs key

abbrev form : Form
form = get fields

abbrev request : RedemptionRequest
request = record {
  code = "c1";
  client_id = "cli";
  redirect_uri = "http://127.0.0.1/cb";
  code_verifier = verifier;
  client_secret = "";
}

abbrev policy : Policy
policy = record {
  rules =
      record {
        index = 0;
        raw = "email:u@example.com=orders:write";
        grant = record { namespace = "orders"; role = "write" } ∷ [];
        kind = select_email;
        value = "u@example.com";
      }
      ∷ [];
  dflt = [];
}

program : Unit {0}
unfolding first any update delete count allows authenticate save_refresh consume_refresh
    revoke_refresh revoke_refresh_family consume_auth_code lookup_device_code_by_device_code
    poll_device_code consume_device_code valid_code_verifier authenticate_client revoke_family
    check_pkce redeem_answer consume_code check_redemption redeem_authorization_code permitted
    start_lineage expiry persist issue client_credentials authorization_code_grant revoke_and_refuse
    rotate renew refresh_answer refresh_token_grant forget_device_code device_answer
    claim_device_code settle_device_code poll_answer lookup_answer device_code_grant
program = tt

abbrev response : TokenResponse
response = record { access_token = "u1"; expires_in = 3; refresh_token = "r1"; id_token = "n1" }

abbrev redeemed_code : Redemption
redeemed_code = record {
  identity = record { connector_id = "google"; subject = "u1"; email = "u@example.com" };
  client_id = "cli";
  nonce = "n1";
  family_id = "f1";
}

-- the table of codes behind its redemption
abbrev redeemed_tables : Tables
redeemed_tables = record tables {
  codes = record code_row { family_id = "f1"; consumed_at = some 50 } ∷ [];
}

-- without a nonce
abbrev renewed : TokenResponse
renewed = record response { id_token = "" }

redemption :
    redeem_authorization_code server at_fifty request tables ≡ (redeemed_tables, ok redeemed_code)
unfolding program
redemption = refl

abbrev sign_in_tables : Tables
unfolding program
sign_in_tables = (authorization_code_grant server at_fifty form none tables).0

sign_in : authorization_code_grant server at_fifty form none tables ≡ (sign_in_tables, ok response)
unfolding program
sign_in = refl

abbrev rotation_tables : Tables
unfolding program
rotation_tables = (refresh_token_grant server at_fifty form none tables).0

rotation : refresh_token_grant server at_fifty form none tables ≡ (rotation_tables, ok renewed)
unfolding program
rotation = refl

abbrev device_sign_in_tables : Tables
unfolding program
device_sign_in_tables = (device_code_grant server at_fifty (λ rows. rows) form none tables).0

device_sign_in :
    device_code_grant server at_fifty (λ rows. rows) form none tables
    ≡ (device_sign_in_tables, ok renewed)
unfolding program
device_sign_in = refl

replay : (redeem_authorization_code server at_fifty request redeemed_tables).1 ≡ err server_error
unfolding program
replay = refl

forged :
    check_redemption server at_fifty (record request { code_verifier = "short" })
    ≡ oauth_err bad_request "invalid_request"
        "code_verifier must be 43-128 characters of [A-Za-z0-9-._~] (RFC 7636)"
unfolding program
forged = refl

accepted : check_redemption server at_fifty request ≡ ok cli
unfolding program
accepted = refl

-- the code of a sign-in that was redeemed into the family of the stored refresh token
abbrev signed_in : Tables
signed_in = record tables {
  codes = record code_row { family_id = "f0"; consumed_at = some 20 } ∷ [];
}

-- what its consumed row still tells
abbrev seen : AuthCode
seen = record {
  code = "c1";
  client_id = "cli";
  redirect_uri = "http://127.0.0.1/cb";
  connector_id = "google";
  subject = "u1";
  email = "u@example.com";
  scope = "";
  code_challenge = "";
  code_challenge_method = "";
  nonce = "";
  family_id = "f0";
  created_at = 10;
  expires_at = 70;
}

-- A text that the empty one is told apart from.
is_named : (name : String) → (name == "") ≡ false → name ≢ ""
is_named name e same = cc (e, (eq_iff name "").1 same)

spent : (consume_auth_code same up "c1" "f1" 50 signed_in.codes).1 ≡ reused seen
unfolding program
spent = refl

redeem_authorization_code-replay_example :
    Ended "f0"
      (oauth_error bad_request "invalid_grant" "unknown or already-redeemed authorization code")
      signed_in
      (redeem_authorization_code server at_fifty request signed_in)
redeem_authorization_code-replay_example =
    redeem_authorization_code-replay server at_fifty request cli "f1" seen signed_in answers
      accepted refl spent (is_named "f0" refl)

authorization_code_grant_sound_example :
    IsSignIn server at_fifty form none tables sign_in_tables response
authorization_code_grant_sound_example =
    authorization_code_grant_sound server at_fifty form none tables sign_in_tables sign_in

refresh_token_grant_sound_example :
    IsRotation server at_fifty form none tables rotation_tables renewed
refresh_token_grant_sound_example =
    refresh_token_grant_sound server at_fifty form none tables rotation_tables rotation

device_code_grant_sound_example :
    IsDeviceSignIn server at_fifty (λ rows. rows) form none tables device_sign_in_tables renewed
device_code_grant_sound_example =
    device_code_grant_sound server at_fifty (λ rows. rows) form none tables device_sign_in_tables
      device_sign_in

-- The refresh token was handed out at 20.
abbrev rotated : Tables
rotated = record tables { refresh = record refresh_row { consumed_at = some 20 } ∷ [] }

abbrev handed_out : Refresh
handed_out = scan_refresh "r0" refresh_row

refresh_token_grant-reused_example :
    IsRevoked "f0" (refresh_token_grant server at_fifty form none rotated).0.refresh
    × ((refresh_token_grant server at_fifty form none rotated).1
        ≡ oauth_err bad_request "invalid_grant"
            "refresh token already used; the session has been revoked")
unfolding program
refresh_token_grant-reused_example =
    refresh_token_grant-reused server at_fifty form none cli rotated {rows = rotated.refresh}
      {rt = handed_out} answers (is_named "r0" refl) refl refl

abbrev rotated_at_fifty : List Refresh.RefreshRow
rotated_at_fifty = record refresh_row { consumed_at = some 50 } ∷ []

-- The person has lost every permission.
abbrev without_permissions : Server
without_permissions = record server { resolve = λ email. nil_grant }

refresh_token_grant-withdrawn_example :
    (desc : String) × IsRevoked "f0"
      (refresh_token_grant without_permissions at_fifty form none tables).0.refresh
    × ((refresh_token_grant without_permissions at_fifty form none tables).1
        ≡ oauth_err bad_request "invalid_grant" desc)
unfolding program
refresh_token_grant-withdrawn_example =
    refresh_token_grant-withdrawn without_permissions at_fifty form none cli tables
      {rows = rotated_at_fifty} {rt = handed_out} answers (is_named "r0" refl) refl refl
      (omega arith, omega arith, is_named "u1" refl) (inr (inr refl))

authorization_code_grant-once_example :
    authorization_code_grant server at_fifty form none sign_in_tables
    ≢ (sign_in_tables, ok response)
unfolding program AuthCodesSingle.run sign_in_tables
authorization_code_grant-once_example =
    authorization_code_grant-once server at_fifty at_fifty form form none none tables sign_in_tables
      sign_in_tables sign_in_tables [] (refl, tt) answers sign_in refl refl

refresh_token_grant-once_example :
    refresh_token_grant server at_fifty form none rotation_tables ≢ (rotation_tables, ok renewed)
unfolding program History.run rotation_tables
refresh_token_grant-once_example =
    refresh_token_grant-once server same at_fifty at_fifty form form none none tables
      rotation_tables rotation_tables rotation_tables [] (refl, tt) answers rotation refl refl refl

-- The person may read and write orders, and nothing by default.
abbrev asking : Server
asking = record server { resolve = policy_resolver same policy }

abbrev policy_tables : Tables
unfolding program
policy_tables =
    (issue asking at_fifty redeemed_code.identity "cli" "n1"
      (record { family_id = "f1"; auth_time = 51 }) redeemed_tables).0

issue-authorized_example :
    ((is_matched same policy redeemed_code.identity.email ≡ true) ⊎ (policy.dflt ≢ []))
    × ((jti : String) × (asking.mint (record {
      subject = "u1";
      email = "u@example.com";
      idp = "google";
      ttl = asking.access_ttl;
      permissions = to_claim (some (resolve same policy "u@example.com"));
      client_id = "cli";
    })
          ≡ some (response.access_token, jti)))
unfolding program to_claim resolve trim_space is_space merge
issue-authorized_example =
    issue-authorized same policy asking at_fifty redeemed_code.identity "cli" "n1"
      (record { family_id = "f1"; auth_time = 51 }) redeemed_tables policy_tables {r = response}
      refl refl
