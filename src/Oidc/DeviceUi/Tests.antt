-- ===== src/Oidc/DeviceUi/Tests.antt =====
-- The device pages on one concrete server: a sign-in, its approval, and a guesser.
use tempogate.Common.{
  ℕ, String, ◌≡◌, refl, true, none, some, List, [], ◌∷◌, ◌==◌, cut, first, any, delete, update,
  trim_right_char, if◌then◌else◌,
}
use tempogate.Oidc.Model.{Identity, BrowserSession}
use tempogate.Oidc.Client.{Client, authorization_code, allows, authenticate}
use tempogate.Oidc.Reply.{ok}
use tempogate.Oidc.Mac.{mac_label_device_bounce_state, signed, verify_signed}
use tempogate.Oidc.Mac.Plain.{plain, plain-IsWire, escape, unescape, free}
use tempogate.Oidc.Grants.{Form}
use tempogate.Oidc.Token.{
  Server, grant, authenticate_client, revoke_family, check_pkce, redeem_answer, consume_code,
  check_redemption, redeem_authorization_code,
}
use tempogate.Oidc.Token.Issue.{permitted}
use tempogate.Oidc.Session.{
  SessionManager, active, sign_cookie, session_cookie, new_session, issue_cookie, get,
  verify_cookie,
}
use tempogate.Oidc.DeviceAuthorization.{format_user_code}
use tempogate.Ratelimit.{new_limiter, max_keys_or, drop_last, make_room, fetch, allow, refund}
use tempogate.Ratelimit.Whole.{whole}
use tempogate.State.Driver.{Driver, up}
use tempogate.State.AuthCodes.{AuthCodeRow, consume_auth_code}
use tempogate.State.BrowserSessions.{session_row, save_browser_session, lookup_browser_session}
use tempogate.State.DeviceCodes.{
  DeviceCodeRow, decide_device_code, approve_device_code, deny_device_code,
  lookup_device_code_by_user_code,
}
use tempogate.Oidc.DeviceUi.{DeviceUi, UiRequest, Ui, approved_page, Answer, html, see_other}
use tempogate.Oidc.DeviceUi.UserCode.{canonical_user_code}
use tempogate.Oidc.DeviceUi.Bounce.{
  sign_bounce_state, verify_bounce_state, referer_allowed, origin_allowed, bounce_state-foreign,
}
use tempogate.Oidc.DeviceUi.Attempts.{
  user_code_usable, spend_user_code_attempt, refund_user_code_attempt,
}
use tempogate.Oidc.DeviceUi.Pages.{
  confirm_redirect, devices_of, handle_enter_post, handle_confirm, deny_for_no_access,
}
use tempogate.Oidc.DeviceUi.Decision.{handle_sso_denied, handle_sso_callback, handle_decision}
use tempogate.Oidc.DeviceUi.Approval.{IsApproved, handle_decision-IsApproved}
use tempogate.Oidc.DeviceUi.Throttled.{IsBlindAt, too_many_attempts-IsBlind}

program : Unit {0}
unfolding signed verify_signed cut escape unescape first any delete update save_browser_session
    lookup_browser_session issue_cookie get sign_bounce_state verify_bounce_state referer_allowed
    origin_allowed user_code_usable spend_user_code_attempt refund_user_code_attempt
    handle_enter_post handle_confirm deny_for_no_access handle_sso_denied handle_sso_callback
    handle_decision drop_last make_room fetch allow refund max_keys_or decide_device_code
    approve_device_code deny_device_code lookup_device_code_by_user_code canonical_user_code
    format_user_code confirm_redirect permitted trim_right_char authenticate_client allows
    authenticate revoke_family check_pkce redeem_answer consume_code check_redemption
    redeem_authorization_code consume_auth_code
program = tt

abbrev ui_client : Client
ui_client = record { redirect_uris = []; grant_types = authorization_code ∷ []; secret = "s" }

abbrev server : Server
server = record {
  hash = λ s. s;
  sha256 = λ s. s;
  s256 = λ s. s;
  clients = λ id. some ui_client;
  connector_configured = λ id. true;
  domain_allowed = λ email. true;
  resolve = λ email. grant ("default:read" ∷ []);
  token_subject = λ connector subject. subject;
  mint = λ m. none;
  mint_id_token = λ m. none;
  access_ttl = 3;
  refresh_ttl = 3;
  refresh_max_lifetime = 3;
}

abbrev manager : SessionManager
manager = record {
  hash = λ s. s;
  signer = plain;
  read_cookie = λ header name. some header;
  ttl = 300_000_000_000;
  cookie_name = "tempogate_session";
  cookie_path = "/device";
  cookie_secure = true;
}

-- Every body is the user code of the form, and JSON knows one state.
abbrev ui : DeviceUi ℕ
ui = record {
  server = server;
  sessions = manager;
  signer = plain;
  arithmetic = whole;
  resolve = λ email. grant ("default:read" ∷ []);
  issuer = "https://idp";
  issuer_scheme = "https";
  issuer_host = "idp";
  issuer_escaped_path = "";
  issuer_path = "";
  internal_client_id = "tempogate-device-ui";
  internal_client_secret = "s";
  parse_query = λ body. some (λ name. if name == "csrf_token" then "s1" else body);
  parse_referer = λ referer. none;
  query_escape = λ s. s;
  encode_query = λ parameters. "q";
  equal_fold = λ a b. a == b;
  marshal = λ p. "{}";
  unmarshal = λ raw. some (record { user_code = "BCDFGHJK"; nonce = "n1"; exp = 600 });
}

abbrev request : UiRequest
request = record {
  cookie = sign_cookie manager "s1";
  origin = "https://idp";
  referer = "";
  body = "bcdf-ghjk";
  client_key = "10.0.0.1";
  now = 50;
  now_sign = 51;
  now_deny = 52;
  now_session = 50;
  now_ip = 50;
  now_attempt = 50;
  nonce = some "n1";
  sid = some "s1";
  redeem = record {
    now = 50;
    now_auth = 51;
    now_issue = 52;
    random_family = some "f1";
    random_family_issue = some "f2";
    random_refresh = some "r1";
    consume_db = up;
    revoke_db = up;
    save_db = up;
    lookup_db = up;
    poll_db = up;
  };
  session_db = up;
  lookup_db = up;
  deny_db = up;
  decide_db = up;
}

abbrev ann : Identity
ann = record { connector_id = "google"; subject = "42"; email = "ann@example.com" }

abbrev device_row : DeviceCodeRow
device_row = record {
  device_code_hash = "d1";
  user_code = "BCDFGHJK";
  client_id = "cli";
  scope = "openid";
  connector_id = none;
  subject = none;
  email = none;
  approved_at = none;
  denied_at = none;
  last_polled_at = none;
  interval_seconds = 5;
  created_at = 10;
  expires_at = 90;
}

abbrev approved_row : DeviceCodeRow
approved_row = record device_row {
  connector_id = some "google";
  subject = some "42";
  email = some "ann@example.com";
  approved_at = some 50;
}

abbrev code_row : AuthCodeRow
code_row = record {
  code_hash = "c1";
  client_id = "tempogate-device-ui";
  redirect_uri = "https://idp/device/sso-callback";
  connector_id = "google";
  subject = "42";
  email = "ann@example.com";
  scope = "openid email";
  code_challenge = "";
  code_challenge_method = "";
  nonce = "";
  family_id = "";
  created_at = 10;
  expires_at = 90;
  consumed_at = none;
}

-- Ann has come back from the sign-in, and the device waits.
abbrev bs : BrowserSession
bs = new_session manager "s1" ann 50

abbrev world : Ui ℕ
world = record {
  tables = record { codes = code_row ∷ []; refresh = []; devices = device_row ∷ [] };
  sessions = session_row (λ s. s) bs ∷ [];
  ip_attempts = new_limiter 20 0;
  session_attempts = new_limiter 5 0;
}

abbrev decision : Ui ℕ × Answer
decision = handle_decision ui request true world

approved : decision.1 ≡ html 200 approved_page
unfolding program
approved = refl

handle_decision-IsApproved_example :
    (origin_allowed ui "https://idp" "" ≡ true)
    × ((f : Form) × (b : BrowserSession) × (ui.parse_query "bcdf-ghjk" ≡ some f)
        × (get manager up 50 (sign_cookie manager "s1") world.sessions ≡ active b)
        × (f "csrf_token" ≡ b.sid)
        × ((claim : List String) × (permitted (ui.resolve b.email) ≡ ok claim))
        × IsApproved ui request
            (canonical_user_code (f "user_code"))
            b
            (device_row ∷ [])
            (devices_of decision.0))
unfolding program
handle_decision-IsApproved_example =
    handle_decision-IsApproved ui request world {w' = decision.0} (λ n. refl) (refl, tt) refl

-- The session's budget is spent.
abbrev spent : Ui ℕ
spent = record world { session_attempts = new_limiter 0 0 }

too_many_attempts-IsBlind_example :
    IsBlindAt (handle_enter_post ui request) spent
    × IsBlindAt (handle_confirm ui request "bcdf-ghjk") spent
    × IsBlindAt (handle_decision ui request true) spent
unfolding program
too_many_attempts-IsBlind_example = (
  (too_many_attempts-IsBlind ui request "bcdf-ghjk" true).0 spent refl,
  (too_many_attempts-IsBlind ui request "bcdf-ghjk" true).1 spent refl,
  (too_many_attempts-IsBlind ui request "bcdf-ghjk" true).2 spent refl,
)

-- The sign-in's way back.
abbrev callback : Ui ℕ × Answer
callback =
    handle_sso_callback ui request "c1" (signed plain mac_label_device_bounce_state "{}") ""
      (record world { sessions = [] })

called_back :
    callback.1
    ≡ see_other "/device/confirm?user_code=BCDF-GHJK" (some (session_cookie manager "s1"))
unfolding program
called_back = refl

bounce_state-foreign_example :
    (verify_bounce_state ui 50 (sign_cookie manager "s1") ≡ none)
    × (verify_cookie manager (signed plain mac_label_device_bounce_state "{}") ≡ none)
bounce_state-foreign_example =
    bounce_state-foreign ui plain-IsWire manager 50 "s1"
      (record { user_code = "BCDFGHJK"; nonce = "n1"; exp = 600 }) refl free refl refl
