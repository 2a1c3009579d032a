-- ===== src/Oidc/Authorize/Tests.antt =====
-- One sign-in on a concrete server, from the authorization endpoint through the callback to the
-- tokens. The hashes and the MAC are the identity here, and a Cookie header is its one value.
use tempogate.Common.{
  arith, String, ◌≡◌, ◌≢◌, refl, subst, true, false, Option, none, some, List, [], ◌∷◌, ◌<>◌, ◌==◌,
  eq_iff, if◌then◌else◌, first, any, update, delete, cut_last, cut, contains, is_space, split,
  trim_space,
}
use tempogate.Oidc.Model.{AuthRequest}
use tempogate.Oidc.Reply.{Tables}
use tempogate.Oidc.Client.{Client, ClientRegistry, allows, is_confidential, authenticate}
use tempogate.Oidc.Client.Redirects.{
  Url, valid, is_loopback, structural, registrable, parse_redirect_uri,
  check_registered_redirect_uri, match_redirect_uri, validate,
}
use tempogate.Oidc.Client.Registry.{registered, assign, parse_client_registry, with_secrets}
use tempogate.Oidc.Client.Match.{IsRegistrable}
use tempogate.Oidc.Client.Overlaid.{validate-parse_client_registry}
use tempogate.Oidc.Grants.{check_param_lengths, Form, authorization_code_grant, client_credentials}
use tempogate.Oidc.Connector.{Connector, Connectors, Completion, completed}
use tempogate.Oidc.Binding.{
  UpstreamBinding, Cookie, cookie, clear_cookie, bound_to_browser, new_upstream_binding,
}
use tempogate.Common.{trim_space, is_space, trim_right_char}
use tempogate.Oidc.Token.{
  Server, Request, TokenResponse, grant, valid_code_verifier, authenticate_client, check_pkce,
  redeem_answer, consume_code, check_redemption, redeem_authorization_code, revoke_family,
}
use tempogate.Oidc.Token.Issue.{issue, persist, expiry, permitted, start_lineage}
use tempogate.State.Driver.{IsUp, up}
use tempogate.State.AuthRequests.{save_auth_request, consume_auth_request}
use tempogate.State.AuthCodes.{save_auth_code, consume_auth_code}
use tempogate.State.Refresh.{save_refresh}
use tempogate.Oidc.Callback.{
  Logins, Callback, CallbackRequest, Response, redirected, success, email_domain_allowed,
  authorization_response, refusal, complete_upstream, gate, upstream_answer, resume, after_consume,
  complete, handle,
}
use tempogate.Oidc.Callback.Admission.{IsLogin, IsAdmitted, handle_sound}
use tempogate.Oidc.Callback.Browser.{IsRefusal, handle-forged}
use tempogate.Oidc.Authorize.{
  AuthorizeInput, Authorizer, AuthorizeRequest, to_upstream, valid_code_challenge, scope_contains,
  check, authorize,
}
use tempogate.Oidc.Authorize.Sent.{IsCodeFlow, IsBegun, authorize_sound}
use tempogate.Oidc.Authorize.Completable.{authorize-handle}

abbrev same : String → String
same s = s

answers : IsUp up
answers n = refl

program : Unit {0}
unfolding first any update delete contains is_space cut cut_last split trim_space allows
    is_confidential authenticate is_loopback structural registrable parse_redirect_uri
    check_registered_redirect_uri match_redirect_uri validate assign parse_client_registry
    with_secrets check_param_lengths cookie clear_cookie bound_to_browser save_auth_request
    consume_auth_request save_auth_code email_domain_allowed authorization_response refusal
    complete_upstream gate upstream_answer resume after_consume complete handle valid_code_challenge
    scope_contains check authorize permitted
program = tt

abbrev challenge : String
challenge = "abcdefghijklmnopqrstuvwxyz0123456789-_ABCDE"

abbrev loopback : Url
loopback = record {
  scheme = "http";
  opaque = "";
  host = "127.0.0.1";
  hostname = "127.0.0.1";
  port = "";
  path = "/cb";
  escaped_path = "/cb";
  raw_query = "";
  force_query = false;
  userinfo = false;
  text = "http://127.0.0.1/cb";
}

abbrev parse_url : String → Option Url
parse_url raw = if raw == "http://127.0.0.1/cb" then some loopback else none

abbrev clients : ClientRegistry
unfolding program
clients = elim (parse_client_registry parse_url false "cli:http://127.0.0.1/cb, tv:") [
  | registered reg ↦ reg
  | _ ↦ λ id. none
]

parsed : parse_client_registry parse_url false "cli:http://127.0.0.1/cb, tv:" ≡ registered clients
unfolding program
parsed = refl

abbrev google : Connector
google = record {
  id = "google";
  display_name = "Google";
  response_method = "GET";
  state_param = "state";
  begin_sign_in = λ p. some "https://accounts.example/";
  complete_sign_in = λ p. completed (record {
    identity = record { subject = "u1"; email = "u@example.com"; email_verified = true };
    refusal = "";
  });
}

abbrev connectors : Connectors
connectors = record { by_id = λ id. if id == "google" then some google else none; active = google }

abbrev binding : UpstreamBinding
binding = record {
  hmac = same;
  sha256 = same;
  base64url = same;
  hex = same;
  hex_state = same;
  read_cookie = λ header name. some header;
  secure = true;
  issuer_path = "";
  name_prefix = "__Host-tempogate_upstream_";
}

-- An issuer over plain http, and a key that is too short.
plain_issuer :
    new_upstream_binding (λ s. some ("http", "/id/")) (λ a b. a == b) 32 "http://id/id/" binding
    ≡ some (record binding {
      secure = false;
      issuer_path = "/id";
      name_prefix = "tempogate_upstream_";
    })
unfolding new_upstream_binding trim_space is_space trim_right_char
plain_issuer = refl

short_key : new_upstream_binding (λ s. none) (λ a b. a == b) 31 "https://id" binding ≡ none
unfolding new_upstream_binding
short_key = refl

abbrev locate : String → List (String × String) → Option String
locate uri params = some (uri <> "?")

abbrev authorizer : Authorizer
authorizer = record {
  parse = parse_url;
  clients = clients;
  binding = binding;
  connectors = connectors;
  issuer = "https://id.example";
  location = locate;
}

abbrev at_start : AuthorizeRequest
at_start = record { now = 0; random_state = some "s1"; save_db = up }

abbrev input : AuthorizeInput
input = record {
  response_type = "code";
  client_id = "cli";
  redirect_uri = "http://127.0.0.1/cb";
  scope = "email openid";
  state = "x";
  code_challenge = challenge;
  code_challenge_method = "S256";
  nonce = "n1";
}

abbrev callback : Callback
callback = record {
  hash = same;
  binding = binding;
  connectors = connectors;
  allowed_domains = "example.com" ∷ [];
  lower = same;
  resolve = λ email. grant ("default:read" ∷ []);
  issuer = "https://id.example";
  location = locate;
}

abbrev binding_cookie : Cookie
unfolding program
binding_cookie = cookie binding "google" "s1"

abbrev query : String → String
query key = if key == "state" then "s1" else ""

abbrev coming_back : CallbackRequest
coming_back = record {
  connector = "google";
  cookie = binding_cookie.value;
  params = query;
  now = 10;
  now_code = 11;
  random_code = some "c9";
  consume_db = up;
  save_db = up;
}

abbrev pending : List AuthRequest
unfolding program
pending = (authorize authorizer at_start input []).0

abbrev waiting : Logins
waiting = record { requests = pending; codes = [] }

abbrev signed_in : Logins
unfolding program
signed_in = (handle callback coming_back waiting).0

abbrev answered : Response
unfolding program
answered = (handle callback coming_back waiting).1

begun :
    authorize authorizer at_start input []
    ≡ (pending, to_upstream "https://accounts.example/" binding_cookie)
unfolding program
begun = refl

completes : handle callback coming_back waiting ≡ (signed_in, answered, success)
unfolding program
completes = refl

validate-parse_client_registry_example :
    IsRegistrable parse_url false "http://127.0.0.1/cb"
    × ((c : Client) × (clients "cli" ≡ some c) × (c.redirect_uris ≢ []))
unfolding program
validate-parse_client_registry_example =
    validate-parse_client_registry parse_url false "cli:http://127.0.0.1/cb, tv:" "" "cli"
      "http://127.0.0.1/cb" parsed refl refl

authorize_sound_example :
    (validate parse_url clients "cli" "http://127.0.0.1/cb" ≡ valid)
    × (IsCodeFlow authorizer at_start input
        × IsBegun authorizer at_start input [] pending "https://accounts.example/" binding_cookie)
authorize_sound_example = authorize_sound authorizer at_start input [] pending begun

-- a client that is not registered
abbrev stranger : AuthorizeInput
stranger = record input { client_id = "evil" }

handle_sound_example : IsLogin callback coming_back waiting signed_in answered
handle_sound_example = handle_sound callback coming_back waiting signed_in completes

found_google : {conn : Connector} → some google ≡ some conn → google ≡ conn
found_google e = cc

presents : {conn : Connector} → some google ≡ some conn → query conn.state_param ≡ "s1"
presents e = subst (λ k. query k.state_param ≡ "s1") (found_google e) refl

-- another browser, which has no cookie for the state
abbrev forged : CallbackRequest
forged = record coming_back { cookie = "none" }

handle-forged_example : IsRefusal waiting (handle callback forged waiting)
unfolding program
handle-forged_example = handle-forged callback forged waiting (λ conn e.
    subst (λ k. bound_to_browser binding "none" k.id (query k.state_param) ≡ false) (found_google e)
      refl)

abbrev person : Completion
person = record {
  identity = record { subject = "u1"; email = "u@example.com"; email_verified = true };
  refusal = "";
}

-- a text that differs from the empty one
is_named : (x : String) → (x == "") ≡ false → x ≢ ""
is_named x h e = cc (h, (eq_iff x "").1 e)

admitted : IsAdmitted callback coming_back person.identity
unfolding program
admitted = (refl, refl, ("default:read" ∷ [], refl))

authorize-handle_example :
    ((handle callback coming_back waiting).0.codes ≡ signed_in.codes)
    × ((handle callback coming_back waiting).1
        ≡ redirected "http://127.0.0.1/cb?" (clear_cookie binding "google" "s1"))
    × ((handle callback coming_back waiting).2 ≡ success)
unfolding program
authorize-handle_example =
    authorize-handle authorizer at_start input callback coming_back [] waiting "s1" person begun
      refl (is_named "s1" refl) refl refl refl refl (omega arith) answers refl (is_named "u1" refl)
      admitted refl refl refl refl

abbrev server : Server
server = record {
  hash = same;
  sha256 = same;
  s256 = same;
  clients = clients;
  connector_configured = λ id. true;
  domain_allowed = λ email. true;
  resolve = λ email. grant ("default:read" ∷ []);
  token_subject = λ connector subject. subject;
  mint = λ m. some (m.subject, "j1");
  mint_id_token = λ m. some m.nonce;
  access_ttl = 3_000_000_000;
  refresh_ttl = 100;
  refresh_max_lifetime = 1000;
}

abbrev at_twelve : Request
at_twelve = record {
  now = 12;
  now_auth = 13;
  now_issue = 14;
  random_family = some "f1";
  random_family_issue = some "f2";
  random_refresh = some "r1";
  consume_db = up;
  revoke_db = up;
  save_db = up;
  lookup_db = up;
  poll_db = up;
}

abbrev form : Form
form key =
    if key == "client_id"
    then "cli"
    else if key == "redirect_uri"
    then "http://127.0.0.1/cb"
    else if key == "code"
    then "c9"
    else if key == "code_verifier"
    then challenge
    else ""

token_program : Unit {0}
unfolding program allows authenticate save_refresh consume_auth_code valid_code_verifier
    authenticate_client revoke_family check_pkce redeem_answer consume_code check_redemption
    redeem_authorization_code permitted start_lineage expiry persist issue client_credentials
    authorization_code_grant
token_program = tt

abbrev code_tables : Tables
code_tables = record { codes = signed_in.codes; refresh = []; devices = [] }

abbrev token_tables : Tables
unfolding token_program
token_tables = (authorization_code_grant server at_twelve form none code_tables).0

abbrev response : TokenResponse
response = record { access_token = "u1"; expires_in = 3; refresh_token = "r1"; id_token = "n1" }
