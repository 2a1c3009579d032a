-- ===== src/Oidc/DeviceAuthorization/Tests.antt =====
-- The start of a device sign-in on a concrete table. The hash is the identity here.
use tempogate.Common.{
  ℕ, zero, suc, String, ◌≡◌, refl, none, some, List, [], ◌∷◌, ◌==◌, if◌then◌else◌, any,
}
use tempogate.Oidc.Model.{DeviceCode}
use tempogate.Oidc.Reply.{ok}
use tempogate.Oidc.Client.{Client, device_code, refresh_token, allows}
use tempogate.Oidc.Grants.{Form, check_param_lengths}
use tempogate.State.Driver.{IsUp, up}
use tempogate.State.DeviceCodes.{
  DeviceCodeRow, found, save_device_code, lookup_device_code_by_device_code,
  lookup_device_code_by_user_code,
}
use tempogate.Oidc.DeviceAuthorization.{
  Draw, DeviceAuthorization, DeviceAuthorizationBody, format_user_code, mint_attempts, body_of,
  authorize_device,
}
use tempogate.Oidc.DeviceAuthorization.Started.{IsStarted, authorize_device_sound}

answers : IsUp up
answers n = refl

abbrev same : String → String
same s = s

program : Unit {0}
unfolding any allows check_param_lengths save_device_code format_user_code mint_attempts
    authorize_device
program = tt

abbrev tv : Client
tv = record { redirect_uris = []; grant_types = device_code ∷ refresh_token ∷ []; secret = "" }

abbrev endpoint : DeviceAuthorization
endpoint = record {
  hash = same;
  clients = λ id. if id == "tv" then some tv else none;
  issuer = "https://id.example";
  query_escape = same;
}

abbrev form : Form
form key = if key == "client_id" then "tv" else if key == "scope" then "openid" else ""

-- The first draw repeats the user code of a row, the second is new.
abbrev draws : ℕ → Draw
draws zero = record {
  random_device_code = some "d1";
  random_user_code = some "BCDFGHJK";
  save_db = up;
}
draws (suc k) = record {
  random_device_code = some "d2";
  random_user_code = some "LMNPQRST";
  save_db = up;
}

abbrev taken : DeviceCodeRow
taken = record {
  device_code_hash = "d0";
  user_code = "BCDFGHJK";
  client_id = "tv";
  scope = "openid";
  connector_id = none;
  subject = none;
  email = none;
  approved_at = none;
  denied_at = none;
  last_polled_at = none;
  interval_seconds = 5;
  created_at = 0;
  expires_at = 900_000_000_000;
}

abbrev after : List DeviceCodeRow
unfolding program
after = (authorize_device endpoint 7 (some form) draws (taken ∷ [])).0

abbrev body : DeviceAuthorizationBody
body = record {
  device_code = "d2";
  user_code = "LMNP-QRST";
  verification_uri = "https://id.example/device";
  verification_uri_complete = "https://id.example/device?user_code=LMNP-QRST";
  expires_in = 900;
  interval = 5;
}

started : authorize_device endpoint 7 (some form) draws (taken ∷ []) ≡ (after, ok body)
unfolding program
started = refl

authorize_device_sound_example :
    (f : Form) × (some form ≡ some f)
    × IsStarted endpoint 7 f draws (taken ∷ []) after body
    × ((dc : DeviceCode) × (body ≡ body_of endpoint 7 dc)
        × (lookup_device_code_by_device_code same up dc.code after ≡ found dc)
        × (lookup_device_code_by_user_code up dc.user_code after ≡ found (record dc { code = "" })))
authorize_device_sound_example =
    authorize_device_sound endpoint 7 up (some form) draws (taken ∷ []) answers started
