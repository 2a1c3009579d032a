-- ===== src/Oidc/DeviceAuthorization.antt =====
-- oidc/device_authorization.go: the start of a device sign-in. `draws` are the attempts' draws of
-- the generators, none for an error of theirs, with the driver in each attempt's save; redaction
-- is left out.
pub mod Started
mod Tests
use Prim.Native.String.{len, slice}
use tempogate.Common.{
  ℕ, zero, suc, ◌+◌, ◌/◌, String, Bool, true, false, not, Option, none, some, List, [], ◌∷◌, ◌==◌,
  ◌<>◌, if◌then◌else◌, leb,
}
use tempogate.Oidc.Model.{DeviceCode}
use tempogate.Oidc.Reply.{
  Failure, Result, ok, err, oauth_err, oauth_error, server_error, bad_request, unauthorized,
}
use tempogate.Oidc.Client.{Client, ClientRegistry, device_code, allows}
use tempogate.Oidc.Grants.{Form, ParamCap, check_param_lengths}
use tempogate.State.Driver.{Driver}
use tempogate.State.DeviceCodes.{
  DeviceCodeRow, SaveDeviceResult, saved, duplicate, save_device_code,
}

pub record Draw : Type 0 where
  pub random_device_code : Option String
  pub random_user_code : Option String
  pub save_db : Driver

-- `query_escape` is that of net/url.
pub record DeviceAuthorization : Type 0 where
  pub hash : String → String
  pub clients : ClientRegistry
  pub issuer : String
  pub query_escape : String → String

-- deviceAuthorizationBody, ExpiresIn in seconds
pub record DeviceAuthorizationBody : Type 0 where
  pub device_code : String
  pub user_code : String
  pub verification_uri : String
  pub verification_uri_complete : String
  pub expires_in : ℕ
  pub interval : ℕ

-- deviceCodeTTL, 15 * time.Minute
abbrev pub device_code_ttl : ℕ
device_code_ttl = 900_000_000_000

-- defaultPollInterval
abbrev pub default_poll_interval : ℕ
default_poll_interval = 5

-- formatUserCode
unfoldable pub format_user_code : String → String
format_user_code canonical =
    if leb (len canonical) 4
    then canonical
    else slice canonical 0 4 <> ("-" <> slice canonical 4 (len canonical))

abbrev device_caps : Form → List ParamCap
device_caps form =
    record { value = form "client_id"; max = 256; excess = "client_id exceeds 256 bytes" }
    ∷ record { value = form "scope"; max = 1024; excess = "scope exceeds 1024 bytes" }
    ∷ []

abbrev pub Minted : Type 0
Minted = List DeviceCodeRow × Result DeviceCode

module _ (h : DeviceAuthorization) (now : ℕ) (client_id scope : String) where
  abbrev pub code_of : String → String → DeviceCode
  code_of code user_code = record {
    code = code;
    user_code = user_code;
    client_id = client_id;
    scope = scope;
    connector_id = "";
    subject = "";
    email = "";
    approved_at = none;
    denied_at = none;
    last_polled_at = none;
    interval_seconds = default_poll_interval;
    created_at = now;
    expires_at = now + device_code_ttl;
  }

  -- A duplicate goes on to the next attempt.
  abbrev pub after_save :
      DeviceCode → (List DeviceCodeRow → Minted) → List DeviceCodeRow × SaveDeviceResult → Minted
  after_save dc next (rows, saved) = (rows, ok dc)
  after_save dc next (rows, duplicate) = next rows
  after_save dc next (rows, SaveDeviceResult.failed) = (rows, err server_error)

  abbrev pub attempt :
      Driver
      → List DeviceCodeRow
      → (List DeviceCodeRow → Minted)
      → Option String
      → Option String
      → Minted
  attempt db rows next none user_code = (rows, err server_error)
  attempt db rows next (some code) none = (rows, err server_error)
  attempt db rows next (some code) (some user_code) =
      after_save (code_of code user_code) next
        (save_device_code h.hash db (code_of code user_code) rows)

  -- The loop of mint, with the attempts that are left.
  unfoldable pub mint_attempts : ℕ → (ℕ → Draw) → ℕ → List DeviceCodeRow → Minted
  mint_attempts zero draws k rows = (rows, err server_error)
  mint_attempts (suc left) draws k rows =
      attempt (draws k).save_db rows (mint_attempts left draws (suc k)) (draws k).random_device_code
        (draws k).random_user_code

  -- mint: userCodeMaxRetries attempts
  abbrev pub mint : (ℕ → Draw) → List DeviceCodeRow → Minted
  mint draws rows = mint_attempts 3 draws 0 rows

module _ (h : DeviceAuthorization) (now : ℕ) where
  abbrev pub body_of : DeviceCode → DeviceAuthorizationBody
  body_of dc = record {
    device_code = dc.code;
    user_code = format_user_code dc.user_code;
    verification_uri = h.issuer <> "/device";
    verification_uri_complete =
        h.issuer <> ("/device?user_code=" <> h.query_escape (format_user_code dc.user_code));
    expires_in = device_code_ttl / 1_000_000_000;
    interval = default_poll_interval;
  }

  abbrev pub respond : Minted → List DeviceCodeRow × Result DeviceAuthorizationBody
  respond (rows, ok dc) = (rows, ok (body_of dc))
  respond (rows, err e) = (rows, err e)

  -- Unknown and confidential clients get the same answer.
  abbrev pub for_client :
      Form
      → (ℕ → Draw)
      → List DeviceCodeRow
      → Option Client
      → List DeviceCodeRow × Result DeviceAuthorizationBody
  for_client form draws rows none =
      (rows, oauth_err unauthorized "invalid_client" "client_id is not a registered public client")
  for_client form draws rows (some c) =
      if not (c.secret == "")
      then (
        rows,
        oauth_err unauthorized "invalid_client" "client_id is not a registered public client",
      )
      else if not (allows c device_code)
      then (
        rows,
        oauth_err bad_request "unauthorized_client"
            "client_id is not registered for the device authorization grant",
      )
      else respond (mint h now (form "client_id") (form "scope") draws rows)

  abbrev pub sized :
      Form
      → (ℕ → Draw)
      → List DeviceCodeRow
      → Result (Unit {0})
      → List DeviceCodeRow × Result DeviceAuthorizationBody
  sized form draws rows (err e) = (rows, err e)
  sized form draws rows (ok tt) =
      if form "client_id" == ""
      then (rows, oauth_err bad_request "invalid_request" "client_id is required")
      else for_client form draws rows (h.clients (form "client_id"))

  -- handle, for the body's form; none is a body that does not parse.
  unfoldable pub authorize_device :
      Option Form
      → (ℕ → Draw)
      → List DeviceCodeRow
      → List DeviceCodeRow × Result DeviceAuthorizationBody
  authorize_device none draws rows =
      (rows, oauth_err bad_request "invalid_request" "malformed form body")
  authorize_device (some form) draws rows =
      sized form draws rows (check_param_lengths (device_caps form))
