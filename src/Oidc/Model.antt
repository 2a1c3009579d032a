-- ===== src/Oidc/Model.antt =====
-- The rows that the authorization server keeps, as the handlers see them: oidc/authcode.go,
-- oidc/token.go, oidc/devicecode.go, oidc/authrequest.go and oidc/browsersession.go.
-- A time.Time is a count of nanoseconds; a *time.Time is an Option of one.
use tempogate.Common.{ℕ, String, Option}

pub record Identity : Type 0 where
  pub connector_id : String
  pub subject : String
  pub email : String

pub record AuthCode : Type 0 where
  pub code : String
  pub client_id : String
  pub redirect_uri : String
  pub connector_id : String
  pub subject : String
  pub email : String
  pub scope : String
  pub code_challenge : String
  pub code_challenge_method : String
  pub nonce : String
  pub family_id : String
  pub created_at : ℕ
  pub expires_at : ℕ

pub record Refresh : Type 0 where
  pub token : String
  pub jti : String
  pub client_id : String
  pub connector_id : String
  pub subject : String
  pub email : String
  pub family_id : String
  pub auth_time : ℕ
  pub created_at : ℕ
  pub expires_at : ℕ

pub record DeviceCode : Type 0 where
  pub code : String
  pub user_code : String
  pub client_id : String
  pub scope : String
  pub connector_id : String
  pub subject : String
  pub email : String
  pub approved_at : Option ℕ
  pub denied_at : Option ℕ
  pub last_polled_at : Option ℕ
  pub interval_seconds : ℕ
  pub created_at : ℕ
  pub expires_at : ℕ

pub record AuthRequest : Type 0 where
  pub internal_state : String
  pub connector_id : String
  pub client_id : String
  pub redirect_uri : String
  pub scope : String
  pub client_state : String
  pub code_challenge : String
  pub code_challenge_method : String
  pub nonce : String
  pub created_at : ℕ
  pub expires_at : ℕ

pub record BrowserSession : Type 0 where
  pub sid : String
  pub connector_id : String
  pub subject : String
  pub email : String
  pub created_at : ℕ
  pub expires_at : ℕ
