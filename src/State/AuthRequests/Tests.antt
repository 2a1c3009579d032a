-- ===== src/State/AuthRequests/Tests.antt =====
-- The auth_requests table on concrete rows.
use tempogate.Common.{◌≡◌, refl, [], ◌∷◌, any}
use tempogate.Oidc.Model.{AuthRequest}
use tempogate.State.Driver.{IsUp, up}
use tempogate.State.AuthRequests.{saved, save_auth_request}

abbrev answers : IsUp up
answers n = refl

abbrev pending : AuthRequest
pending = record {
  internal_state = "s1";
  connector_id = "google";
  client_id = "cli";
  redirect_uri = "http://127.0.0.1/cb";
  scope = "openid";
  client_state = "x";
  code_challenge = "ch";
  code_challenge_method = "S256";
  nonce = "n1";
  created_at = 10;
  expires_at = 70;
}

stored : save_auth_request up pending [] ≡ (pending ∷ [], saved)
unfolding save_auth_request any
stored = refl
