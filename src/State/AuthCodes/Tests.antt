-- ===== src/State/AuthCodes/Tests.antt =====
-- The auth_codes table on concrete rows. The hash is the identity here.
use tempogate.Common.{String, ◌≡◌, refl, ◌≤◌, some, List, [], ◌∷◌, first, any, update}
use tempogate.Oidc.Model.{AuthCode}
use tempogate.State.Driver.{Driver, IsUp, up}
use tempogate.State.AuthCodes.{
  AuthCodeRow, redeemed, not_found, duplicate, row_of, save_auth_code, consume_auth_code,
}
use tempogate.State.AuthCodes.Single
use tempogate.State.AuthCodes.Single.{
  CodeCall, save, redeem, OneRowPerHash, run, step, times_redeemed,
}

abbrev same : String → String
same s = s

abbrev answers : IsUp up
answers n = refl

abbrev minted : AuthCode
minted = record {
  code = "c1";
  client_id = "cli";
  redirect_uri = "http://127.0.0.1/cb";
  connector_id = "google";
  subject = "u1";
  email = "u@example.com";
  scope = "openid";
  code_challenge = "ch";
  code_challenge_method = "S256";
  nonce = "n1";
  family_id = "";
  created_at = 10;
  expires_at = 70;
}

abbrev one_row : List AuthCodeRow
one_row = row_of same minted ∷ []

abbrev spent_row : List AuthCodeRow
spent_row = record (row_of same minted) { family_id = "f1"; consumed_at = some 20 } ∷ []

-- Two redemptions race, one under a driver that fails, and the code is offered once more.
abbrev calls : List (Driver × CodeCall)
calls = (up, redeem "c1" "f1" 20) ∷ (up, redeem "c1" "f2" 20) ∷ (up, save minted) ∷ []

program : Unit {0}
unfolding save_auth_code consume_auth_code run step times_redeemed first any update
program = tt

redemption :
    consume_auth_code same up "c1" "f1" 20 one_row
    ≡ (spent_row, redeemed (record minted { family_id = "f1" }))
unfolding program
redemption = refl

stored_twice : save_auth_code same up minted spent_row ≡ (spent_row, duplicate)
unfolding program
stored_twice = refl

forged : consume_auth_code same up "c9" "f1" 20 one_row ≡ (one_row, not_found)
unfolding program
forged = refl

one_row-OneRowPerHash : OneRowPerHash one_row
unfolding any
one_row-OneRowPerHash = (refl, tt)

times_redeemed-le-one_example : times_redeemed same "c1" one_row calls ≤ 1
times_redeemed-le-one_example =
    Single.times_redeemed-le-one same "c1" one_row calls one_row-OneRowPerHash
