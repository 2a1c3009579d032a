-- ===== src/State/AuthCodes.antt =====
-- state/sqlite/authcode.go: the auth_codes table. `hash` stands for the SHA-256 of
-- state/internal/secret.
pub mod Single
mod Tests
use tempogate.Common.{
  ℕ, String, Bool, ◌&&◌, Option, none, some, List, ◌∷◌, ◌==◌, if◌then◌else◌, is_some, is_none,
  first, any, update,
}
use tempogate.Oidc.Model.{AuthCode}
use tempogate.State.Driver.{Driver}

pub record AuthCodeRow : Type 0 where
  pub code_hash : String
  pub client_id : String
  pub redirect_uri : String
  pub connector_id : String
  pub subject : String
  pub email : String
  pub scope : String
  pub code_challenge : String
  pub code_challenge_method : String
  pub nonce : String
  pub family_id : String
  pub created_at : ℕ
  pub expires_at : ℕ
  pub consumed_at : Option ℕ

pub data SaveCodeResult : Type 0 where
  saved duplicate failed : SaveCodeResult

pub data RedeemResult : Type 0 where
  redeemed reused : AuthCode → RedeemResult
  not_found failed : RedeemResult

-- The scan behind the UPDATE … RETURNING of ConsumeAuthCode: every column.
abbrev pub scan_code : String → AuthCodeRow → AuthCode
scan_code code r = record {
  code = code;
  client_id = r.client_id;
  redirect_uri = r.redirect_uri;
  connector_id = r.connector_id;
  subject = r.subject;
  email = r.email;
  scope = r.scope;
  code_challenge = r.code_challenge;
  code_challenge_method = r.code_challenge_method;
  nonce = r.nonce;
  family_id = r.family_id;
  created_at = r.created_at;
  expires_at = r.expires_at;
}

-- The scan of a consumed code: the SELECT leaves out the scope, the challenge and the nonce.
abbrev pub scan_tombstone : String → AuthCodeRow → AuthCode
scan_tombstone code r = record (scan_code code r) {
  scope = "";
  code_challenge = "";
  code_challenge_method = "";
  nonce = "";
}

abbrev pub hash_of : AuthCodeRow → String
hash_of r = r.code_hash

-- The WHERE clauses of the two statements of ConsumeAuthCode.
abbrev pub unconsumed : String → AuthCodeRow → Bool
unconsumed h r = (hash_of r == h) && is_none r.consumed_at

abbrev pub consumed : String → AuthCodeRow → Bool
consumed h r = (hash_of r == h) && is_some r.consumed_at

abbrev pub redeem_row : String → ℕ → AuthCodeRow → AuthCodeRow
redeem_row family_id at r = record r { consumed_at = some at; family_id = family_id }

module _ (hash : String → String) where
  -- The row that SaveAuthCode inserts: the family is the column's default.
  abbrev pub row_of : AuthCode → AuthCodeRow
  row_of ac = record {
    code_hash = hash ac.code;
    client_id = ac.client_id;
    redirect_uri = ac.redirect_uri;
    connector_id = ac.connector_id;
    subject = ac.subject;
    email = ac.email;
    scope = ac.scope;
    code_challenge = ac.code_challenge;
    code_challenge_method = ac.code_challenge_method;
    nonce = ac.nonce;
    family_id = "";
    created_at = ac.created_at;
    expires_at = ac.expires_at;
    consumed_at = none;
  }

  -- SaveAuthCode.
  unfoldable pub save_auth_code :
      Driver → AuthCode → List AuthCodeRow → List AuthCodeRow × SaveCodeResult
  save_auth_code db ac rows =
      if db 0
      then (rows, SaveCodeResult.failed)
      else if any (λ r. hash_of r == hash ac.code) rows
      then (rows, duplicate)
      else (row_of ac ∷ rows, saved)

  -- ConsumeAuthCode. RETURNING reads the row as the statement leaves it.
  unfoldable pub consume_auth_code :
      Driver → String → String → ℕ → List AuthCodeRow → List AuthCodeRow × RedeemResult
  consume_auth_code db code family_id at rows =
      let h = hash code in
      if db 0 then (rows, RedeemResult.failed) else elim (first (unconsumed h) rows) [
        | some r ↦ (
          update (unconsumed h) (redeem_row family_id at) rows,
          redeemed (scan_code code (redeem_row family_id at r)),
        )
        | none ↦ if db 1 then (rows, RedeemResult.failed) else elim (first (consumed h) rows) [
          | some r ↦ (rows, reused (scan_tombstone code r))
          | none ↦ (rows, not_found)
        ]
      ]
