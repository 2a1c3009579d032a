-- ===== src/Oidc/Token/Issue.antt =====
-- oidc/token.go, issue: the one place where tokens are minted and the refresh token is stored.
pub mod Mint
pub mod Authorized
use tempogate.Common.{
  ℕ, ◌+◌, ◌/◌, ◌≤◌, String, ◌≡◌, ◌≢◌, refl, Bool, true, false, Option, none, some, List, [], ◌∷◌,
  arith, ◌==◌, if◌then◌else◌, ltb,
}
use tempogate.Oidc.Model.{Refresh, Identity}
use tempogate.Oidc.Reply.{
  Tables, Failure, Result, ok, err, oauth_err, oauth_error, no_permissions, server_error,
  bad_request, Handler, pure, ◌>>=◌, ◌>>◌, continue,
}
use tempogate.State.Refresh.{SaveResult, saved, duplicate, family_revoked, save_refresh}
use tempogate.Oidc.Token.{
  Server, Request, Resolved, resolve_error, nil_grant, grant, MintRequest, IdTokenRequest,
  id_token_ttl, Lineage, TokenResponse,
}

-- permitted: the claim of a grant that is not empty.
unfoldable pub permitted : Resolved → Result (List String)
permitted resolve_error = err server_error
permitted nil_grant = err no_permissions
permitted (grant []) = err no_permissions
permitted (grant (p ∷ ps)) = ok (p ∷ ps)

or_fail : {A : Type 0} → Option A → Result A
or_fail none = err server_error
or_fail (some a) = ok a

save_answer : SaveResult → Result (Unit {0})
save_answer saved = ok tt
save_answer family_revoked = oauth_err bad_request "invalid_grant" "the session has been revoked"
save_answer duplicate = err server_error
save_answer SaveResult.failed = err server_error

-- Rotation renews the idle window but never past the session's absolute end.
unfoldable pub expiry : ℕ → ℕ → ℕ → ℕ → ℕ
expiry now auth_time refresh_ttl max_lifetime =
    if ltb (auth_time + max_lifetime) (now + refresh_ttl)
    then auth_time + max_lifetime
    else now + refresh_ttl

module _ (s : Server) (q : Request) where
  -- The lineage of a new sign-in is drawn here.
  unfoldable pub start_lineage : Lineage → Result Lineage
  start_lineage l =
      if l.family_id == ""
      then elim q.random_family_issue [
        | none ↦ err server_error
        | some f ↦ ok (record { family_id = f; auth_time = q.now_issue })
      ]
      else ok l

  abbrev pub refresh_of : Identity → String → Lineage → String → String → Refresh
  refresh_of id client_id l jti token = record {
    token = token;
    jti = jti;
    client_id = client_id;
    connector_id = id.connector_id;
    subject = id.subject;
    email = id.email;
    family_id = l.family_id;
    auth_time = l.auth_time;
    created_at = q.now_issue;
    expires_at = expiry q.now_issue l.auth_time s.refresh_ttl s.refresh_max_lifetime;
  }

  -- SaveRefresh, as issue calls it.
  unfoldable pub persist : Refresh → Handler (Unit {0})
  unfolding save_answer
  persist r t =
      let (rows, o) = save_refresh s.hash q.save_db r t.refresh in
      (record t { refresh = rows }, save_answer o)

  unfoldable pub issue : Identity → String → String → Lineage → Handler TokenResponse
  unfolding permitted or_fail start_lineage persist
  issue id client_id nonce l = do
    claim ← pure (permitted (s.resolve id.email))
    l' ← pure (start_lineage l)
    let sub = s.token_subject id.connector_id id.subject
    (signed, jti) ← pure (
        or_fail (
          s.mint (record {
            subject = sub;
            email = id.email;
            idp = id.connector_id;
            ttl = s.access_ttl;
            permissions = claim;
            client_id = client_id;
          })))
    id_token ← pure (
        or_fail (
          s.mint_id_token (record {
            subject = sub;
            email = id.email;
            idp = id.connector_id;
            audience = client_id;
            nonce = nonce;
            auth_time = l'.auth_time;
            ttl = id_token_ttl;
          })))
    token ← pure (or_fail q.random_refresh)
    persist (refresh_of id client_id l' jti token)
    pure (
        ok (record {
          access_token = signed;
          expires_in = s.access_ttl / 1_000_000_000;
          refresh_token = token;
          id_token = id_token;
        }))
