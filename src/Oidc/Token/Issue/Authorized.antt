-- ===== src/Oidc/Token/Issue/Authorized.antt =====
-- oidc/token.go with authz/authz.go as its PermissionResolver: who gets a token, and with which
-- permissions claim.
use tempogate.Common.{
  String, ◌≡◌, ◌≢◌, refl, sym, ap, ◌∙◌, true, some, List, [], ◌⊎◌, inl, inr, Bool-cases,
}
use tempogate.Perms.{Perms, to_claim}
use tempogate.Authz.{Policy, resolve}
use tempogate.Authz.Resolve.{is_matched, resolve_denied}
use tempogate.Oidc.Model.{Identity}
use tempogate.Oidc.Reply.{Tables, ok}
use tempogate.Oidc.Token.{Server, Request, Lineage, Resolved, grant, TokenResponse}
use tempogate.Oidc.Token.Issue.{issue}
use tempogate.Oidc.Token.Issue.Mint.{issue_sound}

-- A server that asks a policy. Its grants are never nil.
abbrev pub policy_resolver : (String → String) → Policy → String → Resolved
policy_resolver lower p email = grant (to_claim (some (resolve lower p email)))

grant_injective : {a b : List String} → grant a ≡ grant b → a ≡ b
grant_injective e = cc

nothing_claimed : (ps : Perms) → ps ≡ [] → to_claim (some ps) ≡ []
unfolding to_claim
nothing_claimed ps e = rw e refl

-- Deny by default, to the end: when a server that asks a policy issues tokens, a rule matches the
-- person's address or the policy has default permissions; and the access token is signed for the
-- claim that the policy resolves the address to.
pub issue-authorized :
    (lower : String → String) (p : Policy) (s : Server) (q : Request) (id : Identity)
    (client_id nonce : String) (l : Lineage) (t t' : Tables) {r : TokenResponse}
    → s.resolve ≡ policy_resolver lower p
    → issue s q id client_id nonce l t ≡ (t', ok r)
    → ((is_matched lower p id.email ≡ true) ⊎ (p.dflt ≢ []))
      × ((jti : String) × (s.mint (record {
        subject = s.token_subject id.connector_id id.subject;
        email = id.email;
        idp = id.connector_id;
        ttl = s.access_ttl;
        permissions = to_claim (some (resolve lower p id.email));
        client_id = client_id;
      })
            ≡ some (r.access_token, jti)))
issue-authorized lower p s q id client_id nonce l t t' asks e =
    let (claim, _, jti, resolved, some_claim, _, minted, _, _, _, _, _) =
      issue_sound s q id client_id nonce l t t' e in
    let same : to_claim (some (resolve lower p id.email)) ≡ claim =
      grant_injective (ap (λ f. f id.email) (sym asks) ∙ resolved) in
    (
      elim (Bool-cases (is_matched lower p id.email)) [
        | inl hit ↦ inl hit
        | inr miss ↦ inr λ nothing.
            some_claim (sym same ∙ nothing_claimed _ (resolve_denied lower p id.email miss nothing))
      ],
      (jti, rw same minted),
    )
