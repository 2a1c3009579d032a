-- ===== src/Oidc/Grants/Code.antt =====
-- oidc/token.go, authorizationCodeGrant: what a code that is answered with tokens has met, and
-- that it is answered so once.
use mathlib.Core.Path.{ap₂}
use tempogate.Common.{◌≤◌, String, ◌≡◌, ◌≢◌, sym, ap, ◌∙◌, Option, some, List, [], ◌⊎◌}
use tempogate.Oidc.Model.{AuthCode, Identity}
use tempogate.Oidc.Client.{Client, authorization_code}
use tempogate.Oidc.Reply.{Tables, ok, continue_ok}
use tempogate.State.Driver.{Driver, IsUp}
use tempogate.State.AuthCodes.{redeemed, consume_auth_code}
use tempogate.State.AuthCodes.Single.{CodeCall, OneRowPerHash, run, consume_auth_code-reused}
use tempogate.State.Refresh.{save_refresh, saved}
use tempogate.Oidc.Token.{
  Server, Request, RedemptionRequest, Lineage, TokenResponse, grant, authenticate_client,
  redeem_authorization_code,
}
use tempogate.Oidc.Token.Redeem.{IsBound, redeem_authorization_code_sound}
use tempogate.Oidc.Token.Issue.{issue, refresh_of}
use tempogate.Oidc.Token.Issue.Mint.{issue_sound, start_lineage_kept}
use tempogate.Oidc.Grants.{Form, client_credentials, authorization_code_grant, refused_success}

module _ (s : Server) (q : Request) (form : Form) (basic : Option (String × String)) where
  -- the redemption that the form asks for
  abbrev pub redemption_request : RedemptionRequest
  redemption_request = record {
    code = form "code";
    client_id = (client_credentials form basic).0;
    redirect_uri = form "redirect_uri";
    code_verifier = form "code_verifier";
    client_secret = (client_credentials form basic).1;
  }

  abbrev pub identity_of : AuthCode → Identity
  identity_of ac = record { connector_id = ac.connector_id; subject = ac.subject; email = ac.email }

  -- what a code that is answered with tokens stands for
  abbrev pub IsSignIn : Tables → Tables → TokenResponse → Type 0
  IsSignIn t t' r =
      (c : Client) × (ac : AuthCode) × (f : String) × (claim : List String) × (l : Lineage)
      × (jti : String) × (authenticate_client s redemption_request.client_id
            redemption_request.client_secret authorization_code
          ≡ ok c)
      × (consume_auth_code s.hash q.consume_db (form "code") f q.now t.codes
          ≡ (t'.codes, redeemed ac))
      × (q.random_family ≡ some f)
      × (q.now ≤ ac.expires_at)
      × (ac.subject ≢ "")
      × (redemption_request.client_id ≡ ac.client_id)
      × (form "redirect_uri" ≡ ac.redirect_uri)
      × IsBound s q redemption_request c ac
      × (s.resolve ac.email ≡ grant claim)
      × (claim ≢ [])
      × ((f ≡ "") ⊎ (l ≡ record { family_id = f; auth_time = q.now_auth }))
      × (save_refresh s.hash q.save_db
            (refresh_of s q (identity_of ac) ac.client_id l jti r.refresh_token) t.refresh
          ≡ (t'.refresh, saved))

  -- A code that is answered with tokens was presented by the authenticated client that it was
  -- issued to, for its redirect URI, in time, and bound to it by PKCE or by the client's secret.
  -- The store handed it out and recorded the drawn family, and the refresh token of the response
  -- is stored for the code's person, who has permissions, and, unless the drawn family is empty,
  -- in this family and with the time of this sign-in.
  pub authorization_code_grant_sound :
      (t t' : Tables) {r : TokenResponse}
      → authorization_code_grant s q form basic t ≡ (t', ok r)
      → IsSignIn t t' r
  unfolding authorization_code_grant
  authorization_code_grant_sound t t' {r} e =
      let (t1, r0, redemption, e1) =
        continue_ok (redeem_authorization_code s q redemption_request t) _ e in
      let (c, ac, f, known, drawn, handed_out, fresh, named, own, same_uri, bound, made, tables) =
        redeem_authorization_code_sound s q redemption_request t t1 redemption in
      let issued : issue s q (identity_of ac) ac.client_id ac.nonce
            (record { family_id = f; auth_time = q.now_auth }) t1
          ≡ (t', ok r) =
        ap
          (λ x.
            issue s q x.identity x.client_id x.nonce
              (record { family_id = x.family_id; auth_time = q.now_auth }) t1)
          made
        ∙ refused_success _ _ _ e1 in
      let (claim, l, jti, resolved, some_claim, started, _, _, stored, _, _, changed) =
        issue_sound s q (identity_of ac) ac.client_id ac.nonce _ t1 t' issued in
      (
        c,
        ac,
        f,
        claim,
        l,
        jti,
        known,
        ap₂ (λ a b. (a, b)) (ap (λ u. u.codes) tables ∙ ap (λ u. u.codes) changed) handed_out,
        drawn,
        fresh,
        named,
        own,
        same_uri,
        bound,
        resolved,
        some_claim,
        start_lineage_kept s q _ started,
        ap
              (λ u.
                save_refresh s.hash q.save_db
                  (refresh_of s q (identity_of ac) ac.client_id l jti r.refresh_token) u.refresh)
              tables
            ∙ stored,
      )

-- A code that was answered with tokens is never answered with tokens again: not to any request
-- that presents it later, whatever calls of the store come between, when the table of codes has
-- one row for each hash and the driver answers the later consume.
pub authorization_code_grant-once :
    (s : Server) (q q' : Request) (form form' : Form) (basic basic' : Option (String × String))
    (t t' : Tables) {r r' : TokenResponse} (later later' : Tables) (cs : List (Driver × CodeCall))
    → OneRowPerHash t.codes
    → IsUp q'.consume_db
    → authorization_code_grant s q form basic t ≡ (t', ok r)
    → later.codes ≡ run s.hash t'.codes cs
    → form' "code" ≡ form "code"
    → authorization_code_grant s q' form' basic' later ≢ (later', ok r')
authorization_code_grant-once s q q' form form' basic basic' t t' later later' cs d ready first_time
      between same again =
    let (_, ac, f, _, _, _, _, won, _, _, _, _, _, _, _, _, _, _) =
      authorization_code_grant_sound s q form basic t t' first_time in
    let (_, ac', f', _, _, _, _, won', _, _, _, _, _, _, _, _, _, _) =
      authorization_code_grant_sound s q' form' basic' later later' again in
    let (seen, replay, _, _) =
      consume_auth_code-reused s.hash q.consume_db q'.consume_db (form "code") f f' q.now q'.now
        t.codes cs d ready won in
    let presented_again : consume_auth_code s.hash q'.consume_db (form "code") f' q'.now
          (run s.hash t'.codes cs)
        ≡ (later'.codes, redeemed ac') =
      ap₂ (λ k rows. consume_auth_code s.hash q'.consume_db k f' q'.now rows) (sym same)
        (sym between)
      ∙ won' in
    cc (ap (λ o. o.1) presented_again, ap (λ o. o.1) replay)
