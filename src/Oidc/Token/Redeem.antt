-- ===== src/Oidc/Token/Redeem.antt =====
-- Redemption of authorization codes: what a success has checked, what a refused request leaves
-- alone, and what a replay brings about.
use tempogate.Common.{
  ℕ, ◌≤◌, String, ◌≡◌, ◌≢◌, refl, ap, ◌∙◌, true, false, ◌⊎◌, some, arith, ◌==◌, eq_iff, ltb,
}
use tempogate.Oidc.Model.{AuthCode}
use tempogate.Oidc.Reply.{
  Tables, Failure, ok, err, oauth_error, bad_request, continue, pure, continue_ok, ok_injective,
}
use tempogate.Oidc.Client.{Client, authorization_code}
use tempogate.State.Driver.{IsUp}
use tempogate.State.AuthCodes.{RedeemResult, redeemed, reused, not_found, consume_auth_code}
use tempogate.Oidc.Token.Revoke.{Ended, revoke_family-Ended}
use tempogate.Oidc.Token.{
  Server, Request, RedemptionRequest, Redemption, valid_code_verifier, authenticate_client,
  check_redemption, check_pkce, revoke_family, redeem_answer, consume_code,
  redeem_authorization_code,
}

not-ltb : {a b : ℕ} → ltb a b ≡ false → b ≤ a
not-ltb e = ground (arith)

module _ (s : Server) (q : Request) (rr : RedemptionRequest) where
  -- What the PKCE switch lets through.
  abbrev pub IsBound : Client → AuthCode → Type 0
  IsBound c ac =
      ((ac.code_challenge ≢ "")
        × (rr.code_verifier ≢ "")
        × (s.s256 rr.code_verifier ≡ ac.code_challenge))
      ⊎ ((ac.code_challenge ≡ "") × (c.secret ≢ ""))

  check_pkce-IsBound :
      (c : Client) (ac : AuthCode) (t t' : Tables)
      → check_pkce s q c rr.code_verifier ac.code_challenge t ≡ (t', ok tt)
      → IsBound c ac × (t ≡ t')
  unfolding check_pkce
  check_pkce-IsBound c ac t t' e = ground (
    arith,
    eq_iff ac.code_challenge "",
    eq_iff rr.code_verifier "",
    eq_iff c.secret "",
    eq_iff (s.s256 rr.code_verifier) ac.code_challenge,
  )

  abbrev pub redemption_of : AuthCode → String → Redemption
  redemption_of ac family_id = record {
    identity = record { connector_id = ac.connector_id; subject = ac.subject; email = ac.email };
    client_id = ac.client_id;
    nonce = ac.nonce;
    family_id = family_id;
  }

  -- The checks of a code that the store handed out, and what is left behind them.
  answer-checked :
      (c : Client) (family_id : String) (ac : AuthCode) (t t' : Tables) {r : Redemption}
      → redeem_answer s q rr c family_id (redeemed ac) t ≡ (t', ok r)
      → (ltb ac.expires_at q.now ≡ false)
        × ((ac.subject == "") ≡ false)
        × ((rr.client_id == ac.client_id) ≡ true)
        × ((rr.redirect_uri == ac.redirect_uri) ≡ true)
        × (continue
              (check_pkce s q c rr.code_verifier ac.code_challenge t)
              (λ _. pure (ok (redemption_of ac family_id)))
            ≡ (t', ok r))
  unfolding redeem_answer
  answer-checked c family_id ac t t' e = ground (arith)

  pub answer-redeemed :
      (c : Client) (family_id : String) (o : RedeemResult) (t t' : Tables) {r : Redemption}
      → redeem_answer s q rr c family_id o t ≡ (t', ok r)
      → (ac : AuthCode) × (o ≡ redeemed ac)
        × (q.now ≤ ac.expires_at)
        × (ac.subject ≢ "")
        × (rr.client_id ≡ ac.client_id)
        × (rr.redirect_uri ≡ ac.redirect_uri)
        × IsBound c ac
        × (redemption_of ac family_id ≡ r)
        × (t ≡ t')
  unfolding redeem_answer
  answer-redeemed c family_id (reused ac) t t' e = ground (arith)
  answer-redeemed c family_id not_found t t' e = cc
  answer-redeemed c family_id RedeemResult.failed t t' e = cc
  answer-redeemed c family_id (redeemed ac) t t' {r} e =
      let (fresh, named, own, same_uri, rest) = answer-checked c family_id ac t t' e in
      let (t1, _, checked, last) =
        continue_ok (check_pkce s q c rr.code_verifier ac.code_challenge t)
          (λ _. pure (ok (redemption_of ac family_id))) rest in
      let (bound, same) = check_pkce-IsBound c ac t t1 checked in
      (
        ac,
        refl,
        not-ltb fresh,
        (λ x. cc (named, (eq_iff ac.subject "").1 x)),
        (eq_iff rr.client_id ac.client_id).0 own,
        (eq_iff rr.redirect_uri ac.redirect_uri).0 same_uri,
        bound,
        ok_injective last,
        same ∙ ap (λ o. o.0) last,
      )

  check_redemption-authenticated :
      (c : Client)
      → check_redemption s q rr ≡ ok c
      → (authenticate_client s rr.client_id rr.client_secret authorization_code ≡ ok c)
        × (rr.code ≢ "")
        × ((rr.code_verifier ≡ "") → c.secret ≢ "")
        × ((rr.code_verifier ≢ "") → valid_code_verifier rr.code_verifier ≡ true)
  unfolding check_redemption
  check_redemption-authenticated c e =
      ground (arith, eq_iff rr.code "", eq_iff rr.code_verifier "", eq_iff c.secret "")

  redeemed_family :
      (t t' : Tables) {r : Redemption}
      → redeem_authorization_code s q rr t ≡ (t', ok r)
      → (c : Client) × (f : String) × (check_redemption s q rr ≡ ok c)
        × (q.random_family ≡ some f)
        × (consume_code s q rr c f t ≡ (t', ok r))
  unfolding redeem_authorization_code
  redeemed_family t t' e = ground (arith)

  -- A request whose checks fail, an unauthenticated one in particular, is answered with that
  -- failure and leaves every table as it was: it neither burns a code nor ends a session.
  pub redeem-refused :
      (t : Tables) {f : Failure}
      → check_redemption s q rr ≡ err f
      → redeem_authorization_code s q rr t ≡ (t, err f)
  unfolding redeem_authorization_code
  redeem-refused t e = rw e

  -- what a redemption that succeeds stands for
  abbrev pub IsRedemption : Tables → Tables → Redemption → Type 0
  IsRedemption t t' r =
      (c : Client) × (ac : AuthCode) × (f : String) × (authenticate_client s rr.client_id
          rr.client_secret authorization_code
        ≡ ok c)
      × (q.random_family ≡ some f)
      × ((consume_auth_code s.hash q.consume_db rr.code f q.now t.codes).1 ≡ redeemed ac)
      × (q.now ≤ ac.expires_at)
      × (ac.subject ≢ "")
      × (rr.client_id ≡ ac.client_id)
      × (rr.redirect_uri ≡ ac.redirect_uri)
      × IsBound c ac
      × (redemption_of ac f ≡ r)
      × (record t { codes = (consume_auth_code s.hash q.consume_db rr.code f q.now t.codes).0 }
          ≡ t')

  -- A successful redemption has authenticated the client for the authorization code grant, the
  -- store handed out the code in the request and recorded the fresh family on it, and the code
  -- had not expired, names a subject, and was issued to this client for this redirect URI. Its
  -- PKCE challenge is met by the verifier, or it has none and the client has a secret. The
  -- result is made of that code, and only the table of codes changes.
  pub redeem_authorization_code_sound :
      (t t' : Tables) {r : Redemption}
      → redeem_authorization_code s q rr t ≡ (t', ok r)
      → IsRedemption t t' r
  unfolding consume_code
  redeem_authorization_code_sound t t' e =
      let (c, f, checked, drawn, consumed) = redeemed_family t t' e in
      let (ac, handed_out, fresh, named, own, same_uri, bound, result, tables) =
        answer-redeemed c f (consume_auth_code s.hash q.consume_db rr.code f q.now t.codes).1
          (record t { codes = (consume_auth_code s.hash q.consume_db rr.code f q.now t.codes).0 })
          t' consumed in
      (
        c,
        ac,
        f,
        (check_redemption-authenticated c checked).0,
        drawn,
        handed_out,
        fresh,
        named,
        own,
        same_uri,
        bound,
        result,
        tables,
      )

  -- the answer to a replay
  abbrev already_redeemed : Failure
  already_redeemed =
      oauth_error bad_request "invalid_grant" "unknown or already-redeemed authorization code"

  replay-revokes :
      (c : Client) (f : String) (ac : AuthCode) (t : Tables)
      → check_redemption s q rr ≡ ok c
      → q.random_family ≡ some f
      → (consume_auth_code s.hash q.consume_db rr.code f q.now t.codes).1 ≡ reused ac
      → ac.family_id ≢ ""
      → redeem_authorization_code s q rr t
        ≡ continue
            (revoke_family s q ac.family_id q.now (record t {
              codes = (consume_auth_code s.hash q.consume_db rr.code f q.now t.codes).0;
            }))
            (λ _. pure (err already_redeemed))
  unfolding redeem_authorization_code consume_code redeem_answer
  replay-revokes c f ac t checked drawn replay named =
      let fresh : (ac.family_id == "") ≡ false = ground (arith, eq_iff ac.family_id "", named) in
      rw (checked, drawn, replay, fresh)

  -- A replay of a code whose recorded family is not empty, by an authenticated client and with a
  -- driver that answers the revocation, never succeeds. When the family has refresh tokens, all of
  -- them are revoked and the answer is invalid_grant. When it has none, because the redemption
  -- that won failed behind the consume or its rows were reaped, the answer is a server error.
  pub redeem_authorization_code-replay :
      (c : Client) (f : String) (ac : AuthCode) (t : Tables)
      → IsUp q.revoke_db
      → check_redemption s q rr ≡ ok c
      → q.random_family ≡ some f
      → (consume_auth_code s.hash q.consume_db rr.code f q.now t.codes).1 ≡ reused ac
      → ac.family_id ≢ ""
      → Ended ac.family_id already_redeemed t (redeem_authorization_code s q rr t)
  redeem_authorization_code-replay c f ac t ready checked drawn replay named =
      rw (replay-revokes c f ac t checked drawn replay named)
        (revoke_family-Ended s q ac.family_id q.now already_redeemed _ ready)
