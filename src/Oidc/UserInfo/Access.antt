-- ===== src/Oidc/UserInfo/Access.antt =====
-- The userinfo endpoint: whom it describes, and whom it refuses.
use tempogate.Common.{
  ℕ, String, ◌≡◌, ◌≢◌, ◌⊎◌, refl, sym, ap, ◌∙◌, Bool, true, false, not, ◌||◌, Option, none, some,
  List, ◌==◌, eq_iff, arith, Bool-cases, inl, inr,
}
use tempogate.State.Driver.{Driver}
use tempogate.State.IntegrationKeys.{RevokedResult, known, marked}
use tempogate.State.IntegrationKeys
use tempogate.Keys.Denylist.{DenylistCache, Order, is_revoked}
use tempogate.Keys.Verifier.{
  Token, Verifier, VerifyResult, verified, invalid, not_access_token, token_revoked, check_failed,
  access_token_type, answered, check_token, verify,
}
use tempogate.Keys.Revoked.{Call, run, revoke-IsRevoked}
use tempogate.Admin.{Keyring, revoke}
use tempogate.Oidc.UserInfo.{
  UserInfoBody, UserInfoResult, described, unauthorized, bearer_token, body_of, describe,
  handle_bearer, handle,
}

verified_injective : {s t : Token} → verified s ≡ verified t → s ≡ t
verified_injective e = cc e

some_injective : {A : Type 0} {a b : A} → some a ≡ some b → a ≡ b
some_injective e = cc e

never_active : {r : RevokedResult} → (r ≡ known true) ⊎ (r ≡ RevokedResult.failed) → r ≢ known false
never_active (inl denied) active = cc (denied, active)
never_active (inr broken) active = cc (broken, active)

module _ (equal_fold : String → String → Bool) (v : Verifier) (order : Order) (now later : ℕ)
    (checker : String → RevokedResult) where
  describe_described :
      (p : DenylistCache × VerifyResult) {c : DenylistCache} {body : UserInfoBody}
      → describe p ≡ (c, described body)
      → (tok : Token) × (p ≡ (c, verified tok))
        × ((tok.subject == "") ≡ false)
        × (body ≡ body_of tok)
  describe_described (d, verified tok) {c} {body} e = elim (Bool-cases (tok.subject == "")) [
    | inl empty ↦ cc (rw empty at e)
    | inr named ↦
        let e1 : (d, described (body_of tok)) ≡ (c, described body) = rw named at e in
        let same : described (body_of tok) ≡ described body = ap (λ x. x.1) e1 in
        let shown : body ≡ body_of tok = cc same in
        (tok, ap (λ x. (x.0, verified tok)) e1, named, shown)
  ]
  describe_described (c, invalid) e = cc
  describe_described (c, not_access_token) e = cc
  describe_described (c, token_revoked) e = cc
  describe_described (c, check_failed) e = cc

  answered-verified :
      (tok : Token) (p : DenylistCache × RevokedResult) {c : DenylistCache} {tok' : Token}
      → answered tok p ≡ (c, verified tok')
      → (tok ≡ tok') × (p.1 ≡ known false)
  answered-verified tok (c, known true) e = cc
  answered-verified tok (c, known false) e = ground arith
  answered-verified tok (c, RevokedResult.failed) e = cc

  -- what a token that verifies is
  abbrev pub IsVerified : Token → DenylistCache → Type 0
  IsVerified tok c =
      (tok.typ ≡ access_token_type)
      × (((v.has_denylist ≡ false) ⊎ (tok.jti ≡ ""))
          ⊎ ((is_revoked order now later tok.jti (checker tok.jti) c).1 ≡ known false))

  skips :
      (t : Token)
      → (not v.has_denylist || (t.jti == "")) ≡ true
      → (v.has_denylist ≡ false) ⊎ (t.jti ≡ "")
  skips t e = elim (Bool-cases v.has_denylist) [
    | inr absent ↦ inl absent
    | inl there ↦ inr ((eq_iff t.jti "").0 (rw there at e))
  ]

  check_token-verified :
      (o : Option Token) (c : DenylistCache) {c' : DenylistCache} {tok : Token}
      → check_token v order now later checker o c ≡ (c', verified tok)
      → (o ≡ some tok) × IsVerified tok c
  check_token-verified none c e = cc
  check_token-verified (some t) c {c'} {tok} e = elim (Bool-cases (t.typ == access_token_type)) [
    | inr other ↦ cc (rw other at e)
    | inl typed ↦ elim (Bool-cases (not v.has_denylist || (t.jti == ""))) [
      | inl skipped ↦
          let e1 : (c, verified t) ≡ (c', verified tok) = rw (typed, skipped) at e in
          let same : t ≡ tok = verified_injective (ap (λ x. x.1) e1) in
          rw (sym same) (refl, ((eq_iff t.typ access_token_type).0 typed, inl (skips t skipped)))
      | inr asked ↦
          let (same, active) =
            answered-verified t (is_revoked order now later t.jti (checker t.jti) c)
              (rw (typed, asked) at e) in
          rw (sym same) (refl, ((eq_iff t.typ access_token_type).0 typed, inr active))
    ]
  ]

  handle_bearer_described :
      (o : Option String) (c : DenylistCache) {c' : DenylistCache} {body : UserInfoBody}
      → handle_bearer equal_fold v order now later checker o c ≡ (c', described body)
      → (raw : String) × (o ≡ some raw)
        × (describe (verify v order now later checker raw c) ≡ (c', described body))
  handle_bearer_described none c e = cc
  handle_bearer_described (some raw) c e = (raw, refl, e)

  -- Who is described has sent a bearer token that parses, that is an access token with a subject,
  -- and, where there is a denylist and the token has a jti, one that the cached check calls
  -- active; the description is made of that token's claims.
  pub handle_described :
      (authorization : String) (c : DenylistCache) {c' : DenylistCache} {body : UserInfoBody}
      → handle equal_fold v order now later checker authorization c ≡ (c', described body)
      → (raw : String) × (tok : Token) × (bearer_token equal_fold authorization ≡ some raw)
        × (v.parse raw ≡ some tok)
        × IsVerified tok c
        × ((tok.subject == "") ≡ false)
        × (body ≡ body_of tok)
  unfolding handle verify
  handle_described authorization c e =
      let (raw, sent, e1) = handle_bearer_described (bearer_token equal_fold authorization) c e in
      let (tok, passed, named, same) =
        describe_described (verify v order now later checker raw c) e1 in
      let (parsed, good) = check_token-verified (v.parse raw) c passed in
      (raw, tok, sent, parsed, good, named, same)

-- After the revocation of a key, and whatever cached checks and revocations come in between, one
-- after the other, the endpoint refuses every bearer token that parses to the key's jti, where the
-- verifier has a denylist: it answers 401, whatever the driver and the clock do.
pub handle-revoked :
    (equal_fold : String → String → Bool) (v : Verifier) (db db' : Driver) (order order' : Order)
    (at now now' later : ℕ) (id j authorization : String) (k : Keyring) (cs : List Call)
    {k' : Keyring} {raw : String} {tok : Token}
    → v.has_denylist ≡ true
    → bearer_token equal_fold authorization ≡ some raw
    → v.parse raw ≡ some tok
    → tok.jti ≡ j
    → (j == "") ≡ false
    → revoke db order at now id k ≡ (k', marked j)
    → (msg : String) × ((handle equal_fold v order' now' later
          (λ i. IntegrationKeys.is_revoked db' i (run k' cs).tables)
          authorization
          (run k' cs).cache).1
        ≡ unauthorized msg)
handle-revoked equal_fold v db db' order order' at now now' later id j authorization k cs {k'} {raw}
      {tok} on sent parsed named full e =
    refused
      (handle equal_fold v order' now' later
        (λ i. IntegrationKeys.is_revoked db' i (run k' cs).tables) authorization (run k' cs).cache)
      refl
  where
    refused :
        (p : DenylistCache × UserInfoResult)
        → handle equal_fold v order' now' later
            (λ i. IntegrationKeys.is_revoked db' i (run k' cs).tables)
            authorization
            (run k' cs).cache
          ≡ p
        → (msg : String) × (p.1 ≡ unauthorized msg)
    refused (c, unauthorized msg) same = (msg, refl)
    refused (c, described body) same =
        let (raw2, tok2, sent2, parsed2, (_, good), _, _) =
          handle_described equal_fold v order' now' later
            (λ i. IntegrationKeys.is_revoked db' i (run k' cs).tables) authorization
            (run k' cs).cache same in
        let one_raw : raw2 ≡ raw = some_injective (sym sent2 ∙ sent) in
        let one_token : tok2 ≡ tok = some_injective (sym parsed2 ∙ (ap v.parse one_raw ∙ parsed)) in
        let one_jti : tok2.jti ≡ j = ap (λ t. t.jti) one_token ∙ named in
        elim good [
          | inl (inl off) ↦ cc (on, off)
          | inl (inr empty) ↦ cc (full, (eq_iff j "").1 (sym one_jti ∙ empty))
          | inr active ↦
              elim (never_active
                (revoke-IsRevoked j db db' order order' at now now' later id k cs full e)
                (rw one_jti at active)) [ ]
        ]
