-- ===== src/Oidc/Token/Issue/Mint.antt =====
-- oidc/token.go, issue: what a token response stands for, and what a failure leaves behind.
use mathlib.Core.Path.{ap₂}
use tempogate.Common.{
  ℕ, ◌+◌, ◌≤◌, String, ◌≡◌, ◌≢◌, refl, sym, ap, ◌∙◌, Option, none, some, List, [], ◌∷◌, arith, ◌==◌,
  eq_iff, ◌⊎◌, inl, inr, Bool-cases,
}
use tempogate.Oidc.Model.{Refresh, Identity}
use tempogate.Oidc.Reply.{
  Tables, Failure, Result, ok, err, Handler, pure, continue, continue_ok, pure_ok, ok_injective,
}
use tempogate.State.Driver.{IsUp}
use tempogate.State.Refresh.{SaveResult, saved, duplicate, family_revoked, save_refresh}
use tempogate.Oidc.Token.{
  Server, Request, Resolved, resolve_error, nil_grant, grant, Lineage, TokenResponse,
}
use tempogate.Oidc.Token.Issue.{
  permitted, or_fail, save_answer, expiry, start_lineage, refresh_of, persist, issue,
}

-- A refresh token outlives neither its idle window nor the session.
expiry-bounds :
    (now auth_time ttl max : ℕ)
    → (expiry now auth_time ttl max ≤ now + ttl) × (expiry now auth_time ttl max ≤ auth_time + max)
unfolding expiry
expiry-bounds now auth_time ttl max = ground (arith)

permitted_grant :
    (o : Resolved) {ps : List String} → permitted o ≡ ok ps → (o ≡ grant ps) × (ps ≢ [])
unfolding permitted
permitted_grant resolve_error e = cc
permitted_grant nil_grant e = cc
permitted_grant (grant []) e = cc
permitted_grant (grant (p ∷ ps)) e = ground arith

or_fail-some : {A : Type 0} (o : Option A) {a : A} → or_fail o ≡ ok a → o ≡ some a
unfolding or_fail
or_fail-some none e = cc
or_fail-some (some b) e = cc

save_answer_ok : (o : SaveResult) {a : Unit {0}} → save_answer o ≡ ok a → o ≡ saved
unfolding save_answer
save_answer_ok saved e = refl
save_answer_ok family_revoked e = cc
save_answer_ok duplicate e = cc
save_answer_ok SaveResult.failed e = cc

persist_ok :
    (s : Server) (q : Request) (rt : Refresh) (t : Tables) {t' : Tables} {a : Unit {0}}
    → persist s q rt t ≡ (t', ok a)
    → (save_refresh s.hash q.save_db rt t.refresh ≡ (t'.refresh, saved))
      × (record t { refresh = t'.refresh } ≡ t')
unfolding persist
persist_ok s q rt t e = (
  ap₂ (λ a b. (a, b)) (ap (λ o. o.0.refresh) e)
      (save_answer_ok (save_refresh s.hash q.save_db rt t.refresh).1 (ap (λ o. o.1) e)),
  ap (λ o. record t { refresh = o.0.refresh }) (sym e) ∙ ap (λ o. o.0) e,
)

module _ (s : Server) (q : Request) (id : Identity) (client_id nonce : String) (l : Lineage) where
  -- what a token response stands for
  abbrev pub IsIssue : Tables → Tables → TokenResponse → Type 0
  IsIssue t t' r =
      (claim : List String) × (l' : Lineage) × (jti : String) × (s.resolve id.email ≡ grant claim)
      × (claim ≢ [])
      × (start_lineage s q l ≡ ok l')
      × (s.mint (record {
        subject = s.token_subject id.connector_id id.subject;
        email = id.email;
        idp = id.connector_id;
        ttl = s.access_ttl;
        permissions = claim;
        client_id = client_id;
      })
          ≡ some (r.access_token, jti))
      × (q.random_refresh ≡ some r.refresh_token)
      × (save_refresh s.hash q.save_db (refresh_of s q id client_id l' jti r.refresh_token)
            t.refresh
          ≡ (t'.refresh, saved))
      × ((refresh_of s q id client_id l' jti r.refresh_token).expires_at
          ≤ q.now_issue + s.refresh_ttl)
      × ((refresh_of s q id client_id l' jti r.refresh_token).expires_at
          ≤ l'.auth_time + s.refresh_max_lifetime)
      × (record t { refresh = t'.refresh } ≡ t')

  -- When tokens are issued, the account has a permission, the access token is the signer's for
  -- these permissions, subject and client, and the refresh token in the response is the one that
  -- was drawn and stored, with the signature's jti, the sign-in's lineage and an expiry within
  -- the idle window and the session's lifetime. Only the refresh tokens' table changes.
  pub issue_sound :
      (t t' : Tables) {r : TokenResponse}
      → issue s q id client_id nonce l t ≡ (t', ok r)
      → IsIssue t t' r
  unfolding issue
  issue_sound t t' {r} e =
      let (claim, granted, e1) = pure_ok (permitted (s.resolve id.email)) _ t e in
      let (l', started, e2) = pure_ok (start_lineage s q l) _ t e1 in
      let ((signed, jti), minted, e3) =
        pure_ok
          (or_fail (
            s.mint (record {
              subject = s.token_subject id.connector_id id.subject;
              email = id.email;
              idp = id.connector_id;
              ttl = s.access_ttl;
              permissions = claim;
              client_id = client_id;
            })))
          _ t e2 in
      let (id_token, _, e4) = pure_ok (or_fail (s.mint_id_token _)) _ t e3 in
      let (token, drawn, e5) = pure_ok (or_fail q.random_refresh) _ t e4 in
      let (t1, _, stored, last) = continue_ok (persist s q _ t) _ e5 in
      let response = ok_injective last in
      let (saved_as, tables) = persist_ok s q _ t stored in
      let same : t1 ≡ t' = ap (λ o. o.0) last in
      let (known, some_claim) = permitted_grant (s.resolve id.email) granted in
      (
        claim,
        l',
        jti,
        known,
        some_claim,
        started,
        or_fail-some (s.mint _) minted ∙ ap (λ x. some (x.access_token, jti)) response,
        or_fail-some q.random_refresh drawn ∙ ap (λ x. some x.refresh_token) response,
        ap
              (λ x.
                save_refresh s.hash q.save_db (refresh_of s q id client_id l' jti x.refresh_token)
                  t.refresh)
              (sym response)
            ∙ saved_as
            ∙ ap (λ u. (u.refresh, saved)) same,
        (expiry-bounds q.now_issue l'.auth_time s.refresh_ttl s.refresh_max_lifetime).0,
        (expiry-bounds q.now_issue l'.auth_time s.refresh_ttl s.refresh_max_lifetime).1,
        ap (λ u. record t { refresh = u.refresh }) (sym same) ∙ tables ∙ same,
      )

pure_err :
    {A B : Type 0} (o : Result A) (f : A → Handler B) (t : Tables) {t' : Tables} {x : Failure}
    → continue (pure o t) f ≡ (t', err x)
    → ((a : A) → f a t ≡ (t', err x) → t ≡ t')
    → t ≡ t'
pure_err (ok a) f t e h = h a e
pure_err (err y) f t e h = ap (λ o. o.0) e

continue_err :
    {A B : Type 0} (o : Tables × Result A) (b : B) {t : Tables} {x : Failure}
    → continue o (λ _. pure (ok b)) ≡ (t, err x)
    → o ≡ (t, err x)
continue_err (t', ok a) b e = cc
continue_err (t', err y) b e = ground arith

module _ (s : Server) (q : Request) (ready : IsUp q.save_db) where
  persist_err :
      (rt : Refresh) {t t' : Tables} {x : Failure} → persist s q rt t ≡ (t', err x) → t ≡ t'
  unfolding persist save_refresh save_answer
  persist_err rt e = ground (arith, ready 0, ready 1)

  -- With a driver that answers, a failure to issue tokens changes no table.
  pub issue-err :
      (id : Identity) (client_id nonce : String) (l : Lineage) {t t' : Tables} {x : Failure}
      → issue s q id client_id nonce l t ≡ (t', err x)
      → t ≡ t'
  unfolding issue
  issue-err id client_id nonce l {t} e = pure_err (permitted (s.resolve id.email)) _ t e λ claim e1.
      pure_err (start_lineage s q l) _ t e1 λ l' e2.
        pure_err (or_fail (s.mint _)) _ t e2 λ minted e3.
          pure_err (or_fail (s.mint_id_token _)) _ t e3 λ id_token e4.
            pure_err (or_fail q.random_refresh) _ t e4
              λ token e5. persist_err _ (continue_err (persist s q _ t) _ e5)

-- An account without a permission gets no token.
pub issue-refused :
    (s : Server) (q : Request) (id : Identity) (client_id nonce : String) (l : Lineage) (t : Tables)
    {x : Failure}
    → permitted (s.resolve id.email) ≡ err x
    → issue s q id client_id nonce l t ≡ (t, err x)
unfolding issue
issue-refused s q id client_id nonce l t e = rw e

module _ (s : Server) (q : Request) where
  -- A lineage with a family is kept.
  pub start_lineage_kept :
      (l : Lineage) {l' : Lineage} → start_lineage s q l ≡ ok l' → (l.family_id ≡ "") ⊎ (l' ≡ l)
  unfolding start_lineage
  start_lineage_kept l e = elim (Bool-cases (l.family_id == "")) [
    | inl fresh ↦ inl ((eq_iff l.family_id "").0 fresh)
    | inr old ↦ inr (ground (arith, old))
  ]
