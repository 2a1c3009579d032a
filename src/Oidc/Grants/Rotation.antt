-- ===== src/Oidc/Grants/Rotation.antt =====
-- oidc/token.go, refreshTokenGrant: what a rotation has checked, and what a reuse and a withdrawn
-- permission bring about.
use mathlib.Core.Path.{ap₂}
use tempogate.Common.{
  ◌+◌, ◌≤◌, ◌<◌, String, ◌≡◌, ◌≢◌, refl, sym, ap, ◌∙◌, true, false, ◌⊎◌, inl, inr, Option, List, [],
  ◌∷◌, arith, ◌==◌, eq_iff, Bool-cases,
}
use tempogate.Oidc.Model.{Refresh, Identity}
use tempogate.Oidc.Client.{Client, refresh_token}
use tempogate.Oidc.Reply.{
  Tables, Result, ok, err, oauth_err, oauth_error, no_permissions, server_error, bad_request,
  continue_ok,
}
use tempogate.State.Driver.{Driver, IsUp}
use tempogate.State.Refresh.{
  ConsumeResult, consumed, reused, consume_refresh, save_refresh, saved, scan_refresh, in_family,
  live_for, spent_for, consume_row,
}
use tempogate.State.Refresh as StateRefresh
use tempogate.State.Refresh.History.{RefreshCall, save, run, step}
use tempogate.State.Refresh.Reuse.{OneRowPerHash, consume_refresh-reused}
use tempogate.State.Refresh.Revocation.{IsRevoked}
use tempogate.Oidc.Token.{
  Server, Request, Lineage, TokenResponse, grant, authenticate_client, revoke_family,
}
use tempogate.Oidc.Token.Issue.{issue, permitted, refresh_of}
use tempogate.Oidc.Token.Issue.Mint.{issue_sound, issue-refused, start_lineage_kept}
use tempogate.State.Refresh.Family.{reused-known, consumed-known}
use tempogate.Oidc.Token.Revoke.{revoke_family-known}
use tempogate.Oidc.Grants.{
  Form, no_access, client_credentials, on_no_permissions, revoke_and_refuse, rotate, renew,
  refresh_answer, refresh_token_grant,
}

module _ (s : Server) (q : Request) (form : Form) (basic : Option (String × String)) where
  -- who presents the token
  abbrev pub client_of : String
  client_of = (client_credentials form basic).0

  abbrev pub secret_of : String
  secret_of = (client_credentials form basic).1

  -- the consume of the request
  abbrev pub presented : Tables → List StateRefresh.RefreshRow × ConsumeResult
  presented t = consume_refresh s.hash q.consume_db (form "refresh_token") client_of q.now t.refresh

  grant_answer :
      (c : Client) (t : Tables) {rows : List StateRefresh.RefreshRow} {o : ConsumeResult}
      → form "refresh_token" ≢ ""
      → authenticate_client s client_of secret_of refresh_token ≡ ok c
      → presented t ≡ (rows, o)
      → refresh_token_grant s q form basic t ≡ refresh_answer s q o (record t { refresh = rows })
  unfolding refresh_token_grant
  grant_answer c t given known e =
      let some_token : (form "refresh_token" == "") ≡ false =
        ground (arith, eq_iff (form "refresh_token") "", given) in
      rw (some_token, known, e)

  -- Presenting a token that was handed out before, to its own client and with a driver that
  -- answers, is refused, and every token of its family is revoked.
  pub refresh_token_grant-reused :
      (c : Client) (t : Tables) {rows : List StateRefresh.RefreshRow} {rt : Refresh}
      → IsUp q.revoke_db
      → form "refresh_token" ≢ ""
      → authenticate_client s client_of secret_of refresh_token ≡ ok c
      → presented t ≡ (rows, reused rt)
      → IsRevoked rt.family_id (refresh_token_grant s q form basic t).0.refresh
        × ((refresh_token_grant s q form basic t).1
            ≡ oauth_err bad_request "invalid_grant"
                "refresh token already used; the session has been revoked")
  unfolding refresh_answer revoke_and_refuse
  refresh_token_grant-reused c t {rows} {rt} ready given known e =
      rw (grant_answer c t given known e) (
        revoke_family-known s q rt.family_id q.now _ (record t { refresh = rows }) ready
          (reused-known s.hash _ _ _ _ _ e))

  -- What a rotation asks of a live token before anything else.
  abbrev pub IsCurrent : Refresh → Type 0
  IsCurrent rt =
      (q.now ≤ rt.expires_at) × (q.now < rt.auth_time + s.refresh_max_lifetime) × (rt.subject ≢ "")

  renew_current : (rt : Refresh) (t : Tables) → IsCurrent rt → renew s q rt t ≡ rotate s q rt t
  unfolding renew
  renew_current rt t (fresh, within, named) =
      ground (arith, fresh, within, named, eq_iff rt.subject "")

  renew-IsCurrent :
      (rt : Refresh) (t t' : Tables) {r : TokenResponse}
      → renew s q rt t ≡ (t', ok r)
      → IsCurrent rt × (rotate s q rt t ≡ (t', ok r))
  unfolding renew
  renew-IsCurrent rt t t' e = ground (arith, eq_iff rt.subject "")

  -- The sign-in method, the domain or the permissions of the session are gone.
  abbrev pub IsWithdrawn : Refresh → Type 0
  IsWithdrawn rt =
      (s.connector_configured rt.connector_id ≡ false)
      ⊎ ((s.domain_allowed rt.email ≡ false)
          ⊎ (permitted (s.resolve rt.email) ≡ err no_permissions))

  abbrev pub identity_of : Refresh → Identity
  identity_of rt = record { connector_id = rt.connector_id; subject = rt.subject; email = rt.email }

  abbrev pub lineage_of : Refresh → Lineage
  lineage_of rt = record { family_id = rt.family_id; auth_time = rt.auth_time }

  rotate_withdrawn :
      (rt : Refresh) (t : Tables)
      → IsWithdrawn rt
      → (desc : String) × (rotate s q rt t ≡ revoke_and_refuse s q rt.family_id desc t)
  unfolding rotate
  rotate_withdrawn rt t w = elim (Bool-cases (s.connector_configured rt.connector_id)) [
    | inr gone ↦
        ("the sign-in method of this session is no longer available; sign in again", rw gone refl)
    | inl kept ↦ elim (Bool-cases (s.domain_allowed rt.email)) [
      | inr gone ↦ ("email domain is no longer allowed", rw (kept, gone) refl)
      | inl allowed ↦ elim w [
        | inl gone ↦ cc
        | inr (inl gone) ↦ cc
        | inr (inr none_left) ↦ (
          no_access,
          rw (kept, allowed)
              (ap (on_no_permissions (revoke_and_refuse s q rt.family_id no_access))
                (issue-refused s q (identity_of rt) rt.client_id "" (lineage_of rt) t none_left)),
        )
      ]
    ]
  ]

  -- A rotation of a live, current token whose sign-in method, domain or permissions are gone is
  -- refused, and every token of its family is revoked.
  pub refresh_token_grant-withdrawn :
      (c : Client) (t : Tables) {rows : List StateRefresh.RefreshRow} {rt : Refresh}
      → IsUp q.revoke_db
      → form "refresh_token" ≢ ""
      → authenticate_client s client_of secret_of refresh_token ≡ ok c
      → presented t ≡ (rows, consumed rt)
      → IsCurrent rt
      → IsWithdrawn rt
      → (desc : String) × IsRevoked rt.family_id (refresh_token_grant s q form basic t).0.refresh
        × ((refresh_token_grant s q form basic t).1 ≡ oauth_err bad_request "invalid_grant" desc)
  unfolding refresh_answer revoke_and_refuse
  refresh_token_grant-withdrawn c t {rows} {rt} ready given known e current gone =
      let (desc, refused_as) = rotate_withdrawn rt (record t { refresh = rows }) gone in
      let (ended, answer) =
        revoke_family-known s q rt.family_id q.now {A = TokenResponse}
          (oauth_error bad_request "invalid_grant" desc) (record t { refresh = rows }) ready
          (consumed-known s.hash _ _ _ _ _ e) in
      (
        desc,
        rw
            (
              grant_answer c t given known e,
              renew_current rt (record t { refresh = rows }) current,
              refused_as,
            )
            ended,
        rw
            (
              grant_answer c t given known e,
              renew_current rt (record t { refresh = rows }) current,
              refused_as,
            )
            answer,
      )

  grant_success :
      (t t' : Tables) {r : TokenResponse}
      → refresh_token_grant s q form basic t ≡ (t', ok r)
      → (c : Client) × (form "refresh_token" ≢ "")
        × (authenticate_client s client_of secret_of refresh_token ≡ ok c)
        × (refresh_answer s q (presented t).1 (record t { refresh = (presented t).0 }) ≡ (t', ok r))
  unfolding refresh_token_grant
  grant_success t t' e = ground (arith, eq_iff (form "refresh_token") "")

  revoke_and_refuse_err :
      (f desc : String) (t t' : Tables) {r : TokenResponse}
      → revoke_and_refuse s q f desc t ≡ (t', ok r)
      → ⊥
  unfolding revoke_and_refuse
  revoke_and_refuse_err f desc t t' e =
      let (_, _, _, last) = continue_ok (revoke_family s q f q.now t) _ e in cc

  answer_success :
      (o : ConsumeResult) (t t' : Tables) {r : TokenResponse}
      → refresh_answer s q o t ≡ (t', ok r)
      → (rt : Refresh) × (o ≡ consumed rt) × (renew s q rt t ≡ (t', ok r))
  unfolding refresh_answer
  answer_success (consumed rt) t t' e = (rt, refl, e)
  answer_success (reused rt) t t' e = elim (revoke_and_refuse_err rt.family_id _ t t' e) [ ]
  answer_success StateRefresh.not_found t t' e = cc
  answer_success ConsumeResult.failed t t' e = cc

  on_no_permissions_success :
      (f desc : String) (o : Tables × Result TokenResponse) {t' : Tables} {r : TokenResponse}
      → on_no_permissions (revoke_and_refuse s q f desc) o ≡ (t', ok r)
      → o ≡ (t', ok r)
  on_no_permissions_success f desc (t, ok a) e = e
  on_no_permissions_success f desc (t, err no_permissions) {t'} e =
      elim (revoke_and_refuse_err f desc t t' e) [ ]
  on_no_permissions_success f desc (t, err server_error) e = cc
  on_no_permissions_success f desc (t, err (oauth_error status code d)) e = cc

  rotate_success :
      (rt : Refresh) (t t' : Tables) {r : TokenResponse}
      → rotate s q rt t ≡ (t', ok r)
      → (s.connector_configured rt.connector_id ≡ true)
        × (s.domain_allowed rt.email ≡ true)
        × (issue s q (identity_of rt) rt.client_id "" (lineage_of rt) t ≡ (t', ok r))
  unfolding rotate
  rotate_success rt t t' e = elim (Bool-cases (s.connector_configured rt.connector_id)) [
    | inr gone ↦ elim (revoke_and_refuse_err rt.family_id _ t t' (rw gone at e)) [ ]
    | inl kept ↦ elim (Bool-cases (s.domain_allowed rt.email)) [
      | inr gone ↦ elim (revoke_and_refuse_err rt.family_id _ t t' (rw (kept, gone) at e)) [ ]
      | inl allowed ↦
          (kept, allowed, on_no_permissions_success rt.family_id _ _ (rw (kept, allowed) at e))
    ]
  ]

  -- what a rotation that succeeds stands for
  abbrev pub IsRotation : Tables → Tables → TokenResponse → Type 0
  IsRotation t t' r =
      (c : Client) × (rt : Refresh) × (claim : List String) × (l : Lineage) × (jti : String)
      × (authenticate_client s client_of secret_of refresh_token ≡ ok c)
      × ((presented t).1 ≡ consumed rt)
      × IsCurrent rt
      × (s.connector_configured rt.connector_id ≡ true)
      × (s.domain_allowed rt.email ≡ true)
      × (s.resolve rt.email ≡ grant claim)
      × (claim ≢ [])
      × ((rt.family_id ≡ "") ⊎ (l ≡ lineage_of rt))
      × (save_refresh s.hash q.save_db
            (refresh_of s q (identity_of rt) rt.client_id l jti r.refresh_token) (presented t).0
          ≡ (t'.refresh, saved))
      × ((refresh_of s q (identity_of rt) rt.client_id l jti r.refresh_token).expires_at
          ≤ l.auth_time + s.refresh_max_lifetime)

  -- A successful rotation has authenticated the client and consumed a live token of this client
  -- whose idle window and session are still open, and whose sign-in method, domain and permissions
  -- still stand. The token in the response is stored for the same person and client, and, unless
  -- the consumed token has no family, in the same family and with the same time of sign-in; it
  -- expires within the session's lifetime from its time of sign-in.
  pub refresh_token_grant_sound :
      (t t' : Tables) {r : TokenResponse}
      → refresh_token_grant s q form basic t ≡ (t', ok r)
      → IsRotation t t' r
  refresh_token_grant_sound t t' e =
      let (c, _, known, answered) = grant_success t t' e in
      let t1 : Tables = record t { refresh = (presented t).0 } in
      let (rt, handed_out, renewed) = answer_success (presented t).1 t1 t' answered in
      let (current, rotated) = renew-IsCurrent rt t1 t' renewed in
      let (kept, allowed, issued) = rotate_success rt t1 t' rotated in
      let (claim, l, jti, resolved, some_claim, started, _, _, stored, _, within, _) =
        issue_sound s q (identity_of rt) rt.client_id "" (lineage_of rt) t1 t' issued in
      (
        c,
        rt,
        claim,
        l,
        jti,
        known,
        handed_out,
        current,
        kept,
        allowed,
        resolved,
        some_claim,
        start_lineage_kept s q (lineage_of rt) started,
        stored,
        within,
      )

-- A refresh token that was rotated is never rotated again: not by any request of its client that
-- presents it later, whatever calls of the store come between, when the table has one row for
-- each hash and the driver answers the later consume.
pub refresh_token_grant-once :
    (s : Server) (lower : String → String) (q q' : Request) (form form' : Form)
    (basic basic' : Option (String × String)) (t t' : Tables) {r r' : TokenResponse}
    (later later' : Tables) (cs : List (Driver × RefreshCall))
    → OneRowPerHash t.refresh
    → IsUp q'.consume_db
    → refresh_token_grant s q form basic t ≡ (t', ok r)
    → later.refresh ≡ run s.hash lower t'.refresh cs
    → form' "refresh_token" ≡ form "refresh_token"
    → client_of s q' form' basic' ≡ client_of s q form basic
    → refresh_token_grant s q' form' basic' later ≢ (later', ok r')
unfolding run step
refresh_token_grant-once s lower q q' form form' basic basic' t t' {r} later later' cs d ready
      first_time between same who again =
    let (c, rt, claim, l, jti, _, won, _, _, _, _, _, _, stored, _) =
      refresh_token_grant_sound s q form basic t t' first_time in
    let (_, rt', _, _, _, _, won', _, _, _, _, _, _, _, _) =
      refresh_token_grant_sound s q' form' basic' later later' again in
    let kept = refresh_of s q (identity_of s q form basic rt) rt.client_id l jti r.refresh_token in
    let saved_state : run s.hash lower t'.refresh cs
        ≡ run s.hash lower (presented s q form basic t).0 ((q.save_db, save kept) ∷ cs) =
      ap (λ o. run s.hash lower o.0 cs) (sym stored) in
    let replay =
      consume_refresh-reused s.hash lower q.consume_db q'.consume_db (form "refresh_token")
        (client_of s q form basic) q.now q'.now t.refresh ((q.save_db, save kept) ∷ cs) d ready
        (ap₂ (λ a b. (a, b)) refl won) in
    let presented_again : (presented s q' form' basic' later).1 ≡ reused rt =
      ap (λ rows. (presented s q' form' basic' (record later { refresh = rows })).1)
        (between ∙ saved_state)
      ∙ ap₂
          (λ token id.
            (consume_refresh s.hash q'.consume_db token id q'.now
              (run s.hash lower (presented s q form basic t).0 ((q.save_db, save kept) ∷ cs))).1)
          same who
      ∙ ap (λ o. o.1) replay in
    cc (presented_again, won')
