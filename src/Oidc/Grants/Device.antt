-- ===== src/Oidc/Grants/Device.antt =====
-- oidc/device_token.go, deviceCodeGrant: what a poll that is answered with tokens has checked.
use mathlib.Core.Path.{ap₂}
use tempogate.Common.{
  ◌≤◌, String, ◌≡◌, ◌≢◌, refl, ap, true, false, Option, none, List, [], arith, ◌==◌, eq_iff,
  is_some, Bool-cases, inl, inr,
}
use tempogate.Oidc.Model.{DeviceCode, Identity}
use tempogate.Oidc.Client.{Client, device_code}
use tempogate.Oidc.Reply.{Tables, ok}
use tempogate.State.DeviceCodes
use tempogate.State.DeviceCodes.{
  LookupResult, PollResult, found, polled, lookup_device_code_by_device_code, poll_device_code,
  consume_device_code,
}
use tempogate.State.Refresh.{save_refresh, saved}
use tempogate.Oidc.Token.{Server, Request, Lineage, TokenResponse, grant, authenticate_client}
use tempogate.Oidc.Token.Issue.{issue, refresh_of}
use tempogate.Oidc.Token.Issue.Mint.{issue_sound}
use tempogate.Oidc.Grants.{
  Form, client_credentials, forget_device_code, device_answer, claim_device_code,
  settle_device_code, poll_answer, lookup_answer, device_code_grant, refused_success,
}

module _ (s : Server) (q : Request) where
  abbrev pub identity_of : DeviceCode → Identity
  identity_of dc = record { connector_id = dc.connector_id; subject = dc.subject; email = dc.email }

  -- a sign-in that has no lineage yet
  abbrev pub no_lineage : Lineage
  no_lineage = record { family_id = ""; auth_time = 0 }

  device_answer_success :
      (o : LookupResult) (t t' : Tables) {r : TokenResponse}
      → device_answer s q o t ≡ (t', ok r)
      → (final : DeviceCode) × (o ≡ found final)
        × (final.subject ≢ "")
        × (issue s q (identity_of final) final.client_id "" no_lineage t ≡ (t', ok r))
  unfolding device_answer
  device_answer_success (found final) t t' e = elim (Bool-cases (final.subject == "")) [
    | inl missing ↦ cc (rw missing at e)
    | inr named ↦ (
      final,
      refl,
      (λ x. cc (named, (eq_iff final.subject "").1 x)),
      refused_success _ _ _ (rw named at e),
    )
  ]
  device_answer_success DeviceCodes.not_found t t' e = cc
  device_answer_success LookupResult.failed t t' e = cc

  settle_success :
      (code : String) (dc : DeviceCode) (t t' : Tables) {r : TokenResponse}
      → settle_device_code s q code dc t ≡ (t', ok r)
      → (q.now ≤ dc.expires_at)
        × (dc.denied_at ≡ none)
        × (is_some dc.approved_at ≡ true)
        × (device_answer s q
              (consume_device_code s.hash q.consume_db code t.devices).1
              (record t { devices = (consume_device_code s.hash q.consume_db code t.devices).0 })
            ≡ (t', ok r))
  unfolding settle_device_code claim_device_code forget_device_code
  settle_success code dc t t' e = ground (arith)

  poll_success :
      (code : String) (dc : DeviceCode) (o : PollResult) (t t' : Tables) {r : TokenResponse}
      → poll_answer s q code dc o t ≡ (t', ok r)
      → (o ≡ polled false) × (settle_device_code s q code dc t ≡ (t', ok r))
  unfolding poll_answer
  poll_success code dc (polled true) t t' e = cc
  poll_success code dc (polled false) t t' e = (refl, e)
  poll_success code dc PollResult.not_found t t' e = cc
  poll_success code dc PollResult.failed t t' e = cc

  module _ (others : List DeviceCodes.DeviceCodeRow → List DeviceCodes.DeviceCodeRow) (form : Form)
      (basic : Option (String × String)) where
    abbrev pub client_of : String
    client_of = (client_credentials form basic).0

    -- the poll of the request, and the table behind it
    abbrev pub polling : Tables → List DeviceCodes.DeviceCodeRow × PollResult
    polling t = poll_device_code s.hash q.poll_db others (form "device_code") q.now t.devices

    lookup_success :
        (o : LookupResult) (t t' : Tables) {r : TokenResponse}
        → lookup_answer s q others client_of (form "device_code") o t ≡ (t', ok r)
        → (dc : DeviceCode) × (o ≡ found dc)
          × (client_of ≡ dc.client_id)
          × (poll_answer s q
                (form "device_code")
                dc
                (polling t).1
                (record t { devices = (polling t).0 })
              ≡ (t', ok r))
    unfolding lookup_answer
    lookup_success (found dc) t t' e = elim (Bool-cases (client_of == dc.client_id)) [
      | inl same ↦ (dc, refl, (eq_iff client_of dc.client_id).0 same, rw same at e)
      | inr other ↦ cc (rw other at e)
    ]
    lookup_success DeviceCodes.not_found t t' e = cc
    lookup_success LookupResult.failed t t' e = cc

    grant_success :
        (t t' : Tables) {r : TokenResponse}
        → device_code_grant s q others form basic t ≡ (t', ok r)
        → (c : Client) × (authenticate_client s client_of
              (client_credentials form basic).1
              device_code
            ≡ ok c)
          × (lookup_answer s q others client_of
                (form "device_code")
                (lookup_device_code_by_device_code s.hash q.lookup_db
                  (form "device_code")
                  t.devices)
                t
              ≡ (t', ok r))
    unfolding device_code_grant
    grant_success t t' e = ground (arith)

    -- what a poll that is answered with tokens stands for
    abbrev pub IsDeviceSignIn : Tables → Tables → TokenResponse → Type 0
    IsDeviceSignIn t t' r =
        (c : Client) × (dc : DeviceCode) × (final : DeviceCode) × (claim : List String)
        × (l : Lineage) × (jti : String) × (authenticate_client s client_of
              (client_credentials form basic).1 device_code
            ≡ ok c)
        × (lookup_device_code_by_device_code s.hash q.lookup_db (form "device_code") t.devices
            ≡ found dc)
        × (client_of ≡ dc.client_id)
        × ((polling t).1 ≡ polled false)
        × (q.now ≤ dc.expires_at)
        × (dc.denied_at ≡ none)
        × (is_some dc.approved_at ≡ true)
        × (consume_device_code s.hash q.consume_db (form "device_code") (polling t).0
            ≡ (t'.devices, found final))
        × (final.subject ≢ "")
        × (s.resolve final.email ≡ grant claim)
        × (claim ≢ [])
        × (save_refresh s.hash q.save_db
              (refresh_of s q (identity_of final) final.client_id l jti r.refresh_token) t.refresh
            ≡ (t'.refresh, saved))

    -- A poll that is answered with tokens has authenticated the client that the code was issued
    -- to, was not too fast, and found a code that the user approved and neither denied nor let
    -- expire. It took the code out of the store, which named a subject with permissions, and
    -- stored the refresh token of the response for that subject and client.
    pub device_code_grant_sound :
        (t t' : Tables) {r : TokenResponse}
        → device_code_grant s q others form basic t ≡ (t', ok r)
        → IsDeviceSignIn t t' r
    device_code_grant_sound t t' e =
        let (c, known, e1) = grant_success t t' e in
        let (dc, stored_code, own, e2) = lookup_success _ t t' e1 in
        let t2 : Tables = record t { devices = (polling t).0 } in
        let (paced, e3) = poll_success (form "device_code") dc (polling t).1 t2 t' e2 in
        let (fresh, undenied, approved, e4) = settle_success (form "device_code") dc t2 t' e3 in
        let (final, taken, named, issued) = device_answer_success _ _ t' e4 in
        let (claim, l, jti, resolved, some_claim, _, _, _, stored, _, _, tables) =
          issue_sound s q (identity_of final) final.client_id "" no_lineage _ t' issued in
        (
          c,
          dc,
          final,
          claim,
          l,
          jti,
          known,
          stored_code,
          own,
          paced,
          fresh,
          undenied,
          approved,
          ap₂ (λ a b. (a, b)) (ap (λ u. u.devices) tables) taken,
          named,
          resolved,
          some_claim,
          stored,
        )
