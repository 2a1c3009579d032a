-- ===== src/Oidc/DeviceAuthorization/Started.antt =====
-- oidc/device_authorization.go: what a device sign-in that started has stored.
use tempogate.Common.{
  ℕ, zero, suc, ◌+◌, ◌<◌, String, ◌≡◌, ◌⊎◌, refl, sym, ap, ◌∙◌, true, Option, none, some, List,
  arith, ◌==◌, eq_iff, Bool-cases, inl, inr,
}
use tempogate.Oidc.Model.{DeviceCode}
use tempogate.Oidc.Reply.{Result, ok, err}
use tempogate.Oidc.Client.{Client, device_code, allows}
use tempogate.Oidc.Grants.{Form}
use tempogate.State.Driver.{Driver, IsUp}
use tempogate.State.DeviceCodes.{
  DeviceCodeRow, SaveDeviceResult, saved, duplicate, save_device_code, found,
  lookup_device_code_by_device_code, lookup_device_code_by_user_code,
}
use tempogate.State.DeviceCodes.History.{lookup_device_code-save}
use tempogate.Oidc.DeviceAuthorization.{
  Draw, DeviceAuthorization, DeviceAuthorizationBody, Minted, code_of, after_save, attempt,
  mint_attempts, body_of, respond, for_client, sized, authorize_device,
}

module _ (h : DeviceAuthorization) (now : ℕ) (client_id scope : String) where
  duplicate_kept :
      (db : Driver) (dc : DeviceCode) (rows : List DeviceCodeRow) {rows' : List DeviceCodeRow}
      → save_device_code h.hash db dc rows ≡ (rows', duplicate)
      → rows' ≡ rows
  unfolding save_device_code
  duplicate_kept db dc rows e = ground arith

  -- the code of one of the attempts, drawn there and stored over the rows that were there before
  abbrev pub IsMinted :
      (ℕ → Draw) → List DeviceCodeRow → List DeviceCodeRow → DeviceCode → ℕ → Type 0
  IsMinted draws rows rows' dc k =
      (code : String) × (user_code : String) × ((draws k).random_device_code ≡ some code)
      × ((draws k).random_user_code ≡ some user_code)
      × (dc ≡ code_of h now client_id scope code user_code)
      × (save_device_code h.hash (draws k).save_db dc rows ≡ (rows', saved))

  after_save_minted :
      (dc : DeviceCode) (rows : List DeviceCodeRow) (next : List DeviceCodeRow → Minted)
      (o : List DeviceCodeRow × SaveDeviceResult) {rows' : List DeviceCodeRow} {d : DeviceCode}
      → after_save h now client_id scope dc next o ≡ (rows', ok d)
      → ((d ≡ dc) × (o ≡ (rows', saved))) ⊎ ((o.1 ≡ duplicate) × (next o.0 ≡ (rows', ok d)))
  after_save_minted dc rows next (r, saved) e = inl (cc, ap (λ x. (x.0, saved)) e)
  after_save_minted dc rows next (r, duplicate) e = inr (refl, e)
  after_save_minted dc rows next (r, SaveDeviceResult.failed) e = cc

  attempt_minted :
      (draws : ℕ → Draw) (k : ℕ) (rows : List DeviceCodeRow) (next : List DeviceCodeRow → Minted)
      (a b : Option String) {rows' : List DeviceCodeRow} {dc : DeviceCode}
      → (draws k).random_device_code ≡ a
      → (draws k).random_user_code ≡ b
      → attempt h now client_id scope (draws k).save_db rows next a b ≡ (rows', ok dc)
      → IsMinted draws rows rows' dc k ⊎ (next rows ≡ (rows', ok dc))
  attempt_minted draws k rows next none b d d' e = cc
  attempt_minted draws k rows next (some code) none d d' e = cc
  attempt_minted draws k rows next (some code) (some user_code) {rows'} {dc} d d' e =
      let made = code_of h now client_id scope code user_code in
      let o = save_device_code h.hash (draws k).save_db made rows in
      elim (after_save_minted made rows next o e) [
        | inl (same, stored) ↦ inl (
          code,
          user_code,
          d,
          d',
          same,
          ap (λ x. save_device_code h.hash (draws k).save_db x rows) same ∙ stored,
        )
        | inr (twice, later) ↦ inr (
            ap next (sym (duplicate_kept (draws k).save_db made rows (ap (λ r. (o.0, r)) twice)))
            ∙ later)
      ]

  mint_attempts-IsMinted :
      (left : ℕ) (draws : ℕ → Draw) (k : ℕ) (rows : List DeviceCodeRow) {rows' : List DeviceCodeRow}
      {dc : DeviceCode}
      → mint_attempts h now client_id scope left draws k rows ≡ (rows', ok dc)
      → (j : ℕ) × (j < left + k) × IsMinted draws rows rows' dc j
  unfolding mint_attempts
  mint_attempts-IsMinted zero draws k rows e = cc
  mint_attempts-IsMinted (suc left) draws k rows e =
      elim (attempt_minted draws k rows (mint_attempts h now client_id scope left draws (suc k)) _ _
        refl refl e) [
          | inl made ↦ (k, omega arith, made)
          | inr later ↦
              let (j, below, made) = mint_attempts-IsMinted left draws (suc k) rows later in
              (j, omega (arith, below), made)
        ]

module _ (h : DeviceAuthorization) (now : ℕ) where
  -- what a device sign-in that started stands on
  abbrev pub IsStarted :
      Form → (ℕ → Draw) → List DeviceCodeRow → List DeviceCodeRow → DeviceAuthorizationBody → Type 0
  IsStarted form draws rows rows' b =
      (c : Client) × (dc : DeviceCode) × (k : ℕ) × (h.clients (form "client_id") ≡ some c)
      × (c.secret ≡ "")
      × (allows c device_code ≡ true)
      × (k < 3)
      × IsMinted h now (form "client_id") (form "scope") draws rows rows' dc k
      × (b ≡ body_of h now dc)

  respond_ok :
      (o : Minted) {rows' : List DeviceCodeRow} {b : DeviceAuthorizationBody}
      → respond h now o ≡ (rows', ok b)
      → (dc : DeviceCode) × (o ≡ (rows', ok dc)) × (b ≡ body_of h now dc)
  respond_ok (rows, ok dc) e = (dc, ap (λ x. (x.0, ok dc)) e, cc)
  respond_ok (rows, err x) e = cc

  for_client_ok :
      (form : Form) (draws : ℕ → Draw) (rows : List DeviceCodeRow) (o : Option Client)
      {rows' : List DeviceCodeRow} {b : DeviceAuthorizationBody}
      → h.clients (form "client_id") ≡ o
      → for_client h now form draws rows o ≡ (rows', ok b)
      → IsStarted form draws rows rows' b
  for_client_ok form draws rows none known e = cc
  for_client_ok form draws rows (some c) known e = elim (Bool-cases (c.secret == "")) [
    | inr secret ↦ cc (rw secret at e)
    | inl public ↦ elim (Bool-cases (allows c device_code)) [
      | inr other ↦ cc (rw (public, other) at e)
      | inl may ↦
          let (dc, minted, made) = respond_ok _ (rw (public, may) at e) in
          let (k, below, one) =
            mint_attempts-IsMinted h now (form "client_id") (form "scope") 3 draws 0 rows minted in
          (c, dc, k, known, (eq_iff c.secret "").0 public, may, omega (arith, below), one, made)
    ]
  ]

  sized_ok :
      (form : Form) (draws : ℕ → Draw) (rows : List DeviceCodeRow) (o : Result (Unit {0}))
      {rows' : List DeviceCodeRow} {b : DeviceAuthorizationBody}
      → sized h now form draws rows o ≡ (rows', ok b)
      → IsStarted form draws rows rows' b
  sized_ok form draws rows (err x) e = cc
  sized_ok form draws rows (ok tt) e = elim (Bool-cases (form "client_id" == "")) [
    | inl empty ↦ cc (rw empty at e)
    | inr given ↦ for_client_ok form draws rows _ refl (rw given at e)
  ]

  -- A device sign-in that started is that of a registered public client which may use the device
  -- flow; its code was drawn in one of three attempts and is stored for the client and the scope,
  -- neither approved nor denied; and a driver that answers finds it afterwards under the device
  -- code and under the user code, which the body of the response shows.
  pub authorize_device_sound :
      (db : Driver) (body : Option Form) (draws : ℕ → Draw) (rows : List DeviceCodeRow)
      {rows' : List DeviceCodeRow} {b : DeviceAuthorizationBody}
      → IsUp db
      → authorize_device h now body draws rows ≡ (rows', ok b)
      → (form : Form) × (body ≡ some form)
        × IsStarted form draws rows rows' b
        × ((dc : DeviceCode) × (b ≡ body_of h now dc)
            × (lookup_device_code_by_device_code h.hash db dc.code rows' ≡ found dc)
            × (lookup_device_code_by_user_code db dc.user_code rows'
                ≡ found (record dc { code = "" })))
  unfolding authorize_device
  authorize_device_sound db none draws rows ready e = cc
  authorize_device_sound db (some form) draws rows ready e =
      let started = sized_ok form draws rows _ e in
      let (c, dc, k, known, public, may, below, (code, user_code, d, d', same, stored), made) =
        started in
      (
        form,
        refl,
        started,
        (
          dc,
          made,
          (lookup_device_code-save h.hash (draws k).save_db db dc rows ready stored).0,
          (lookup_device_code-save h.hash (draws k).save_db db dc rows ready stored).1,
        ),
      )
