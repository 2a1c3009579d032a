-- ===== src/State/AuthCodes/Single.antt =====
-- Single use of authorization codes, over histories of the auth_codes table: SaveAuthCode and
-- ConsumeAuthCode in any order, each by one statement, each under a driver of its own.
use tempogate.Common.{
  ℕ, ◌+◌, ◌≤◌, String, ◌≡◌, refl, sym, ap, subst, ◌∙◌, Bool, true, false, ◌&&◌, none, some, List,
  [], ◌∷◌, arith, ◌==◌, eq_iff, eq_refl, if◌then◌else◌, is_some, first, first_holds, any, update,
  Bool-cases, Option-cases, inl, inr, and_left, and_right, entry, Distinct, entry-update,
  entry-fresh, Distinct-update, entry_of_first, first_of_entry, map-some,
}
use tempogate.Oidc.Model.{AuthCode}
use tempogate.State.Driver.{Driver, IsUp}
use tempogate.State.AuthCodes.{
  AuthCodeRow, RedeemResult, redeemed, reused, saved, scan_code, scan_tombstone, hash_of,
  unconsumed, consumed, redeem_row, row_of, save_auth_code, consume_auth_code,
}

pub data CodeCall : Type 0 where
  save : AuthCode → CodeCall
  redeem : String → String → ℕ → CodeCall

-- The table's primary key.
abbrev pub OneRowPerHash : List AuthCodeRow → Type 0
OneRowPerHash = Distinct hash_of

abbrev is_redeemed : RedeemResult → Bool
is_redeemed (redeemed ac) = true
is_redeemed _ = false

is_redeemed_inversion :
    (o : RedeemResult) → is_redeemed o ≡ true → (ac : AuthCode) × (o ≡ redeemed ac)
is_redeemed_inversion o h = ground arith

-- What a call may do to the table.
data Effect (hash : String → String) (rows rows' : List AuthCodeRow) : Type 0 where
  unchanged : rows' ≡ rows → Effect hash rows rows'
  inserted :
      (ac : AuthCode)
      → any (λ r. hash_of r == hash ac.code) rows ≡ false
      → rows' ≡ row_of hash ac ∷ rows
      → Effect hash rows rows'
  redeemed_by :
      (h family_id : String) (at : ℕ)
      → rows' ≡ update (unconsumed h) (redeem_row family_id at) rows
      → Effect hash rows rows'

module _ (hash : String → String) where
  unfoldable pub step : List AuthCodeRow → Driver × CodeCall → List AuthCodeRow
  step rows (db, save ac) = (save_auth_code hash db ac rows).0
  step rows (db, redeem code family_id at) = (consume_auth_code hash db code family_id at rows).0

  unfoldable pub run : List AuthCodeRow → List (Driver × CodeCall) → List AuthCodeRow
  run rows [] = rows
  run rows (c ∷ cs) = run (step rows c) cs

  -- Whether a call redeems the code.
  unfoldable pub redeems : String → List AuthCodeRow → Driver × CodeCall → Bool
  redeems code rows (db, redeem c family_id at) =
      (c == code) && is_redeemed (consume_auth_code hash db c family_id at rows).1
  redeems code rows (db, save ac) = false

  -- How often a history redeems it.
  unfoldable pub times_redeemed : String → List AuthCodeRow → List (Driver × CodeCall) → ℕ
  times_redeemed code rows [] = 0
  times_redeemed code rows (c ∷ cs) =
      (if redeems code rows c then 1 else 0) + times_redeemed code (step rows c) cs

  save-Effect :
      (db : Driver) (ac : AuthCode) (rows : List AuthCodeRow)
      → Effect hash rows (save_auth_code hash db ac rows).0
  unfolding save_auth_code
  save-Effect db ac rows = elim (Bool-cases (db 0)) [
    | inl down ↦ unchanged (rw down)
    | inr answers ↦ elim (Bool-cases (any (λ r. hash_of r == hash ac.code) rows)) [
      | inl held ↦ unchanged (rw (answers, held))
      | inr free ↦ inserted ac free (rw (answers, free))
    ]
  ]

  redeem-Effect :
      (db : Driver) (code family_id : String) (at : ℕ) (rows : List AuthCodeRow)
      → Effect hash rows (consume_auth_code hash db code family_id at rows).0
  unfolding consume_auth_code
  redeem-Effect db code family_id at rows = elim (Bool-cases (db 0)) [
    | inl down ↦ unchanged (rw down)
    | inr answers ↦ elim (Option-cases (first (unconsumed (hash code)) rows)) [
      | inl miss ↦ unchanged (ground arith)
      | inr (r, hit) ↦ redeemed_by (hash code) family_id at (ground arith)
    ]
  ]

  step-Effect : (rows : List AuthCodeRow) (c : Driver × CodeCall) → Effect hash rows (step rows c)
  unfolding step
  step-Effect rows (db, save ac) = save-Effect db ac rows
  step-Effect rows (db, redeem code family_id at) = redeem-Effect db code family_id at rows

  Effect-OneRowPerHash :
      {rows rows' : List AuthCodeRow}
      → Effect hash rows rows'
      → OneRowPerHash rows
      → OneRowPerHash rows'
  Effect-OneRowPerHash (unchanged e) d = rw e d
  Effect-OneRowPerHash (inserted ac free e) d = rw e (free, d)
  Effect-OneRowPerHash {rows} (redeemed_by h family_id at e) d =
      rw e (Distinct-update hash_of _ (redeem_row family_id at) rows (λ x. refl) d)

  -- A redeemed code's row is never touched again.
  Effect-tombstone :
      {rows rows' : List AuthCodeRow} (h : String) {x : AuthCodeRow}
      → Effect hash rows rows'
      → is_some x.consumed_at ≡ true
      → entry hash_of h rows ≡ some x
      → entry hash_of h rows' ≡ some x
  Effect-tombstone h (unchanged e) spent t = rw e t
  Effect-tombstone {rows} h (inserted ac free e) spent t =
      rw e (entry-fresh hash_of h (row_of hash ac) rows t free)
  Effect-tombstone {rows} h {x} (redeemed_by k family_id at e) spent t = rw e (
      entry-update hash_of h (unconsumed k) (redeem_row family_id at) rows (λ y. refl)
      ∙ map-some _ t
      ∙ ground (arith, spent))

  run-OneRowPerHash :
      (rows : List AuthCodeRow) (cs : List (Driver × CodeCall))
      → OneRowPerHash rows
      → OneRowPerHash (run rows cs)
  unfolding run
  run-OneRowPerHash rows [] d = d
  run-OneRowPerHash rows (c ∷ cs) d =
      run-OneRowPerHash (step rows c) cs (Effect-OneRowPerHash (step-Effect rows c) d)

  run-tombstone :
      (rows : List AuthCodeRow) (cs : List (Driver × CodeCall)) (h : String) {x : AuthCodeRow}
      → is_some x.consumed_at ≡ true
      → entry hash_of h rows ≡ some x
      → entry hash_of h (run rows cs) ≡ some x
  unfolding run
  run-tombstone rows [] h spent t = t
  run-tombstone rows (c ∷ cs) h spent t =
      run-tombstone (step rows c) cs h spent (Effect-tombstone h (step-Effect rows c) spent t)

  -- A code is redeemed only from its unconsumed row, which then is the code's tombstone.
  redeemed_inversion :
      (db : Driver) (code family_id : String) (at : ℕ) (rows : List AuthCodeRow)
      {rows' : List AuthCodeRow} {ac : AuthCode}
      → consume_auth_code hash db code family_id at rows ≡ (rows', redeemed ac)
      → (x : AuthCodeRow) × (first (unconsumed (hash code)) rows ≡ some x)
        × (rows' ≡ update (unconsumed (hash code)) (redeem_row family_id at) rows)
        × (ac ≡ scan_code code (redeem_row family_id at x))
  unfolding consume_auth_code
  redeemed_inversion db code family_id at rows e = ground arith

  redeemed-tombstone :
      (db : Driver) (code family_id : String) (at : ℕ) (rows : List AuthCodeRow)
      {rows' : List AuthCodeRow} {ac : AuthCode}
      → OneRowPerHash rows
      → consume_auth_code hash db code family_id at rows ≡ (rows', redeemed ac)
      → (x : AuthCodeRow) × (entry hash_of (hash code) rows' ≡ some (redeem_row family_id at x))
        × (ac ≡ scan_code code (redeem_row family_id at x))
        × OneRowPerHash rows'
  redeemed-tombstone db code family_id at rows d e =
      let (x, hit, changed, scanned) = redeemed_inversion db code family_id at rows e in
      let h = hash code in
      (
        x,
        rw changed (
            entry-update hash_of h (unconsumed h) (redeem_row family_id at) rows (λ y. refl)
            ∙ map-some _ (entry_of_first hash_of h _ rows d hit).0
            ∙ rw (first_holds (unconsumed h) rows hit)),
        scanned,
        Effect-OneRowPerHash (redeemed_by h family_id at changed) d,
      )

  -- A code that was redeemed, from a table with one row for each hash, is from then on answered as
  -- a reuse by a driver that answers. The answer names the client and the family of the
  -- redemption, whatever family the replay brings and whatever calls come between.
  pub consume_auth_code-reused :
      (db db' : Driver) (code family_id family_id' : String) (at at' : ℕ) (rows : List AuthCodeRow)
      {rows' : List AuthCodeRow} {ac : AuthCode} (cs : List (Driver × CodeCall))
      → OneRowPerHash rows
      → IsUp db'
      → consume_auth_code hash db code family_id at rows ≡ (rows', redeemed ac)
      → (seen : AuthCode) × (consume_auth_code hash db' code family_id' at' (run rows' cs)
          ≡ (run rows' cs, reused seen))
        × (seen.family_id ≡ family_id)
        × (seen.client_id ≡ ac.client_id)
  unfolding consume_auth_code
  consume_auth_code-reused db db' code family_id family_id' at at' rows {rows'} cs d ready e =
      let (x, tomb, scanned, d') = redeemed-tombstone db code family_id at rows d e in
      let h = hash code in
      let later = run-tombstone rows' cs h refl tomb in
      let dl = run-OneRowPerHash rows' cs d' in
      let not_live : first (unconsumed h) (run rows' cs) ≡ none =
        first_of_entry hash_of h _ (run rows' cs) dl later in
      let spent : first (consumed h) (run rows' cs) ≡ some (redeem_row family_id at x) =
        first_of_entry hash_of h _ (run rows' cs) dl later in
      (
        scan_tombstone code (redeem_row family_id at x),
        ground (arith, ready 0, ready 1, not_live, spent),
        refl,
        ap (λ c. c.client_id) (sym scanned),
      )

  not_redeemed :
      (db : Driver) (code family_id : String) (at : ℕ) (rows : List AuthCodeRow) {x : AuthCodeRow}
      → OneRowPerHash rows
      → is_some x.consumed_at ≡ true
      → entry hash_of (hash code) rows ≡ some x
      → is_redeemed (consume_auth_code hash db code family_id at rows).1 ≡ false
  unfolding consume_auth_code
  not_redeemed db code family_id at rows d spent t =
      let not_live : first (unconsumed (hash code)) rows ≡ none =
        first_of_entry hash_of (hash code) _ rows d t ∙ ground (arith, spent) in
      ground (arith, not_live)

  redeems_spent :
      (code : String) (rows : List AuthCodeRow) (c : Driver × CodeCall) {x : AuthCodeRow}
      → OneRowPerHash rows
      → is_some x.consumed_at ≡ true
      → entry hash_of (hash code) rows ≡ some x
      → redeems code rows c ≡ false
  unfolding redeems
  redeems_spent code rows (db, save ac) d spent t = refl
  redeems_spent code rows (db, redeem c family_id at) d spent t = elim (Bool-cases (c == code)) [
    | inl same ↦
        rw ((eq_iff c code).0 same, eq_refl) (not_redeemed db code family_id at rows d spent t)
    | inr other ↦ rw other
  ]

  redeems-tombstone :
      (code : String) (rows : List AuthCodeRow) (c : Driver × CodeCall)
      → OneRowPerHash rows
      → redeems code rows c ≡ true
      → (x : AuthCodeRow) × (is_some x.consumed_at ≡ true)
        × (entry hash_of (hash code) (step rows c) ≡ some x)
  unfolding redeems step
  redeems-tombstone code rows (db, save ac) d h = cc
  redeems-tombstone code rows (db, redeem c family_id at) d h =
      let given = consume_auth_code hash db c family_id at rows in
      let (ac, answer) =
        is_redeemed_inversion given.1 (and_right (c == code) (is_redeemed given.1) h) in
      let same : c ≡ code = (eq_iff c code).0 (and_left (c == code) (is_redeemed given.1) h) in
      let (x, tomb, _, _) =
        redeemed-tombstone db c family_id at rows d (ap (λ o. (given.0, o)) answer) in
      (
        redeem_row family_id at x,
        refl,
        subst (λ s. entry hash_of (hash s) given.0 ≡ some (redeem_row family_id at x)) same tomb,
      )

  times_redeemed_spent :
      (code : String) (rows : List AuthCodeRow) (cs : List (Driver × CodeCall)) {x : AuthCodeRow}
      → OneRowPerHash rows
      → is_some x.consumed_at ≡ true
      → entry hash_of (hash code) rows ≡ some x
      → times_redeemed code rows cs ≡ 0
  unfolding times_redeemed
  times_redeemed_spent code rows [] d spent t = refl
  times_redeemed_spent code rows (c ∷ cs) d spent t =
      let effect = step-Effect rows c in
      rw (redeems_spent code rows c d spent t) (
        omega (
          arith,
          times_redeemed_spent code (step rows c) cs (Effect-OneRowPerHash effect d) spent
              (Effect-tombstone (hash code) effect spent t),
        ))

  -- From a table with one row for each hash: of any number of redemptions of one code, in any
  -- order and among any other calls, at most one succeeds.
  pub times_redeemed-le-one :
      (code : String) (rows : List AuthCodeRow) (cs : List (Driver × CodeCall))
      → OneRowPerHash rows
      → times_redeemed code rows cs ≤ 1
  unfolding times_redeemed
  times_redeemed-le-one code rows [] d = omega arith
  times_redeemed-le-one code rows (c ∷ cs) d =
      let d' = Effect-OneRowPerHash (step-Effect rows c) d in
      elim (Bool-cases (redeems code rows c)) [
        | inl won ↦
            let (x, spent, t) = redeems-tombstone code rows c d won in
            rw won (omega (arith, times_redeemed_spent code (step rows c) cs d' spent t))
        | inr lost ↦ rw lost (omega (arith, times_redeemed-le-one code (step rows c) cs d'))
      ]

  -- A code that SaveAuthCode stored is redeemed, by a driver that answers, with all its fields,
  -- and with the family that the redemption brings.
  pub consume_auth_code-save :
      (db db' : Driver) (ac : AuthCode) (family_id : String) (at : ℕ) (rows : List AuthCodeRow)
      {rows' : List AuthCodeRow}
      → IsUp db'
      → save_auth_code hash db ac rows ≡ (rows', saved)
      → (consume_auth_code hash db' ac.code family_id at rows').1
        ≡ redeemed (record ac { family_id = family_id })
  unfolding save_auth_code consume_auth_code first
  consume_auth_code-save db db' ac family_id at rows {rows'} ready e =
      let changed : rows' ≡ row_of hash ac ∷ rows = ground arith in rw (changed, ready 0, eq_refl)
