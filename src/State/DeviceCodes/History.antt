-- ===== src/State/DeviceCodes/History.antt =====
-- Histories of the device_codes table: the methods that write it, in any order, each under a
-- driver of its own. The codes that the server saves are pending and carry no identity.
use tempogate.Common.{
  ℕ, String, ◌≡◌, sym, ap, ◌∙◌, first-delete, eq_refl, Bool, true, not, ◌&&◌, ◌||◌, none, List, [],
  ◌∷◌, arith, ◌==◌, eq_iff, is_some, is_none, first, update, delete, All, All-update, All-delete,
  Bool-cases, Option-cases, inl, inr,
}
use tempogate.Oidc.Model.{DeviceCode, Identity}
use tempogate.State.Driver.{Driver, IsUp}
use tempogate.State.DeviceCodes.{
  PollResult, saved, scan_device, null_string, string_of, lookup_device_code_by_device_code,
  lookup_device_code_by_user_code, DeviceCodeRow, LookupResult, found, hash_of, pending_for,
  approve_row, deny_row, stamp_row, slow_row, claimable, slow_down, row_of, decide_device_code,
  approve_device_code, deny_device_code, save_device_code, poll_device_code, consume_device_code,
}

pub data DeviceCall : Type 0 where
  save : DeviceCode → DeviceCall
  poll : String → ℕ → DeviceCall
  approve : String → Identity → ℕ → DeviceCall
  deny : String → ℕ → DeviceCall
  consume : String → DeviceCall

-- A code as handleDeviceAuthorization mints it.
abbrev pub IsFresh : DeviceCall → Type 0
IsFresh (save dc) =
    (dc.approved_at ≡ none)
    × (dc.denied_at ≡ none)
    × (dc.connector_id ≡ "")
    × (dc.subject ≡ "")
    × (dc.email ≡ "")
IsFresh _ = Unit

-- A row is not both approved and denied, and one that is not approved names nobody.
abbrev pub is_consistent : DeviceCodeRow → Bool
is_consistent r =
    not (is_some r.approved_at && is_some r.denied_at)
    && (is_some r.approved_at || (is_none r.connector_id && (is_none r.subject && is_none r.email)))

abbrev pub IsConsistent : DeviceCodeRow → Type 0
IsConsistent r = is_consistent r ≡ true

null_string-back : (s : String) → string_of (null_string s) ≡ s
null_string-back s = elim (Bool-cases (s == "")) [
  | inl empty ↦ rw empty (sym ((eq_iff s "").0 empty))
  | inr full ↦ rw full
]

module _ (hash : String → String) where
  unfoldable pub step : List DeviceCodeRow → Driver × DeviceCall → List DeviceCodeRow
  step rows (db, save dc) = (save_device_code hash db dc rows).0
  step rows (db, poll code now) = (poll_device_code hash db (λ seen. seen) code now rows).0
  step rows (db, approve user_code id now) = (approve_device_code db user_code id now rows).0
  step rows (db, deny user_code now) = (deny_device_code db user_code now rows).0
  step rows (db, consume code) = (consume_device_code hash db code rows).0

  unfoldable pub run : List DeviceCodeRow → List (Driver × DeviceCall) → List DeviceCodeRow
  run rows [] = rows
  run rows (c ∷ cs) = run (step rows c) cs

  -- The NULLs of a row come back as the empty strings that they were.
  found-row_of :
      (code : String) (dc : DeviceCode)
      → found (scan_device code (row_of hash dc)) ≡ found (record dc { code = code })
  found-row_of code dc = ground (
    arith,
    null_string-back dc.connector_id,
    null_string-back dc.subject,
    null_string-back dc.email,
  )

  fresh-IsConsistent : (dc : DeviceCode) → IsFresh (save dc) → IsConsistent (row_of hash dc)
  fresh-IsConsistent dc (approved, denied, connector, subject, email) =
      ground (arith, eq_iff dc.connector_id "", eq_iff dc.subject "", eq_iff dc.email "")

  save-All :
      (db : Driver) (dc : DeviceCode) (rows : List DeviceCodeRow)
      → IsFresh (save dc)
      → All IsConsistent rows
      → All IsConsistent (save_device_code hash db dc rows).0
  unfolding save_device_code
  save-All db dc rows f a = ground (arith, fresh-IsConsistent dc f)

  slow_down-All :
      (db : Driver) (h : String) (now : ℕ) (rows : List DeviceCodeRow)
      → All IsConsistent rows
      → All IsConsistent (slow_down db h now rows).0
  unfolding slow_down
  slow_down-All db h now rows a = elim (Bool-cases (db 3)) [
    | inl down ↦ rw down a
    | inr answers ↦ rw answers (All-update IsConsistent _ (slow_row now) rows (λ x e p. p) a)
  ]

  poll-All :
      (db : Driver) (others : List DeviceCodeRow → List DeviceCodeRow) (code : String) (now : ℕ)
      (rows : List DeviceCodeRow)
      → All IsConsistent rows
      → All IsConsistent (others rows)
      → All IsConsistent (poll_device_code hash db others code now rows).0
  unfolding poll_device_code
  poll-All db others code now rows a b = elim (Option-cases (first (λ r. hash_of r == h) rows)) [
    | inl absent ↦ ground (arith, absent)
    | inr (r, e) ↦
        let swap = claimable h r.last_polled_at in
        let swapped = update swap (stamp_row now) (others rows) in
        let c : All IsConsistent swapped =
          All-update IsConsistent swap (stamp_row now) (others rows) (λ x _ q. q) b in
        let slow_seen = slow_down-All db h now (others rows) b in
        let slow_swapped = slow_down-All db h now swapped c in
        ground (arith, e, c, slow_seen, slow_swapped)
  ]
    where
      h : String
      h = hash code

  decide-All :
      (db : Driver) (now : ℕ) (set : DeviceCodeRow → DeviceCodeRow) (user_code : String)
      (rows : List DeviceCodeRow)
      → ((r : DeviceCodeRow)
          → pending_for user_code r ≡ true
          → IsConsistent r
          → IsConsistent (set r))
      → All IsConsistent rows
      → All IsConsistent (decide_device_code db now set user_code rows).0
  unfolding decide_device_code
  decide-All db now set user_code rows keep a =
      let c : All IsConsistent (update (pending_for user_code) set rows) =
        All-update IsConsistent (pending_for user_code) set rows keep a in
      ground (arith, a, c)

  step-All :
      (rows : List DeviceCodeRow) (c : Driver × DeviceCall)
      → IsFresh c.1
      → All IsConsistent rows
      → All IsConsistent (step rows c)
  unfolding step approve_device_code deny_device_code consume_device_code
  step-All rows (db, save dc) f a = save-All db dc rows f a
  step-All rows (db, poll code now) f a = poll-All db (λ seen. seen) code now rows a a
  step-All rows (db, approve user_code id now) f a =
      decide-All db now (approve_row id now) user_code rows (λ r e q. ground arith) a
  step-All rows (db, deny user_code now) f a =
      decide-All db now (deny_row now) user_code rows (λ r e q. ground arith) a
  step-All rows (db, consume code) f a =
      let c : All IsConsistent (delete (λ x. hash_of x == hash code) rows) =
        All-delete IsConsistent _ rows a in
      ground (arith, a, c)

  -- A history that saves fresh codes keeps every row consistent, when all rows are so at first: no
  -- row comes to be both approved and denied, and no row that nobody approved comes to carry an
  -- identity.
  pub run-IsConsistent :
      (rows : List DeviceCodeRow) (cs : List (Driver × DeviceCall))
      → All (λ c. IsFresh c.1) cs
      → All IsConsistent rows
      → All IsConsistent (run rows cs)
  unfolding run
  run-IsConsistent rows [] f a = a
  run-IsConsistent rows (c ∷ cs) f a = run-IsConsistent (step rows c) cs f.1 (step-All rows c f.0 a)

  -- A device code that was consumed is gone: a second consume, a lookup and a poll of it, under a
  -- driver that answers, report that it is not found, and change nothing.
  pub consume_device_code-once :
      (db db' : Driver) (code : String) (now : ℕ) (rows : List DeviceCodeRow)
      {rows' : List DeviceCodeRow} {dc : DeviceCode}
      → IsUp db'
      → consume_device_code hash db code rows ≡ (rows', found dc)
      → (consume_device_code hash db' code rows' ≡ (rows', LookupResult.not_found))
        × (lookup_device_code_by_device_code hash db' code rows' ≡ LookupResult.not_found)
        × (poll_device_code hash db' (λ seen. seen) code now rows' ≡ (rows', PollResult.not_found))
  unfolding consume_device_code lookup_device_code_by_device_code poll_device_code
  consume_device_code-once db db' code now rows {rows'} ready e =
      let changed : rows' ≡ delete (λ x. hash_of x == hash code) rows = ground arith in
      let gone : first (λ x. hash_of x == hash code) rows' ≡ none =
        ap (first (λ x. hash_of x == hash code)) changed ∙ first-delete _ rows in
      (rw (ready 0, gone), rw (ready 0, gone), rw (ready 0, gone))

  -- A code that SaveDeviceCode stored is read back by either of its codes, under a driver that
  -- answers, with all its fields, but for the device code itself, which the lookup by user code
  -- leaves empty.
  pub lookup_device_code-save :
      (db db' : Driver) (dc : DeviceCode) (rows : List DeviceCodeRow) {rows' : List DeviceCodeRow}
      → IsUp db'
      → save_device_code hash db dc rows ≡ (rows', saved)
      → (lookup_device_code_by_device_code hash db' dc.code rows' ≡ found dc)
        × (lookup_device_code_by_user_code db' dc.user_code rows' ≡ found (record dc { code = "" }))
  unfolding save_device_code lookup_device_code_by_device_code lookup_device_code_by_user_code first
  lookup_device_code-save db db' dc rows {rows'} ready e =
      let changed : rows' ≡ row_of hash dc ∷ rows = ground arith in
      (
        rw (changed, ready 0, eq_refl) (found-row_of dc.code dc),
        rw (changed, ready 0, eq_refl) (found-row_of "" dc),
      )
