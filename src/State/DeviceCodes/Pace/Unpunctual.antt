-- ===== src/State/DeviceCodes/Pace/Unpunctual.antt =====
-- PollDeviceCode with a clock reading that is older than the row's stamp.
use tempogate.Common.{
  ℕ, ◌+◌, ◌*◌, ◌<◌, String, ◌≡◌, refl, ◌∙◌, Bool, true, false, Option, none, some, List, [], ◌∷◌,
  ◌==◌, eq_iff, eq_refl, arith, Bool-cases, inl, inr, first, any, count, entry, Distinct, entry_key,
  entry-update, Distinct-update, count_none, any_anti, and_left,
}
use tempogate.State.Driver.{up}
use tempogate.State.DeviceCodes.{
  DeviceCodeRow, PollResult, polled, hash_of, second, well_paced, same_stamp, claimable, stamp_row,
  slow_row, is_one, poll_read, poll_swap, slow_down, poll_device_code,
}

same_stamp_self : (s : Option ℕ) → same_stamp s s ≡ true
same_stamp_self none = refl
same_stamp_self (some a) = ground arith

count-claimable :
    (h : String) (prev : Option ℕ) (rows : List DeviceCodeRow) {r : DeviceCodeRow}
    → Distinct hash_of rows
    → entry hash_of h rows ≡ some r
    → same_stamp r.last_polled_at prev ≡ true
    → count (claimable h prev) rows ≡ 1
unfolding entry first count
count-claimable h prev [] one found same = cc
count-claimable h prev (x ∷ rows) {r = r} one found same = elim (Bool-cases (hash_of x == h)) [
  | inl hit ↦
      let own : some x ≡ some r = rw hit at found in
      let mine : x ≡ r = cc own in
      let key : hash_of x ≡ h = (eq_iff (hash_of x) h).0 hit in
      let no_more : any (claimable h prev) rows ≡ false =
        any_anti (claimable h prev) (λ y. hash_of y == h) rows (λ y. and_left _ _)
          (rw key at one.0) in
      let rest = count_none (claimable h prev) rows no_more in rw (hit, mine, same, rest) refl
  | inr miss ↦ rw miss (omega (arith, count-claimable h prev rows one.1 (rw miss at found) same))
]

module _ (hash : String → String) (code : String) where
  abbrev h : String
  h = hash code

  -- A call with nothing between its statements and a driver that answers.
  abbrev pub poll : ℕ → List DeviceCodeRow → List DeviceCodeRow × PollResult
  poll = poll_device_code hash up (λ seen. seen) code

  record Leaves (r : DeviceCodeRow) (slowed : Bool) (o : List DeviceCodeRow × PollResult)
      : Type 0 where
    told : o.1 ≡ polled slowed
    found : entry hash_of h o.0 ≡ some r
    one : Distinct hash_of o.0

  poll_paced :
      (now : ℕ) (rows : List DeviceCodeRow) {r : DeviceCodeRow}
      → Distinct hash_of rows
      → entry hash_of h rows ≡ some r
      → well_paced r.last_polled_at r.interval_seconds now ≡ true
      → Leaves (stamp_row now r) false (poll now rows)
  unfolding poll_device_code poll_read poll_swap is_one entry
  poll_paced now rows {r = r} one found paced =
      let own = claimable h r.last_polled_at in
      let one_row =
        count-claimable h r.last_polled_at rows one found (same_stamp_self r.last_polled_at) in
      rw (found, paced, one_row)
        (record {
          told = refl;
          found =
              entry-update hash_of h own (stamp_row now) rows (λ x. refl)
              ∙ rw
                  (
                    found,
                    entry_key hash_of h rows found,
                    same_stamp_self r.last_polled_at,
                    eq_refl h,
                  )
                  refl;
          one = Distinct-update hash_of own (stamp_row now) rows (λ x. refl) one;
        })

  poll_early :
      (now : ℕ) (rows : List DeviceCodeRow) {r : DeviceCodeRow}
      → Distinct hash_of rows
      → entry hash_of h rows ≡ some r
      → well_paced r.last_polled_at r.interval_seconds now ≡ false
      → Leaves (slow_row now r) true (poll now rows)
  unfolding poll_device_code poll_read slow_down entry
  poll_early now rows {r = r} one found early =
      rw (found, early)
        (record {
          told = refl;
          found =
              entry-update hash_of h (λ x. hash_of x == h) (slow_row now) rows (λ x. refl)
              ∙ rw (found, entry_key hash_of h rows found, eq_refl h) refl;
          one = Distinct-update hash_of (λ x. hash_of x == h) (slow_row now) rows (λ x. refl) one;
        })

-- The clock of the first well-paced poll.
abbrev pub first_pass : DeviceCodeRow → ℕ → ℕ
first_pass row t = t + (row.interval_seconds + 5) * second

-- A poll whose clock was read at t and whose call comes after that of a later reading puts the row's
-- stamp back: of three calls that a driver answers, on a code with a positive interval that was never
-- polled, the first passes, the second is answered slow_down with the older reading, and the third
-- passes one nanosecond after the first.
pub passed_unpunctual :
    (hash : String → String) (code : String) (t : ℕ) (rows : List DeviceCodeRow)
    (row : DeviceCodeRow)
    → Distinct hash_of rows
    → entry hash_of (hash code) rows ≡ some row
    → row.last_polled_at ≡ none
    → 0 < row.interval_seconds
    → let a = poll hash code (first_pass row t) rows in
      let b = poll hash code t a.0 in
      let c = poll hash code (first_pass row t + 1) b.0 in
      (a.1 ≡ polled false) × (b.1 ≡ polled true) × (c.1 ≡ polled false)
passed_unpunctual hash code t rows row one own fresh pos =
    let a = poll_paced hash code (first_pass row t) rows one own (rw fresh refl) in
    let b = poll_early hash code t _ a.one a.found (ground arith) in
    let c = poll_paced hash code (first_pass row t + 1) _ b.one b.found (ground arith) in
    (a.told, b.told, c.told)
