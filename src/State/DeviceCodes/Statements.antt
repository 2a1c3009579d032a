-- ===== src/State/DeviceCodes/Statements.antt =====
-- The statements of PollDeviceCode, on the row that they are about: the device code's own.
use tempogate.Common.{
  ℕ, String, ◌≡◌, refl, ap, ◌∙◌, ◌⊎◌, inl, inr, true, false, Option, none, some, List, ◌==◌, arith,
  Bool-cases, any, update, entry, Distinct, entry_key, entry-update, Distinct-update,
  first_of_entry, none_of_first, count_none, update_none, eq_refl,
}
use tempogate.State.Driver.{Driver}
use tempogate.State.DeviceCodes.{
  DeviceCodeRow, PollResult, polled, answered, hash_of, same_stamp, claimable, stamp_row, slow_row,
  is_one, poll_branch, poll_read, poll_swap, slow_down,
}

-- The SELECT fails, or leads where the row's stamp and interval say.
pub poll_read-entry :
    (db : Driver) (h : String) (now : ℕ) (rows : List DeviceCodeRow) {r : DeviceCodeRow}
    → entry hash_of h rows ≡ some r
    → (poll_read db h now rows ≡ answered PollResult.failed)
      ⊎ (poll_read db h now rows ≡ poll_branch now r)
unfolding poll_read entry
poll_read-entry db h now rows found = elim (Bool-cases (db 0)) [
  | inl down ↦ inl (rw down refl)
  | inr up ↦ inr (rw (up, found) refl)
]

-- What a swap comes to: the table is as it was and the poll has not passed, or the row had the stamp
-- that the poll had read, and has the poll's own now.
pub record Swapped (h : String) (now : ℕ) (prev : Option ℕ) (r : DeviceCodeRow)
    (rows : List DeviceCodeRow) : Type 0 where
  pub same : same_stamp r.last_polled_at prev ≡ true
  pub found : entry hash_of h rows ≡ some (stamp_row now r)

entry-claimed :
    (h : String) (now : ℕ) (prev : Option ℕ) (rows : List DeviceCodeRow) {r : DeviceCodeRow}
    → entry hash_of h rows ≡ some r
    → same_stamp r.last_polled_at prev ≡ true
    → entry hash_of h (update (claimable h prev) (stamp_row now) rows) ≡ some (stamp_row now r)
entry-claimed h now prev rows {r = r} found same =
    entry-update hash_of h (claimable h prev) (stamp_row now) rows (λ x. refl)
    ∙ rw (found, entry_key hash_of h rows found, same, eq_refl h) refl

any-claimed :
    (h : String) (prev : Option ℕ) (rows : List DeviceCodeRow) {r : DeviceCodeRow}
    → Distinct hash_of rows
    → entry hash_of h rows ≡ some r
    → same_stamp r.last_polled_at prev ≡ false
    → any (claimable h prev) rows ≡ false
any-claimed h prev rows one found other = none_of_first (claimable h prev) rows (
    first_of_entry hash_of h (λ x. same_stamp x.last_polled_at prev) rows one found ∙ rw other refl)

pub poll_swap-entry :
    (db : Driver) (h : String) (now : ℕ) (prev : Option ℕ) (rows : List DeviceCodeRow)
    {r : DeviceCodeRow}
    → Distinct hash_of rows
    → entry hash_of h rows ≡ some r
    → (((poll_swap db h now prev rows).0 ≡ rows)
        × (((poll_swap db h now prev rows).1 ≡ none)
            ⊎ ((poll_swap db h now prev rows).1 ≡ some PollResult.failed)))
      ⊎ Swapped h now prev r (poll_swap db h now prev rows).0
unfolding poll_swap is_one
poll_swap-entry db h now prev rows {r = r} one found = elim (Bool-cases (db 1)) [
  | inl down ↦ rw down (inl (refl, inr refl))
  | inr up ↦ elim (Bool-cases (same_stamp r.last_polled_at prev)) [
    | inl same ↦ inr (record {
      same = same;
      found =
          let written : (poll_swap db h now prev rows).0
              ≡ update (claimable h prev) (stamp_row now) rows =
            ground (arith, up) in
          ap (entry hash_of h) written ∙ entry-claimed h now prev rows found same;
    })
    | inr other ↦
        let lost = any-claimed h prev rows one found other in
        let kept = update_none (claimable h prev) (stamp_row now) rows lost in
        let zero_rows = count_none (claimable h prev) rows lost in
        elim (Bool-cases (db 2)) [
          | inl broken ↦ rw (up, broken) (inl (kept, inr refl))
          | inr fine ↦ rw (up, fine, zero_rows) (inl (kept, inl refl))
        ]
  ]
]

pub poll_swap-Distinct :
    (db : Driver) (h : String) (now : ℕ) (prev : Option ℕ) (rows : List DeviceCodeRow)
    → Distinct hash_of rows
    → Distinct hash_of (poll_swap db h now prev rows).0
unfolding poll_swap
poll_swap-Distinct db h now prev rows one =
    let stamped = Distinct-update hash_of (claimable h prev) (stamp_row now) rows (λ x. refl) one in
    ground (arith, one, stamped)

pub slow_down-Distinct :
    (db : Driver) (h : String) (now : ℕ) (rows : List DeviceCodeRow)
    → Distinct hash_of rows
    → Distinct hash_of (slow_down db h now rows).0
unfolding slow_down
slow_down-Distinct db h now rows one =
    let slowed =
      Distinct-update hash_of (λ r. hash_of r == h) (slow_row now) rows (λ x. refl) one in
    ground (arith, one, slowed)

-- The slow_down fails and leaves the row as it was, or stamps it and raises its interval.
pub slow_down-entry :
    (db : Driver) (h : String) (now : ℕ) (rows : List DeviceCodeRow) {r : DeviceCodeRow}
    → entry hash_of h rows ≡ some r
    → ((slow_down db h now rows).0 ≡ rows) × ((slow_down db h now rows).1 ≡ PollResult.failed)
      ⊎ (entry hash_of h (slow_down db h now rows).0 ≡ some (slow_row now r))
        × ((slow_down db h now rows).1 ≡ polled true)
unfolding slow_down
slow_down-entry db h now rows {r = r} found = elim (Bool-cases (db 3)) [
  | inl down ↦ rw down (inl (refl, refl))
  | inr up ↦ rw up (
      inr (
        entry-update hash_of h (λ x. hash_of x == h) (slow_row now) rows (λ x. refl)
            ∙ rw (found, entry_key hash_of h rows found, eq_refl h) refl,
        refl,
      ))
]
