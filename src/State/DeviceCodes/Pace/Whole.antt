-- ===== src/State/DeviceCodes/Pace/Whole.antt =====
-- PollDeviceCode: a whole call, with nothing between its statements, keeps the invariant.
use tempogate.Common.{
  ℕ, ◌*◌, ◌≤◌, String, ◌≡◌, true, Option, none, some, List, arith, Bool-cases, inl, inr, entry,
  Distinct,
}
use tempogate.State.Driver.{Driver}
use tempogate.State.DeviceCodes.{
  DeviceCodeRow, PollResult, answered, hash_of, second, well_paced, stamp_row, slow_row, poll_read,
  poll_swap, slow_down, after_swap, behind_read, poll_device_code,
}
use tempogate.State.DeviceCodes.Statements.{
  poll_read-entry, poll_swap-entry, poll_swap-Distinct, slow_down-entry, slow_down-Distinct,
}
use tempogate.State.DeviceCodes.Pace.{World, noted, behind_swap, IsPast, Spaced}
use tempogate.State.DeviceCodes.Pace.Invariant.{
  Covers, Inv, well_paced-least, swap-Spaced, swap-noted, slow-Covers,
}

module _ (h : String) (least : ℕ) (w : World) (v : Inv h least w) where
  -- The table and the answer that a whole call leaves.
  abbrev pub Leaves : ℕ → List DeviceCodeRow × PollResult → Type 0
  Leaves now (rows, r) =
      Inv h least (record w { rows = rows; passed = noted now (answered r) w.passed })

  slow-Leaves :
      (db : Driver) (now : ℕ) (rows : List DeviceCodeRow) (r : DeviceCodeRow)
      → entry hash_of h rows ≡ some r
      → Distinct hash_of rows
      → least ≤ r.interval_seconds
      → Covers r.last_polled_at w.passed
      → IsPast r.last_polled_at now
      → Leaves now (slow_down db h now rows)
  slow-Leaves db now rows r own one floor covers past = elim (slow_down-entry db h now rows own) [
    | inl (same, failed) ↦ rw failed (record {
      row = r;
      own = rw same own;
      one = rw same one;
      floor = floor;
      covers = covers;
      spaced = v.spaced;
      knows = v.knows;
    })
    | inr (slowed, told) ↦ rw told (record {
      row = slow_row now r;
      own = slowed;
      one = slow_down-Distinct db h now rows one;
      floor = omega (arith, floor);
      covers = slow-Covers r.last_polled_at now w.passed past covers;
      spaced = v.spaced;
      knows = v.knows;
    })
  ]

  after_swap-Leaves :
      (db : Driver) (now : ℕ) (p : List DeviceCodeRow × Option PollResult) (r : DeviceCodeRow)
      → entry hash_of h p.0 ≡ some r
      → Distinct hash_of p.0
      → least ≤ r.interval_seconds
      → IsPast r.last_polled_at now
      → Covers r.last_polled_at w.passed
      → Covers r.last_polled_at (noted now (behind_swap p.1) w.passed)
        × Spaced (least * second) (noted now (behind_swap p.1) w.passed)
      → Leaves now (after_swap db h now p)
  after_swap-Leaves db now (rows, none) r own one floor past covers noting =
      slow-Leaves db now rows r own one floor covers past
  after_swap-Leaves db now (rows, some a) r own one floor past covers noting = record {
    row = r;
    own = own;
    one = one;
    floor = floor;
    covers = noting.0;
    spaced = noting.1;
    knows = v.knows;
  }

  swap-Leaves :
      (db : Driver) (now : ℕ)
      → well_paced v.row.last_polled_at least now ≡ true
      → IsPast v.row.last_polled_at now
      → Leaves now (after_swap db h now (poll_swap db h now v.row.last_polled_at w.rows))
  swap-Leaves db now paced past =
      let prev = v.row.last_polled_at in
      let p = poll_swap db h now prev w.rows in
      let one = poll_swap-Distinct db h now prev w.rows v.one in
      elim (poll_swap-entry db h now prev w.rows v.one v.own) [
        | inl (same, inl lost) ↦
            after_swap-Leaves db now p v.row (rw same v.own) one v.floor past v.covers
              (rw lost (v.covers, v.spaced))
        | inl (same, inr failed) ↦
            after_swap-Leaves db now p v.row (rw same v.own) one v.floor past v.covers
              (rw failed (v.covers, v.spaced))
        | inr won ↦
            let (c, s) =
              swap-Spaced least prev prev now w.passed v.covers v.spaced paced won.same in
            after_swap-Leaves db now p (stamp_row now v.row) won.found one v.floor (omega arith) c
              (swap-noted (least * second) now w.passed p.1 c v.spaced s)
      ]

  read-Leaves :
      (db : Driver) (now : ℕ)
      → IsPast v.row.last_polled_at now
      → Leaves now (behind_read db (λ seen. seen) h now w.rows (poll_read db h now w.rows))
  read-Leaves db now past = elim (poll_read-entry db h now w.rows v.own) [
    | inl down ↦ rw down v
    | inr branch ↦ elim (Bool-cases (well_paced v.row.last_polled_at v.row.interval_seconds now)) [
      | inl paced ↦
          rw (branch, paced)
            (swap-Leaves db now
              (well_paced-least v.row.last_polled_at least v.row.interval_seconds now v.floor paced)
              past)
      | inr early ↦
          rw (branch, early) (slow-Leaves db now w.rows v.row v.own v.one v.floor v.covers past)
    ]
  ]

  pub call-Inv :
      (hash : String → String) (db : Driver) (code : String) (now : ℕ)
      → hash code ≡ h
      → IsPast v.row.last_polled_at now
      → Leaves now (poll_device_code hash db (λ seen. seen) code now w.rows)
  unfolding poll_device_code
  call-Inv hash db code now named past = rw named (read-Leaves db now past)
