-- ===== src/State/DeviceCodes/Pace/Invariant.antt =====
-- PollDeviceCode: the invariant of the worlds that its statements lead to.
use Prim.Native.Nat.{compare, Ordering}
use mathlib.Core.Option
use tempogate.Common.{
  ℕ, ◌*◌, ◌≤◌, String, ◌≡◌, refl, sym, ap, true, false, Option, none, some, List, [], ◌∷◌, arith,
  Bool-cases, inl, inr, entry, Distinct,
}
use tempogate.State.Driver.{Driver}
use tempogate.State.DeviceCodes.{
  DeviceCodeRow, PollResult, polled, PollNext, swapping, slowing, answered, hash_of, second,
  well_paced, same_stamp, stamp_row, slow_row, poll_branch, poll_read, poll_swap, slow_down,
}
use tempogate.State.DeviceCodes.Statements.{
  poll_read-entry, poll_swap-entry, poll_swap-Distinct, slow_down-entry, slow_down-Distinct,
}
use tempogate.State.DeviceCodes.Pace.{
  Phase, ready, World, move, noted, turn, behind_swap, pace_of, IsPast, NotLater, Spaced,
}

-- What a poll that is about to swap knows.
abbrev pub KnowsPace : ℕ → Phase → Type 0
KnowsPace least (ready now (swapping prev)) = well_paced prev least now ≡ true
KnowsPace least _ = Unit

-- The latest passed poll is no later than the row's stamp.
abbrev pub Covers : Option ℕ → List ℕ → Type 0
Covers last [] = Unit
Covers none (n ∷ ns) = ⊥
Covers (some l) (n ∷ ns) = n ≤ l

pub record Inv (h : String) (least : ℕ) (w : World) : Type 0 where
  pub row : DeviceCodeRow
  pub own : entry hash_of h w.rows ≡ some row
  pub one : Distinct hash_of w.rows
  pub floor : least ≤ row.interval_seconds
  pub covers : Covers row.last_polled_at w.passed
  pub spaced : Spaced (least * second) w.passed
  pub knows : (i : ℕ) → KnowsPace least (w.phase i)

pub move-Knows :
    (least : ℕ) (phase : ℕ → Phase) (i : ℕ) (ph : Phase)
    → ((j : ℕ) → KnowsPace least (phase j))
    → KnowsPace least ph
    → (j : ℕ) → KnowsPace least (move phase i ph j)
move-Knows least phase i ph all one j = go (compare i j)
  where
    go : (o : Ordering) → KnowsPace least (elim o [ Ordering.eq ↦ ph | _ ↦ phase j ])
    go Ordering.eq = one
    go Ordering.lt = all j
    go Ordering.gt = all j

pub well_paced-least :
    (last : Option ℕ) (least interval now : ℕ)
    → least ≤ interval
    → well_paced last interval now ≡ true
    → well_paced last least now ≡ true
well_paced-least none least interval now l p = refl
well_paced-least (some a) least interval now l p = ground (arith, l, p)

branch-Knows :
    (least now : ℕ) (row : DeviceCodeRow)
    → least ≤ row.interval_seconds
    → KnowsPace least (ready now (poll_branch now row))
branch-Knows least now row l =
    elim (Bool-cases (well_paced row.last_polled_at row.interval_seconds now)) [
      | inl paced ↦
          rw paced (well_paced-least row.last_polled_at least row.interval_seconds now l paced)
      | inr early ↦ rw early tt
    ]

noted-branch :
    (now : ℕ) (row : DeviceCodeRow) (passed : List ℕ)
    → noted now (poll_branch now row) passed ≡ passed
noted-branch now row passed =
    elim (Bool-cases (well_paced row.last_polled_at row.interval_seconds now)) [
      | inl paced ↦ rw paced refl
      | inr early ↦ rw early refl
    ]

-- The stamp that a winning swap replaces is the one that the poll was paced by.
pub swap-Spaced :
    (least : ℕ) (last prev : Option ℕ) (now : ℕ) (passed : List ℕ)
    → Covers last passed
    → Spaced (least * second) passed
    → well_paced prev least now ≡ true
    → same_stamp last prev ≡ true
    → Covers (some now) passed × Spaced (least * second) (now ∷ passed)
swap-Spaced least last prev now [] c s p e = (tt, tt)
swap-Spaced least none prev now (n ∷ ns) c s p e = absurd c
swap-Spaced least (some a) none now (n ∷ ns) c s p e = cc
swap-Spaced least (some a) (some b) now (n ∷ ns) c s p e =
    (ground (arith, c, p, e), (ground (arith, c, p, e), s))

pub swap-noted :
    (gap now : ℕ) (passed : List ℕ) (o : Option PollResult)
    → Covers (some now) passed
    → Spaced gap passed
    → Spaced gap (now ∷ passed)
    → Covers (some now) (noted now (behind_swap o) passed)
      × Spaced gap (noted now (behind_swap o) passed)
swap-noted gap now passed (some (polled false)) c s s' = (omega arith, s')
swap-noted gap now passed (some (polled true)) c s s' = (c, s)
swap-noted gap now passed (some PollResult.not_found) c s s' = (c, s)
swap-noted gap now passed (some PollResult.failed) c s s' = (c, s)
swap-noted gap now passed none c s s' = (c, s)

swap-Knows : (least now : ℕ) (o : Option PollResult) → KnowsPace least (ready now (behind_swap o))
swap-Knows least now none = tt
swap-Knows least now (some r) = tt

pub slow-Covers :
    (last : Option ℕ) (now : ℕ) (passed : List ℕ)
    → IsPast last now
    → Covers last passed
    → Covers (some now) passed
slow-Covers last now [] n c = tt
slow-Covers none now (m ∷ ms) n c = absurd c
slow-Covers (some l) now (m ∷ ms) n c = omega arith

pub same_pace :
    (o : Option DeviceCodeRow) (r : DeviceCodeRow)
    → Option.map pace_of o ≡ some (pace_of r)
    → (r' : DeviceCodeRow) × (o ≡ some r')
      × (r.last_polled_at ≡ r'.last_polled_at)
      × (r.interval_seconds ≡ r'.interval_seconds)
same_pace none r e = cc
same_pace (some r') r e =
    let same : pace_of r' ≡ pace_of r = cc e in
    (r', refl, sym (ap (λ x. x.0) same), sym (ap (λ x. x.1) same))

module _ (h : String) (least : ℕ) (w : World) (v : Inv h least w) where
  turn-Inv :
      (i now : ℕ) (rows : List DeviceCodeRow) (next : PollNext) (r : DeviceCodeRow)
      → entry hash_of h rows ≡ some r
      → Distinct hash_of rows
      → least ≤ r.interval_seconds
      → Covers r.last_polled_at (noted now next w.passed)
      → Spaced (least * second) (noted now next w.passed)
      → KnowsPace least (ready now next)
      → Inv h least (turn w i now rows next)
  turn-Inv i now rows next r own one floor covers spaced known = record {
    row = r;
    own = own;
    one = one;
    floor = floor;
    covers = covers;
    spaced = spaced;
    knows = move-Knows least w.phase i (ready now next) v.knows known;
  }

  -- A statement that leaves the table as it was.
  keep-Inv :
      (i now : ℕ) (rows : List DeviceCodeRow) (next : PollNext)
      → rows ≡ w.rows
      → noted now next w.passed ≡ w.passed
      → KnowsPace least (ready now next)
      → Inv h least (turn w i now rows next)
  keep-Inv i now rows next same none_passed known =
      turn-Inv i now rows next v.row (rw same v.own) (rw same v.one) v.floor
        (rw none_passed v.covers) (rw none_passed v.spaced) known

  pub read-Inv :
      (db : Driver) (i now : ℕ) → Inv h least (turn w i now w.rows (poll_read db h now w.rows))
  read-Inv db i now = elim (poll_read-entry db h now w.rows v.own) [
    | inl down ↦ rw down (keep-Inv i now w.rows (answered PollResult.failed) refl refl tt)
    | inr branch ↦ rw branch (
        keep-Inv i now w.rows (poll_branch now v.row) refl (noted-branch now v.row w.passed)
          (branch-Knows least now v.row v.floor))
  ]

  pub swap-Inv :
      (db : Driver) (i now : ℕ) (prev : Option ℕ)
      → well_paced prev least now ≡ true
      → Inv h least (
          turn w i now
            (poll_swap db h now prev w.rows).0
            (behind_swap (poll_swap db h now prev w.rows).1))
  swap-Inv db i now prev paced = elim (poll_swap-entry db h now prev w.rows v.one v.own) [
    | inl (same, inl lost) ↦
        rw lost (keep-Inv i now (poll_swap db h now prev w.rows).0 slowing same refl tt)
    | inl (same, inr failed) ↦ rw failed (
        keep-Inv i now (poll_swap db h now prev w.rows).0 (answered PollResult.failed) same refl tt)
    | inr won ↦
        let o = (poll_swap db h now prev w.rows).1 in
        let (c, s) =
          swap-Spaced least v.row.last_polled_at prev now w.passed v.covers v.spaced paced
            won.same in
        let (covers, spaced) = swap-noted (least * second) now w.passed o c v.spaced s in
        turn-Inv i now (poll_swap db h now prev w.rows).0 (behind_swap o) (stamp_row now v.row)
          won.found (poll_swap-Distinct db h now prev w.rows v.one) v.floor covers spaced
          (swap-Knows least now o)
  ]

  pub slow-Inv :
      (db : Driver) (i now : ℕ)
      → NotLater (entry hash_of h w.rows) now
      → Inv h least
          (turn w i now (slow_down db h now w.rows).0 (answered (slow_down db h now w.rows).1))
  slow-Inv db i now later = elim (slow_down-entry db h now w.rows v.own) [
    | inl (same, failed) ↦
        rw failed
          (keep-Inv i now (slow_down db h now w.rows).0 (answered PollResult.failed) same refl tt)
    | inr (slowed, told) ↦ rw told (
        turn-Inv i now (slow_down db h now w.rows).0 (answered (polled true)) (slow_row now v.row)
          slowed (slow_down-Distinct db h now w.rows v.one) (omega (arith, v.floor))
          (slow-Covers v.row.last_polled_at now w.passed (rw v.own at later) v.covers) v.spaced tt)
  ]
