-- ===== src/State/DeviceCodes/Pace.antt =====
-- PollDeviceCode under concurrency: any number of polls of one device code, whose statements come in
-- any order, with a driver of its own each, and between them whatever other calls write that leave
-- the pace of this code alone. A world is the table, where each poll stands, and the clock readings
-- of the polls that have been answered as well-paced, latest first.
mod Invariant
mod Whole
pub mod Apart
pub mod Unpunctual
use Prim.Native.Nat.{compare, Ordering}
use mathlib.Core.Option
use tempogate.Common.{
  ℕ, ◌+◌, ◌*◌, ◌≤◌, ◌<◌, String, ◌≡◌, refl, sym, ap, ◌∙◌, Bool, true, false, Option, none, some,
  List, [], ◌∷◌, arith, if◌then◌else◌, Bool-cases, Option-cases, inl, inr, entry, Distinct,
}
use tempogate.State.Driver.{Driver}
use tempogate.State.DeviceCodes.{
  DeviceCodeRow, PollResult, polled, PollNext, swapping, slowing, answered, hash_of, second,
  well_paced, same_stamp, stamp_row, slow_row, poll_branch, poll_read, poll_swap, slow_down,
  poll_device_code,
}
use tempogate.State.DeviceCodes.Statements.{
  Swapped, poll_read-entry, poll_swap-entry, poll_swap-Distinct, slow_down-entry,
  slow_down-Distinct,
}

-- Where a poll stands: it has not begun; it has read the clock; or a statement led to what comes next.
pub data Phase : Type 0 where
  idle : Phase
  started : ℕ → Phase
  ready : ℕ → PollNext → Phase

pub record World : Type 0 where
  pub rows : List DeviceCodeRow
  pub phase : ℕ → Phase
  pub passed : List ℕ

abbrev pub move : (ℕ → Phase) → ℕ → Phase → ℕ → Phase
move phase i ph j = elim (compare i j) [ Ordering.eq ↦ ph | _ ↦ phase j ]

abbrev pub noted : ℕ → PollNext → List ℕ → List ℕ
noted now (answered (polled false)) passed = now ∷ passed
noted now (answered (polled true)) passed = passed
noted now (answered PollResult.not_found) passed = passed
noted now (answered PollResult.failed) passed = passed
noted now (swapping prev) passed = passed
noted now slowing passed = passed

-- A statement of poll i leaves the table and leads on.
abbrev pub turn : World → ℕ → ℕ → List DeviceCodeRow → PollNext → World
turn w i now rows next = record {
  rows = rows;
  phase = move w.phase i (ready now next);
  passed = noted now next w.passed;
}

abbrev pub behind_swap : Option PollResult → PollNext
behind_swap none = slowing
behind_swap (some r) = answered r

abbrev pub pace_of : DeviceCodeRow → Option ℕ × ℕ
pace_of r = (r.last_polled_at, r.interval_seconds)

-- The last stamp of a row is not later than a clock reading.
abbrev pub IsPast : Option ℕ → ℕ → Type 0
IsPast none now = Unit
IsPast (some last) now = last ≤ now

abbrev pub NotLater : Option DeviceCodeRow → ℕ → Type 0
NotLater none now = Unit
NotLater (some r) now = IsPast r.last_polled_at now

-- A slow_down stamps the row with the clock reading that its poll began with, which is taken not to
-- be older than the stamp that stands there.
pub data Step (h : String) (w w' : World) : Type 0 where
  start :
      (i now : ℕ)
      → w.phase i ≡ idle
      → w' ≡ record w { phase = move w.phase i (started now) }
      → Step h w w'
  read :
      (db : Driver) (i now : ℕ)
      → w.phase i ≡ started now
      → w' ≡ turn w i now w.rows (poll_read db h now w.rows)
      → Step h w w'
  swap :
      (db : Driver) (i now : ℕ) (prev : Option ℕ)
      → w.phase i ≡ ready now (swapping prev)
      → w'
        ≡ turn w i now
            (poll_swap db h now prev w.rows).0
            (behind_swap (poll_swap db h now prev w.rows).1)
      → Step h w w'
  slow :
      (db : Driver) (i now : ℕ)
      → w.phase i ≡ ready now slowing
      → NotLater (entry hash_of h w.rows) now
      → w' ≡ turn w i now (slow_down db h now w.rows).0 (answered (slow_down db h now w.rows).1)
      → Step h w w'
  -- A whole call of PollDeviceCode with nothing between its statements.
  call :
      (hash : String → String) (db : Driver) (code : String) (now : ℕ)
      → hash code ≡ h
      → NotLater (entry hash_of h w.rows) now
      → w' ≡ record w {
        rows = (poll_device_code hash db (λ seen. seen) code now w.rows).0;
        passed =
            noted now
              (answered (poll_device_code hash db (λ seen. seen) code now w.rows).1)
              w.passed;
      }
      → Step h w w'
  other :
      (rows : List DeviceCodeRow)
      → Distinct hash_of rows
      → Option.map pace_of (entry hash_of h rows) ≡ Option.map pace_of (entry hash_of h w.rows)
      → w' ≡ record w { rows = rows }
      → Step h w w'

pub data Reach (h : String) (w : World) : World → Type 0 where
  here : Reach h w w
  onward : {u v : World} → Reach h w u → Step h u v → Reach h w v

-- Any two of the times are at least `gap` apart, each being later than the next.
abbrev pub Spaced : ℕ → List ℕ → Type 0
Spaced gap [] = Unit
Spaced gap (b ∷ []) = Unit
Spaced gap (b ∷ a ∷ rest) = (a + gap ≤ b) × Spaced gap (a ∷ rest)

abbrev pub initial : List DeviceCodeRow → World
initial rows = record { rows = rows; phase = λ i. idle; passed = [] }
