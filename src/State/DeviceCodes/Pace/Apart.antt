-- ===== src/State/DeviceCodes/Pace/Apart.antt =====
-- PollDeviceCode: the polls of a code that pass are an interval apart.
use mathlib.Core.Option
use tempogate.Common.{ℕ, ◌*◌, String, ◌≡◌, ap, ◌∙◌, some, List, arith, entry, Distinct}
use tempogate.State.DeviceCodes.{DeviceCodeRow, hash_of, second}
use tempogate.State.DeviceCodes.Pace.{
  started, World, pace_of, Step, start, read, swap, slow, call, other, Reach, here, onward, Spaced,
  initial,
}
use tempogate.State.DeviceCodes.Pace.Invariant.{
  Inv, move-Knows, same_pace, read-Inv, swap-Inv, slow-Inv,
}
use tempogate.State.DeviceCodes.Pace.Whole.{call-Inv}

Step-Inv : (h : String) (least : ℕ) {w w' : World} → Step h w w' → Inv h least w → Inv h least w'
Step-Inv h least {w} (start i now at e) v = rw e (record {
  row = v.row;
  own = v.own;
  one = v.one;
  floor = v.floor;
  covers = v.covers;
  spaced = v.spaced;
  knows = move-Knows least w.phase i (started now) v.knows tt;
})
Step-Inv h least {w} (read db i now at e) v = rw e (read-Inv h least w v db i now)
Step-Inv h least {w} (swap db i now prev at e) v =
    rw e (swap-Inv h least w v db i now prev (rw at at (v.knows i)))
Step-Inv h least {w} (slow db i now at later e) v = rw e (slow-Inv h least w v db i now later)
Step-Inv h least {w} (call hash db code now named later e) v =
    rw e (call-Inv h least w v hash db code now named (rw v.own at later))
Step-Inv h least {w} (other rows one same e) v =
    let (r, own, last, interval) =
      same_pace (entry hash_of h rows) v.row (same ∙ ap (Option.map pace_of) v.own) in
    rw e (record {
      row = r;
      own = own;
      one = one;
      floor = rw interval at v.floor;
      covers = rw last at v.covers;
      spaced = v.spaced;
      knows = v.knows;
    })

Reach-Inv : (h : String) (least : ℕ) {w w' : World} → Reach h w w' → Inv h least w → Inv h least w'
Reach-Inv h least here v = v
Reach-Inv h least (onward r st) v = Step-Inv h least st (Reach-Inv h least r v)

-- PollDeviceCode keeps the polls of a code apart: however whole calls and the statements of any number
-- of calls are interleaved, with whatever driver errors and with other calls in between that leave the
-- code's stamp and interval alone, any two polls that are answered as well-paced are at least the
-- interval apart that the code has at first. Assumed: the table has one row for each hash, and no
-- slow_down comes, and no whole call is made, with a clock reading older than the row's stamp.
pub passed-Spaced :
    (h : String) (rows : List DeviceCodeRow) (row : DeviceCodeRow) {w : World}
    → Distinct hash_of rows
    → entry hash_of h rows ≡ some row
    → Reach h (initial rows) w
    → Spaced (row.interval_seconds * second) w.passed
passed-Spaced h rows row one own r =
    (Reach-Inv h row.interval_seconds r (record {
      row = row;
      own = own;
      one = one;
      floor = omega arith;
      covers = tt;
      spaced = tt;
      knows = λ i. tt;
    })).spaced
