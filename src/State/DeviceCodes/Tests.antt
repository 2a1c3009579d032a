-- ===== src/State/DeviceCodes/Tests.antt =====
-- The device_codes table on concrete rows. The hash is the identity here.
use tempogate.Common.{
  true, false, ◌+◌, ◌*◌, String, ◌≡◌, refl, none, some, Distinct, List, [], ◌∷◌, arith, first, any,
  update, delete, count, entry, All,
}
use tempogate.Oidc.Model.{DeviceCode, Identity}
use tempogate.State.Driver.{Driver, IsUp, up}
use tempogate.State.DeviceCodes.{
  DeviceCodeRow, polled, decided, not_pending, approve_row, second, stamp_row, row_of,
  save_device_code, lookup_device_code_by_device_code, lookup_device_code_by_user_code,
  decide_device_code, approve_device_code, deny_device_code, poll_device_code, consume_device_code,
  is_one, hash_of, swapping, slowing, answered, poll_read, poll_swap,
}
use tempogate.State.DeviceCodes.Decision.{OneRowPerUserCode}
use tempogate.State.DeviceCodes.History
use tempogate.State.DeviceCodes.History.{
  DeviceCall, save, poll, approve, consume, IsConsistent, run, step,
}
use tempogate.State.DeviceCodes.Pace.{
  World, Reach, Spaced, initial, move, turn, started, start, read, swap, call, here, onward,
}
use tempogate.State.DeviceCodes.Pace.Apart.{passed-Spaced}
use tempogate.State.DeviceCodes.Pace.Unpunctual
use tempogate.State.DeviceCodes.Pace.Unpunctual.{first_pass, passed_unpunctual}

abbrev same : String → String
same s = s

abbrev answers : IsUp up
answers n = refl

abbrev person : Identity
person = record { connector_id = "google"; subject = "u1"; email = "u@example.com" }

abbrev minted : DeviceCode
minted = record {
  code = "d1";
  user_code = "BCDFGHJK";
  client_id = "cli";
  scope = "openid";
  connector_id = "";
  subject = "";
  email = "";
  approved_at = none;
  denied_at = none;
  last_polled_at = none;
  interval_seconds = 5;
  created_at = 0;
  expires_at = 600 * second;
}

abbrev one_row : List DeviceCodeRow
one_row = row_of same minted ∷ []

abbrev approved_row : List DeviceCodeRow
approved_row = approve_row person 7 (row_of same minted) ∷ []

program : Unit {0}
unfolding save_device_code lookup_device_code_by_device_code lookup_device_code_by_user_code
    decide_device_code approve_device_code deny_device_code poll_device_code consume_device_code
    is_one run step first any update delete count entry
program = tt

approval : approve_device_code up "BCDFGHJK" person 7 one_row ≡ (approved_row, decided)
unfolding program
approval = refl

late_denial : deny_device_code up "BCDFGHJK" 8 approved_row ≡ (approved_row, not_pending)
unfolding program
late_denial = refl

first_poll : (poll_device_code same up (λ seen. seen) "d1" 3 one_row).1 ≡ polled false
unfolding program
first_poll = refl

-- Another poll has stamped the row between the read and the swap.
lost_swap :
    (poll_device_code same up
      (λ rows. (poll_device_code same up (λ seen. seen) "d1" 3 rows).0)
      "d1"
      4
      one_row).1
    ≡ polled true
unfolding program
lost_swap = refl

one_row-OneRowPerUserCode : OneRowPerUserCode one_row
unfolding any
one_row-OneRowPerUserCode = (refl, tt)

abbrev calls : List (Driver × DeviceCall)
calls =
    (up, save minted)
    ∷ (up, poll "d1" 3)
    ∷ (up, approve "BCDFGHJK" person 7)
    ∷ (up, poll "d1" 4)
    ∷ (up, consume "d1")
    ∷ []

run-IsConsistent_example : All IsConsistent (run same [] calls)
run-IsConsistent_example =
    History.run-IsConsistent same [] calls
      ((refl, refl, refl, refl, refl), (tt, (tt, (tt, (tt, tt))))) tt

abbrev fresh_row : DeviceCodeRow
fresh_row = row_of same minted

fresh_row-Distinct : Distinct hash_of (fresh_row ∷ [])
unfolding any
fresh_row-Distinct = (refl, tt)

fresh_row_found : entry hash_of "d1" (fresh_row ∷ []) ≡ some fresh_row
unfolding program
fresh_row_found = refl

-- Two polls that read the row before either swaps: the first swap wins, the second one loses.
abbrev w0 : World
w0 = initial (fresh_row ∷ [])

abbrev w2 : World
w2 = record w0 { phase = move (move w0.phase 1 (started 3)) 2 (started 4) }

abbrev w4 : World
w4 = turn (turn w2 1 3 w2.rows (swapping none)) 2 4 w2.rows (swapping none)

abbrev w5 : World
w5 = turn w4 1 3 (stamp_row 3 fresh_row ∷ []) (answered (polled false))

abbrev w6 : World
w6 = turn w5 2 4 w5.rows slowing

lost_swap_Reach : Reach "d1" w0 w6
unfolding program poll_read poll_swap
lost_swap_Reach =
    onward
      (onward
        (onward
          (onward (onward (onward here (start 1 3 refl refl)) (start 2 4 refl refl))
            (read up 1 3 refl refl))
          (read up 2 4 refl refl))
        (swap up 1 3 none refl refl))
      (swap up 2 4 none refl refl)

-- A whole call an interval later passes.
abbrev w7 : World
w7 = record w6 { rows = stamp_row 5_000_000_003 fresh_row ∷ []; passed = 5_000_000_003 ∷ 3 ∷ [] }

passing_Reach : Reach "d1" w0 w7
unfolding program poll_read poll_swap
passing_Reach = onward lost_swap_Reach (call same up "d1" 5_000_000_003 refl (omega arith) refl)

passed-Spaced_example : Spaced (5 * second) w7.passed
passed-Spaced_example =
    passed-Spaced "d1" (fresh_row ∷ []) fresh_row fresh_row-Distinct fresh_row_found passing_Reach

passed_unpunctual_example :
    let a = Unpunctual.poll same "d1" (first_pass fresh_row 90) (fresh_row ∷ []) in
    let b = Unpunctual.poll same "d1" 90 a.0 in
    let c = Unpunctual.poll same "d1" (first_pass fresh_row 90 + 1) b.0 in
    (a.1 ≡ polled false) × (b.1 ≡ polled true) × (c.1 ≡ polled false)
passed_unpunctual_example =
    passed_unpunctual same "d1" 90 (fresh_row ∷ []) fresh_row fresh_row-Distinct fresh_row_found
      refl (omega arith)
