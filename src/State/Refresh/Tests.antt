-- ===== src/State/Refresh/Tests.antt =====
-- The refresh_tokens table on concrete rows: tests of the methods, and the theorems at inputs
-- that meet their hypotheses. The hash is the identity here.
use tempogate.Common.{
  String, ◌≡◌, refl, ◌≤◌, false, some, List, [], ◌∷◌, ◌==◌, if◌then◌else◌, first, any, update,
  count, entry,
}
use mathlib.Core.Option
use tempogate.Oidc.Model.{Refresh}
use tempogate.State.Driver.{Driver, IsUp, up}
use tempogate.State.Refresh.{
  RefreshRow, reused, not_found, revoked, session_not_found, family_revoked, row_of, save_refresh,
  consume_refresh, revoke_refresh, revoke_refresh_family,
}
use tempogate.State.Refresh.History.{
  RefreshCall, save, consume, revoke_family, run, step, times_handed_out,
}
use tempogate.State.Refresh.Reuse
use tempogate.State.Refresh.Reuse.{hash_of, OneRowPerHash}
use tempogate.State.Refresh.Revocation
use tempogate.State.Refresh.Revocation.{live_in, IsRevoked}
use tempogate.State.Refresh.Lookup
use tempogate.State.Refresh.Lookup.{answer, stamped}

abbrev same : String → String
same s = s

abbrev answers : IsUp up
answers n = refl

abbrev first_token : Refresh
first_token = record {
  token = "t1";
  jti = "j1";
  client_id = "cli";
  connector_id = "google";
  subject = "u1";
  email = "u@example.com";
  family_id = "f1";
  auth_time = 10;
  created_at = 10;
  expires_at = 100;
}

abbrev second_token : Refresh
second_token = record first_token { token = "t2"; jti = "j2"; created_at = 20 }

abbrev one_row : List RefreshRow
one_row = row_of same first_token ∷ []

abbrev rotated : List RefreshRow
rotated = row_of same second_token ∷ record (row_of same first_token) { consumed_at = some 20 } ∷ []

-- A rotation, and a replay of the old token that revokes the family.
abbrev calls : List (Driver × RefreshCall)
calls =
    (up, consume "t1" "cli" 20)
    ∷ (up, save second_token)
    ∷ (up, consume "t1" "cli" 30)
    ∷ (up, revoke_family "f1" 30)
    ∷ (up, consume "t2" "cli" 31)
    ∷ []

program : Unit {0}
unfolding save_refresh consume_refresh revoke_refresh revoke_refresh_family run step
    times_handed_out first any update count entry
program = tt

rotation :
    run same same one_row ((up, consume "t1" "cli" 20) ∷ (up, save second_token) ∷ []) ≡ rotated
unfolding program
rotation = refl

replay : (consume_refresh same up "t1" "cli" 30 rotated).1 ≡ reused first_token
unfolding program
replay = refl

other_client : consume_refresh same up "t2" "web" 30 rotated ≡ (rotated, not_found)
unfolding program
other_client = refl

ended : (revoke_refresh_family up "f1" 30 rotated).1 ≡ revoked 1
unfolding program
ended = refl

unknown : revoke_refresh_family up "f2" 30 rotated ≡ (rotated, session_not_found)
unfolding program
unknown = refl

refused :
    (save_refresh same up
      (record second_token { token = "t3" })
      (revoke_refresh_family up "f1" 30 rotated).0).1
    ≡ family_revoked
unfolding program
refused = refl

one_row-OneRowPerHash : OneRowPerHash one_row
unfolding any
one_row-OneRowPerHash = (refl, tt)

rotated-OneRowPerHash : OneRowPerHash rotated
unfolding any
rotated-OneRowPerHash = (refl, (refl, tt))

times_handed_out-le-one_example : times_handed_out same same "t1" one_row calls ≤ 1
times_handed_out-le-one_example =
    Reuse.times_handed_out-le-one same same "t1" one_row calls one_row-OneRowPerHash

abbrev ended_family : List RefreshRow
ended_family =
    record (row_of same second_token) { revoked_at = some 30 }
    ∷ record (row_of same first_token) { consumed_at = some 20; revoked_at = some 30 }
    ∷ []

ended_family_lem : revoke_refresh_family up "f1" 30 rotated ≡ (ended_family, revoked 1)
unfolding program
ended_family_lem = refl

save_refresh-revoked_example :
    (any (live_in "f1") (run same same ended_family calls) ≡ false)
    × (save_refresh same up second_token (run same same ended_family calls)
        ≡ (run same same ended_family calls, family_revoked))
save_refresh-revoked_example =
    Revocation.save_refresh-revoked same same "f1" up 30 rotated ended_family_lem calls up
      second_token answers refl

-- A second family, whose token is handed out after the first family was revoked.
abbrev other_family : Refresh
other_family = record second_token { token = "t9"; family_id = "f9" }

consume_refresh-answer_example :
    ((consume_refresh same up "t2" "cli" 30 rotated).1
      ≡ answer "t2" "cli" (entry hash_of "t2" rotated))
    × (entry hash_of "t1" (consume_refresh same up "t2" "cli" 30 rotated).0 ≡ (
        if "t1" == "t2"
        then Option.map (stamped "cli" 30) (entry hash_of "t1" rotated)
        else entry hash_of "t1" rotated))
consume_refresh-answer_example =
    Lookup.consume_refresh-answer same up "t2" "cli" 30 rotated "t1" rotated-OneRowPerHash answers
