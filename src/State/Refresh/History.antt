-- ===== src/State/Refresh/History.antt =====
-- Histories of the refresh_tokens table: the store methods that write it, in any order, for any
-- tokens and clients, each under a driver of its own. The store has one connection and each
-- method writes by one statement, so concurrent callers are such an order of calls.
use tempogate.Common.{
  ℕ, ◌+◌, String, ◌≡◌, Bool, true, false, ◌&&◌, List, [], ◌∷◌, arith, ◌==◌, if◌then◌else◌, first,
  any, update, Bool-cases, inl, inr, Option-cases,
}
use tempogate.Oidc.Model.{Refresh}
use tempogate.State.Driver.{Driver}
use tempogate.State.Refresh.{
  RefreshRow, ConsumeResult, RevokeResult, consumed, live_for, unrevoked, consume_row, revoke_row,
  in_family, revoked_in, has_hash, row_of, revoke_refresh, check_family, revoke_refresh_family,
  revoke_refresh_by_email, revoke_refresh_by_subject, save_refresh, consume_refresh,
}

pub data RefreshCall : Type 0 where
  save : Refresh → RefreshCall
  consume : String → String → ℕ → RefreshCall
  revoke_family : String → ℕ → RefreshCall
  revoke_email : String → ℕ → RefreshCall
  revoke_subject : String → String → ℕ → RefreshCall

-- What a call may do to the table.
pub data Effect (hash : String → String) (rows rows' : List RefreshRow) : Type 0 where
  unchanged : rows' ≡ rows → Effect hash rows rows'
  inserted :
      (r : Refresh)
      → any (revoked_in r.family_id) rows ≡ false
      → any (has_hash (hash r.token)) rows ≡ false
      → rows' ≡ row_of hash r ∷ rows
      → Effect hash rows rows'
  consumed_by :
      (h client_id : String) (at : ℕ)
      → rows' ≡ update (live_for h client_id) (consume_row at) rows
      → Effect hash rows rows'
  revoked_by :
      (p : RefreshRow → Bool) (at : ℕ)
      → rows' ≡ update (unrevoked p) (revoke_row at) rows
      → Effect hash rows rows'

abbrev pub is_consumed : ConsumeResult → Bool
is_consumed (consumed r) = true
is_consumed _ = false

pub is_consumed_inversion :
    (o : ConsumeResult) → is_consumed o ≡ true → (r : Refresh) × (o ≡ consumed r)
is_consumed_inversion o h = ground arith

module _ (hash lower : String → String) where
  unfoldable pub step : List RefreshRow → Driver × RefreshCall → List RefreshRow
  step rows (db, save r) = (save_refresh hash db r rows).0
  step rows (db, consume token client_id at) = (consume_refresh hash db token client_id at rows).0
  step rows (db, revoke_family family_id at) = (revoke_refresh_family db family_id at rows).0
  step rows (db, revoke_email email at) = (revoke_refresh_by_email lower db email at rows).0
  step rows (db, revoke_subject connector_id subject at) =
      (revoke_refresh_by_subject db connector_id subject at rows).0

  unfoldable pub run : List RefreshRow → List (Driver × RefreshCall) → List RefreshRow
  run rows [] = rows
  run rows (c ∷ cs) = run (step rows c) cs

  -- Whether a call is a presentation of the token that is answered with it.
  unfoldable pub hands_out : String → List RefreshRow → Driver × RefreshCall → Bool
  hands_out token rows (db, consume t client_id at) =
      (t == token) && is_consumed (consume_refresh hash db t client_id at rows).1
  hands_out token rows _ = false

  -- How often a history hands the token out.
  unfoldable pub times_handed_out : String → List RefreshRow → List (Driver × RefreshCall) → ℕ
  times_handed_out token rows [] = 0
  times_handed_out token rows (c ∷ cs) =
      (if hands_out token rows c then 1 else 0) + times_handed_out token (step rows c) cs

  save-Effect :
      (db : Driver) (r : Refresh) (rows : List RefreshRow)
      → Effect hash rows (save_refresh hash db r rows).0
  unfolding save_refresh
  save-Effect db r rows = elim (Bool-cases (db 0)) [
    | inl down ↦ unchanged (rw down)
    | inr answers ↦ elim (Bool-cases (any (revoked_in r.family_id) rows)) [
      | inl gone ↦ unchanged (rw (answers, gone))
      | inr alive ↦ elim (Bool-cases (any (has_hash (hash r.token)) rows)) [
        | inl held ↦ unchanged (rw (answers, alive, held))
        | inr free ↦ inserted r alive free (rw (answers, alive, free))
      ]
    ]
  ]

  consume-Effect :
      (db : Driver) (token client_id : String) (at : ℕ) (rows : List RefreshRow)
      → Effect hash rows (consume_refresh hash db token client_id at rows).0
  unfolding consume_refresh
  consume-Effect db token client_id at rows = elim (Bool-cases (db 0)) [
    | inl down ↦ unchanged (rw down)
    | inr answers ↦ elim (Option-cases (first (live_for (hash token) client_id) rows)) [
      | inl miss ↦ unchanged (ground arith)
      | inr (r, hit) ↦ consumed_by (hash token) client_id at (ground arith)
    ]
  ]

  revoke-Effect :
      (db : Driver) (p : RefreshRow → Bool) (at : ℕ) (rows : List RefreshRow)
      → Effect hash rows (revoke_refresh db p at rows).0
  unfolding revoke_refresh
  revoke-Effect db p at rows = elim (Bool-cases (db 0)) [
    | inl down ↦ unchanged (rw down)
    | inr answers ↦ revoked_by p at (ground arith)
  ]

  check_family-rows :
      (db : Driver) (family_id : String) (o : List RefreshRow × RevokeResult)
      → (check_family db family_id o).0 ≡ o.0
  check_family-rows db family_id (rows, r) = ground arith

  -- Every call has one of these effects, whatever the driver reports.
  pub step-Effect :
      (rows : List RefreshRow) (c : Driver × RefreshCall) → Effect hash rows (step rows c)
  unfolding step revoke_refresh_family revoke_refresh_by_email revoke_refresh_by_subject
  step-Effect rows (db, save r) = save-Effect db r rows
  step-Effect rows (db, consume token client_id at) = consume-Effect db token client_id at rows
  step-Effect rows (db, revoke_family family_id at) =
      rw check_family-rows (revoke-Effect db (in_family family_id) at rows)
  step-Effect rows (db, revoke_email email at) = revoke-Effect db _ at rows
  step-Effect rows (db, revoke_subject connector_id subject at) = revoke-Effect db _ at rows
