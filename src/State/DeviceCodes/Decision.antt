-- ===== src/State/DeviceCodes/Decision.antt =====
-- The decision of the verification page: ApproveDeviceCode and DenyDeviceCode over the table as a
-- partial function from user codes to rows.
use mathlib.Core.Option
use tempogate.Common.{
  ℕ, String, ◌≡◌, refl, ◌∙◌, Bool, ◌&&◌, Option, first_of_entry, none, some, List, arith, ◌==◌,
  eq_iff, if◌then◌else◌, is_none, ltb, any, update, Bool-cases, Option-cases, inl, inr, entry,
  Distinct, entry-update, entry_key, none_of_first, any_of_first,
}
use tempogate.Oidc.Model.{Identity}
use tempogate.State.Driver.{Driver, IsUp}
use tempogate.State.DeviceCodes.{
  DeviceCodeRow, DecideResult, decided, not_pending, user_code_of, pending_for, approve_row,
  deny_row, decide_device_code, approve_device_code, deny_device_code,
}

abbrev pub is_pending : DeviceCodeRow → Bool
is_pending r = is_none r.approved_at && is_none r.denied_at

-- user_code is UNIQUE.
abbrev pub OneRowPerUserCode : List DeviceCodeRow → Type 0
OneRowPerUserCode = Distinct user_code_of

-- How a decision is answered, by the row of the user code: it counts exactly when the row is
-- there, pending and not expired.
abbrev pub verdict : ℕ → Option DeviceCodeRow → DecideResult
verdict now none = not_pending
verdict now (some r) = if ltb now r.expires_at && is_pending r then decided else not_pending

-- What the decision leaves of that row.
abbrev pub settled : ℕ → (DeviceCodeRow → DeviceCodeRow) → DeviceCodeRow → DeviceCodeRow
settled now set r = if ltb now r.expires_at && is_pending r then set r else r

module _ (set : DeviceCodeRow → DeviceCodeRow)
    (same : (r : DeviceCodeRow) → user_code_of (set r) ≡ user_code_of r) where
  entry-set :
      (user_code k : String) (rows : List DeviceCodeRow)
      → entry user_code_of k (update (pending_for user_code) set rows) ≡ (
          if k == user_code
          then Option.map (λ r. if is_pending r then set r else r) (entry user_code_of k rows)
          else entry user_code_of k rows)
  entry-set user_code k rows =
      entry-update user_code_of k (pending_for user_code) set rows same
      ∙ elim (Option-cases (entry user_code_of k rows)) [
        | inl absent ↦ rw absent (ground arith)
        | inr (x, e) ↦
            let key : x.user_code ≡ k = entry_key user_code_of k rows e in
            rw (e, key) (ground arith)
      ]

  -- Whether the conditional UPDATE finds a row is what the row of the user code says.
  any-pending :
      (user_code : String) (rows : List DeviceCodeRow) {x : DeviceCodeRow}
      → OneRowPerUserCode rows
      → entry user_code_of user_code rows ≡ some x
      → any (pending_for user_code) rows ≡ is_pending x
  any-pending user_code rows {x} d e = elim (Bool-cases (is_pending x)) [
    | inl p ↦ rw p (
        any_of_first (pending_for user_code) rows {x = x}
          (first_of_entry user_code_of user_code is_pending rows d e ∙ rw p))
    | inr p ↦ rw p (
        none_of_first (pending_for user_code) rows
          (first_of_entry user_code_of user_code is_pending rows d e ∙ rw p))
  ]

  decide_absent :
      (db : Driver) (now : ℕ) (user_code : String) (rows : List DeviceCodeRow)
      → IsUp db
      → entry user_code_of user_code rows ≡ none
      → decide_device_code db now set user_code rows ≡ (rows, not_pending)
  unfolding decide_device_code entry
  decide_absent db now user_code rows ready e = rw (ready 0, e)

  decide_found :
      (db : Driver) (now : ℕ) (user_code : String) (rows : List DeviceCodeRow) {x : DeviceCodeRow}
      → OneRowPerUserCode rows
      → IsUp db
      → entry user_code_of user_code rows ≡ some x
      → decide_device_code db now set user_code rows ≡ (
          if ltb now x.expires_at
          then (
            update (pending_for user_code) set rows,
            if is_pending x then decided else not_pending,
          )
          else (rows, not_pending))
  unfolding decide_device_code entry
  decide_found db now user_code rows d ready e =
      ground (arith, ready 0, ready 1, ready 2, any-pending user_code rows d e)

  decide-outcome :
      (db : Driver) (now : ℕ) (user_code k : String) (rows : List DeviceCodeRow)
      → OneRowPerUserCode rows
      → IsUp db
      → ((decide_device_code db now set user_code rows).1
          ≡ verdict now (entry user_code_of user_code rows))
        × (entry user_code_of k (decide_device_code db now set user_code rows).0 ≡ (
            if k == user_code
            then Option.map (settled now set) (entry user_code_of k rows)
            else entry user_code_of k rows))
  decide-outcome db now user_code k rows d ready =
      elim (Option-cases (entry user_code_of user_code rows)) [
        | inl absent ↦
            rw (decide_absent db now user_code rows ready absent, absent)
              (refl, ground (arith, eq_iff k user_code, absent))
        | inr (x, e) ↦
            rw (decide_found db now user_code rows d ready e, e)
              (elim (Bool-cases (ltb now x.expires_at)) [
                | inl timely ↦ rw timely (
                  refl,
                  entry-set user_code k rows ∙ ground (arith, eq_iff k user_code, e, timely),
                )
                | inr late ↦ rw late (refl, ground (arith, eq_iff k user_code, e, late))
              ])
      ]

-- ApproveDeviceCode and DenyDeviceCode, for a table with one row for each user code and a driver
-- that answers: the decision counts exactly when the row of the user code is there, pending and
-- not expired. Then it is stamped with the identity, or as denied; the row of every other user
-- code, and the row of this one otherwise, stays as it was.
pub decide_device_code-outcome :
    (db : Driver) (id : Identity) (now : ℕ) (user_code k : String) (rows : List DeviceCodeRow)
    → OneRowPerUserCode rows
    → IsUp db
    → ((approve_device_code db user_code id now rows).1
        ≡ verdict now (entry user_code_of user_code rows))
      × (entry user_code_of k (approve_device_code db user_code id now rows).0 ≡ (
          if k == user_code
          then Option.map (settled now (approve_row id now)) (entry user_code_of k rows)
          else entry user_code_of k rows))
      × ((deny_device_code db user_code now rows).1
          ≡ verdict now (entry user_code_of user_code rows))
      × (entry user_code_of k (deny_device_code db user_code now rows).0 ≡ (
          if k == user_code
          then Option.map (settled now (deny_row now)) (entry user_code_of k rows)
          else entry user_code_of k rows))
unfolding approve_device_code deny_device_code
decide_device_code-outcome db id now user_code k rows d ready =
    let (answer, left) =
      decide-outcome (approve_row id now) (λ r. refl) db now user_code k rows d ready in
    let (answer', left') =
      decide-outcome (deny_row now) (λ r. refl) db now user_code k rows d ready in
    (answer, left, answer', left')
