-- ===== src/State/Refresh/Reuse.antt =====
-- Single use of refresh tokens: what a token that was handed out leaves behind, and how later
-- presentations of it are answered.
use tempogate.Common.{
  subst, ℕ, ◌≤◌, String, ◌≡◌, refl, ap, ◌∙◌, Bool, true, false, none, some, List, [], ◌∷◌, arith,
  ◌==◌, eq_iff, if◌then◌else◌, is_some, first, first_holds, and_left, and_right, eq_refl, update,
  Bool-cases, inl, inr, entry, Distinct, entry_of_first, first_of_entry, entry-fresh, entry-update,
  Distinct-update, map-some,
}
use tempogate.Oidc.Model.{Refresh}
use tempogate.State.Driver.{Driver, IsUp}
use tempogate.State.Refresh.{
  unrevoked, revoke_row, RefreshRow, consumed, reused, scan_refresh, live_for, spent_for,
  consume_row, row_of, consume_refresh,
}
use tempogate.State.Refresh.History.{
  RefreshCall, save, consume, revoke_family, revoke_email, revoke_subject, is_consumed,
  is_consumed_inversion, Effect, unchanged, inserted, consumed_by, revoked_by, step, run,
  step-Effect, hands_out, times_handed_out,
}

abbrev pub hash_of : RefreshRow → String
hash_of r = r.token_hash

-- The table's primary key.
abbrev pub OneRowPerHash : List RefreshRow → Type 0
OneRowPerHash = Distinct hash_of

-- The row that a rotated token leaves behind.
pub record Tombstone (h client_id : String) (r : Refresh) (rows : List RefreshRow) : Type 0 where
  row : RefreshRow
  found : entry hash_of h rows ≡ some row
  owner : row.client_id ≡ client_id
  spent : is_some row.consumed_at ≡ true
  scanned : scan_refresh r.token row ≡ r

scan_refresh-revoked :
    (token : String) (b : Bool) (at : ℕ) (x : RefreshRow)
    → scan_refresh token (if b then revoke_row at x else x) ≡ scan_refresh token x
scan_refresh-revoked token true at x = refl
scan_refresh-revoked token false at x = refl

module _ (hash : String → String) where
  Effect-OneRowPerHash :
      {rows rows' : List RefreshRow}
      → Effect hash rows rows'
      → OneRowPerHash rows
      → OneRowPerHash rows'
  Effect-OneRowPerHash (unchanged e) d = rw e d
  Effect-OneRowPerHash (inserted r alive free e) d = rw e (free, d)
  Effect-OneRowPerHash {rows} (consumed_by h client_id at e) d =
      rw e (Distinct-update hash_of _ (consume_row at) rows (λ x. refl) d)
  Effect-OneRowPerHash {rows} (revoked_by p at e) d =
      rw e (Distinct-update hash_of _ _ rows (λ x. refl) d)

  Effect-Tombstone :
      {rows rows' : List RefreshRow} {h client_id : String} {r : Refresh}
      → Effect hash rows rows'
      → Tombstone h client_id r rows
      → Tombstone h client_id r rows'
  Effect-Tombstone (unchanged e) t = rw e t
  Effect-Tombstone {rows} {h = h} (inserted q alive free e) t = rw e (record {
    row = t.row;
    found = entry-fresh hash_of h (row_of hash q) rows t.found free;
    owner = t.owner;
    spent = t.spent;
    scanned = t.scanned;
  })
  Effect-Tombstone {rows} {h = h} (consumed_by k c at e) t = rw e (record {
    row = t.row;
    found =
        entry-update hash_of h _ (consume_row at) rows (λ x. refl)
        ∙ map-some _ t.found
        ∙ ground (arith, t.spent);
    owner = t.owner;
    spent = t.spent;
    scanned = t.scanned;
  })
  Effect-Tombstone {rows} {h = h} {r} (revoked_by p at e) t = rw e (record {
    row = if unrevoked p t.row then revoke_row at t.row else t.row;
    found = entry-update hash_of h _ (revoke_row at) rows (λ x. refl) ∙ map-some _ t.found;
    owner = ground (arith, t.owner);
    spent = ground (arith, t.spent);
    scanned = scan_refresh-revoked r.token (unrevoked p t.row) at t.row ∙ t.scanned;
  })

  -- A token is handed out only from the live row of the presenting client.
  pub consumed_inversion :
      (db : Driver) (token client_id : String) (at : ℕ) (rows : List RefreshRow)
      {rows' : List RefreshRow} {r : Refresh}
      → consume_refresh hash db token client_id at rows ≡ (rows', consumed r)
      → (x : RefreshRow) × (first (live_for (hash token) client_id) rows ≡ some x)
        × (rows' ≡ update (live_for (hash token) client_id) (consume_row at) rows)
        × (r ≡ scan_refresh token x)
  unfolding consume_refresh
  consumed_inversion db token client_id at rows e = ground arith

  consume-Tombstone :
      (db : Driver) (token client_id : String) (at : ℕ) (rows : List RefreshRow)
      {rows' : List RefreshRow} {r : Refresh}
      → OneRowPerHash rows
      → consume_refresh hash db token client_id at rows ≡ (rows', consumed r)
      → Tombstone (hash token) client_id r rows' × (r.token ≡ token)
  consume-Tombstone db token client_id at rows d e =
      let (x, hit, changed, scanned) = consumed_inversion db token client_id at rows e in
      let h = hash token in
      let (found, live) = entry_of_first hash_of h _ rows d hit in
      rw (changed, scanned)
        (
          record {
            row = consume_row at x;
            found =
                entry-update hash_of h _ (consume_row at) rows (λ y. refl)
                ∙ map-some _ found
                ∙ rw (first_holds (live_for h client_id) rows hit);
            owner = (eq_iff x.client_id client_id).0 (and_left _ _ live);
            spent = refl;
            scanned = refl;
          },
          refl,
        )

  -- How a token is answered whose tombstone the table holds.
  Tombstone-answer :
      (db : Driver) (token client_id : String) (at : ℕ) (rows : List RefreshRow) {r : Refresh}
      → OneRowPerHash rows
      → IsUp db
      → r.token ≡ token
      → Tombstone (hash token) client_id r rows
      → consume_refresh hash db token client_id at rows ≡ (rows, reused r)
  unfolding consume_refresh
  Tombstone-answer db token client_id at rows d ready same t =
      let h = hash token in
      let not_live : first (live_for h client_id) rows ≡ none =
        first_of_entry hash_of h _ rows d t.found ∙ ground (arith, t.spent) in
      let is_spent : first (spent_for h client_id) rows ≡ some t.row =
        first_of_entry hash_of h _ rows d t.found
        ∙ ground (arith, t.spent, t.owner, eq_iff t.row.client_id client_id) in
      ground (arith, ready 0, ready 1, not_live, is_spent, t.scanned, same)

  not_consumed :
      (db : Driver) (token client_id : String) (at : ℕ) (rows : List RefreshRow) {owner : String}
      {r : Refresh}
      → OneRowPerHash rows
      → Tombstone (hash token) owner r rows
      → is_consumed (consume_refresh hash db token client_id at rows).1 ≡ false
  not_consumed db token client_id at rows d tomb =
      elim (Bool-cases (is_consumed (consume_refresh hash db token client_id at rows).1)) [
        | inl given ↦
            let (_, answer) = is_consumed_inversion _ given in
            let (x, hit, _, _) =
              consumed_inversion db token client_id at rows
                (ap (λ o. ((consume_refresh hash db token client_id at rows).0, o)) answer) in
            let (found, live) = entry_of_first hash_of (hash token) _ rows d hit in
            absurd (ground (arith, found, live, tomb.found, tomb.spent))
        | inr e ↦ e
      ]

module _ (hash lower : String → String) where
  -- Every history of calls leaves a table with one row for each hash so.
  pub run-OneRowPerHash :
      (rows : List RefreshRow) (cs : List (Driver × RefreshCall))
      → OneRowPerHash rows
      → OneRowPerHash (run hash lower rows cs)
  unfolding run
  run-OneRowPerHash rows [] d = d
  run-OneRowPerHash rows (c ∷ cs) d =
      run-OneRowPerHash (step hash lower rows c) cs
        (Effect-OneRowPerHash hash (step-Effect hash lower rows c) d)

  run-Tombstone :
      (rows : List RefreshRow) (cs : List (Driver × RefreshCall)) {h client_id : String}
      {r : Refresh}
      → Tombstone h client_id r rows
      → Tombstone h client_id r (run hash lower rows cs)
  unfolding run
  run-Tombstone rows [] t = t
  run-Tombstone rows (c ∷ cs) t =
      run-Tombstone (step hash lower rows c) cs
        (Effect-Tombstone hash (step-Effect hash lower rows c) t)

  -- A token that was handed out, from a table with one row for each hash, is from then on answered
  -- as a reuse by a driver that answers, with the fields that it was handed out with, whatever
  -- calls come between: revocations of its family, other clients' presentations, attempts to store
  -- the same token again.
  pub consume_refresh-reused :
      (db db' : Driver) (token client_id : String) (at at' : ℕ) (rows : List RefreshRow)
      {rows' : List RefreshRow} {r : Refresh} (cs : List (Driver × RefreshCall))
      → OneRowPerHash rows
      → IsUp db'
      → consume_refresh hash db token client_id at rows ≡ (rows', consumed r)
      → consume_refresh hash db' token client_id at' (run hash lower rows' cs)
        ≡ (run hash lower rows' cs, reused r)
  consume_refresh-reused db db' token client_id at at' rows {rows'} cs d ready e =
      let (tomb, same) = consume-Tombstone hash db token client_id at rows d e in
      let (_, _, changed, _) = consumed_inversion hash db token client_id at rows e in
      let kept : OneRowPerHash rows' =
        Effect-OneRowPerHash hash (consumed_by (hash token) client_id at changed) d in
      Tombstone-answer hash db' token client_id at' (run hash lower rows' cs)
        (run-OneRowPerHash rows' cs kept) ready same (run-Tombstone rows' cs tomb)

  hands_out_spent :
      (token : String) (rows : List RefreshRow) (c : Driver × RefreshCall) {client_id : String}
      {r : Refresh}
      → OneRowPerHash rows
      → Tombstone (hash token) client_id r rows
      → hands_out hash lower token rows c ≡ false
  unfolding hands_out
  hands_out_spent token rows (db, consume t client_id at) d tomb = elim (Bool-cases (t == token)) [
    | inl same ↦
        rw ((eq_iff t token).0 same, eq_refl) (not_consumed hash db token client_id at rows d tomb)
    | inr other ↦ rw other
  ]
  hands_out_spent token rows (db, save _) d tomb = refl
  hands_out_spent token rows (db, revoke_family _ _) d tomb = refl
  hands_out_spent token rows (db, revoke_email _ _) d tomb = refl
  hands_out_spent token rows (db, revoke_subject _ _ _) d tomb = refl

  handed_out-Tombstone :
      (token : String) (rows : List RefreshRow) (c : Driver × RefreshCall)
      → OneRowPerHash rows
      → hands_out hash lower token rows c ≡ true
      → (client_id : String) × (r : Refresh) × Tombstone
          (hash token)
          client_id
          r
          (step hash lower rows c)
  unfolding hands_out step
  handed_out-Tombstone token rows (db, consume t client_id at) d h =
      let given = consume_refresh hash db t client_id at rows in
      let (r, answer) =
        is_consumed_inversion given.1 (and_right (t == token) (is_consumed given.1) h) in
      let same : t ≡ token = (eq_iff t token).0 (and_left (t == token) (is_consumed given.1) h) in
      let tomb : Tombstone (hash t) client_id r given.0 =
        (consume-Tombstone hash db t client_id at rows d (ap (λ o. (given.0, o)) answer)).0 in
      (client_id, r, subst (λ s. Tombstone (hash s) client_id r given.0) same tomb)
  handed_out-Tombstone token rows (db, save _) d h = cc
  handed_out-Tombstone token rows (db, revoke_family _ _) d h = cc
  handed_out-Tombstone token rows (db, revoke_email _ _) d h = cc
  handed_out-Tombstone token rows (db, revoke_subject _ _ _) d h = cc

  times_handed_out_spent :
      (token : String) (rows : List RefreshRow) (cs : List (Driver × RefreshCall))
      {client_id : String} {r : Refresh}
      → OneRowPerHash rows
      → Tombstone (hash token) client_id r rows
      → times_handed_out hash lower token rows cs ≡ 0
  unfolding times_handed_out
  times_handed_out_spent token rows [] d tomb = refl
  times_handed_out_spent token rows (c ∷ cs) d tomb =
      let effect = step-Effect hash lower rows c in
      rw (hands_out_spent token rows c d tomb) (
        omega (
          arith,
          times_handed_out_spent token (step hash lower rows c) cs
              (Effect-OneRowPerHash hash effect d) (Effect-Tombstone hash effect tomb),
        ))

  -- From a table with one row for each hash: of any number of presentations of one token, by any
  -- clients, in any order and among any other calls, at most one is answered with the token.
  pub times_handed_out-le-one :
      (token : String) (rows : List RefreshRow) (cs : List (Driver × RefreshCall))
      → OneRowPerHash rows
      → times_handed_out hash lower token rows cs ≤ 1
  unfolding times_handed_out
  times_handed_out-le-one token rows [] d = omega arith
  times_handed_out-le-one token rows (c ∷ cs) d =
      elim (Bool-cases (hands_out hash lower token rows c)) [
        | inl handed ↦
            let (_, _, tomb) = handed_out-Tombstone token rows c d handed in
            rw handed (
              omega (
                arith,
                times_handed_out_spent token (step hash lower rows c) cs
                    (Effect-OneRowPerHash hash (step-Effect hash lower rows c) d) tomb,
              ))
        | inr other ↦ rw other (
            omega (
              arith,
              times_handed_out-le-one token (step hash lower rows c) cs
                  (Effect-OneRowPerHash hash (step-Effect hash lower rows c) d),
            ))
      ]
