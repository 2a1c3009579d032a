-- ===== src/State/Refresh/Revocation.antt =====
-- Revocation of refresh-token families: what RevokeRefreshFamily reports, and what can still
-- happen to a family that it ended.
use tempogate.Common.{
  zero, suc, ap, any_anti, update_none, ℕ, String, ◌≡◌, ◌≢◌, refl, sym, ◌∙◌, Bool, true, false,
  ◌&&◌, ◌⊎◌, inl, inr, List, [], ◌∷◌, arith, ◌==◌, eq_iff, is_none, first_holds, any, any_by_first,
  update, count, Bool-cases, any-update_imp, any-update_not, any-update_eq, any-update_out,
  count_ext, count_none,
}
use tempogate.Oidc.Model.{Refresh}
use tempogate.State.Driver.{Driver, IsUp}
use tempogate.State.Refresh.{
  RefreshRow, RevokeResult, revoked, session_not_found, family_revoked, consumed, in_family,
  revoked_in, is_live, unrevoked, revoke_row, live_for, revoke_refresh, revoke_refresh_family,
  check_family, save_refresh, consume_refresh,
}
use tempogate.State.Refresh.Reuse.{consumed_inversion}
use tempogate.State.Refresh.History.{
  RefreshCall, Effect, unchanged, inserted, consumed_by, revoked_by, run, step, step-Effect,
}

-- family_id = ? AND revoked_at IS NULL
abbrev unrevoked_in : String → RefreshRow → Bool
unrevoked_in family_id = unrevoked (in_family family_id)

abbrev pub live_in : String → RefreshRow → Bool
live_in family_id r = in_family family_id r && is_live r

-- A family that has rows, all of them revoked.
pub record IsRevoked (family_id : String) (rows : List RefreshRow) : Type 0 where
  pub some_row : any (revoked_in family_id) rows ≡ true
  pub no_other : any (unrevoked_in family_id) rows ≡ false

module _ (hash : String → String) (f : String) where
  Effect-IsRevoked :
      {rows rows' : List RefreshRow} → Effect hash rows rows' → IsRevoked f rows → IsRevoked f rows'
  unfolding any
  Effect-IsRevoked (unchanged e) v = rw e v
  Effect-IsRevoked {rows} (inserted r alive free e) v = elim (Bool-cases (r.family_id == f)) [
    | inl same ↦ cc (rw ((eq_iff r.family_id f).0 same) at alive, v.some_row)
    | inr other ↦
        rw e
          (record { some_row = ground (arith, v.some_row); no_other = ground (arith, v.no_other) })
  ]
  Effect-IsRevoked {rows} (consumed_by h client_id at e) v = rw e (record {
    some_row =
        any-update_imp (revoked_in f) (revoked_in f) _ _ rows (λ x h. ground arith) v.some_row;
    no_other =
        any-update_not (unrevoked_in f) (unrevoked_in f) _ _ rows (λ x h. ground arith) v.no_other;
  })
  Effect-IsRevoked {rows} (revoked_by p at e) v = rw e (record {
    some_row =
        any-update_imp (revoked_in f) (revoked_in f) _ _ rows (λ x h. ground arith) v.some_row;
    no_other =
        any-update_not (unrevoked_in f) (unrevoked_in f) _ _ rows (λ x h. ground arith) v.no_other;
  })

-- A revocation by a clause leaves no unrevoked row to it.
update-IsRevoked :
    (f : String) (at : ℕ) (rows : List RefreshRow)
    → any (in_family f) rows ≡ true
    → IsRevoked f (update (unrevoked_in f) (revoke_row at) rows)
update-IsRevoked f at rows present = record {
  some_row =
      any-update_imp (in_family f) (revoked_in f) (unrevoked_in f) (revoke_row at) rows
        (λ x h. ground arith) present;
  no_other = any-update_out (unrevoked_in f) (revoke_row at) rows (λ x. ground arith);
}

revoke_refresh_up :
    (db : Driver) (p : RefreshRow → Bool) (at : ℕ) (rows : List RefreshRow)
    → IsUp db
    → revoke_refresh db p at rows ≡ (
      update (unrevoked p) (revoke_row at) rows,
      revoked (count (λ r. unrevoked p r && is_none r.consumed_at) rows),
    )
unfolding revoke_refresh
revoke_refresh_up db p at rows ready = rw (ready 0, ready 1)

check_family_present :
    (db : Driver) (f : String) (rows : List RefreshRow) (n : ℕ)
    → IsUp db
    → any (in_family f) rows ≡ true
    → check_family db f (rows, revoked n) ≡ (rows, revoked n)
check_family_present db f rows zero ready h = rw (ready 2, h)
check_family_present db f rows (suc n) ready h = refl

module _ (db : Driver) (f : String) (at : ℕ) (rows : List RefreshRow) where
  -- With a driver that answers, the revocation of a family that the table does not know reports
  -- it as not found and changes nothing; that of a known family reports how many of its tokens
  -- were live, and leaves it with rows that are all revoked.
  pub revoke_refresh_family-outcome :
      IsUp db
      → ((any (in_family f) rows ≡ false)
          × (revoke_refresh_family db f at rows ≡ (rows, session_not_found)))
        ⊎ ((any (in_family f) rows ≡ true)
            × ((revoke_refresh_family db f at rows).1 ≡ revoked (count (live_in f) rows))
            × IsRevoked f (revoke_refresh_family db f at rows).0)
  unfolding revoke_refresh_family
  revoke_refresh_family-outcome ready = elim (Bool-cases (any (in_family f) rows)) [
    | inl present ↦
        let kept : any (in_family f) rows' ≡ true =
          any-update_eq (in_family f) (unrevoked_in f) (revoke_row at) rows (λ x. ground arith)
          ∙ present in
        let ended : revoke_refresh_family db f at rows ≡ (rows', revoked n) =
          rw (revoke_refresh_up db (in_family f) at rows ready)
            (check_family_present db f rows' n ready kept) in
        inr (
          present,
          ap (λ o. o.1) ended ∙ ap revoked (count_ext _ _ rows (λ r. ground arith)),
          rw ended (update-IsRevoked f at rows present),
        )
    | inr absent ↦
        let same : rows' ≡ rows =
          update_none (unrevoked_in f) (revoke_row at) rows
            (any_anti (unrevoked_in f) (in_family f) rows (λ x h. ground arith) absent) in
        let none_live : n ≡ 0 =
          count_none _ rows (any_anti _ (in_family f) rows (λ x h. ground arith) absent) in
        inl (
          absent,
          rw (revoke_refresh_up db (in_family f) at rows ready, same, none_live, ready 2, absent),
        )
  ]
    where
      rows' : List RefreshRow
      rows' = update (unrevoked_in f) (revoke_row at) rows

      n : ℕ
      n = count (λ r. unrevoked_in f r && is_none r.consumed_at) rows

check_family_inversion :
    (db : Driver) (f : String) (o : List RefreshRow × RevokeResult) {rows : List RefreshRow} {n : ℕ}
    → check_family db f o ≡ (rows, revoked n)
    → (o ≡ (rows, revoked n)) × ((n ≡ 0) → any (in_family f) rows ≡ true)
check_family_inversion db f (rows', revoked zero) e = (ground arith, λ z. ground arith)
check_family_inversion db f (rows', revoked (suc m)) e = (e, λ z. ground arith)
check_family_inversion db f (rows', session_not_found) e = cc
check_family_inversion db f (rows', RevokeResult.failed) e = cc

revoke_refresh_inversion :
    (db : Driver) (p : RefreshRow → Bool) (at : ℕ) (rows : List RefreshRow)
    {rows' : List RefreshRow} {n : ℕ}
    → revoke_refresh db p at rows ≡ (rows', revoked n)
    → (rows' ≡ update (unrevoked p) (revoke_row at) rows)
      × (n ≡ count (λ r. unrevoked p r && is_none r.consumed_at) rows)
unfolding revoke_refresh
revoke_refresh_inversion db p at rows e = ground arith

-- A revocation that reports a number, zero included, leaves the family revoked.
pub revoke_refresh_family-IsRevoked :
    (db : Driver) (f : String) (at : ℕ) (rows : List RefreshRow) {rows' : List RefreshRow} {n : ℕ}
    → revoke_refresh_family db f at rows ≡ (rows', revoked n)
    → IsRevoked f rows'
unfolding revoke_refresh_family
revoke_refresh_family-IsRevoked db f at rows {rows'} {n} e =
    let (answer, known) = check_family_inversion db f (revoke_refresh db (in_family f) at rows) e in
    let (changed, counted) = revoke_refresh_inversion db (in_family f) at rows answer in
    elim (Bool-cases (any (in_family f) rows)) [
      | inl present ↦ rw changed (update-IsRevoked f at rows present)
      | inr absent ↦
          let none_live : n ≡ 0 =
            counted
            ∙ count_none _ rows (any_anti _ (in_family f) rows (λ x h. ground arith) absent) in
          let kept : any (in_family f) (update (unrevoked_in f) (revoke_row at) rows)
              ≡ any (in_family f) rows =
            any-update_eq (in_family f) (unrevoked_in f) (revoke_row at) rows (λ x. ground arith) in
          cc (known none_live, kept, absent)
    ]

module _ (hash lower : String → String) (f : String) where
  run-IsRevoked :
      (rows : List RefreshRow) (cs : List (Driver × RefreshCall))
      → IsRevoked f rows
      → IsRevoked f (run hash lower rows cs)
  unfolding run
  run-IsRevoked rows [] v = v
  run-IsRevoked rows (c ∷ cs) v =
      run-IsRevoked (step hash lower rows c) cs
        (Effect-IsRevoked hash f (step-Effect hash lower rows c) v)

  module _ (db : Driver) (at : ℕ) (rows : List RefreshRow) {rows' : List RefreshRow} {n : ℕ}
      (ended : revoke_refresh_family db f at rows ≡ (rows', revoked n))
      (cs : List (Driver × RefreshCall)) where
    later : List RefreshRow
    later = run hash lower rows' cs

    later-IsRevoked : IsRevoked f later
    unfolding later
    later-IsRevoked = run-IsRevoked rows' cs (revoke_refresh_family-IsRevoked db f at rows ended)

    -- After a revocation that reports a number of tokens, whatever calls follow, the family has no
    -- live token, and a SaveRefresh of one, under a driver that answers, reports the family as
    -- revoked and changes nothing.
    pub save_refresh-revoked :
        (db' : Driver) (r : Refresh)
        → IsUp db'
        → r.family_id ≡ f
        → (any (live_in f) (run hash lower rows' cs) ≡ false)
          × (save_refresh hash db' r (run hash lower rows' cs)
              ≡ (run hash lower rows' cs, family_revoked))
    unfolding save_refresh later
    save_refresh-revoked db' r ready same = (
      any_anti (live_in f) (unrevoked_in f) later (λ x h. ground arith) later-IsRevoked.no_other,
      (let gone : any (revoked_in r.family_id) later ≡ true = rw same later-IsRevoked.some_row in
          ground (arith, ready 0, ready 1, gone)),
    )

    -- After a revocation that reports a number of tokens, whatever calls follow, a token that
    -- ConsumeRefresh hands out is of another family.
    pub consume_refresh-revoked :
        (db' : Driver) (token client_id : String) (at' : ℕ) {rows'' : List RefreshRow} {r : Refresh}
        → consume_refresh hash db' token client_id at' (run hash lower rows' cs)
          ≡ (rows'', consumed r)
        → r.family_id ≢ f
    unfolding later
    consume_refresh-revoked db' token client_id at' e same =
        let (x, hit, _, scanned) = consumed_inversion hash db' token client_id at' later e in
        let live : live_for (hash token) client_id x ≡ true =
          first_holds (live_for (hash token) client_id) later hit in
        let in_f : in_family f x ≡ true =
          (eq_iff x.family_id f).1 (ap (λ r. r.family_id) (sym scanned) ∙ same) in
        cc (
          later-IsRevoked.no_other,
          any_by_first (live_for (hash token) client_id) (unrevoked_in f) later hit
              (ground (arith, live, in_f)),
        )
