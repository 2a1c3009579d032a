-- ===== src/State/Refresh/Family.antt =====
-- state/sqlite/refresh.go: the family of a token that ConsumeRefresh hands out or reports as
-- reused has a row, so that its revocation finds it.
use tempogate.Common.{
  ℕ, String, ◌≡◌, ◌∙◌, true, some, List, arith, eq_refl, any, any_by_first, any-update_eq, first,
}
use tempogate.Oidc.Model.{Refresh}
use tempogate.State.Driver.{Driver}
use tempogate.State.Refresh.{
  RefreshRow, consumed, reused, consume_refresh, scan_refresh, in_family, live_for, spent_for,
  consume_row,
}
use tempogate.State.Refresh.Reuse.{consumed_inversion}

module _ (hash : String → String) (db : Driver) (token client_id : String) (at : ℕ)
    (rows : List RefreshRow) {rows' : List RefreshRow} {rt : Refresh} where
  reused_inversion :
      consume_refresh hash db token client_id at rows ≡ (rows', reused rt)
      → (x : RefreshRow) × (first (spent_for (hash token) client_id) rows ≡ some x)
        × (rows' ≡ rows)
        × (rt ≡ scan_refresh token x)
  unfolding consume_refresh
  reused_inversion e = ground arith

  pub reused-known :
      consume_refresh hash db token client_id at rows ≡ (rows', reused rt)
      → any (in_family rt.family_id) rows' ≡ true
  reused-known e =
      let (x, hit, same, scanned) = reused_inversion e in
      rw (same, scanned)
        (any_by_first (spent_for (hash token) client_id) (in_family x.family_id) rows hit
          (eq_refl x.family_id))

  pub consumed-known :
      consume_refresh hash db token client_id at rows ≡ (rows', consumed rt)
      → any (in_family rt.family_id) rows' ≡ true
  consumed-known e =
      let (x, hit, changed, scanned) = consumed_inversion hash db token client_id at rows e in
      rw (changed, scanned)
        (any-update_eq (in_family x.family_id) (live_for (hash token) client_id) (consume_row at)
            rows (λ y. ground arith)
          ∙ any_by_first (live_for (hash token) client_id) (in_family x.family_id) rows hit
              (eq_refl x.family_id))
