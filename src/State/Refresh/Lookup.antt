-- ===== src/State/Refresh/Lookup.antt =====
-- The refresh_tokens table as a partial function from hashes to rows, and ConsumeRefresh over it.
use tempogate.Common.{
  ℕ, String, ◌≡◌, refl, ap, ◌∙◌, Bool, ◌&&◌, Option, none, some, List, ◌∷◌, arith, update_none,
  none_of_first, entry_key, ◌==◌, eq_refl, if◌then◌else◌, is_some, first, update, inl, inr,
  Option-cases, entry, entry-update, first_under,
}
use mathlib.Core.Option
use tempogate.Oidc.Model.{Refresh}
use tempogate.State.Driver.{Driver, IsUp}
use tempogate.State.Refresh.{
  RefreshRow, ConsumeResult, consumed, reused, not_found, saved, scan_refresh, live_for, is_live,
  consume_row, row_of, save_refresh, consume_refresh,
}
use tempogate.State.Refresh.Reuse.{hash_of, OneRowPerHash}

-- Whether a row is a live token of the client.
abbrev is_live_of : String → RefreshRow → Bool
is_live_of client_id x = (x.client_id == client_id) && is_live x

-- How a client is answered that presents the token of a row: a live token is handed out, one
-- that was handed out before is a reuse, and another client's or a revoked one is not found.
abbrev pub answer : String → String → Option RefreshRow → ConsumeResult
answer token client_id none = not_found
answer token client_id (some x) =
    if x.client_id == client_id
    then (if is_some x.consumed_at
        then reused (scan_refresh token x)
        else if is_some x.revoked_at
        then not_found
        else consumed (scan_refresh token x))
    else not_found

-- What a presentation leaves of the presented token's row.
abbrev pub stamped : String → ℕ → RefreshRow → RefreshRow
stamped client_id at x = if is_live_of client_id x then consume_row at x else x

-- The statement that stamps a live row does so under its hash only.
entry-stamped :
    (h client_id k : String) (at : ℕ) (rows : List RefreshRow)
    → entry hash_of k (update (live_for h client_id) (consume_row at) rows) ≡ (
        if k == h
        then Option.map (stamped client_id at) (entry hash_of k rows)
        else entry hash_of k rows)
entry-stamped h client_id k at rows =
    entry-update hash_of k (live_for h client_id) (consume_row at) rows (λ x. refl)
    ∙ elim (Option-cases (entry hash_of k rows)) [
      | inl absent ↦ rw absent (ground arith)
      | inr (x, e) ↦
          let same : x.token_hash ≡ k = entry_key hash_of k rows e in rw (e, same) (ground arith)
    ]

module _ (hash : String → String) where
  -- Either way the table is the one that the first statement leaves.
  consume-rows :
      (db : Driver) (token client_id : String) (at : ℕ) (rows : List RefreshRow)
      → IsUp db
      → (consume_refresh hash db token client_id at rows).0
        ≡ update (live_for (hash token) client_id) (consume_row at) rows
  unfolding consume_refresh
  consume-rows db token client_id at rows ready =
      elim (Option-cases (first (live_for (hash token) client_id) rows)) [
        | inl miss ↦
            let same : update (live_for (hash token) client_id) (consume_row at) rows ≡ rows =
              update_none _ (consume_row at) rows (none_of_first _ rows miss) in
            ground (arith, ready 0, ready 1, same)
        | inr (x, hit) ↦ ground (arith, ready 0)
      ]

  consume-answer :
      (db : Driver) (token client_id : String) (at : ℕ) (rows : List RefreshRow)
      → OneRowPerHash rows
      → IsUp db
      → (consume_refresh hash db token client_id at rows).1
        ≡ answer token client_id (entry hash_of (hash token) rows)
  unfolding consume_refresh
  consume-answer db token client_id at rows d ready = ground (
    arith,
    ready 0,
    ready 1,
    first_under hash_of (hash token) (is_live_of client_id) rows d,
    first_under hash_of (hash token) (λ x. (x.client_id == client_id) && is_some x.consumed_at) rows
        d,
  )

  -- ConsumeRefresh over that function, for a table with one row for each hash and a driver that
  -- answers: the answer is read off the token's row; that row is stamped exactly when it is a
  -- live token of the client, and the row under every other hash is left as it was.
  pub consume_refresh-answer :
      (db : Driver) (token client_id : String) (at : ℕ) (rows : List RefreshRow) (k : String)
      → OneRowPerHash rows
      → IsUp db
      → ((consume_refresh hash db token client_id at rows).1
          ≡ answer token client_id (entry hash_of (hash token) rows))
        × (entry hash_of k (consume_refresh hash db token client_id at rows).0 ≡ (
            if k == hash token
            then Option.map (stamped client_id at) (entry hash_of k rows)
            else entry hash_of k rows))
  consume_refresh-answer db token client_id at rows k d ready = (
    consume-answer db token client_id at rows d ready,
    ap (entry hash_of k) (consume-rows db token client_id at rows ready)
        ∙ entry-stamped (hash token) client_id k at rows,
  )

  -- A token that SaveRefresh stored is handed out to its client, by a driver that answers, with
  -- all its fields.
  pub consume_refresh-save :
      (db db' : Driver) (r : Refresh) (at : ℕ) (rows : List RefreshRow) {rows' : List RefreshRow}
      → IsUp db'
      → save_refresh hash db r rows ≡ (rows', saved)
      → (consume_refresh hash db' r.token r.client_id at rows').1 ≡ consumed r
  unfolding save_refresh consume_refresh first
  consume_refresh-save db db' r at rows {rows'} ready e =
      let changed : rows' ≡ row_of hash r ∷ rows = ground arith in
      rw (changed, ready 0, eq_refl, eq_refl)
