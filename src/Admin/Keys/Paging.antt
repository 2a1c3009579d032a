-- ===== src/Admin/Keys/Paging.antt =====
-- admin/keys.go, list: what a client reads that follows next_cursor to the end.
use tempogate.Common.{
  ℕ, zero, suc, ◌<◌, String, ◌≡◌, refl, sym, ap, ◌∙◌, ◌⊎◌, Bool, true, false, some, List, [], ◌∷◌,
  ◌++◌, map, ◌==◌, eq_iff, arith, length, All, any, Distinct, Bool-cases, inl, inr,
}
use mathlib.Core.List.{Perm, append_assoc}
use tempogate.Common.Ordered.{
  IsOrder, select, sort, Descending, sort-perm, sort-Descending, sort-select, sort-All, All-select,
  All-append_right, Descending-select, select_below, any_self,
}
use tempogate.State.Driver.{Driver, IsUp}
use tempogate.State.IntegrationKeys.{IntegrationKey, KeyTables, id_of, wanted}
use tempogate.Admin.Keys.{Keys, ListInput, view_of}
use tempogate.Admin.Keys.Walk.{
  walk, follow, Grows, listing, below, rows_of, rows_of-first, rows_of-next, rows_of-grown,
}
use tempogate.Admin.Keys.Answer.{list_lem}

not_blank : (p : String → Bool) (s : String) → p "" ≡ false → p s ≡ true → (s == "") ≡ false
not_blank p s blank h = elim (Bool-cases (s == "")) [
  | inl e ↦ cc (blank, rw ((eq_iff s "").0 e) at h)
  | inr e ↦ e
]

map-parts {ℓ κ} :
    {A : Type ℓ} {B : Type κ} (f : A → B) (xs : List A) (x : A) (ys : List A)
    → map f (xs ++ x ∷ []) ++ map f ys ≡ map f (xs ++ x ∷ ys)
map-parts f [] x ys = refl
map-parts f (z ∷ xs) x ys = ap (◌∷◌ (f z)) (map-parts f xs x ys)

module _ (h : Keys) {before : String → String → Bool} (o : IsOrder before) (db : Driver)
    (live : IsUp db) where
  -- From a cursor on, the walk reads what is behind it, given that each row's cursor leads to the
  -- rows behind that row in whatever table the next request finds.
  walk-rest :
      (fuel : ℕ) (tables : ℕ → KeyTables) (input : ListInput) (all front rows : List IntegrationKey)
      → ((a : List IntegrationKey) (r : IntegrationKey) (b : List IntegrationKey)
          → all ≡ a ++ r ∷ b
          → ((r.id == "") ≡ false)
            × (h.is_uuid r.id ≡ true)
            × ((n : ℕ) → rows_of o (record input { cursor = r.id }) (tables n) ≡ b))
      → (c : String) → ((c == "") ≡ true) ⊎ (h.is_uuid c ≡ true)
      → all ≡ front ++ rows
      → rows_of o (record input { cursor = c }) (tables 0) ≡ rows
      → length rows < fuel
      → walk h before db fuel tables (record input { cursor = c }) ≡ some (map view_of rows)
  unfolding walk
  walk-rest zero tables input all front rows next c valid e here lt = absurd (omega arith)
  walk-rest (suc fuel) tables input all front rows next c valid e here lt =
      elim (list_lem h o db live (record input { cursor = c }) (tables 0) valid) [
        | inl end ↦ ap (follow _) end ∙ rw here refl
        | inr more ↦
            let split : rows ≡ more.front ++ more.last ∷ more.rest = sym here ∙ more.parts in
            let parts : all ≡ (front ++ more.front) ++ more.last ∷ more.rest =
              e ∙ ap (λ r. front ++ r) split ∙ sym (append_assoc front more.front _) in
            let (named, uuid, later) = next _ more.last more.rest parts in
            let on : walk h before db fuel (λ n. tables (suc n))
                  (record input { cursor = more.last.id })
                ≡ some (map view_of more.rest) =
              walk-rest fuel (λ n. tables (suc n)) input all
                ((front ++ more.front) ++ more.last ∷ []) more.rest
                (λ a r b p. ((next a r b p).0, (next a r b p).1, λ n. (next a r b p).2 (suc n)))
                more.last.id (inr uuid)
                (parts ∙ sym (append_assoc (front ++ more.front) (more.last ∷ []) more.rest))
                (later (suc zero)) (omega (arith, lt, more.shorter, ap length here)) in
            ap (follow _) more.answer
            ∙ rw (named, on) (ap some (map-parts view_of more.front more.last more.rest))
            ∙ ap (λ r. some (map view_of r)) (sym split)
      ]

  -- What holds of every key of the table holds of the rows of the listing.
  All-listing {κ} :
      (P : IntegrationKey → Type κ) (input : ListInput) (t : KeyTables)
      → All P t.keys
      → All P (listing before input t)
  All-listing P input t a =
      All-select P (wanted input.owner input.namespace) (sort id_of before t.keys)
        (sort-All id_of before P t.keys a)

  listing-Descending :
      (input : ListInput) (t : KeyTables)
      → Distinct id_of t.keys
      → Descending id_of before (listing before input t)
  listing-Descending input t d =
      Descending-select id_of o (wanted input.owner input.namespace) (sort id_of before t.keys)
        (sort-Descending id_of o t.keys d)

  -- A row's id, as a cursor, leads to the rows behind it in each table that the first one grows to.
  rows_of-behind :
      (tables : ℕ → KeyTables) (input : ListInput)
      → ((n : ℕ) → Grows before (tables n).keys (tables (suc n)).keys)
      → Distinct id_of (tables 0).keys
      → (a : List IntegrationKey) (r : IntegrationKey) (b : List IntegrationKey)
      → listing before input (tables 0) ≡ a ++ r ∷ b
      → (r.id == "") ≡ false
      → (n : ℕ) → rows_of o (record input { cursor = r.id }) (tables n) ≡ b
  rows_of-behind tables input grows d a r b e named n =
      let at = record input { cursor = r.id } in
      let kept = All-listing _ input (tables 0) (any_self id_of (tables 0).keys) in
      let here : any (λ k. id_of k == r.id) (tables 0).keys ≡ true =
        (All-append_right _ a (r ∷ b) (rw e at kept)).0 in
      (rows_of-grown o at tables grows named here n).1
      ∙ rows_of-next o at (tables 0) d named
      ∙ ap (select (below before r.id)) e
      ∙ select_below id_of o a r b (rw e at (listing-Descending input (tables 0) d))

  -- A client that follows next_cursor from the first page to the end, while keys are minted between
  -- its requests, reads the keys that the table had at its first request and that its filter wants,
  -- each once and by descending id, whatever page size it asks for. Assumed: the database is up and
  -- orders texts strictly and totally; the ids are distinct and UUIDs, "" is none; an id minted in
  -- between is above those of the table; the client asks often enough, which it does if it may ask
  -- once more than there are rows to read.
  pub walk-listing :
      (tables : ℕ → KeyTables) (input : ListInput) (fuel : ℕ)
      → input.cursor ≡ ""
      → Distinct id_of (tables 0).keys
      → h.is_uuid "" ≡ false
      → All (λ k. h.is_uuid k.id ≡ true) (tables 0).keys
      → ((n : ℕ) → Grows before (tables n).keys (tables (suc n)).keys)
      → length (listing before input (tables 0)) < fuel
      → (walk h before db fuel tables input ≡ some (map view_of (listing before input (tables 0))))
        × Perm
            (listing before input (tables 0))
            (select (wanted input.owner input.namespace) (tables 0).keys)
        × Descending id_of before (listing before input (tables 0))
  walk-listing tables input fuel start d blank uuids grows lt =
      let w = wanted input.owner input.namespace in
      (
        walk-rest fuel tables input (listing before input (tables 0)) []
            (listing before input (tables 0))
            (λ a r b e.
              let uuid : h.is_uuid r.id ≡ true =
                (All-append_right _ a (r ∷ b) (rw e at (All-listing _ input (tables 0) uuids))).0 in
              let named : (r.id == "") ≡ false = not_blank h.is_uuid r.id blank uuid in
              (named, uuid, rows_of-behind tables input grows d a r b e named))
            input.cursor (inl (rw start refl)) refl (rows_of-first o input (tables 0) d start) lt,
        rw (sort-select id_of o w (tables 0).keys d) at
            (sort-perm id_of before (select w (tables 0).keys)),
        listing-Descending input (tables 0) d,
      )
