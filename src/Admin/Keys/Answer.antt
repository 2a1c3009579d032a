-- ===== src/Admin/Keys/Answer.antt =====
-- admin/keys.go, list: its answer with a database that is up, in terms of the rows behind the cursor.
use tempogate.Common.{
  ℕ, zero, suc, ◌+◌, ◌-◌, ◌<◌, String, ◌≡◌, refl, ◌⊎◌, Bool, true, ltb, List, [], ◌∷◌, ◌++◌, map,
  ◌==◌, arith, length, Bool-cases, inl, inr,
}
use tempogate.Common.Ordered.{IsOrder}
use tempogate.Common.Limit.{ℤ, pos, negsuc, take, Page, take_more, take_whole}
use tempogate.State.Driver.{Driver, IsUp}
use tempogate.State.IntegrationKeys.{IntegrationKey, KeyTables, ListResult, list_integration_keys}
use tempogate.Admin.Keys.{Keys, ListInput, ListOutput, view_of, clamped, page, list, max_list_limit}
use tempogate.Admin.Keys.Walk.{rows_of}

plus_one : (n : ℕ) → n + 1 ≡ suc n
plus_one n = omega arith

suc_minus : (n : ℕ) → suc n - 1 ≡ n
suc_minus n = omega arith

clamped_positive : (z : ℤ) → (m : ℕ) × (clamped z ≡ suc m)
clamped_positive (pos zero) = (49, refl)
clamped_positive (pos (suc n)) = elim (Bool-cases (ltb max_list_limit (suc n))) [
  | inl e ↦ (199, rw e refl)
  | inr e ↦ (n, rw e refl)
]
clamped_positive (negsuc n) = (49, refl)

-- The answer that ends a listing, and one that goes on behind its last row.
abbrev pub Ends : List IntegrationKey → ListOutput → Type 0
Ends rows out = out ≡ ListOutput.listed (map view_of rows) ""

pub record GoesOn (rows : List IntegrationKey) (out : ListOutput) : Type 0 where
  pub front : List IntegrationKey
  pub last : IntegrationKey
  pub rest : List IntegrationKey
  pub parts : rows ≡ front ++ last ∷ rest
  pub shorter : length rest < length rows
  pub answer : out ≡ ListOutput.listed (map view_of (front ++ last ∷ [])) last.id

page_lem :
    (m : ℕ) (rows : List IntegrationKey)
    → Ends rows (page (suc m) (ListResult.listed (take (suc (suc m)) rows)))
      ⊎ GoesOn rows (page (suc m) (ListResult.listed (take (suc (suc m)) rows)))
page_lem m rows =
    let read = take (suc (suc m)) rows in
    elim (Bool-cases (ltb (suc m) (length read))) [
      | inl more ↦
          let p : Page m rows read = take_more m rows (ground (arith, more)) in
          inr (record {
            front = p.front;
            last = p.last;
            rest = p.rest;
            parts = p.parts;
            shorter = p.shorter;
            answer = rw (more, suc_minus m, p.cursor, p.shown) refl;
          })
      | inr e ↦ inl (rw e (rw (take_whole (suc m) rows (ground (arith, e))) refl))
    ]

module _ (h : Keys) {before : String → String → Bool} (o : IsOrder before) (db : Driver)
    (live : IsUp db) where
  list-page :
      (input : ListInput) (t : KeyTables) (m : ℕ)
      → clamped input.limit ≡ suc m
      → ((input.cursor == "") ≡ true) ⊎ (h.is_uuid input.cursor ≡ true)
      → list h before db input t
        ≡ page (suc m) (ListResult.listed (take (suc (suc m)) (rows_of o input t)))
  unfolding list list_integration_keys rows_of
  list-page input t m e (inl c) = rw (e, plus_one (suc m), live 0, live 1, live 2, c) refl
  list-page input t m e (inr c) = elim (Bool-cases (input.cursor == "")) [
    | inl first ↦ rw (e, plus_one (suc m), live 0, live 1, live 2, first) refl
    | inr next ↦ rw (e, plus_one (suc m), live 0, live 1, live 2, next, c) refl
  ]

  pub list_lem :
      (input : ListInput) (t : KeyTables)
      → ((input.cursor == "") ≡ true) ⊎ (h.is_uuid input.cursor ≡ true)
      → Ends (rows_of o input t) (list h before db input t)
        ⊎ GoesOn (rows_of o input t) (list h before db input t)
  list_lem input t c =
      let (m, e) = clamped_positive input.limit in
      rw (list-page input t m e c) (page_lem m (rows_of o input t))
