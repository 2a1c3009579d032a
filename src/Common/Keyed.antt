-- ===== src/Common/Keyed.antt =====
-- Tables with a primary key: at most one row for each key, and the row that a key leads to.
use Prim.Native.String.{String}
use mathlib.Core.Path.{◌≡◌, refl, ◌∙◌}
use mathlib.Core.Logic.{inl, inr}
use mathlib.Core.Bool.{Bool, true, false, ◌&&◌}
use mathlib.Core.Option
use mathlib.Core.Option.{Option, none, some}
use mathlib.Core.List.{List, [], ◌∷◌}
use text.Mathlib.Text.{◌==◌}
use text.Mathlib.TextEquality.{eq_iff}
use native.Mathlib.Omega.{arith}
use tempogate.Common.Tests.{if◌then◌else◌, Bool-cases}
use tempogate.Common.Rows.{delete, first, any, update, any-delete}

pub map-some {ℓ κ} :
    {A : Type ℓ} {B : Type κ} (f : A → B) {o : Option A} {a : A}
    → o ≡ some a
    → Option.map f o ≡ some (f a)
map-some f e = rw e

module _ {ℓ} {A : Type ℓ} (key : A → String) where
  -- The row under a key.
  unfoldable pub entry : String → List A → Option A
  entry k = first (λ x. key x == k)

  -- PRIMARY KEY: no two rows have one key.
  abbrev pub Distinct : List A → Type 0
  Distinct [] = Unit
  Distinct (x ∷ xs) = (any (λ y. key y == key x) xs ≡ false) × Distinct xs

  pub any-entry :
      (k : String) (xs : List A) {x : A} → entry k xs ≡ some x → any (λ y. key y == k) xs ≡ true
  unfolding entry first any
  any-entry k [] h = cc
  any-entry k (x ∷ xs) {x = y} h = ground (arith, any-entry k xs {x = y})

  pub entry_key : (k : String) (xs : List A) {x : A} → entry k xs ≡ some x → key x ≡ k
  unfolding entry first
  entry_key k [] h = cc
  entry_key k (x ∷ xs) {x = y} h = ground (arith, eq_iff (key x) k, entry_key k xs {x = y})

  -- A new row hides the others of its key, and no others.
  pub entry-cons :
      (k : String) (x : A) (xs : List A)
      → entry k (x ∷ xs) ≡ (if key x == k then some x else entry k xs)
  unfolding entry first
  entry-cons k x xs = refl

  -- An update that leaves the key alone changes the row under a key in place.
  pub entry-update :
      (k : String) (p : A → Bool) (f : A → A) (xs : List A)
      → ((x : A) → key (f x) ≡ key x)
      → entry k (update p f xs) ≡ Option.map (λ x. if p x then f x else x) (entry k xs)
  unfolding entry first update
  entry-update k p f [] same = refl
  entry-update k p f (x ∷ xs) same = elim (Bool-cases (p x)) [
    | inl hit ↦ rw hit (ground (arith, same x, entry-update k p f xs same))
    | inr miss ↦ rw miss (ground (arith, entry-update k p f xs same))
  ]

  any-update_key :
      (k : String) (p : A → Bool) (f : A → A) (xs : List A)
      → ((x : A) → key (f x) ≡ key x)
      → any (λ y. key y == k) (update p f xs) ≡ any (λ y. key y == k) xs
  unfolding any update
  any-update_key k p f [] same = refl
  any-update_key k p f (x ∷ xs) same = ground (arith, same x, any-update_key k p f xs same)

  pub Distinct-update :
      (p : A → Bool) (f : A → A) (xs : List A)
      → ((x : A) → key (f x) ≡ key x)
      → Distinct xs
      → Distinct (update p f xs)
  unfolding update
  Distinct-update p f [] same d = tt
  Distinct-update p f (x ∷ xs) same d =
      let rest : Distinct (update p f xs) = Distinct-update p f xs same d.1 in
      let absent : any (λ y. key y == key x) (update p f xs) ≡ false =
        any-update_key (key x) p f xs same ∙ d.0 in
      elim (Bool-cases (p x)) [
        | inl hit ↦ rw (hit, same x) (absent, rest)
        | inr miss ↦ rw miss (absent, rest)
      ]

  first_absent :
      (k : String) (q : A → Bool) (xs : List A)
      → any (λ y. key y == k) xs ≡ false
      → first (λ y. (key y == k) && q y) xs ≡ none
  unfolding first any
  first_absent k q [] h = refl
  first_absent k q (x ∷ xs) h = ground (arith, first_absent k q xs)

  -- Under the key, a row that meets one more condition is the row under the key, if it does.
  pub first_under :
      (k : String) (q : A → Bool) (xs : List A)
      → Distinct xs
      → first (λ x. (key x == k) && q x) xs
        ≡ (elim (entry k xs) [ none ↦ none | some x ↦ if q x then some x else none ])
  unfolding first entry
  first_under k q [] d = refl
  first_under k q (x ∷ xs) d = elim (Bool-cases (key x == k)) [
    | inl hit ↦
        let e : key x ≡ k = (eq_iff (key x) k).0 hit in
        rw hit (ground (arith, first_absent k q xs (rw e at d.0)))
    | inr miss ↦ rw miss (first_under k q xs d.1)
  ]

  -- The row that meets a condition besides the key is the row under the key.
  pub entry_of_first :
      (k : String) (q : A → Bool) (xs : List A) {x : A}
      → Distinct xs
      → first (λ y. (key y == k) && q y) xs ≡ some x
      → (entry k xs ≡ some x) × (q x ≡ true)
  entry_of_first k q xs d h = ground (arith, first_under k q xs d)

  pub first_of_entry :
      (k : String) (q : A → Bool) (xs : List A) {x : A}
      → Distinct xs
      → entry k xs ≡ some x
      → first (λ y. (key y == k) && q y) xs ≡ (if q x then some x else none)
  first_of_entry k q xs d h = ground (arith, first_under k q xs d)

  -- A row under a key stays there when a row of a key that the table lacks comes in.
  pub entry-fresh :
      (k : String) (y : A) (xs : List A) {x : A}
      → entry k xs ≡ some x
      → any (λ z. key z == key y) xs ≡ false
      → entry k (y ∷ xs) ≡ some x
  entry-fresh k y xs found free = elim (Bool-cases (key y == k)) [
    | inl clash ↦
        let e : key y ≡ k = (eq_iff (key y) k).0 clash in cc (any-entry k xs found, rw e at free)
    | inr other ↦ rw (entry-cons, other) found
  ]

  -- A deletion under a key takes this key out, and no other.
  pub entry-delete :
      (k j : String) (xs : List A)
      → entry k (delete (λ x. key x == j) xs) ≡ (if k == j then none else entry k xs)
  unfolding entry first delete
  entry-delete k j [] = ground arith
  entry-delete k j (x ∷ xs) =
      ground (arith, entry-delete k j xs, eq_iff (key x) j, eq_iff (key x) k, eq_iff k j)

  -- After a deletion under a key no row has it.
  pub any-delete_key :
      (k : String) (xs : List A) → any (λ x. key x == k) (delete (λ x. key x == k) xs) ≡ false
  unfolding any delete
  any-delete_key k [] = refl
  any-delete_key k (x ∷ xs) = elim (Bool-cases (key x == k)) [
    | inl hit ↦ rw hit (any-delete_key k xs)
    | inr miss ↦ rw (miss, miss) (any-delete_key k xs)
  ]

  pub Distinct-delete : (p : A → Bool) (xs : List A) → Distinct xs → Distinct (delete p xs)
  unfolding delete
  Distinct-delete p [] d = tt
  Distinct-delete p (x ∷ xs) d = elim (Bool-cases (p x)) [
    | inl hit ↦ rw hit (Distinct-delete p xs d.1)
    | inr miss ↦ rw miss (any-delete (λ y. key y == key x) p xs d.0, Distinct-delete p xs d.1)
  ]
