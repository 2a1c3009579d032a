-- ===== src/Common/Rows.antt =====
-- Tables as lists of rows, and what the WHERE clause of a SQL statement does to them.
use Prim.Native.Nat.{ℕ, suc, ◌+◌, ◌≤◌, ◌<◌}
use mathlib.Core.Path.{◌≡◌, refl}
use mathlib.Core.Logic.{inl, inr}
use mathlib.Core.Bool.{Bool, true, false, ◌||◌}
use mathlib.Core.Option.{Option, none, some}
use mathlib.Core.List.{List, [], ◌∷◌}
use native.Mathlib.Omega.{arith}
use tempogate.Common.Tests.{if◌then◌else◌, Bool-cases}

module _ {ℓ} {A : Type ℓ} where
  abbrev pub length : List A → ℕ
  length [] = 0
  length (x ∷ xs) = suc (length xs)

  abbrev pub All {κ} : (A → Type κ) → List A → Type κ
  All P [] = Unit
  All P (x ∷ xs) = P x × All P xs

  -- SELECT … WHERE, read by QueryRow: the first row that the clause holds of.
  unfoldable pub first : (A → Bool) → List A → Option A
  first p [] = none
  first p (x ∷ xs) = if p x then some x else first p xs

  -- SELECT EXISTS (… WHERE).
  unfoldable pub any : (A → Bool) → List A → Bool
  any p [] = false
  any p (x ∷ xs) = p x || any p xs

  -- UPDATE … SET … WHERE.
  unfoldable pub update : (A → Bool) → (A → A) → List A → List A
  update p f [] = []
  update p f (x ∷ xs) = (if p x then f x else x) ∷ update p f xs

  -- DELETE … WHERE.
  unfoldable pub delete : (A → Bool) → List A → List A
  delete p [] = []
  delete p (x ∷ xs) = if p x then delete p xs else x ∷ delete p xs

  -- SELECT COUNT(*) … WHERE.
  unfoldable pub count : (A → Bool) → List A → ℕ
  count p [] = 0
  count p (x ∷ xs) = (if p x then 1 else 0) + count p xs

module _ {ℓ} {A : Type ℓ} where
  pub first_holds : (p : A → Bool) (xs : List A) {x : A} → first p xs ≡ some x → p x ≡ true
  unfolding first
  first_holds p [] h = cc
  first_holds p (x ∷ xs) {x = y} h = ground (arith, first_holds p xs {x = y})

  pub first-none : (p : A → Bool) (xs : List A) → any p xs ≡ false → first p xs ≡ none
  unfolding first any
  first-none p [] h = refl
  first-none p (x ∷ xs) h = ground (arith, first-none p xs)

  pub any_of_first : (p : A → Bool) (xs : List A) {x : A} → first p xs ≡ some x → any p xs ≡ true
  unfolding first any
  any_of_first p [] h = cc
  any_of_first p (x ∷ xs) {x = y} h = ground (arith, any_of_first p xs {x = y})

  -- The row found is a row of the table.
  pub any_by_first :
      (p q : A → Bool) (xs : List A) {x : A} → first p xs ≡ some x → q x ≡ true → any q xs ≡ true
  unfolding first any
  any_by_first p q [] h k = cc
  any_by_first p q (x ∷ xs) {x = y} h k = elim (Bool-cases (p x)) [
    | inl hit ↦ ground (arith, k)
    | inr miss ↦ rw (any_by_first p q xs {x = y} (rw miss at h) k) (ground arith)
  ]

  pub none_of_first : (p : A → Bool) (xs : List A) → first p xs ≡ none → any p xs ≡ false
  unfolding first any
  none_of_first p [] h = refl
  none_of_first p (x ∷ xs) h = ground (arith, none_of_first p xs)

  pub first_of_any :
      (p : A → Bool) (xs : List A) → any p xs ≡ true → (x : A) × (first p xs ≡ some x)
  unfolding first any
  first_of_any p [] h = cc
  first_of_any p (x ∷ xs) h = elim (Bool-cases (p x)) [
    | inl hit ↦ (x, rw hit)
    | inr miss ↦ let (y, e) = first_of_any p xs (rw miss at h) in (y, rw miss e)
  ]

  -- A stronger clause holds of fewer rows.
  pub any_mono :
      (p q : A → Bool) (xs : List A)
      → ((x : A) → p x ≡ true → q x ≡ true)
      → any p xs ≡ true
      → any q xs ≡ true
  unfolding any
  any_mono p q [] imp h = cc
  any_mono p q (x ∷ xs) imp h = ground (arith, imp x, any_mono p q xs imp)

  pub any_anti :
      (p q : A → Bool) (xs : List A)
      → ((x : A) → p x ≡ true → q x ≡ true)
      → any q xs ≡ false
      → any p xs ≡ false
  any_anti p q xs imp h = elim (Bool-cases (any p xs)) [
    | inl e ↦ cc (any_mono p q xs imp e)
    | inr e ↦ e
  ]

  -- A row that the update keeps in the clause stays in it.
  pub any-update :
      (p q : A → Bool) (f : A → A) (xs : List A)
      → ((x : A) → p x ≡ true → p (f x) ≡ true)
      → any p xs ≡ true
      → any p (update q f xs) ≡ true
  unfolding any update
  any-update p q f [] keep h = cc
  any-update p q f (x ∷ xs) keep h = ground (arith, keep x, any-update p q f xs keep)

  -- The row that a conditional update changes is found changed.
  pub any-update_hit :
      (p q : A → Bool) (f : A → A) (xs : List A)
      → ((x : A) → q x ≡ true → p (f x) ≡ true)
      → any q xs ≡ true
      → any p (update q f xs) ≡ true
  unfolding any update
  any-update_hit p q f [] hit h = cc
  any-update_hit p q f (x ∷ xs) hit h = ground (arith, hit x, any-update_hit p q f xs hit)

  -- What holds of each row after the update that held of it before.
  pub any-update_imp :
      (q q' p : A → Bool) (f : A → A) (xs : List A)
      → ((x : A) → q x ≡ true → q' (if p x then f x else x) ≡ true)
      → any q xs ≡ true
      → any q' (update p f xs) ≡ true
  unfolding any update
  any-update_imp q q' p f [] imp h = cc
  any-update_imp q q' p f (x ∷ xs) imp h = elim (Bool-cases (q x)) [
    | inl e ↦ rw (imp x e)
    | inr e ↦ ground (arith, any-update_imp q q' p f xs imp)
  ]

  pub any-update_not :
      (q q' p : A → Bool) (f : A → A) (xs : List A)
      → ((x : A) → q x ≡ false → q' (if p x then f x else x) ≡ false)
      → any q xs ≡ false
      → any q' (update p f xs) ≡ false
  unfolding any update
  any-update_not q q' p f [] imp h = refl
  any-update_not q q' p f (x ∷ xs) imp h = ground (arith, imp x, any-update_not q q' p f xs imp)

  pub any-update_eq :
      (q p : A → Bool) (f : A → A) (xs : List A)
      → ((x : A) → q (if p x then f x else x) ≡ q x)
      → any q (update p f xs) ≡ any q xs
  unfolding any update
  any-update_eq q p f [] same = refl
  any-update_eq q p f (x ∷ xs) same = rw (same x, any-update_eq q p f xs same)

  -- No row is left to the clause that an update takes each of its rows out of.
  pub any-update_out :
      (p : A → Bool) (f : A → A) (xs : List A)
      → ((x : A) → p (f x) ≡ false)
      → any p (update p f xs) ≡ false
  unfolding any update
  any-update_out p f [] out = refl
  any-update_out p f (x ∷ xs) out = elim (Bool-cases (p x)) [
    | inl e ↦ rw (e, out x) (any-update_out p f xs out)
    | inr e ↦ rw (e, e) (any-update_out p f xs out)
  ]

  -- An update whose clause no row meets changes nothing.
  pub update_none : (p : A → Bool) (f : A → A) (xs : List A) → any p xs ≡ false → update p f xs ≡ xs
  unfolding any update
  update_none p f [] h = refl
  update_none p f (x ∷ xs) h = ground (arith, update_none p f xs)

  pub length-update : (p : A → Bool) (f : A → A) (xs : List A) → length (update p f xs) ≡ length xs
  unfolding update
  length-update p f [] = refl
  length-update p f (x ∷ xs) = omega (arith, length-update p f xs)

  pub count_ext : (p q : A → Bool) (xs : List A) → ((x : A) → p x ≡ q x) → count p xs ≡ count q xs
  unfolding count
  count_ext p q [] same = refl
  count_ext p q (x ∷ xs) same = rw (same x, count_ext p q xs same)

  pub count_none : (p : A → Bool) (xs : List A) → any p xs ≡ false → count p xs ≡ 0
  unfolding any count
  count_none p [] h = refl
  count_none p (x ∷ xs) h = ground (arith, count_none p xs)

  pub none_of_count : (p : A → Bool) (xs : List A) → count p xs ≡ 0 → any p xs ≡ false
  unfolding any count
  none_of_count p [] h = refl
  none_of_count p (x ∷ xs) h = ground (arith, none_of_count p xs)

  pub first-delete : (p : A → Bool) (xs : List A) → first p (delete p xs) ≡ none
  unfolding first delete
  first-delete p [] = refl
  first-delete p (x ∷ xs) = elim (Bool-cases (p x)) [
    | inl hit ↦ rw hit (first-delete p xs)
    | inr miss ↦ rw (miss, miss) (first-delete p xs)
  ]

  pub any-delete : (q p : A → Bool) (xs : List A) → any q xs ≡ false → any q (delete p xs) ≡ false
  unfolding any delete
  any-delete q p [] h = refl
  any-delete q p (x ∷ xs) h = ground (arith, any-delete q p xs)

  pub length-delete_le : (p : A → Bool) (xs : List A) → length (delete p xs) ≤ length xs
  unfolding delete
  length-delete_le p [] = omega arith
  length-delete_le p (x ∷ xs) = ground (arith, length-delete_le p xs)

  -- A deletion that finds a row leaves fewer.
  pub length-delete_hit :
      (p : A → Bool) (xs : List A) {x : A} → first p xs ≡ some x → length (delete p xs) < length xs
  unfolding delete first
  length-delete_hit p [] h = cc
  length-delete_hit p (x ∷ xs) {x = y} h =
      ground (arith, length-delete_le p xs, length-delete_hit p xs {x = y})

module _ {ℓ κ} {A : Type ℓ} (P : A → Type κ) where
  pub All-update :
      (q : A → Bool) (f : A → A) (xs : List A)
      → ((x : A) → q x ≡ true → P x → P (f x))
      → All P xs
      → All P (update q f xs)
  unfolding update
  All-update q f [] keep h = tt
  All-update q f (x ∷ xs) keep h = elim (Bool-cases (q x)) [
    | inl e ↦ rw e (keep x e h.0, All-update q f xs keep h.1)
    | inr e ↦ rw e (h.0, All-update q f xs keep h.1)
  ]

  pub All-delete : (q : A → Bool) (xs : List A) → All P xs → All P (delete q xs)
  unfolding delete
  All-delete q [] h = tt
  All-delete q (x ∷ xs) h = elim (Bool-cases (q x)) [
    | inl e ↦ rw e (All-delete q xs h.1)
    | inr e ↦ rw e (h.0, All-delete q xs h.1)
  ]

  pub first_All : (q : A → Bool) (xs : List A) {x : A} → All P xs → first q xs ≡ some x → P x
  unfolding first
  first_All q [] h e = cc
  first_All q (x ∷ xs) {x = y} h e = elim (Bool-cases (q x)) [
    | inl hit ↦ ground (arith, h.0)
    | inr miss ↦ first_All q xs h.1 (ground arith)
  ]
