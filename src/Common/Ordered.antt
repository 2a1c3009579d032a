-- ===== src/Common/Ordered.antt =====
-- SELECT … WHERE … ORDER BY a text key DESC. The order of texts, which is the database's, is a
-- parameter.
use mathlib.Core.Path.{◌≡◌, refl, ap, ◌∙◌}
use mathlib.Core.Logic.{inl, inr}
use mathlib.Core.Bool.{Bool, true, false, ◌&&◌}
use mathlib.Core.List.{List, [], ◌∷◌, ◌++◌, Perm}
use mathlib.Core.List.Perm
use Prim.Native.String.{String}
use text.Mathlib.Text.{◌==◌}
use text.Mathlib.TextEquality.{eq_iff}
use text.Mathlib.TextPositions.{eq_refl}
use native.Mathlib.Omega.{arith}
use tempogate.Common.Tests.{if◌then◌else◌, Bool-cases}
use tempogate.Common.Rows.{All, any}
use tempogate.Common.Keyed.{Distinct}

-- A strict total order on texts.
pub record IsOrder (before : String → String → Bool) : Type 0 where
  pub irreflexive : (a : String) → before a a ≡ false
  pub transitive : (a b c : String) → before a b ≡ true → before b c ≡ true → before a c ≡ true
  pub connected : (a b : String) → before a b ≡ false → before b a ≡ false → a ≡ b

module _ {before : String → String → Bool} (o : IsOrder before) where
  pub asymmetric : (a b : String) → before a b ≡ true → before b a ≡ false
  asymmetric a b h = elim (Bool-cases (before b a)) [
    | inl e ↦ cc (o.transitive a b a h e, o.irreflexive a)
    | inr e ↦ e
  ]

  not_above : (a b c : String) → before a c ≡ false → before b c ≡ true → before a b ≡ false
  not_above a b c e h = elim (Bool-cases (before a b)) [
    | inl k ↦ cc (o.transitive a b c k h, e)
    | inr k ↦ k
  ]

module _ {ℓ} {A : Type ℓ} where
  -- SELECT … WHERE.
  unfoldable pub select : (A → Bool) → List A → List A
  select p [] = []
  select p (x ∷ xs) = if p x then x ∷ select p xs else select p xs

  pub select_miss :
      (p : A → Bool) (x : A) (xs : List A) → p x ≡ false → select p (x ∷ xs) ≡ select p xs
  unfolding select
  select_miss p x xs h = rw h refl

  pub select_ext :
      (p q : A → Bool) (xs : List A) → ((x : A) → p x ≡ q x) → select p xs ≡ select q xs
  unfolding select
  select_ext p q [] same = refl
  select_ext p q (x ∷ xs) same = rw (same x, select_ext p q xs same)

  pub select-select :
      (p q : A → Bool) (xs : List A) → select p (select q xs) ≡ select (λ x. q x && p x) xs
  unfolding select
  select-select p q [] = refl
  select-select p q (x ∷ xs) = ground (arith, select-select p q xs)

  pub select_every : (p : A → Bool) (xs : List A) → All (λ x. p x ≡ true) xs → select p xs ≡ xs
  unfolding select
  select_every p [] h = refl
  select_every p (x ∷ xs) h = rw h.0 (ap (◌∷◌ x) (select_every p xs h.1))

  pub All-select {κ} :
      (P : A → Type κ) (p : A → Bool) (xs : List A) → All P xs → All P (select p xs)
  unfolding select
  All-select P p [] h = tt
  All-select P p (x ∷ xs) h = elim (Bool-cases (p x)) [
    | inl e ↦ rw e (h.0, All-select P p xs h.1)
    | inr e ↦ rw e (All-select P p xs h.1)
  ]

  pub All-append_right {κ} : (P : A → Type κ) (xs ys : List A) → All P (xs ++ ys) → All P ys
  All-append_right P [] ys h = h
  All-append_right P (x ∷ xs) ys h = All-append_right P xs ys h.1

module _ {ℓ} {A : Type ℓ} where
  pub All-imp {κ μ} :
      (P : A → Type κ) (Q : A → Type μ) (xs : List A) → ((x : A) → P x → Q x) → All P xs → All Q xs
  All-imp P Q [] imp h = tt
  All-imp P Q (x ∷ xs) imp h = (imp x h.0, All-imp P Q xs imp h.1)

module _ {ℓ} {A : Type ℓ} (key : A → String) where
  -- Each row is found under its own key.
  pub any_self : (xs : List A) → All (λ x. any (λ y. key y == key x) xs ≡ true) xs
  unfolding any
  any_self [] = tt
  any_self (x ∷ xs) =
      (ground (arith, eq_refl (key x)), All-imp _ _ xs (λ y h. ground (arith, h)) (any_self xs))

module _ {ℓ} {A : Type ℓ} (key : A → String) (before : String → String → Bool) where
  unfoldable pub insert : A → List A → List A
  insert x [] = x ∷ []
  insert x (y ∷ ys) =
      let rest = insert x ys in if before (key x) (key y) then y ∷ rest else x ∷ y ∷ ys

  -- ORDER BY … DESC
  unfoldable pub sort : List A → List A
  unfolding insert
  sort [] = []
  sort (x ∷ xs) = insert x (sort xs)

  -- Each row's key is above those of the rows behind it.
  abbrev pub Descending : List A → Type 0
  Descending [] = Unit
  Descending (x ∷ xs) = All (λ y. before (key y) (key x) ≡ true) xs × Descending xs

  insert-perm : (x : A) (ys : List A) → Perm (insert x ys) (x ∷ ys)
  unfolding insert
  insert-perm x [] = Perm.refl _
  insert-perm x (y ∷ ys) = elim (Bool-cases (before (key x) (key y))) [
    | inl e ↦ rw e (Perm.trans (Perm.cons y (insert-perm x ys)) (Perm.swap x y ys))
    | inr e ↦ rw e (Perm.refl _)
  ]

  pub sort-perm : (xs : List A) → Perm (sort xs) xs
  unfolding sort
  sort-perm [] = Perm.refl _
  sort-perm (x ∷ xs) = Perm.trans (insert-perm x (sort xs)) (Perm.cons x (sort-perm xs))

  insert-All {κ} : (P : A → Type κ) (x : A) (ys : List A) → P x → All P ys → All P (insert x ys)
  unfolding insert
  insert-All P x [] p h = (p, tt)
  insert-All P x (y ∷ ys) p h = elim (Bool-cases (before (key x) (key y))) [
    | inl e ↦ rw e (h.0, insert-All P x ys p h.1)
    | inr e ↦ rw e (p, h)
  ]

  pub sort-All {κ} : (P : A → Type κ) (xs : List A) → All P xs → All P (sort xs)
  unfolding sort
  sort-All P [] h = tt
  sort-All P (x ∷ xs) h = insert-All P x (sort xs) h.0 (sort-All P xs h.1)

module _ {ℓ} {A : Type ℓ} (key : A → String) {before : String → String → Bool}
    (o : IsOrder before) where
  any-insert :
      (p : A → Bool) (x : A) (ys : List A) → any p (insert key before x ys) ≡ any p (x ∷ ys)
  unfolding any insert
  any-insert p x [] = refl
  any-insert p x (y ∷ ys) = ground (arith, any-insert p x ys)

  any-sort : (p : A → Bool) (xs : List A) → any p (sort key before xs) ≡ any p xs
  unfolding any sort
  any-sort p [] = refl
  any-sort p (x ∷ xs) = any-insert p x (sort key before xs) ∙ rw (any-sort p xs) refl

  insert-Descending :
      (x : A) (ys : List A)
      → any (λ y. key y == key x) ys ≡ false
      → Descending key before ys
      → Descending key before (insert key before x ys)
  unfolding any insert
  insert-Descending x [] absent d = (tt, tt)
  insert-Descending x (y ∷ ys) absent d = elim (Bool-cases (before (key x) (key y))) [
    | inl e ↦ rw e (insert-All key before _ x ys e d.0, insert-Descending x ys (ground arith) d.1)
    | inr e ↦
        let below : before (key y) (key x) ≡ true = elim (Bool-cases (before (key y) (key x))) [
          | inl h ↦ h
          | inr h ↦
              let same : key y ≡ key x = o.connected _ _ h e in
              ground (arith, absent, (eq_iff (key y) (key x)).1 same)
        ] in
        rw e ((below, All-imp _ _ ys (λ z h. o.transitive _ _ _ h below) d.0), d)
  ]

  pub sort-Descending : (xs : List A) → Distinct key xs → Descending key before (sort key before xs)
  unfolding sort
  sort-Descending [] d = tt
  sort-Descending (x ∷ xs) d =
      insert-Descending x (sort key before xs) (any-sort _ xs ∙ d.0) (sort-Descending xs d.1)

  pub Descending-select :
      (p : A → Bool) (xs : List A) → Descending key before xs → Descending key before (select p xs)
  unfolding select
  Descending-select p [] d = tt
  Descending-select p (x ∷ xs) d = elim (Bool-cases (p x)) [
    | inl e ↦ rw e (All-select _ p xs d.0, Descending-select p xs d.1)
    | inr e ↦ rw e (Descending-select p xs d.1)
  ]

  -- A row that is above all others comes first.
  insert_top :
      (x : A) (ys : List A)
      → All (λ y. before (key x) (key y) ≡ false) ys
      → insert key before x ys ≡ x ∷ ys
  unfolding insert
  insert_top x [] h = refl
  insert_top x (y ∷ ys) h = rw h.0 refl

  select-insert :
      (p : A → Bool) (x : A) (ys : List A)
      → Descending key before ys
      → select p (insert key before x ys)
        ≡ (if p x then insert key before x (select p ys) else select p ys)
  unfolding insert select
  select-insert p x [] d = refl
  select-insert p x (y ∷ ys) d = elim (Bool-cases (before (key x) (key y))) [
    | inl e ↦ rw e (ground (arith, select-insert p x ys d.1))
    | inr e ↦
        let low : All (λ z. before (key x) (key z) ≡ false) (y ∷ ys) =
          (e, All-imp _ _ ys (λ z. not_above o (key x) (key z) (key y) e) d.0) in
        rw (e, insert_top x (select p (y ∷ ys)) (All-select _ p (y ∷ ys) low)) refl
  ]

  -- WHERE may come before or after ORDER BY.
  pub sort-select :
      (p : A → Bool) (xs : List A)
      → Distinct key xs
      → sort key before (select p xs) ≡ select p (sort key before xs)
  unfolding sort select
  sort-select p [] d = refl
  sort-select p (x ∷ xs) d =
      let rest = sort-select p xs d.1 in
      rw (select-insert p x (sort key before xs) (sort-Descending xs d.1)) (ground (arith, rest))

  -- The rows below a row are those behind it.
  pub select_below :
      (xs : List A) (x : A) (ys : List A)
      → Descending key before (xs ++ x ∷ ys)
      → select (λ y. before (key y) (key x)) (xs ++ x ∷ ys) ≡ ys
  unfolding select
  select_below [] x ys d =
      rw (o.irreflexive (key x)) (select_every (λ y. before (key y) (key x)) ys d.0)
  select_below (z ∷ xs) x ys d =
      let above : before (key x) (key z) ≡ true = (All-append_right _ xs (x ∷ ys) d.0).0 in
      rw (asymmetric o _ _ above) (select_below xs x ys d.1)
