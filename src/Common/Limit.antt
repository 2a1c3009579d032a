-- ===== src/Common/Limit.antt =====
-- LIMIT n, the slices of Go's paged answers, and Go's int as a request brings it.
use Prim.Native.Nat.{ℕ, zero, suc, ◌<◌, ◌≤◌}
use mathlib.Core.Path.{◌≡◌, refl, ap}
use mathlib.Core.Option.{Option, none, some}
use mathlib.Core.List.{List, [], ◌∷◌, ◌++◌}
use native.Mathlib.Omega.{arith}
use tempogate.Common.Rows.{length}

-- negsuc n is -(n + 1).
pub data ℤ : Type 0 where
  pos negsuc : ℕ → ℤ

module _ {ℓ} {A : Type ℓ} where
  unfoldable pub take : ℕ → List A → List A
  take zero xs = []
  take (suc n) [] = []
  take (suc n) (x ∷ xs) = x ∷ take n xs

  unfoldable pub get_elem? : List A → ℕ → Option A
  get_elem? [] i = none
  get_elem? (x ∷ xs) zero = some x
  get_elem? (x ∷ xs) (suc i) = get_elem? xs i

  -- A list that goes on behind the row at an index, read one row further than a page.
  pub record Page (n : ℕ) (xs rows : List A) : Type ℓ where
    pub front : List A
    pub last : A
    pub rest : List A
    pub parts : xs ≡ front ++ last ∷ rest
    pub shown : take (suc n) rows ≡ front ++ last ∷ []
    pub cursor : get_elem? rows n ≡ some last
    pub shorter : length rest < length xs

  pub take_more :
      (n : ℕ) (xs : List A)
      → suc n < length (take (suc (suc n)) xs)
      → Page n xs (take (suc (suc n)) xs)
  unfolding take get_elem?
  take_more n [] h = absurd (omega arith)
  take_more zero (x ∷ xs) h = record {
    front = [];
    last = x;
    rest = xs;
    parts = refl;
    shown = refl;
    cursor = refl;
    shorter = omega arith;
  }
  take_more (suc n) (x ∷ xs) h =
      let p = take_more n xs (omega arith) in
      record {
        front = x ∷ p.front;
        last = p.last;
        rest = p.rest;
        parts = ap (◌∷◌ x) p.parts;
        shown = ap (◌∷◌ x) p.shown;
        cursor = p.cursor;
        shorter = omega (arith, p.shorter);
      }

  pub take_whole : (n : ℕ) (xs : List A) → length (take (suc n) xs) ≤ n → take (suc n) xs ≡ xs
  unfolding take
  take_whole n [] h = refl
  take_whole zero (x ∷ xs) h = absurd (omega arith)
  take_whole (suc n) (x ∷ xs) h = ap (◌∷◌ x) (take_whole n xs (omega arith))
