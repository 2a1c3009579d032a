-- ===== src/Oidc/UserCode.antt =====
-- oidc/device_authorization.go, randomUserCode and formatUserCode: the code that a person types.
pub mod Sampled
mod Tests
use Prim.Native.Nat.{◌%◌}
use Prim.Native.String.{len, slice, compare}
use tempogate.Common.{
  ℕ, zero, suc, ◌+◌, ◌≤◌, ◌<◌, String, ◌≡◌, refl, sym, ap, ◌∙◌, Bool, true, false, ◌||◌, not,
  Option, none, some, List, [], ◌∷◌, ◌++◌, ◌<>◌, arith, if◌then◌else◌, leb, ltb, length, All, any,
  Bool-cases, inl, inr,
}

-- userCodeAlphabet, as its bytes
abbrev pub alphabet : List ℕ
alphabet =
    b'B' ∷ b'C' ∷ b'D' ∷ b'F' ∷ b'G' ∷ b'H' ∷ b'J' ∷ b'K' ∷ b'L' ∷ b'M' ∷ b'N' ∷ b'P' ∷ b'Q' ∷ b'R'
    ∷ b'S' ∷ b'T' ∷ b'V' ∷ b'W' ∷ b'X' ∷ b'Z' ∷ b'3' ∷ b'4' ∷ b'7' ∷ b'9' ∷ []

-- userCodeAlphabet[i]; every index that the sampler asks for is in range.
unfoldable pub byte_at : List ℕ → ℕ → ℕ
byte_at [] i = 0
byte_at (x ∷ xs) zero = x
byte_at (x ∷ xs) (suc i) = byte_at xs i

-- One byte of a read: skipped when the code is complete or the byte is at least 240.
unfoldable pub sample : List ℕ → ℕ → List ℕ
unfolding byte_at
sample out b =
    if leb 8 (length out)
    then out
    else if leb 240 b
    then out
    else out ++ (byte_at alphabet (b % 24) ∷ [])

-- The loop over one read's bytes.
unfoldable pub sample_read : List ℕ → List ℕ → List ℕ
unfolding sample
sample_read out [] = out
sample_read out (b ∷ bs) = sample_read (sample out b) bs

-- What one turn of the outer loop leaves, for a read that may have failed.
abbrev pub Reads : Type 0
Reads = ℕ → Option (List ℕ)

abbrev pub after_read : List ℕ → Option (List ℕ) → Option (List ℕ)
after_read out none = none
after_read out (some bs) = some (sample_read out bs)

-- randomUserCode, as the bytes of its text. `reads` are the buffers that rand.Read fills, none
-- for an error; `fuel` bounds their number, and none is also the answer of fuel that ran out.
unfoldable pub sample_code : ℕ → Reads → ℕ → List ℕ → Option (List ℕ)
unfolding sample_read
sample_code zero reads k out = if leb 8 (length out) then some out else none
sample_code (suc fuel) reads k out =
    if leb 8 (length out) then some out else elim (after_read out (reads k)) [
      | none ↦ none
      | some out' ↦ sample_code fuel reads (suc k) out'
    ]

abbrev pub random_user_code : ℕ → Reads → Option (List ℕ)
random_user_code fuel reads = sample_code fuel reads 0 []
