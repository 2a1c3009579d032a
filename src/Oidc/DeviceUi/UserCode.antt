-- ===== src/Oidc/DeviceUi/UserCode.antt =====
-- oidc/device_ui.go, canonicalUserCode: the code that the store is asked for.
use Prim.Native.Char.{Char, char, code, nul, IsScalar}
use Prim.Native.Nat.{compare, Ordering}
use Prim.Native.String.{len, slice}
use text.Mathlib.TextLemmas.{nil-append, cons-append, append-nil}
use text.Mathlib.TextPositions.{slice-append_left, slice-append_middle, len-append}
use tempogate.Common.{
  ℕ, ◌+◌, ◌-◌, ◌≤◌, String, ◌≡◌, refl, ap, ◌∙◌, Bool, true, false, ◌&&◌, ◌||◌, arith, ◌<>◌,
  if◌then◌else◌, leb, Bool-cases, inl, inr,
}
use tempogate.Oidc.DeviceAuthorization.{format_user_code}

abbrev between : ℕ → ℕ → Char → Bool
between lo hi c = leb lo (code c) && leb (code c) hi

abbrev pub scalar_below : (n : ℕ) → compare n 55296 ≡ Ordering.lt → IsScalar n
scalar_below n h = rw h tt

abbrev pub char_of : (n : ℕ) (o : Ordering) → compare n 55296 ≡ o → Char
char_of n Ordering.lt h = char n (scalar_below n h)
char_of n Ordering.eq h = nul
char_of n Ordering.gt h = nul

-- r - 32
abbrev pub less_32 : Char → Char
less_32 c = char_of (code c - 32) (compare (code c - 32) 55296) refl

unfoldable pub canonical_user_code : String → String
canonical_user_code String.[] = ""
canonical_user_code (String.◌∷◌ c s) =
    let rest = canonical_user_code s in
    if between b'a' b'z' c
    then String.◌∷◌ (less_32 c) rest
    else if between b'A' b'Z' c || between b'0' b'9' c
    then String.◌∷◌ c rest
    else rest

code-char_of :
    (n : ℕ) (o : Ordering) (h : compare n 55296 ≡ o) → o ≡ Ordering.lt → code (char_of n o h) ≡ n
code-char_of n Ordering.lt h e = refl
code-char_of n Ordering.eq h e = cc
code-char_of n Ordering.gt h e = cc

code-less_32 : (c : Char) → code c ≤ 122 → code (less_32 c) ≡ code c - 32
code-less_32 c h = code-char_of (code c - 32) (compare (code c - 32) 55296) refl (ground arith)

-- A code that is canonical already is left as it is.
pub canonical_user_code_idem :
    (s : String) → canonical_user_code (canonical_user_code s) ≡ canonical_user_code s
unfolding canonical_user_code
canonical_user_code_idem String.[] = refl
canonical_user_code_idem (String.◌∷◌ c s) = elim (Bool-cases (between b'a' b'z' c)) [
  | inl lower ↦
      let moved : code (less_32 c) ≡ code c - 32 = code-less_32 c (ground arith) in
      let upper : between b'a' b'z' (less_32 c) ≡ false = ground (arith, moved) in
      let kept : between b'A' b'Z' (less_32 c) ≡ true = ground (arith, moved) in
      rw (lower, upper, kept, canonical_user_code_idem s)
  | inr other ↦ elim (Bool-cases (between b'A' b'Z' c || between b'0' b'9' c)) [
    | inl kept ↦ rw (other, kept, other, kept, canonical_user_code_idem s)
    | inr stripped ↦ rw (other, stripped, canonical_user_code_idem s)
  ]
]

canonical_user_code-append :
    (a b : String) → canonical_user_code (a <> b) ≡ canonical_user_code a <> canonical_user_code b
unfolding canonical_user_code
canonical_user_code-append String.[] b = rw (nil-append b, nil-append (canonical_user_code b))
canonical_user_code-append (String.◌∷◌ c a) b = elim (Bool-cases (between b'a' b'z' c)) [
  | inl lower ↦ rw (cons-append, lower, canonical_user_code-append a b, cons-append)
  | inr other ↦ elim (Bool-cases (between b'A' b'Z' c || between b'0' b'9' c)) [
    | inl kept ↦ rw (cons-append, other, kept, canonical_user_code-append a b, cons-append)
    | inr stripped ↦ rw (cons-append, other, stripped, canonical_user_code-append a b)
  ]
]

format_user_code-append :
    (a b : String) → len a ≡ 4 → 1 ≤ len b → format_user_code (a <> b) ≡ a <> ("-" <> b)
unfolding format_user_code
format_user_code-append a b four more =
    let left : slice (a <> b) 0 4 ≡ a = rw⁻¹ four (slice-append_left a b) in
    let total : len (a <> b) ≡ 4 + len b = len-append a b ∙ ap (λ k. k + len b) four in
    let right : slice (a <> b) 4 (len (a <> b)) ≡ b =
      rw total (rw (append-nil b, four) at (slice-append_middle a b "")) in
    let long : leb (len (a <> b)) 4 ≡ false = ground (arith, total) in rw (long, left, right)

-- The display form of a code of more than four bytes, with a dash behind the fourth, reads back as
-- the code does.
pub canonical_user_code-format_user_code :
    (a b : String)
    → len a ≡ 4
    → 1 ≤ len b
    → canonical_user_code (format_user_code (a <> b)) ≡ canonical_user_code (a <> b)
unfolding canonical_user_code
canonical_user_code-format_user_code a b four more = rw (
  format_user_code-append a b four more,
  canonical_user_code-append a ("-" <> b),
  canonical_user_code-append a b,
  canonical_user_code-append "-" b,
  nil-append,
)
