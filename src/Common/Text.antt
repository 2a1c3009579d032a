-- ===== src/Common/Text.antt =====
-- Texts as Go's package strings takes them apart. A text is the list of its characters.
use Prim.Native.Char.{Char, code}
use Prim.Native.String.{String, ◌++◌}
use Prim.Native.Nat.{ℕ, compare, Ordering}
use mathlib.Core.Path.{◌≡◌}
use mathlib.Core.Bool.{Bool, true, false, ◌&&◌, ◌||◌}
use mathlib.Core.Option.{Option, none, some}
use mathlib.Core.Option
use mathlib.Core.List.{List, [], ◌∷◌}
use text.Mathlib.TextLemmas.{nil-append, cons-append}
use mathlib.Core.Logic.{inl, inr}
use tempogate.Common.Tests.{leb, if◌then◌else◌, Bool-cases, Option-cases}

-- Is this the character of that code point?
abbrev pub is_char : ℕ → Char → Bool
is_char n c = elim (compare (code c) n) [ Ordering.eq ↦ true | _ ↦ false ]

-- strings.Contains, of one character
unfoldable pub contains : ℕ → String → Bool
contains n String.[] = false
contains n (String.◌∷◌ c s) = is_char n c || contains n s

abbrev prepend : Char → String × String → String × String
prepend c (a, b) = (String.◌∷◌ c a, b)

-- strings.Cut at one character: the texts before and after its first occurrence
unfoldable pub cut : ℕ → String → Option (String × String)
cut n String.[] = none
cut n (String.◌∷◌ c s) = if is_char n c then some ("", s) else Option.map (prepend c) (cut n s)

-- The cut of the text behind a character stands, if there is one.
abbrev cut_behind : ℕ → Char → String → Option (String × String) → Option (String × String)
cut_behind n c s (some (a, b)) = some (String.◌∷◌ c a, b)
cut_behind n c s none = if is_char n c then some ("", s) else none

-- s[:i] and s[i+1:] at i = strings.LastIndex(s, sep), none at -1
unfoldable pub cut_last : ℕ → String → Option (String × String)
cut_last n String.[] = none
cut_last n (String.◌∷◌ c s) = cut_behind n c s (cut_last n s)

-- strings.Split at one character: a list that is never empty
abbrev onto_first : Char → List String → List String
onto_first c [] = (String.◌∷◌ c "") ∷ []
onto_first c (x ∷ xs) = (String.◌∷◌ c x) ∷ xs

unfoldable pub split : ℕ → String → List String
split n String.[] = "" ∷ []
split n (String.◌∷◌ c s) =
    let rest = split n s in if is_char n c then "" ∷ rest else onto_first c rest

-- unicode.IsSpace
unfoldable pub is_space : Char → Bool
is_space c =
    (leb 9 (code c) && leb (code c) 13)
    || is_char 0x20 c
    || is_char 0x85 c
    || is_char 0xA0 c
    || is_char 0x1680 c
    || (leb 0x2000 (code c) && leb (code c) 0x200A)
    || is_char 0x2028 c
    || is_char 0x2029 c
    || is_char 0x202F c
    || is_char 0x205F c
    || is_char 0x3000 c

unfoldable trim_left : String → String
trim_left String.[] = ""
trim_left (String.◌∷◌ c s) = let rest = trim_left s in if is_space c then rest else String.◌∷◌ c s

-- A character stays if it is no space, or if anything behind it stays.
abbrev keep : Char → String → String
keep c String.[] = if is_space c then "" else String.◌∷◌ c ""
keep c (String.◌∷◌ d s) = String.◌∷◌ c (String.◌∷◌ d s)

unfoldable trim_right : String → String
trim_right String.[] = ""
trim_right (String.◌∷◌ c s) = keep c (trim_right s)

-- strings.TrimSpace
unfoldable pub trim_space : String → String
unfolding trim_left trim_right
trim_space s = trim_right (trim_left s)

-- A character stays if it is another, or if anything behind it stays.
abbrev keep_before : ℕ → Char → String → String
keep_before n c String.[] = if is_char n c then "" else String.◌∷◌ c ""
keep_before n c (String.◌∷◌ d s) = String.◌∷◌ c (String.◌∷◌ d s)

-- strings.TrimRight, of one character
unfoldable pub trim_right_char : ℕ → String → String
trim_right_char n String.[] = ""
trim_right_char n (String.◌∷◌ c s) = keep_before n c (trim_right_char n s)

-- What stands behind the separator holds none: the last cut is there.
pub cut_last-append :
    (n : ℕ) (a b : String) (c : Char)
    → is_char n c ≡ true
    → cut_last n b ≡ none
    → cut_last n (a ++ String.◌∷◌ c b) ≡ some (a, b)
unfolding cut_last
cut_last-append n String.[] b c sep h = rw (nil-append, h, sep)
cut_last-append n (String.◌∷◌ d a) b c sep h = rw (cons-append, cut_last-append n a b c sep h)

-- What stands before the separator holds none: the first cut is there.
pub cut-append :
    (n : ℕ) (a b : String) (c : Char)
    → is_char n c ≡ true
    → cut n a ≡ none
    → cut n (a ++ String.◌∷◌ c b) ≡ some (a, b)
unfolding cut
cut-append n String.[] b c sep h = rw (nil-append, sep)
cut-append n (String.◌∷◌ d a) b c sep h = elim (Bool-cases (is_char n d)) [
  | inl hit ↦ cc (rw hit at h)
  | inr miss ↦ elim (Option-cases (cut n a)) [
    | inl absent ↦ rw (cons-append, miss, cut-append n a b c sep absent)
    | inr (x, found) ↦ cc (rw (miss, found) at h)
  ]
]
