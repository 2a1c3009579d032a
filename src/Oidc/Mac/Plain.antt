-- ===== src/Oidc/Mac/Plain.antt =====
-- A wire for tests: an encoding that escapes the dot, and a MAC without collisions.
use Prim.Native.Char.{Char, code}
use tempogate.Common.{
  String, ◌≡◌, refl, true, false, Option, none, some, ◌==◌, if◌then◌else◌, cut, is_char, arith,
  Bool-cases, inl, inr, eq_iff,
}
use text.Mathlib.TextEquality.{Char-path}
use tempogate.Oidc.Mac.{Signer}
use tempogate.Oidc.Mac.Sealed.{IsWire}

-- `_` becomes `_a`, and `.` becomes `_b`.
unfoldable pub escape : String → String
escape String.[] = ""
escape (String.◌∷◌ c s) =
    let rest = escape s in
    if is_char b'_' c
    then String.◌∷◌ "_" (String.◌∷◌ "a" rest)
    else if is_char b'.' c
    then String.◌∷◌ "_" (String.◌∷◌ "b" rest)
    else String.◌∷◌ c rest

abbrev pub onto : Char → Option String → Option String
onto c none = none
onto c (some s) = some (String.◌∷◌ c s)

unfoldable pub unescape : String → Option String
unescape String.[] = some ""
unescape (String.◌∷◌ c String.[]) = if is_char b'_' c then none else some (String.◌∷◌ c "")
unescape (String.◌∷◌ c (String.◌∷◌ d s)) =
    let rest = unescape s in
    let next = unescape (String.◌∷◌ d s) in
    if is_char b'_' c
    then (if is_char b'a' d then onto "_" rest else if is_char b'b' d then onto "." rest else none)
    else onto c next

abbrev pub plain : Signer
plain = record { hmac = λ x. String.◌∷◌ "m" x; encode = escape; decode = unescape }

undotted : (x : String) → cut b'.' (escape x) ≡ none
unfolding escape cut
undotted String.[] = refl
undotted (String.◌∷◌ c s) = elim (Bool-cases (is_char b'_' c)) [
  | inl e ↦ rw (e, undotted s)
  | inr e ↦ elim (Bool-cases (is_char b'.' c)) [
    | inl f ↦ rw (e, f, undotted s)
    | inr f ↦ rw (e, f, f, undotted s)
  ]
]

unescape-cons :
    (c : Char) (s : String)
    → is_char b'_' c ≡ false
    → unescape (String.◌∷◌ c s) ≡ onto c (unescape s)
unfolding unescape
unescape-cons c String.[] h = rw h
unescape-cons c (String.◌∷◌ d s) h = rw h

is_char_same : (d c : Char) → is_char (code d) c ≡ true → d ≡ c
is_char_same d c h = Char-path d c (ground arith)

unescape-escape : (x : String) → unescape (escape x) ≡ some x
unfolding escape unescape
unescape-escape String.[] = refl
unescape-escape (String.◌∷◌ c s) = elim (Bool-cases (is_char b'_' c)) [
  | inl e ↦ rw (e, unescape-escape s, is_char_same "_" c e)
  | inr e ↦ elim (Bool-cases (is_char b'.' c)) [
    | inl f ↦ rw (e, f, unescape-escape s, is_char_same "." c f)
    | inr f ↦ rw (e, f, unescape-cons c (escape s) e, unescape-escape s)
  ]
]

cons-full : (c : Char) (s : String) → (String.◌∷◌ c s == "") ≡ false
cons-full c s = elim (Bool-cases (String.◌∷◌ c s == "")) [
  | inl e ↦ cc ((eq_iff (String.◌∷◌ c s) "").0 e)
  | inr e ↦ e
]

filled : (x : String) → (x == "") ≡ false → (escape x == "") ≡ false
unfolding escape
filled String.[] h = h
filled (String.◌∷◌ c s) h = elim (Bool-cases (is_char b'_' c)) [
  | inl e ↦ rw e (cons-full "_" (String.◌∷◌ "a" (escape s)))
  | inr e ↦ elim (Bool-cases (is_char b'.' c)) [
    | inl f ↦ rw (e, f) (cons-full "_" (String.◌∷◌ "b" (escape s)))
    | inr f ↦ rw (e, f) (cons-full c (escape s))
  ]
]

pub plain-IsWire : IsWire plain
plain-IsWire = record {
  decodes = unescape-escape;
  undotted = undotted;
  filled = filled;
  mac_filled = λ x. cons-full "m" x;
}

pub free : (x y : String) → plain.hmac x ≡ plain.hmac y → x ≡ y
free x y e = cc
