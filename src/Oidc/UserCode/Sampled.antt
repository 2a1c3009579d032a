-- ===== src/Oidc/UserCode/Sampled.antt =====
-- oidc/device_authorization.go, randomUserCode: the shape of a sampled code, and that the sampler
-- ends.
use Prim.Native.Nat.{◌%◌}
use tempogate.Common.{
  ℕ, zero, suc, ◌+◌, ◌≤◌, ◌<◌, ◌≡◌, refl, ap, subst, true, some, List, [], ◌∷◌, ◌++◌, arith, leb,
  ltb, length, All, any, Bool-cases, Option-cases, inl, inr,
}
use tempogate.Oidc.UserCode.{
  alphabet, byte_at, sample, sample_read, Reads, sample_code, random_user_code,
}

-- a byte of the alphabet
abbrev pub IsUserByte : ℕ → Type 0
IsUserByte b = (i : ℕ) × (i < 24) × (byte_at alphabet i ≡ b)

-- what is sampled so far: at most eight bytes of the alphabet
abbrev IsPart : List ℕ → Type 0
IsPart out = (length out ≤ 8) × All IsUserByte out

some_injective : {a b : List ℕ} → some a ≡ some b → a ≡ b
some_injective e = cc

length_snoc : (xs : List ℕ) (x : ℕ) → length (xs ++ (x ∷ [])) ≡ suc (length xs)
length_snoc [] x = refl
length_snoc (y ∷ ys) x = ap suc (length_snoc ys x)

All-snoc :
    (xs : List ℕ) {x : ℕ} → All IsUserByte xs → IsUserByte x → All IsUserByte (xs ++ (x ∷ []))
All-snoc [] h p = (p, tt)
All-snoc (y ∷ ys) h p = (h.0, All-snoc ys h.1 p)

sample-IsPart : (out : List ℕ) (b : ℕ) → IsPart out → IsPart (sample out b)
unfolding sample
sample-IsPart out b h = elim (Bool-cases (leb 8 (length out))) [
  | inl full ↦ rw full h
  | inr short ↦ elim (Bool-cases (leb 240 b)) [
    | inl high ↦ rw (short, high) h
    | inr low ↦
        rw (short, low)
          ((rw length_snoc (ground arith)), All-snoc out h.1 (b % 24, omega arith, refl))
  ]
]

sample_grows :
    (out : List ℕ) (b : ℕ)
    → (length out ≤ length (sample out b))
      × ((length out < 8) → (b < 240) → length out < length (sample out b))
unfolding sample
sample_grows out b = elim (Bool-cases (leb 8 (length out))) [
  | inl full ↦ rw full (omega arith, λ short low. ground arith)
  | inr short ↦ elim (Bool-cases (leb 240 b)) [
    | inl high ↦ rw (short, high) (omega arith, λ s low. ground arith)
    | inr low ↦ rw (short, low, length_snoc) (omega arith, λ s l. omega arith)
  ]
]

sample_read-IsPart : (out bs : List ℕ) → IsPart out → IsPart (sample_read out bs)
unfolding sample_read
sample_read-IsPart out [] h = h
sample_read-IsPart out (b ∷ bs) h = sample_read-IsPart (sample out b) bs (sample-IsPart out b h)

sample_read_grows :
    (out bs : List ℕ)
    → (length out ≤ length (sample_read out bs))
      × ((length out < 8)
          → (any (λ b. ltb b 240) bs ≡ true)
          → length out < length (sample_read out bs))
unfolding sample_read any
sample_read_grows out [] = (omega arith, λ short low. cc)
sample_read_grows out (b ∷ bs) =
    let (kept, more) = sample_grows out b in
    let (kept', more') = sample_read_grows (sample out b) bs in
    (
      omega (arith, kept, kept'),
      λ short low. elim (Bool-cases (ltb b 240)) [
        | inl hit ↦ omega (arith, kept', more short (ground arith))
        | inr miss ↦ elim (Bool-cases (leb 8 (length (sample out b)))) [
          | inl full ↦ ground arith
          | inr below ↦ omega (arith, kept, more' (ground arith) (rw miss at low))
        ]
      ],
    )

-- eight bytes of the alphabet
abbrev pub IsUserCode : List ℕ → Type 0
IsUserCode code = (length code ≡ 8) × All IsUserByte code

complete : (out : List ℕ) → IsPart out → leb 8 (length out) ≡ true → IsUserCode out
complete out h full = (ground (arith, h.0), h.1)

sample_code-IsUserCode :
    (fuel : ℕ) (reads : Reads) (k : ℕ) (out : List ℕ) {code : List ℕ}
    → IsPart out
    → sample_code fuel reads k out ≡ some code
    → IsUserCode code
unfolding sample_code
sample_code-IsUserCode zero reads k out h e = elim (Bool-cases (leb 8 (length out))) [
  | inl full ↦ subst IsUserCode (some_injective (rw full at e)) (complete out h full)
  | inr short ↦ cc (rw short at e)
]
sample_code-IsUserCode (suc fuel) reads k out h e = elim (Bool-cases (leb 8 (length out))) [
  | inl full ↦ subst IsUserCode (some_injective (rw full at e)) (complete out h full)
  | inr short ↦ elim (Option-cases (reads k)) [
    | inl broken ↦ cc (rw (short, broken) at e)
    | inr (bs, read) ↦
        sample_code-IsUserCode fuel reads (suc k) (sample_read out bs) (sample_read-IsPart out bs h)
          (rw (short, read) at e)
  ]
]

-- every read succeeds and holds a byte that the sampler accepts
abbrev pub AreUsable : Reads → Type 0
AreUsable reads = (k : ℕ) → (bs : List ℕ) × (reads k ≡ some bs) × (any (λ b. ltb b 240) bs ≡ true)

sample_code_ends :
    (fuel : ℕ) (reads : Reads) (k : ℕ) (out : List ℕ)
    → AreUsable reads
    → 8 ≤ length out + fuel
    → (code : List ℕ) × (sample_code fuel reads k out ≡ some code)
unfolding sample_code
sample_code_ends zero reads k out usable enough =
    let full : leb 8 (length out) ≡ true = ground arith in (out, rw full refl)
sample_code_ends (suc fuel) reads k out usable enough = elim (Bool-cases (leb 8 (length out))) [
  | inl full ↦ (out, rw full refl)
  | inr short ↦
      let (bs, read, low) = usable k in
      let grown = (sample_read_grows out bs).1 (ground arith) low in
      let (code, found) =
        sample_code_ends fuel reads (suc k) (sample_read out bs) usable
          (omega (arith, grown, enough)) in
      (code, rw (short, read) found)
]

-- The sampler ends: when every read succeeds and holds a byte that is not rejected, eight reads
-- are enough for a code, which has eight bytes, each of the alphabet.
pub random_user_code_ends :
    (reads : Reads)
    → AreUsable reads
    → (code : List ℕ) × (random_user_code 8 reads ≡ some code) × IsUserCode code
random_user_code_ends reads usable =
    let (code, found) = sample_code_ends 8 reads 0 [] usable (omega arith) in
    (code, found, sample_code-IsUserCode 8 reads 0 [] (omega arith, tt) found)
