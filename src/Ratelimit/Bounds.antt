-- ===== src/Ratelimit/Bounds.antt =====
-- ratelimit/ratelimit.go: what holds of a limiter whatever calls it has answered.
use tempogate.Common.{
  ℕ, zero, suc, ◌-◌, ◌≤◌, ◌<◌, String, ◌≡◌, refl, inl, inr, Bool, false, Option, none, some, List,
  [], ◌∷◌, eq_iff, arith, Bool-cases, ltb, length, All, first, any, first_holds, none_of_first,
  length-update, All-update, All-delete, first_All, Distinct, Distinct-update, any-delete_key,
  Distinct-delete, length-delete_hit,
}
use tempogate.Ratelimit.{
  Arithmetic, Bucket, Limiter, key_of, has_key, drop_last, make_room, max_keys_or, new_limiter,
  refreshed, fetch_found, fetch, spend, allow, refunded, refund,
}

-- A call of the limiter, with the time at which it comes.
pub data Call : Type 0 where
  try : ℕ → String → Call
  give_back : String → Call

module _ {T : Type 0} where
  length-drop_last : (b : Bucket T) (bs : List (Bucket T)) → length (drop_last (b ∷ bs)) ≡ length bs
  unfolding drop_last
  length-drop_last b [] = refl
  length-drop_last b (c ∷ bs) = omega (arith, length-drop_last c bs)

  any-drop_last :
      (p : Bucket T → Bool) (bs : List (Bucket T)) → any p bs ≡ false → any p (drop_last bs) ≡ false
  unfolding drop_last any
  any-drop_last p [] h = refl
  any-drop_last p (b ∷ []) h = refl
  any-drop_last p (b ∷ c ∷ bs) h = ground (arith, any-drop_last p (c ∷ bs))

  Distinct-drop_last : (bs : List (Bucket T)) → Distinct key_of bs → Distinct key_of (drop_last bs)
  unfolding drop_last
  Distinct-drop_last [] d = tt
  Distinct-drop_last (b ∷ []) d = tt
  Distinct-drop_last (b ∷ c ∷ bs) d =
      (any-drop_last (has_key (key_of b)) (c ∷ bs) d.0, Distinct-drop_last (c ∷ bs) d.1)

  All-drop_last : (P : Bucket T → Type 0) (bs : List (Bucket T)) → All P bs → All P (drop_last bs)
  unfolding drop_last
  All-drop_last P [] h = tt
  All-drop_last P (b ∷ []) h = tt
  All-drop_last P (b ∷ c ∷ bs) h = (h.0, All-drop_last P (c ∷ bs) h.1)

  -- As many rounds as there are buckets make room for one more.
  length-make_room :
      (max rounds : ℕ) (bs : List (Bucket T))
      → length bs ≤ rounds
      → 1 ≤ max
      → length (make_room max rounds bs) < max
  unfolding make_room
  length-make_room max zero [] le pos = pos
  length-make_room max zero (b ∷ bs) le pos = elim le [ ]
  length-make_room max (suc rounds) [] le pos = ground arith
  length-make_room max (suc rounds) (b ∷ bs) le pos =
      ground (arith, length-drop_last b bs, length-make_room max rounds (drop_last (b ∷ bs)))

  -- What the loop leaves of the buckets keeps what `drop_last` keeps.
  make_room_keeps :
      {P : List (Bucket T) → Type 0}
      → ((bs : List (Bucket T)) → P bs → P (drop_last bs))
      → (max rounds : ℕ) (bs : List (Bucket T)) → P bs
      → P (make_room max rounds bs)
  unfolding make_room
  make_room_keeps keep max zero bs h = h
  make_room_keeps {P = P} keep max (suc rounds) bs h = elim (Bool-cases (ltb (length bs) max)) [
    | inl e ↦ rw e h
    | inr e ↦ rw e (make_room_keeps {P = P} keep max rounds (drop_last bs) (keep bs h))
  ]

module _ {T : Type 0} (a : Arithmetic T) where
  abbrev pub call : Limiter T → Call → Limiter T
  call l (try now k) = (allow a l now k).0
  call l (give_back k) = refund a l k

  abbrev pub run : Limiter T → List Call → Limiter T
  run l [] = l
  run l (c ∷ cs) = run (call l c) cs

  module _ (Le : T → T → Type 0) where
    abbrev pub IsWithin : T → Bucket T → Type 0
    IsWithin burst b = Le b.tokens burst

    -- At most `max_keys` buckets, one for each key, and no bucket above the burst.
    abbrev pub IsBounded : Limiter T → Type 0
    IsBounded l =
        (length l.order ≤ l.max_keys) × Distinct key_of l.order × All (IsWithin l.burst) l.order

    module _ (le_refl : (x : T) → Le x x) (le_trans : (x y z : T) → Le x y → Le y z → Le x z)
        (least_le : (x y : T) → Le (a.least x y) y)
        (less_one_le : (x : T) → Le (a.less_one x) x) where
      -- what `fetch` answers: a bucket within the burst, the others without its key, and room
      abbrev IsFetched : Limiter T → Bucket T × List (Bucket T) → Type 0
      IsFetched l (b, rest) =
          Le b.tokens l.burst
          × (any (has_key (key_of b)) rest ≡ false)
          × Distinct key_of rest
          × All (IsWithin l.burst) rest
          × (length rest < l.max_keys)

      refreshed-IsWithin :
          (burst : T) (now : ℕ) (b : Bucket T)
          → Le b.tokens burst
          → Le (refreshed a burst now b).tokens burst
      refreshed-IsWithin burst now b h = elim (Bool-cases (ltb b.last now)) [
        | inl e ↦ rw e (least_le (a.refill (now - b.last) b.tokens) burst)
        | inr e ↦ rw e h
      ]

      fetch_found-IsFetched :
          (l : Limiter T) (now : ℕ) (k : String) (o : Option (Bucket T))
          → first (has_key k) l.order ≡ o
          → 1 ≤ l.max_keys
          → IsBounded l
          → IsFetched l (fetch_found a l now k o)
      fetch_found-IsFetched l now k (some b) e pos (le, d, w) =
          let named : key_of b ≡ k = (eq_iff (key_of b) k).0 (first_holds (has_key k) l.order e) in
          (
            refreshed-IsWithin l.burst now b (first_All (IsWithin l.burst) (has_key k) l.order w e),
            rw named (any-delete_key key_of k l.order),
            Distinct-delete key_of (has_key k) l.order d,
            All-delete (IsWithin l.burst) (has_key k) l.order w,
            omega (arith, le, length-delete_hit (has_key k) l.order e),
          )
      fetch_found-IsFetched l now k none e pos (le, d, w) = (
        le_refl l.burst,
        make_room_keeps {P = λ bs. any (has_key k) bs ≡ false} (any-drop_last (has_key k))
            l.max_keys (length l.order) l.order (none_of_first (has_key k) l.order e),
        make_room_keeps {P = Distinct key_of} Distinct-drop_last l.max_keys (length l.order) l.order
            d,
        make_room_keeps {P = All (IsWithin l.burst)} (All-drop_last (IsWithin l.burst)) l.max_keys
            (length l.order) l.order w,
        length-make_room l.max_keys (length l.order) l.order (omega arith) pos,
      )

      spend-IsBounded :
          (l : Limiter T) (p : Bucket T × List (Bucket T))
          → IsFetched l p
          → IsBounded (spend a l p).0
      spend-IsBounded l (b, rest) (le, absent, d, w, room) = elim (Bool-cases (a.spent b.tokens)) [
        | inl e ↦ rw e (room, (absent, d), (le, w))
        | inr e ↦ rw e (
          room,
          (absent, d),
          (le_trans (a.less_one b.tokens) b.tokens l.burst (less_one_le b.tokens) le, w),
        )
      ]

      spend-settings :
          (l : Limiter T) (p : Bucket T × List (Bucket T)) → (spend a l p).0.max_keys ≡ l.max_keys
      spend-settings l (b, rest) = elim (Bool-cases (a.spent b.tokens)) [
        | inl e ↦ rw e
        | inr e ↦ rw e
      ]

      call-settings : (l : Limiter T) (c : Call) → (call l c).max_keys ≡ l.max_keys
      unfolding allow refund
      call-settings l (try now k) = spend-settings l (fetch a l now k)
      call-settings l (give_back k) = refl

      call-IsBounded :
          (l : Limiter T) (c : Call) → 1 ≤ l.max_keys → IsBounded l → IsBounded (call l c)
      unfolding allow refund fetch
      call-IsBounded l (try now k) pos h =
          spend-IsBounded l (fetch a l now k)
            (fetch_found-IsFetched l now k (first (has_key k) l.order) refl pos h)
      call-IsBounded l (give_back k) pos (le, d, w) = (
        omega (arith, le, length-update (has_key k) (refunded a l.burst) l.order),
        Distinct-update key_of (has_key k) (refunded a l.burst) l.order (λ b. refl) d,
        All-update (IsWithin l.burst) (has_key k) (refunded a l.burst) l.order
            (λ b hit le. least_le (a.plus_one b.tokens) l.burst) w,
      )

      run-IsBounded_from :
          (l : Limiter T) (cs : List Call) → 1 ≤ l.max_keys → IsBounded l → IsBounded (run l cs)
      run-IsBounded_from l [] pos h = h
      run-IsBounded_from l (c ∷ cs) pos h =
          run-IsBounded_from (call l c) cs (omega (arith, call-settings l c))
            (call-IsBounded l c pos h)

      max_keys_or-positive : (n : ℕ) → 1 ≤ max_keys_or n
      unfolding max_keys_or
      max_keys_or-positive zero = omega arith
      max_keys_or-positive (suc n) = omega arith

      -- Whatever calls of Allow and Refund a new limiter has answered, at whatever times, it
      -- holds at most `max_keys` buckets, no two of one key, and none with more tokens than the
      -- burst, provided the order of the tokens is reflexive and transitive, the minimum of
      -- two amounts is at most the second, and taking one token makes no amount larger.
      pub run-IsBounded :
          (burst : T) (max_keys : ℕ) (cs : List Call)
          → IsBounded (run (new_limiter burst max_keys) cs)
      run-IsBounded burst max_keys cs =
          run-IsBounded_from (new_limiter burst max_keys) cs (max_keys_or-positive max_keys)
            (omega arith, tt, tt)
