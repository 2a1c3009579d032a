-- ===== src/Keys/Denylist/Bounds.antt =====
-- keys/denylist_cache.go: how large the cache of the denylist becomes.
use tempogate.Common.{
  ℕ, zero, suc, ◌≤◌, ◌<◌, String, ◌≡◌, refl, Bool, true, List, [], ◌∷◌, arith, leb, Bool-cases, inl,
  inr, length, All, any, first_of_any, length-delete_le, length-delete_hit,
}
use tempogate.Keys.Denylist.{
  CacheEntry, DenylistCache, Order, jti_of, has_jti, expired, victim_or, victim, evict_one, swept,
  put, store, max_entries_or, new_denylist_cache,
}

-- An iteration meets entries of the map, and one at least when there is one.
abbrev pub IsIteration : Order → Type 0
IsIteration order =
    (es : List CacheEntry)
    → All (λ e. any (has_jti (jti_of e)) es ≡ true) (order es)
      × (1 ≤ length es → 1 ≤ length (order es))

victim_or_met :
    (P : String → Type 0) (v : String) (es : List CacheEntry)
    → P v
    → All (λ e. P (jti_of e)) es
    → P (victim_or v es)
victim_or_met P v [] h all = h
victim_or_met P v (e ∷ es) h all = elim (Bool-cases e.revoked) [
  | inl denied ↦ rw denied (victim_or_met P v es h all.1)
  | inr active ↦ rw active (all.0)
]

victim_met :
    (P : String → Type 0) (es : List CacheEntry)
    → 1 ≤ length es
    → All (λ e. P (jti_of e)) es
    → P (victim es)
victim_met P [] some_entry all = elim some_entry [ ]
victim_met P (e ∷ es) some_entry all = victim_or_met P (jti_of e) (e ∷ es) all.0 all

length-evict_one :
    (order : Order) (es : List CacheEntry)
    → IsIteration order
    → 1 ≤ length es
    → length (evict_one order es) < length es
length-evict_one order es iterates filled =
    let (met, some_met) = iterates es in
    let there = victim_met (λ j. any (has_jti j) es ≡ true) (order es) (some_met filled) met in
    let (e, found) = first_of_any (has_jti (victim (order es))) es there in
    length-delete_hit (has_jti (victim (order es))) es found

length-put :
    (order : Order) (j : String) (revoked : Bool) (now : ℕ) (c : DenylistCache)
    → IsIteration order
    → 1 ≤ c.max_entries
    → length c.entries ≤ c.max_entries
    → length (put order j revoked now c).entries ≤ c.max_entries
length-put order j revoked now c iterates pos le = elim (Bool-cases (any (has_jti j) c.entries)) [
  | inl there ↦
      let (e, found) = first_of_any (has_jti j) c.entries there in
      rw there (omega (arith, le, length-delete_hit (has_jti j) c.entries found))
  | inr fresh ↦ elim (Bool-cases (leb c.max_entries (length c.entries))) [
    | inl full ↦
        let evicted = length-evict_one order c.entries iterates (ground arith) in
        rw (fresh, full)
          (omega (arith, le, evicted, length-delete_le (has_jti j) (evict_one order c.entries)))
    | inr room ↦
        let short : length c.entries < c.max_entries = ground arith in
        rw (fresh, room) (omega (arith, short, length-delete_le (has_jti j) c.entries))
  ]
]

swept_smaller :
    (now : ℕ) (c : DenylistCache)
    → (length (swept now c).entries ≤ length c.entries)
      × ((swept now c).max_entries ≡ c.max_entries)
swept_smaller now c = elim (Bool-cases (leb c.next_sweep now)) [
  | inl due ↦ rw due (length-delete_le (expired now) c.entries, refl)
  | inr early ↦ rw early (omega arith, refl)
]

length-store :
    (order : Order) (now : ℕ) (j : String) (revoked : Bool) (c : DenylistCache)
    → IsIteration order
    → 1 ≤ c.max_entries
    → length c.entries ≤ c.max_entries
    → length (store order now j revoked c).entries ≤ (store order now j revoked c).max_entries
unfolding store
length-store order now j revoked c iterates pos le =
    let (smaller, same) = swept_smaller now c in
    length-put order j revoked now (swept now c) iterates (omega (arith, same, pos))
      (omega (arith, same, smaller, le))

store_max :
    (order : Order) (now : ℕ) (j : String) (revoked : Bool) (c : DenylistCache)
    → (store order now j revoked c).max_entries ≡ c.max_entries
unfolding store
store_max order now j revoked c = (swept_smaller now c).1

-- One answer that the cache stores, with the iteration order that its eviction meets.
pub record Answer : Type 0 where
  pub order : Order
  pub now : ℕ
  pub jti : String
  pub revoked : Bool

abbrev pub store_answer : DenylistCache → Answer → DenylistCache
store_answer c a = store a.order a.now a.jti a.revoked c

abbrev pub store_all : DenylistCache → List Answer → DenylistCache
store_all c [] = c
store_all c (a ∷ answers) = store_all (store_answer c a) answers

store_all_bounded :
    (c : DenylistCache) (answers : List Answer)
    → All (λ a. IsIteration a.order) answers
    → 1 ≤ c.max_entries
    → length c.entries ≤ c.max_entries
    → (length (store_all c answers).entries ≤ c.max_entries)
store_all_bounded c [] iterates pos le = le
store_all_bounded c (a ∷ answers) iterates pos le =
    let same = store_max a.order a.now a.jti a.revoked c in
    let left =
      store_all_bounded (store_answer c a) answers iterates.1 (omega (arith, same, pos))
        (length-store a.order a.now a.jti a.revoked c iterates.0 pos le) in
    omega (arith, same, left)

max_entries_or-positive : (n : ℕ) → 1 ≤ max_entries_or n
unfolding max_entries_or
max_entries_or-positive zero = omega arith
max_entries_or-positive (suc n) = omega arith

-- A new cache never holds more than its `max_entries` entries, whatever answers it has stored, at
-- whatever times, and in whatever order the map is iterated, provided an iteration meets entries
-- of the map and at least one when there is one.
pub length-store_all :
    (ttl max : ℕ) (answers : List Answer)
    → All (λ a. IsIteration a.order) answers
    → length (store_all (new_denylist_cache ttl max) answers).entries ≤ max_entries_or max
length-store_all ttl max answers iterates =
    store_all_bounded (new_denylist_cache ttl max) answers iterates (max_entries_or-positive max)
      (omega arith)
