-- ===== src/Ratelimit.antt =====
-- ratelimit/ratelimit.go: token buckets, one for each key, in the order of their last use. The map
-- of the source is the list read by its keys; a time is a count of nanoseconds. Tokens are a
-- float64 there and any type here, with its operations as `Arithmetic`.
pub mod Bounds
pub mod Whole
mod Tests
use tempogate.Common.{
  ℕ, zero, suc, ◌-◌, String, Bool, true, false, Option, none, some, List, [], ◌∷◌, ◌==◌,
  if◌then◌else◌, ltb, length, first, update, delete,
}

-- WithMaxKeys, on the default
unfoldable pub max_keys_or : ℕ → ℕ
max_keys_or zero = 10_000
max_keys_or (suc n) = suc n

module _ (T : Type 0) where
  -- tokens < 1, tokens - 1, tokens + 1, min, and tokens + elapsed.Seconds() * rate
  pub record Arithmetic : Type 0 where
    pub spent : T → Bool
    pub less_one : T → T
    pub plus_one : T → T
    pub least : T → T → T
    pub refill : ℕ → T → T

  pub record Bucket : Type 0 where
    pub key : String
    pub tokens : T
    pub last : ℕ

  -- The front of `order` is the bucket used last.
  pub record Limiter : Type 0 where
    pub burst : T
    pub max_keys : ℕ
    pub order : List Bucket

module _ {T : Type 0} where
  abbrev pub key_of : Bucket T → String
  key_of b = b.key

  abbrev pub has_key : String → Bucket T → Bool
  has_key k b = key_of b == k

  -- order.Remove(order.Back())
  unfoldable pub drop_last : List (Bucket T) → List (Bucket T)
  drop_last [] = []
  drop_last (b ∷ []) = []
  drop_last (b ∷ c ∷ bs) = b ∷ drop_last (c ∷ bs)

  -- The loop that evicts the buckets used longest ago, for as many rounds as there are buckets.
  unfoldable pub make_room : ℕ → ℕ → List (Bucket T) → List (Bucket T)
  unfolding drop_last
  make_room max zero bs = bs
  make_room max (suc rounds) bs =
      let rest = make_room max rounds (drop_last bs) in if ltb (length bs) max then bs else rest

  -- New, with the burst of WithLimit
  abbrev pub new_limiter : T → ℕ → Limiter T
  new_limiter burst max_keys = record { burst = burst; max_keys = max_keys_or max_keys; order = [] }

module _ {T : Type 0} (a : Arithmetic T) where
  -- What bucket makes of a bucket that is there.
  abbrev pub refreshed : T → ℕ → Bucket T → Bucket T
  refreshed burst now b = record b {
    tokens = if ltb b.last now then a.least (a.refill (now - b.last) b.tokens) burst else b.tokens;
    last = now;
  }

  -- bucket: the key's bucket at the front
  abbrev pub fetch_found : Limiter T → ℕ → String → Option (Bucket T) → Bucket T × List (Bucket T)
  fetch_found l now k (some b) = (refreshed l.burst now b, delete (has_key k) l.order)
  fetch_found l now k none = (
    record { key = k; tokens = l.burst; last = now },
    make_room l.max_keys (length l.order) l.order,
  )

  unfoldable pub fetch : Limiter T → ℕ → String → Bucket T × List (Bucket T)
  unfolding make_room
  fetch l now k = fetch_found l now k (first (has_key k) l.order)

  abbrev pub spend : Limiter T → Bucket T × List (Bucket T) → Limiter T × Bool
  spend l (b, rest) =
      if a.spent b.tokens
      then (record l { order = b ∷ rest }, false)
      else (record l { order = (record b { tokens = a.less_one b.tokens }) ∷ rest }, true)

  -- Allow
  unfoldable pub allow : Limiter T → ℕ → String → Limiter T × Bool
  unfolding fetch
  allow l now k = spend l (fetch l now k)

  abbrev pub refunded : T → Bucket T → Bucket T
  refunded burst b = record b { tokens = a.least (a.plus_one b.tokens) burst }

  -- Refund
  unfoldable pub refund : Limiter T → String → Limiter T
  refund l k = record l { order = update (has_key k) (refunded l.burst) l.order }
