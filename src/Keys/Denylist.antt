-- ===== src/Keys/Denylist.antt =====
-- keys/denylist_cache.go: the cache of the denylist's answers. The map of the source is the list
-- read by its keys; the checker's answer is an argument, and so is the order in which Go's map is
-- iterated, which the language leaves open. The cache without a checker is left out.
pub mod Bounds
pub mod Race
use tempogate.Common.{
  ℕ, zero, suc, ◌+◌, String, Bool, true, false, not, ◌&&◌, Option, none, some, List, [], ◌∷◌, ◌==◌,
  if◌then◌else◌, ltb, leb, length, first, any, delete,
}
use tempogate.State.IntegrationKeys.{RevokedResult, known}

pub record CacheEntry : Type 0 where
  pub jti : String
  pub revoked : Bool
  pub expires : ℕ

pub record DenylistCache : Type 0 where
  pub ttl : ℕ
  pub max_entries : ℕ
  pub entries : List CacheEntry
  pub next_sweep : ℕ

abbrev pub jti_of : CacheEntry → String
jti_of e = e.jti

abbrev pub has_jti : String → CacheEntry → Bool
has_jti j e = jti_of e == j

-- DefaultDenylistTTL, 30 * time.Second
abbrev pub default_denylist_ttl : ℕ
default_denylist_ttl = 30_000_000_000

-- WithDenylistMaxEntries, on the default
unfoldable pub max_entries_or : ℕ → ℕ
max_entries_or zero = 100_000
max_entries_or (suc n) = suc n

-- NewDenylistCache; the zero time is 0.
abbrev pub new_denylist_cache : ℕ → ℕ → DenylistCache
new_denylist_cache ttl max_entries = record {
  ttl = ttl;
  max_entries = max_entries_or max_entries;
  entries = [];
  next_sweep = 0;
}

abbrev pub expired : ℕ → CacheEntry → Bool
expired now e = leb e.expires now

-- An iteration order: what a loop over the map meets.
abbrev pub Order : Type 0
Order = List CacheEntry → List CacheEntry

-- The victim of evictOne: the first entry met that is active, else the first one met.
abbrev pub victim_or : String → List CacheEntry → String
victim_or v [] = v
victim_or v (e ∷ es) = let rest = victim_or v es in if e.revoked then rest else jti_of e

abbrev pub victim : List CacheEntry → String
victim [] = ""
victim (e ∷ es) = victim_or (jti_of e) (e ∷ es)

-- evictOne
abbrev pub evict_one : Order → List CacheEntry → List CacheEntry
evict_one order es = delete (has_jti (victim (order es))) es

abbrev pub swept : ℕ → DenylistCache → DenylistCache
swept now c =
    if leb c.next_sweep now
    then record c { entries = delete (expired now) c.entries; next_sweep = now + c.ttl }
    else c

abbrev pub with_room : Order → String → DenylistCache → List CacheEntry
with_room order j c =
    if not (any (has_jti j) c.entries) && leb c.max_entries (length c.entries)
    then evict_one order c.entries
    else c.entries

abbrev pub put : Order → String → Bool → ℕ → DenylistCache → DenylistCache
put order j revoked now c = record c {
  entries =
      record { jti = j; revoked = revoked; expires = now + c.ttl }
      ∷ delete (has_jti j) (with_room order j c);
}

-- store
unfoldable pub store : Order → ℕ → String → Bool → DenylistCache → DenylistCache
store order now j revoked c = put order j revoked now (swept now c)

-- Hydrate
unfoldable pub hydrate : Order → ℕ → String → DenylistCache → DenylistCache
unfolding store
hydrate order now j c = if j == "" then c else store order now j true c

-- The first half of IsRevoked: the answer of a fresh entry.
abbrev pub fresh_answer : ℕ → Option CacheEntry → Option Bool
fresh_answer now none = none
fresh_answer now (some e) = if ltb now e.expires then some e.revoked else none

unfoldable pub probe : ℕ → String → DenylistCache → Option Bool
probe now j c = fresh_answer now (first (has_jti j) c.entries)

-- The second half: what the checker answered is stored, unless it is an error.
abbrev pub memoized :
    Order → ℕ → String → RevokedResult → DenylistCache → DenylistCache × RevokedResult
memoized order now j (known b) c = (store order now j b c, known b)
memoized order now j RevokedResult.failed c = (c, RevokedResult.failed)

abbrev pub on_miss :
    Order → ℕ → String → RevokedResult → Option Bool → DenylistCache → DenylistCache × RevokedResult
on_miss order now j checked (some b) c = (c, known b)
on_miss order now j checked none c = memoized order now j checked c

-- IsRevoked, with nothing between its halves; `checked` is the checker's answer, if it is asked.
unfoldable pub is_revoked :
    Order → ℕ → ℕ → String → RevokedResult → DenylistCache → DenylistCache × RevokedResult
unfolding probe
is_revoked order now later j checked c = on_miss order later j checked (probe now j c) c
