-- ===== src/Keys/Denylist/Race.antt =====
-- keys/denylist_cache.go with admin/keys.go: a check whose two halves, the look into the cache with
-- the checker's answer and the memoization of that answer, stand on both sides of a revocation.
use mathlib.Core.Path.{ap₂}
use tempogate.Common.{
  ℕ, ◌+◌, ◌<◌, String, ◌≡◌, refl, sym, ap, ◌∙◌, ◌==◌, eq_refl, Bool, true, false, none, some, arith,
  first, Bool-cases, inl, inr,
}
use tempogate.State.Driver.{Driver}
use tempogate.State.IntegrationKeys.{KeyTables, MarkResult, marked, RevokedResult, known}
use tempogate.State.IntegrationKeys
use tempogate.State.IntegrationKeys.Revocation.{IsDenied, mark_integration_key_revoked-IsDenied}
use tempogate.Keys.Denylist.{
  DenylistCache, Order, store, hydrate, probe, swept, on_miss, is_revoked,
}
use tempogate.Admin.{Keyring, hydrated, revoke}

-- A stored answer is what the cache answers until the time to live is over.
probe-store :
    (order : Order) (now later : ℕ) (j : String) (revoked : Bool) (c : DenylistCache)
    → later < now + (swept now c).ttl
    → probe later j (store order now j revoked c) ≡ some revoked
unfolding probe store first
probe-store order now later j revoked c live = rw (eq_refl j) (ground (arith, live))

swept_ttl : (now : ℕ) (c : DenylistCache) → (swept now c).ttl ≡ c.ttl
swept_ttl now c = ground arith

hydrate_ttl :
    (order : Order) (now : ℕ) (j : String) (c : DenylistCache) → (hydrate order now j c).ttl ≡ c.ttl
unfolding hydrate store
hydrate_ttl order now j c = elim (Bool-cases (j == "")) [
  | inl empty ↦ rw empty
  | inr named ↦ rw named (swept_ttl now c)
]

probe-hydrate :
    (order : Order) (now later : ℕ) (j : String) (c : DenylistCache)
    → (j == "") ≡ false
    → later < now + c.ttl
    → probe later j (hydrate order now j c) ≡ some true
unfolding hydrate
probe-hydrate order now later j c named live =
    rw named (probe-store order now later j true c (omega (arith, live, swept_ttl now c)))

-- What a revocation that answers with a jti has done to the tables and to the cache.
hydrated_marked :
    (order : Order) (now : ℕ) (c : DenylistCache) (o : KeyTables × MarkResult) {k' : Keyring}
    {j : String}
    → hydrated order now c o ≡ (k', marked j)
    → (o ≡ (k'.tables, marked j)) × (k'.cache ≡ hydrate order now j c)
hydrated_marked order now c (t, MarkResult.failed) e = cc
hydrated_marked order now c (t, MarkResult.not_found) e = cc
hydrated_marked order now c (t, marked i) {k'} {j} e =
    let answered : marked i ≡ marked j = ap (λ x. x.1) e in
    let same : i ≡ j = cc answered in
    let left : record { tables = t; cache = hydrate order now i c } ≡ k' = ap (λ x. x.0) e in
    (
      ap₂ (λ u r. (u, r)) (ap (λ k. k.tables) left) answered,
      sym (ap (λ k. k.cache) left) ∙ ap (λ x. hydrate order now x c) same,
    )

-- An answer of the cache is the answer of IsRevoked, whatever the checker would say.
is_revoked-probe :
    (order : Order) (now later : ℕ) (j : String) (r : RevokedResult) (b : Bool) (c : DenylistCache)
    → probe now j c ≡ some b
    → (is_revoked order now later j r c).1 ≡ known b
unfolding is_revoked
is_revoked-probe order now later j r b c e = rw e refl

-- A revocation that succeeds makes IsRevoked refuse its jti at once, until the time to live is over.
-- But when a check of this jti missed the cache before the revocation and was told by the checker
-- that the jti is not denied, and it memoizes this answer only after Hydrate, then the jti is denied
-- in the table and IsRevoked still calls it active, without asking, until the time to live of that
-- answer is over.
pub revoke_overtaken :
    (db db' : Driver) (order order' order'' : Order) (looked at hydrated_at stored_at now later : ℕ)
    (id j : String) (k : Keyring) (r : RevokedResult) {k' : Keyring}
    → (j == "") ≡ false
    → probe looked j k.cache ≡ none
    → IntegrationKeys.is_revoked db' j k.tables ≡ known false
    → revoke db order at hydrated_at id k ≡ (k', marked j)
    → now < hydrated_at + k.cache.ttl
    → now < stored_at + k.cache.ttl
    → ((is_revoked order'' now later j r k'.cache).1 ≡ known true)
      × IsDenied j k'.tables
      × ((is_revoked order'' now later j r
            (on_miss order' stored_at j
              (IntegrationKeys.is_revoked db' j k.tables)
              (probe looked j k.cache)
              k'.cache).0).1
          ≡ known false)
unfolding revoke
revoke_overtaken db db' order order' order'' looked at hydrated_at stored_at now later id j k r
      {k' = k'} named miss told e live live' =
    let (marking, cache) = hydrated_marked order hydrated_at k.cache _ e in
    let ttl =
      swept_ttl stored_at k'.cache
      ∙ ap (λ c. c.ttl) cache
      ∙ hydrate_ttl order hydrated_at j k.cache in
    (
      is_revoked-probe order'' now later j r true _
          (rw cache (probe-hydrate order hydrated_at now j k.cache named live)),
      mark_integration_key_revoked-IsDenied db id at k.tables marking,
      is_revoked-probe order'' now later j r false _ (
          rw (told, miss) (probe-store order' stored_at now j false _ (omega (arith, live', ttl)))),
    )
