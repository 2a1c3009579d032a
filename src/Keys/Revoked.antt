-- ===== src/Keys/Revoked.antt =====
-- Revoked tokens: what the denylist, its cache and the userinfo endpoint make of them.
use tempogate.Common.{
  ℕ, String, ◌≡◌, ◌≢◌, ◌⊎◌, refl, sym, ap, ◌∙◌, Bool, true, false, not, ◌&&◌, Option, none, some,
  List, [], ◌∷◌, ◌==◌, eq_iff, eq_refl, arith, if◌then◌else◌, ltb, leb, Bool-cases, inl, inr, first,
  any, any-delete, delete, length, subst,
}
use tempogate.State.Driver.{Driver}
use tempogate.State.IntegrationKeys.{
  KeyTables, MarkResult, marked, RevokedResult, known, denied_jti, mark_integration_key_revoked,
}
use tempogate.State.IntegrationKeys
use tempogate.State.IntegrationKeys.Revocation.{
  IsDenied, Outcome, mark_integration_key_revoked-Outcome,
}
use tempogate.Keys.Denylist.{
  CacheEntry, DenylistCache, Order, has_jti, expired, victim, swept, with_room, store, hydrate,
  fresh_answer, probe, on_miss, is_revoked,
}
use tempogate.Admin.{Keyring, hydrated, revoke}

-- no entry of the cache calls the jti active
abbrev pub NoActive : String → List CacheEntry → Type 0
NoActive j es = any (λ e. has_jti j e && not e.revoked) es ≡ false

module _ (j : String) where
  with_room-NoActive :
      (order : Order) (i : String) (c : DenylistCache)
      → NoActive j c.entries
      → NoActive j (with_room order i c)
  with_room-NoActive order i c h =
      elim (Bool-cases (not (any (has_jti i) c.entries) && leb c.max_entries (length c.entries))) [
        | inl full ↦ rw full (
            any-delete (λ e. has_jti j e && not e.revoked) (has_jti (victim (order c.entries)))
              c.entries h)
        | inr room ↦ rw room h
      ]

  swept-NoActive :
      (now : ℕ) (c : DenylistCache) → NoActive j c.entries → NoActive j (swept now c).entries
  swept-NoActive now c h = elim (Bool-cases (leb c.next_sweep now)) [
    | inl due ↦ rw due (any-delete (λ e. has_jti j e && not e.revoked) (expired now) c.entries h)
    | inr early ↦ rw early h
  ]

  -- An answer about another jti, or the answer revoked, keeps the cache without an active entry.
  store-NoActive :
      (order : Order) (now : ℕ) (i : String) (revoked : Bool) (c : DenylistCache)
      → ((i == j) && not revoked) ≡ false
      → NoActive j c.entries
      → NoActive j (store order now i revoked c).entries
  unfolding store any
  store-NoActive order now i revoked c safe h = rw safe (
      any-delete (λ e. has_jti j e && not e.revoked) (has_jti i) (with_room order i (swept now c))
        (with_room-NoActive order i (swept now c) (swept-NoActive now c h)))

  any-delete_own :
      (es : List CacheEntry)
      → any (λ e. has_jti j e && not e.revoked) (delete (has_jti j) es) ≡ false
  unfolding any delete
  any-delete_own [] = refl
  any-delete_own (e ∷ es) = elim (Bool-cases (has_jti j e)) [
    | inl own ↦ rw own (any-delete_own es)
    | inr other ↦ rw (other, other) (any-delete_own es)
  ]

  -- Whatever the cache held, after Hydrate it has no active entry of the jti.
  hydrate-NoActive :
      (order : Order) (now : ℕ) (c : DenylistCache)
      → (j == "") ≡ false
      → NoActive j (hydrate order now j c).entries
  unfolding hydrate store any
  hydrate-NoActive order now c named =
      rw (named, eq_refl j) (any-delete_own (with_room order j (swept now c)))

-- What comes after a revocation: cached checks of any jti, and revocations of any key.
pub data Call : Type 0 where
  check : Driver → Order → ℕ → ℕ → String → Call
  revoking : Driver → Order → ℕ → ℕ → String → Call

-- the store as the checker behind the cache
abbrev pub checked : Driver → Order → ℕ → ℕ → String → Keyring → DenylistCache × RevokedResult
checked db order now later i k =
    is_revoked order now later i (IntegrationKeys.is_revoked db i k.tables) k.cache

abbrev pub step : Keyring → Call → Keyring
step k (check db order now later i) = record k { cache = (checked db order now later i k).0 }
step k (revoking db order at now id) = (revoke db order at now id k).0

abbrev pub run : Keyring → List Call → Keyring
run k [] = k
run k (c ∷ cs) = run (step k c) cs

module _ (j : String) where
  abbrev IsOut : Keyring → Type 0
  IsOut k = IsDenied j k.tables × NoActive j k.cache.entries

  -- the checker's answer about a jti, while j is denied
  checker_safe :
      (db : Driver) (i : String) (t : KeyTables) (b : Bool)
      → IsDenied j t
      → IntegrationKeys.is_revoked db i t ≡ known b
      → ((i == j) && not b) ≡ false
  unfolding IntegrationKeys.is_revoked
  checker_safe db i t b denied e = elim (Bool-cases (i == j)) [
    | inr other ↦ rw other
    | inl same ↦ elim (Bool-cases (db 0)) [
      | inl down ↦ cc (rw down at e)
      | inr up ↦
          let named : i ≡ j = (eq_iff i j).0 same in
          let listed : known (any (λ r. denied_jti r == i) t.denied) ≡ known b = rw up at e in
          let there : any (λ r. denied_jti r == i) t.denied ≡ true = rw named denied in
          let answer : known true ≡ known b = sym (ap known there) ∙ listed in
          let told : true ≡ b = cc answer in rw (same, sym told)
    ]
  ]

  on_miss_safe :
      (db : Driver) (order : Order) (later : ℕ) (i : String) (k : Keyring) (o : Option Bool)
      (r : RevokedResult)
      → IntegrationKeys.is_revoked db i k.tables ≡ r
      → IsOut k
      → NoActive j (on_miss order later i r o k.cache).0.entries
  on_miss_safe db order later i k (some b) r e (denied, clean) = clean
  on_miss_safe db order later i k none RevokedResult.failed e (denied, clean) = clean
  on_miss_safe db order later i k none (known b) e (denied, clean) =
      store-NoActive j order later i b k.cache (checker_safe db i k.tables b denied e) clean

  hydrate_safe :
      (order : Order) (now : ℕ) (i : String) (c : DenylistCache)
      → NoActive j c.entries
      → NoActive j (hydrate order now i c).entries
  unfolding hydrate
  hydrate_safe order now i c clean = elim (Bool-cases (i == "")) [
    | inl empty ↦ rw empty clean
    | inr named ↦ rw named (store-NoActive j order now i true c (ground arith) clean)
  ]

  revoke_safe :
      (order : Order) (at now : ℕ) (id : String) (k : Keyring) (p : KeyTables × MarkResult)
      → Outcome id at k.tables p
      → IsOut k
      → IsOut (hydrated order now k.cache p).0
  revoke_safe order at now id k (t, MarkResult.failed) o (denied, clean) = (rw o denied, clean)
  revoke_safe order at now id k (t, MarkResult.not_found) o (denied, clean) =
      (rw (o.0) denied, clean)
  revoke_safe order at now id k (t, marked i) o (denied, clean) =
      (o.2 j ∙ rw denied (ground arith), hydrate_safe order now i k.cache clean)

  step-IsOut : (k : Keyring) (c : Call) → IsOut k → IsOut (step k c)
  unfolding is_revoked revoke
  step-IsOut k (check db order now later i) (denied, clean) = (
    denied,
    on_miss_safe db order later i k (probe now i k.cache) (IntegrationKeys.is_revoked db i k.tables)
        refl (denied, clean),
  )
  step-IsOut k (revoking db order at now id) out =
      revoke_safe order at now id k (mark_integration_key_revoked db id at k.tables)
        (mark_integration_key_revoked-Outcome db id at k.tables).0 out

  run-IsOut : (k : Keyring) (cs : List Call) → IsOut k → IsOut (run k cs)
  run-IsOut k [] out = out
  run-IsOut k (c ∷ cs) out = run-IsOut (step k c) cs (step-IsOut k c out)

  hydrated-IsOut :
      (order : Order) (at now : ℕ) (id : String) (k : Keyring) (p : KeyTables × MarkResult)
      {k' : Keyring}
      → Outcome id at k.tables p
      → (j == "") ≡ false
      → hydrated order now k.cache p ≡ (k', marked j)
      → IsOut k'
  hydrated-IsOut order at now id k (t, MarkResult.failed) o named e = cc
  hydrated-IsOut order at now id k (t, MarkResult.not_found) o named e = cc
  hydrated-IsOut order at now id k (t, marked i) {k'} o named e =
      let answered : marked i ≡ marked j = ap (λ x. x.1) e in
      let same : i ≡ j = cc answered in
      let left : IsOut (record { tables = t; cache = hydrate order now i k.cache }) =
        rw same ((o.2 j ∙ rw (same, eq_refl j)), hydrate-NoActive j order now k.cache named) in
      subst IsOut (ap (λ x. x.0) e) left

  answer_revoked : (now expires : ℕ) → (if ltb now expires then some true else none) ≢ some false
  answer_revoked now expires = elim (Bool-cases (ltb now expires)) [
    | inl live ↦ rw live (λ e. cc e)
    | inr old ↦ rw old (λ e. cc e)
  ]

  -- what a fresh entry says while none is active
  probe_out :
      (now : ℕ) (es : List CacheEntry)
      → NoActive j es
      → fresh_answer now (first (has_jti j) es) ≢ some false
  unfolding first any
  probe_out now [] h = λ e. cc e
  probe_out now (x ∷ es) h = elim (Bool-cases (has_jti j x)) [
    | inr other ↦ rw other (probe_out now es (rw other at h))
    | inl own ↦ elim (Bool-cases x.revoked) [
      | inr active ↦ λ e. cc (rw (own, active) at h)
      | inl revoked ↦ rw (own, revoked) (answer_revoked now x.expires)
    ]
  ]

  on_miss_out :
      (db : Driver) (order : Order) (later : ℕ) (k : Keyring) (o : Option Bool) (r : RevokedResult)
      → IntegrationKeys.is_revoked db j k.tables ≡ r
      → IsOut k
      → o ≢ some false
      → ((on_miss order later j r o k.cache).1 ≡ known true)
        ⊎ ((on_miss order later j r o k.cache).1 ≡ RevokedResult.failed)
  on_miss_out db order later k (some true) r e out shown = inl refl
  on_miss_out db order later k (some false) r e out shown = elim (shown refl) [ ]
  on_miss_out db order later k none RevokedResult.failed e out shown = inr refl
  on_miss_out db order later k none (known true) e out shown = inl refl
  on_miss_out db order later k none (known false) e (denied, clean) shown =
      cc (rw (eq_refl j) at (checker_safe db j k.tables false denied e))

  -- Once a key has been revoked, no check of its jti calls it active, whatever cached checks and
  -- revocations come in between, one after the other, at whatever readings of the clock and with
  -- whatever the driver does: the answer is revoked or an error.
  pub revoke-IsRevoked :
      (db db' : Driver) (order order' : Order) (at now now' later : ℕ) (id : String) (k : Keyring)
      (cs : List Call) {k' : Keyring}
      → (j == "") ≡ false
      → revoke db order at now id k ≡ (k', marked j)
      → ((checked db' order' now' later j (run k' cs)).1 ≡ known true)
        ⊎ ((checked db' order' now' later j (run k' cs)).1 ≡ RevokedResult.failed)
  unfolding revoke is_revoked probe
  revoke-IsRevoked db db' order order' at now now' later id k cs {k'} named e =
      let out = run-IsOut k' cs (
        hydrated-IsOut order at now id k (mark_integration_key_revoked db id at k.tables)
          (mark_integration_key_revoked-Outcome db id at k.tables).0 named e) in
      on_miss_out db' order' later (run k' cs) (probe now' j (run k' cs).cache)
        (IntegrationKeys.is_revoked db' j (run k' cs).tables) refl out
        (probe_out now' (run k' cs).cache.entries out.1)
