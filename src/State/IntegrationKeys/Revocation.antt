-- ===== src/State/IntegrationKeys/Revocation.antt =====
-- The revocation of integration keys: what it leaves of both tables.
use mathlib.Core.Option
use tempogate.Common.{
  ℕ, String, ◌≡◌, refl, sym, ◌∙◌, true, ◌||◌, Option, none, some, List, ◌==◌, eq_iff, eq_refl,
  arith, if◌then◌else◌, is_none, Bool-cases, Option-cases, inl, inr, first, any, update, entry,
  entry_key, entry-update, subst,
}
use tempogate.State.Driver.{Driver, IsUp}
use tempogate.State.IntegrationKeys.{
  IntegrationKey, DeniedRow, KeyTables, MarkResult, marked, id_of, denied_jti, stamp, unrevoked,
  deny, mark_found, mark_integration_key_revoked,
}

-- what a revocation leaves of a key: the first time of revocation stays
abbrev pub revoked_key : ℕ → IntegrationKey → IntegrationKey
revoked_key at k = if is_none k.revoked_at then stamp at k else k

abbrev pub IsDenied : String → KeyTables → Type 0
IsDenied j t = any (λ r. denied_jti r == j) t.denied ≡ true

any-deny :
    (j i : String) (at : ℕ) (rows : List DeniedRow)
    → any (λ r. denied_jti r == i) (deny j at rows)
      ≡ ((i == j) || any (λ r. denied_jti r == i) rows)
unfolding any
any-deny j i at rows = elim (Bool-cases (any (λ r. denied_jti r == j) rows)) [
  | inl there ↦ elim (Bool-cases (i == j)) [
    | inl same ↦
        let named : i ≡ j = (eq_iff i j).0 same in rw (there, same) (rw (sym named) at there)
    | inr other ↦ rw (there, other)
  ]
  | inr fresh ↦ rw fresh (ground (arith, eq_iff i j, eq_iff j i))
]

entry-marked :
    (id k : String) (at : ℕ) (rows : List IntegrationKey)
    → entry id_of k (update (unrevoked id) (stamp at) rows)
      ≡ (if k == id then Option.map (revoked_key at) (entry id_of k rows) else entry id_of k rows)
entry-marked id k at rows =
    entry-update id_of k (unrevoked id) (stamp at) rows (λ r. refl)
    ∙ elim (Option-cases (entry id_of k rows)) [
      | inl absent ↦ rw absent (ground arith)
      | inr (r, found) ↦
          let named : id_of r ≡ k = entry_key id_of k rows found in rw (found, named) (ground arith)
    ]

-- What a revocation answers, and what it leaves, by its answer. An error leaves the tables as they
-- were.
abbrev pub Outcome : String → ℕ → KeyTables → KeyTables × MarkResult → Type 0
Outcome id at t (t', MarkResult.failed) = t' ≡ t
Outcome id at t (t', MarkResult.not_found) = (t' ≡ t) × (entry id_of id t.keys ≡ none)
Outcome id at t (t', marked j) =
    ((r : IntegrationKey) × (entry id_of id t.keys ≡ some r) × (r.jti ≡ j))
    × ((k : String)
        → entry id_of k t'.keys ≡ (
            if k == id
            then Option.map (revoked_key at) (entry id_of k t.keys)
            else entry id_of k t.keys))
    × ((i : String)
        → any (λ r. denied_jti r == i) t'.denied
          ≡ ((i == j) || any (λ r. denied_jti r == i) t.denied))

abbrev pub verdict : Option IntegrationKey → MarkResult
verdict none = MarkResult.not_found
verdict (some k) = marked k.jti

mark_found-Outcome :
    (db : Driver) (id : String) (at : ℕ) (t : KeyTables) (r : IntegrationKey)
    → entry id_of id t.keys ≡ some r
    → Outcome id at t (mark_found db id at r.jti t)
mark_found-Outcome db id at t r found = elim (Bool-cases (db 2 || (db 3 || db 4))) [
  | inl down ↦ rw down refl
  | inr up ↦
      rw up ((r, found, refl), λ k. entry-marked id k at t.keys, λ i. any-deny r.jti i at t.denied)
]

-- The revocation of a key is all or nothing, whatever the driver does: an error leaves both
-- tables as they were, so does an unknown id, and an answer with a jti means that the key is
-- there and has this jti, that it keeps its first time of revocation or gets `at`, that no other
-- key has changed, and that exactly this jti has joined the denylist. A driver that answers gives
-- no error.
pub mark_integration_key_revoked-Outcome :
    (db : Driver) (id : String) (at : ℕ) (t : KeyTables)
    → Outcome id at t (mark_integration_key_revoked db id at t)
      × (IsUp db → (mark_integration_key_revoked db id at t).1 ≡ verdict (entry id_of id t.keys))
unfolding mark_integration_key_revoked entry
mark_integration_key_revoked-Outcome db id at t = (
  elim (Bool-cases (db 0 || db 1)) [
    | inl down ↦ rw down refl
    | inr up ↦ elim (Option-cases (first (λ r. id_of r == id) t.keys)) [
      | inl absent ↦ rw (up, absent) (refl, absent)
      | inr (r, found) ↦ rw (up, found) (mark_found-Outcome db id at t r found)
    ]
  ],
  λ ready. elim (Option-cases (first (λ r. id_of r == id) t.keys)) [
    | inl absent ↦ rw (ready 0, ready 1, absent)
    | inr (r, found) ↦ rw (ready 0, ready 1, found, ready 2, ready 3, ready 4)
  ],
)

-- A jti is denied as soon as its key has been revoked.
pub mark_integration_key_revoked-IsDenied :
    (db : Driver) (id : String) (at : ℕ) (t : KeyTables) {t' : KeyTables} {j : String}
    → mark_integration_key_revoked db id at t ≡ (t', marked j)
    → IsDenied j t'
mark_integration_key_revoked-IsDenied db id at t {t'} {j} e =
    let (_, _, list) : Outcome id at t (t', marked j) =
      subst (Outcome id at t) e (mark_integration_key_revoked-Outcome db id at t).0 in
    list j ∙ rw (eq_refl j)
