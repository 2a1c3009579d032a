-- ===== src/Perms/Levels.antt =====
-- Grants as functions from namespaces to levels: add and Merge keep the highest role, and one
-- entry for each namespace.
use tempogate.Common.{
  ℕ, String, ◌≡◌, refl, ◌∙◌, ◌==◌, eq_iff, eq_refl, Bool, true, false, Option, none, some, List, [],
  ◌∷◌, arith, if◌then◌else◌, ltb, any, Distinct, Bool-cases, inl, inr, is_some, ◌||◌,
}
use tempogate.Perms.{Perms, Grant, namespace_of, bits, add, add_all, merge, merge_onto, perms_of}

-- the role that a namespace carries
unfoldable pub role_at : String → Perms → Option String
role_at k [] = none
role_at k (p ∷ ps) = if p.namespace == k then some p.role else role_at k ps

-- its bit in Temporal's mask, 0 without an entry
abbrev bits_of : Option String → ℕ
bits_of none = 0
bits_of (some r) = bits r

abbrev pub level : String → Perms → ℕ
level k ps = bits_of (role_at k ps)

abbrev pub max : ℕ → ℕ → ℕ
max a b = if ltb a b then b else a

-- The higher of an entry and a role offered to it; on a tie the entry stays.
abbrev pub raise : Option String → String → String
raise none r = r
raise (some cur) r = if ltb (bits cur) (bits r) then r else cur

pub role_at-add :
    (k n r : String) (ps : Perms)
    → role_at k (add n r ps) ≡ (if n == k then some (raise (role_at n ps) r) else role_at k ps)
unfolding role_at add
role_at-add k n r [] = refl
role_at-add k n r (p ∷ ps) = elim (Bool-cases (p.namespace == n)) [
  | inl own ↦ rw ((eq_iff p.namespace n).0 own, eq_refl) (ground (arith))
  | inr other ↦
      rw (other, role_at-add k n r ps)
        (ground (arith, eq_iff p.namespace k, eq_iff n k, eq_iff p.namespace n))
]

pub level-add :
    (k n r : String) (ps : Perms)
    → level k (add n r ps) ≡ (if n == k then max (level k ps) (bits r) else level k ps)
level-add k n r ps = rw (role_at-add k n r ps) (ground (arith, eq_iff n k))

any-add :
    (k n r : String) (ps : Perms)
    → any (λ p. namespace_of p == k) (add n r ps)
      ≡ (if n == k then true else any (λ p. namespace_of p == k) ps)
unfolding any add
any-add k n r [] = ground arith
any-add k n r (p ∷ ps) = elim (Bool-cases (p.namespace == n)) [
  | inl own ↦ rw ((eq_iff p.namespace n).0 own, eq_refl) (ground (arith))
  | inr other ↦ rw (other, any-add k n r ps) (ground (arith))
]

-- one entry for each namespace
abbrev pub IsMap : Perms → Type 0
IsMap = Distinct namespace_of

pub add-IsMap : (n r : String) (ps : Perms) → IsMap ps → IsMap (add n r ps)
unfolding add any
add-IsMap n r [] d = (refl, tt)
add-IsMap n r (p ∷ ps) d = elim (Bool-cases (p.namespace == n)) [
  | inl own ↦ rw own (ground (arith))
  | inr other ↦ rw other (
    rw (any-add p.namespace n r ps) (ground (arith, eq_iff p.namespace n, eq_iff n p.namespace)),
    add-IsMap n r ps d.1,
  )
]

pub add_all-IsMap : (out ps : Perms) → IsMap out → IsMap (add_all out ps)
unfolding add_all
add_all-IsMap out [] d = d
add_all-IsMap out (p ∷ ps) d =
    add_all-IsMap (add p.namespace p.role out) ps (add-IsMap p.namespace p.role out d)

-- A namespace without an entry has no role.
pub role_at-absent :
    (k : String) (ps : Perms) → any (λ p. namespace_of p == k) ps ≡ false → role_at k ps ≡ none
unfolding role_at any
role_at-absent k [] h = refl
role_at-absent k (p ∷ ps) h = ground (arith, role_at-absent k ps)

max_assoc : (a b c : ℕ) → max (max a b) c ≡ max a (max b c)
max_assoc a b c = ground arith

pub level-add_all :
    (k : String) (out ps : Perms)
    → IsMap ps
    → level k (add_all out ps) ≡ max (level k out) (level k ps)
unfolding add_all role_at
level-add_all k out [] d = ground (arith)
level-add_all k out (p ∷ ps) d = elim (Bool-cases (p.namespace == k)) [
  | inl own ↦
      let alone : role_at k ps ≡ none =
        role_at-absent k ps (rw (← (eq_iff p.namespace k).0 own) d.0) in
      rw
        (
          level-add_all k (add p.namespace p.role out) ps d.1,
          level-add k p.namespace p.role out,
          own,
          alone,
        )
        (ground arith)
  | inr other ↦
      rw
        (
          level-add_all k (add p.namespace p.role out) ps d.1,
          level-add k p.namespace p.role out,
          other,
        )
        refl
]

named_add :
    (k n r : String) (ps : Perms)
    → is_some (role_at k (add n r ps)) ≡ (if n == k then true else is_some (role_at k ps))
named_add k n r ps = rw (role_at-add k n r ps) (ground (arith))

pub named-add_all :
    (k : String) (out ps : Perms)
    → is_some (role_at k (add_all out ps)) ≡ (is_some (role_at k out) || is_some (role_at k ps))
unfolding add_all role_at
named-add_all k out [] = ground (arith)
named-add_all k out (p ∷ ps) =
    rw (named-add_all k (add p.namespace p.role out) ps, named_add k p.namespace p.role out)
      (ground (arith))

-- each grant is a map
abbrev pub AreMaps : List Grant → Type 0
AreMaps [] = Unit
AreMaps (g ∷ gs) = IsMap (perms_of g) × AreMaps gs

-- the highest level that any of the grants gives, and whether any of them names the namespace
abbrev pub highest : String → List Grant → ℕ
highest k [] = 0
highest k (g ∷ gs) = max (level k (perms_of g)) (highest k gs)

abbrev pub named_by : String → List Grant → Bool
named_by k [] = false
named_by k (g ∷ gs) = is_some (role_at k (perms_of g)) || named_by k gs

merge_onto-level :
    (k : String) (out : Perms) (gs : List Grant)
    → AreMaps gs
    → (level k (merge_onto out gs) ≡ max (level k out) (highest k gs))
      × (is_some (role_at k (merge_onto out gs)) ≡ (is_some (role_at k out) || named_by k gs))
unfolding merge_onto
merge_onto-level k out [] d = (ground arith, ground arith)
merge_onto-level k out (g ∷ gs) d =
    let (levels, names) = merge_onto-level k (add_all out (perms_of g)) gs d.1 in
    (
      levels
          ∙ rw (level-add_all k out (perms_of g) d.0)
              (max_assoc (level k out) (level k (perms_of g)) (highest k gs)),
      names ∙ rw (named-add_all k out (perms_of g)) (ground arith),
    )

merge_onto-IsMap : (out : Perms) (gs : List Grant) → IsMap out → IsMap (merge_onto out gs)
unfolding merge_onto
merge_onto-IsMap out [] d = d
merge_onto-IsMap out (g ∷ gs) d =
    merge_onto-IsMap (add_all out (perms_of g)) gs (add_all-IsMap out (perms_of g) d)

-- Merge of maps is a map again. A namespace is in it exactly when one of the grants names it, and
-- its bit in the mask is the highest that any of them gives it; a nil grant gives none.
pub merge-level :
    (k : String) (gs : List Grant)
    → AreMaps gs
    → IsMap (merge gs)
      × (level k (merge gs) ≡ highest k gs)
      × (is_some (role_at k (merge gs)) ≡ named_by k gs)
unfolding merge role_at
merge-level k gs d =
    let (levels, names) = merge_onto-level k [] gs d in
    (merge_onto-IsMap [] gs tt, levels ∙ ground arith, names)
