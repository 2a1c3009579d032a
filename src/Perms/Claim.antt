-- ===== src/Perms/Claim.antt =====
-- ToClaim and ParseClaim: what is in a claim, and that it is read back.
use Prim.Native.String.{compare}
use text.Mathlib.TextPositions.{compare_refl}
use text.Mathlib.Text.{is_lt}
use tempogate.Common.{
  ℕ, ◌+◌, String, ◌≡◌, ◌≢◌, refl, ◌∙◌, ◌==◌, eq_iff, true, false, Option, none, some, [], ◌∷◌, map,
  arith, any, All, Bool-cases, inl, inr, ◌⊎◌, cut_last, cut_last-append,
}
use tempogate.Perms.{
  NamespacePermission, Perms, namespace_of, valid, add, add_all, insert_sorted, sort_by_namespace,
  namespaces, claim_entry, to_claim, ok, colon, parse_entry, parse_from, parse_claim,
}
use tempogate.Perms.Levels.{role_at, role_at-add, role_at-absent, raise, IsMap}

any-insert_sorted :
    (k : String) (p : NamespacePermission) (ps : Perms)
    → any (λ x. namespace_of x == k) (insert_sorted p ps) ≡ any (λ x. namespace_of x == k) (p ∷ ps)
unfolding insert_sorted any
any-insert_sorted k p [] = refl
any-insert_sorted k p (q ∷ qs) = ground (arith, any-insert_sorted k p qs)

insert_sorted-IsMap :
    (p : NamespacePermission) (ps : Perms) → IsMap (p ∷ ps) → IsMap (insert_sorted p ps)
unfolding insert_sorted any
insert_sorted-IsMap p [] d = d
insert_sorted-IsMap p (q ∷ qs) d = elim (Bool-cases (is_lt (compare q.namespace p.namespace))) [
  | inl before ↦ rw before (
    any-insert_sorted q.namespace p qs
        ∙ ground
            (arith, d.0, d.1.0, eq_iff p.namespace q.namespace, eq_iff q.namespace p.namespace),
    insert_sorted-IsMap p qs (ground (arith, d.0), d.1.1),
  )
  | inr behind ↦ rw behind d
]

role_at-insert_sorted :
    (k : String) (p : NamespacePermission) (ps : Perms)
    → role_at k (insert_sorted p ps) ≡ role_at k (p ∷ ps)
unfolding insert_sorted role_at
role_at-insert_sorted k p [] = refl
role_at-insert_sorted k p (q ∷ qs) = elim (Bool-cases (is_lt (compare q.namespace p.namespace))) [
  | inl before ↦
      rw (before, role_at-insert_sorted k p qs)
        (ground (arith, eq_iff p.namespace k, eq_iff q.namespace k, compare_refl k))
  | inr behind ↦ rw behind refl
]

any-sort_by_namespace :
    (k : String) (ps : Perms)
    → any (λ x. namespace_of x == k) (sort_by_namespace ps) ≡ any (λ x. namespace_of x == k) ps
unfolding sort_by_namespace any
any-sort_by_namespace k [] = refl
any-sort_by_namespace k (p ∷ ps) =
    any-insert_sorted k p (sort_by_namespace ps) ∙ rw (any-sort_by_namespace k ps) refl

-- Sorting keeps the map.
sort_by_namespace-IsMap : (ps : Perms) → IsMap ps → IsMap (sort_by_namespace ps)
unfolding sort_by_namespace
sort_by_namespace-IsMap [] d = d
sort_by_namespace-IsMap (p ∷ ps) d =
    insert_sorted-IsMap p (sort_by_namespace ps)
      (any-sort_by_namespace p.namespace ps ∙ d.0, sort_by_namespace-IsMap ps d.1)

role_at-sort_by_namespace :
    (k : String) (ps : Perms) → role_at k (sort_by_namespace ps) ≡ role_at k ps
unfolding sort_by_namespace role_at
role_at-sort_by_namespace k [] = refl
role_at-sort_by_namespace k (p ∷ ps) =
    role_at-insert_sorted k p (sort_by_namespace ps) ∙ rw (role_at-sort_by_namespace k ps) refl

-- An entry that ParseClaim accepts.
abbrev pub IsEntry : NamespacePermission → Type 0
IsEntry p = (p.namespace ≢ "") × (valid p.role ≡ true)

pub valid-cases :
    (r : String)
    → valid r ≡ true
    → (r ≡ "worker") ⊎ ((r ≡ "read") ⊎ ((r ≡ "write") ⊎ (r ≡ "admin")))
unfolding valid
valid-cases r v =
    ground (arith, eq_iff r "worker", eq_iff r "read", eq_iff r "write", eq_iff r "admin")

no_colon : (r : String) → valid r ≡ true → cut_last colon r ≡ none
unfolding cut_last
no_colon r v = elim (valid-cases r v) [
  | inl e ↦ rw e refl
  | inr (inl e) ↦ rw e refl
  | inr (inr (inl e)) ↦ rw e refl
  | inr (inr (inr e)) ↦ rw e refl
]

cut-claim_entry :
    (p : NamespacePermission)
    → IsEntry p
    → cut_last colon (claim_entry p) ≡ some (p.namespace, p.role)
cut-claim_entry p h = cut_last-append colon p.namespace p.role ":" refl (no_colon p.role h.1)

parse_from-claim :
    (i : ℕ) (ps acc : Perms)
    → All IsEntry ps
    → parse_from i (map claim_entry ps) acc ≡ ok (add_all acc ps)
unfolding parse_from add_all parse_entry
parse_from-claim i [] acc h = refl
parse_from-claim i (p ∷ ps) acc h =
    let named : (p.namespace == "") ≡ false = ground (arith, eq_iff p.namespace "", h.0.0) in
    rw (cut-claim_entry p h.0, named, h.0.1)
      (parse_from-claim (i + 1) ps (add p.namespace p.role acc) h.1)

All-insert_sorted :
    (p : NamespacePermission) (ps : Perms)
    → IsEntry p
    → All IsEntry ps
    → All IsEntry (insert_sorted p ps)
unfolding insert_sorted
All-insert_sorted p [] h hs = (h, tt)
All-insert_sorted p (q ∷ qs) h hs = elim (Bool-cases (is_lt (compare q.namespace p.namespace))) [
  | inl before ↦ rw before (hs.0, All-insert_sorted p qs h hs.1)
  | inr behind ↦ rw behind (h, hs)
]

All-sort_by_namespace : (ps : Perms) → All IsEntry ps → All IsEntry (sort_by_namespace ps)
unfolding sort_by_namespace
All-sort_by_namespace [] hs = tt
All-sort_by_namespace (p ∷ ps) hs =
    All-insert_sorted p (sort_by_namespace ps) hs.0 (All-sort_by_namespace ps hs.1)

-- what the entries of a second map make of a namespace
abbrev offered : Option String → Option String → Option String
offered cur none = cur
offered cur (some r) = some (raise cur r)

role_at-add_all :
    (k : String) (acc ps : Perms)
    → IsMap ps
    → role_at k (add_all acc ps) ≡ offered (role_at k acc) (role_at k ps)
unfolding add_all role_at
role_at-add_all k acc [] d = refl
role_at-add_all k acc (p ∷ ps) d = elim (Bool-cases (p.namespace == k)) [
  | inl own ↦
      let alone : role_at k ps ≡ none =
        role_at-absent k ps (rw (← (eq_iff p.namespace k).0 own) d.0) in
      let same = (eq_iff p.namespace k).0 own in
      rw
        (
          role_at-add_all k (add p.namespace p.role acc) ps d.1,
          role_at-add k p.namespace p.role acc,
          own,
          alone,
          same,
        )
        refl
  | inr other ↦
      rw
        (
          role_at-add_all k (add p.namespace p.role acc) ps d.1,
          role_at-add k p.namespace p.role acc,
          other,
        )
        refl
]

offered-none : (o : Option String) → offered none o ≡ o
offered-none none = refl
offered-none (some r) = refl

-- The claim of a map of valid roles under names that are not empty is parsed to a grant that
-- gives every namespace the same role, and it is written from one entry for each namespace.
pub parse_claim-to_claim :
    (ps : Perms) (k : String)
    → IsMap ps
    → All IsEntry ps
    → (qs : Perms) × (parse_claim (to_claim (some ps)) ≡ ok qs)
      × (role_at k qs ≡ role_at k ps)
      × IsMap (namespaces (some ps))
unfolding parse_claim to_claim role_at
parse_claim-to_claim ps k d h =
    let d' = sort_by_namespace-IsMap ps d in
    (
      add_all [] (sort_by_namespace ps),
      parse_from-claim 0 (sort_by_namespace ps) [] (All-sort_by_namespace ps h),
      role_at-add_all k [] (sort_by_namespace ps) d'
          ∙ offered-none _
          ∙ role_at-sort_by_namespace k ps,
      d',
    )
