-- ===== src/Perms/Config.antt =====
-- ParseConfig: what an operator's permission list is refused for, and what it may grant.
use tempogate.Common.{
  ℕ, ◌+◌, String, ◌≡◌, ◌≢◌, refl, sym, ap, ◌∙◌, ◌==◌, eq_iff, true, Option, none, some, List, [],
  ◌∷◌, map, arith, All, Bool-cases, inl, inr, ◌⊎◌, cut_last, trim_space, ltb,
}
use tempogate.Perms.{
  Reason, NamespacePermission, Perms, valid, bits, add, Parsed, ok, refused, colon, and_then,
  parse_entry, parse_from, parse_claim, grantable, grantable_entry, check_entry, check_grantable,
  parse_config, wildcard,
}
use tempogate.Perms.Levels.{IsMap, add-IsMap}
use tempogate.Perms.Claim.{valid-cases}

-- A grant that Temporal's default authorizer honours.
abbrev pub IsGrantable : NamespacePermission → Type 0
IsGrantable p =
    (p.namespace ≢ "")
    × (p.namespace ≢ wildcard)
    × ((p.role ≡ "read") ⊎ ((p.role ≡ "write") ⊎ (p.role ≡ "admin")))

and_then_ok :
    (m : Parsed) (k : Perms → Parsed) {g : Perms}
    → and_then m k ≡ ok g
    → (g' : Perms) × (m ≡ ok g') × (k g' ≡ ok g)
and_then_ok (ok g') k e = (g', refl, e)
and_then_ok (refused r i text) k e = cc

parse_entry_ok :
    (text : String) (i : ℕ) (o : Option (String × String)) (acc : Perms) {g : Perms}
    → parse_entry text i o acc ≡ ok g
    → (n : String) × (r : String) × (o ≡ some (n, r))
      × (n ≢ "")
      × (valid r ≡ true)
      × (g ≡ add n r acc)
unfolding parse_entry
parse_entry_ok text i none acc e = cc
parse_entry_ok text i (some (n, r)) acc e =
    (n, r, refl, ground (arith, eq_iff n ""), ground (arith), ground (arith))

check_entry_ok :
    (i : ℕ) (text : String) (o : Option Reason) (rest : Parsed) {g : Perms}
    → check_entry i text o rest ≡ ok g
    → (o ≡ none) × (rest ≡ ok g)
check_entry_ok i text none rest e = (refl, e)
check_entry_ok i text (some r) rest e = cc

entry-IsGrantable :
    (n r : String)
    → n ≢ ""
    → valid r ≡ true
    → grantable n r ≡ none
    → IsGrantable (record { namespace = n; role = r })
unfolding grantable
entry-IsGrantable n r named v free = elim (valid-cases r v) [
  | inl worker ↦ absurd (ground (arith, eq_iff r "worker", worker))
  | inr rest ↦ (named, ground (arith, eq_iff n wildcard), rest)
]

All-add :
    (n r : String) (ps : Perms)
    → IsGrantable (record { namespace = n; role = r })
    → All IsGrantable ps
    → All IsGrantable (add n r ps)
unfolding add
All-add n r [] h hs = (h, tt)
All-add n r (p ∷ ps) h hs = elim (Bool-cases (p.namespace == n)) [
  | inl own ↦ elim (Bool-cases (ltb (bits p.role) (bits r))) [
    | inl higher ↦ rw (own, higher) ((hs.0.0, hs.0.1, h.2), hs.1)
    | inr lower ↦ rw (own, lower) hs
  ]
  | inr other ↦ rw other (hs.0, All-add n r ps h hs.1)
]

parse_from-IsGrantable :
    (i j : ℕ) (texts : List String) (acc : Perms) {g g' h : Perms}
    → parse_from i texts acc ≡ ok g
    → check_grantable j texts g' ≡ ok h
    → IsMap acc × All IsGrantable acc
    → (IsMap g × All IsGrantable g) × (h ≡ g')
unfolding parse_from check_grantable
parse_from-IsGrantable i j [] acc {g} {g'} {h} e c a =
    let same : acc ≡ g = ground arith in (rw (← same) a, ground arith)
parse_from-IsGrantable i j (text ∷ texts) acc e c a =
    let (acc', entered, e') =
      and_then_ok (parse_entry text i (cut_last colon text) acc) (parse_from (i + 1) texts) e in
    let (n, r, at, named, v, added) = parse_entry_ok text i (cut_last colon text) acc entered in
    let (free, c') = check_entry_ok j text (grantable_entry (cut_last colon text)) _ c in
    let fits = entry-IsGrantable n r named v (ap grantable_entry (sym at) ∙ free) in
    parse_from-IsGrantable (i + 1) (j + 1) texts acc' e' c'
      (rw added (add-IsMap n r acc a.0, All-add n r acc fits a.1))

-- A permission list that ParseConfig accepts gives a map in which every entry can be granted: a
-- namespace that is neither empty nor the wildcard, with the role read, write or admin.
pub parse_config-IsGrantable :
    (entries : List String) {g : Perms} → parse_config entries ≡ ok g → IsMap g × All IsGrantable g
unfolding parse_config parse_claim
parse_config-IsGrantable entries {g} e =
    let (g', parsed, checked) = and_then_ok (parse_from 0 (map trim_space entries) []) _ e in
    let (both, same) =
      parse_from-IsGrantable 0 0 (map trim_space entries) [] parsed checked (tt, tt) in
    rw same both
