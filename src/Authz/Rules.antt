-- ===== src/Authz/Rules.antt =====
-- Policies that Parse accepts: every grant in them is a map of permissions that can be granted.
use tempogate.Common.{
  ℕ, ◌+◌, String, ◌≡◌, refl, ◌==◌, List, [], ◌∷◌, arith, All, split, trim_space, Bool-cases, inl,
  inr, cut,
}
use tempogate.Perms.{Perms, Parsed, refused, parse_config}
use tempogate.Perms.Levels.{IsMap}
use tempogate.Perms.Config.{IsGrantable, parse_config-IsGrantable}
use tempogate.Authz.{
  Rule, Policy, PolicyResult, ok, invalid_rule, invalid_default, ◌>>=◌, cut_or, check_selector,
  permissions_or, default_or, rule_permissions, default_permissions_of, parse_rule, parse_rules,
  parse, equals, comma, no_equals, no_colon,
}

-- A grant that parses: one entry for each namespace, each of which can be granted.
abbrev pub IsSound : Perms → Type 0
IsSound g = IsMap g × All IsGrantable g

abbrev pub IsSoundRule : Rule → Type 0
IsSoundRule r = IsSound r.grant

pub >>=-eq-ok {ℓ κ} :
    {A : Type ℓ} {B : Type κ} (m : PolicyResult A) (f : A → PolicyResult B) {b : B}
    → (m >>= f) ≡ ok b
    → (a : A) × (m ≡ ok a) × (f a ≡ ok b)
>>=-eq-ok (ok a) f e = (a, refl, e)
>>=-eq-ok (invalid_rule i x) f e = cc
>>=-eq-ok (invalid_default r i x) f e = cc

ok_injective : {A : Type 0} {a b : A} → ok a ≡ ok b → a ≡ b
ok_injective e = cc

permissions_or_ok : (i : ℕ) (m : Parsed) {g : Perms} → permissions_or i m ≡ ok g → m ≡ Parsed.ok g
permissions_or_ok i (Parsed.ok g') e = cc
permissions_or_ok i (refused r j text) e = cc

default_or_ok : (m : Parsed) {g : Perms} → default_or m ≡ ok g → m ≡ Parsed.ok g
default_or_ok (Parsed.ok g') e = cc
default_or_ok (refused r j text) e = cc

rule_permissions-IsSound :
    (i : ℕ) (text : String) {g : Perms} → rule_permissions i text ≡ ok g → IsSound g
unfolding rule_permissions
rule_permissions-IsSound i text e = elim (Bool-cases (trim_space text == "")) [
  | inl blank ↦ absurd (ground (arith, blank))
  | inr listed ↦
      parse_config-IsGrantable (split comma text)
        (permissions_or_ok i (parse_config (split comma text)) (rw listed at e))
]

default_permissions_of-IsSound :
    (text : String) {g : Perms} → default_permissions_of text ≡ ok g → IsSound g
unfolding default_permissions_of
default_permissions_of-IsSound text {g} e = elim (Bool-cases (trim_space text == "")) [
  | inl blank ↦ let nothing : [] ≡ g = ok_injective (rw blank at e) in rw (← nothing) (tt, tt)
  | inr listed ↦
      parse_config-IsGrantable (split comma text)
        (default_or_ok (parse_config (split comma text)) (rw listed at e))
]

module _ (lower : String → String) where
  parse_rule-IsSound :
      (i : ℕ) (raw : String) {r : Rule} → parse_rule lower i raw ≡ ok r → IsSoundRule r
  unfolding parse_rule
  parse_rule-IsSound i raw {r} e =
      let ((selector, permissions), _, e1) =
        >>=-eq-ok (cut_or i no_equals (cut equals (trim_space raw))) _ e in
      let ((kind, value), _, e2) =
        >>=-eq-ok (cut_or i no_colon (cut b':' (trim_space selector))) _ e1 in
      let (selected, _, e3) =
        >>=-eq-ok (check_selector i (lower (trim_space kind)) (lower (trim_space value))) _ e2 in
      let (g, granted, e4) = >>=-eq-ok (rule_permissions i permissions) _ e3 in
      let made : _ ≡ r = ok_injective e4 in
      rw (← made) (rule_permissions-IsSound i permissions granted)

  parse_rules-IsSound :
      (i : ℕ) (raws : List String) {rs : List Rule}
      → parse_rules lower i raws ≡ ok rs
      → All IsSoundRule rs
  unfolding parse_rules
  parse_rules-IsSound i [] {rs} e = let nothing : [] ≡ rs = ok_injective e in rw (← nothing) tt
  parse_rules-IsSound i (raw ∷ raws) {rs} e =
      let (r, parsed, e1) = >>=-eq-ok (parse_rule lower i raw) _ e in
      let (rest, parsed', e2) = >>=-eq-ok (parse_rules lower (i + 1) raws) _ e1 in
      let made : (r ∷ rest) ≡ rs = ok_injective e2 in
      rw (← made) (parse_rule-IsSound i raw parsed, parse_rules-IsSound (i + 1) raws parsed')

  -- A policy that Parse accepts grants, by each rule and by default, a map of permissions that
  -- Temporal's default authorizer honours: no worker role, no wildcard, no empty namespace.
  pub parse-IsSound :
      (raws : List String) (default_permissions : String) {p : Policy}
      → parse lower raws default_permissions ≡ ok p
      → All IsSoundRule p.rules × IsSound p.dflt
  unfolding parse
  parse-IsSound raws default_permissions {p} e =
      let (rs, parsed, e1) = >>=-eq-ok (parse_rules lower 0 raws) _ e in
      let (g, granted, e2) = >>=-eq-ok (default_permissions_of default_permissions) _ e1 in
      let made : record { rules = rs; dflt = g } ≡ p = ok_injective e2 in
      rw (← made) (
        parse_rules-IsSound 0 raws parsed,
        default_permissions_of-IsSound default_permissions granted,
      )
