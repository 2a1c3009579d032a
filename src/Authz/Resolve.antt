-- ===== src/Authz/Resolve.antt =====
-- What a policy resolves a person's address to.
use tempogate.Common.{
  ℕ, String, ◌≡◌, ◌≢◌, refl, ap, ◌∙◌, Bool, true, false, some, List, [], ◌∷◌, arith, All, any,
  if◌then◌else◌, Bool-cases, inl, inr, trim_space,
}
use tempogate.Perms.{merge}
use tempogate.Perms.Levels.{level, highest, AreMaps, max, merge-level}
use tempogate.Authz.{
  Rule, Policy, matches, matching, grants_of, email_domain, explain_matched, explain, resolve,
}
use tempogate.Authz.Rules.{IsSoundRule, IsSound}

-- the bit of a namespace in the rules that match, and without one in the default
abbrev pub rules_level : String → String → String → List Rule → ℕ
rules_level k email domain [] = 0
rules_level k email domain (r ∷ rs) =
    if matches email domain r
    then max (level k r.grant) (rules_level k email domain rs)
    else rules_level k email domain rs

-- Policies whose grants parsed.
abbrev pub IsSoundPolicy : Policy → Type 0
IsSoundPolicy p = All IsSoundRule p.rules × IsSound p.dflt

highest-matching :
    (k email domain : String) (rs : List Rule)
    → highest k (grants_of (matching email domain rs)) ≡ rules_level k email domain rs
unfolding matching
highest-matching k email domain [] = refl
highest-matching k email domain (r ∷ rs) = elim (Bool-cases (matches email domain r)) [
  | inl hit ↦ rw (hit, highest-matching k email domain rs) refl
  | inr miss ↦ rw (miss, highest-matching k email domain rs) refl
]

AreMaps-matching :
    (email domain : String) (rs : List Rule)
    → All IsSoundRule rs
    → AreMaps (grants_of (matching email domain rs))
unfolding matching
AreMaps-matching email domain [] h = tt
AreMaps-matching email domain (r ∷ rs) h = elim (Bool-cases (matches email domain r)) [
  | inl hit ↦ rw hit (h.0.0, AreMaps-matching email domain rs h.1)
  | inr miss ↦ rw miss (AreMaps-matching email domain rs h.1)
]

matching-any :
    (email domain : String) (rs : List Rule)
    → (any (matches email domain) rs ≡ false)
    → matching email domain rs ≡ []
unfolding matching any
matching-any email domain [] h = refl
matching-any email domain (r ∷ rs) h = ground (arith, matching-any email domain rs)

matching-some :
    (email domain : String) (rs : List Rule)
    → (any (matches email domain) rs ≡ true)
    → matching email domain rs ≢ []
unfolding matching any
matching-some email domain [] h = cc
matching-some email domain (r ∷ rs) h = ground (arith, matching-some email domain rs)

explain_matched-level :
    (k : String) (p : Policy) (email : String) (rs : List Rule)
    → rs ≢ []
    → AreMaps (grants_of rs)
    → level k (explain_matched p email rs).grant ≡ highest k (grants_of rs)
unfolding explain_matched
explain_matched-level k p email [] some_rule h = absurd (some_rule refl)
explain_matched-level k p email (r ∷ rs) some_rule h = (merge-level k (grants_of (r ∷ rs)) h).1

module _ (lower : String → String) where
  -- the address, and its domain, as the rules are matched
  abbrev pub address : String → String
  address email = lower (trim_space email)

  abbrev pub is_matched : Policy → String → Bool
  is_matched p email = any (matches (address email) (email_domain (address email))) p.rules

  resolve_matched :
      (p : Policy) (email : String) {rs : List Rule}
      → matching (address email) (email_domain (address email)) p.rules ≡ rs
      → resolve lower p email ≡ (explain_matched p (address email) rs).grant
  unfolding resolve explain
  resolve_matched p email e = ap (λ rs. (explain_matched p (address email) rs).grant) e

  resolve_default :
      (p : Policy) (email : String)
      → is_matched p email ≡ false
      → resolve lower p email ≡ merge (some p.dflt ∷ [])
  unfolding explain_matched
  resolve_default p email miss =
      resolve_matched p email
        (matching-any (address email) (email_domain (address email)) p.rules miss)

  -- The level that a person has in a namespace is the highest that a rule matching their
  -- address, in lower case and trimmed, gives it; the default counts only when no rule matches.
  pub resolve-level :
      (p : Policy) (email k : String)
      → IsSoundPolicy p
      → level k (resolve lower p email) ≡ (
          if is_matched p email
          then rules_level k (address email) (email_domain (address email)) p.rules
          else level k p.dflt)
  resolve-level p email k h =
      let e = address email in
      let d = email_domain (address email) in
      elim (Bool-cases (is_matched p email)) [
        | inl hit ↦
            rw (hit, resolve_matched p email refl)
              (explain_matched-level k p e (matching e d p.rules) (matching-some e d p.rules hit)
                  (AreMaps-matching e d p.rules h.0)
                ∙ highest-matching k e d p.rules)
        | inr miss ↦
            rw (miss, resolve_default p email miss)
              ((merge-level k (some p.dflt ∷ []) (h.1.0, tt)).1 ∙ ground arith)
      ]

  -- Deny by default: a person whom no rule matches, under a policy without default permissions,
  -- is granted nothing.
  pub resolve_denied :
      (p : Policy) (email : String)
      → is_matched p email ≡ false
      → p.dflt ≡ []
      → resolve lower p email ≡ []
  unfolding merge
  resolve_denied p email miss nothing = resolve_default p email miss ∙ rw nothing refl
