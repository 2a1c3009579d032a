-- ===== src/Authz.antt =====
-- authz/authz.go: the static policy that decides which permissions a person's token carries.
-- `lower` stands for strings.ToLower. The texts of the errors are left out but for their reason.
pub mod Resolve
pub mod Rules
mod Tests
use tempogate.Common.{
  ℕ, ◌+◌, String, ◌==◌, Bool, true, false, not, ◌&&◌, ◌||◌, Option, none, some, List, [], ◌∷◌,
  if◌then◌else◌, contains, cut, cut_last, split, trim_space,
}
use tempogate.Perms.{
  NamespacePermission, Perms, Grant, Parsed, refused, Reason, parse_config, merge, empty,
  namespaces, system_namespace,
}

pub data SelectorKind : Type 0 where
  select_email select_domain select_group : SelectorKind

pub record Rule : Type 0 where
  pub index : ℕ
  pub raw : String
  pub grant : Perms
  pub kind : SelectorKind
  pub value : String

pub record Policy : Type 0 where
  pub rules : List Rule
  pub dflt : Perms

pub data RuleFault : Type 0 where
  no_equals no_colon not_an_address not_a_domain group_rule unknown_selector grants_nothing :
      RuleFault
  bad_permission : Reason → ℕ → String → RuleFault

pub data PolicyResult {ℓ} (A : Type ℓ) : Type ℓ where
  ok : A → PolicyResult A
  -- ErrInvalidRule with the rule's index, and a fault of the default permissions
  invalid_rule : ℕ → RuleFault → PolicyResult A
  invalid_default : Reason → ℕ → String → PolicyResult A

-- The first break of a chain of parses ends it.
infixl 5 ◌>>=◌
abbrev pub ◌>>=◌ {ℓ κ} :
    {A : Type ℓ} {B : Type κ} → PolicyResult A → (A → PolicyResult B) → PolicyResult B
ok a >>= f = f a
invalid_rule i fault >>= f = invalid_rule i fault
invalid_default r i text >>= f = invalid_default r i text

abbrev pub equals : ℕ
equals = b'='

abbrev pub at_sign : ℕ
at_sign = b'@'

abbrev pub comma : ℕ
comma = b','

abbrev pub cut_or : ℕ → RuleFault → Option (String × String) → PolicyResult (String × String)
cut_or i fault none = invalid_rule i fault
cut_or i fault (some halves) = ok halves

-- local, domain, ok := strings.Cut(r.value, "@") and the test behind it
unfoldable pub is_address : Option (String × String) → Bool
is_address none = false
is_address (some (local, domain)) = not (local == "" || (domain == "" || contains at_sign domain))

unfoldable pub is_domain : String → Bool
is_domain value = not (value == "" || contains at_sign value)

-- The switch over the selector's kind.
unfoldable pub check_selector : ℕ → String → String → PolicyResult SelectorKind
unfolding is_address is_domain
check_selector i kind value =
    if kind == "email"
    then (if is_address (cut at_sign value) then ok select_email else invalid_rule i not_an_address)
    else if kind == "domain"
    then (if is_domain value then ok select_domain else invalid_rule i not_a_domain)
    else if kind == "group"
    then invalid_rule i group_rule
    else invalid_rule i unknown_selector

abbrev pub permissions_or : ℕ → Parsed → PolicyResult Perms
permissions_or i (Parsed.ok g) = ok g
permissions_or i (refused r j text) = invalid_rule i (bad_permission r j text)

-- The permissions of a rule, and the default ones.
unfoldable pub rule_permissions : ℕ → String → PolicyResult Perms
rule_permissions i permissions =
    if trim_space permissions == ""
    then invalid_rule i grants_nothing
    else permissions_or i (parse_config (split comma permissions))

abbrev pub default_or : Parsed → PolicyResult Perms
default_or (Parsed.ok g) = ok g
default_or (refused r j text) = invalid_default r j text

unfoldable pub default_permissions_of : String → PolicyResult Perms
default_permissions_of permissions =
    if trim_space permissions == ""
    then ok []
    else default_or (parse_config (split comma permissions))

-- emailDomain
unfoldable pub email_domain : String → String
email_domain email = elim (cut_last at_sign email) [ none ↦ "" | some halves ↦ halves.1 ]

-- Rule.matches
unfoldable pub matches : String → String → Rule → Bool
matches email domain r = elim (r.kind) [
  | select_email ↦ r.value == email
  | select_domain ↦ r.value == domain
  | select_group ↦ false
]

unfoldable pub matching : String → String → List Rule → List Rule
matching email domain [] = []
matching email domain (r ∷ rs) =
    let rest = matching email domain rs in if matches email domain r then r ∷ rest else rest

abbrev pub grants_of : List Rule → List Grant
grants_of [] = []
grants_of (r ∷ rs) = some r.grant ∷ grants_of rs

-- Explanation
pub record Explanation : Type 0 where
  pub email : String
  pub matched : List Rule
  pub by_default : Bool
  pub grant : Perms

-- What Explain makes of the rules that matched.
unfoldable pub explain_matched : Policy → String → List Rule → Explanation
explain_matched p email [] = record {
  email = email;
  matched = [];
  by_default = true;
  grant = merge (some p.dflt ∷ []);
}
explain_matched p email (r ∷ rs) = record {
  email = email;
  matched = r ∷ rs;
  by_default = false;
  grant = merge (grants_of (r ∷ rs));
}

-- Policy.Configured
unfoldable pub configured : Policy → Bool
configured p = elim (p.rules) [ [] ↦ not (empty (some p.dflt)) | r ∷ rs ↦ true ]

abbrev role_under : String → Perms → String
role_under k [] = ""
role_under k (p ∷ ps) = if p.namespace == k then p.role else role_under k ps

-- SystemRole
unfoldable pub system_role : Grant → String
system_role g = role_under system_namespace (namespaces g)

module _ (lower : String → String) where
  -- parseRule
  unfoldable pub parse_rule : ℕ → String → PolicyResult Rule
  unfolding check_selector rule_permissions
  parse_rule i raw = do
    (selector, permissions) ← cut_or i no_equals (cut equals (trim_space raw))
    (kind, value) ← cut_or i no_colon (cut b':' (trim_space selector))
    let value' = lower (trim_space value)
    selected ← check_selector i (lower (trim_space kind)) value'
    g ← rule_permissions i permissions
    ok (record { index = i; raw = raw; grant = g; kind = selected; value = value' })

  unfoldable pub parse_rules : ℕ → List String → PolicyResult (List Rule)
  unfolding parse_rule
  parse_rules i [] = ok []
  parse_rules i (raw ∷ raws) = do r ← parse_rule i raw; rs ← parse_rules (i + 1) raws; ok (r ∷ rs)

  -- Parse
  unfoldable pub parse : List String → String → PolicyResult Policy
  unfolding parse_rules default_permissions_of
  parse raws default_permissions = do
    rs ← parse_rules 0 raws
    g ← default_permissions_of default_permissions
    ok (record { rules = rs; dflt = g })

  -- Explain
  unfoldable pub explain : Policy → String → Explanation
  unfolding matching matches email_domain explain_matched
  explain p email =
      let e = lower (trim_space email) in explain_matched p e (matching e (email_domain e) p.rules)

  -- Resolve, whose error is always nil.
  unfoldable pub resolve : Policy → String → Perms
  unfolding explain
  resolve p email = (explain p email).grant
