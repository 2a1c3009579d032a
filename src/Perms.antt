-- ===== src/Perms.antt =====
-- perms/perms.go: what a token may do. A Go map is a list of entries, of which the first under a
-- namespace counts; the invariant of Perms/Levels is that there is one.
pub mod Levels
pub mod Claim
pub mod Config
mod Tests
use Prim.Native.String
use Prim.Native.String.{◌++◌, compare}
use text.Mathlib.Text.{is_lt}
use tempogate.Common.{
  ℕ, ◌+◌, String, ◌==◌, Bool, true, false, not, ◌&&◌, ◌||◌, Option, none, some, List, [], ◌∷◌, map,
  if◌then◌else◌, ltb, is_some, cut_last, trim_space, entry,
}

-- NamespacePermission; Role is a string type.
pub record NamespacePermission : Type 0 where
  pub namespace : String
  pub role : String

-- *Grant: its map, none for nil.
abbrev pub Perms : Type 0
Perms = List NamespacePermission

abbrev pub Grant : Type 0
Grant = Option Perms

abbrev pub system_namespace : String
system_namespace = "temporal-system"

abbrev pub wildcard : String
wildcard = "*"

abbrev pub namespace_of : NamespacePermission → String
namespace_of p = p.namespace

-- roleBits: a missing key reads as 0.
unfoldable pub role_bits : String → Option ℕ
role_bits r =
    if r == "worker"
    then some 1
    else if r == "read"
    then some 2
    else if r == "write"
    then some 4
    else if r == "admin"
    then some 8
    else none

abbrev pub or_zero : Option ℕ → ℕ
or_zero none = 0
or_zero (some n) = n

unfoldable pub bits : String → ℕ
unfolding role_bits
bits r = or_zero (role_bits r)

-- Role.Valid
unfoldable pub valid : String → Bool
unfolding role_bits
valid r = is_some (role_bits r)

-- Grant.add
unfoldable pub add : String → String → Perms → Perms
add namespace role [] = (record { namespace = namespace; role = role }) ∷ []
add namespace role (p ∷ ps) =
    let rest = add namespace role ps in
    if p.namespace == namespace
    then (if ltb (bits p.role) (bits role) then record p { role = role } else p) ∷ ps
    else p ∷ rest

-- for … range g.perms { out.add(ns, role) }
unfoldable pub add_all : Perms → Perms → Perms
unfolding add
add_all out [] = out
add_all out (p ∷ ps) = add_all (add p.namespace p.role out) ps

-- New(opts...), with AddNamespace as its options.
unfoldable pub new : Perms → Perms
unfolding add_all
new opts = add_all [] opts

-- WithSystemRole and AddWildcard
abbrev pub with_system_role : String → NamespacePermission
with_system_role role = record { namespace = system_namespace; role = role }

abbrev pub add_wildcard : String → NamespacePermission
add_wildcard role = with_system_role role

abbrev pub perms_of : Grant → Perms
perms_of none = []
perms_of (some ps) = ps

merge_onto : Perms → List Grant → Perms
unfolding add_all
merge_onto out [] = out
merge_onto out (g ∷ gs) = merge_onto (add_all out (perms_of g)) gs

-- Merge
unfoldable pub merge : List Grant → Perms
unfolding merge_onto
merge gs = merge_onto [] gs

-- Grant.Empty
unfoldable pub empty : Grant → Bool
empty none = true
empty (some []) = true
empty (some (p ∷ ps)) = false

-- sort.Slice by namespace
unfoldable pub insert_sorted : NamespacePermission → Perms → Perms
insert_sorted p [] = p ∷ []
insert_sorted p (q ∷ qs) =
    let rest = insert_sorted p qs in
    if is_lt (compare q.namespace p.namespace) then q ∷ rest else p ∷ q ∷ qs

unfoldable pub sort_by_namespace : Perms → Perms
unfolding insert_sorted
sort_by_namespace [] = []
sort_by_namespace (p ∷ ps) = insert_sorted p (sort_by_namespace ps)

-- Grant.Namespaces
unfoldable pub namespaces : Grant → Perms
unfolding sort_by_namespace
namespaces none = []
namespaces (some ps) = sort_by_namespace ps

abbrev pub claim_entry : NamespacePermission → String
claim_entry p = p.namespace ++ String.◌∷◌ ":" p.role

-- Grant.ToClaim
unfoldable pub to_claim : Grant → List String
unfolding namespaces
to_claim g = map claim_entry (namespaces g)

-- The sentinels, and a refusal that wraps one with the entry's index and text.
pub data Reason : Type 0 where
  invalid_role empty_namespace malformed_entry worker_role wildcard_namespace : Reason

pub data Parsed : Type 0 where
  ok : Perms → Parsed
  refused : Reason → ℕ → String → Parsed

-- the colon
abbrev pub colon : ℕ
colon = b':'

-- One entry of ParseClaim.
unfoldable pub parse_entry : String → ℕ → Option (String × String) → Perms → Parsed
unfolding valid add
parse_entry text i none g = refused malformed_entry i text
parse_entry text i (some (namespace, role)) g =
    if namespace == ""
    then refused empty_namespace i text
    else if not (valid role)
    then refused invalid_role i text
    else ok (add namespace role g)

abbrev pub and_then : Parsed → (Perms → Parsed) → Parsed
and_then (ok g) k = k g
and_then (refused r i text) k = refused r i text

unfoldable pub parse_from : ℕ → List String → Perms → Parsed
unfolding parse_entry
parse_from i [] g = ok g
parse_from i (text ∷ texts) g =
    and_then (parse_entry text i (cut_last colon text) g) (parse_from (i + 1) texts)

-- ParseClaim
unfoldable pub parse_claim : List String → Parsed
unfolding parse_from
parse_claim claim = parse_from 0 claim []

-- Grantable
unfoldable pub grantable : String → String → Option Reason
grantable namespace role =
    if namespace == wildcard
    then some wildcard_namespace
    else if role == "worker"
    then some worker_role
    else none

abbrev pub grantable_entry : Option (String × String) → Option Reason
grantable_entry none = none
grantable_entry (some (namespace, role)) = grantable namespace role

abbrev pub check_entry : ℕ → String → Option Reason → Parsed → Parsed
check_entry i text none rest = rest
check_entry i text (some r) rest = refused r i text

-- The second loop of ParseConfig. An entry without a colon was refused by the first.
unfoldable pub check_grantable : ℕ → List String → Perms → Parsed
unfolding grantable
check_grantable i [] g = ok g
check_grantable i (text ∷ texts) g =
    check_entry i text (grantable_entry (cut_last colon text)) (check_grantable (i + 1) texts g)

-- ParseConfig
unfoldable pub parse_config : List String → Parsed
unfolding parse_claim check_grantable
parse_config entries =
    let trimmed = map trim_space entries in
    and_then (parse_claim trimmed) (check_grantable 0 trimmed)
