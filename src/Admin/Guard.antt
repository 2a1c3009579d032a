-- ===== src/Admin/Guard.antt =====
-- admin/guard.go: who may call the admin API. Digests are texts; the functions of net, strings,
-- crypto/sha256 and encoding/hex are arguments. Headers and logs are left out.
pub mod Admitted
use tempogate.Common.{
  String, Bool, true, false, not, ◌||◌, Option, none, some, List, [], ◌∷◌, ◌==◌, if◌then◌else◌,
  first, any, split, cut, trim_space, is_some,
}

-- `host_of` is the host that net.SplitHostPort splits off, `trim_brackets` strings.Trim of "[]",
-- `decode_digest` hex.DecodeString of a text that yields 32 bytes, and `fingerprint` the first 8
-- hexadecimal digits of a digest.
pub record Library : Type 0 where
  pub sha256 : String → String
  pub lower : String → String
  pub equal_fold : String → String → Bool
  pub host_of : String → Option String
  pub trim_brackets : String → String
  pub decode_digest : String → Option String
  pub fingerprint : String → String

pub record Guard : Type 0 where
  pub digests : List String
  pub exact : List String
  pub any_port : List String

-- reject, by its status and reason, or the next handler with the caller's fingerprint
pub data GuardResult : Type 0 where
  rejected : String → GuardResult
  admitted : String → GuardResult

abbrev pub new_guard : Guard
new_guard = record { digests = []; exact = []; any_port = [] }

module _ (lib : Library) where
  abbrev pub add_host : Guard → String → Guard
  add_host g h =
      if is_some (lib.host_of h)
      then record g { exact = h ∷ g.exact }
      else record g { any_port = lib.trim_brackets h ∷ g.any_port }

  -- WithAllowedHosts
  unfoldable pub with_allowed_hosts : List String → Guard → Guard
  with_allowed_hosts [] g = g
  with_allowed_hosts (h ∷ hs) g = with_allowed_hosts hs (add_host g (lib.lower (trim_space h)))

  abbrev pub onto : Option String → Option (List String) → Option (List String)
  onto none ds = none
  onto (some d) none = none
  onto (some d) (some ds) = some (d ∷ ds)

  -- The loop of ParseTokenDigests over the entries; an error is none.
  unfoldable pub parse_entries : List String → Option (List String)
  parse_entries [] = some []
  parse_entries (entry ∷ entries) =
      let rest = parse_entries entries in
      if trim_space entry == "" then rest else onto (lib.decode_digest (trim_space entry)) rest

  -- ParseTokenDigests
  unfoldable pub parse_token_digests : String → Option (List String)
  unfolding parse_entries
  parse_token_digests csv = parse_entries (split b',' csv)

  abbrev pub in_list : String → List String → Bool
  in_list h hs = any (λ x. x == h) hs

  abbrev pub without_port : String → Option String → String
  without_port host none = host
  without_port host (some h) = h

  unfoldable pub host_allowed : Guard → String → Bool
  host_allowed g header =
      let host = lib.lower header in
      in_list host g.exact
      || in_list (lib.trim_brackets (without_port host (lib.host_of host))) g.any_port

  abbrev pub nonempty : String → Option String
  nonempty token = if token == "" then none else some token

  abbrev pub bearer_of : Option (String × String) → Option String
  bearer_of none = none
  bearer_of (some (scheme, token)) =
      if lib.equal_fold scheme "Bearer" then nonempty (trim_space token) else none

  -- bearerToken
  unfoldable pub bearer_token : String → Option String
  bearer_token header = bearer_of (cut b' ' header)

  -- match
  unfoldable pub match_digest : Guard → String → Option String
  match_digest g token = first (λ d. lib.sha256 token == d) g.digests

  abbrev pub matched : Option String → GuardResult
  matched none = rejected "invalid_token"
  matched (some d) = admitted (lib.fingerprint d)

  abbrev pub match_token : Guard → Option String → GuardResult
  match_token g none = rejected "missing_credentials"
  match_token g (some token) = matched (match_digest g token)

  abbrev pub is_locked : List String → Bool
  is_locked [] = true
  is_locked (d ∷ ds) = false

  -- middleware
  unfoldable pub middleware : Guard → String → String → GuardResult
  middleware g host authorization =
      if not (host_allowed g host)
      then rejected "host_not_allowed"
      else if is_locked g.digests
      then rejected "locked"
      else match_token g (bearer_token authorization)
