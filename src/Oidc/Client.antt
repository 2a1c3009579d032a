-- ===== src/Oidc/Client.antt =====
-- oidc/client.go: the registry of downstream clients as the token endpoint reads it. `sha256` is
-- that of crypto/sha256.
pub mod Redirects
pub mod Registry
pub mod Match
pub mod Declared
pub mod Overlaid
use tempogate.Common.{
  String, Bool, true, false, not, ◌&&◌, ◌||◌, Option, none, some, List, [], ◌∷◌, ◌==◌,
}

pub data GrantType : Type 0 where
  authorization_code refresh_token device_code : GrantType

pub record Client : Type 0 where
  pub redirect_uris : List String
  pub grant_types : List GrantType
  pub secret : String

-- A map from client ids.
abbrev pub ClientRegistry : Type 0
ClientRegistry = String → Option Client

same_grant : GrantType → GrantType → Bool
same_grant authorization_code authorization_code = true
same_grant refresh_token refresh_token = true
same_grant device_code device_code = true
same_grant _ _ = false

contains_grant : List GrantType → GrantType → Bool
unfolding same_grant
contains_grant [] g = false
contains_grant (x ∷ xs) g = same_grant x g || contains_grant xs g

unfoldable pub allows : Client → GrantType → Bool
unfolding contains_grant
allows c g = contains_grant c.grant_types g

module _ (sha256 : String → String) where
  check_secret : Option Client → String → Bool
  check_secret none presented = false
  check_secret (some c) presented =
      not (c.secret == "") && (not (presented == "") && (sha256 c.secret == sha256 presented))

  unfoldable pub authenticate : ClientRegistry → String → String → Bool
  unfolding check_secret
  authenticate reg client_id presented = check_secret (reg client_id) presented

unfoldable pub is_confidential : ClientRegistry → String → Bool
is_confidential reg client_id = elim (reg client_id) [
  | none ↦ false
  | some c ↦ not (c.secret == "")
]
