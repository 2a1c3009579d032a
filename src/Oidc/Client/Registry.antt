-- ===== src/Oidc/Client/Registry.antt =====
-- oidc/client.go: the registry as OIDC_CLIENTS and OIDC_CLIENT_SECRETS declare it. Error texts
-- are left out.
use tempogate.Common.{
  String, Bool, true, false, ◌||◌, Option, none, some, List, [], ◌∷◌, ◌++◌, ◌==◌, if◌then◌else◌,
  any, cut, split, trim_space,
}
use tempogate.Oidc.Client.{Client, ClientRegistry, authorization_code, refresh_token, device_code}
use tempogate.Oidc.Client.Redirects.{
  Url, UriFault, Checked, passed, fault, check_registered_redirect_uri,
}

pub data RegistryFault : Type 0 where
  malformed_entry device_only_combined uri_after_device_only duplicate_uri : RegistryFault
  bad_uri : UriFault → RegistryFault
  malformed_secret duplicate_secret unknown_client_secret : RegistryFault

pub data Registered {ℓ} (A : Type ℓ) : Type ℓ where
  registered : A → Registered A
  invalid : RegistryFault → Registered A

infixl 5 ◌>>=◌
abbrev pub ◌>>=◌ {ℓ κ} :
    {A : Type ℓ} {B : Type κ} → Registered A → (A → Registered B) → Registered B
registered a >>= f = f a
invalid x >>= f = invalid x

-- reg[id] = c
unfoldable pub assign : ClientRegistry → String → Client → ClientRegistry
assign reg id c k = if k == id then some c else reg k

abbrev pub device_client : Client
device_client = record {
  redirect_uris = [];
  grant_types = device_code ∷ refresh_token ∷ [];
  secret = "";
}

abbrev pub is_empty : List String → Bool
is_empty [] = true
is_empty (x ∷ xs) = false

-- The client of an id with one more URI; the zero Client for a new id.
abbrev pub with_uri : Option Client → String → Client
with_uri none uri = record {
  redirect_uris = uri ∷ [];
  grant_types = authorization_code ∷ refresh_token ∷ [];
  secret = "";
}
with_uri (some c) uri = record c {
  redirect_uris = c.redirect_uris ++ (uri ∷ []);
  grant_types = authorization_code ∷ refresh_token ∷ [];
}

module _ (parse : String → Option Url) (allow_insecure : Bool) where
  -- The URI's own check, behind the switch.
  abbrev pub add_checked :
      ClientRegistry → String → String → Option Client → Checked Url → Registered ClientRegistry
  add_checked reg id uri seen (fault f) = invalid (bad_uri f)
  add_checked reg id uri seen (passed u) = registered (assign reg id (with_uri seen uri))

  -- The switch on the entry and what is registered of its id.
  abbrev pub add_client :
      ClientRegistry → String → String → Option Client → Registered ClientRegistry
  add_client reg id uri none =
      if uri == ""
      then registered (assign reg id device_client)
      else add_checked reg id uri none (check_registered_redirect_uri parse allow_insecure uri)
  add_client reg id uri (some c) =
      if uri == ""
      then invalid device_only_combined
      else if is_empty c.redirect_uris
      then invalid uri_after_device_only
      else if any (λ u. u == uri) c.redirect_uris
      then invalid duplicate_uri
      else add_checked reg id uri (some c) (check_registered_redirect_uri parse allow_insecure uri)

  abbrev pub add_entry : ClientRegistry → Option (String × String) → Registered ClientRegistry
  add_entry reg none = invalid malformed_entry
  add_entry reg (some (id, uri)) =
      if id == "" then invalid malformed_entry else add_client reg id uri (reg id)

  unfoldable pub add_entries : ClientRegistry → List String → Registered ClientRegistry
  add_entries reg [] = registered reg
  add_entries reg (raw ∷ raws) =
      let entry = trim_space raw in
      (if entry == "" then registered reg else add_entry reg (cut b':' entry)) >>= λ reg'.
      add_entries reg' raws

  -- ParseClientRegistry
  unfoldable pub parse_client_registry : String → Registered ClientRegistry
  unfolding add_entries
  parse_client_registry raw = add_entries (λ id. none) (split b',' raw)

-- The registry and the ids that have their secret.
abbrev pub Secrets : Type 0
Secrets = ClientRegistry × List String

abbrev pub add_secret_of : Secrets → String → String → Option Client → Registered Secrets
add_secret_of (reg, seen) id secret none = invalid unknown_client_secret
add_secret_of (reg, seen) id secret (some c) =
    registered (assign reg id (record c { secret = secret }), id ∷ seen)

abbrev pub add_secret : Secrets → Option (String × String) → Registered Secrets
add_secret st none = invalid malformed_secret
add_secret st (some (id, secret)) =
    if (id == "") || (secret == "")
    then invalid malformed_secret
    else if any (λ k. k == id) st.1
    then invalid duplicate_secret
    else add_secret_of st id secret (st.0 id)

unfoldable pub add_secrets : Secrets → List String → Registered Secrets
add_secrets st [] = registered st
add_secrets st (raw ∷ raws) =
    let entry = trim_space raw in
    (if entry == "" then registered st else add_secret st (cut b':' entry)) >>= λ st'.
    add_secrets st' raws

-- WithSecrets. The entries in front of an invalid one stay applied in the source, whose only
-- caller then drops the registry.
unfoldable pub with_secrets : ClientRegistry → String → Registered ClientRegistry
unfolding add_secrets
with_secrets reg raw = add_secrets (reg, []) (split b',' raw) >>= λ st. registered st.0
