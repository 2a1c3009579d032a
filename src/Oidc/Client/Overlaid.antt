-- ===== src/Oidc/Client/Overlaid.antt =====
-- oidc/client.go, WithSecrets and Validate: where a declared registry can send a browser.
use tempogate.Common.{
  String, Bool, true, Option, none, some, List, [], ◌∷◌, ◌==◌, ◌≡◌, ◌≢◌, ◌||◌, inl, inr, refl, sym,
  ap, ◌∙◌, subst, if◌then◌else◌, any, All, Bool-cases, cut, trim_space, split,
}
use tempogate.Oidc.Client.{
  Client, ClientRegistry, allows, authorization_code, refresh_token, device_code,
}
use tempogate.Oidc.Client.Redirects.{Url, valid, validate}
use tempogate.Oidc.Client.Registry.{
  registered, parse_client_registry, Secrets, add_secret_of, add_secret, add_secrets, with_secrets,
}
use tempogate.Oidc.Client.Declared.{
  assign_found, bind_registered, registered_injective, parse_client_registry-AreDeclared,
}
use tempogate.Oidc.Client.Match.{IsRegistrable, IsSecureRegistry, validate-IsRegistrable}

-- a registry whose clients differ from another's in their secrets alone
abbrev pub SameButSecrets : ClientRegistry → ClientRegistry → Type 0
SameButSecrets reg reg' =
    (id : String) (c' : Client)
    → reg' id ≡ some c'
    → (c : Client) × (reg id ≡ some c)
      × (c'.redirect_uris ≡ c.redirect_uris)
      × (c'.grant_types ≡ c.grant_types)

add_secret_of-same :
    (reg0 : ClientRegistry) (st : Secrets) (id secret : String) (o : Option Client) {st' : Secrets}
    → SameButSecrets reg0 st.0
    → st.0 id ≡ o
    → add_secret_of st id secret o ≡ registered st'
    → SameButSecrets reg0 st'.0
add_secret_of-same reg0 (reg, seen) id secret none h s e = cc
add_secret_of-same reg0 (reg, seen) id secret (some c) h s e =
    subst (λ x. SameButSecrets reg0 x.0) (registered_injective e)
      (λ k d x. elim (assign_found reg id k (record c { secret = secret }) x) [
        | inl (same, new) ↦
            let (c0, found, uris, grants) = h id c s in
            (
              c0,
              ap reg0 same ∙ found,
              sym (ap (λ y. y.redirect_uris) new) ∙ uris,
              sym (ap (λ y. y.grant_types) new) ∙ grants,
            )
        | inr old ↦ h k d old
      ])

add_secret-same :
    (reg0 : ClientRegistry) (st : Secrets) (o : Option (String × String)) {st' : Secrets}
    → SameButSecrets reg0 st.0
    → add_secret st o ≡ registered st'
    → SameButSecrets reg0 st'.0
add_secret-same reg0 st none h e = cc
add_secret-same reg0 st (some (id, secret)) h e = elim (Bool-cases ((id == "") || (secret == ""))) [
  | inl empty ↦ cc (rw empty at e)
  | inr given ↦ elim (Bool-cases (any (λ k. k == id) st.1)) [
    | inl twice ↦ cc (rw (given, twice) at e)
    | inr fresh ↦ add_secret_of-same reg0 st id secret (st.0 id) h refl (rw (given, fresh) at e)
  ]
]

skip-same :
    (reg0 : ClientRegistry) (st : Secrets) (entry : String) {st' : Secrets}
    → SameButSecrets reg0 st.0
    → (if entry == "" then registered st else add_secret st (cut b':' entry)) ≡ registered st'
    → SameButSecrets reg0 st'.0
skip-same reg0 st entry h e = elim (Bool-cases (entry == "")) [
  | inl empty ↦ subst (λ x. SameButSecrets reg0 x.0) (registered_injective (rw empty at e)) h
  | inr given ↦ add_secret-same reg0 st (cut b':' entry) h (rw given at e)
]

add_secrets-same :
    (reg0 : ClientRegistry) (st : Secrets) (raws : List String) {st' : Secrets}
    → SameButSecrets reg0 st.0
    → add_secrets st raws ≡ registered st'
    → SameButSecrets reg0 st'.0
unfolding add_secrets
add_secrets-same reg0 st [] h e = subst (λ x. SameButSecrets reg0 x.0) (registered_injective e) h
add_secrets-same reg0 st (raw ∷ raws) h e =
    let (st1, one, rest) = bind_registered _ (λ x. add_secrets x raws) e in
    add_secrets-same reg0 st1 raws (skip-same reg0 st (trim_space raw) h one) rest

with_secrets-same :
    (reg : ClientRegistry) (raw : String) {reg' : ClientRegistry}
    → with_secrets reg raw ≡ registered reg'
    → SameButSecrets reg reg'
unfolding with_secrets
with_secrets-same reg raw e =
    let (st, one, rest) =
      bind_registered (add_secrets (reg, []) (split b',' raw)) (λ x. registered x.0) e in
    subst (SameButSecrets reg) (registered_injective rest)
      (add_secrets-same reg (reg, []) (split b',' raw) (λ id c x. (c, x, refl, refl)) one)

device_only :
    (c : Client)
    → c.grant_types ≡ device_code ∷ refresh_token ∷ []
    → allows c authorization_code ≢ true
unfolding allows
device_only c e may = cc (rw e at may)

-- A redirect URI that Validate accepts, from a registry as OIDC_CLIENTS and OIDC_CLIENT_SECRETS
-- declare it, is absolute, has a host and no user information or fragment, and goes over https or
-- to a literal loopback address, or over plain http where that is allowed; and it is the URI of a
-- client that declared a redirect URI.
pub validate-parse_client_registry :
    (parse : String → Option Url) (allow_insecure : Bool) (clients secrets : String)
    {reg reg' : ClientRegistry} (client_id uri : String)
    → parse_client_registry parse allow_insecure clients ≡ registered reg
    → with_secrets reg secrets ≡ registered reg'
    → validate parse reg' client_id uri ≡ valid
    → IsRegistrable parse allow_insecure uri
      × ((c : Client) × (reg client_id ≡ some c) × (c.redirect_uris ≢ []))
validate-parse_client_registry parse allow_insecure clients secrets {reg} {reg'} client_id uri
      parsed overlaid e =
    let declared = parse_client_registry-AreDeclared parse allow_insecure clients parsed in
    let same = with_secrets-same reg secrets overlaid in
    let secure : IsSecureRegistry parse allow_insecure reg' = λ id c' found.
      (let (c, known, uris, _) = same id c' found in
        subst (All (IsRegistrable parse allow_insecure)) (sym uris) (declared id c known).1) in
    let (safe, (c', found, may)) =
      validate-IsRegistrable parse allow_insecure reg' client_id uri secure e in
    let (c, known, uris, grants) = same client_id c' found in
    (
      safe,
      (
        c,
        known,
        λ bare. elim ((declared client_id c known).0.1) [
          | inl (_, device) ↦ device_only c' (grants ∙ device) may
          | inr (several, _) ↦ several bare
        ],
      ),
    )
