-- ===== src/Oidc/Client/Declared.antt =====
-- oidc/client.go: what a registry that was parsed holds.
use tempogate.Common.{
  String, Bool, Option, none, some, List, [], ◌∷◌, ◌++◌, ◌==◌, ◌≡◌, ◌≢◌, ◌⊎◌, inl, inr, refl, subst,
  eq_iff, if◌then◌else◌, any, All, Bool-cases, cut, trim_space, split,
}
use tempogate.Oidc.Client.{Client, ClientRegistry, authorization_code, refresh_token, device_code}
use tempogate.Oidc.Client.Redirects.{Url, Checked, passed, fault, check_registered_redirect_uri}
use tempogate.Oidc.Client.Registry.{
  Registered, registered, invalid, ◌>>=◌, assign, device_client, with_uri, is_empty, add_checked,
  add_client, add_entry, add_entries, parse_client_registry,
}
use tempogate.Oidc.Client.Match.{IsRegistrable, check_registered_redirect_uri_passed}

some_injective : {a b : Client} → some a ≡ some b → a ≡ b
some_injective e = cc

pub registered_injective : {A : Type 0} {a b : A} → registered a ≡ registered b → a ≡ b
registered_injective e = cc

All-append :
    {A : Type 0} (P : A → Type 0) {x : A} (xs : List A) → P x → All P xs → All P (xs ++ (x ∷ []))
All-append P [] p h = (p, tt)
All-append P (y ∷ ys) p h = (h.0, All-append P ys p h.1)

append_some : {A : Type 0} (xs : List A) (x : A) → xs ++ (x ∷ []) ≢ []
append_some [] x e = cc
append_some (y ∷ ys) x e = cc

pub assign_found :
    (reg : ClientRegistry) (id k : String) (c : Client) {d : Client}
    → assign reg id c k ≡ some d
    → ((k ≡ id) × (c ≡ d)) ⊎ (reg k ≡ some d)
unfolding assign
assign_found reg id k c e = elim (Bool-cases (k == id)) [
  | inl hit ↦ inl ((eq_iff k id).0 hit, some_injective (rw hit at e))
  | inr miss ↦ inr (rw miss at e)
]

pub bind_registered :
    {A B : Type 0} (m : Registered A) (f : A → Registered B) {b : B}
    → (m >>= f) ≡ registered b
    → (a : A) × (m ≡ registered a) × (f a ≡ registered b)
bind_registered (registered a) f e = (a, refl, e)
bind_registered (invalid x) f e = cc

-- A grant follows from the shape of the registration.
abbrev pub IsShaped : Client → Type 0
IsShaped c =
    (c.secret ≡ "")
    × (((c.redirect_uris ≡ []) × (c.grant_types ≡ device_code ∷ refresh_token ∷ []))
        ⊎ ((c.redirect_uris ≢ []) × (c.grant_types ≡ authorization_code ∷ refresh_token ∷ [])))

module _ (parse : String → Option Url) (allow_insecure : Bool) where
  -- a public client whose URIs are registrable and whose grants follow from having any
  abbrev pub IsDeclared : Client → Type 0
  IsDeclared c = IsShaped c × All (IsRegistrable parse allow_insecure) c.redirect_uris

  abbrev pub AreDeclared : ClientRegistry → Type 0
  AreDeclared reg = (id : String) (c : Client) → reg id ≡ some c → IsDeclared c

  AreDeclared-assign :
      (reg : ClientRegistry) (id : String) (c : Client)
      → AreDeclared reg
      → IsDeclared c
      → AreDeclared (assign reg id c)
  AreDeclared-assign reg id c h d k x e = elim (assign_found reg id k c e) [
    | inl (_, new) ↦ subst IsDeclared new d
    | inr old ↦ h k x old
  ]

  add_checked-AreDeclared :
      (reg : ClientRegistry) (id uri : String) (seen : Option Client) (o : Checked Url)
      {reg' : ClientRegistry}
      → AreDeclared reg
      → reg id ≡ seen
      → check_registered_redirect_uri parse allow_insecure uri ≡ o
      → add_checked parse allow_insecure reg id uri seen o ≡ registered reg'
      → AreDeclared reg'
  add_checked-AreDeclared reg id uri seen (fault f) h s u e = cc
  add_checked-AreDeclared reg id uri none (passed v) h s u e =
      subst AreDeclared (registered_injective e) (
        AreDeclared-assign reg id (with_uri none uri) h (
          (refl, inr ((λ z. cc), refl)),
          (check_registered_redirect_uri_passed parse allow_insecure uri u, tt),
        ))
  add_checked-AreDeclared reg id uri (some c) (passed v) h s u e =
      let ((secret, _), uris) = h id c s in
      subst AreDeclared (registered_injective e) (
        AreDeclared-assign reg id (with_uri (some c) uri) h (
          (secret, inr (append_some c.redirect_uris uri, refl)),
          All-append (IsRegistrable parse allow_insecure) c.redirect_uris
              (check_registered_redirect_uri_passed parse allow_insecure uri u) uris,
        ))

  add_client-AreDeclared :
      (reg : ClientRegistry) (id uri : String) (seen : Option Client) {reg' : ClientRegistry}
      → AreDeclared reg
      → reg id ≡ seen
      → add_client parse allow_insecure reg id uri seen ≡ registered reg'
      → AreDeclared reg'
  add_client-AreDeclared reg id uri none h s e = elim (Bool-cases (uri == "")) [
    | inl device ↦
        subst AreDeclared (registered_injective (rw device at e))
          (AreDeclared-assign reg id device_client h ((refl, inl (refl, refl)), tt))
    | inr given ↦ add_checked-AreDeclared reg id uri none _ h s refl (rw given at e)
  ]
  add_client-AreDeclared reg id uri (some c) h s e = elim (Bool-cases (uri == "")) [
    | inl device ↦ cc (rw device at e)
    | inr given ↦ elim (Bool-cases (is_empty c.redirect_uris)) [
      | inl only ↦ cc (rw (given, only) at e)
      | inr several ↦ elim (Bool-cases (any (λ u. u == uri) c.redirect_uris)) [
        | inl twice ↦ cc (rw (given, several, twice) at e)
        | inr fresh ↦
            add_checked-AreDeclared reg id uri (some c) _ h s refl (rw (given, several, fresh) at e)
      ]
    ]
  ]

  add_entry-AreDeclared :
      (reg : ClientRegistry) (o : Option (String × String)) {reg' : ClientRegistry}
      → AreDeclared reg
      → add_entry parse allow_insecure reg o ≡ registered reg'
      → AreDeclared reg'
  add_entry-AreDeclared reg none h e = cc
  add_entry-AreDeclared reg (some (id, uri)) h e = elim (Bool-cases (id == "")) [
    | inl empty ↦ cc (rw empty at e)
    | inr given ↦ add_client-AreDeclared reg id uri (reg id) h refl (rw given at e)
  ]

  skip-AreDeclared :
      (reg : ClientRegistry) (entry : String) {reg' : ClientRegistry}
      → AreDeclared reg
      → (if entry == ""
          then registered reg
          else add_entry parse allow_insecure reg (cut b':' entry))
        ≡ registered reg'
      → AreDeclared reg'
  skip-AreDeclared reg entry h e = elim (Bool-cases (entry == "")) [
    | inl empty ↦ subst AreDeclared (registered_injective (rw empty at e)) h
    | inr given ↦ add_entry-AreDeclared reg (cut b':' entry) h (rw given at e)
  ]

  add_entries-AreDeclared :
      (reg : ClientRegistry) (raws : List String) {reg' : ClientRegistry}
      → AreDeclared reg
      → add_entries parse allow_insecure reg raws ≡ registered reg'
      → AreDeclared reg'
  unfolding add_entries
  add_entries-AreDeclared reg [] h e = subst AreDeclared (registered_injective e) h
  add_entries-AreDeclared reg (raw ∷ raws) h e =
      let (reg1, one, rest) = bind_registered _ (λ x. add_entries parse allow_insecure x raws) e in
      add_entries-AreDeclared reg1 raws (skip-AreDeclared reg (trim_space raw) h one) rest

  -- Every client of a registry that parsed is public, its redirect URIs are registrable, and its
  -- grants are those of its shape: the code flow with a redirect URI, the device flow without.
  pub parse_client_registry-AreDeclared :
      (raw : String) {reg : ClientRegistry}
      → parse_client_registry parse allow_insecure raw ≡ registered reg
      → AreDeclared reg
  unfolding parse_client_registry
  parse_client_registry-AreDeclared raw e =
      add_entries-AreDeclared (λ id. none) (split b',' raw) (λ id c x. cc) e
