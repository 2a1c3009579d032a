-- ===== src/Oidc/Client/Match.antt =====
-- oidc/client.go: where a validated redirect URI can send a browser.
use tempogate.Common.{
  String, Bool, true, false, not, Option, none, some, List, [], ◌∷◌, ◌==◌, ◌≡◌, ◌≢◌, ◌⊎◌, inl, inr,
  refl, ap, subst, arith, eq_iff, any, contains, Bool-cases, and_left, and_right, All,
}
use tempogate.Oidc.Client.{Client, ClientRegistry, authorization_code, allows}
use tempogate.Oidc.Client.Redirects.{
  Url, Checked, passed, fault, ends_with, is_loopback, structural, registrable, and_check, parsed,
  parse_redirect_uri, check_registered_redirect_uri, loopback_match, match_redirect_uri, valid,
  validate_client, validate,
}

-- an absolute URI with a host, and with nothing that hides where it points
abbrev pub IsStructural : String → Url → Type 0
IsStructural raw u =
    (u.scheme ≢ "")
    × (u.opaque ≡ "")
    × (u.host ≢ "")
    × (ends_with b':' u.host ≡ false)
    × (u.userinfo ≡ false)
    × (contains b'#' raw ≡ false)

passed_injective : {u v : Url} → passed u ≡ passed v → u ≡ v
passed_injective e = cc

-- over https, to a literal loopback address, or, where that is allowed, over http
abbrev pub IsSecure : Bool → Url → Type 0
IsSecure allow_insecure u =
    (is_loopback u ≡ true)
    ⊎ ((u.scheme ≡ "https") ⊎ ((u.scheme ≡ "http") × (allow_insecure ≡ true)))

structural_passed :
    (raw : String) (u : Url) {v : Url} → structural raw u ≡ passed v → (u ≡ v) × IsStructural raw u
unfolding structural
structural_passed raw u e = ground (arith, eq_iff u.scheme "", eq_iff u.opaque "", eq_iff u.host "")

registrable_passed :
    (allow_insecure : Bool) (u : Url) {v : Url}
    → registrable allow_insecure u ≡ passed v
    → (u ≡ v) × (u.path ≢ "") × IsSecure allow_insecure u
unfolding registrable
registrable_passed allow_insecure u e =
    ground (arith, eq_iff u.path "", eq_iff u.scheme "https", eq_iff u.scheme "http")

module _ (parse : String → Option Url) where
  parse_redirect_uri_passed :
      (raw : String) (o : Option Url) {u : Url}
      → parsed parse raw o ≡ passed u
      → (o ≡ some u) × IsStructural raw u
  parse_redirect_uri_passed raw none e = cc
  parse_redirect_uri_passed raw (some v) e =
      let (same, h) = structural_passed raw v e in (ap some same, subst (IsStructural raw) same h)

  -- a registered URI: it parses, and it is structural and secure
  abbrev pub IsRegistrable : Bool → String → Type 0
  IsRegistrable allow_insecure raw =
      (u : Url) × (parse raw ≡ some u) × IsStructural raw u × IsSecure allow_insecure u

  and_check_passed :
      (allow_insecure : Bool) (raw : String) (o : Checked Url) {v : Url}
      → parse_redirect_uri parse raw ≡ o
      → and_check o (registrable allow_insecure) ≡ passed v
      → IsRegistrable allow_insecure raw
  unfolding parse_redirect_uri
  and_check_passed allow_insecure raw (fault f) e r = cc
  and_check_passed allow_insecure raw (passed u) e r =
      let (found, h) = parse_redirect_uri_passed raw (parse raw) e in
      let (_, _, secure) = registrable_passed allow_insecure u r in (u, found, h, secure)

  pub check_registered_redirect_uri_passed :
      (allow_insecure : Bool) (raw : String) {v : Url}
      → check_registered_redirect_uri parse allow_insecure raw ≡ passed v
      → IsRegistrable allow_insecure raw
  unfolding check_registered_redirect_uri
  check_registered_redirect_uri_passed allow_insecure raw e =
      and_check_passed allow_insecure raw (parse_redirect_uri parse raw) refl e

  loopback_match_secure :
      (allow_insecure : Bool) (raw : String) (uris : List String) (o : Checked Url)
      → parse_redirect_uri parse raw ≡ o
      → loopback_match parse raw uris o ≡ true
      → IsRegistrable allow_insecure raw
  unfolding parse_redirect_uri
  loopback_match_secure allow_insecure raw uris (fault f) e h = cc
  loopback_match_secure allow_insecure raw uris (passed u) e h =
      let (found, s) = parse_redirect_uri_passed raw (parse raw) e in
      (u, found, s, inl (and_left _ _ (and_left _ _ h)))

  All-any_equal :
      (P : String → Type 0) (raw : String) (uris : List String)
      → All P uris
      → any (λ u. u == raw) uris ≡ true
      → P raw
  unfolding any
  All-any_equal P raw [] h e = cc
  All-any_equal P raw (u ∷ uris) h e = elim (Bool-cases (u == raw)) [
    | inl hit ↦ subst P ((eq_iff u raw).0 hit) h.0
    | inr miss ↦ All-any_equal P raw uris h.1 (rw miss at e)
  ]

  match_redirect_uri_secure :
      (allow_insecure : Bool) (c : Client) (raw : String)
      → All (IsRegistrable allow_insecure) c.redirect_uris
      → match_redirect_uri parse c raw ≡ true
      → IsRegistrable allow_insecure raw
  unfolding match_redirect_uri
  match_redirect_uri_secure allow_insecure c raw h e =
      elim (Bool-cases (any (λ u. u == raw) c.redirect_uris)) [
        | inl exact ↦ All-any_equal (IsRegistrable allow_insecure) raw c.redirect_uris h exact
        | inr other ↦
            loopback_match_secure allow_insecure raw c.redirect_uris (parse_redirect_uri parse raw)
              refl (let e' = and_right (not (raw == "")) _ e in rw other at e')
      ]

  validate_client-valid :
      (uri : String) (o : Option Client)
      → validate_client parse uri o ≡ valid
      → (c : Client) × (o ≡ some c)
        × (allows c authorization_code ≡ true)
        × (match_redirect_uri parse c uri ≡ true)
  validate_client-valid uri none e = cc
  validate_client-valid uri (some c) e = elim (Bool-cases (allows c authorization_code)) [
    | inl may ↦ elim (Bool-cases (match_redirect_uri parse c uri)) [
      | inl hit ↦ (c, refl, may, hit)
      | inr miss ↦ cc (rw (may, miss) at e)
    ]
    | inr may_not ↦ cc (rw may_not at e)
  ]

  -- every client's URIs are registrable
  abbrev pub IsSecureRegistry : Bool → ClientRegistry → Type 0
  IsSecureRegistry allow_insecure reg =
      (id : String) (c : Client)
      → reg id ≡ some c
      → All (IsRegistrable allow_insecure) c.redirect_uris

  -- A redirect URI that Validate accepts, from a registry of registrable URIs, is absolute, has a
  -- host and no user information or fragment, and goes over https or to a literal loopback
  -- address, or over plain http where that is allowed; and its client may use the code flow.
  pub validate-IsRegistrable :
      (allow_insecure : Bool) (reg : ClientRegistry) (client_id uri : String)
      → IsSecureRegistry allow_insecure reg
      → validate parse reg client_id uri ≡ valid
      → IsRegistrable allow_insecure uri
        × ((c : Client) × (reg client_id ≡ some c) × (allows c authorization_code ≡ true))
  unfolding validate
  validate-IsRegistrable allow_insecure reg client_id uri secure e =
      let (c, found, may, hit) = validate_client-valid uri (reg client_id) e in
      (
        match_redirect_uri_secure allow_insecure c uri (secure client_id c found) hit,
        (c, found, may),
      )
