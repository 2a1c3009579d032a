-- ===== src/Admin/Guard/Admitted.antt =====
-- The guard of the admin API: whom it lets through.
use tempogate.Common.{
  String, ◌≡◌, refl, sym, Bool, true, false, Option, none, some, List, [], ◌∷◌, ◌==◌, eq_iff, arith,
  Bool-cases, Option-cases, inl, inr, first_holds, any, any_by_first, split, trim_space,
}
use tempogate.Admin.Guard.{
  Library, Guard, admitted, onto, parse_entries, parse_token_digests, host_allowed, bearer_token,
  match_digest, match_token, is_locked, middleware,
}

some_injective : {a b : List String} → some a ≡ some b → a ≡ b
some_injective e = cc e

module _ (lib : Library) where
  abbrev pub decodes_to : String → Option String → Bool
  decodes_to digest none = false
  decodes_to digest (some d) = d == digest

  -- an entry whose digest this is
  abbrev pub is_entry : String → String → Bool
  is_entry digest entry = decodes_to digest (lib.decode_digest (trim_space entry))

  onto-some :
      (o : Option String) (r : Option (List String)) {ds : List String}
      → onto lib o r ≡ some ds
      → (d : String) × (rest : List String) × (o ≡ some d) × (r ≡ some rest) × (ds ≡ d ∷ rest)
  onto-some none r e = cc
  onto-some (some d) none e = cc
  onto-some (some d) (some rest) {ds} e = (d, rest, refl, refl, sym (some_injective e))

  any-parse_entries :
      (digest : String) (entries : List String) {ds : List String}
      → parse_entries lib entries ≡ some ds
      → any (λ d. d == digest) ds ≡ true
      → any (is_entry digest) entries ≡ true
  unfolding parse_entries any
  any-parse_entries digest [] {ds} e h = rw (sym (some_injective e)) at h
  any-parse_entries digest (x ∷ entries) {ds} e h = elim (Bool-cases (trim_space x == "")) [
    | inl empty ↦ rw (any-parse_entries digest entries (rw empty at e) h) (ground arith)
    | inr filled ↦
        let (d, rest, decoded, parsed, made) =
          onto-some (lib.decode_digest (trim_space x)) (parse_entries lib entries)
            (rw filled at e) in
        elim (Bool-cases (d == digest)) [
          | inl hit ↦ rw (decoded, hit)
          | inr miss ↦
              let more : any (λ y. y == digest) rest ≡ true = rw (made, miss) at h in
              rw (any-parse_entries digest entries parsed more) (ground arith)
        ]
  ]

  match_token-admitted :
      (g : Guard) (o : Option String) {f : String}
      → match_token lib g o ≡ admitted f
      → (token : String) × (o ≡ some token) × (any (λ d. d == lib.sha256 token) g.digests ≡ true)
  unfolding match_digest
  match_token-admitted g none e = cc
  match_token-admitted g (some token) e = elim (Option-cases (match_digest lib g token)) [
    | inl absent ↦ cc (rw absent at e)
    | inr (d, found) ↦ (
      token,
      refl,
      any_by_first (λ x. lib.sha256 token == x) (λ x. x == lib.sha256 token) g.digests found
          ((eq_iff d (lib.sha256 token)).1 (
            sym (
              (eq_iff (lib.sha256 token) d).0
                (first_holds (λ x. lib.sha256 token == x) g.digests found)))),
    )
  ]

  -- Whom the guard lets through has named an allowed host and presented a bearer token whose
  -- SHA-256 is one of the entries of the configuration that the guard's digests were parsed from:
  -- a configuration without entries lets nobody through.
  pub middleware-admitted :
      (g : Guard) (csv host authorization : String) {f : String}
      → parse_token_digests lib csv ≡ some g.digests
      → middleware lib g host authorization ≡ admitted f
      → (host_allowed lib g host ≡ true)
        × ((token : String) × (bearer_token lib authorization ≡ some token)
            × (any (is_entry (lib.sha256 token)) (split b',' csv) ≡ true))
  unfolding middleware parse_token_digests
  middleware-admitted g csv host authorization parsed e =
      elim (Bool-cases (host_allowed lib g host)) [
        | inr foreign ↦ cc (rw foreign at e)
        | inl allowed ↦ elim (Bool-cases (is_locked lib g.digests)) [
          | inl locked ↦ cc (rw (allowed, locked) at e)
          | inr set ↦
              let (token, sent, there) =
                match_token-admitted g (bearer_token lib authorization) (rw (allowed, set) at e) in
              (
                allowed,
                (token, sent, any-parse_entries (lib.sha256 token) (split b',' csv) parsed there),
              )
        ]
      ]
