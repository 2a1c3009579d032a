-- ===== src/Admin/Keys/Create/Minted.antt =====
-- admin/keys.go, create: what a key is that has been minted.
use tempogate.Common.{
  ℕ, ◌<◌, ◌≤◌, ◌<>◌, String, ◌≡◌, ◌≢◌, ◌⊎◌, inl, inr, refl, sym, ap, ◌∙◌, true, false, not, ◌&&◌,
  ◌||◌, Option, none, some, [], ◌∷◌, ◌==◌, eq_iff, eq_refl, arith, Bool-cases, any, first, ltb, leb,
}
use tempogate.Perms.{system_namespace, to_claim, valid, new}
use tempogate.Perms.Claim.{valid-cases}
use tempogate.State.Driver.{Driver, up}
use tempogate.State.IntegrationKeys.{
  IntegrationKey, KeyTables, KeyResult, id_of, jti_of, has_role, save_integration_key,
  integration_key_by_id,
}
use tempogate.Admin.Keys.{Keys}
use tempogate.Admin.Keys.Create.Returns.{past_invalid, past_none, past_if}
use tempogate.Admin.Keys.Create.{
  CreateBody, CreateResponse, CreateOutput, created, after_save, validate, new_key, sub, stamped,
  sign_and_save, check_expiry, mint_key, create,
}

-- What Validate lets through.
validate_sound :
    (k : IntegrationKey)
    → validate k ≡ none
    → (k.namespace ≢ "")
      × (k.owner ≢ "")
      × ((k.role ≡ "read") ⊎ ((k.role ≡ "write") ⊎ (k.role ≡ "admin")))
unfolding validate
validate_sound k h =
    let namespace : (k.namespace == "") ≡ false = ground (arith, h) in
    let owner : (k.owner == "") ≡ false = ground (arith, h, namespace) in
    let role : valid k.role ≡ true = ground (arith, h, namespace, owner) in
    let poller : (k.role == "worker") ≡ false = ground (arith, h, namespace, owner, role) in
    (
      λ e. cc ((eq_iff k.namespace "").1 e, namespace),
      λ e. cc ((eq_iff k.owner "").1 e, owner),
      elim (valid-cases k.role role) [
        | inl worker ↦ cc ((eq_iff k.role "worker").1 worker, poller)
        | inr granted ↦ granted
      ],
    )

created_inj : {r r' : CreateResponse} → created r ≡ created r' → r ≡ r'
created_inj h = cc

after_save_sound :
    (r0 : CreateResponse) (db : Driver) (k : IntegrationKey) (t : KeyTables) {t' : KeyTables}
    {r : CreateResponse}
    → after_save r0 (save_integration_key db k t) ≡ (t', created r)
    → (r0 ≡ r)
      × (t' ≡ record t { keys = k ∷ t.keys })
      × (any (λ x. id_of x == k.id) t.keys ≡ false)
      × (any (λ x. jti_of x == k.jti) t.keys ≡ false)
unfolding save_integration_key
after_save_sound r0 db k t {t' = t2} {r = r2} h =
    let clash = any (λ x. id_of x == k.id) t.keys || any (λ x. jti_of x == k.jti) t.keys in
    elim (Bool-cases (db 0 || (not (has_role k) || clash))) [
      | inl e ↦ let out : CreateOutput.failed ≡ created r2 = ap (λ x. x.1) (rw e at h) in cc out
      | inr e ↦
          let saved : (record t { keys = k ∷ t.keys }, created r0) ≡ (t2, created r2) = rw e at h in
          (
            created_inj (ap (λ x. x.1) saved),
            sym (ap (λ x. x.0) saved),
            ground (arith, e),
            ground (arith, e),
          )
    ]

module _ (s : Keys) (db : Driver) (now : ℕ) (k : IntegrationKey) (t : KeyTables) where
  sign_and_save_sound :
      (id : String) (e : ℕ) {t' : KeyTables} {r : CreateResponse}
      → sign_and_save s db now id e k t ≡ (t', created r)
      → (r.id ≡ id)
        × (r.expires_at ≡ e)
        × ((jti : String) × (s.mint (record {
          subject = k.owner;
          email = "";
          idp = "";
          ttl = sub e now;
          permissions = (k.namespace <> (String.◌∷◌ ":" k.role)) ∷ [];
          client_id = "";
        })
              ≡ some (r.jwt, jti))
            × (t' ≡ record t { keys = stamped id jti now k ∷ t.keys })
            × (any (λ x. id_of x == id) t.keys ≡ false)
            × (any (λ x. jti_of x == jti) t.keys ≡ false))
  unfolding sign_and_save to_claim new
  sign_and_save_sound id e h =
      let (signed, minted, saving) = past_none t (s.mint _) _ (λ x. cc x) h in
      let (answer, stored, id_free, jti_free) =
        after_save_sound _ db (stamped id signed.1 now k) t saving in
      (
        sym (ap (λ a. a.id) answer),
        sym (ap (λ a. a.expires_at) answer),
        (
          signed.1,
          minted ∙ ap (λ jwt. some (jwt, signed.1)) (ap (λ a. a.jwt) answer),
          stored,
          id_free,
          jti_free,
        ),
      )

  check_expiry_sound :
      (id : String) {t' : KeyTables} {r : CreateResponse}
      → check_expiry s db now id k t ≡ (t', created r)
      → (e : ℕ) × (k.expires_at ≡ some e)
        × (now < e)
        × (sub e now ≤ s.max_ttl)
        × (sign_and_save s db now id e k t ≡ (t', created r))
  unfolding check_expiry
  check_expiry_sound id h =
      let (e, expires, in_time) = past_none t k.expires_at _ (λ x. cc x) h in
      let (ahead, capped) = past_if t (leb e now) _ (λ x. cc x) in_time in
      let (short, signing) = past_if t (ltb s.max_ttl (sub e now)) _ (λ x. cc x) capped in
      (e, expires, ground (arith, ahead), ground (arith, short), signing)

  mint_key_sound :
      (new_id : Option String) {t' : KeyTables} {r : CreateResponse}
      → mint_key s db now new_id k t ≡ (t', created r)
      → (validate k ≡ none)
        × (((k.namespace == system_namespace) && not s.system_grants) ≡ false)
        × ((id : String) × (new_id ≡ some id) × (check_expiry s db now id k t ≡ (t', created r)))
  unfolding mint_key
  mint_key_sound new_id h =
      let (ok, admissible) = past_invalid t (validate k) _ h in
      let (allowed, drawn) = past_if t _ _ (λ x. cc x) admissible in
      (ok, allowed, past_none t new_id _ (λ x. cc x) drawn)

-- What a request, the tables before and after, and the answer have to do with each other when a key
-- is minted.
pub record IsMinted (s : Keys) (now : ℕ) (b : CreateBody) (t t' : KeyTables) (r : CreateResponse)
    : Type 0 where
  pub named : (b.namespace ≢ "") × (b.owner ≢ "")
  pub role : (b.role ≡ "read") ⊎ ((b.role ≡ "write") ⊎ (b.role ≡ "admin"))
  pub system : b.namespace ≡ system_namespace → s.system_grants ≡ true
  pub expires : b.expires_at ≡ some r.expires_at
  pub ahead : now < r.expires_at
  pub capped : sub r.expires_at now ≤ s.max_ttl
  pub jti : String
  pub signed :
      s.mint (record {
        subject = b.owner;
        email = "";
        idp = "";
        ttl = sub r.expires_at now;
        permissions = (b.namespace <> (String.◌∷◌ ":" b.role)) ∷ [];
        client_id = "";
      })
      ≡ some (r.jwt, jti)
  pub free :
      (any (λ x. id_of x == r.id) t.keys ≡ false) × (any (λ x. jti_of x == jti) t.keys ≡ false)
  pub stored : t' ≡ record t { keys = stamped r.id jti now (new_key b) ∷ t.keys }
  pub read_back :
      integration_key_by_id up r.id t' ≡ KeyResult.found (stamped r.id jti now (new_key b))

-- A request that create answers with 201 named a namespace, an owner and one of the roles read,
-- write and admin, asked for the system namespace only where that is allowed, and for an expiry that
-- is ahead by no more than the cap. The JWT it answers with is what the signer made for the owner,
-- until that expiry, with the one permission <namespace>:<role>. The key is stored under the new id
-- with the jti of that JWT, neither of which the table had, is read back by it, and nothing else
-- changes.
pub create-IsMinted :
    (s : Keys) (db : Driver) (now : ℕ) (new_id : Option String) (b : CreateBody) (t : KeyTables)
    {t' : KeyTables} {r : CreateResponse}
    → create s db now new_id b t ≡ (t', created r)
    → IsMinted s now b t t' r × (new_id ≡ some r.id)
unfolding integration_key_by_id first
create-IsMinted s db now new_id b t {t' = t2} {r = r2} h =
    let (ok, allowed, (id, drawn, expiry)) = mint_key_sound s db now (new_key b) t new_id h in
    let (namespace, owner, role) = validate_sound (new_key b) ok in
    let (e, expires, ahead, capped, signing) =
      check_expiry_sound s db now (new_key b) t id expiry in
    let (same_id, same_e, (jti, signed, stored, id_free, jti_free)) =
      sign_and_save_sound s db now (new_key b) t id e signing in
    (
      record {
        named = (namespace, owner);
        role = role;
        system = λ p. ground (arith, allowed, (eq_iff b.namespace system_namespace).1 p);
        expires = expires ∙ ap some (sym same_e);
        ahead = rw same_e ahead;
        capped = rw same_e capped;
        jti = jti;
        signed = rw same_e signed;
        free = rw same_id (id_free, jti_free);
        stored = rw same_id stored;
        read_back = rw (stored, same_id) (rw (eq_refl id) refl);
      },
      drawn ∙ ap some (sym same_id),
    )
