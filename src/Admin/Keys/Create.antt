-- ===== src/Admin/Keys/Create.antt =====
-- admin/keys.go and admin/model.go: create, which mints a key. The clock's reading and the generated
-- id (none: the source of randomness failed) are arguments. The redaction is left out.
mod Returns
pub mod Minted
use tempogate.Common.{
  ℕ, ◌-◌, String, Bool, true, false, not, ◌&&◌, Option, none, some, [], ◌∷◌, ◌==◌, if◌then◌else◌,
  ltb, leb,
}
use tempogate.Perms.{Grant, valid, system_namespace, new, to_claim}
use tempogate.Oidc.Token.{MintRequest}
use tempogate.State.Driver.{Driver}
use tempogate.State.IntegrationKeys.{
  IntegrationKey, KeyTables, SaveKeyResult, saved, save_integration_key,
}
use tempogate.Admin.Keys.{Keys}

pub record CreateBody : Type 0 where
  pub namespace : String
  pub role : String
  pub owner : String
  pub expires_at : Option ℕ

pub record CreateResponse : Type 0 where
  pub id : String
  pub jwt : String
  pub expires_at : ℕ

pub data KeyError : Type 0 where
  empty_namespace empty_owner invalid_role worker_role : KeyError
  expires_at_required expires_at_past expires_at_too_far : KeyError

-- 201, 400, 422, 403, and an error that is answered 500.
pub data CreateOutput : Type 0 where
  created : CreateResponse → CreateOutput
  bad_request unprocessable : KeyError → CreateOutput
  forbidden failed : CreateOutput

-- New; the zero time is 0.
abbrev pub new_key : CreateBody → IntegrationKey
new_key b = record {
  id = "";
  namespace = b.namespace;
  role = b.role;
  owner = b.owner;
  jti = "";
  created_at = 0;
  expires_at = b.expires_at;
  revoked_at = none;
}

-- IntegrationKey.Validate
unfoldable pub validate : IntegrationKey → Option KeyError
validate k =
    if k.namespace == ""
    then some empty_namespace
    else if k.owner == ""
    then some empty_owner
    else if not (valid k.role)
    then some invalid_role
    else if k.role == "worker"
    then some worker_role
    else none

-- IntegrationKey.Grant
abbrev pub grant : IntegrationKey → Grant
grant k = some (new (record { namespace = k.namespace; role = k.role } ∷ []))

abbrev pub refuse_invalid : KeyError → CreateOutput
refuse_invalid worker_role = unprocessable worker_role
refuse_invalid e = bad_request e

-- The longest time.Duration, at which time.Time.Sub stops.
abbrev pub max_duration : ℕ
max_duration = 9_223_372_036_854_775_807

-- e.Sub(now), of a time that is not before now
abbrev pub sub : ℕ → ℕ → ℕ
sub e now = if ltb max_duration (e - now) then max_duration else e - now

abbrev pub after_save : CreateResponse → KeyTables × SaveKeyResult → KeyTables × CreateOutput
after_save r (t, saved) = (t, created r)
after_save r (t, SaveKeyResult.failed) = (t, CreateOutput.failed)

abbrev pub stamped : String → String → ℕ → IntegrationKey → IntegrationKey
stamped id jti now k = record k { id = id; jti = jti; created_at = now }

-- if err != nil { return … }, of a call whose result the rest of the function uses.
abbrev pub or_return {ℓ κ} : {A : Type ℓ} {R : Type κ} → R → Option A → (A → R) → R
or_return r none next = r
or_return r (some a) next = next a

abbrev pub unless_invalid :
    KeyTables → Option KeyError → KeyTables × CreateOutput → KeyTables × CreateOutput
unless_invalid t none next = next
unless_invalid t (some e) next = (t, refuse_invalid e)

module _ (h : Keys) where
  -- The signature over the claims, and the key as it is saved.
  unfoldable pub sign_and_save :
      Driver → ℕ → String → ℕ → IntegrationKey → KeyTables → KeyTables × CreateOutput
  sign_and_save db now id e k t =
      or_return (t, failed)
        (h.mint (record {
          subject = k.owner;
          email = "";
          idp = "";
          ttl = sub e now;
          permissions = to_claim (grant k);
          client_id = "";
        }))
        (λ signed.
          after_save (record { id = id; jwt = signed.0; expires_at = e })
            (save_integration_key db (stamped id signed.1 now k) t))

  -- The rules on expires_at, which need the clock.
  unfoldable pub check_expiry :
      Driver → ℕ → String → IntegrationKey → KeyTables → KeyTables × CreateOutput
  check_expiry db now id k t =
      or_return (t, bad_request expires_at_required) k.expires_at
        λ e.
          if leb e now
          then (t, bad_request expires_at_past)
          else if ltb h.max_ttl (sub e now)
          then (t, bad_request expires_at_too_far)
          else sign_and_save db now id e k t

  unfoldable pub mint_key :
      Driver → ℕ → Option String → IntegrationKey → KeyTables → KeyTables × CreateOutput
  mint_key db now new_id k t = unless_invalid t (validate k) (
      if (k.namespace == system_namespace) && not h.system_grants
      then (t, forbidden)
      else or_return (t, failed) new_id (λ id. check_expiry db now id k t))

  abbrev pub create : Driver → ℕ → Option String → CreateBody → KeyTables → KeyTables × CreateOutput
  create db now new_id b t = mint_key db now new_id (new_key b) t
