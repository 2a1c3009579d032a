-- ===== src/Admin/Keys/Create/Returns.antt =====
-- admin/keys.go, mint: what each early return leaves when a run ends with 201.
use tempogate.Common.{◌≡◌, ◌≢◌, refl, ap, Bool, true, false, Option, none, some, if◌then◌else◌}
use tempogate.State.IntegrationKeys.{KeyTables}
use tempogate.Admin.Keys.Create.{
  CreateResponse, CreateOutput, created, KeyError, refuse_invalid, empty_namespace, empty_owner,
  invalid_role, worker_role, expires_at_required, expires_at_past, expires_at_too_far, or_return,
  unless_invalid,
}

refuse_invalid-created : (e : KeyError) (r : CreateResponse) → refuse_invalid e ≢ created r
refuse_invalid-created empty_namespace r h = cc
refuse_invalid-created empty_owner r h = cc
refuse_invalid-created invalid_role r h = cc
refuse_invalid-created worker_role r h = cc
refuse_invalid-created expires_at_required r h = cc
refuse_invalid-created expires_at_past r h = cc
refuse_invalid-created expires_at_too_far r h = cc

-- Past each early return of a run that ends with 201.
module _ {t' : KeyTables} {r : CreateResponse} where
  pub past_invalid :
      (t : KeyTables) (o : Option KeyError) (next : KeyTables × CreateOutput)
      → unless_invalid t o next ≡ (t', created r)
      → (o ≡ none) × (next ≡ (t', created r))
  past_invalid t none next h = (refl, h)
  past_invalid t (some e) next h = absurd (refuse_invalid-created e r (ap (λ x. x.1) h))

  pub past_none {ℓ} :
      {A : Type ℓ} (t : KeyTables) {out : CreateOutput} (o : Option A)
      (next : A → KeyTables × CreateOutput)
      → out ≢ created r
      → or_return (t, out) o next ≡ (t', created r)
      → (a : A) × (o ≡ some a) × (next a ≡ (t', created r))
  past_none t none next other h = absurd (other (ap (λ x. x.1) h))
  past_none t (some a) next other h = (a, refl, h)

  pub past_if :
      (t : KeyTables) {out : CreateOutput} (c : Bool) (next : KeyTables × CreateOutput)
      → out ≢ created r
      → (if c then (t, out) else next) ≡ (t', created r)
      → (c ≡ false) × (next ≡ (t', created r))
  past_if t true next other h = absurd (other (ap (λ x. x.1) h))
  past_if t false next other h = (refl, h)
