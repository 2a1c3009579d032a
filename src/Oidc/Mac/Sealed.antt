-- ===== src/Oidc/Mac/Sealed.antt =====
-- Signed values: what verifies, and under which label.
use text.Mathlib.TextLemmas.{nil-append, cons-append}
use tempogate.Common.{
  String, ◌≡◌, ◌≢◌, refl, sym, ap, ◌∙◌, false, ◌||◌, Option, none, some, ◌==◌, eq_iff, eq_refl,
  ◌<>◌, if◌then◌else◌, cut, cut-append, arith, Bool-cases, inl, inr,
}
use tempogate.Oidc.Mac.{Signer, labeled_mac, signed, compare_mac, open_halves, verify_signed}

-- What is documented of the encoding and of the MAC: the encoding is decoded, has no dot, and is
-- empty for the empty text only; a MAC is not empty.
pub record IsWire (s : Signer) : Type 0 where
  pub decodes : (x : String) → s.decode (s.encode x) ≡ some x
  pub undotted : (x : String) → cut b'.' (s.encode x) ≡ none
  pub filled : (x : String) → (x == "") ≡ false → (s.encode x == "") ≡ false
  pub mac_filled : (x : String) → (s.hmac x == "") ≡ false

module _ (s : Signer) where
  compared-mac :
      (label : String) (p q : Option String) {raw : String}
      → compare_mac s label p q ≡ some raw
      → (p ≡ some raw) × (q ≡ some (labeled_mac s label raw))
  compared-mac label (some x) (some got) e = ground (arith, eq_iff got (labeled_mac s label x))
  compared-mac label (some x) none e = cc
  compared-mac label none q e = cc

  halves-mac :
      (label : String) (o : Option (String × String)) {raw : String}
      → open_halves s label o ≡ some raw
      → (a : String) × (b : String) × (o ≡ some (a, b))
        × (s.decode a ≡ some raw)
        × (s.decode b ≡ some (labeled_mac s label raw))
  halves-mac label none e = cc
  halves-mac label (some (a, b)) {raw} e = elim (Bool-cases ((a == "") || (b == ""))) [
    | inl empty ↦ cc (rw empty at e)
    | inr full ↦
        let (p, q) = compared-mac label (s.decode a) (s.decode b) (rw full at e) in
        (a, b, refl, p, q)
  ]

  -- What verifies is a payload whose MAC under the label is in the value.
  pub verify_signed-mac :
      (label value : String) {raw : String}
      → verify_signed s label value ≡ some raw
      → (a : String) × (b : String) × (cut b'.' value ≡ some (a, b))
        × (s.decode a ≡ some raw)
        × (s.decode b ≡ some (labeled_mac s label raw))
  unfolding verify_signed
  verify_signed-mac label value {raw} e = halves-mac label (cut b'.' value) e

module _ (s : Signer) (wire : IsWire s) where
  cut-signed :
      (label raw : String)
      → cut b'.' (signed s label raw) ≡ some (s.encode raw, s.encode (labeled_mac s label raw))
  unfolding signed
  cut-signed label raw =
      rw (cons-append, nil-append)
        (cut-append b'.' (s.encode raw) (s.encode (labeled_mac s label raw)) "." refl
          (wire.undotted raw))

  -- What a signed payload comes to under any label.
  verify_signed-signed_any :
      (label label' raw : String)
      → (raw == "") ≡ false
      → verify_signed s label' (signed s label raw)
        ≡ (if labeled_mac s label raw == labeled_mac s label' raw then some raw else none)
  unfolding verify_signed
  verify_signed-signed_any label label' raw full = rw (
    cut-signed label raw,
    wire.filled raw full,
    wire.filled (labeled_mac s label raw) (wire.mac_filled (label <> ("\0" <> raw))),
    wire.decodes raw,
    wire.decodes (labeled_mac s label raw),
  )

  -- A payload that is not empty comes back from its signed value, under the label it was signed
  -- with.
  pub verify_signed-signed :
      (label raw : String)
      → (raw == "") ≡ false
      → verify_signed s label (signed s label raw) ≡ some raw
  verify_signed-signed label raw full = rw (verify_signed-signed_any label label raw full, eq_refl)

  cut-labeled :
      (label raw : String) → cut 0 label ≡ none → cut 0 (label <> ("\0" <> raw)) ≡ some (label, raw)
  cut-labeled label raw h = rw (cons-append, nil-append) (cut-append 0 label raw "\0" refl h)

  -- A value signed under one label verifies under no other, provided the labels have no NUL and
  -- the MAC has no collision.
  pub verify_signed-foreign :
      (label label' raw : String)
      → ((x y : String) → s.hmac x ≡ s.hmac y → x ≡ y)
      → cut 0 label ≡ none
      → cut 0 label' ≡ none
      → label ≢ label'
      → (raw == "") ≡ false
      → verify_signed s label' (signed s label raw) ≡ none
  verify_signed-foreign label label' raw free clean clean' other full =
      elim (Bool-cases (labeled_mac s label raw == labeled_mac s label' raw)) [
        | inl same ↦
            let collided =
              free (label <> ("\0" <> raw)) (label' <> ("\0" <> raw))
                ((eq_iff (labeled_mac s label raw) (labeled_mac s label' raw)).0 same) in
            let halves =
              sym (cut-labeled label raw clean)
              ∙ (ap (cut 0) collided ∙ cut-labeled label' raw clean') in
            let named : label ≡ label' = cc halves in elim (other named) [ ]
        | inr differs ↦ rw (verify_signed-signed_any label label' raw full, differs)
      ]
