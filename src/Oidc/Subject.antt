-- ===== src/Oidc/Subject.antt =====
-- oidc/authcode.go, TokenSubject and ParseTokenSubject: the sub claim of a person's tokens.
-- `matches` is connectorIDPattern.MatchString of oidc/connector.go.
mod Tests
use text.Mathlib.TextLemmas.{nil-append, cons-append}
use tempogate.Common.{
  String, ◌≡◌, ◌≢◌, refl, sym, ap, ◌∙◌, Bool, true, false, Option, none, some, ◌==◌, eq_iff, ◌<>◌,
  cut-append, if◌then◌else◌, cut, is_none, Bool-cases, Option-cases, inl, inr,
}
use tempogate.Oidc.Connector.{validate_connector_id}

-- TokenSubject
unfoldable pub token_subject : String → String → String
token_subject connector_id subject = connector_id <> (":" <> subject)

module _ (matches : String → Bool) where
  abbrev pub checked_subject : Option (String × String) → Option (String × String)
  checked_subject none = none
  checked_subject (some (connector_id, subject)) =
      if subject == ""
      then none
      else if is_none (validate_connector_id matches connector_id)
      then some (connector_id, subject)
      else none

  -- ParseTokenSubject, none for its error
  unfoldable pub parse_token_subject : String → Option (String × String)
  parse_token_subject sub = checked_subject (cut b':' sub)

cut-token_subject : (a b : String) → cut b':' a ≡ none → cut b':' (token_subject a b) ≡ some (a, b)
unfolding token_subject
cut-token_subject a b h = rw (cons-append, nil-append) (cut-append b':' a b ":" refl h)

module _ (matches : String → Bool) where
  accepted : (id : String) → validate_connector_id matches id ≡ none → matches id ≡ true
  unfolding validate_connector_id
  accepted id h = elim (Bool-cases (matches id)) [ inl hit ↦ hit | inr miss ↦ cc (rw miss at h) ]

  -- A token's subject, made for a valid connector id and a subject that is not empty, is taken
  -- apart into the two, when the pattern of connector ids admits no colon.
  pub parse_token_subject-token_subject :
      (connector_id subject : String)
      → ((id : String) → matches id ≡ true → cut b':' id ≡ none)
      → validate_connector_id matches connector_id ≡ none
      → subject ≢ ""
      → parse_token_subject matches (token_subject connector_id subject)
        ≡ some (connector_id, subject)
  unfolding parse_token_subject
  parse_token_subject-token_subject connector_id subject no_colon legal named =
      let apart =
        cut-token_subject connector_id subject
          (no_colon connector_id (accepted connector_id legal)) in
      elim (Bool-cases (subject == "")) [
        | inl empty ↦ absurd (named ((eq_iff subject "").0 empty))
        | inr given ↦ rw (apart, given, legal) refl
      ]
