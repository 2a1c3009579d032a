-- ===== src/Oidc/Subject/Tests.antt =====
-- Subjects of one connector.
use tempogate.Common.{String, ◌≡◌, refl, Bool, some, none, ◌==◌, cut}
use tempogate.Oidc.Connector.{validate_connector_id}
use tempogate.Oidc.Subject.{token_subject, parse_token_subject}

-- a pattern that only this id matches
abbrev only_google : String → Bool
only_google id = id == "google"

read_back : parse_token_subject only_google (token_subject "google" "u:1") ≡ some ("google", "u:1")
unfolding parse_token_subject token_subject cut validate_connector_id
read_back = refl

foreign : parse_token_subject only_google "key:abc" ≡ none
unfolding parse_token_subject cut validate_connector_id
foreign = refl
