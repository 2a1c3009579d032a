-- ===== src/Oidc/Token/BasicAuth/Tests.antt =====
-- The Authorization header with codecs that are the identity, and the lifetimes.
use tempogate.Common.{
  String, Bool, ◌≡◌, refl, true, false, none, some, ◌==◌, cut, trim_space, is_space,
}
use tempogate.Oidc.Reply.{oauth_error}
use tempogate.Oidc.Token.BasicAuth.{
  has_basic_scheme, parse_basic_auth, with_basic_challenge, validate_token_lifetimes,
}

abbrev equal : String → String → Bool
equal a b = a == b

program : Unit {0}
unfolding has_basic_scheme parse_basic_auth with_basic_challenge validate_token_lifetimes cut
    trim_space is_space
program = tt

parsed : parse_basic_auth equal some (λ s. none) "Basic web:s3:cret" ≡ some ("web", "s3:cret")
unfolding program
parsed = refl

-- A header that ends behind the scheme has no credentials, and is challenged.
bare : parse_basic_auth equal some some "Basic " ≡ none
unfolding program
bare = refl

challenged :
    with_basic_challenge equal some some (oauth_error 401 "invalid_client" "") "Basic " ≡ true
unfolding program
challenged = refl

lifetimes : validate_token_lifetimes 60 600 600 ≡ true
unfolding program
lifetimes = refl

idle_too_short : validate_token_lifetimes 60 60 600 ≡ false
unfolding program
idle_too_short = refl
