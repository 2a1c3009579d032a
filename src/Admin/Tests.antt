-- ===== src/Admin/Tests.antt =====
-- The guard of the admin API, on one digest and one host. SHA-256 is the identity here.
use tempogate.Common.{
  String, ◌≡◌, refl, true, none, some, [], ◌∷◌, ◌==◌, any, first, cut, split, trim_space, is_space,
}
use tempogate.Admin.Guard.{
  Library, Guard, rejected, new_guard, with_allowed_hosts, parse_entries, parse_token_digests,
  host_allowed, bearer_token, match_digest, middleware,
}
use tempogate.Admin.Guard.Admitted.{is_entry, middleware-admitted}

abbrev library : Library
library = record {
  sha256 = λ s. s;
  lower = λ s. s;
  equal_fold = λ a b. a == b;
  host_of = λ s. none;
  trim_brackets = λ s. s;
  decode_digest = λ s. some s;
  fingerprint = λ d. d;
}

abbrev guard : Guard
guard = record { digests = "t1" ∷ "t2" ∷ []; exact = []; any_port = "localhost" ∷ [] }

program : Unit {0}
unfolding with_allowed_hosts parse_entries parse_token_digests host_allowed bearer_token
    match_digest middleware any first cut split trim_space is_space
program = tt

configured : parse_token_digests library "t1, t2," ≡ some ("t1" ∷ "t2" ∷ [])
unfolding program
configured = refl

hosts :
    with_allowed_hosts library ("localhost" ∷ []) new_guard
    ≡ record { digests = []; exact = []; any_port = "localhost" ∷ [] }
unfolding program
hosts = refl

foreign : middleware library guard "evil" "Bearer t2" ≡ rejected "host_not_allowed"
unfolding program
foreign = refl

locked :
    middleware library
      (with_allowed_hosts library ("localhost" ∷ []) new_guard)
      "localhost"
      "Bearer t2"
    ≡ rejected "locked"
unfolding program
locked = refl

middleware-admitted_example :
    (host_allowed library guard "localhost" ≡ true)
    × ((token : String) × (bearer_token library "Bearer t2" ≡ some token)
        × (any (is_entry library token) (split b',' "t1, t2,") ≡ true))
unfolding program
middleware-admitted_example =
    middleware-admitted library guard "t1, t2," "localhost" "Bearer t2" {f = "t2"} refl refl
