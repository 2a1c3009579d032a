-- ===== src/Oidc/UserInfo/Tests.antt =====
-- The userinfo endpoint, for a person and for a key that is revoked.
use tempogate.Common.{
  String, ◌≡◌, refl, Bool, true, false, none, some, [], ◌∷◌, ◌==◌, first, any, delete, update, cut,
  trim_space, is_space,
}
use tempogate.State.Driver.{up}
use tempogate.State.IntegrationKeys.{
  IntegrationKey, RevokedResult, known, mark_integration_key_revoked,
}
use tempogate.State.IntegrationKeys
use tempogate.Keys.Denylist.{
  DenylistCache, Order, new_denylist_cache, max_entries_or, store, hydrate, probe, is_revoked,
}
use tempogate.Keys.Verifier.{Token, Verifier, verify}
use tempogate.Keys.Revoked.{run}
use tempogate.Admin.{Keyring, revoke}
use tempogate.Oidc.UserInfo.{described, unauthorized, body_of, display_name, bearer_token, handle}
use tempogate.Oidc.UserInfo.Access.{IsVerified, handle_described, handle-revoked}

abbrev plain_order : Order
plain_order es = es

abbrev token : Token
token = record {
  typ = "at+jwt";
  jti = "j1";
  subject = "google:42";
  email = "ann@example.com";
  idp = "google";
}

abbrev verifier : Verifier
verifier = record { parse = λ raw. some token; has_denylist = true }

abbrev equal : String → String → Bool
equal a b = a == b

abbrev active : String → RevokedResult
active i = known false

abbrev empty : DenylistCache
empty = new_denylist_cache 30 2

program : Unit {0}
unfolding IntegrationKeys.is_revoked mark_integration_key_revoked store hydrate probe is_revoked
    revoke verify bearer_token handle display_name first any delete update cut trim_space is_space
    max_entries_or
program = tt

abbrev seen : DenylistCache
seen = (handle equal verifier plain_order 5 5 active "Bearer t" empty).0

known_person :
    (handle equal verifier plain_order 5 5 active "Bearer t" empty).1 ≡ described (body_of token)
unfolding program
known_person = refl

name_shown : display_name "ann@example.com" "google:42" ≡ "ann"
unfolding program
name_shown = refl

handle_described_example :
    (raw : String) × (tok : Token) × (bearer_token equal "Bearer t" ≡ some raw)
    × (some token ≡ some tok)
    × IsVerified equal verifier plain_order 5 5 active tok empty
    × ((tok.subject == "") ≡ false)
    × (body_of token ≡ body_of tok)
unfolding program
handle_described_example =
    handle_described equal verifier plain_order 5 5 active "Bearer t" empty {c' = seen}
      {body = body_of token} refl

abbrev keyring : Keyring
keyring = record {
  tables = record {
    keys =
        record {
          id = "k1";
          namespace = "billing";
          role = "write";
          owner = "ci";
          jti = "j1";
          created_at = 10;
          expires_at = none;
          revoked_at = none;
        }
        ∷ [];
    denied = [];
  };
  cache = seen;
}

abbrev behind : Keyring
behind = (revoke up plain_order 7 7 "k1" keyring).0

handle-revoked_example :
    (msg : String) × ((handle equal verifier plain_order 8 8
        (λ i. IntegrationKeys.is_revoked up i (run behind []).tables)
        "Bearer t"
        (run behind []).cache).1
      ≡ unauthorized msg)
unfolding program
handle-revoked_example =
    handle-revoked equal verifier up up plain_order plain_order 7 7 8 8 "k1" "j1" "Bearer t" keyring
      [] {k' = behind} {raw = "t"} {tok = token} refl refl refl refl refl refl
