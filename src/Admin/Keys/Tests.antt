-- ===== src/Admin/Keys/Tests.antt =====
-- The operations on integration keys, on three keys. Texts are ordered by their characters' codes.
use Prim.Native.Char.{code}
use text.Mathlib.TextEquality.{Char-path}
use mathlib.Core.List.{Perm}
use tempogate.Common.{
  ℕ, zero, suc, String, ◌≡◌, refl, Bool, true, false, not, ◌==◌, Option, none, some, [], ◌∷◌, map,
  arith, ltb, if◌then◌else◌, any,
}
use tempogate.Common.Ordered.{IsOrder, select, insert, sort, Descending}
use tempogate.Common.Limit.{pos, take, get_elem?}
use tempogate.State.Driver.{up}
use tempogate.State.IntegrationKeys.{
  IntegrationKey, KeyTables, id_of, wanted, list_integration_keys, save_integration_key,
}
use tempogate.Admin.Keys.{Keys, ListInput, ListOutput, view_of, list}
use tempogate.Perms.{new, to_claim, valid}
use tempogate.Admin.Keys.Create.{
  CreateBody, CreateResponse, forbidden, bad_request, expires_at_too_far, worker_role,
  unprocessable, validate, sign_and_save, check_expiry, mint_key, create,
}
use tempogate.Admin.Keys.Create.Minted.{IsMinted, create-IsMinted}
use tempogate.Admin.Keys.Walk.{walk, Grows, same, minted, listing}
use tempogate.Admin.Keys.Paging.{walk-listing}

lex : String → String → Bool
lex s String.[] = false
lex String.[] (String.◌∷◌ d t) = true
lex (String.◌∷◌ c s) (String.◌∷◌ d t) =
    let rest = lex s t in
    if ltb (code c) (code d) then true else if ltb (code d) (code c) then false else rest

lex_irreflexive : (s : String) → lex s s ≡ false
unfolding lex
lex_irreflexive String.[] = refl
lex_irreflexive (String.◌∷◌ c s) = ground (arith, lex_irreflexive s)

lex_transitive : (r s t : String) → lex r s ≡ true → lex s t ≡ true → lex r t ≡ true
unfolding lex
lex_transitive r s String.[] h k = cc
lex_transitive String.[] s (String.◌∷◌ e t) h k = refl
lex_transitive (String.◌∷◌ c r) String.[] (String.◌∷◌ e t) h k = cc
lex_transitive (String.◌∷◌ c r) (String.◌∷◌ d s) (String.◌∷◌ e t) h k =
    ground (arith, lex_transitive r s t)

lex_connected : (s t : String) → lex s t ≡ false → lex t s ≡ false → s ≡ t
unfolding lex
lex_connected String.[] String.[] h k = refl
lex_connected String.[] (String.◌∷◌ d t) h k = cc
lex_connected (String.◌∷◌ c s) String.[] h k = cc
lex_connected (String.◌∷◌ c s) (String.◌∷◌ d t) h k =
    let same_code : code c ≡ code d = ground (arith, h, k) in
    rw
      (
        Char-path c d same_code,
        lex_connected s t (ground (arith, h, same_code)) (ground (arith, k, same_code)),
      )
      refl

lex-IsOrder : IsOrder lex
lex-IsOrder = record {
  irreflexive = lex_irreflexive;
  transitive = lex_transitive;
  connected = lex_connected;
}

abbrev handler : Keys
handler = record {
  mint = λ m. some ("jwt", "j9");
  is_uuid = λ s. not (s == "");
  system_grants = false;
  max_ttl = 100;
}

abbrev key : String → String → IntegrationKey
key id owner = record {
  id = id;
  namespace = "billing";
  role = "write";
  owner = owner;
  jti = id;
  created_at = 10;
  expires_at = some 90;
  revoked_at = none;
}

-- Two keys at first; a third is minted behind the first request.
abbrev tables : ℕ → KeyTables
tables zero = record { keys = key "02" "ci" ∷ key "01" "ci" ∷ []; denied = [] }
tables (suc n) = record { keys = key "03" "ci" ∷ key "02" "ci" ∷ key "01" "ci" ∷ []; denied = [] }

abbrev first_page : ListInput
first_page = record { owner = "ci"; namespace = ""; limit = pos 1; cursor = "" }

program : Unit {0}
unfolding validate sign_and_save check_expiry mint_key save_integration_key to_claim new valid list
    list_integration_keys walk select insert sort take get_elem? any lex
program = tt

answered :
    list handler lex up first_page (tables 1)
    ≡ ListOutput.listed (view_of (key "03" "ci") ∷ []) "03"
unfolding program
answered = refl

grown : (n : ℕ) → Grows lex (tables n).keys (tables (suc n)).keys
unfolding program
grown zero = minted (key "03" "ci") (refl, (refl, tt))
grown (suc n) = same

walk-listing_example :
    (walk handler lex up 3 tables first_page
      ≡ some (map view_of (listing lex first_page (tables 0))))
    × Perm (listing lex first_page (tables 0)) (select (wanted "ci" "") (tables 0).keys)
    × Descending id_of lex (listing lex first_page (tables 0))
unfolding program
walk-listing_example =
    walk-listing handler lex-IsOrder up (λ n. refl) tables first_page 3 refl (refl, (refl, tt)) refl
      (refl, (refl, tt)) grown (omega arith)

abbrev body : String → String → ℕ → CreateBody
body namespace role expires = record {
  namespace = namespace;
  role = role;
  owner = "ci";
  expires_at = some expires;
}

worker :
    (create handler up 10 (some "03") (body "billing" "worker" 90) (tables 0)).1
    ≡ unprocessable worker_role
unfolding program
worker = refl

system :
    (create handler up 10 (some "03") (body "temporal-system" "admin" 90) (tables 0)).1 ≡ forbidden
unfolding program
system = refl

far :
    (create handler up 10 (some "03") (body "billing" "write" 111) (tables 0)).1
    ≡ bad_request expires_at_too_far
unfolding program
far = refl

abbrev response : CreateResponse
response = record { id = "03"; jwt = "jwt"; expires_at = 110 }

abbrev minted_tables : KeyTables
minted_tables = record {
  keys =
      record (key "03" "ci") { jti = "j9"; expires_at = some 110 }
      ∷ key "02" "ci"
      ∷ key "01" "ci"
      ∷ [];
  denied = [];
}

create-IsMinted_example :
    IsMinted handler 10 (body "billing" "write" 110) (tables 0) minted_tables response
    × (◌≡◌ {A = Option String} (some "03") (some "03"))
unfolding program
create-IsMinted_example =
    create-IsMinted handler up 10 (some "03") (body "billing" "write" 110) (tables 0)
      {t' = minted_tables} {r = response} refl
