-- ===== src/Ratelimit/Tests.antt =====
-- The rate limiter, run on whole tokens.
use tempogate.Common.{
  ℕ, ◌≤◌, ◌≡◌, refl, true, false, List, [], ◌∷◌, arith, map, first, delete, update,
}
use tempogate.Ratelimit.{
  Limiter, key_of, drop_last, make_room, max_keys_or, new_limiter, fetch, allow, refund,
}
use tempogate.Ratelimit.Whole.{whole}
use tempogate.Ratelimit.Bounds.{Call, try, give_back, run, IsBounded, run-IsBounded}

abbrev calls : List Call
calls = try 5 "a" ∷ try 5 "a" ∷ try 6 "b" ∷ try 7 "c" ∷ give_back "a" ∷ try 26 "c" ∷ []

-- With room for two keys, the third drops the one used longest ago.
two_keys :
    (λ (l : Limiter ℕ). map key_of l.order) (run whole (new_limiter 2 2) calls) ≡ "c" ∷ "b" ∷ []
unfolding allow refund fetch make_room drop_last max_keys_or first delete update
two_keys = refl

-- A burst of two, then no token before the refill.
third : (allow whole (run whole (new_limiter 2 2) (try 5 "a" ∷ try 5 "a" ∷ [])) 6 "a").1 ≡ false
unfolding allow refund fetch make_room drop_last max_keys_or first delete update
third = refl

refilled : (allow whole (run whole (new_limiter 2 2) (try 5 "a" ∷ try 5 "a" ∷ [])) 15 "a").1 ≡ true
unfolding allow refund fetch make_room drop_last max_keys_or first delete update
refilled = refl

run-IsBounded_example : IsBounded whole ◌≤◌ (run whole (new_limiter 2 2) calls)
run-IsBounded_example =
    run-IsBounded whole ◌≤◌ (λ x. omega arith) (λ x y z p q. omega arith) (λ x y. ground arith)
      (λ x. omega arith) 2 2 calls
