-- ===== src/Ratelimit/Whole.antt =====
-- Whole tokens, one in 10 units of time: the limiter's arithmetic for tests.
use tempogate.Common.{ℕ, ◌+◌, ◌-◌, ◌/◌, if◌then◌else◌, ltb, leb}
use tempogate.Ratelimit.{Arithmetic}

abbrev pub whole : Arithmetic ℕ
whole = record {
  spent = λ x. ltb x 1;
  less_one = λ x. x - 1;
  plus_one = λ x. x + 1;
  least = λ x y. if leb x y then x else y;
  refill = λ d x. x + d / 10;
}
