-- ===== src/RateLimiter/Examples.antt =====
-- A limiter with 3 bytes left of 4, to which each round adds 2.
use lightkv.Prelude.{ℕ, ◌+◌, ◌≡◌, refl, arith, some, none}
use lightkv.RateLimiter.{
  RateLimiter, request, request_loop, try_acquire, refill, new_limiter, set_rate,
}
use lightkv.RateLimiter.Request.{IsFlowing, IsServed, request_ends}

abbrev nearly_full : RateLimiter
nearly_full = record { rate = 100; burst = 4; available = 3 }

abbrev two_each : ℕ → ℕ
two_each n = 2

nearly_full-IsFlowing : IsFlowing two_each nearly_full
nearly_full-IsFlowing = record {
  room = omega arith;
  filled = omega arith;
  some_added = λ n. omega arith;
  no_overflow = λ n. omega arith;
}

-- Seven bytes take three rounds.
three_rounds :
    request 8 two_each 7 nearly_full ≡ some (3, record { rate = 100; burst = 4; available = 1 })
unfolding request request_loop try_acquire refill
three_rounds = refl

-- A limiter made with no rate and no burst keeps a bucket of size 0 when it is given a rate: a request of
-- one byte is not served in 5 rounds.
never_served : request 5 two_each 1 (set_rate 2 100 (new_limiter 0 0)) ≡ none
unfolding request request_loop try_acquire refill set_rate new_limiter
never_served = refl

request_ends_example :
    (last : ℕ) × (after : RateLimiter) × (request (7 + 1) two_each 7 nearly_full
      ≡ some (last, after))
    × IsServed two_each 0 7 nearly_full last after
request_ends_example = request_ends two_each 7 nearly_full (omega arith) nearly_full-IsFlowing
