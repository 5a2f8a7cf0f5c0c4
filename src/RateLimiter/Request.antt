-- ===== src/RateLimiter/Request.antt =====
-- A request ends, and what it lets through is bounded by what was refilled.
use lightkv.Prelude.{
  ℕ, zero, suc, ◌+◌, ◌-◌, ◌^◌, ◌≤◌, ◌<◌, ◌≡◌, inl, inr, refl, ◌∙◌, arith, false, Bool-cases, some,
  leb, ◌==◌,
}
use lightkv.RateLimiter.{RateLimiter, refill, try_acquire, request_loop, request}

-- What the rounds from `from` on add, `n` of them.
pub sum_added : (ℕ → ℕ) → ℕ → ℕ → ℕ
sum_added added from zero = 0
sum_added added from (suc n) = added from + sum_added added (from + 1) n

-- A bucket that can hold a byte, and refills that are not empty and stay in 64 bits.
pub record IsFlowing (added : ℕ → ℕ) (r : RateLimiter) : Type 0 where
  pub room : 1 ≤ r.burst
  pub filled : r.available ≤ r.burst
  pub some_added : (n : ℕ) → 1 ≤ added n
  pub no_overflow : (n : ℕ) → r.burst + added n < 2 ^ 64

-- What a request that ended did: the rounds it took, and the bytes that the bucket lost.
pub record IsServed (added : ℕ → ℕ) (round bytes : ℕ) (r : RateLimiter) (last : ℕ)
    (after : RateLimiter) : Type 0 where
  pub rounds : ℕ
  pub end_round : last ≡ round + rounds
  pub few : rounds ≤ bytes
  pub paid : bytes + after.available ≤ r.available + sum_added added round rounds
  pub same_burst : after.burst ≡ r.burst
  pub filled_after : after.available ≤ after.burst

acquire :
    (added bytes : ℕ) (r : RateLimiter)
    → 1 ≤ r.burst
    → r.available ≤ r.burst
    → 1 ≤ added
    → r.burst + added < 2 ^ 64
    → 1 ≤ bytes
    → (1 ≤ (try_acquire added bytes r).0)
      × ((try_acquire added bytes r).0 ≤ bytes)
      × ((try_acquire added bytes r).0 + (try_acquire added bytes r).1.available
          ≤ r.available + added)
      × ((try_acquire added bytes r).1.burst ≡ r.burst)
      × ((try_acquire added bytes r).1.available ≤ r.burst)
unfolding try_acquire refill
acquire added bytes r room filled positive_add small one =
    let positive : (added == 0) ≡ false = ground (arith, positive_add) in
    rw positive (omega arith, omega arith, omega arith, refl, omega arith)

loop_ends :
    (fuel : ℕ) (added : ℕ → ℕ) (round bytes : ℕ) (r : RateLimiter)
    → IsFlowing added r
    → bytes < fuel
    → (last : ℕ) × (after : RateLimiter) × (request_loop fuel added round bytes r
        ≡ some (last, after))
      × IsServed added round bytes r last after
unfolding request_loop sum_added
loop_ends zero added round bytes r flow small = absurd (omega arith)
loop_ends (suc fuel) added round bytes r flow small = elim (Bool-cases (bytes == 0)) [
  | inl nothing ↦ (
    round,
    r,
    rw nothing refl,
    record {
      rounds = 0;
      end_round = omega arith;
      few = omega arith;
      paid = ground arith;
      same_burst = refl;
      filled_after = flow.filled;
    },
  )
  | inr wanted ↦
      let one : 1 ≤ bytes = ground arith in
      let (some_granted, most, paid, burst, filled) =
        acquire (added round) bytes r flow.room flow.filled (flow.some_added round)
          (flow.no_overflow round) one in
      let granted = (try_acquire (added round) bytes r).0 in
      let r' = (try_acquire (added round) bytes r).1 in
      elim (Bool-cases (leb bytes granted)) [
        | inl enough ↦ (
          round + 1,
          r',
          rw wanted (rw enough refl),
          record {
            rounds = 1;
            end_round = refl;
            few = one;
            paid = ground (arith, paid);
            same_burst = burst;
            filled_after = omega (arith, burst, filled);
          },
        )
        | inr more ↦
            let still : IsFlowing added r' = record {
              room = omega (arith, burst, flow.room);
              filled = omega (arith, burst, filled);
              some_added = flow.some_added;
              no_overflow = λ n. omega (arith, burst, flow.no_overflow n);
            } in
            let (last, after, e, s) =
              loop_ends fuel added (round + 1) (bytes - granted) r' still
                (omega (arith, some_granted)) in
            (
              last,
              after,
              rw wanted (rw more e),
              record {
                rounds = suc s.rounds;
                end_round = omega (arith, s.end_round);
                few = omega (arith, s.few, some_granted, most);
                paid = omega (arith, s.paid, paid, most);
                same_burst = s.same_burst ∙ burst;
                filled_after = s.filled_after;
              },
            )
      ]
]

-- A Request returns: where every refill adds a byte at least and the bucket can hold one, as many rounds
-- as there are bytes, and one more to see the end, are enough. The bytes it lets through and those that
-- stay in the bucket are no more than what was there and what its rounds added, and the bucket stays
-- within its size.
pub request_ends :
    (added : ℕ → ℕ) (bytes : ℕ) (r : RateLimiter)
    → 0 < r.rate
    → IsFlowing added r
    → (last : ℕ) × (after : RateLimiter) × (request (bytes + 1) added bytes r ≡ some (last, after))
      × IsServed added 0 bytes r last after
unfolding request
request_ends added bytes r limited flow =
    let on : (r.rate == 0) ≡ false = ground arith in
    let (last, after, e, s) = loop_ends (bytes + 1) added 0 bytes r flow (omega arith) in
    (last, after, rw on e, s)
