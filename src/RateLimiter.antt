-- ===== src/RateLimiter.antt =====
-- include/lightkv/rate_limiter.h: the token bucket. What a Refill adds, the product of the rate and the
-- time since the last one in floating point, is a parameter for each round; 0 is a time too short.
pub mod Request
pub mod Examples
use lightkv.Prelude.{
  ℕ, zero, suc, ◌+◌, ◌-◌, ◌%◌, ◌^◌, min, Bool, true, false, Option, none, some, leb, ◌==◌,
  if◌then◌else◌,
}

pub record RateLimiter : Type 0 where
  pub rate : ℕ
  pub burst : ℕ
  pub available : ℕ

-- RateLimiter::RateLimiter
pub new_limiter : ℕ → ℕ → RateLimiter
new_limiter bytes_per_sec burst_size = record {
  rate = bytes_per_sec;
  burst = if burst_size == 0 then bytes_per_sec else burst_size;
  available = burst_size;
}

-- RateLimiter::Refill
pub refill : ℕ → RateLimiter → RateLimiter
refill added r =
    if added == 0 then r else record r { available = min r.burst ((r.available + added) % 2 ^ 64) }

-- RateLimiter::TryAcquire
pub try_acquire : ℕ → ℕ → RateLimiter → ℕ × RateLimiter
try_acquire added bytes r =
    let full = refill added r in
    let granted = min full.available bytes in
    (granted, record full { available = full.available - granted })

-- The loop of RateLimiter::Request, with the number of rounds it took. Other callers are left out: their
-- rounds take from `added`.
pub request_loop : ℕ → (ℕ → ℕ) → ℕ → ℕ → RateLimiter → Option (ℕ × RateLimiter)
request_loop zero added round bytes r = none
request_loop (suc fuel) added round bytes r =
    let (granted, r') = try_acquire (added round) bytes r in
    let rest = request_loop fuel added (round + 1) (bytes - granted) r' in
    if bytes == 0 then some (round, r) else if leb bytes granted then some (round + 1, r') else rest

-- RateLimiter::Request
pub request : ℕ → (ℕ → ℕ) → ℕ → RateLimiter → Option (ℕ × RateLimiter)
request fuel added bytes r = if r.rate == 0 then some (0, r) else request_loop fuel added 0 bytes r

-- RateLimiter::SetRate
pub set_rate : ℕ → ℕ → RateLimiter → RateLimiter
set_rate added bytes_per_sec r = record (refill added r) { rate = bytes_per_sec }
