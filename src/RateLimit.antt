-- ===== src/RateLimit.antt =====
-- The token bucket of internal/transport/http/middleware/ratelimit.go, which limits the requests of one
-- client where Redis is not set. Times are nanoseconds, and a token is counted in billionths, so that a
-- whole rate needs no fractions; the rounding of Go's `float64` is not modelled. The clock that Go reads
-- is monotonic.
pub mod Bound
pub mod Window
use bulk.Base.{
  ℕ, ◌+◌, ◌-◌, ◌*◌, min, String, Bool, true, false, List, [], ◌∷◌, Option, none, some,
  if◌then◌else◌, ltb, lookup, insert, not, ◌==◌,
}
use bulk.Domain.{Time}

-- One token.
abbrev pub token : ℕ
token = 1000000000

pub record Limiter : Type 0 where
  pub tokens : ℕ
  pub last : Time

-- A new limiter of `getLimiter` is full.
abbrev pub full_limiter : ℕ → Time → Limiter
full_limiter rps now = record { tokens = rps * token; last = now }

-- The tokens that have come since the last request, up to the rate.
abbrev pub refill : ℕ → Time → Limiter → Limiter
refill rps now b = record {
  tokens = min (b.tokens + (now - b.last) * rps) (rps * token);
  last = now;
}

abbrev spend : Limiter → Bool × Limiter
spend b = if ltb b.tokens token then (false, b) else (true, record b { tokens = b.tokens - token })

-- One request: whether it passes, and the limiter after it.
unfoldable pub request : ℕ → Time → Limiter → Bool × Limiter
request rps now b = spend (refill rps now b)

-- `getLimiter`
abbrev pub limiter_of : ℕ → Time → String → List (String × Limiter) → Limiter
limiter_of rps now ip buckets = elim (lookup ip buckets) [
  | none ↦ full_limiter rps now
  | some b ↦ b
]

-- `RateLimitMiddleware` on a request of the client with the address.
unfoldable pub allow : ℕ → Time → String → List (String × Limiter) → Bool × List (String × Limiter)
unfolding request
allow rps now ip buckets =
    let (passes, b) = request rps now (limiter_of rps now ip buckets) in
    (passes, insert ip b buckets)

-- What Redis answers to the count of a request: nothing where there is no client, no number where the
-- call fails, and the count of the requests in this window.
pub data Counted : Type 0 where
  no_client : Counted
  call_failed : Counted
  counted : ℕ → Counted

-- What is done with a request: whether it passes, whether the window of its client is set to expire,
-- and the limiters after it.
pub record Limited : Type 0 where
  pub passes : Bool
  pub sets_expiry : Bool
  pub limiters : List (String × Limiter)

abbrev in_memory : Bool × List (String × Limiter) → Limited
in_memory (passes, buckets) = record { passes = passes; sets_expiry = false; limiters = buckets }

-- The function that `RateLimitMiddleware` returns.
unfoldable pub rate_limit : ℕ → Counted → Time → String → List (String × Limiter) → Limited
unfolding allow
rate_limit rps (counted n) now ip buckets = record {
  passes = not (ltb rps n);
  sets_expiry = n == 1;
  limiters = buckets;
}
rate_limit rps _ now ip buckets = in_memory (allow rps now ip buckets)
