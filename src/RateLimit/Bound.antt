-- ===== src/RateLimit/Bound.antt =====
-- How many requests of a client pass.
use bulk.Base.{
  ℕ, ◌+◌, ◌-◌, ◌*◌, ◌≤◌, String, ◌≡◌, ◌≢◌, ap, List, [], ◌∷◌, arith, if◌then◌else◌, lookup,
  lookup-insert, eq_iff,
}
use native.Mathlib.Nat.{mul-add}
use bulk.Domain.{Time}
use bulk.RateLimit.{Limiter, token, request, limiter_of, allow}

-- The requests of one client at the given times: how many pass, and the limiter after them.
abbrev pub requests : ℕ → List Time → Limiter → ℕ × Limiter
requests rps [] b = (0, b)
requests rps (now ∷ times) b =
    let (passes, b') = request rps now b in
    let (n, last) = requests rps times b' in ((if passes then 1 else 0) + n, last)

-- Times that do not go back.
abbrev pub IsMonotone : Time → List Time → Type 0
IsMonotone from [] = Unit {0}
IsMonotone from (now ∷ times) = (from ≤ now) × IsMonotone now times

request-last : (rps now : ℕ) (b : Limiter) → (request rps now b).1.last ≡ now
unfolding request
request-last rps now b = ground arith

-- The time that has passed, spread over the rate.
elapsed_mul : (rps last now : ℕ) → last ≤ now → (now - last) * rps + last * rps ≡ now * rps
elapsed_mul rps last now h =
    let whole : now - last + last ≡ now = omega arith in
    omega (arith, mul-add rps (now - last) last, ap (λ t. rps * t) whole)

request_bound :
    (rps now : ℕ) (b : Limiter)
    → b.last ≤ now
    → (if (request rps now b).0 then 1 else 0) * token + (request rps now b).1.tokens + b.last * rps
      ≤ b.tokens + now * rps
unfolding request
request_bound rps now b h = ground (arith, elapsed_mul rps b.last now h)

request_full : (rps now : ℕ) (b : Limiter) → (request rps now b).1.tokens ≤ rps * token
unfolding request
request_full rps now b = ground arith

-- From any state of its limiter and at any times that do not go back, the requests of a client that
-- pass cost no more than the tokens that the limiter had and those that came in the time up to the
-- last request; what is left over is never more than a full limiter.
pub requests-bounded :
    (rps : ℕ) (times : List Time) (b : Limiter)
    → IsMonotone b.last times
    → b.tokens ≤ rps * token
    → let (n, after) = requests rps times b in
      (n * token + after.tokens + b.last * rps ≤ b.tokens + after.last * rps)
      × (after.tokens ≤ rps * token)
requests-bounded rps [] b h full = (omega arith, full)
requests-bounded rps (now ∷ times) b h full =
    let (passes, b') = request rps now b in
    ground (
      arith,
      request_bound rps now b h.0,
      ap (λ t. t * rps) (request-last rps now b),
      request_full rps now b,
      requests-bounded rps times b' (rw (request-last rps now b) h.1) (request_full rps now b),
    )

-- A request of one client leaves the limiters of the others alone.
pub allow-others :
    (rps now : ℕ) (ip other : String) (buckets : List (String × Limiter))
    → ip ≢ other
    → lookup other (allow rps now ip buckets).1 ≡ lookup other buckets
unfolding allow
allow-others rps now ip other buckets h = ground (
  arith,
  lookup-insert ip other (request rps now (limiter_of rps now ip buckets)).1 buckets,
  eq_iff ip other,
)
