-- ===== src/RateLimit/Window.antt =====
-- The requests of one window, where Redis counts them.
use bulk.Base.{ℕ, zero, suc, ◌+◌, String, ◌≡◌, ◌≤◌, Bool, List, min, arith, if◌then◌else◌}
use bulk.Domain.{Time}
use bulk.RateLimit.{Limiter, counted, rate_limit}

-- The decisions on `n` requests of a client in one window, of which `seen` came before: how many pass,
-- how often the window is set to expire, and the limiters in memory.
pub record Window : Type 0 where
  pub passed : ℕ
  pub expiries : ℕ
  pub limiters : List (String × Limiter)

abbrev one_if : Bool → ℕ
one_if b = if b then 1 else 0

-- Redis counts from 1 in a window, each request once.
pub window : ℕ → (ℕ → Time) → String → ℕ → ℕ → List (String × Limiter) → Window
window rps now ip seen zero buckets = record { passed = 0; expiries = 0; limiters = buckets }
window rps now ip seen (suc n) buckets =
    let r = rate_limit rps (counted (suc seen)) (now seen) ip buckets in
    let rest = window rps now ip (suc seen) n r.limiters in
    record {
      passed = one_if r.passes + rest.passed;
      expiries = one_if r.sets_expiry + rest.expiries;
      limiters = rest.limiters;
    }

window_later :
    (rps : ℕ) (now : ℕ → Time) (ip : String) (seen n : ℕ) (buckets : List (String × Limiter))
    → 1 ≤ seen
    → ((window rps now ip seen n buckets).passed + min seen rps ≡ min (seen + n) rps)
      × ((window rps now ip seen n buckets).expiries ≡ 0)
      × ((window rps now ip seen n buckets).limiters ≡ buckets)
unfolding window rate_limit
window_later rps now ip seen zero buckets h = ground arith
window_later rps now ip seen (suc n) buckets h =
    ground (arith, window_later rps now ip (suc seen) n buckets (omega (arith, h)))

-- Of the requests that Redis counts in one window exactly the first ones pass, as many as the rate; the
-- window is set to expire once, at the first of them, and the limiters in memory are not used.
pub window-min :
    (rps : ℕ) (now : ℕ → Time) (ip : String) (n : ℕ) (buckets : List (String × Limiter))
    → 1 ≤ n
    → ((window rps now ip 0 n buckets).passed ≡ min n rps)
      × ((window rps now ip 0 n buckets).expiries ≡ 1)
      × ((window rps now ip 0 n buckets).limiters ≡ buckets)
unfolding window rate_limit
window-min rps now ip zero buckets h = absurd (omega (arith, h))
window-min rps now ip (suc n) buckets h =
    ground (arith, window_later rps now ip 1 n buckets (omega arith))
