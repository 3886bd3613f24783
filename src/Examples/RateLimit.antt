-- ===== src/Examples/RateLimit.antt =====
-- The token bucket, at a rate of two requests for each second.
use bulk.Base.{◌+◌, ◌*◌, ◌≤◌, ◌≡◌, refl, [], ◌∷◌, arith}
use bulk.RateLimit.{token, full_limiter, request}
use bulk.RateLimit.Bound.{requests, requests-bounded}

-- Four requests, the first three of them at once.
requests-bounded_example :
    let (n, after) = requests 2 (5 ∷ 5 ∷ 5 ∷ 600000005 ∷ []) (full_limiter 2 5) in
    (n * token + after.tokens + 5 * 2 ≤ 2 * token + after.last * 2) × (after.tokens ≤ 2 * token)
requests-bounded_example =
    requests-bounded 2 (5 ∷ 5 ∷ 5 ∷ 600000005 ∷ []) (full_limiter 2 5) (ground arith) (omega arith)

-- The third request at once is refused.
requests_test : (requests 2 (5 ∷ 5 ∷ 5 ∷ 600000005 ∷ []) (full_limiter 2 5)).0 ≡ 3
unfolding request
requests_test = refl
