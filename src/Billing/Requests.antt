-- ===== src/Billing/Requests.antt =====
-- The port of billing, filled by the client.
use bulk.Base.{
  ℕ, String, ◌≡◌, ◌≢◌, ◌⊎◌, inl, inr, true, false, List, [], ◌∷◌, map, none, some, arith, ◌==◌,
  Bool-cases,
}
use bulk.Domain.{Batch, BatchStatus}
use bulk.World.{World, Env}
use bulk.Postgres.Tables.{jobs_of}
use bulk.Postgres.RoundTrip.{stored, saved_over}
use bulk.Postgres.Sweep.{Distinct}
use bulk.Manager.{BatchManager, set_cancelled}
use bulk.Manager.Cancel.{set_cancelled-refunds, set_cancelled_no_refund}
use bulk.Manager.Refund.{closed}
use bulk.Billing.{Decoder, replied, accepted_body, refund_error, over_http}

refund_error-200 : (d : Decoder) (body : List ℕ) → refund_error d (replied 200 body) ≡ none
unfolding refund_error accepted_body
refund_error-200 d body = ground arith

refund_error-other :
    (d : Decoder) (status : ℕ) (body : List ℕ)
    → status ≢ 200
    → refund_error d (replied status body) ≢ none
unfolding refund_error accepted_body
refund_error-other d status body other h = ground (arith, other, h)

-- A cancellation of a batch with reserved transactions, with a store that answers and a billing that
-- replies to each request with one status: for the status 200 the open jobs are refunded and the
-- batch keeps no transactions; for every other one the jobs stay as they were, and the cancelled
-- batch keeps its transactions. What the replies hold does not matter.
pub over_http-set_cancelled :
    (d : Decoder) (env : Env) (status : ℕ) (body : ℕ → List ℕ) (m : BatchManager) (w : World)
    (k : String) (b : Batch) (t : String) (ts : List String)
    → ((n : ℕ) → env.store_fault n ≡ none)
    → m.batch_repo ≡ true
    → m.job_repo ≡ true
    → m.billing ≡ true
    → stored k w ≡ some b
    → b.billing_transaction_ids ≡ t ∷ ts
    → Distinct (jobs_of k w.jobs)
    → let after = (set_cancelled (over_http d (λ n. replied status (body n)) env) m k w).1 in
      let cancelled = record b { status = BatchStatus.cancelled } in
      ((status ≡ 200)
        × (jobs_of k after.jobs ≡ map closed (jobs_of k w.jobs))
        × (stored k after
            ≡ some (saved_over b (record cancelled { billing_transaction_ids = [] }))))
      ⊎ ((status ≢ 200) × (after.jobs ≡ w.jobs) × (stored k after ≡ some (saved_over b cancelled)))
unfolding over_http
over_http-set_cancelled d env status body m w k b t ts up mb mj hm s e dis =
    let wired = over_http d (λ n. replied status (body n)) env in
    elim (Bool-cases (status == 200)) [
      | inl accepted ↦
          let (jobs, kept, _) =
            set_cancelled-refunds wired m w k b up mb s t ts
              (λ n. rw (is_200 accepted) (refund_error-200 d (body n))) hm mj e dis in
          inl (is_200 accepted, jobs, kept)
      | inr other ↦
          let (jobs, kept) =
            set_cancelled_no_refund wired m w k b up mb s
              (inr (inr (λ n. refund_error-other d status (body n) (not_200 other)))) in
          inr (not_200 other, jobs, kept)
    ]
  where
    is_200 : (status == 200) ≡ true → status ≡ 200
    is_200 h = ground (arith, h)

    not_200 : (status == 200) ≡ false → status ≢ 200
    not_200 h same = ground (arith, h, same)
