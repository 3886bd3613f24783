-- ===== src/Confirm/Steps.antt =====
-- One round of the publishing loop of `ConfirmBatch` where the store and Kafka answer.
use bulk.Base.{
  ◌≤◌, ℕ, zero, suc, get_elem?, ◌+◌, String, ◌≡◌, refl, Bool, true, false, List, [], ◌∷◌, ◌++◌,
  length, Option, none, some, arith, sym, inl, inr, Bool-cases, if◌then◌else◌,
}
use mathlib.Core.Path.{fun_ext}
use bulk.Base.Int.{ℤ, pos, ltb_ℤ}
use bulk.Domain.{Batch, Job, JobStatus}
use bulk.World.{World, Env, Event, published, job_event, JobEvent, Result, no_rows, ok, err}
use bulk.World.Rows.{JobRow}
use bulk.Postgres.Tables.{update_job}
use bulk.Postgres.Calls.{update_status_up, update_billing_transaction_id_up}
use bulk.Postgres.Repositories.{get_batch, with_status, with_transaction}
use bulk.Postgres.Sweep.{update_job-update_job, update_job_same}
use bulk.Confirm.{
  Service, no_hooks, assign_tx, Progress, store_tx, send_job, mark_queued, publish_job, event_of,
  Hooks, read_batch,
}

-- The job ids of the published events of the topic bulk.job, the newest first.
abbrev pub sent_jobs : List Event → List String
sent_jobs [] = []
sent_jobs (published topic (job_event e) ∷ log) = e.job_id ∷ sent_jobs log
sent_jobs (_ ∷ log) = sent_jobs log

-- The texts put in front of a list, one after another.
abbrev pub push_all : List String → List String → List String
push_all [] acc = acc
push_all (x ∷ xs) acc = push_all xs (x ∷ acc)

-- What a result of the loop says, if it is one.
abbrev pub queued_of : Result Progress → Option ℕ
queued_of (ok p) = some p.queued
queued_of (err e) = none

abbrev pub failed_of : Result Progress → Option Bool
failed_of (ok p) = some p.publish_error
failed_of (err e) = none

-- The transaction for row number i: the only one, or the one with the row's index, if there is one.
abbrev pub tx_for : List String → ℕ → Option String
tx_for (t ∷ []) i = some t
tx_for txs i = get_elem? txs i

get_elem?_past : (txs : List String) (i : ℕ) → length txs ≤ i → get_elem? txs i ≡ none
get_elem?_past [] i h = refl
get_elem?_past (t ∷ ts) zero h = ground arith
get_elem?_past (t ∷ ts) (suc i) h = get_elem?_past ts i (omega arith)

pub assign_tx-tx_for :
    (txs : List String) (count : ℤ) (i : ℕ) → assign_tx txs count i ≡ tx_for txs i
unfolding assign_tx
assign_tx-tx_for [] count i = refl
assign_tx-tx_for (t ∷ []) count i = refl
assign_tx-tx_for (t ∷ u ∷ ts) count i = ground (arith, get_elem?_past (t ∷ u ∷ ts) i)

-- A row with the transaction that was assigned to it, if that is a UUID.
abbrev pub stamped : Env → Option String → JobRow → JobRow
stamped env none r = r
stamped env (some t) r = if env.is_uuid t then with_transaction (some t) r else r

-- A row whose job has been published.
abbrev pub queued_row : Env → Option String → JobRow → JobRow
queued_row env tx r = with_status JobStatus.queued (stamped env tx r)

-- What the loop does to row number i.
abbrev pub queue_step : Env → List String → ℤ → ℕ → JobRow → JobRow
queue_step env txs count i r = if ltb_ℤ (pos i) count then queued_row env (tx_for txs i) r else r

-- The variables after the transaction has been stored.
abbrev pub with_assigned : Env → Option String → Progress → Progress
with_assigned env none p = p
with_assigned env (some t) p =
    if env.is_uuid t then record p { assigned = p.assigned ++ t ∷ [] } else p

-- Reading the batch leaves the tables and the log alone.
pub read_batch_lem :
    (env : Env) (s : Service) (hooks : Hooks) (k : String) (w : World)
    → (found : Result Batch) × (v : World) × (read_batch env s hooks k w ≡ (ok found, v))
      × (v.jobs ≡ w.jobs)
      × (v.batches ≡ w.batches)
      × (v.log ≡ w.log)
unfolding read_batch get_batch
read_batch_lem env s hooks k w = elim (Bool-cases s.batch_repo) [
  | inl set ↦ (
    (get_batch env k w).0,
    (get_batch env k w).1,
    ground arith,
    ground arith,
    ground arith,
    ground arith,
  )
  | inr unset ↦ (err no_rows, w, ground arith, refl, refl, refl)
]

module _ (env : Env) (s : Service) (up : (n : ℕ) → env.store_fault n ≡ none) where
  pub store_tx_up :
      (j : Job) (tx : Option String) (p : Progress) (w : World)
      → let r = store_tx env s no_hooks j tx p w in
        (r.0 ≡ ok (with_assigned env tx p))
        × (r.1.jobs ≡ update_job j.id (stamped env tx) w.jobs)
        × (r.1.batches ≡ w.batches)
        × (r.1.log ≡ w.log)
  unfolding store_tx
  store_tx_up j none p w = (refl, sym (update_job_same j.id _ w.jobs (λ r. refl)), refl, refl)
  store_tx_up j (some t) p w = elim (Bool-cases (env.is_uuid t)) [
    | inl valid ↦ ground (
      arith,
      update_billing_transaction_id_up env w (up _) j.id (some t),
      fun_ext (stamped_valid t valid),
    )
    | inr invalid ↦
        ground
          (arith, update_job_same j.id (stamped env (some t)) w.jobs (stamped_invalid t invalid))
  ]
    where
      stamped_valid :
          (t : String)
          → env.is_uuid t ≡ true
          → (r : JobRow) → stamped env (some t) r ≡ with_transaction (some t) r
      stamped_valid t e r = rw e

      stamped_invalid :
          (t : String) → env.is_uuid t ≡ false → (r : JobRow) → stamped env (some t) r ≡ r
      stamped_invalid t e r = rw e

  pub mark_queued_up :
      (j : Job) (p : Progress) (w : World)
      → let r = mark_queued env s no_hooks j p (ok tt) w in
        (r.0 ≡ ok (record p { queued = p.queued + 1 }))
        × (r.1.jobs ≡ update_job j.id (with_status JobStatus.queued) w.jobs)
        × (r.1.batches ≡ w.batches)
        × (r.1.log ≡ w.log)
  unfolding mark_queued
  mark_queued_up j p w = ground (arith, update_status_up env w (up _) j.id JobStatus.queued)

module _ (env : Env) (s : Service) (up : (n : ℕ) → env.store_fault n ≡ none)
    (sends : (n : ℕ) → env.publish_fault n ≡ none) (producer : s.producer ≡ true) where
  send_job_up :
      (e : JobEvent) (w : World)
      → let r = send_job env s no_hooks e w in
        (r.0 ≡ ok tt)
        × (r.1.jobs ≡ w.jobs)
        × (r.1.batches ≡ w.batches)
        × (sent_jobs r.1.log ≡ e.job_id ∷ sent_jobs w.log)
  unfolding send_job
  send_job_up e w = ground (arith, sends w.calls)

  publish_job-assigned :
      (txs : List String) (count : ℤ) (owner : String × String) (i : ℕ) (p : Progress) (j : Job)
      (w : World)
      → let r = publish_job env s no_hooks txs count owner i p j w in
        let tx = assign_tx txs count i in
        (r.0 ≡ ok (record (with_assigned env tx p) { queued = p.queued + 1 }))
        × (r.1.jobs ≡ update_job j.id (queued_row env tx) w.jobs)
        × (r.1.batches ≡ w.batches)
        × (sent_jobs r.1.log ≡ j.id ∷ sent_jobs w.log)
  unfolding publish_job
  publish_job-assigned txs count (user, revision) i p j w =
      let tx = assign_tx txs count i in
      let a = store_tx env s no_hooks j tx p w in
      let e = event_of user revision j tx in
      let c = send_job env s no_hooks e a.1 in
      ground (
        arith,
        store_tx_up env s up j tx p w,
        send_job_up e a.1,
        mark_queued_up env s up j (with_assigned env tx p) c.1,
        update_job-update_job j.id (with_status JobStatus.queued) (stamped env tx) w.jobs
            (stamped-id tx),
      )
    where
      stamped-id : (tx : Option String) (r : JobRow) → (stamped env tx r).id ≡ r.id
      stamped-id none r = refl
      stamped-id (some t) r = ground arith

  pub publish_job_up :
      (txs : List String) (count : ℤ) (owner : String × String) (i : ℕ) (p : Progress) (j : Job)
      (w : World)
      → let r = publish_job env s no_hooks txs count owner i p j w in
        let tx = tx_for txs i in
        (r.0 ≡ ok (record (with_assigned env tx p) { queued = p.queued + 1 }))
        × (r.1.jobs ≡ update_job j.id (queued_row env tx) w.jobs)
        × (r.1.batches ≡ w.batches)
        × (sent_jobs r.1.log ≡ j.id ∷ sent_jobs w.log)
  publish_job_up txs count owner i p j w =
      rw (sym (assign_tx-tx_for txs count i)) (publish_job-assigned txs count owner i p j w)
