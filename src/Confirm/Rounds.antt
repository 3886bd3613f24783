-- ===== src/Confirm/Rounds.antt =====
-- The publishing loop of `ConfirmBatch` where the store answers, whatever Kafka answers.
use bulk.Base.{
  ltb, ◌≤◌, ℕ, suc, ◌+◌, ◌-◌, String, ◌≡◌, refl, Bool, true, false, ◌||◌, List, [], ◌∷◌, ◌++◌, map,
  take, take-nil, length, Option, none, some, arith, sym, ap, ◌∙◌, inl, inr, Bool-cases,
  Option-cases,
}
use mathlib.Core.List.{append_assoc, append-nil}
use bulk.Base.Int.{ℤ, pos, pos_part, ltb_ℤ}
use bulk.Domain.{Job, JobStatus}
use bulk.World.{World, Env, Error, JobEvent, ok, err}
use bulk.World.Rows.{JobRow}
use bulk.Postgres.Tables.{update_job}
use bulk.Postgres.Sweep.{sweep, sweep_idle, update_job-update_job}
use bulk.Postgres.Repositories.{with_status}
use bulk.Manager.Cancel.{refund_requests}
use bulk.Confirm.{
  Service, no_hooks, assign_tx, Progress, store_tx, send_job, mark_queued, publish_job,
  publish_jobs, event_of,
}
use bulk.Confirm.Steps.{
  sent_jobs, push_all, tx_for, stamped, with_assigned, store_tx_up, mark_queued_up,
  assign_tx-tx_for,
}
use bulk.Confirm.Tries.{
  tried_row, try_step, taken, uuids, round_of, one_taken, round_of_lem, push_all-one_taken,
  length-taken, errors_join, queued_join, starting, taken-starting, try_starting,
}

module _ (env : Env) (s : Service) (up : (n : ℕ) → env.store_fault n ≡ none)
    (producer : s.producer ≡ true) where
  send_job_taken :
      (e : JobEvent) (w : World)
      → env.publish_fault w.calls ≡ none
      → let r = send_job env s no_hooks e w in
        (r.0 ≡ ok tt)
        × (r.1.jobs ≡ w.jobs)
        × (r.1.batches ≡ w.batches)
        × (sent_jobs r.1.log ≡ e.job_id ∷ sent_jobs w.log)
        × (refund_requests r.1.log ≡ refund_requests w.log)
  unfolding send_job
  send_job_taken e w fine = ground (arith, fine)

  send_job_refused :
      (e : JobEvent) (w : World) (fault : Error)
      → env.publish_fault w.calls ≡ some fault
      → let r = send_job env s no_hooks e w in
        (r.0 ≡ err fault)
        × (r.1.jobs ≡ w.jobs)
        × (r.1.batches ≡ w.batches)
        × (sent_jobs r.1.log ≡ sent_jobs w.log)
        × (refund_requests r.1.log ≡ refund_requests w.log)
  unfolding send_job
  send_job_refused e w fault fails = ground (arith, fails)

  mark_queued_refused :
      (j : Job) (p : Progress) (fault : Error) (w : World)
      → mark_queued env s no_hooks j p (err fault) w ≡ (ok (record p { publish_error = true }), w)
  unfolding mark_queued
  mark_queued_refused j p fault w = refl

  publish_job-assigned :
      (txs : List String) (count : ℤ) (owner : String × String) (i : ℕ) (p : Progress) (j : Job)
      (w : World)
      → let r = publish_job env s no_hooks txs count owner i p j w in
        let tx = assign_tx txs count i in
        (a : Bool) × ((r.0 ≡ ok (round_of env a tx p))
          × (r.1.jobs ≡ update_job j.id (tried_row env a tx) w.jobs)
          × (r.1.batches ≡ w.batches)
          × (sent_jobs r.1.log ≡ one_taken a j.id (sent_jobs w.log))
          × (refund_requests r.1.log ≡ refund_requests w.log))
  unfolding publish_job
  publish_job-assigned txs count (user, revision) i p j w =
      let tx = assign_tx txs count i in
      let a = store_tx env s no_hooks j tx p w in
      let e = event_of user revision j tx in
      let c = send_job env s no_hooks e a.1 in
      elim (Option-cases (env.publish_fault a.1.calls)) [
        | inl fine ↦ (
          true,
          ground (
            arith,
            store_tx_up env s up j tx p w,
            send_job_taken e a.1 fine,
            mark_queued_up env s up j (with_assigned env tx p) c.1,
            update_job-update_job j.id (with_status JobStatus.queued) (stamped env tx) w.jobs
                (stamped-id tx),
          ),
        )
        | inr (fault, fails) ↦ (
          false,
          ground (
            arith,
            store_tx_up env s up j tx p w,
            send_job_refused e a.1 fault fails,
            mark_queued_refused j (with_assigned env tx p) fault c.1,
          ),
        )
      ]
    where
      stamped-id : (tx : Option String) (r : JobRow) → (stamped env tx r).id ≡ r.id
      stamped-id none r = refl
      stamped-id (some t) r = ground arith

  publish_job_round :
      (txs : List String) (count : ℤ) (owner : String × String) (i : ℕ) (p : Progress) (j : Job)
      (w : World)
      → let r = publish_job env s no_hooks txs count owner i p j w in
        let tx = tx_for txs i in
        (a : Bool) × ((r.0 ≡ ok (round_of env a tx p))
          × (r.1.jobs ≡ update_job j.id (tried_row env a tx) w.jobs)
          × (r.1.batches ≡ w.batches)
          × (sent_jobs r.1.log ≡ one_taken a j.id (sent_jobs w.log))
          × (refund_requests r.1.log ≡ refund_requests w.log))
  publish_job_round txs count owner i p j w =
      rw (sym (assign_tx-tx_for txs count i)) (publish_job-assigned txs count owner i p j w)

  stays_past :
      (i j : ℕ) (count : ℤ) → ltb_ℤ (pos i) count ≡ false → i ≤ j → ltb_ℤ (pos j) count ≡ false
  stays_past i j count h le = ground arith

  steps :
      (i : ℕ) (count : ℤ)
      → ltb_ℤ (pos i) count ≡ true
      → pos_part count - i ≡ suc (pos_part count - suc i)
  steps i count h = ground arith

  none_left : (i : ℕ) (count : ℤ) → ltb_ℤ (pos i) count ≡ false → pos_part count - i ≡ 0
  none_left i count h = ground arith

  publish_jobs_past :
      (txs : List String) (count : ℤ) (owner : String × String) (j : Job) (js : List Job) (i : ℕ)
      (p : Progress) (w : World)
      → ltb_ℤ (pos i) count ≡ false
      → publish_jobs env s no_hooks txs count owner i p (j ∷ js) w ≡ (ok p, w)
  unfolding publish_jobs
  publish_jobs_past txs count owner j js i p w past = rw past refl

  publish_jobs_step :
      (txs : List String) (count : ℤ) (owner : String × String) (j : Job) (js : List Job) (i : ℕ)
      (p p' : Progress) (w : World)
      → ltb_ℤ (pos i) count ≡ true
      → (publish_job env s no_hooks txs count owner i p j w).0 ≡ ok p'
      → publish_jobs env s no_hooks txs count owner i p (j ∷ js) w
        ≡ publish_jobs env s no_hooks txs count owner
            (suc i)
            p'
            js
            (publish_job env s no_hooks txs count owner i p j w).1
  unfolding publish_jobs
  publish_jobs_step txs count owner j js i p p' w more done = rw more (ground (arith, done))

  -- The loop ends, whatever Kafka answers to each of the rows.
  pub publish_jobs_rounds :
      (txs : List String) (count : ℤ) (owner : String × String) (js : List Job) (i : ℕ)
      (p : Progress) (w : World)
      → let r = publish_jobs env s no_hooks txs count owner i p js w in
        let ks = map (λ j. j.id) js in
        let due = take (pos_part count - i) ks in
        (took : ℕ → Bool) × (q : Progress) × ((r.0 ≡ ok q)
          × (r.1.jobs ≡ sweep (try_step env took txs count) i ks w.jobs)
          × (r.1.batches ≡ w.batches)
          × (sent_jobs r.1.log ≡ push_all (taken took i due) (sent_jobs w.log))
          × (refund_requests r.1.log ≡ refund_requests w.log)
          × (q.queued ≡ p.queued + length (taken took i due))
          × (q.publish_error ≡ p.publish_error || ltb (length (taken took i due)) (length due))
          × (q.assigned ≡ p.assigned ++ uuids env txs i due))
  unfolding publish_jobs
  publish_jobs_rounds txs count owner [] i p w = (
    (λ j. true),
    p,
    (
      refl,
      refl,
      refl,
      rw take-nil refl,
      refl,
      rw take-nil (omega arith),
      rw take-nil (ground arith),
      rw take-nil (sym (append-nil p.assigned)),
    ),
  )
  publish_jobs_rounds txs count owner (j ∷ js) i p w = elim (Bool-cases (ltb_ℤ (pos i) count)) [
    | inl more ↦
        let (a, done) = publish_job_round txs count owner i p j w in
        let v = (publish_job env s no_hooks txs count owner i p j w).1 in
        let (took, q, rest) =
          publish_jobs_rounds txs count owner js (suc i) (round_of env a (tx_for txs i) p) v in
        let tx = tx_for txs i in
        let ks = map (λ x. x.id) js in
        let due = take (pos_part count - suc i) ks in
        let (queued, failed, assigned) = round_of_lem env a tx p in
        (
          starting i a took,
          q,
          rw
              (
                publish_jobs_step txs count owner j js i p (round_of env a tx p) w more done.0,
                steps i count more,
              )
              (
                rest.0,
                rest.1
                    ∙ ap (sweep (try_step env took txs count) (suc i) ks) done.1
                    ∙ sym (try_starting env i a took txs count j.id ks w.jobs more),
                rest.2 ∙ done.2,
                rest.3
                    ∙ ap (push_all (taken took (suc i) due)) done.3
                    ∙ sym (push_all-one_taken a j.id (taken took (suc i) due) (sent_jobs w.log))
                    ∙ ap (λ t. push_all t (sent_jobs w.log))
                        (sym (taken-starting i a took j.id due)),
                rest.4 ∙ done.4,
                rest.5
                    ∙ ap (λ n. n + length (taken took (suc i) due)) queued
                    ∙ queued_join p.queued a j.id (taken took (suc i) due)
                    ∙ ap (λ t. p.queued + length t) (sym (taken-starting i a took j.id due)),
                rest.6
                    ∙ ap (λ e. e || ltb (length (taken took (suc i) due)) (length due)) failed
                    ∙ errors_join p.publish_error a j.id (taken took (suc i) due) due
                        (length-taken took (suc i) due)
                    ∙ ap (λ t. p.publish_error || ltb (length t) (suc (length due)))
                        (sym (taken-starting i a took j.id due)),
                rest.7
                    ∙ ap (λ t. t ++ uuids env txs (suc i) due) assigned
                    ∙ append_assoc p.assigned _ _,
              ),
        )
    | inr past ↦ (
      (λ j. true),
      p,
      rw (publish_jobs_past txs count owner j js i p w past, none_left i count past)
          (
            refl,
            sym (
                sweep_idle (try_step env (λ j. true) txs count) i (map (λ x. x.id) (j ∷ js)) w.jobs
                  (λ x le r. rw (stays_past i x count past le) refl)),
            refl,
            refl,
            refl,
            omega arith,
            ground arith,
            sym (append-nil p.assigned),
          ),
    )
  ]
