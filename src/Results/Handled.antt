-- ===== src/Results/Handled.antt =====
-- What a result leaves in the store.
use bulk.Base.{
  ℕ, suc, String, ◌≡◌, ◌≢◌, refl, true, List, ◌∷◌, map, none, some, arith, if◌then◌else◌, ◌∙◌,
  str_eq,
}
use bulk.Domain.{Fields, BulkResultEvent, Job, Batch, job_status}
use bulk.World.{World, Env, ok}
use bulk.World.Rows.{JobRow}
use bulk.Postgres.Convert.{job_to_domain}
use bulk.Postgres.Tables.{jobs_of-update_job, update_job, jobs_of}
use bulk.Postgres.Repositories.{update_status_with_result, result_columns}
use bulk.Postgres.RoundTrip.{stored, saved_over}
use bulk.Manager.{BatchManager, on_job_status_change}
use bulk.Manager.Log.{on_job_status_change-jobs}
use bulk.Manager.Progress.{listed, progress_of, on_job_status_change-stored}
use bulk.Results.{ResultHandler, handle_result, store_result, tag_result, notify, result_of}

listed-update_job :
    (k id : String) (f : JobRow → JobRow) (w w' : World) (r : JobRow) (rows : List JobRow)
    → ((x : JobRow) → (f x).batch_id ≡ x.batch_id)
    → w'.jobs ≡ update_job id f w.jobs
    → jobs_of k w.jobs ≡ r ∷ rows
    → (j : Job) × (js : List Job) × (listed k w' ≡ j ∷ js)
unfolding update_job
listed-update_job k id f w w' r rows keeps updated present =
    let r' = if str_eq r.id id then f r else r in
    (
      job_to_domain r',
      map job_to_domain (update_job id f rows),
      ground (arith, updated, present, jobs_of-update_job k id f w.jobs keeps),
    )

module _ (env : Env) (to_json : Fields → String) (h : ResultHandler)
    (up : (n : ℕ) → env.store_fault n ≡ none) where
  store_result-jobs :
      (ev : BulkResultEvent) (w : World)
      → h.job_repo ≡ true
      → let w' = (store_result env to_json h ev w).1 in
        (w'.jobs
          ≡ update_job ev.job_id
              (result_columns (job_status ev.status) (result_of env to_json ev))
              w.jobs)
        × (w'.batches ≡ w.batches)
        × ((store_result env to_json h ev w).0 ≡ ok tt)
  unfolding store_result update_status_with_result
  store_result-jobs ev w hj = ground (arith, up w.calls)

  tag_result-keeps :
      (ev : BulkResultEvent) (w : World)
      → let w' = (tag_result env to_json h ev w).1 in
        (w'.jobs ≡ w.jobs) × (w'.batches ≡ w.batches) × ((tag_result env to_json h ev w).0 ≡ ok tt)
  unfolding tag_result
  tag_result-keeps ev w = ground arith

  -- With a store that answers and a clock that runs, a result of a job of a stored batch updates the
  -- row of its job, with the columns of the result, and leaves every other job alone; and the batch is
  -- stored with the progress that its jobs have after that.
  pub handle_result-stored :
      (m : BatchManager) (ev : BulkResultEvent) (w : World) (b : Batch) (r : JobRow)
      (rows : List JobRow)
      → ((n : ℕ) → env.now n ≢ 0)
      → h.job_repo ≡ true
      → h.notifier ≡ some m
      → m.batch_repo ≡ true
      → m.job_repo ≡ true
      → stored ev.batch_id w ≡ some b
      → jobs_of ev.batch_id w.jobs ≡ r ∷ rows
      → let w' = (handle_result env to_json h ev w).1 in
        (w'.jobs
          ≡ update_job ev.job_id
              (result_columns (job_status ev.status) (result_of env to_json ev))
              w.jobs)
        × (now : ℕ) × (stored ev.batch_id w'
            ≡ some (saved_over b (progress_of b (listed ev.batch_id w') now)))
  unfolding handle_result notify result_columns
  handle_result-stored m ev w b r rows clock hj hm mb mj s present =
      let k = ev.batch_id in
      let w1 = (store_result env to_json h ev w).1 in
      let w2 = (tag_result env to_json h ev w1).1 in
      let w3 = (on_job_status_change env m k w2).1 in
      let (jobs1, batches1, done1) = store_result-jobs ev w hj in
      let (jobs2, batches2, done2) = tag_result-keeps ev w1 in
      let jobs3 = on_job_status_change-jobs env m k w2 in
      let steps : (handle_result env to_json h ev w).1 ≡ w3 = ground (arith, done1, done2) in
      let result = result_columns (job_status ev.status) (result_of env to_json ev) in
      let updated : w2.jobs ≡ update_job ev.job_id result w.jobs = jobs2 ∙ jobs1 in
      let (j, js, some_listed) =
        listed-update_job k ev.job_id result w w2 r rows (λ x. refl) updated present in
      let kept : stored k w2 ≡ some b = rw (batches2, batches1) s in
      let progress =
        on_job_status_change-stored env m w2 k b j js up clock mb mj kept some_listed in
      let after : listed k w3 ≡ j ∷ js = rw jobs3 some_listed in
      rw steps (jobs3 ∙ updated, env.now (suc (suc w2.calls)), rw after progress)
