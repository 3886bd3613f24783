-- ===== src/Postgres/Marked.antt =====
-- A loop that gives one status to those jobs of a list that pass a test, as it acts on the table.
use bulk.Base.{
  ◌≢◌, String, ◌≡◌, refl, Bool, List, [], ◌∷◌, map, arith, if◌then◌else◌, eq_iff, All, ap, ◌∙◌,
}
use bulk.Domain.{Job, JobStatus}
use bulk.World.Rows.{JobRow}
use bulk.Postgres.Convert.{job_to_domain}
use bulk.Postgres.Tables.{jobs_of, update_job, jobs_of-update_job}
use bulk.Postgres.Repositories.{with_status}
use bulk.Postgres.Sweep.{Distinct, update_job_other}

module _ (passes : JobStatus → Bool) (status : JobStatus) where
  -- A row after the loop.
  abbrev pub marked : JobRow → JobRow
  marked r = if passes r.status then with_status status r else r

  abbrev pub mark_rows : List Job → List JobRow → List JobRow
  mark_rows [] rows = rows
  mark_rows (j ∷ js) rows =
      mark_rows js (if passes j.status then update_job j.id (with_status status) rows else rows)

  pub jobs_of-mark_rows :
      (k : String) (js : List Job) (rows : List JobRow)
      → jobs_of k (mark_rows js rows) ≡ mark_rows js (jobs_of k rows)
  jobs_of-mark_rows k [] rows = refl
  jobs_of-mark_rows k (j ∷ js) rows =
      jobs_of-mark_rows k js _
      ∙ ap (mark_rows js)
          (ground (arith, jobs_of-update_job k j.id (with_status status) rows (λ r. refl)))

  -- The loop passes over a row whose key is not listed.
  mark_rows_other :
      (rows : List JobRow) (r : JobRow) (rest : List JobRow)
      → All (λ x. x.id ≢ r.id) rows
      → mark_rows (map job_to_domain rows) (r ∷ rest) ≡ r ∷ mark_rows (map job_to_domain rows) rest
  unfolding update_job job_to_domain
  mark_rows_other [] r rest h = refl
  mark_rows_other (x ∷ rows) r rest h = ground (
    arith,
    eq_iff r.id x.id,
    mark_rows_other rows r rest h.1,
    mark_rows_other rows r (update_job x.id (with_status status) rest) h.1,
  )

  -- On rows with distinct keys the loop over their jobs marks each of them by its own status.
  pub mark_rows-marked :
      (rows : List JobRow)
      → Distinct rows
      → mark_rows (map job_to_domain rows) rows ≡ map marked rows
  unfolding update_job job_to_domain
  mark_rows-marked [] d = refl
  mark_rows-marked (r ∷ rows) d = ground (
    arith,
    eq_iff r.id r.id,
    update_job_other r.id (with_status status) rows d.0,
    mark_rows_other rows r rows d.0,
    mark_rows_other rows (with_status status r) rows d.0,
    mark_rows-marked rows d.1,
  )
