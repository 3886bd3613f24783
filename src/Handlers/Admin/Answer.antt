-- ===== src/Handlers/Admin/Answer.antt =====
-- The jobs that an administrator is shown.
use bulk.Base.{
  ℕ, suc, String, ◌≡◌, ◌≢◌, refl, List, [], ◌∷◌, map, none, some, true, arith, if◌then◌else◌,
  str_eq, eq_iff, All, lookup, insert, lookup-insert,
}
use bulk.Domain.{Batch}
use bulk.World.{World, Env}
use bulk.World.Rows.{JobRow}
use bulk.Postgres.Tables.{jobs_of}
use bulk.Postgres.Convert.{job_to_domain, to_port, text_or_empty}
use bulk.Postgres.Calls.{ticked, get_jobs_up}
use bulk.Postgres.RoundTrip.{stored, get_batch-stored}
use bulk.Postgres.Repositories.{get_results}
use bulk.Postgres.Sweep.{Distinct}
use bulk.Handlers.Reply.{reply, Deps, GoText, require_batch}
use bulk.Handlers.Admin.{JobItem, builds, job_item, details_of, job_items, handle_admin_get_batch}

-- A row as it should be shown: with its own build.
abbrev pub shown_row : JobRow → JobItem
shown_row r = record {
  id = r.id;
  status = r.status;
  build_id = text_or_empty r.build_id;
  row_number = r.row_number;
}

builds_other :
    (k : String) (m : List (String × String)) (rows : List JobRow)
    → All (λ x. x.id ≢ k) rows
    → lookup k (builds m (map to_port rows)) ≡ lookup k m
unfolding builds to_port
builds_other k m [] h = refl
builds_other k m (r ∷ rows) h = ground (
  arith,
  eq_iff r.id k,
  lookup-insert r.id k (text_or_empty r.build_id) m,
  builds_other k m rows h.1,
  builds_other k (insert r.id (text_or_empty r.build_id) m) rows h.1,
)

builds-own :
    (m : List (String × String)) (rows : List JobRow)
    → Distinct rows
    → All (λ r. r.id ≢ "") rows
    → All (λ r. lookup r.id (builds m (map to_port rows)) ≡ some (text_or_empty r.build_id)) rows
unfolding builds to_port
builds-own m [] d h = tt
builds-own m (r ∷ rows) d h =
    let b = text_or_empty r.build_id in
    (
      ground (
        arith,
        eq_iff r.id "",
        h.0,
        eq_iff r.id r.id,
        lookup-insert r.id r.id b m,
        builds_other r.id (insert r.id b m) rows d.0,
      ),
      builds-own (if str_eq r.id "" then m else insert r.id b m) rows d.1 h.1,
    )

map-shown :
    (m : List (String × String)) (rows : List JobRow)
    → All (λ r. lookup r.id m ≡ some (text_or_empty r.build_id)) rows
    → map (job_item m) (map job_to_domain rows) ≡ map shown_row rows
unfolding job_item job_to_domain
map-shown m [] h = refl
map-shown m (r ∷ rows) h = ground (arith, h.0, map-shown m rows h.1)

-- With a store that answers, the details of a stored batch, whose jobs have ids of their own, show
-- each of its jobs in their order, with the build that is stored for that job.
pub handle_admin_get_batch-shown_row :
    (env : Env) (go : GoText) (d : Deps) (w : World) (k : String) (b : Batch)
    → ((n : ℕ) → env.store_fault n ≡ none)
    → d.batch_repo ≡ true
    → d.job_repo ≡ true
    → stored k w ≡ some b
    → Distinct (jobs_of k w.jobs)
    → All (λ r. r.id ≢ "") (jobs_of k w.jobs)
    → (handle_admin_get_batch env go (some d) k w).0
      ≡ reply 200 (details_of go b (map shown_row (jobs_of k w.jobs)))
unfolding handle_admin_get_batch require_batch job_items get_results
handle_admin_get_batch-shown_row env go d w k b up hb hj s dis named =
    let rows = jobs_of k w.jobs in
    ground (
      arith,
      get_batch-stored env w k b (up _) s,
      get_jobs_up env (ticked w) (up _) k,
      up (suc (suc w.calls)),
      map-shown (builds [] (map to_port rows)) rows (builds-own [] rows dis named),
    )
