-- ===== src/Handlers/Told.antt =====
-- The handlers' calls of `SetProcessing`, whose errors they do not look at.
use bulk.Base.{◌≡◌, refl, String, none, some, inl, inr, Option-cases}
use bulk.World.{World, Env, Result, ok}
use bulk.Manager.{set_processing}
use bulk.Manager.Processing.{set_processing-jobs}
use bulk.Confirm.Steps.{sent_jobs}
use bulk.Handlers.Reply.{Run, answer, Deps}

module _ (env : Env) (d : Deps) where
  -- `if deps.BatchManager != nil { _ = deps.BatchManager.SetProcessing(…) }`
  unfoldable pub tell_manager : String → Run (Result (Unit {0}))
  tell_manager k = elim d.batch_manager [ none ↦ answer (ok tt) | some m ↦ set_processing env m k ]

  -- Whatever fails, the jobs and the published jobs stay as they were.
  pub tell_manager-jobs :
      (k : String) (w : World)
      → ((tell_manager k w).1.jobs ≡ w.jobs)
        × (sent_jobs (tell_manager k w).1.log ≡ sent_jobs w.log)
  unfolding tell_manager
  tell_manager-jobs k w = elim (Option-cases d.batch_manager) [
    | inl unset ↦ rw unset (refl, refl)
    | inr (m, set) ↦ rw set (set_processing-jobs env m k w)
  ]
