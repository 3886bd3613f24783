-- ===== src/Wiring/Silent.antt =====
-- What the service is made of when its configuration comes from the environment.
use bulk.Base.{String, ◌≡◌, some, arith}
use bulk.Base.Int.{ℤ}
use bulk.Domain.{Fields}
use bulk.World.{World, Env}
use bulk.Config.{Environ, load_config_from_env}
use bulk.Manager.{
  BatchManager, finalize_after_upload, set_processing, set_cancelled, on_job_status_change,
}
use bulk.Manager.Silent.{
  announced, finalize_after_upload-announced, set_processing-announced, set_cancelled-announced,
  on_job_status_change-announced,
}
use bulk.Wiring.{Outlook, Parts, wired_manager, new_deps}

new_deps-manager :
    (env : Env) (to_json : Fields → String) (e : Environ) (o : Outlook) (p : Parts)
    (m : BatchManager)
    → new_deps env to_json e o (load_config_from_env e) ≡ some p
    → p.deps.batch_manager ≡ some m
    → m.bulk_status_topic ≡ ""
unfolding new_deps wired_manager load_config_from_env
new_deps-manager env to_json e o p m made given = ground arith

-- A service that is made from its environment announces no status: whatever the environment says and
-- whatever fails, no method of its manager publishes an event of the topic bulk.status.
pub new_deps-announced :
    (env : Env) (to_json : Fields → String) (e : Environ) (o : Outlook) (p : Parts)
    (m : BatchManager) (k : String) (valid invalid : ℤ) (w : World)
    → new_deps env to_json e o (load_config_from_env e) ≡ some p
    → p.deps.batch_manager ≡ some m
    → (announced (finalize_after_upload env m k valid invalid w).1.log ≡ announced w.log)
      × (announced (set_processing env m k w).1.log ≡ announced w.log)
      × (announced (set_cancelled env m k w).1.log ≡ announced w.log)
      × (announced (on_job_status_change env m k w).1.log ≡ announced w.log)
new_deps-announced env to_json e o p m k valid invalid w made given =
    let silent = new_deps-manager env to_json e o p m made given in
    (
      finalize_after_upload-announced env m silent k valid invalid w,
      set_processing-announced env m silent k w,
      set_cancelled-announced env m silent k w,
      on_job_status_change-announced env m silent k w,
    )
