-- ===== src/Examples/Wired.antt =====
-- The service as it is wired.
use bulk.Base.{String, ◌≡◌, refl, true, [], none, if◌then◌else◌, str_eq}
use bulk.Base.Int.{pos}
use bulk.Domain.{Fields}
use bulk.Config.{Environ, load_config_from_env}
use bulk.Manager.{
  BatchManager, finalize_after_upload, set_processing, set_cancelled, on_job_status_change,
}
use bulk.Manager.Silent.{announced}
use bulk.Wiring.{Outlook, wired_manager, new_deps}
use bulk.Wiring.Silent.{new_deps-announced}
use bulk.Examples.{calm, plain}

-- An environment that names the topic of the status events.
abbrev named_topic : Environ
named_topic = record {
  getenv = λ name. if str_eq name "KAFKA_TOPIC_BULK_STATUS" then "bulk.status" else "";
  atoi = λ s. none;
  parse_duration = λ s. none;
}

abbrev no_text : Fields → String
no_text fields = "{}"

abbrev outlook : Outlook
outlook = record { connects = true; storage_client = true }

abbrev wired : BatchManager
wired = wired_manager named_topic (load_config_from_env named_topic)

new_deps-announced_example :
    (announced (finalize_after_upload calm wired "b" (pos 2) (pos 0) plain).1.log ≡ [])
    × (announced (set_processing calm wired "b" plain).1.log ≡ [])
    × (announced (set_cancelled calm wired "b" plain).1.log ≡ [])
    × (announced (on_job_status_change calm wired "b" plain).1.log ≡ [])
unfolding new_deps load_config_from_env
new_deps-announced_example =
    new_deps-announced calm no_text named_topic outlook _ wired "b" (pos 2) (pos 0) plain refl refl
