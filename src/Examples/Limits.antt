-- ===== src/Examples/Limits.antt =====
-- A service whose environment allows 2000 rows in a batch, and files of 20 megabytes.
use bulk.Base.{◌≡◌, refl, none, some, if◌then◌else◌, str_eq}
use bulk.Base.Int.{pos}
use bulk.Config.{Environ}
use bulk.Handlers.Limits.Start.{bytes_of, limits_at_start, load_config_from_env-limits}

abbrev environ : Environ
environ = record {
  getenv = λ name.
      if str_eq name "MAX_ROWS_PER_BATCH"
      then "2000"
      else if str_eq name "MAX_FILE_SIZE_MB"
      then "20"
      else "";
  atoi = λ s.
      if str_eq s "20" then some (pos 20) else if str_eq s "2000" then some (pos 2000) else none;
  parse_duration = λ s. none;
}

load_config_from_env-limits_example : limits_at_start environ ≡ record {
  max_file_size = bytes_of (pos 20);
  max_rows_per_batch = pos 1000;
  max_concurrent_batches = pos 5;
  max_batches_per_hour = pos 10;
}
load_config_from_env-limits_example = load_config_from_env-limits environ refl
