-- ===== src/Handlers/Limits/Start.antt =====
-- The limits with which the service starts.
use bulk.Base.{
  String, ◌≡◌, sym, refl, none, some, arith, if◌then◌else◌, eq_iff, Option-cases, inl, inr,
}
use bulk.Base.Int.{ℤ, pos, ltb_ℤ, ◌*ℤ◌, wrap_64}
use bulk.Config.{Environ, load_config_from_env}
use bulk.Handlers.Limits.{
  Limits, initial_limits, update_if_positive, config_limits, set_default_limits_from_config,
}

-- The number above 0 that a variable of the environment is set to, or the default.
abbrev pub set_to : Environ → String → ℤ → ℤ
set_to e name default = elim (e.atoi (e.getenv name)) [
  | none ↦ default
  | some n ↦ if ltb_ℤ (pos 0) n then n else default
]

-- The bytes of so many megabytes, as a word of 64 bits has them, if that is above 0, and 10 megabytes
-- otherwise.
abbrev pub bytes_of : ℤ → ℤ
bytes_of megabytes =
    let bytes = wrap_64 (megabytes *ℤ pos 1048576) in
    if ltb_ℤ (pos 0) bytes then bytes else pos 10485760

abbrev pub limits_at_start : Environ → Limits
limits_at_start e = set_default_limits_from_config (some (load_config_from_env e)) initial_limits

start_file_size :
    (e : Environ)
    → e.atoi "" ≡ none
    → (limits_at_start e).max_file_size ≡ bytes_of (set_to e "MAX_FILE_SIZE_MB" (pos 10))
unfolding set_default_limits_from_config load_config_from_env update_if_positive config_limits ◌*ℤ◌
    wrap_64
start_file_size e empty =
    let size : String = "MAX_FILE_SIZE_MB" in
    elim (Option-cases (e.atoi (e.getenv size))) [
      | inl none_set ↦ ground (arith, none_set)
      | inr (n, size_set) ↦ ground (arith, size_set, empty, eq_iff (e.getenv size) "")
    ]

start_per_hour :
    (e : Environ)
    → e.atoi "" ≡ none
    → (limits_at_start e).max_batches_per_hour ≡ set_to e "MAX_BATCHES_PER_HOUR" (pos 10)
unfolding set_default_limits_from_config load_config_from_env update_if_positive config_limits
start_per_hour e empty =
    let hour : String = "MAX_BATCHES_PER_HOUR" in
    elim (Option-cases (e.atoi (e.getenv hour))) [
      | inl none_set ↦ ground (arith, none_set)
      | inr (n, hour_set) ↦ ground (arith, hour_set, empty, eq_iff (e.getenv hour) "")
    ]

-- The service starts with the file size, in megabytes, and the batches of an hour that its environment
-- sets, if they are above 0, and with 10 and 10 otherwise; but with 1000 rows and 5 concurrent batches,
-- whatever the environment says. Where the bytes of a file size, as a word of 64 bits has them, are not
-- above 0, the file size is 10 megabytes too. It is asked that the empty text is no number.
pub load_config_from_env-limits :
    (e : Environ)
    → e.atoi "" ≡ none
    → limits_at_start e ≡ record {
      max_file_size = bytes_of (set_to e "MAX_FILE_SIZE_MB" (pos 10));
      max_rows_per_batch = pos 1000;
      max_concurrent_batches = pos 5;
      max_batches_per_hour = set_to e "MAX_BATCHES_PER_HOUR" (pos 10);
    }
unfolding set_default_limits_from_config load_config_from_env update_if_positive config_limits
load_config_from_env-limits e empty =
    rw (sym (start_file_size e empty), sym (start_per_hour e empty)) refl
