-- ===== src/Tests/Settings.antt =====
-- An environment with two variables.
use task_execution_engine.Prelude.{◌≡◌, refl, str_eq, String, arith, if◌then◌else◌}
use task_execution_engine.Prelude.Int.{pos, negsuc}
use task_execution_engine.Decimal.{print, print_before, atoi}
use task_execution_engine.Config.{load, get_env_seconds}
use task_execution_engine.Config.Durations.{get_env_seconds-print}

abbrev env : String → String
env key =
    if str_eq key "WATCHDOG_TIMEOUT_SECONDS"
    then "90"
    else if str_eq key "WORKER_COUNT"
    then "-2"
    else ""

set_and_unset : (load env).watchdog_timeout ≡ pos 90000000000
unfolding load str_eq atoi
set_and_unset = refl

negative : (load env).worker_count ≡ negsuc 1
unfolding load str_eq atoi
negative = refl

get_env_seconds-print_example :
    get_env_seconds env "WATCHDOG_TIMEOUT_SECONDS" (pos 60) ≡ pos 90000000000
unfolding print print_before str_eq
get_env_seconds-print_example =
    get_env_seconds-print env "WATCHDOG_TIMEOUT_SECONDS" (pos 60) 90 refl (omega arith)
