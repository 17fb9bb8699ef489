-- ===== src/Config.antt =====
-- backend/config/config.go: the settings from the environment. os.Getenv is a function, empty for a
-- variable that is not set; a time.Duration is a number of nanoseconds in an int64.
pub mod Durations
use task_execution_engine.Prelude.{
  ℕ, suc, ◌+◌, ◌-◌, ◌*◌, ◌%◌, ◌^◌, ltb, str_eq, String, Option, none, some, if◌then◌else◌,
}
use task_execution_engine.Prelude.Int.{ℤ, pos, negsuc}
use task_execution_engine.Decimal.{atoi}

pub record Config : Type 0 where
  pub port : String
  pub instance_id : String
  pub db_host : String
  pub db_port : String
  pub db_user : String
  pub db_password : String
  pub db_name : String
  pub redis_addr : String
  pub redis_password : String
  pub worker_count : ℤ
  pub scheduler_quantum : ℤ
  pub watchdog_interval : ℤ
  pub watchdog_timeout : ℤ
  pub rate_limit_max : ℤ
  pub rate_limit_window : ℤ

-- The int64 of 64 bits.
unfoldable pub signed : ℕ → ℤ
signed bits = if ltb bits (2 ^ 63) then pos bits else negsuc (2 ^ 64 - bits - 1)

-- time.Duration(n) * time.Second
unfoldable pub seconds : ℤ → ℤ
unfolding signed
seconds (pos n) = signed ((n * 1000000000) % 2 ^ 64)
seconds (negsuc n) = signed ((2 ^ 64 - (suc n * 1000000000) % 2 ^ 64) % 2 ^ 64)

unfoldable pub or_fallback : Option ℤ → ℤ → ℤ
or_fallback none fallback = fallback
or_fallback (some n) fallback = n

module _ (env : String → String) where
  unfoldable pub get_env : String → String → String
  get_env key fallback = if str_eq (env key) "" then fallback else env key

  unfoldable pub get_env_int : String → ℤ → ℤ
  unfolding or_fallback
  get_env_int key fallback =
      if str_eq (env key) "" then fallback else or_fallback (atoi (env key)) fallback

  unfoldable pub get_env_seconds : String → ℤ → ℤ
  unfolding seconds get_env_int
  get_env_seconds key fallback_seconds = seconds (get_env_int key fallback_seconds)

  unfoldable pub load : Config
  unfolding get_env get_env_int get_env_seconds
  load = record {
    port = get_env "PORT" "8080";
    instance_id = get_env "INSTANCE_ID" "backend-1";
    db_host = get_env "DB_HOST" "localhost";
    db_port = get_env "DB_PORT" "3306";
    db_user = get_env "DB_USER" "root";
    db_password = get_env "DB_PASSWORD" "";
    db_name = get_env "DB_NAME" "task_engine";
    redis_addr = get_env "REDIS_ADDR" "localhost:6379";
    redis_password = get_env "REDIS_PASSWORD" "";
    worker_count = get_env_int "WORKER_COUNT" (pos 4);
    scheduler_quantum = get_env_int "SCHEDULER_QUANTUM" (pos 2);
    watchdog_interval = get_env_seconds "WATCHDOG_INTERVAL_SECONDS" (pos 15);
    watchdog_timeout = get_env_seconds "WATCHDOG_TIMEOUT_SECONDS" (pos 60);
    rate_limit_max = get_env_int "RATE_LIMIT_MAX" (pos 50);
    rate_limit_window = get_env_seconds "RATE_LIMIT_WINDOW_SECONDS" (pos 60);
  }
