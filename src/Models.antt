-- ===== src/Models.antt =====
-- The stored records of backend/models (task.go, dead_letter.go, api_key.go). A time is a number of
-- the database's clock units, a payload is a text (in a row, the one that the JSON column holds), and
-- NULL is `none`. The counters retry_count and max_retries are `int` columns that are never negative:
-- the request binding has min=0, and the code only adds 1 to a counter that lies below another.
use task_execution_engine.Prelude.{
  ℕ, ◌==◌, ◌≡◌, ◌↔◌, Bool, true, false, String, Option, List, if◌then◌else◌, arith,
}

-- The ENUM of the status column.
pub data Status : Type 0 where
  pending running completed failed cancelled : Status

pub Status-discrete : Discrete Status
Status-discrete = hlevel

abbrev pub status_eq : Status → Status → Bool
status_eq pending pending = true
status_eq running running = true
status_eq completed completed = true
status_eq failed failed = true
status_eq cancelled cancelled = true
status_eq _ _ = false

pub status_eq_iff : (s t : Status) → (status_eq s t ≡ true) ↔ (s ≡ t)
status_eq_iff s t = ground arith

-- The text that the column and the JSON body show.
unfoldable pub status_name : Status → String
status_name pending = "pending"
status_name running = "running"
status_name completed = "completed"
status_name failed = "failed"
status_name cancelled = "cancelled"

pub record Task : Type 0 where
  pub id : ℕ
  pub client_id : String
  pub task_type : String
  pub priority : ℕ
  pub payload : String
  pub status : Status
  pub retry_count : ℕ
  pub max_retries : ℕ
  pub error_message : Option String
  pub processed_by : Option String
  pub created_at : ℕ
  pub started_at : Option ℕ
  pub completed_at : Option ℕ

pub record DeadLetterTask : Type 0 where
  pub id : ℕ
  pub original_task_id : ℕ
  pub client_id : String
  pub task_type : String
  pub priority : ℕ
  pub payload : String
  pub retry_count : ℕ
  pub max_retries : ℕ
  pub final_error : Option String
  pub processed_by : Option String
  pub created_at : ℕ
  pub failed_at : ℕ

pub record ApiKey : Type 0 where
  pub id : ℕ
  pub api_key : String
  pub client_id : String
  pub client_name : String
  pub active : Bool
  pub created_at : ℕ

-- The `default:` tags of the Task struct: a column with a default takes it in place of Go's zero
-- value when the row is inserted. The zero value of retry_count is its default already.
unfoldable pub with_defaults : Task → Task
with_defaults t = record t {
  priority = if t.priority == 0 then 1 else t.priority;
  max_retries = if t.max_retries == 0 then 3 else t.max_retries;
}

-- The same for the DeadLetterTask struct.
unfoldable pub dead_letter_defaults : DeadLetterTask → DeadLetterTask
dead_letter_defaults d = record d {
  priority = if d.priority == 0 then 1 else d.priority;
  max_retries = if d.max_retries == 0 then 3 else d.max_retries;
}

-- The three tables as their rows.
pub record Tables : Type 0 where
  pub tasks : List Task
  pub dead_letters : List DeadLetterTask
  pub api_keys : List ApiKey
