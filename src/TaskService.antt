-- ===== src/TaskService.antt =====
-- backend/services/task_service.go: the methods of TaskService that write the queue. `now` stands
-- for time.Now(); a method that returns only an error returns the unit here.
pub mod Claim
pub mod Fail
pub mod Cancel
pub mod Report
pub mod Recover
pub mod Listing
pub mod Create
pub mod Read
pub mod Demo
pub mod Tenancy
use task_execution_engine.Prelude.{
  ℕ, ◌+◌, ◌-◌, ◌==◌, ltb, str_eq, opt_str_eq, Bool, true, false, ◌&&◌, ◌||◌, String, Option, none,
  some, List, [], ◌∷◌, map, length, if◌then◌else◌,
}
use task_execution_engine.Models.{
  Task, DeadLetterTask, pending, running, completed, failed, cancelled, status_eq,
}
use task_execution_engine.Database.{Database}
use task_execution_engine.Database.Outcome.{no_task, not_cancellable}
use task_execution_engine.Database.Laws.{OrderBy, asc, desc}
use task_execution_engine.Database.Rows.{has_id}
use task_execution_engine.Database.Program.{Program, ◌>>=◌, ◌>>◌, pure, throw}

pub record CreateTaskInput : Type 0 where
  pub task_type : String
  pub priority : ℕ
  pub payload : String
  pub max_retries : Option ℕ

-- The struct that CreateTask and BatchCreateTasks build; the fields that they do not name are zero.
unfoldable pub new_task : String → CreateTaskInput → Task
new_task client_id input = record {
  id = 0;
  client_id = client_id;
  task_type = input.task_type;
  priority = input.priority;
  payload = input.payload;
  status = pending;
  retry_count = 0;
  max_retries = elim input.max_retries [ none ↦ 3 | some n ↦ n ];
  error_message = none;
  processed_by = none;
  created_at = 0;
  started_at = none;
  completed_at = none;
}

-- WHERE status = 'pending' AND client_id = ?
unfoldable pub is_claimable : String → Task → Bool
is_claimable client_id t = status_eq t.status pending && str_eq t.client_id client_id

-- ORDER BY priority DESC, created_at ASC
abbrev pub claim_order : OrderBy
claim_order = (desc, λ t. t.priority) ∷ (asc, λ t. t.created_at) ∷ []

-- The columns of the SELECT; the others stay nil in the struct.
unfoldable pub claim_columns : Task → Task
claim_columns t = record t {
  error_message = none;
  processed_by = none;
  started_at = none;
  completed_at = none;
}

unfoldable pub mark_running : String → Task → Task
mark_running instance_id t = record t { status = running; processed_by = some instance_id }

-- WHERE status = 'running' AND processed_by = ?
unfoldable pub is_orphan : String → Task → Bool
is_orphan instance_id t = status_eq t.status running && opt_str_eq t.processed_by instance_id

unfoldable pub requeue : Task → Task
requeue t = record t { status = pending; started_at = none; processed_by = none }

-- A time column before a bound; NULL is before none.
unfoldable pub is_before : Option ℕ → ℕ → Bool
is_before none bound = false
is_before (some t) bound = ltb t bound

-- WHERE status = 'running' AND started_at < ?. Times are not negative, so a bound that lies before
-- time 0 selects no row, as the truncated difference does.
unfoldable pub is_stale : ℕ → Task → Bool
unfolding is_before
is_stale cutoff t = status_eq t.status running && is_before t.started_at cutoff

unfoldable pub complete : ℕ → Task → Task
complete now t = record t { status = completed; completed_at = some now }

unfoldable pub retry : ℕ → String → Task → Task
retry retry_count task_err t = record t {
  status = pending;
  retry_count = retry_count;
  error_message = some task_err;
  started_at = none;
  completed_at = none;
}

unfoldable pub give_up : ℕ → String → Task → Task
give_up now task_err t = record t {
  status = failed;
  error_message = some task_err;
  completed_at = some now;
}

unfoldable pub dead_letter_of : Task → String → ℕ → DeadLetterTask
dead_letter_of t task_err now = record {
  id = 0;
  original_task_id = t.id;
  client_id = t.client_id;
  task_type = t.task_type;
  priority = t.priority;
  payload = t.payload;
  retry_count = t.retry_count;
  max_retries = t.max_retries;
  final_error = some task_err;
  processed_by = t.processed_by;
  created_at = t.created_at;
  failed_at = now;
}

-- WHERE id = ? AND client_id = ?
unfoldable pub is_owned : String → ℕ → Task → Bool
unfolding has_id
is_owned client_id id t = has_id id t && str_eq t.client_id client_id

-- … AND status IN ('pending', 'running')
unfoldable pub is_cancellable : String → ℕ → Task → Bool
unfolding is_owned
is_cancellable client_id id t =
    is_owned client_id id t && (status_eq t.status pending || status_eq t.status running)

unfoldable pub cancel : ℕ → Task → Task
cancel now t = record t { status = cancelled; completed_at = some now }

module _ (D : Database) where
  open D use {
    update_tasks, select_tasks, first_task, claim_task, distinct_clients, insert_task, insert_tasks,
    insert_dead_letter, delete_tasks, delete_dead_letters, transaction,
  }

  -- A new row has its payload as the JSON column holds it.
  unfoldable pub new_row : String → CreateTaskInput → Task
  unfolding new_task
  new_row client_id input =
      let t = new_task client_id input in record t { payload = D.json_column t.payload }

  -- The returned struct is the stored row, since gorm fills in its id, its defaults and its times;
  -- but its payload is the text that was given.
  unfoldable pub create_task : String → CreateTaskInput → Program D Task
  unfolding new_row
  create_task client_id input = do
    s ← insert_task (new_row client_id input)
    pure (record s { payload = input.payload })

  unfoldable pub batch_create_tasks : String → List CreateTaskInput → Program D ℕ
  unfolding new_row
  batch_create_tasks client_id inputs = do
    let tasks = map (new_row client_id) inputs
    insert_tasks tasks
    pure (length tasks)

  unfoldable pub claim_row : String → Option Task → Program D Task
  unfolding claim_columns mark_running
  claim_row instance_id none = throw no_task
  claim_row instance_id (some t) = do
    update_tasks (has_id t.id) (mark_running instance_id)
    pure (mark_running instance_id (claim_columns t))

  unfoldable pub dequeue_task_for_client : String → String → Program D Task
  unfolding claim_row
  dequeue_task_for_client client_id instance_id =
      transaction
        do row ← claim_task (is_claimable client_id) claim_order; claim_row instance_id row

  unfoldable pub clients_with_pending_tasks : Program D (List String)
  clients_with_pending_tasks = distinct_clients (λ t. status_eq t.status pending)

  unfoldable pub requeue_orphaned_tasks : String → Program D ℕ
  requeue_orphaned_tasks instance_id = update_tasks (is_orphan instance_id) requeue

  unfoldable pub find_stale_running_tasks : ℕ → ℕ → Program D (List Task)
  find_stale_running_tasks now timeout = select_tasks (is_stale (now - timeout))

  unfoldable pub mark_started : ℕ → ℕ → Program D (Unit {0})
  mark_started now id = do
    update_tasks (has_id id) (λ t. record t { started_at = some now })
    pure tt

  unfoldable pub clear_all_data : Program D (Unit {0})
  clear_all_data = transaction do delete_tasks (λ _. true); delete_dead_letters (λ _. true); pure tt

  unfoldable pub complete_task : ℕ → ℕ → Program D (Unit {0})
  complete_task now id = do update_tasks (has_id id) (complete now); pure tt

  unfoldable pub dead_letter : ℕ → Task → String → Program D (Unit {0})
  dead_letter now t task_err = transaction do
    update_tasks (has_id t.id) (give_up now task_err)
    insert_dead_letter (dead_letter_of t task_err now)
    pure tt

  unfoldable pub requeue_failed : Task → String → Program D (Unit {0})
  requeue_failed t task_err = do
    update_tasks (has_id t.id) (retry (t.retry_count + 1) task_err)
    pure tt

  unfoldable pub fail_task : ℕ → Task → String → Program D (Unit {0})
  unfolding requeue_failed
  fail_task now t task_err =
      if ltb t.retry_count t.max_retries
      then requeue_failed t task_err
      else dead_letter now t task_err

  unfoldable pub get_task : String → ℕ → Program D Task
  get_task client_id id = first_task (is_owned client_id id)

  unfoldable pub cancel_outcome : String → ℕ → ℕ → Program D Task
  cancel_outcome client_id id affected =
      if affected == 1
      then first_task (is_owned client_id id)
      else (first_task (is_owned client_id id) >> throw not_cancellable)

  unfoldable pub cancel_task : ℕ → String → ℕ → Program D Task
  unfolding cancel_outcome
  cancel_task now client_id id = do
    affected ← update_tasks (is_cancellable client_id id) (cancel now)
    cancel_outcome client_id id affected
