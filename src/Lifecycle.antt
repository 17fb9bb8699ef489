-- ===== src/Lifecycle.antt =====
-- Runs of the methods of backend/services/task_service.go that write, in any order: what the HTTP
-- handlers, the scheduler, the workers and the watchdog of any number of instances call.
pub mod Steps
pub mod Letters
use task_execution_engine.Prelude.{ℕ, String, List, [], ◌∷◌}
use task_execution_engine.Models.{Task}
use task_execution_engine.Database.{Database}
use task_execution_engine.Database.Keys.{Keys}
use task_execution_engine.TaskService.{
  CreateTaskInput, create_task, batch_create_tasks, dequeue_task_for_client, requeue_orphaned_tasks,
  mark_started, complete_task, fail_task, cancel_task, clear_all_data,
}
use task_execution_engine.TaskService.Demo.{add_demo_tasks}

-- A call with its arguments; `fails` has the caller's copy of the task.
pub data Call : Type 0 where
  creates : String → CreateTaskInput → Call
  creates_batch : String → List CreateTaskInput → Call
  adds_demo : (ℕ → ℕ) → ℕ → Call
  claims : String → String → Call
  requeues : String → Call
  starts : ℕ → ℕ → Call
  completes : ℕ → ℕ → Call
  fails : ℕ → Task → String → Call
  cancels : ℕ → String → ℕ → Call
  clears : Call

module _ (D : Database) (K : Keys D) where
  -- The database after the call, whatever it returned.
  unfoldable pub make : Call → D.Db → D.Db
  make (creates client_id input) db = (create_task D client_id input db).0
  make (creates_batch client_id inputs) db = (batch_create_tasks D client_id inputs db).0
  make (adds_demo draw n) db = (add_demo_tasks D K draw n db).0
  make (claims client_id instance_id) db = (dequeue_task_for_client D client_id instance_id db).0
  make (requeues instance_id) db = (requeue_orphaned_tasks D instance_id db).0
  make (starts now id) db = (mark_started D now id db).0
  make (completes now id) db = (complete_task D now id db).0
  make (fails now t task_err) db = (fail_task D now t task_err db).0
  make (cancels now client_id id) db = (cancel_task D now client_id id db).0
  make clears db = (clear_all_data D db).0

  unfoldable pub make_all : List Call → D.Db → D.Db
  unfolding make
  make_all [] db = db
  make_all (c ∷ cs) db = make_all cs (make c db)
