-- ===== src/TaskService/Read.antt =====
-- GetTask of backend/services/task_service.go.
use task_execution_engine.Prelude.{ℕ, ◌≡◌, String, Memᴰ, All, All_mono, arith}
use task_execution_engine.Models.{Task, Tables}
use task_execution_engine.Database.{Database}
use task_execution_engine.Database.Outcome.{
  Error, Post-mono, fault, no_task, not_cancellable, record_not_found,
}
use task_execution_engine.Database.Laws.{First, NotFound}
use task_execution_engine.Database.Program.{Ends}
use task_execution_engine.TaskService.{is_owned, get_task}
use task_execution_engine.TaskService.Cancel.{IsOwn, is_owned-IsOwn, IsOwn-is_owned}

-- The row that was read, and what an error says of it.
pub record Read (T : Tables) (client_id : String) (id : ℕ) (t : Task) (T' : Tables) : Type 0 where
  pub same : T' ≡ T
  pub stored : Memᴰ t T.tasks
  pub own : IsOwn client_id id t

abbrev pub NotRead : {F : Type 0} → Tables → String → ℕ → Error F → Tables → Type 0
NotRead T client_id id record_not_found T' = (T' ≡ T) × All (λ t. ¬ IsOwn client_id id t) T.tasks
NotRead T client_id id (fault f) T' = T' ≡ T
NotRead T client_id id no_task T' = ⊥
NotRead T client_id id not_cancellable T' = ⊥

NotFound-NotRead :
    {F : Type 0} (T T' : Tables) (client_id : String) (id : ℕ) (e : Error F)
    → NotFound T (is_owned client_id id) e T'
    → NotRead T client_id id e T'
NotFound-NotRead T T' c id record_not_found (same, none_owned) = (
  same,
  All_mono _ _ T.tasks (λ t h own. ground (arith, h, IsOwn-is_owned c id t own)) none_owned,
)
NotFound-NotRead T T' c id (fault f) h = h
NotFound-NotRead T T' c id no_task h = h
NotFound-NotRead T T' c id not_cancellable h = h

-- GetTask returns a stored row of the id that is the client's own; it answers record_not_found only
-- if the client has no row of the id, whoever else has one; and it never writes.
pub get_task-Read :
    (D : Database) (client_id : String) (id : ℕ) (db : D.Db)
    → Ends D
        (Read (D.tables db) client_id id)
        (NotRead (D.tables db) client_id id)
        (get_task D client_id id db)
unfolding get_task
get_task-Read D c id db =
    let T = D.tables db in
    let (db', r) = D.first_task (is_owned c id) db in
    Post-mono (First T (is_owned c id)) (Read T c id) (NotFound T (is_owned c id)) (NotRead T c id)
      r (D.tables db')
      (λ t f. record { same = f.same; stored = f.stored; own = is_owned-IsOwn c id t f.matches })
      (λ e h. NotFound-NotRead T (D.tables db') c id e h) (D.first_task_law (is_owned c id) db)
