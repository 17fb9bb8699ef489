-- ===== src/Http/Tasks/Refusal.antt =====
-- The answers of Cancel of backend/controllers/task_controller.go.
use task_execution_engine.Prelude.{ℕ, ◌≡◌, ◌⊎◌, refl, inl, inr, String, Option, none, some, []}
use task_execution_engine.Decimal.{parse_uint}
use task_execution_engine.Models.{Task}
use task_execution_engine.Database.Outcome.{
  Result, ok, err, record_not_found, no_task, not_cancellable, fault,
}
use task_execution_engine.Database.Program.{Ends}
use task_execution_engine.Database.Rows.{IsKeyed}
use task_execution_engine.TaskService.{cancel_task}
use task_execution_engine.TaskService.Cancel.{Cancelled, NotCancelled}
use task_execution_engine.TaskService.Cancel.Guard.{cancel_task-Cancelled}
use task_execution_engine.Http.{
  task, Backend, Moment, Server, Handled, bad_request, with_status, respond, respond_error,
}
use task_execution_engine.Http.Tasks.{cancel_parsed, cancel}

module _ (B : Backend) (m : Moment) (c : String) (s : Server B) where
  open B use {database}

  -- The task's row is cancelled and shown; or the status tells why it is not.
  abbrev pub Told : ℕ → Handled B → Type 0
  Told id (s', r) =
      let T = database.tables s.db in
      let T' = database.tables s'.db in
      ((r.status ≡ 200) × ((t : Task) × (r.body ≡ task t) × Cancelled T m.now c id t T'))
      ⊎ ((r.status ≡ 404) × NotCancelled {F = database.Fault} T m.now c id record_not_found T')
      ⊎ ((r.status ≡ 409) × NotCancelled {F = database.Fault} T m.now c id not_cancellable T')
      ⊎ ((r.status ≡ 500) × ((f : database.Fault) × NotCancelled T m.now c id (fault f) T'))

  abbrev pub Answered : Option ℕ → Handled B → Type 0
  Answered none (s', r) = (r.status ≡ 400) × (s' ≡ s)
  Answered (some id) h = Told id h

  respond-Told :
      (id : ℕ) (p : database.Db × Result database.Fault Task)
      → Ends database
          (Cancelled (database.tables s.db) m.now c id)
          (NotCancelled (database.tables s.db) m.now c id)
          p
      → Told id (respond B 200 [] task s p)
  unfolding respond with_status respond_error
  respond-Told id (db, ok t) h = inl (refl, (t, refl, h))
  respond-Told id (db, err record_not_found) h = inr (inl (refl, h))
  respond-Told id (db, err not_cancellable) h = inr (inr (inl (refl, h)))
  respond-Told id (db, err (fault f)) h = inr (inr (inr (refl, (f, h))))
  respond-Told id (db, err no_task) h = absurd h

  cancel_parsed-Answered :
      (id : Option ℕ)
      → IsKeyed (database.tables s.db).tasks
      → Answered id (cancel_parsed B m c id s)
  unfolding cancel_parsed bad_request with_status
  cancel_parsed-Answered none k = (refl, refl)
  cancel_parsed-Answered (some id) k =
      respond-Told id (cancel_task database m.now c id s.db)
        (cancel_task-Cancelled database m.now c id s.db k)

-- On distinct ids, Cancel answers 400 and changes nothing if the id is no number below 2^64. Else it
-- answers 200 with the task, having cancelled the client's own row of the id; or 404 if the client
-- has no such row, or 409 if its row has ended, both without a write; or 500 if the database failed,
-- before the write or after it.
pub cancel-Answered :
    (B : Backend) (m : Moment) (client_id id : String) (s : Server B)
    → IsKeyed (B.database.tables s.db).tasks
    → Answered B m client_id s (parse_uint 64 id) (cancel B m client_id id s)
unfolding cancel
cancel-Answered B m client_id id s k = cancel_parsed-Answered B m client_id s (parse_uint 64 id) k
