-- ===== src/TaskService/Report.antt =====
-- MarkStarted and CompleteTask of backend/services/task_service.go, and the reports of a worker whose
-- task was cancelled while it ran.
use task_execution_engine.Prelude.{
  ℕ, ◌+◌, ◌<◌, ◌≡◌, inl, inr, refl, ap, String, none, some, List, arith,
}
use task_execution_engine.Models.{Task, Tables, pending, completed, cancelled}
use task_execution_engine.Database.{Database}
use task_execution_engine.Database.Outcome.{Faulted, Post-ok, ok}
use task_execution_engine.Database.Laws.{Updated}
use task_execution_engine.Database.Rows.{
  IsKeyed, KeepsId, RowBecomes, has_id, find, find-update_id, status_of, mem-find,
}
use task_execution_engine.Database.Program.{Ends, ◌>>=◌, pure, bind-Ends}
use task_execution_engine.TaskService.{
  complete, mark_started, complete_task, cancel_task, fail_task,
}
use task_execution_engine.TaskService.Fail.{Failed, fail_task-Failed}
use task_execution_engine.TaskService.Cancel.{Cancelled, NotCancelled}
use task_execution_engine.TaskService.Cancel.Guard.{cancel_task-Cancelled}

-- The row of an id becomes what f makes of it; all else stays.
pub record Wrote (T : Tables) (id : ℕ) (f : Task → Task) (T' : Tables) : Type 0 where
  pub row : RowBecomes id f T.tasks T'.tasks
  pub dead : T'.dead_letters ≡ T.dead_letters
  pub keys : T'.api_keys ≡ T.api_keys

-- An UPDATE by id that has no other condition.
update_by_id :
    (D : Database) (id : ℕ) (f : Task → Task) (db : D.Db)
    → KeepsId f
    → Ends D
        (λ _. Wrote (D.tables db) id f)
        (Faulted (D.tables db))
        ((D.update_tasks (has_id id) f >>= λ _. pure tt) db)
update_by_id D id f db keep =
    let T = D.tables db in
    bind-Ends D (Updated T (has_id id) f) (λ _. Wrote T id f) (Faulted T) (Faulted T)
      (D.update_tasks (has_id id) f) (λ _. pure (tt {0})) db (D.update_tasks_law (has_id id) f db)
      (λ n u. record {
        row = λ j. rw u.rows (find-update_id id j f T.tasks keep);
        dead = ap (λ (S : Tables). S.dead_letters) u.rows;
        keys = ap (λ (S : Tables). S.api_keys) u.rows;
      })
      (λ e h. h)

-- MarkStarted stamps the row of the id and writes nothing else.
pub mark_started-Wrote :
    (D : Database) (now id : ℕ) (db : D.Db)
    → Ends D
        (λ _. Wrote (D.tables db) id (λ r. record r { started_at = some now }))
        (Faulted (D.tables db))
        (mark_started D now id db)
unfolding mark_started
mark_started-Wrote D now id db = update_by_id D id _ db (λ r. refl)

-- CompleteTask completes the row of the id whatever its status is, and writes nothing else.
pub complete_task-Wrote :
    (D : Database) (now id : ℕ) (db : D.Db)
    → Ends D
        (λ _.
          Wrote (D.tables db) id (λ r. record r { status = completed; completed_at = some now }))
        (Faulted (D.tables db))
        (complete_task D now id db)
unfolding complete_task complete
complete_task-Wrote D now id db = update_by_id D id _ db (λ r. refl)

-- After a row has been written, its status is what was written.
status_after :
    (i id : ℕ) (f : Task → Task) (ts ts' : List Task) (t : Task)
    → RowBecomes i f ts ts'
    → i ≡ id
    → find id ts ≡ some t
    → status_of id ts' ≡ some (f t).status
unfolding status_of
status_after i id f ts ts' t h same e = ground (arith, h id)

module _ (D : Database) (now later : ℕ) (client_id : String) (id : ℕ) (db : D.Db) (t : Task)
    (keyed : IsKeyed (D.tables db).tasks)
    (done : (cancel_task D now client_id id db).1 ≡ ok t) where
  abbrev pub after_cancel : D.Db
  after_cancel = (cancel_task D now client_id id db).0

  cancelled_row :
      (r : Task) × (find id (D.tables after_cancel).tasks ≡ some r) × (r.status ≡ cancelled)
  cancelled_row =
      let c =
        Post-ok (Cancelled (D.tables db) now client_id id)
          (NotCancelled (D.tables db) now client_id id) _ (D.tables after_cancel)
          (cancel_task-Cancelled D now client_id id db keyed) done in
      (
        record c.old { status = cancelled; completed_at = some now },
        ground (arith, c.row id, was c),
        refl,
      )
    where
      was :
          (c : Cancelled (D.tables db) now client_id id t (D.tables after_cancel))
          → find id (D.tables db).tasks ≡ some c.old
      was c = rw (← c.own.same_id) (mem-find (D.tables db).tasks {t = c.old} keyed c.stored)

  -- After a CancelTask that succeeded, on distinct ids, a CompleteTask of the same id that succeeds
  -- turns the cancelled task into a completed one.
  pub complete_after_cancel :
      (complete_task D later id after_cancel).1 ≡ ok tt
      → status_of id (D.tables (complete_task D later id after_cancel).0).tasks ≡ some completed
  complete_after_cancel e =
      let T = D.tables after_cancel in
      let (r, there, _) = cancelled_row in
      status_after id id _ T.tasks _ r
        (Post-ok (λ _. Wrote T id (λ r. record r { status = completed; completed_at = some later }))
          (Faulted T) _ _ (complete_task-Wrote D later id after_cancel) e).row
        refl there

  -- After a CancelTask that succeeded, on distinct ids, a FailTask of the same id that succeeds, with
  -- retries left in the worker's copy, sends the cancelled task back to the queue.
  pub retry_after_cancel :
      (w : Task) (task_err : String)
      → w.id ≡ id
      → w.retry_count < w.max_retries
      → (fail_task D later w task_err after_cancel).1 ≡ ok tt
      → status_of id (D.tables (fail_task D later w task_err after_cancel).0).tasks ≡ some pending
  retry_after_cancel w task_err same more e =
      let T = D.tables after_cancel in
      let (r, there, _) = cancelled_row in
      elim (Post-ok (λ _. Failed T later w task_err) (Faulted T) _ _
        (fail_task-Failed D later w task_err after_cancel) e) [
          | inl x ↦
              status_after w.id id
                (λ r. record r {
                  status = pending;
                  retry_count = w.retry_count + 1;
                  error_message = some task_err;
                  started_at = none;
                  completed_at = none;
                })
                T.tasks _ r x.row same there
          | inr x ↦ absurd (omega (arith, more, x.exhausted))
        ]
