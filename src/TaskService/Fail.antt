-- ===== src/TaskService/Fail.antt =====
-- FailTask and deadLetter of backend/services/task_service.go.

use task_execution_engine.Prelude.{
  ℕ, ◌+◌, ltb, ltb_iff, ltb-false, ◌≤◌, ◌<◌, ◌≡◌, ◌≢◌, arith, ◌⊎◌, inl, inr, refl, ap, String, none,
  some, [], ◌∷◌, ◌++◌, Bool-cases,
}
use task_execution_engine.Models.{
  Task, DeadLetterTask, Tables, pending, failed, dead_letter_defaults,
}
use task_execution_engine.Database.{Database}
use task_execution_engine.Database.Outcome.{
  Error, Faulted, no_task, not_cancellable, record_not_found, fault,
}
use task_execution_engine.Database.Laws.{Updated, Deposited}
use task_execution_engine.Database.Rows.{RowBecomes, update_rows, has_id, find-update_id}
use task_execution_engine.Database.Program.{
  Ends, ◌>>◌, pure, bind-Ends, transaction-Ends, Ends-mono,
}
use task_execution_engine.TaskService.{
  retry, give_up, dead_letter_of, dead_letter, requeue_failed, fail_task,
}

-- Another attempt: the row waits again with one retry more, its times cleared.
pub record Retried (T : Tables) (t : Task) (task_err : String) (T' : Tables) : Type 0 where
  pub allowed : t.retry_count < t.max_retries
  pub row :
      RowBecomes t.id
        (λ r. record r {
          status = pending;
          retry_count = t.retry_count + 1;
          error_message = some task_err;
          started_at = none;
          completed_at = none;
        })
        T.tasks
        T'.tasks
  pub dead : T'.dead_letters ≡ T.dead_letters
  pub keys : T'.api_keys ≡ T.api_keys

-- No retry is left: the row has failed at `now`, and one dead letter was added for it.
pub record Buried (T : Tables) (now : ℕ) (t : Task) (task_err : String) (T' : Tables) : Type 0 where
  pub exhausted : t.max_retries ≤ t.retry_count
  pub row :
      RowBecomes t.id
        (λ r. record r { status = failed; error_message = some task_err; completed_at = some now })
        T.tasks
        T'.tasks
  pub letter : DeadLetterTask
  pub dead : T'.dead_letters ≡ T.dead_letters ++ letter ∷ []
  pub original : letter.original_task_id ≡ t.id
  pub owner : letter.client_id ≡ t.client_id
  pub task_type : letter.task_type ≡ t.task_type
  pub priority : t.priority ≢ 0 → letter.priority ≡ t.priority
  pub reason : letter.final_error ≡ some task_err
  pub attempts : letter.retry_count ≡ t.retry_count
  pub failed_at : letter.failed_at ≡ now
  pub keys : T'.api_keys ≡ T.api_keys

module _ (D : Database) (now : ℕ) (t : Task) (task_err : String) where
  open D use {Db, Fault, tables}

  requeue_failed-Retried :
      (db : Db)
      → t.retry_count < t.max_retries
      → Ends D
          (λ _. Retried (tables db) t task_err)
          (Faulted (tables db))
          (requeue_failed D t task_err db)
  unfolding requeue_failed retry
  requeue_failed-Retried db h =
      let f = retry (t.retry_count + 1) task_err in
      bind-Ends D (Updated (tables db) (has_id t.id) f) (λ _. Retried (tables db) t task_err)
        (Faulted (tables db)) (Faulted (tables db)) (D.update_tasks (has_id t.id) f) (λ _. pure tt)
        db (D.update_tasks_law (has_id t.id) f db)
        (λ n u. record {
          allowed = h;
          row = λ j. rw u.rows (find-update_id t.id j f (tables db).tasks (λ r. refl));
          dead = ap (λ (T : Tables). T.dead_letters) u.rows;
          keys = ap (λ (T : Tables). T.api_keys) u.rows;
        })
        (λ e h. h)

  letter_written :
      (T S S' : Tables) (n : ℕ)
      → t.max_retries ≤ t.retry_count
      → S ≡ record T { tasks = update_rows (has_id t.id) (give_up now task_err) T.tasks }
      → Deposited S (dead_letter_of t task_err now) n S'
      → Buried T now t task_err S'
  unfolding dead_letter_of give_up dead_letter_defaults
  letter_written T S S' n h e d = record {
    exhausted = h;
    row = λ j. rw (d.rows, e) (find-update_id t.id j (give_up now task_err) T.tasks (λ r. refl));
    letter = record (dead_letter_defaults (dead_letter_of t task_err now)) { id = n };
    dead = rw (d.rows, e);
    original = refl;
    owner = refl;
    task_type = refl;
    priority = λ ne. ground (arith, ne);
    reason = refl;
    attempts = refl;
    failed_at = refl;
    keys = rw (d.rows, e);
  }

  Faulted-undone : (T S S' : Tables) (e : Error Fault) → Faulted S e S' → Faulted T e T
  Faulted-undone T S S' no_task h = h
  Faulted-undone T S S' record_not_found h = h
  Faulted-undone T S S' not_cancellable h = h
  Faulted-undone T S S' (fault f) h = refl

  dead_letter-Buried :
      (db : Db)
      → t.max_retries ≤ t.retry_count
      → Ends D
          (λ _. Buried (tables db) now t task_err)
          (Faulted (tables db))
          (dead_letter D now t task_err db)
  unfolding dead_letter
  dead_letter-Buried db h =
      let T = tables db in
      let f = give_up now task_err in
      let d = dead_letter_of t task_err now in
      transaction-Ends D (λ _. Buried T now t task_err) (Faulted T) _ db
        (λ s same _.
          bind-Ends D (Updated T (has_id t.id) f) (λ _. Buried T now t task_err) (Faulted T)
            (λ e _. Faulted T e T) (D.update_tasks (has_id t.id) f)
            (λ _. D.insert_dead_letter d >> pure tt) s
            (rw same at (D.update_tasks_law (has_id t.id) f s))
            (λ n u.
              let s' = (D.update_tasks (has_id t.id) f s).0 in
              bind-Ends D (Deposited (tables s') d) (λ _. Buried T now t task_err)
                (Faulted (tables s')) (λ e _. Faulted T e T) (D.insert_dead_letter d) (λ _. pure tt)
                s' (D.insert_dead_letter_law d s')
                (λ m dep. letter_written T (tables s') _ m h u.rows dep)
                (Faulted-undone T (tables s') _))
            (Faulted-undone T T _))
        (λ f. refl)

abbrev pub Failed : Tables → ℕ → Task → String → Tables → Type 0
Failed T now t task_err T' = Retried T t task_err T' ⊎ Buried T now t task_err T'

-- FailTask with retries left sends the task back to the queue; with none left it fails the row and
-- adds its dead letter, both or neither; and if the database fails, nothing is changed.
pub fail_task-Failed :
    (D : Database) (now : ℕ) (t : Task) (task_err : String) (db : D.Db)
    → Ends D
        (λ _. Failed (D.tables db) now t task_err)
        (Faulted (D.tables db))
        (fail_task D now t task_err db)
unfolding fail_task
fail_task-Failed D now t task_err db = elim (Bool-cases (ltb t.retry_count t.max_retries)) [
  | inl more ↦ rw more (
      Ends-mono D _ (λ _. Failed (D.tables db) now t task_err) (Faulted (D.tables db)) _
        (λ _ T' r. inl r) (requeue_failed-Retried D now t task_err db ((ltb_iff _ _).0 more)))
  | inr last ↦ rw last (
      Ends-mono D _ (λ _. Failed (D.tables db) now t task_err) (Faulted (D.tables db)) _
        (λ _ T' b. inr b) (dead_letter-Buried D now t task_err db (ltb-false _ _ last)))
]
