-- ===== src/Tests/Queue.antt =====
-- A table with three tasks of two clients, in memory.
use task_execution_engine.Prelude.{
  ℕ, ◌-◌, ◌≡◌, ◌↔◌, refl, false, String, some, none, [], ◌∷◌, map, arith, str_eq,
}
use mathlib.Core.List.{Mem}
use task_execution_engine.Models.{Task, pending, running, completed, cancelled}
use task_execution_engine.Database.Outcome.{Faulted}
use task_execution_engine.Database.Rows.{IsKeyed, status_of, update_rows, update_row, has_id}
use task_execution_engine.Database.Laws.{precedes}
use task_execution_engine.Database.Program.{Ends}
use task_execution_engine.Database.Memory.{Memory, memory, found}
use task_execution_engine.Database.Memory.Order.{best}
use task_execution_engine.TaskService.{
  dequeue_task_for_client, fail_task, cancel_task, complete_task, requeue_orphaned_tasks,
  find_stale_running_tasks, is_claimable, is_cancellable, cancel, mark_running, claim_columns,
  complete, retry,
}
use task_execution_engine.TaskService.Claim.Once.{claim_all, claim_all-IsKeyed}
use task_execution_engine.TaskService.Fail.{Failed, fail_task-Failed}
use task_execution_engine.TaskService.Cancel.{Cancelled, NotCancelled}
use task_execution_engine.TaskService.Cancel.Guard.{cancel_task-Cancelled}
use task_execution_engine.TaskService.Report.{
  Wrote, complete_task-Wrote, complete_after_cancel, retry_after_cancel,
}
use task_execution_engine.TaskService.Recover.{
  IsStale, Requeued, requeue_orphaned_tasks-Requeued, find_stale_running_tasks-IsStale,
}

abbrev waiting : ℕ → String → ℕ → ℕ → Task
waiting id client_id priority created_at = record {
  id = id;
  client_id = client_id;
  task_type = "send_email";
  priority = priority;
  payload = "{}";
  status = pending;
  retry_count = 0;
  max_retries = 3;
  error_message = none;
  processed_by = none;
  created_at = created_at;
  started_at = none;
  completed_at = none;
}

abbrev pub low : Task
low = waiting 1 "alpha" 2 10

abbrev pub high : Task
high = waiting 2 "alpha" 5 20

abbrev pub other : Task
other = record (waiting 3 "beta" 4 15) {
  status = running;
  processed_by = some "backend-1";
  retry_count = 3;
}

abbrev pub queue : Memory
queue = record {
  tables = record { tasks = low ∷ high ∷ other ∷ []; dead_letters = []; api_keys = [] };
  locked = λ _. false;
  now = 100;
}

queue-IsKeyed : IsKeyed queue.tables.tasks
queue-IsKeyed = omega arith

-- The urgent task is claimed before the older one.
claimed_first :
    map
      (λ t. t.id)
      (claim_all memory
        (("alpha", "backend-1") ∷ ("alpha", "backend-2") ∷ ("alpha", "backend-1") ∷ [])
        queue).1
    ≡ 2 ∷ 1 ∷ []
unfolding claim_all dequeue_task_for_client is_claimable precedes best str_eq update_rows update_row
    has_id mark_running claim_columns
claimed_first = refl

claim_all_example :
    IsKeyed
      (claim_all memory
        (("alpha", "backend-1") ∷ ("alpha", "backend-2") ∷ ("beta", "backend-1") ∷ [])
        queue).1
claim_all_example =
    claim_all-IsKeyed memory
      (("alpha", "backend-1") ∷ ("alpha", "backend-2") ∷ ("beta", "backend-1") ∷ []) queue
      queue-IsKeyed

fail_task_example :
    Ends memory
      (λ _. Failed queue.tables 50 other "timeout")
      (Faulted queue.tables)
      (fail_task memory 50 other "timeout" queue)
fail_task_example = fail_task-Failed memory 50 other "timeout" queue

cancel_task_example :
    Ends memory
      (Cancelled queue.tables 60 "alpha" 1)
      (NotCancelled queue.tables 60 "alpha" 1)
      (cancel_task memory 60 "alpha" 1 queue)
cancel_task_example = cancel_task-Cancelled memory 60 "alpha" 1 queue queue-IsKeyed

complete_task_example :
    Ends memory
      (λ _. Wrote queue.tables 3 (λ r. record r { status = completed; completed_at = some 70 }))
      (Faulted queue.tables)
      (complete_task memory 70 3 queue)
complete_task_example = complete_task-Wrote memory 70 3 queue

requeue_example :
    Ends memory
      (Requeued queue.tables "backend-1")
      (Faulted queue.tables)
      (requeue_orphaned_tasks memory "backend-1" queue)
requeue_example = requeue_orphaned_tasks-Requeued memory "backend-1" queue

abbrev cancelled_low : Task
cancelled_low = record low { status = cancelled; completed_at = some 60 }

complete_after_cancel_example :
    status_of 1 (complete_task memory 70 1 (cancel_task memory 60 "alpha" 1 queue).0).0.tables.tasks
    ≡ some completed
unfolding cancel_task complete_task is_cancellable found best precedes str_eq update_rows update_row
    has_id cancel complete
complete_after_cancel_example =
    complete_after_cancel memory 60 70 "alpha" 1 queue cancelled_low queue-IsKeyed refl refl

retry_after_cancel_example :
    status_of 1
      (fail_task memory 70 low "timeout" (cancel_task memory 60 "alpha" 1 queue).0).0.tables.tasks
    ≡ some pending
unfolding cancel_task fail_task is_cancellable found best precedes str_eq update_rows update_row
    has_id cancel retry
retry_after_cancel_example =
    retry_after_cancel memory 60 70 "alpha" 1 queue cancelled_low queue-IsKeyed refl low "timeout"
      refl (omega arith) refl

find-IsStale_example :
    Ends memory
      (λ ts T'.
        (T' ≡ queue.tables)
        × ((t : Task) → Mem t ts ↔ (Mem t queue.tables.tasks × IsStale (100 - 30) t)))
      (Faulted queue.tables)
      (find_stale_running_tasks memory 100 30 queue)
find-IsStale_example = find_stale_running_tasks-IsStale memory 100 30 queue
