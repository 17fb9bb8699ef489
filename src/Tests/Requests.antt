-- ===== src/Tests/Requests.antt =====
-- New tasks, and a read of a task that is another client's.
use task_execution_engine.Prelude.{◌≡◌, some, List, [], ◌∷◌, length}
use task_execution_engine.Models.{Task}
use task_execution_engine.Database.Outcome.{Faulted}
use task_execution_engine.Database.Program.{Ends}
use task_execution_engine.Database.Memory.{memory}
use task_execution_engine.TaskService.{CreateTaskInput, create_task, batch_create_tasks, get_task}
use task_execution_engine.TaskService.Create.{
  Created, CreatedOne, create_task-Created, batch_create_tasks-Created,
}
use task_execution_engine.TaskService.Read.{Read, NotRead, get_task-Read}
use task_execution_engine.Tests.Queue.{queue}

abbrev no_retries : CreateTaskInput
no_retries = record { task_type = "send_sms"; priority = 4; payload = "{}"; max_retries = some 0 }

create_task_example :
    Ends memory
      (CreatedOne memory "beta" no_retries queue.tables)
      (Faulted queue.tables)
      (create_task memory "beta" no_retries queue)
create_task_example = create_task-Created memory "beta" no_retries queue

batch_create_tasks_example :
    Ends memory
      (λ n T'.
        (n ≡ length (no_retries ∷ no_retries ∷ []))
        × ((ss : List Task) × Created memory queue.tables "beta"
              (no_retries ∷ no_retries ∷ [])
              ss
              T'))
      (Faulted queue.tables)
      (batch_create_tasks memory "beta" (no_retries ∷ no_retries ∷ []) queue)
batch_create_tasks_example =
    batch_create_tasks-Created memory "beta" (no_retries ∷ no_retries ∷ []) queue

get_task_example :
    Ends memory
      (Read queue.tables "beta" 1)
      (NotRead queue.tables "beta" 1)
      (get_task memory "beta" 1 queue)
get_task_example = get_task-Read memory "beta" 1 queue
