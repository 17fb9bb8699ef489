-- ===== src/Tests/Listings.antt =====
-- Listings of the tables in memory, in the order of the rows.
use mathlib.Core.List.Perm
use task_execution_engine.Prelude.{ltb, ◌^◌, if◌then◌else◌, refl, false, count, filter, none}
use task_execution_engine.Prelude.Int.{pos, negsuc}
use task_execution_engine.Database.Outcome.{Faulted, ok}
use task_execution_engine.Database.Program.{Ends}
use task_execution_engine.Database.Memory.{memory}
use task_execution_engine.TaskService.Listing.{ListTasksFilter, Listings, slice, list_tasks}
use task_execution_engine.TaskService.Listing.Page.{Listed, list_tasks-Listed}
use task_execution_engine.Tests.Queue.{queue}

abbrev pub listings : Listings memory
listings = record {
  count_tasks = λ p db. (db, ok (count p db.tables.tasks));
  count_law = λ p db. (refl, refl);
  InOrder = λ column direction ts. Unit {0};
  page_tasks = λ p column direction limit offset db.
      (db, ok (slice (if ltb offset (2 ^ 63) then offset else 0) limit (filter p db.tables.tasks)));
  page_law = λ p column direction limit offset db.
      (refl, (filter p db.tables.tasks, Perm.refl _, tt, refl));
}

abbrev pending_only : ListTasksFilter
pending_only = record {
  status = "pending";
  task_type = "";
  priority = none;
  page = negsuc 4;
  page_size = pos 1000;
  sort_by = "payload; DROP TABLE tasks";
  order = "asc";
  all_clients = false;
  filter_client = "";
}

list_tasks_example :
    Ends memory
      (Listed memory listings (λ s. s) queue.tables "alpha" pending_only)
      (Faulted queue.tables)
      (list_tasks memory listings (λ s. s) "alpha" pending_only queue)
list_tasks_example = list_tasks-Listed memory listings (λ s. s) "alpha" pending_only queue
