-- ===== src/Tests/Workers.antt =====
-- A worker, its pool, the watchdog and a listing, over the queue of the tests.
use task_execution_engine.Prelude.{
  ◌+◌, ◌≡◌, ◌≤◌, refl, some, none, false, Bool, [], ◌∷◌, arith, length, count, Memᴰ, All,
}
use task_execution_engine.Models.{Task, running}
use task_execution_engine.Database.Rows.{find}
use task_execution_engine.Database.Memory.{Memory, memory}
use task_execution_engine.Hub.{new_hub}
use task_execution_engine.Worker.{
  idle_state, panicked, Times, Work, process, Pool, new_pool, submit, no_tasks,
}
use task_execution_engine.Worker.Process.{Processed, process-Processed}
use task_execution_engine.Worker.Drain.{submits, Reach, start, later, in_hand, Reach-conserved}
use task_execution_engine.Worker.Drain.Empty.{Runs, IsFree, Reach-drains}
use task_execution_engine.Watchdog.{Watchdog, sweep}
use task_execution_engine.Watchdog.Loop.{IsRescued}
use task_execution_engine.Watchdog.Sweep.{sweep-others, sweep-IsRescued}
use task_execution_engine.TaskService.Recover.{IsStale}
use task_execution_engine.Tests.Queue.{queue, low, other}

abbrev times : Times
times = record { began = 101; started = 102; announced = 103; ended = 104; reported = 105 }

abbrev work : Work memory
work = record { db = queue; hub = some new_hub; states = idle_state ∷ idle_state ∷ [] }

process_example :
    Processed memory times other 2
      (panicked "nil map")
      work
      (process memory times other 2 (panicked "nil map") work)
process_example = process-Processed memory times other 2 (panicked "nil map") work

abbrev submitted : Pool
submitted = record {
  num_workers = 1;
  queue = low ∷ [];
  closed = false;
  hands = none ∷ [];
  finished = [];
}

submitted-Reach : Reach 1 (low ∷ []) submitted
unfolding new_pool no_tasks submit
submitted-Reach = later start (submits low refl)

conserved_example :
    (length submitted.queue ≤ submitted.num_workers)
    × ((q : Task → Bool)
        → count q (low ∷ [])
          ≡ count q submitted.finished
            + count (in_hand q) submitted.hands
            + count q submitted.queue)
conserved_example = Reach-conserved 1 (low ∷ []) submitted submitted-Reach

drains_example :
    (p' : Pool) × Runs submitted p'
    × (p'.queue ≡ [])
    × All IsFree p'.hands
    × ((q : Task → Bool) → count q (low ∷ []) ≡ count q p'.finished)
drains_example = Reach-drains 1 (low ∷ []) submitted submitted-Reach

-- A table with one task that was started long ago, and one that waits.
abbrev hung : Task
hung = record low { id = 7; status = running; started_at = some 5 }

abbrev stuck : Memory
stuck = record queue {
  tables = record { tasks = hung ∷ low ∷ []; dead_letters = []; api_keys = [] };
}

abbrev watchdog : Watchdog
watchdog = record { interval = 10; timeout = 30 }

sweep_others_example :
    find 1 (sweep memory (λ n. 101 + n) (λ _. false) "30s" watchdog 100 stuck).tables.tasks
    ≡ some low
sweep_others_example =
    sweep-others memory (λ n. 101 + n) (λ _. false) "30s" watchdog 100 stuck low (omega arith)
      (Memᴰ.tail (Memᴰ.head refl)) (λ s. absurd (waits s))
  where
    waits : IsStale 70 low → ⊥
    waits s = ground (arith, s.runs)

sweep_example :
    IsRescued hung
      (find 7 (sweep memory (λ n. 101 + n) (λ _. false) "30s" watchdog 100 stuck).tables.tasks)
sweep_example =
    sweep-IsRescued memory (λ n. 101 + n) (λ _. false) "30s" watchdog 100 stuck hung (omega arith)
      (λ f. elim f [ ]) (λ k. refl) (Memᴰ.head refl)
      (record { runs = refl; started = 5; started_at = refl; before = omega arith })
