-- ===== src/Worker.antt =====
-- backend/worker/pool.go and handler.go: the worker pool. The clock's readings during one task are
-- the record `Times`; what a handler does is an argument.
pub mod Process
pub mod Drain
use Prim.Native.String.{◌++◌ as text_append}
use task_execution_engine.Prelude.{
  ℕ, zero, suc, ◌+◌, ◌-◌, ltb, str_eq, Bool, true, false, String, Option, none, some, List, [], ◌∷◌,
  ◌++◌, length, if◌then◌else◌,
}
use task_execution_engine.Models.{Task}
use task_execution_engine.Database.{Database}
use task_execution_engine.Database.Outcome.{Result, ok, err}
use task_execution_engine.TaskService.{mark_started, complete_task, fail_task}
use task_execution_engine.Hub.{Hub, publish_task_event}

pub record WorkerState : Type 0 where
  pub busy : Bool
  pub task_id : ℕ
  pub task_type : String
  pub client_id : String
  pub since : ℕ

-- The zero value of the struct.
abbrev pub idle_state : WorkerState
idle_state = record { busy = false; task_id = 0; task_type = ""; client_id = ""; since = 0 }

pub record WorkerStatus : Type 0 where
  pub id : ℕ
  pub busy : Bool
  pub task_id : ℕ
  pub task_type : String
  pub client_id : String
  pub busy_ms : ℕ

unfoldable pub worker_status : ℕ → ℕ → WorkerState → WorkerStatus
worker_status now id s =
    if s.busy
    then record {
      id = id;
      busy = true;
      task_id = s.task_id;
      task_type = s.task_type;
      client_id = s.client_id;
      busy_ms = now - s.since;
    }
    else record { id = id; busy = false; task_id = 0; task_type = ""; client_id = ""; busy_ms = 0 }

-- WorkerStates, from worker `id` on.
unfoldable pub worker_states : ℕ → ℕ → List WorkerState → List WorkerStatus
unfolding worker_status
worker_states now id [] = []
worker_states now id (s ∷ ss) = worker_status now id s ∷ worker_states now (id + 1) ss

-- `p.states[i] = s`; a worker's index is within the slice.
unfoldable pub set_state : ℕ → WorkerState → List WorkerState → List WorkerState
set_state i s [] = []
set_state zero s (u ∷ us) = s ∷ us
set_state (suc i) s (u ∷ us) = u ∷ set_state i s us

unfoldable pub set_busy : ℕ → ℕ → Task → List WorkerState → List WorkerState
set_busy now worker_id t states =
    set_state (worker_id - 1)
      (record {
        busy = true;
        task_id = t.id;
        task_type = t.task_type;
        client_id = t.client_id;
        since = now;
      })
      states

unfoldable pub set_idle : ℕ → List WorkerState → List WorkerState
set_idle worker_id states = set_state (worker_id - 1) idle_state states

-- A handler's call returns nil or an error, or it panics with a value, kept as its text.
pub data Handling : Type 0 where
  returned : Option String → Handling
  panicked : String → Handling

-- The simulated work: its context's error if that comes before the end of the sleep, and else the
-- random failure.
unfoldable pub simulated_work : Option String → Bool → Handling
simulated_work (some aborted) unlucky = returned (some aborted)
simulated_work none unlucky = returned (if unlucky then some "simulated task failure" else none)

unfoldable pub handler_for : String → Option String → Bool → Handling
unfolding simulated_work
handler_for task_type aborted unlucky =
    if str_eq task_type "panic"
    then panicked "simulated handler panic (chaos test)"
    else simulated_work aborted unlucky

-- runHandler turns a panic into an error.
unfoldable pub run_handler : Handling → Option String
run_handler (returned e) = e
run_handler (panicked v) = some (text_append "handler panicked: " v)

pub record Times : Type 0 where
  pub began : ℕ
  pub started : ℕ
  pub announced : ℕ
  pub ended : ℕ
  pub reported : ℕ

-- What a worker writes to; the publisher may be nil.
pub record Work (D : Database) : Type 0 where
  pub db : D.Db
  pub hub : Option Hub
  pub states : List WorkerState

unfoldable pub publish : ℕ → String → Task → String → Option Hub → Option Hub
publish now event_type t status none = none
publish now event_type t status (some h) =
    some (publish_task_event h now event_type t.id t.client_id status)

module _ (D : Database) (times : Times) (t : Task) where
  -- The event that follows a report, unless the report failed.
  unfoldable pub tell : String → String → Result D.Fault (Unit {0}) → Work D → Work D
  tell event_type status (ok _) w = record w {
    hub = publish times.reported event_type t status w.hub;
  }
  tell event_type status (err _) w = w

  unfoldable pub report : Option String → Work D → Work D
  unfolding tell
  report (some e) w =
      let (db, r) = fail_task D times.ended t e w.db in
      tell "task.failed" "failed" r (record w { db = db })
  report none w =
      let (db, r) = complete_task D times.ended t.id w.db in
      tell "task.completed" "completed" r (record w { db = db })

  -- An error of MarkStarted is only logged.
  unfoldable pub process : ℕ → Handling → Work D → Work D
  unfolding set_busy set_idle
  process worker_id handling w =
      let w' = report (run_handler handling) (record w {
        db = (mark_started D times.started t.id w.db).0;
        hub = publish times.announced "task.started" t "running" w.hub;
        states = set_busy times.began worker_id t w.states;
      }) in
      record w' { states = set_idle worker_id w'.states }

-- The pool as its channel and the task that each worker has in hand; `finished` holds the tasks that
-- were processed.
pub record Pool : Type 0 where
  pub num_workers : ℕ
  pub queue : List Task
  pub closed : Bool
  pub hands : List (Option Task)
  pub finished : List Task

unfoldable pub no_tasks : ℕ → List (Option Task)
no_tasks zero = []
no_tasks (suc n) = none ∷ no_tasks n

-- NewPool clamps the number of workers to 1; Start gives each of them an empty hand.
unfoldable pub new_pool : ℕ → Pool
unfolding no_tasks
new_pool num_workers =
    let n = if ltb num_workers 1 then 1 else num_workers in
    record { num_workers = n; queue = []; closed = false; hands = no_tasks n; finished = [] }

pub data Submitted : Type 0 where
  accepted : Pool → Submitted
  blocked panics : Submitted

-- A send on the closed channel is a panic.
unfoldable pub submit : Task → Pool → Submitted
submit t p =
    if p.closed
    then panics
    else if ltb (length p.queue) p.num_workers
    then accepted (record p { queue = p.queue ++ t ∷ [] })
    else blocked
