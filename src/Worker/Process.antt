-- ===== src/Worker/Process.antt =====
-- One task at a worker (process of backend/worker/pool.go).
use Prim.Native.String.{◌++◌ as text_append}
use task_execution_engine.Prelude.{
  ℕ, zero, suc, ◌-◌, ◌<◌, ◌≡◌, ◌≢◌, length, arith, ◌⊎◌, inl, inr, refl, ap, String, Option, none,
  some, List, [], ◌∷◌, ◌∙◌, false,
}
use task_execution_engine.Models.{Task, Tables, completed}
use task_execution_engine.Database.{Database}
use task_execution_engine.Database.Outcome.{
  Result, ok, err, Faulted, fault, no_task, not_cancellable, record_not_found,
}
use task_execution_engine.Database.Program.{Ends}
use task_execution_engine.TaskService.{mark_started, complete_task, fail_task}
use task_execution_engine.TaskService.Fail.{Failed, fail_task-Failed}
use task_execution_engine.TaskService.Report.{Wrote, mark_started-Wrote, complete_task-Wrote}
use task_execution_engine.Hub.{Hub, publish_task_event}
use task_execution_engine.Worker.{
  WorkerState, idle_state, set_state, set_busy, set_idle, Handling, returned, panicked, run_handler,
  Times, Work, publish, tell, report, process,
}

-- The state of worker i + 1.
abbrev pub state_at : ℕ → List WorkerState → Option WorkerState
state_at i [] = none
state_at zero (u ∷ us) = some u
state_at (suc i) (u ∷ us) = state_at i us

state_at-set :
    (i : ℕ) (s : WorkerState) (us : List WorkerState)
    → i < length us
    → state_at i (set_state i s us) ≡ some s
unfolding set_state
state_at-set i s [] h = absurd (omega (arith, h))
state_at-set zero s (u ∷ us) h = refl
state_at-set (suc i) s (u ∷ us) h = state_at-set i s us (omega (arith, h))

state_at-other :
    (i j : ℕ) (s : WorkerState) (us : List WorkerState)
    → j ≢ i
    → state_at j (set_state i s us) ≡ state_at j us
unfolding set_state
state_at-other i j s [] h = refl
state_at-other zero zero s (u ∷ us) h = absurd (h refl)
state_at-other zero (suc j) s (u ∷ us) h = refl
state_at-other (suc i) zero s (u ∷ us) h = refl
state_at-other (suc i) (suc j) s (u ∷ us) h = state_at-other i j s us (λ e. h (ap suc e))

length-set_state :
    (i : ℕ) (s : WorkerState) (us : List WorkerState) → length (set_state i s us) ≡ length us
unfolding set_state
length-set_state i s [] = refl
length-set_state zero s (u ∷ us) = refl
length-set_state (suc i) s (u ∷ us) = ap suc (length-set_state i s us)

module _ (D : Database) (times : Times) (t : Task) where
  abbrev pub Marked : Tables → Tables → Type 0
  Marked T T' =
      Wrote T t.id (λ r. record r { started_at = some times.started }) T' ⊎ (D.Fault × (T' ≡ T))

  abbrev pub Completes : Tables → Tables → Type 0
  Completes T T' =
      Wrote T t.id (λ r. record r { status = completed; completed_at = some times.ended }) T'

  -- The task's event is published to the hub, if there is one.
  abbrev pub Told : ℕ → String → String → Option Hub → Option Hub → Type 0
  Told now event_type status none hub' = hub' ≡ none
  Told now event_type status (some h) hub' =
      hub' ≡ some (publish_task_event h now event_type t.id t.client_id status)

  -- How a report ends: with the row completed or failed and the event of it, or with neither.
  abbrev pub Reported : Option String → Tables → Option Hub → Work D → Type 0
  Reported none T hub w' =
      (Completes T (D.tables w'.db) × Told times.reported "task.completed" "completed" hub w'.hub)
      ⊎ (D.Fault × (D.tables w'.db ≡ T) × (w'.hub ≡ hub))
  Reported (some e) T hub w' =
      (Failed T times.ended t e (D.tables w'.db)
        × Told times.reported "task.failed" "failed" hub w'.hub)
      ⊎ (D.Fault × (D.tables w'.db ≡ T) × (w'.hub ≡ hub))

  -- What a handler's end means for the task: an error that it returns, or the value of its panic.
  abbrev pub Meant : Handling → Tables → Option Hub → Work D → Type 0
  Meant (returned none) T hub w' = Reported none T hub w'
  Meant (returned (some e)) T hub w' = Reported (some e) T hub w'
  Meant (panicked v) T hub w' = Reported (some (text_append "handler panicked: " v)) T hub w'

  pub record Processed (worker_id : ℕ) (handling : Handling) (w w' : Work D) : Type 0 where
    pub between : Tables
    pub marked : Marked (D.tables w.db) between
    pub hub : Option Hub
    pub announced : Told times.announced "task.started" "running" w.hub hub
    pub reported : Meant handling between hub w'
    pub idle :
        worker_id - 1 < length w.states
        → state_at (worker_id - 1) w'.states
          ≡ some (record { busy = false; task_id = 0; task_type = ""; client_id = ""; since = 0 })
    pub others : (i : ℕ) → i ≢ worker_id - 1 → state_at i w'.states ≡ state_at i w.states

  publish-Told :
      (now : ℕ) (event_type status : String) (hub : Option Hub)
      → Told now event_type status hub (publish now event_type t status hub)
  unfolding publish
  publish-Told now event_type status none = refl
  publish-Told now event_type status (some h) = refl

  mark-Marked :
      (T : Tables) (db : D.Db) (r : Result D.Fault (Unit {0}))
      → Ends D
          (λ _. Wrote T t.id (λ r. record r { started_at = some times.started }))
          (Faulted T)
          (db, r)
      → Marked T (D.tables db)
  mark-Marked T db (ok _) h = inl h
  mark-Marked T db (err (fault f)) h = inr (f, h)
  mark-Marked T db (err no_task) h = absurd h
  mark-Marked T db (err not_cancellable) h = absurd h
  mark-Marked T db (err record_not_found) h = absurd h

  tell-Ends :
      (G : Tables → Type 0) (T : Tables) (event_type status : String) (w : Work D)
      (r : Result D.Fault (Unit {0}))
      → Ends D (λ _. G) (Faulted T) (w.db, r)
      → let w' = tell D times t event_type status r w in
        (G (D.tables w'.db) × Told times.reported event_type status w.hub w'.hub)
        ⊎ (D.Fault × (D.tables w'.db ≡ T) × (w'.hub ≡ w.hub))
  unfolding tell
  tell-Ends G T event_type status w (ok _) h =
      inl (h, publish-Told times.reported event_type status w.hub)
  tell-Ends G T event_type status w (err (fault f)) h = inr (f, h, refl)
  tell-Ends G T event_type status w (err no_task) h = absurd h
  tell-Ends G T event_type status w (err not_cancellable) h = absurd h
  tell-Ends G T event_type status w (err record_not_found) h = absurd h

  tell-states :
      (event_type status : String) (w : Work D) (r : Result D.Fault (Unit {0}))
      → (tell D times t event_type status r w).states ≡ w.states
  unfolding tell
  tell-states event_type status w (ok _) = refl
  tell-states event_type status w (err _) = refl

  report-Reported :
      (e : Option String) (w : Work D) → Reported e (D.tables w.db) w.hub (report D times t e w)
  unfolding report
  report-Reported none w =
      tell-Ends (Completes (D.tables w.db)) (D.tables w.db) "task.completed" "completed"
        (record w { db = (complete_task D times.ended t.id w.db).0 })
        (complete_task D times.ended t.id w.db).1 (complete_task-Wrote D times.ended t.id w.db)
  report-Reported (some e) w =
      tell-Ends (Failed (D.tables w.db) times.ended t e) (D.tables w.db) "task.failed" "failed"
        (record w { db = (fail_task D times.ended t e w.db).0 })
        (fail_task D times.ended t e w.db).1 (fail_task-Failed D times.ended t e w.db)

  report-states : (e : Option String) (w : Work D) → (report D times t e w).states ≡ w.states
  unfolding report
  report-states none w =
      tell-states "task.completed" "completed"
        (record w { db = (complete_task D times.ended t.id w.db).0 })
        (complete_task D times.ended t.id w.db).1
  report-states (some e) w =
      tell-states "task.failed" "failed" (record w { db = (fail_task D times.ended t e w.db).0 })
        (fail_task D times.ended t e w.db).1

  -- The states play no part in it.
  Reported-states :
      (e : Option String) (T : Tables) (hub : Option Hub) (w : Work D) (states : List WorkerState)
      → Reported e T hub w
      → Reported e T hub (record w { states = states })
  Reported-states none T hub w states h = h
  Reported-states (some e) T hub w states h = h

  run_handler-Meant :
      (handling : Handling) (T : Tables) (hub : Option Hub) (w : Work D)
      → Reported (run_handler handling) T hub w
      → Meant handling T hub w
  unfolding run_handler
  run_handler-Meant (returned none) T hub w h = h
  run_handler-Meant (returned (some e)) T hub w h = h
  run_handler-Meant (panicked v) T hub w h = h

  -- Both writes to the worker's own state, and to no other.
  process-states :
      (worker_id : ℕ) (handling : Handling) (w : Work D)
      → (process D times t worker_id handling w).states
        ≡ set_idle worker_id (set_busy times.began worker_id t w.states)
  unfolding process
  process-states worker_id handling w =
      ap (set_idle worker_id) (report-states (run_handler handling) _)

  set_idle-idle :
      (worker_id : ℕ) (us : List WorkerState)
      → worker_id - 1 < length us
      → state_at (worker_id - 1) (set_idle worker_id (set_busy times.began worker_id t us))
        ≡ some (record { busy = false; task_id = 0; task_type = ""; client_id = ""; since = 0 })
  unfolding set_idle set_busy
  set_idle-idle worker_id us h =
      state_at-set (worker_id - 1) idle_state _ (rw (length-set_state (worker_id - 1) _ us) h)

  set_idle-others :
      (worker_id i : ℕ) (us : List WorkerState)
      → i ≢ worker_id - 1
      → state_at i (set_idle worker_id (set_busy times.began worker_id t us)) ≡ state_at i us
  unfolding set_idle set_busy
  set_idle-others worker_id i us h =
      state_at-other (worker_id - 1) i idle_state _ h ∙ state_at-other (worker_id - 1) i _ us h

  -- The work on one task. The row is stamped with the start, or the database failed to, and the start
  -- is announced; then a handler that returned nil has the row completed, one that returned an error
  -- has the task retried or dead-lettered with that error, and one that panicked with the text of the
  -- panic behind "handler panicked: "; the hub, where there is one, is given the event of that, after
  -- the one of the start. Or the database fails, nothing more is written and no event says otherwise.
  -- The worker's own state ends as the idle one, and the state of every other worker is as it was.
  pub process-Processed :
      (worker_id : ℕ) (handling : Handling) (w : Work D)
      → Processed worker_id handling w (process D times t worker_id handling w)
  unfolding process
  process-Processed worker_id handling w = record {
    between = D.tables (mark_started D times.started t.id w.db).0;
    marked =
        mark-Marked (D.tables w.db) (mark_started D times.started t.id w.db).0
          (mark_started D times.started t.id w.db).1 (mark_started-Wrote D times.started t.id w.db);
    hub = publish times.announced "task.started" t "running" w.hub;
    announced = publish-Told times.announced "task.started" "running" w.hub;
    reported =
        run_handler-Meant handling _ _ _ (
          Reported-states (run_handler handling) _ _ _ _
            (report-Reported (run_handler handling) _));
    idle = λ h.
        ap (state_at (worker_id - 1)) (process-states worker_id handling w)
        ∙ set_idle-idle worker_id w.states h;
    others = λ i h.
        ap (state_at i) (process-states worker_id handling w)
        ∙ set_idle-others worker_id i w.states h;
  }
