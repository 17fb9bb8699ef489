-- ===== src/Scheduler.antt =====
-- backend/scheduler/scheduler.go: the Deficit Round Robin pass. A Go `int` is kept as its 64 bits.
pub mod Turn
pub mod Pass
pub mod Guard
use Prim.Native.String.{compare}
use text.Mathlib.Text.{is_le}
use task_execution_engine.Prelude.{
  ℕ, zero, suc, ◌+◌, ◌-◌, ◌%◌, ◌^◌, ◌≡◌, ltb, str_eq, Bool, true, false, ◌&&◌, String, List, [],
  ◌∷◌, ◌++◌, filter, any, if◌then◌else◌,
}
use task_execution_engine.Prelude.Maps.{get, put}
use task_execution_engine.Models.{Task}
use task_execution_engine.Database.{Database}
use task_execution_engine.Database.Outcome.{
  Result, ok, err, no_task, record_not_found, not_cancellable, fault,
}
use task_execution_engine.TaskService.{dequeue_task_for_client, clients_with_pending_tasks}

-- The Dispatcher interface: Submit hands a task to the workers, or refuses it on shutdown.
pub record Dispatcher : Type 1 where
  pub Pool : Type 0
  pub received : Pool → List Task
  pub submit : Task → Pool → Pool × Bool
  pub submit_law :
      (t : Task) (p : Pool)
      → let (p', accepted) = submit t p in
        received p' ≡ (if accepted then received p ++ t ∷ [] else received p)

-- `a + b` and `a > 0` on int64.
unfoldable pub add_int : ℕ → ℕ → ℕ
add_int a b = (a + b) % 2 ^ 64

unfoldable pub is_positive : ℕ → Bool
is_positive a = ltb 0 a && ltb a (2 ^ 63)

-- `delete` for the clients that are not active.
unfoldable pub forget : List String → List (String × ℕ) → List (String × ℕ)
forget clients [] = []
forget clients ((c, n) ∷ m) =
    if any (str_eq c) clients then (c, n) ∷ forget clients m else forget clients m

-- sort.Strings
unfoldable pub insert : String → List String → List String
insert c [] = c ∷ []
insert c (d ∷ ds) = if is_le (compare c d) then c ∷ d ∷ ds else d ∷ insert c ds

unfoldable pub sort : List String → List String
unfolding insert
sort [] = []
sort (c ∷ cs) = insert c (sort cs)

-- NewScheduler clamps the quantum.
unfoldable pub clamp_quantum : ℕ → ℕ
clamp_quantum quantum = if is_positive quantum then quantum else 1

-- What a pass works on. `looks` counts how often it has looked at the context.
pub record World (D : Database) (P : Dispatcher) : Type 0 where
  pub db : D.Db
  pub pool : P.Pool
  pub deficits : List (String × ℕ)
  pub looks : ℕ

-- How one round of the inner loop ends: with another round, with the next client, or with the pass.
pub data Ending : Type 0 where
  again next stop : Ending

module _ (D : Database) (P : Dispatcher) (done : ℕ → Bool) (instance_id : String) where
  unfoldable pub hand_on : String → Task → World D P → World D P × Ending
  hand_on c t w =
      let (p, accepted) = P.submit t w.pool in
      if accepted
      then (record w { pool = p; deficits = put c (get c w.deficits - 1) w.deficits }, again)
      else (record w { pool = p }, stop)

  unfoldable pub claimed : String → World D P → Result D.Fault Task → World D P × Ending
  unfolding hand_on
  claimed c w (ok t) = hand_on c t w
  claimed c w (err no_task) = (record w { deficits = put c 0 w.deficits }, next)
  claimed c w (err record_not_found) = (w, next)
  claimed c w (err not_cancellable) = (w, next)
  claimed c w (err (fault f)) = (w, next)

  unfoldable pub claim_one : String → World D P → World D P × Ending
  unfolding claimed
  claim_one c w =
      let (db, r) = dequeue_task_for_client D c instance_id w.db in
      claimed c (record w { db = db; looks = w.looks + 1 }) r

  -- One round of `for s.deficits[c] > 0`; `done n` says whether the context is done at the n-th look.
  unfoldable pub round : String → World D P → World D P × Ending
  unfolding claim_one
  round c w =
      if is_positive (get c w.deficits)
      then (if done w.looks then (w, stop) else claim_one c w)
      else (w, next)

  unfoldable pub turn : ℕ → String → World D P → World D P × Bool
  turn zero c w = (w, false)
  turn (suc fuel) c w =
      let (w', ending) = round c w in
      elim ending [ again ↦ turn fuel c w' | next ↦ (w', false) | stop ↦ (w', true) ]

  -- `for _, c := range clients`, from the deficits with the quantum added.
  unfoldable pub turns : ℕ → List String → World D P → World D P × Bool
  turns quantum [] w = (w, false)
  turns quantum (c ∷ cs) w =
      let start : World D P = record w {
        deficits = put c (add_int (get c w.deficits) quantum) w.deficits;
      } in
      let (w', stopped) = turn (suc (get c start.deficits)) c start in
      let rest = turns quantum cs w' in if stopped then (w', true) else rest

  unfoldable pub serve : ℕ → World D P → Result D.Fault (List String) → World D P
  serve quantum w (err e) = w
  serve quantum w (ok []) = record w { deficits = [] }
  serve quantum w (ok (c ∷ cs)) =
      (turns quantum (sort (c ∷ cs)) (record w { deficits = forget (c ∷ cs) w.deficits })).0

  -- scheduleOnce, once it has passed the guard.
  unfoldable pub pass : ℕ → World D P → World D P
  unfolding serve
  pass quantum w =
      let (db, r) = clients_with_pending_tasks D w.db in serve quantum (record w { db = db }) r
