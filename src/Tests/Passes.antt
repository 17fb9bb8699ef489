-- ===== src/Tests/Passes.antt =====
-- A pass over the queue of two clients, with workers that take every task.
use task_execution_engine.Prelude.{
  ℕ, ◌≡◌, ◌≢◌, refl, false, true, Bool, String, List, [], ◌∷◌, ◌++◌, arith, str_eq, count, ◌≤◌,
}
use task_execution_engine.Models.{Task}
use task_execution_engine.Database.Memory.{memory}
use task_execution_engine.Scheduler.{Dispatcher, World, turn, turns}
use task_execution_engine.Prelude.Maps.{get}
use task_execution_engine.Scheduler.Turn.{Turned, turn-Turned}
use task_execution_engine.Scheduler.Pass.{Served, turns-Served}
use task_execution_engine.Scheduler.Guard.{
  fired, scheduling, Ticks, enter, tick, enters, Reach, start, later, is_scheduling, Reach-one_pass,
}
use task_execution_engine.Tests.Queue.{queue}

abbrev workers : Dispatcher
workers = record {
  Pool = List Task;
  received = λ p. p;
  submit = λ t p. (p ++ t ∷ [], true);
  submit_law = λ t p. refl;
}

abbrev world : World memory workers
world = record { db = queue; pool = []; deficits = []; looks = 0 }

abbrev never : ℕ → Bool
never _ = false

turn_example :
    let (w', stopped) =
      turn memory workers never "backend-1" 5 "alpha"
        (record world { deficits = ("alpha", 2) ∷ [] }) in
    Turned memory workers never "backend-1" "alpha"
      (record world { deficits = ("alpha", 2) ∷ [] })
      w'
      stopped
unfolding get str_eq
turn_example =
    turn-Turned memory workers never "backend-1" 5 "alpha"
      (record world { deficits = ("alpha", 2) ∷ [] }) (omega arith) (omega arith)

turns_example :
    let (w', stopped) = turns memory workers never "backend-1" 1 ("alpha" ∷ "beta" ∷ []) world in
    Served memory workers never "backend-1" 1 ("alpha" ∷ "beta" ∷ []) world w' stopped
unfolding get
turns_example =
    turns-Served memory workers never "backend-1" 1 ("alpha" ∷ "beta" ∷ []) world
      ((apart, tt), (tt, tt)) (omega arith, (omega arith, tt))
  where
    apart : ◌≢◌ {A = String} "beta" "alpha"
    apart = λ e. cc

abbrev fired_once : Ticks
fired_once = record { flag = false; routines = fired ∷ [] }

abbrev in_pass : Ticks
in_pass = record { flag = true; routines = scheduling ∷ [] }

in_pass-Reach : Reach in_pass
unfolding enter
in_pass-Reach = later (later start (tick refl)) (enters [] [] refl refl)

one_pass_example :
    (count is_scheduling in_pass.routines ≤ 1)
    × (in_pass.flag ≡ false → count is_scheduling in_pass.routines ≡ 0)
one_pass_example = Reach-one_pass in_pass-Reach
