-- ===== src/Watchdog.antt =====
-- backend/watchdog/watchdog.go: one sweep over the tasks that are stuck. `clock n` is the time at
-- the n-th task and `done n` whether the context is done at the n-th look; the timeout's text, as
-- its String method prints it, is an argument.
pub mod Loop
pub mod Sweep
use Prim.Native.String.{◌++◌ as text_append}
use task_execution_engine.Prelude.{ℕ, ◌+◌, Bool, String, List, [], ◌∷◌, if◌then◌else◌}
use task_execution_engine.Models.{Task}
use task_execution_engine.Database.{Database}
use task_execution_engine.Database.Outcome.{Result, ok, err}
use task_execution_engine.TaskService.{find_stale_running_tasks, fail_task}

pub record Watchdog : Type 0 where
  pub interval : ℕ
  pub timeout : ℕ

unfoldable pub timeout_reason : String → String
timeout_reason timeout =
    text_append "task timed out: stuck in 'running' beyond " (text_append timeout " (watchdog)")

module _ (D : Database) (clock : ℕ → ℕ) (done : ℕ → Bool) (timeout_text : String) where
  -- The loop over the stale tasks, from the n-th on; an error of FailTask is logged, and the loop
  -- goes on.
  unfoldable pub recover : ℕ → List Task → D.Db → D.Db
  unfolding timeout_reason
  recover n [] db = db
  recover n (t ∷ ts) db =
      let rest = recover (n + 1) ts (fail_task D (clock n) t (timeout_reason timeout_text) db).0 in
      if done n then db else rest

  unfoldable pub recover_found : D.Db → Result D.Fault (List Task) → D.Db
  recover_found db (err e) = db
  recover_found db (ok ts) = recover 0 ts db

  unfoldable pub sweep : Watchdog → ℕ → D.Db → D.Db
  unfolding recover_found
  sweep w now db = let (db', r) = find_stale_running_tasks D now w.timeout db in recover_found db' r
