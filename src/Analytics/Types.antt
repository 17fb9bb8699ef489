-- ===== src/Analytics/Types.antt =====
-- GetTypeBreakdown of backend/services/analytics_service.go.
pub mod Statuses
use task_execution_engine.Prelude.{ℕ, ◌+◌, ◌≡◌, Bool, String, List, [], ◌∷◌, map}
use task_execution_engine.Models.{Task}
use task_execution_engine.Database.{Database}
use task_execution_engine.Database.Outcome.{Result, ok, err}
use task_execution_engine.Database.Program.{Program, ◌>>=◌, pure}
use task_execution_engine.Analytics.{
  Floats, Reports, TypeRow, type_row_of, in_scope, failure_rate, or_nought,
}

pub record TypeStat (F : Type 0) : Type 0 where
  pub task_type : String
  pub total : ℕ
  pub completed : ℕ
  pub failed : ℕ
  pub pending : ℕ
  pub running : ℕ
  pub cancelled : ℕ
  pub rate_of_failure : F
  pub avg_execution_ms : F
  pub avg_queue_wait_ms : F

module _ (F : Floats) where
  open F use {Float}

  unfoldable pub stat_of : TypeRow Float → TypeStat Float
  unfolding failure_rate or_nought
  stat_of r = record {
    task_type = r.task_type;
    total = r.total;
    completed = r.completed;
    failed = r.failed;
    pending = r.pending;
    running = r.running;
    cancelled = r.cancelled;
    rate_of_failure = failure_rate F r.completed r.failed;
    avg_execution_ms = or_nought F r.avg_exec;
    avg_queue_wait_ms = or_nought F r.avg_wait;
  }

module _ (D : Database) (F : Floats) (R : Reports D F) where
  unfoldable pub get_type_breakdown : Bool → String → Program D (List (TypeStat F.Float))
  unfolding in_scope stat_of type_row_of
  get_type_breakdown all_clients client_id = do
    groups ← R.type_groups (in_scope all_clients client_id)
    pure (map (λ g. stat_of F (type_row_of R.mean g)) groups)
