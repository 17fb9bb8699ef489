-- ===== src/Analytics/Summary.antt =====
-- GetSummary and avgMs of backend/services/analytics_service.go.
pub mod Totals
use task_execution_engine.Prelude.{
  ℕ, ◌+◌, ◌≡◌, Bool, true, false, ◌&&◌, String, Option, none, some, List, [], ◌∷◌, if◌then◌else◌,
}
use task_execution_engine.Prelude.Maps.{get, put}
use task_execution_engine.Decimal.{print}
use task_execution_engine.Models.{Task, completed}
use task_execution_engine.Database.{Database}
use task_execution_engine.Database.Outcome.{Result, ok, err}
use task_execution_engine.Database.Program.{Program, ◌>>=◌, pure}
use task_execution_engine.Analytics.{
  Floats, Reports, in_scope, has_status, is_since, is_present, failure_rate, or_nought,
}

pub record Summary (F : Type 0) : Type 0 where
  pub total_tasks : ℕ
  pub status_counts : List (String × ℕ)
  pub priority_counts : List (String × ℕ)
  pub rate_of_failure : F
  pub avg_execution_ms : F
  pub avg_queue_wait_ms : F
  pub completed_last_hour : ℕ

-- The loop over the rows of the first query.
unfoldable pub add_statuses : List (String × ℕ) → ℕ → List (String × ℕ) → ℕ × List (String × ℕ)
add_statuses [] total counts = (total, counts)
add_statuses ((status, n) ∷ rows) total counts = add_statuses rows (total + n) (put status n counts)

-- The loop over the rows of the second one.
unfoldable pub add_priorities : List (ℕ × ℕ) → List (String × ℕ) → List (String × ℕ)
add_priorities [] counts = counts
add_priorities ((priority, n) ∷ rows) counts = add_priorities rows (put (print priority) n counts)

-- The conditions and columns of the two averages.
unfoldable pub has_run : Task → Bool
has_run t = has_status completed t && is_present t.started_at && is_present t.completed_at

unfoldable pub has_started : Task → Bool
has_started t = is_present t.started_at

unfoldable pub done_last_hour : ℕ → Task → Bool
unfolding is_since
done_last_hour now t = has_status completed t && is_since now 3600000 t.completed_at

module _ (D : Database) (F : Floats) (R : Reports D F) where
  open F use {Float}

  -- An error of the query is not looked at, and leaves the row's value NULL.
  unfoldable pub scanned : Result D.Fault (Option Float) → Float
  unfolding or_nought
  scanned (ok a) = or_nought F a
  scanned (err e) = F.nought

  unfoldable pub avg_ms :
      Bool → String → (Task → Bool) → (Task → Option ℕ) → (Task → Option ℕ) → Program D Float
  unfolding in_scope scanned
  avg_ms all_clients client_id cond start_col end_col db =
      let (db', r) =
        R.average (λ t. in_scope all_clients client_id t && cond t) start_col end_col db in
      (db', ok (scanned r))

  -- The fields of the summary, from the results of the five queries.
  unfoldable pub summarise : List (String × ℕ) → List (ℕ × ℕ) → Float → Float → ℕ → Summary Float
  unfolding add_statuses add_priorities failure_rate
  summarise status_rows priority_rows avg_execution avg_wait last_hour =
      let (total, counts) = add_statuses status_rows 0 [] in
      record {
        total_tasks = total;
        status_counts = counts;
        priority_counts = add_priorities priority_rows [];
        rate_of_failure = failure_rate F (get "completed" counts) (get "failed" counts);
        avg_execution_ms = avg_execution;
        avg_queue_wait_ms = avg_wait;
        completed_last_hour = last_hour;
      }

  unfoldable pub get_summary : Bool → String → ℕ → Program D (Summary Float)
  unfolding in_scope avg_ms has_run has_started done_last_hour summarise
  get_summary all_clients client_id now = do
    status_rows ← R.count_statuses (in_scope all_clients client_id)
    priority_rows ← R.count_priorities (in_scope all_clients client_id)
    avg_execution ← avg_ms all_clients client_id has_run (λ t. t.started_at) (λ t. t.completed_at)
    avg_wait ← avg_ms all_clients client_id has_started (λ t. some t.created_at) (λ t. t.started_at)
    last_hour ← R.count_rows (λ t. in_scope all_clients client_id t && done_last_hour now t)
    pure (summarise status_rows priority_rows avg_execution avg_wait last_hour)
