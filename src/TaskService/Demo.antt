-- ===== src/TaskService/Demo.antt =====
-- AddDemoTasks of backend/services/task_service.go. `draw k` is the k-th random number, of which
-- rand.Intn takes the remainder.
pub mod Rows
use task_execution_engine.Prelude.{
  ℕ, zero, suc, ◌+◌, ◌*◌, ◌%◌, Bool, String, none, List, [], ◌∷◌, length,
}
use task_execution_engine.Models.{Task, ApiKey, pending}
use task_execution_engine.Database.{Database}
use task_execution_engine.Database.Keys.{Keys}
use task_execution_engine.Database.Program.{Program, ◌>>=◌, ◌>>◌, pure}

module _ {A : Type 0} where
  -- xs[i], where i is within the slice.
  unfoldable pub index : A → List A → ℕ → A
  index d [] i = d
  index d (x ∷ xs) zero = x
  index d (x ∷ xs) (suc i) = index d xs i

  -- xs[rand.Intn(len(xs))]
  unfoldable pub pick : A → List A → ℕ → A
  unfolding index
  pick d xs r = index d xs (r % length xs)

abbrev pub demo_types : List String
demo_types = "send_email" ∷ "send_sms" ∷ "generate_report" ∷ "resize_image" ∷ []

-- An empty list of clients is replaced.
unfoldable pub or_alpha : List String → List String
or_alpha [] = "alpha" ∷ []
or_alpha (c ∷ cs) = c ∷ cs

-- The nil payload is the empty text.
unfoldable pub demo_task : List String → (ℕ → ℕ) → ℕ → Task
unfolding pick
demo_task clients draw k = record {
  id = 0;
  client_id = pick "" clients (draw k);
  task_type = pick "" demo_types (draw (k + 1));
  priority = draw (k + 2) % 5 + 1;
  payload = "";
  status = pending;
  retry_count = 0;
  max_retries = 3;
  error_message = none;
  processed_by = none;
  created_at = 0;
  started_at = none;
  completed_at = none;
}

-- Three numbers are drawn for each task.
unfoldable pub demo_tasks : List String → (ℕ → ℕ) → ℕ → ℕ → List Task
unfolding demo_task
demo_tasks clients draw k zero = []
demo_tasks clients draw k (suc n) = demo_task clients draw k ∷ demo_tasks clients draw (k + 3) n

abbrev pub is_active : ApiKey → Bool
is_active k = k.active

module _ (D : Database) (K : Keys D) where
  unfoldable pub add_demo_tasks : (ℕ → ℕ) → ℕ → Program D (Unit {0})
  unfolding or_alpha demo_tasks
  add_demo_tasks draw n = do
    found ← K.pluck_clients is_active
    D.insert_tasks (demo_tasks (or_alpha found) draw 0 n)
    pure tt
