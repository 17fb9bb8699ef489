-- ===== src/Seed.antt =====
-- backend/database/seed.go: Seed. `draw k` is the k-th random number, of which rand.Intn takes the
-- remainder; `clock i` is time.Now() at the i-th task, in milliseconds and at least 12 hours; `payload`
-- is the JSON text of the i-th task, as the column holds it.
pub mod Rows
use task_execution_engine.Prelude.{
  ℕ, zero, suc, ◌+◌, ◌-◌, ◌*◌, ◌%◌, ltb, true, String, none, some, List, [], ◌∷◌, if◌then◌else◌,
}
use task_execution_engine.Models.{
  Task, ApiKey, Status, pending, running, completed, failed, cancelled,
}
use task_execution_engine.Database.{Database}
use task_execution_engine.Database.Keys.{Keys}
use task_execution_engine.Database.Program.{Program, ◌>>=◌, ◌>>◌, pure}
use task_execution_engine.TaskService.Demo.{pick}

abbrev pub seed_key : String → String → String → ApiKey
seed_key api_key client_id client_name = record {
  id = 0;
  api_key = api_key;
  client_id = client_id;
  client_name = client_name;
  active = true;
  created_at = 0;
}

abbrev pub seed_clients : List ApiKey
seed_clients =
    seed_key "key-alpha" "alpha" "Alpha Corp"
    ∷ seed_key "key-beta" "beta" "Beta Inc"
    ∷ seed_key "key-gamma" "gamma" "Gamma LLC"
    ∷ seed_key "key-delta" "delta" "Delta Co"
    ∷ seed_key "key-test" "test" "Test Client"
    ∷ []

abbrev pub seed_task_types : List String
seed_task_types = "send_email" ∷ "resize_image" ∷ "generate_report" ∷ "call_webhook" ∷ []

abbrev pub status_pool : List Status
status_pool =
    completed ∷ completed ∷ completed ∷ completed ∷ pending ∷ pending ∷ failed ∷ running ∷ []

-- The switch on the status, with the two random numbers that it may draw.
unfoldable pub with_history : Status → ℕ → ℕ → Task → Task
with_history running r r' t = record t {
  started_at = some (t.created_at + 60000);
  processed_by = some "backend-1";
}
with_history completed r r' t = record t {
  started_at = some (t.created_at + 60000);
  completed_at = some (t.created_at + 60000 + (r % 120 + 1) * 1000);
  processed_by = some "backend-1";
}
with_history failed r r' t = record t {
  started_at = some (t.created_at + 60000);
  completed_at = some (t.created_at + 60000 + (r % 120 + 1) * 1000);
  retry_count = r' % 3;
  error_message = some "simulated failure during processing";
  processed_by = some "backend-1";
}
with_history pending r r' t = t
with_history cancelled r r' t = t

-- How many numbers a task draws.
unfoldable pub draws : Status → ℕ
draws completed = 6
draws failed = 7
draws pending = 5
draws running = 5
draws cancelled = 5

module _ (clock : ℕ → ℕ) (draw : ℕ → ℕ) (payload : ℕ → String) where
  unfoldable pub status_at : ℕ → Status
  unfolding pick
  status_at k = pick pending status_pool (draw (k + 1))

  -- The struct literal of the i-th task, whose numbers start with the k-th.
  unfoldable pub plain_task : ℕ → ℕ → Task
  unfolding pick status_at
  plain_task i k = record {
    id = 0;
    client_id = (pick (seed_key "" "" "") seed_clients (draw k)).client_id;
    task_type = pick "" seed_task_types (draw (k + 3));
    priority = draw (k + 4) % 5 + 1;
    payload = payload i;
    status = status_at k;
    retry_count = 0;
    max_retries = 3;
    error_message = none;
    processed_by = none;
    created_at = clock i - draw (k + 2) % 720 * 60000;
    started_at = none;
    completed_at = none;
  }

  unfoldable pub seed_task : ℕ → ℕ → Task
  unfolding with_history plain_task
  seed_task i k = with_history (status_at k) (draw (k + 5)) (draw (k + 6)) (plain_task i k)

  -- The loop, n rounds before its end.
  unfoldable pub seed_tasks : ℕ → ℕ → ℕ → List Task
  unfolding seed_task draws
  seed_tasks i k zero = []
  seed_tasks i k (suc n) = seed_task i k ∷ seed_tasks (i + 1) (k + draws (status_at k)) n

  module _ (D : Database) (K : Keys D) where
    unfoldable pub seed_empty : Program D (Unit {0})
    unfolding seed_tasks
    seed_empty = do K.insert_keys seed_clients; D.insert_tasks (seed_tasks 0 0 60); pure tt

    unfoldable pub seed_counted : ℕ → Program D (Unit {0})
    unfolding seed_empty
    seed_counted count = if ltb 0 count then pure tt else seed_empty

    unfoldable pub seed : Program D (Unit {0})
    unfolding seed_counted
    seed = do count ← K.count_keys; seed_counted count
