-- ===== src/Tests/Server.antt =====
-- A server on the tables in memory, and requests to it.
use text.Mathlib.Text.{starts_with}
use task_execution_engine.Prelude.{
  ◌≡◌, ◌≢◌, ◌⊎◌, refl, true, false, String, none, some, Option, List, [], ◌∷◌, any, str_eq,
  str_eq_iff, arith,
}
use task_execution_engine.Decimal.{print, parse_uint}
use task_execution_engine.Models.{Task, pending, with_defaults}
use task_execution_engine.Database.Memory.{memory}
use task_execution_engine.Database.Memory.Insert.{store_row, next_id}
use task_execution_engine.TaskService.{create_task, new_row, new_task}
use task_execution_engine.RateLimit.{
  allow_n, allow_n_script, prune, add_all, tokens_asked, key_of, answer, new_limiter,
}
use task_execution_engine.Registry.{InstanceWorkers, KeyValues}
use task_execution_engine.Hub.{new_hub}
use task_execution_engine.Http.{
  Request, task, TaskBody, decoded, Json, Backend, Moment, Server, respond, with_status,
}
use task_execution_engine.Http.Tasks.{
  create, create_batch, cancel, get_by_id, validate_batch, validate_task, bind_task, bound_or,
}
use task_execution_engine.Http.Tasks.Submit as Submit
use task_execution_engine.Http.Tasks.Submit.{create_batch-Answered}
use task_execution_engine.Http.Tasks.Refusal as Refusal
use task_execution_engine.Http.Tasks.Refusal.{cancel-Answered}
use task_execution_engine.Http.Tasks.Fetch.{get_by_id-create}
use task_execution_engine.Http.Router as Router
use task_execution_engine.Http.Router.{route, protected, serve}
use task_execution_engine.Http.Router.Access.{IsRejected, IsAdmitted, serve-IsAdmitted}
use task_execution_engine.Http.Router.Tenant.{Isolated}
use task_execution_engine.Http.Router.Isolation.{serve-Isolated}
use task_execution_engine.Tests.Limits.{in_memory, limiter, empty}
use task_execution_engine.Tests.Listings.{listings}
use task_execution_engine.Tests.Reports.{reports, whole}
use task_execution_engine.Tests.Keys.{keys, with_keys}

abbrev email : TaskBody
email = record { task_type = "send_email"; priority = 5; payload = "{}"; max_retries = none }

-- Every text decodes to the same task, or to the same two.
abbrev json : Json
json = record {
  decode_task = λ body. decoded email;
  decode_batch = λ body. decoded (email ∷ email ∷ []);
  refusal = λ b. "invalid";
  batch_refusal = λ bs. "invalid";
}

not_done : false ≡ true → ⊥
not_done h = cc

not_marshalled :
    (i : InstanceWorkers) (text : String)
    → ◌≡◌ {A = Option String} none (some text)
    → ◌≡◌ {A = Option InstanceWorkers} none (some i)
not_marshalled i text h = cc

no_keys :
    (prefix : String) (s : in_memory.Store) (ks : List String)
    → ◌≡◌ {A = Option (List String)} none (some ks)
    → (k : String)
    → (any (str_eq k) ks ≡ true → starts_with k prefix ≡ true)
      × ((v : String)
          → ◌≡◌ {A = Option String} none (some v)
          → starts_with k prefix ≡ true
          → any (str_eq k) ks ≡ true)
no_keys prefix s ks h k = cc

-- A Redis that holds no string.
abbrev no_values : KeyValues in_memory.Store
no_values = record {
  contents = λ s k. none;
  keys = λ prefix s. none;
  keys_law = no_keys;
  get = λ k s. none;
  get_law = λ k s v h. h;
  set = λ k v ttl s. (s, false);
  set_law = λ k v ttl s. (λ h. absurd (not_done h), λ j h. refl);
  del = λ k s. (s, true);
  del_law = λ k s. (λ h. refl, λ j h. refl);
}

abbrev backend : Backend
backend = record {
  database = memory;
  listings = listings;
  keys = keys;
  floats = whole;
  reports = reports;
  redis = in_memory;
  limiter = limiter;
  values = no_values;
  snapshots = record {
    marshal = λ i. none;
    unmarshal = λ text. none;
    unmarshal_law = not_marshalled;
  };
  json = json;
  to_lower = λ s. s;
  time_text = print;
}

abbrev server : Server backend
server = record { db = with_keys; store = empty; hub = new_hub }

abbrev moment : Moment
moment = record { now = 200; unix = 1000; base = "m"; draw = λ k. k }

abbrev request : String → List String → String → Request
request method path key = record {
  method = method;
  path = path;
  api_key = key;
  query = λ name. "";
  body = "{}";
}

abbrev cancel_two : Request
cancel_two = request "POST" ("api" ∷ "tasks" ∷ "2" ∷ "cancel" ∷ []) "key-alpha"

serve-IsAdmitted_example :
    IsRejected backend server (serve backend moment cancel_two server)
    ⊎ IsAdmitted backend moment cancel_two
        (Router.cancel "2")
        server
        (serve backend moment cancel_two server)
unfolding route str_eq
serve-IsAdmitted_example =
    serve-IsAdmitted backend moment cancel_two (Router.cancel "2") server refl

serve-Isolated_example :
    Isolated backend moment "alpha" with_keys.tables (serve backend moment cancel_two server)
unfolding route str_eq
serve-Isolated_example =
    serve-Isolated backend moment cancel_two "alpha" (Router.cancel "2") server refl refl not_all
      (λ e. refl, (λ e. absurd (other e), tt))
  where
    not_all : ◌≢◌ {A = String} "" "true"
    not_all e = let q : false ≡ true = (str_eq_iff "" "true").1 e in cc

    other : ◌≢◌ {A = String} "key-beta" "key-alpha"
    other e = let q : false ≡ true = (str_eq_iff "key-beta" "key-alpha").1 e in cc

create_batch-Answered_example :
    Submit.Answered backend moment "alpha" server
      (validate_batch json (decoded (email ∷ email ∷ [])))
      (create_batch backend moment "alpha" "[]" server)
create_batch-Answered_example = create_batch-Answered backend moment "alpha" "[]" server

cancel-Answered_example :
    Refusal.Answered backend moment "beta" server
      (parse_uint 64 "3")
      (cancel backend moment "beta" "3" server)
cancel-Answered_example = cancel-Answered backend moment "beta" "3" server (omega arith)

-- The task that the request creates.
abbrev created_task : Task
created_task = record {
  id = 7;
  client_id = "alpha";
  task_type = "send_email";
  priority = 5;
  payload = "{}";
  status = pending;
  retry_count = 0;
  max_retries = 3;
  error_message = none;
  processed_by = none;
  created_at = 100;
  started_at = none;
  completed_at = none;
}

get_by_id-create_example :
    let (s', r) =
      get_by_id backend "alpha" (print 7) (create backend moment "alpha" "{}" server).0 in
    (r.status ≡ 200) × (r.body ≡ task created_task)
unfolding create create_task new_row new_task store_row next_id with_defaults respond with_status
    validate_task bind_task bound_or allow_n allow_n_script prune add_all tokens_asked key_of answer
    new_limiter str_eq
get_by_id-create_example =
    get_by_id-create backend moment "alpha" "{}" server created_task (omega arith) (λ f. elim f [ ])
      refl (omega arith)
