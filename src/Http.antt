-- ===== src/Http.antt =====
-- backend/controllers, backend/middleware/auth.go and backend/routes/routes.go: the HTTP layer. What
-- Gin, encoding/json and the validator do with the text of a request is an interface; a handler takes
-- the state of the server and returns it with the response.
pub mod Tasks
pub mod Pages
pub mod Auth
pub mod Router
use task_execution_engine.Prelude.{ℕ, String, Option, List, [], ◌∷◌}
use task_execution_engine.Prelude.Int.{ℤ}
use task_execution_engine.Models.{Task}
use task_execution_engine.Database.{Database}
use task_execution_engine.Database.Outcome.{
  Result, Error, ok, err, record_not_found, no_task, not_cancellable, fault,
}
use task_execution_engine.Database.Keys.{Keys}
use task_execution_engine.TaskService.Listing.{ListTasksResult, Listings}
use task_execution_engine.Hub.{Hub}
use task_execution_engine.RateLimit.{Redis, Limiter}
use task_execution_engine.Registry.{InstanceWorkers, KeyValues, Snapshots}
use task_execution_engine.Analytics.{Floats, Reports}
use task_execution_engine.Analytics.Summary.{Summary}
use task_execution_engine.Analytics.Throughput.{ThroughputPoint}
use task_execution_engine.Analytics.Types.{TypeStat}

-- The path as its segments; `query` is c.Query, empty for a parameter that is not there, and so is
-- `api_key`, the header x-api-key.
pub record Request : Type 0 where
  pub method : String
  pub path : List String
  pub api_key : String
  pub query : String → String
  pub body : String

-- The JSON bodies; `stream` is an event stream on a subscription to the hub.
pub data Body (F : Type 0) : Type 0 where
  message : String → Body F
  task : Task → Body F
  created added : ℕ → Body F
  page : ListTasksResult → Body F
  cleared healthy : Body F
  summary : Summary F → Body F
  throughput : List (ThroughputPoint F) → Body F
  types : List (TypeStat F) → Body F
  instances : List InstanceWorkers → Body F
  stream : ℕ → Body F

pub record Response (F : Type 0) : Type 0 where
  pub status : ℕ
  pub headers : List (String × String)
  pub body : Body F

-- An element of a request's JSON, before its validation.
pub record TaskBody : Type 0 where
  pub task_type : String
  pub priority : ℕ
  pub payload : String
  pub max_retries : Option ℤ

pub data Decoded (A : Type 0) : Type 0 where
  decoded : A → Decoded A
  malformed : String → Decoded A

-- json's decoder, and the text of the validator's errors.
pub record Json : Type 0 where
  pub decode_task : String → Decoded TaskBody
  pub decode_batch : String → Decoded (List TaskBody)
  pub refusal : TaskBody → String
  pub batch_refusal : List TaskBody → String

-- What one instance is wired to.
pub record Backend : Type 1 where
  pub database : Database
  pub listings : Listings database
  pub keys : Keys database
  pub floats : Floats
  pub reports : Reports database floats
  pub redis : Redis
  pub limiter : Limiter
  pub values : KeyValues redis.Store
  pub snapshots : Snapshots
  pub json : Json
  pub to_lower : String → String
  pub time_text : ℕ → String

-- One request's readings of the clock, in milliseconds and in seconds, the random base of its
-- members in the limiter's set, and its random numbers.
pub record Moment : Type 0 where
  pub now : ℕ
  pub unix : ℕ
  pub base : String
  pub draw : ℕ → ℕ

-- What the handlers share.
pub record Server (B : Backend) : Type 0 where
  pub db : B.database.Db
  pub store : B.redis.Store
  pub hub : Hub

module _ {F : Type 0} where
  unfoldable pub with_status : ℕ → List (String × String) → Body F → Response F
  with_status status headers body = record { status = status; headers = headers; body = body }

  unfoldable pub bad_request : String → Response F
  unfolding with_status
  bad_request text = with_status 400 [] (message text)

  unfoldable pub respond_error : {X : Type 0} → List (String × String) → Error X → Response F
  unfolding with_status
  respond_error headers record_not_found = with_status 404 headers (message "task not found")
  respond_error headers not_cancellable =
      with_status 409 headers (message "task cannot be cancelled in its current state")
  respond_error headers no_task = with_status 500 headers (message "internal server error")
  respond_error headers (fault f) = with_status 500 headers (message "internal server error")

module _ (B : Backend) where
  open B use {database, floats}

  abbrev pub Handled : Type 0
  Handled = Server B × Response floats.Float

  -- `if err != nil { respondError(c, err); return }`, and a response that has a value.
  unfoldable pub respond :
      {A : Type 0}
      → ℕ
      → List (String × String)
      → (A → Body floats.Float)
      → Server B
      → database.Db × Result database.Fault A
      → Handled
  unfolding with_status respond_error
  respond status headers body s (db, ok a) =
      (record s { db = db }, with_status status headers (body a))
  respond status headers body s (db, err e) = (record s { db = db }, respond_error headers e)
