-- ===== src/Http/Auth.antt =====
-- backend/middleware/auth.go: APIKeyAuth.
use task_execution_engine.Prelude.{str_eq, Bool, ◌&&◌, String, [], if◌then◌else◌}
use task_execution_engine.Models.{ApiKey}
use task_execution_engine.Database.Outcome.{Result, ok, err}
use task_execution_engine.Http.{message, Response, Backend, Server, with_status}

-- WHERE api_key = ? AND active = ?; the column compares by the weight of its texts.
unfoldable pub opens : (String → String) → String → ApiKey → Bool
opens weight key k = str_eq (weight k.api_key) (weight key) && k.active

-- The request is answered, or its handler runs for the client.
pub data Admission (F : Type 0) : Type 0 where
  rejected : Response F → Admission F
  admitted : String → Admission F

unfoldable pub unauthorized : {F : Type 0} → String → Response F
unfolding with_status
unauthorized text = with_status 401 [] (message text)

-- Any error refuses the key.
unfoldable pub admission : {F X : Type 0} → Result X ApiKey → Admission F
unfolding unauthorized
admission (ok k) = admitted k.client_id
admission (err e) = rejected (unauthorized "invalid or inactive api key")

module _ (B : Backend) where
  open B use {database, keys, floats}

  unfoldable pub look_up : String → Server B → Server B × Admission floats.Float
  unfolding opens admission
  look_up key s =
      let (db, r) = keys.first_key (opens database.weight key) s.db in
      (record s { db = db }, admission r)

  unfoldable pub api_key_auth : String → Server B → Server B × Admission floats.Float
  unfolding unauthorized look_up
  api_key_auth key s =
      if str_eq key ""
      then (s, rejected (unauthorized "missing x-api-key header"))
      else look_up key s
