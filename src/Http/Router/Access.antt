-- ===== src/Http/Router/Access.antt =====
-- Who gets past the authentication of backend/middleware/auth.go.
use task_execution_engine.Prelude.{
  ◌≡◌, ◌≢◌, ◌⊎◌, refl, inl, inr, true, String, some, Memᴰ, str_eq, str_eq_iff, arith, Bool-cases,
}
use task_execution_engine.Models.{ApiKey}
use task_execution_engine.Database.Outcome.{
  Result, ok, err, Post, record_not_found, no_task, not_cancellable, fault,
}
use task_execution_engine.Database.Keys.{KeyNotFound}
use task_execution_engine.Http.{Request, message, Backend, Moment, Server, Handled, with_status}
use task_execution_engine.Http.Auth.{opens, unauthorized, admission, look_up, api_key_auth}
use task_execution_engine.Http.Router.{Route, protected, route, handle, admit, dispatch, serve}

module _ (B : Backend) where
  open B use {database}

  -- The same tables, Redis and hub.
  pub record IsUntouched (s s' : Server B) : Type 0 where
    pub tables : database.tables s'.db ≡ database.tables s.db
    pub store : s'.store ≡ s.store
    pub hub : s'.hub ≡ s.hub

  -- The handler ran, for the client of an active row whose key compares equal to the request's.
  pub record IsAdmitted (m : Moment) (r : Request) (target : Route) (s : Server B) (h : Handled B)
      : Type 0 where
    pub key : ApiKey
    pub stored : Memᴰ key (database.tables s.db).api_keys
    pub same_key : database.weight key.api_key ≡ database.weight r.api_key
    pub active : key.active ≡ true
    pub given : r.api_key ≢ ""
    pub start : Server B
    pub untouched : IsUntouched s start
    pub handled : h ≡ handle B m r key.client_id target start

  pub record IsRejected (s : Server B) (h : Handled B) : Type 0 where
    pub status : h.1.status ≡ 401
    pub text : String
    pub body : h.1.body ≡ message text
    pub untouched : IsUntouched s h.0

  module _ (m : Moment) (r : Request) (target : Route) (s : Server B) where
    after_look_up :
        (db : database.Db) (o : Result database.Fault ApiKey)
        → r.api_key ≢ ""
        → Post
            (λ k T'.
              (T' ≡ database.tables s.db)
              × Memᴰ k (database.tables s.db).api_keys
              × (opens database.weight r.api_key k ≡ true))
            (KeyNotFound (database.tables s.db) (opens database.weight r.api_key))
            o
            (database.tables db)
        → let h = admit B m r target (admission o) (record s { db = db }) in
          IsRejected s h ⊎ IsAdmitted m r target s h
    unfolding admission admit unauthorized with_status opens
    after_look_up db (ok k) given (same, stored, open_k) = inr (record {
      key = k;
      stored = stored;
      same_key =
          (str_eq_iff (database.weight k.api_key) (database.weight r.api_key)).0 (ground arith);
      active = ground arith;
      given = given;
      start = record s { db = db };
      untouched = record { tables = same; store = refl; hub = refl };
      handled = refl;
    })
    after_look_up db (err record_not_found) given (same, missing) = inl (record {
      status = refl;
      text = "invalid or inactive api key";
      body = refl;
      untouched = record { tables = same; store = refl; hub = refl };
    })
    after_look_up db (err (fault f)) given same = inl (record {
      status = refl;
      text = "invalid or inactive api key";
      body = refl;
      untouched = record { tables = same; store = refl; hub = refl };
    })
    after_look_up db (err no_task) given h = absurd h
    after_look_up db (err not_cancellable) given h = absurd h

    admit-IsAdmitted :
        let (s', a) = api_key_auth B r.api_key s in
        let h = admit B m r target a s' in IsRejected s h ⊎ IsAdmitted m r target s h
    unfolding api_key_auth admit unauthorized with_status look_up
    admit-IsAdmitted = elim (Bool-cases (str_eq r.api_key "")) [
      | inl e ↦ rw e (
          inl (record {
            status = refl;
            text = "missing x-api-key header";
            body = refl;
            untouched = record { tables = refl; store = refl; hub = refl };
          }))
      | inr e ↦ rw e (
          after_look_up (B.keys.first_key (opens database.weight r.api_key) s.db).0
            (B.keys.first_key (opens database.weight r.api_key) s.db).1
            (λ q. ground (arith, (str_eq_iff r.api_key "").1 q))
            (B.keys.first_key_law (opens database.weight r.api_key) s.db))
    ]

-- A request to a protected route is answered 401, with nothing written, or its handler runs for the
-- client of an active key that the column api_key compares as equal to the one that the request gave,
-- which is not empty; before that, nothing is written.
pub serve-IsAdmitted :
    (B : Backend) (m : Moment) (r : Request) (target : Route) (s : Server B)
    → route r.method r.path ≡ some (protected target)
    → IsRejected B s (serve B m r s) ⊎ IsAdmitted B m r target s (serve B m r s)
unfolding serve dispatch
serve-IsAdmitted B m r target s e = rw e (admit-IsAdmitted B m r target s)
