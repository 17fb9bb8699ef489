-- ===== src/Http/Router/Tenant.antt =====
-- What a response may show to a client, and what a request of a client may change.
use task_execution_engine.Prelude.{ℕ, ◌≡◌, ◌^◌, ◌<◌, false, Bool, String, List, [], All, str_eq}
use task_execution_engine.Database.Program.{Ends}
use task_execution_engine.Models.{Task, Tables}
use task_execution_engine.Database.Outcome.{
  Result, Error, ok, err, Post-mono, Faulted, record_not_found, no_task, not_cancellable, fault,
}
use task_execution_engine.TaskService.Tenancy.{IsIsolated, same-IsIsolated, Faulted-same}
use task_execution_engine.Analytics.Summary.Totals.{Summed}
use task_execution_engine.Analytics.Throughput.Buckets.{Throughput}
use task_execution_engine.Analytics.Types.Statuses.{AreStats}
use task_execution_engine.Http.{
  Body, message, task, created, added, page, cleared, healthy, summary, throughput, types,
  instances, stream, Backend, Moment, Server, Handled, with_status, respond, respond_error,
}

module _ (B : Backend) (m : Moment) (c : String) (T : Tables) where
  open B use {database, floats, time_text}

  abbrev pub own_row : Task → Bool
  own_row t = str_eq t.client_id c

  -- A body shows the client's own tasks, and counts those; it is no list of the workers' tasks.
  abbrev pub ShowsOwn : Body floats.Float → Type 0
  ShowsOwn (task t) = t.client_id ≡ c
  ShowsOwn (page p) = All (λ t. t.client_id ≡ c) p.tasks
  ShowsOwn (summary x) = All (λ t. t.priority < 2 ^ 64) T.tasks → Summed floats T own_row m.now x
  ShowsOwn (throughput qs) = Throughput floats time_text own_row m.now m.unix T.tasks qs
  ShowsOwn (types stats) = AreStats floats database.weight false c T.tasks stats
  ShowsOwn (message text) = Unit {0}
  ShowsOwn (created n) = Unit {0}
  ShowsOwn (added n) = Unit {0}
  ShowsOwn cleared = Unit {0}
  ShowsOwn healthy = Unit {0}
  ShowsOwn (instances is) = ⊥
  ShowsOwn (stream handle) = Unit {0}

  -- The response, and the tables after it.
  pub record Isolated (h : Handled B) : Type 0 where
    pub tables : IsIsolated c T (database.tables h.0.db)
    pub shown : ShowsOwn h.1.body

  error-ShowsOwn :
      {X : Type 0} (headers : List (String × String)) (e : Error X)
      → ShowsOwn (respond_error headers e).body
  unfolding respond_error with_status
  error-ShowsOwn headers record_not_found = tt
  error-ShowsOwn headers no_task = tt
  error-ShowsOwn headers not_cancellable = tt
  error-ShowsOwn headers (fault f) = tt

  pub respond-Isolated :
      {A : Type 0} (status : ℕ) (headers : List (String × String)) (body : A → Body floats.Float)
      (s : Server B) (p : database.Db × Result database.Fault A)
      → Ends database (λ a T'. IsIsolated c T T' × ShowsOwn (body a)) (λ _ T'. IsIsolated c T T') p
      → Isolated (respond B status headers body s p)
  unfolding respond with_status
  respond-Isolated status headers body s (db, ok a) h = record { tables = h.0; shown = h.1 }
  respond-Isolated status headers body s (db, err e) h = record {
    tables = h;
    shown = error-ShowsOwn headers e;
  }

  pub same-Isolated :
      (s : Server B) (status : ℕ) (headers : List (String × String)) (b : Body floats.Float)
      → database.tables s.db ≡ T
      → ShowsOwn b
      → Isolated (s, with_status status headers b)
  unfolding with_status
  same-Isolated s status headers b e h = record {
    tables = same-IsIsolated c T (database.tables s.db) e;
    shown = h;
  }

  -- A read that the same tables follow.
  pub reads-Isolated :
      {A : Type 0} (G : A → Type 0) (body : A → Body floats.Float) (s : Server B)
      (p : database.Db × Result database.Fault A)
      → Ends database (λ a T'. (T' ≡ T) × G a) (Faulted T) p
      → ((a : A) → G a → ShowsOwn (body a))
      → Isolated (respond B 200 [] body s p)
  reads-Isolated G body s (db, r) h g =
      respond-Isolated 200 [] body s (db, r)
        (Post-mono (λ a T'. (T' ≡ T) × G a) (λ a T'. IsIsolated c T T' × ShowsOwn (body a))
          (Faulted T) (λ _ T'. IsIsolated c T T') r (database.tables db)
          (λ a k. (same-IsIsolated c T (database.tables db) k.0, g a k.1))
          (λ e k.
            same-IsIsolated c T (database.tables db) (Faulted-same T (database.tables db) e k))
          h)
