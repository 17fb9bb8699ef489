-- ===== src/Http/Router/Isolation.antt =====
-- Tenants: what a client's requests can show and change.
use task_execution_engine.Prelude.{
  ℕ, ◌≡◌, ◌≢◌, refl, sym, subst, inl, inr, Bool, true, false, String, Option, none, some, List, [],
  ◌∷◌, All, All_mono, All-mem, str_eq, str_eq_iff, Bool-cases,
}
use task_execution_engine.Decimal.{parse_uint, print}
use task_execution_engine.Database.Program.{Ends, Ends-mono}
use task_execution_engine.Database.Outcome.{Faulted}
use task_execution_engine.TaskService.{
  CreateTaskInput, create_task, batch_create_tasks, get_task, cancel_task,
}
use task_execution_engine.TaskService.Listing.{list_tasks}
use task_execution_engine.TaskService.Listing.Page.{Listed, list_tasks-Listed}
use task_execution_engine.TaskService.Tenancy.{
  IsIsolated, same-IsIsolated, create_task-Isolates, batch_create_tasks-IsIsolated,
  get_task-Isolates, cancel_task-Isolates,
}
use task_execution_engine.RateLimit.{Answer, allowed, denied, failed}
use task_execution_engine.Analytics.Summary.{get_summary}
use task_execution_engine.Analytics.Summary.Totals.{get_summary-reads}
use task_execution_engine.Analytics.Throughput.{get_throughput}
use task_execution_engine.Analytics.Throughput.Buckets.{get_throughput-ArePoints}
use task_execution_engine.Analytics.Types.{get_type_breakdown}
use task_execution_engine.Analytics.Types.Statuses.{get_type_breakdown-IsStat}
use task_execution_engine.Http.{
  Request, task, created, page, summary, throughput, types, Backend, Moment, Server, Handled,
  bad_request,
}
use task_execution_engine.Http.Tasks as Tasks
use task_execution_engine.Http.Tasks.{Bound, bound, refused, Gate, passes, limited, gate_of}
use task_execution_engine.Http.Pages.{
  show_summary, show_throughput, show_types, list_workers, open_stream,
}
use task_execution_engine.Http.Router as R
use task_execution_engine.Http.Router.{Route, protected, route, handle, serve}
use task_execution_engine.Http.Router.Tenant.{
  ShowsOwn, Isolated, respond-Isolated, same-Isolated, reads-Isolated,
}
use task_execution_engine.Http.Router.Access.{serve-IsAdmitted, IsAdmitted, IsRejected}

-- The routes that are for all clients: those of the demo, and the workers of all instances with the
-- tasks that they run.
abbrev pub is_shared : Route → Bool
is_shared R.seed_demo = true
is_shared R.clear_demo = true
is_shared R.workers = true
is_shared _ = false

module _ (B : Backend) (m : Moment) (c : String) (s : Server B) where
  open B use {database, listings, floats, reports, redis, limiter, json, to_lower, time_text}

  abbrev IsolatedHere : Handled B → Type 0
  IsolatedHere = Isolated B m c (database.tables s.db)

  create_gated-Isolated :
      (input : CreateTaskInput) (a : Answer) (store : redis.Store)
      → IsolatedHere
          (Tasks.create_gated B c input (gate_of limiter.max a) (record s { store = store }))
  unfolding Tasks.create_gated gate_of
  create_gated-Isolated input denied store =
      same-Isolated B m c (database.tables s.db) (record s { store = store }) 429 _ _ refl tt
  create_gated-Isolated input failed store =
      respond-Isolated B m c (database.tables s.db) 201 [] task (record s { store = store })
        (create_task database c input s.db) (create_task-Isolates database c input s.db)
  create_gated-Isolated input (allowed n) store =
      respond-Isolated B m c (database.tables s.db) 201 (("X-RateLimit-Remaining", print n) ∷ [])
        task (record s { store = store }) (create_task database c input s.db)
        (create_task-Isolates database c input s.db)

  create_bound-Isolated : (b : Bound CreateTaskInput) → IsolatedHere (Tasks.create_bound B m c b s)
  unfolding Tasks.create_bound Tasks.rate_limited bad_request
  create_bound-Isolated (refused text) =
      same-Isolated B m c (database.tables s.db) s 400 [] _ refl tt
  create_bound-Isolated (bound input) = create_gated-Isolated input _ _

  batch_rows :
      (inputs : List CreateTaskInput)
      → Ends database
          (λ n T'. IsIsolated c (database.tables s.db) T' × Unit {0})
          (λ _ T'. IsIsolated c (database.tables s.db) T')
          (batch_create_tasks database c inputs s.db)
  batch_rows inputs =
      Ends-mono database (λ _ T'. IsIsolated c (database.tables s.db) T')
        (λ n T'. IsIsolated c (database.tables s.db) T' × Unit {0})
        (λ _ T'. IsIsolated c (database.tables s.db) T') (batch_create_tasks database c inputs s.db)
        (λ n T' h. (h, tt)) (batch_create_tasks-IsIsolated database c inputs s.db)

  batch_gated-Isolated :
      (inputs : List CreateTaskInput) (a : Answer) (store : redis.Store)
      → IsolatedHere
          (Tasks.batch_gated B c inputs (gate_of limiter.max a) (record s { store = store }))
  unfolding Tasks.batch_gated gate_of
  batch_gated-Isolated inputs denied store =
      same-Isolated B m c (database.tables s.db) (record s { store = store }) 429 _ _ refl tt
  batch_gated-Isolated inputs failed store =
      respond-Isolated B m c (database.tables s.db) 201 [] created (record s { store = store })
        (batch_create_tasks database c inputs s.db) (batch_rows inputs)
  batch_gated-Isolated inputs (allowed n) store =
      respond-Isolated B m c (database.tables s.db) 201 (("X-RateLimit-Remaining", print n) ∷ [])
        created (record s { store = store }) (batch_create_tasks database c inputs s.db)
        (batch_rows inputs)

  batch_bound-Isolated :
      (b : Bound (List CreateTaskInput)) → IsolatedHere (Tasks.batch_bound B m c b s)
  unfolding Tasks.batch_bound Tasks.rate_limited bad_request
  batch_bound-Isolated (refused text) =
      same-Isolated B m c (database.tables s.db) s 400 [] _ refl tt
  batch_bound-Isolated (bound inputs) = batch_gated-Isolated inputs _ _

  get_parsed-Isolated : (id : Option ℕ) → IsolatedHere (Tasks.get_parsed B c id s)
  unfolding Tasks.get_parsed bad_request
  get_parsed-Isolated none = same-Isolated B m c (database.tables s.db) s 400 [] _ refl tt
  get_parsed-Isolated (some id) =
      respond-Isolated B m c (database.tables s.db) 200 [] task s (get_task database c id s.db)
        (get_task-Isolates database c id s.db)

  cancel_parsed-Isolated : (id : Option ℕ) → IsolatedHere (Tasks.cancel_parsed B m c id s)
  unfolding Tasks.cancel_parsed bad_request
  cancel_parsed-Isolated none = same-Isolated B m c (database.tables s.db) s 400 [] _ refl tt
  cancel_parsed-Isolated (some id) =
      respond-Isolated B m c (database.tables s.db) 200 [] task s
        (cancel_task database m.now c id s.db) (cancel_task-Isolates database c m.now id s.db)

  module _ (query : String → String) (own : str_eq (query "all") "true" ≡ false) where
    list-Isolated : IsolatedHere (Tasks.list B c query s)
    unfolding Tasks.list Tasks.filter_of
    list-Isolated =
        let T = database.tables s.db in
        let f = Tasks.filter_of query in
        reads-Isolated B m c T (λ p. All (λ t. t.client_id ≡ c) p.tasks) page s
          (list_tasks database listings to_lower c f s.db)
          (Ends-mono database (Listed database listings to_lower T c f)
            (λ p T'. (T' ≡ T) × All (λ t. t.client_id ≡ c) p.tasks) (Faulted T)
            (list_tasks database listings to_lower c f s.db)
            (λ p T' h. (h.same, All_mono _ _ p.tasks (λ t k. k.1.own own) h.rows))
            (list_tasks-Listed database listings to_lower c f s.db))
          (λ p h. h)

    summary-Isolated : IsolatedHere (show_summary B m c query s)
    unfolding show_summary
    summary-Isolated = rw own (
        reads-Isolated B m c (database.tables s.db)
          (λ x. ShowsOwn B m c (database.tables s.db) (summary x)) summary s
          (get_summary database floats reports false c m.now s.db)
          (get_summary-reads database floats reports false c m.now s.db) (λ x h. h))

    throughput-Isolated : IsolatedHere (show_throughput B m c query s)
    unfolding show_throughput
    throughput-Isolated = rw own (
        reads-Isolated B m c (database.tables s.db)
          (λ x. ShowsOwn B m c (database.tables s.db) (throughput x)) throughput s
          (get_throughput database floats reports time_text false c m.now m.unix s.db)
          (get_throughput-ArePoints database floats reports time_text false c m.now m.unix s.db)
          (λ x h. h))

    types-Isolated : IsolatedHere (show_types B c query s)
    unfolding show_types
    types-Isolated = rw own (
        reads-Isolated B m c (database.tables s.db)
          (λ x. ShowsOwn B m c (database.tables s.db) (types x)) types s
          (get_type_breakdown database floats reports false c s.db)
          (Ends-mono database _
            (λ x T'. (T' ≡ database.tables s.db) × ShowsOwn B m c (database.tables s.db) (types x))
            (Faulted (database.tables s.db))
            (get_type_breakdown database floats reports false c s.db) (λ x T' h. (h.0, h.1))
            (get_type_breakdown-IsStat database floats reports false c s.db))
          (λ x h. h))

  handle-Isolated :
      (r : Request) (target : Route)
      → is_shared target ≡ false
      → str_eq (r.query "all") "true" ≡ false
      → IsolatedHere (handle B m r c target s)
  unfolding handle Tasks.create Tasks.create_batch Tasks.get_by_id Tasks.cancel list_workers
      open_stream
  handle-Isolated r R.create d own = create_bound-Isolated _
  handle-Isolated r R.create_batch d own = batch_bound-Isolated _
  handle-Isolated r R.list d own = list-Isolated r.query own
  handle-Isolated r (R.get_by_id id) d own = get_parsed-Isolated (parse_uint 64 id)
  handle-Isolated r (R.cancel id) d own = cancel_parsed-Isolated (parse_uint 64 id)
  handle-Isolated r R.summary d own = summary-Isolated r.query own
  handle-Isolated r R.throughput d own = throughput-Isolated r.query own
  handle-Isolated r R.types d own = types-Isolated r.query own
  handle-Isolated r R.workers d own = absurd (never d)
    where
      never : true ≡ false → ⊥
      never e = cc
  handle-Isolated r R.events d own = same-Isolated B m c (database.tables s.db) _ 200 _ _ refl tt
  handle-Isolated r R.seed_demo d own = absurd (never d)
    where
      never : true ≡ false → ⊥
      never e = cc
  handle-Isolated r R.clear_demo d own = absurd (never d)
    where
      never : true ≡ false → ⊥
      never e = cc

-- A request to a protected route, other than those of the demo and the list of the workers and
-- without all=true, where the stored keys that compare equal to its key are of one client only,
-- leaves the rows of all other clients as they are, in their order, and the dead letters and keys
-- too; the tasks that its response shows are the client's own, it shows no list of workers, and the
-- numbers of its reports count the rows of that client_id only: of a throughput report and of a
-- breakdown by type always, of a summary if the priorities are below 2^64. What a stream that it opens
-- carries afterwards is no part of the response.
pub serve-Isolated :
    (B : Backend) (m : Moment) (r : Request) (c : String) (target : Route) (s : Server B)
    → route r.method r.path ≡ some (protected target)
    → is_shared target ≡ false
    → r.query "all" ≢ "true"
    → All
        (λ k. B.database.weight k.api_key ≡ B.database.weight r.api_key → k.client_id ≡ c)
        (B.database.tables s.db).api_keys
    → Isolated B m c (B.database.tables s.db) (serve B m r s)
serve-Isolated B m r c target s e d not_all one_client = elim (serve-IsAdmitted B m r target s e) [
  | inl h ↦ turned_away h
  | inr a ↦ let_in a
]
  where
    own : str_eq (r.query "all") "true" ≡ false
    own = elim (Bool-cases (str_eq (r.query "all") "true")) [
      | inl q ↦ absurd (not_all ((str_eq_iff (r.query "all") "true").0 q))
      | inr q ↦ q
    ]

    turned_away :
        IsRejected B s (serve B m r s) → Isolated B m c (B.database.tables s.db) (serve B m r s)
    turned_away h = record {
      tables = same-IsIsolated c (B.database.tables s.db) _ h.untouched.tables;
      shown = subst (ShowsOwn B m c (B.database.tables s.db)) (sym h.body) tt;
    }

    let_in :
        IsAdmitted B m r target s (serve B m r s)
        → Isolated B m c (B.database.tables s.db) (serve B m r s)
    let_in a =
        let same_client : a.key.client_id ≡ c = All-mem _ _ one_client a.stored a.same_key in
        subst (λ T. Isolated B m c T (serve B m r s)) a.untouched.tables
          (subst (Isolated B m c (B.database.tables a.start.db)) (sym a.handled) (
            subst
              (λ k. Isolated B m c (B.database.tables a.start.db) (handle B m r k target a.start))
              (sym same_client) (handle-Isolated B m c a.start r target d own)))
