-- ===== src/Http/Tasks/Fetch.antt =====
-- GetByID of backend/controllers/task_controller.go after Create: the task is found under its id.
use task_execution_engine.Prelude.{
  ◌^◌, ◌<◌, ◌≡◌, refl, sym, ap, subst, ◌∙◌, String, some, List, [], ◌∷◌, ◌++◌, Memᴰ, All-mem, true,
  false,
}
use task_execution_engine.Decimal.{print}
use task_execution_engine.Decimal.RoundTrip.{parse_uint-print}
use task_execution_engine.Models.{Task, Tables}
use task_execution_engine.Database.{Database}
use task_execution_engine.Database.Outcome.{
  Result, ok, err, Faulted, record_not_found, no_task, not_cancellable, fault,
}
use task_execution_engine.Database.Laws.{First, NotFound}
use task_execution_engine.Database.Program.{Ends}
use task_execution_engine.Database.Rows.{IsKeyed, find, mem-find}
use task_execution_engine.TaskService.{CreateTaskInput, create_task, get_task, is_owned}
use task_execution_engine.TaskService.Create.{CreatedOne, create_task-Created}
use task_execution_engine.TaskService.Cancel.{is_owned-IsOwn, IsOwn-is_owned}
use task_execution_engine.RateLimit.{Answer, allowed, denied, failed}
use task_execution_engine.Http.{
  Body, task, message, Backend, Moment, Server, Handled, bad_request, with_status, respond,
  respond_error,
}
use task_execution_engine.Http.Tasks.{
  Bound, bound, refused, validate_task, gate_of, rate_limited, create_gated, create_bound, create,
  get_parsed, get_by_id,
}

-- The client's own row of its id, in a table with distinct ids.
pub record IsThere (c : String) (t : Task) (T : Tables) : Type 0 where
  pub stored : Memᴰ t T.tasks
  pub owner : t.client_id ≡ c
  pub keyed : IsKeyed T.tasks

mem-last : (ts : List Task) (t : Task) → Memᴰ t (ts ++ t ∷ [])
mem-last [] t = Memᴰ.head refl
mem-last (u ∷ ts) t = Memᴰ.tail (mem-last ts t)

Created-IsThere :
    (D : Database) (c : String) (T T' : Tables) (input : CreateTaskInput) (t : Task)
    → IsKeyed T.tasks
    → CreatedOne D c input T t T'
    → IsThere c (record t { payload = D.json_column t.payload }) T'
Created-IsThere D c T T' input t k (s, (h, e)) =
    subst (λ u. IsThere c u T') (sym same)
      (record { stored = rw h.rows (mem-last T.tasks s); owner = h.new.0.owner; keyed = h.keyed k })
  where
    same : record t { payload = D.json_column t.payload } ≡ s
    same =
        ap (λ (u : Task). record u { payload = D.json_column u.payload }) e
        ∙ ap (λ x. record s { payload = x }) (sym h.new.0.payload)

module _ (B : Backend) (c : String) where
  open B use {database, limiter}

  -- A task that the response shows is stored, with its payload as the column holds it.
  abbrev ShowsStored : Handled B → Type 0
  ShowsStored (s', r) =
      (t : Task)
      → r.body ≡ task t
      → IsThere c (record t { payload = database.json_column t.payload }) (database.tables s'.db)

  message-ne-task :
      {A : Type 0} (text : String) (t : Task)
      → ◌≡◌ {A = Body B.floats.Float} (message text) (task t)
      → A
  message-ne-task text t e = cc

  respond-ShowsStored :
      (input : CreateTaskInput) (T : Tables) (headers : List (String × String)) (s : Server B)
      (p : database.Db × Result database.Fault Task)
      → IsKeyed T.tasks
      → Ends database (CreatedOne database c input T) (Faulted T) p
      → ShowsStored (respond B 201 headers task s p)
  unfolding respond with_status respond_error
  respond-ShowsStored input T headers s (db, ok u) k h t e =
      Created-IsThere database c T (database.tables db) input t k
        (subst (λ x. CreatedOne database c input T x (database.tables db)) (same e) h)
    where
      same : ◌≡◌ {A = Body B.floats.Float} (task u) (task t) → u ≡ t
      same q = cc
  respond-ShowsStored input T headers s (db, err record_not_found) k h t e = absurd h
  respond-ShowsStored input T headers s (db, err no_task) k h t e = absurd h
  respond-ShowsStored input T headers s (db, err not_cancellable) k h t e = absurd h
  respond-ShowsStored input T headers s (db, err (fault f)) k h t e = message-ne-task _ t e

  module _ (m : Moment) (s : Server B) (k : IsKeyed (database.tables s.db).tasks) where
    create_gated-ShowsStored :
        (input : CreateTaskInput) (a : Answer) (store : B.redis.Store)
        → ShowsStored (create_gated B c input (gate_of limiter.max a) (record s { store = store }))
    unfolding create_gated gate_of with_status
    create_gated-ShowsStored input denied store = λ t e. message-ne-task _ t e
    create_gated-ShowsStored input failed store =
        respond-ShowsStored input (database.tables s.db) [] (record s { store = store })
          (create_task database c input s.db) k (create_task-Created database c input s.db)
    create_gated-ShowsStored input (allowed n) store =
        respond-ShowsStored input (database.tables s.db) (("X-RateLimit-Remaining", print n) ∷ [])
          (record s { store = store }) (create_task database c input s.db) k
          (create_task-Created database c input s.db)

    create_bound-ShowsStored : (b : Bound CreateTaskInput) → ShowsStored (create_bound B m c b s)
    unfolding create_bound rate_limited bad_request with_status
    create_bound-ShowsStored (refused text) = λ t e. message-ne-task text t e
    create_bound-ShowsStored (bound input) = create_gated-ShowsStored input _ _

  -- A read of a row that is there.
  module _ (t : Task) (T : Tables) (there : IsThere c t T) (no_fault : ¬ database.Fault) where
    only_row : (u : Task) → Memᴰ u T.tasks → is_owned c t.id u ≡ true → u ≡ t
    only_row u stored own =
        let same_id : u.id ≡ t.id = (is_owned-IsOwn c t.id u own).same_id in
        let a : find u.id T.tasks ≡ some u = mem-find T.tasks {t = u} there.keyed stored in
        let b : find t.id T.tasks ≡ some t = mem-find T.tasks {t = t} there.keyed there.stored in
        some_injective (sym a ∙ ap (λ i. find i T.tasks) same_id ∙ b)
      where
        some_injective : some u ≡ some t → u ≡ t
        some_injective q = cc

    respond-fetched :
        (s : Server B) (p : database.Db × Result database.Fault Task)
        → Ends database (First T (is_owned c t.id)) (NotFound T (is_owned c t.id)) p
        → let (s', r) = respond B 200 [] task s p in (r.status ≡ 200) × (r.body ≡ task t)
    unfolding respond with_status
    respond-fetched s (db, ok u) h = (refl, ap task (only_row u h.stored h.matches))
    respond-fetched s (db, err record_not_found) h =
        absurd (never (All-mem (λ u. is_owned c t.id u ≡ false) T.tasks h.1 there.stored))
      where
        never : is_owned c t.id t ≡ false → ⊥
        never q =
            let own : is_owned c t.id t ≡ true =
              IsOwn-is_owned c t.id t (record { same_id = refl; owned = there.owner }) in
            cc
    respond-fetched s (db, err (fault f)) h = absurd (no_fault f)
    respond-fetched s (db, err no_task) h = absurd h
    respond-fetched s (db, err not_cancellable) h = absurd h

-- On distinct ids and a database that does not fail: a task that the answer of Create shows, with an
-- id below 2^64, is what GetByID then answers with, as 200, for the same client and the id in
-- decimal; but its payload is now as the JSON column holds it.
pub get_by_id-create :
    (B : Backend) (m : Moment) (client_id body : String) (s : Server B) (t : Task)
    → IsKeyed (B.database.tables s.db).tasks
    → ¬ B.database.Fault
    → (create B m client_id body s).1.body ≡ task t
    → t.id < 2 ^ 64
    → let (s', r) = get_by_id B client_id (print t.id) (create B m client_id body s).0 in
      (r.status ≡ 200) × (r.body ≡ task (record t { payload = B.database.json_column t.payload }))
unfolding create get_by_id get_task get_parsed
get_by_id-create B m client_id body s t k no_fault shown small =
    let b = validate_task B.json (B.json.decode_task body) in
    let s' = (create_bound B m client_id b s).0 in
    rw (parse_uint-print 64 t.id small small) (
      respond-fetched B client_id (record t { payload = B.database.json_column t.payload })
        (B.database.tables s'.db) (create_bound-ShowsStored B client_id m s k b t shown) no_fault s'
        (B.database.first_task (is_owned client_id t.id) s'.db)
        (B.database.first_task_law (is_owned client_id t.id) s'.db))
