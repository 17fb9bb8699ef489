-- ===== src/Http/Tasks/Submit.antt =====
-- CreateBatch of backend/controllers/task_controller.go: what is let in, and every answer.
use task_execution_engine.Prelude.{
  ℕ, suc, ◌≡◌, ◌≢◌, ◌≤◌, ◌⊎◌, refl, sym, ap, subst, inl, inr, leb, ◌&&◌, not, ◌∙◌, String, Option,
  none, some, List, [], ◌∷◌, All, length, str_eq, str_eq_iff, arith, Bool-cases, Option-cases,
}
use task_execution_engine.Models.{Task}
use task_execution_engine.Database.Outcome.{
  Result, ok, err, Faulted, record_not_found, no_task, not_cancellable, fault,
}
use task_execution_engine.Database.Program.{Ends}
use task_execution_engine.TaskService.{CreateTaskInput, batch_create_tasks}
use task_execution_engine.TaskService.Create.{Created, batch_create_tasks-Created}
use task_execution_engine.RateLimit.{Answer, allowed, denied, failed, allow_n}
use task_execution_engine.Http.{
  created, TaskBody, Decoded, decoded, malformed, Json, Backend, Moment, Server, Handled,
  bad_request, with_status, respond, respond_error,
}
use task_execution_engine.Http.Tasks.{
  Bound, bound, refused, bind_retries, input_of, bind_task, cons_input, bind_each, bind_batch,
  bound_or, validate_batch, gate_of, rate_limited, batch_gated, batch_bound, create_batch,
}

-- An input that passed the validation.
pub record IsValidInput (i : CreateTaskInput) : Type 0 where
  pub task_type : i.task_type ≢ ""
  pub priority : (1 ≤ i.priority) × (i.priority ≤ 5)

some_injective : {A : Type 0} {x y : A} → some x ≡ some y → x ≡ y
some_injective e = cc

input_of-fields :
    (b : TaskBody) (o : Option (Option ℕ)) (i : CreateTaskInput)
    → input_of b o ≡ some i
    → (i.task_type ≡ b.task_type) × (i.priority ≡ b.priority)
unfolding input_of
input_of-fields b none i h = cc
input_of-fields b (some o) i h = (
  ap (λ (x : CreateTaskInput). x.task_type) (sym (some_injective h)),
  ap (λ (x : CreateTaskInput). x.priority) (sym (some_injective h)),
)

bind_task-IsValidInput :
    (b : TaskBody) (i : CreateTaskInput) → bind_task b ≡ some i → IsValidInput i
unfolding bind_task
bind_task-IsValidInput b i h =
    elim (Bool-cases (not (str_eq b.task_type "") && leb 1 b.priority && leb b.priority 5)) [
      | inl e ↦
          let (kind, priority) = input_of-fields b (bind_retries b.max_retries) i (rw e at h) in
          record {
            task_type = λ q. ground (arith, e, (str_eq_iff b.task_type "").1 (sym kind ∙ q));
            priority = (ground (arith, e, priority), ground (arith, e, priority));
          }
      | inr e ↦ absurd (never (rw e at h))
    ]
  where
    never : none ≡ some i → ⊥
    never q = cc

bind_each-IsValidInput :
    (bs : List TaskBody) (is : List CreateTaskInput)
    → bind_each bs ≡ some is
    → (length is ≡ length bs) × All IsValidInput is
unfolding bind_each cons_input
bind_each-IsValidInput [] is h =
    subst (λ l. (length l ≡ 0) × All IsValidInput l) (some_injective h) (refl, tt)
bind_each-IsValidInput (b ∷ bs) is h = elim (Option-cases (bind_task b)) [
  | inl e ↦ absurd (never (rw e at h))
  | inr (i, e) ↦ elim (Option-cases (bind_each bs)) [
    | inl f ↦ absurd (never (rw (e, f) at h))
    | inr (js, f) ↦
        let (len, valid) = bind_each-IsValidInput bs js f in
        subst (λ l. (length l ≡ suc (length bs)) × All IsValidInput l)
          (some_injective (rw (e, f) at h))
          (omega (arith, len), (bind_task-IsValidInput b i e, valid))
  ]
]
  where
    never : none ≡ some is → ⊥
    never q = cc

-- A batch that passed has between 1 and 200 inputs, each of them valid.
abbrev pub IsValidBatch : List CreateTaskInput → Type 0
IsValidBatch is = (1 ≤ length is) × (length is ≤ 200) × All IsValidInput is

bind_batch-IsValidBatch :
    (bs : List TaskBody) (is : List CreateTaskInput) → bind_batch bs ≡ some is → IsValidBatch is
unfolding bind_batch
bind_batch-IsValidBatch bs is h = elim (Bool-cases (leb 1 (length bs) && leb (length bs) 200)) [
  | inl e ↦
      let (len, valid) = bind_each-IsValidInput bs is (rw e at h) in
      (ground (arith, e, len), ground (arith, e, len), valid)
  | inr e ↦ absurd (never (rw e at h))
]
  where
    never : none ≡ some is → ⊥
    never q = cc

abbrev HasInputs : Bound (List CreateTaskInput) → Type 0
HasInputs (bound is) = IsValidBatch is
HasInputs (refused text) = Unit {0}

validate_batch-HasInputs : (J : Json) (d : Decoded (List TaskBody)) → HasInputs (validate_batch J d)
unfolding validate_batch bound_or
validate_batch-HasInputs J (malformed text) = tt
validate_batch-HasInputs J (decoded bs) = elim (Option-cases (bind_batch bs)) [
  | inl e ↦ rw e tt
  | inr (is, e) ↦ rw e (bind_batch-IsValidBatch bs is e)
]

module _ (B : Backend) (m : Moment) (c : String) (s : Server B) where
  open B use {database, redis, limiter, json}

  -- The rows are there and counted, or the database failed and nothing is changed.
  abbrev pub Stored : List CreateTaskInput → Handled B → Type 0
  Stored is (s', r) =
      ((r.status ≡ 201)
        × (r.body ≡ created (length is))
        × ((ss : List Task) × Created database (database.tables s.db) c is ss
              (database.tables s'.db)))
      ⊎ ((r.status ≡ 500) × (database.tables s'.db ≡ database.tables s.db))

  abbrev pub Judged : List CreateTaskInput → Answer → Handled B → Type 0
  Judged is denied (s', r) = (r.status ≡ 429) × (database.tables s'.db ≡ database.tables s.db)
  Judged is failed h = Stored is h
  Judged is (allowed n) h = Stored is h

  abbrev pub Answered : Bound (List CreateTaskInput) → Handled B → Type 0
  Answered (refused text) (s', r) = (r.status ≡ 400) × (s' ≡ s)
  Answered (bound is) h =
      IsValidBatch is
      × Judged is (allow_n redis limiter c (length is) m.now m.base s.store).1 h
      × (h.0.store ≡ (allow_n redis limiter c (length is) m.now m.base s.store).0)

  respond-Stored :
      (is : List CreateTaskInput) (headers : List (String × String)) (s' : Server B)
      (p : database.Db × Result database.Fault ℕ)
      → Ends database
          (λ n T'.
            (n ≡ length is)
            × ((ss : List Task) × Created database (database.tables s.db) c is ss T'))
          (Faulted (database.tables s.db))
          p
      → Stored is (respond B 201 headers created s' p)
  unfolding respond with_status respond_error
  respond-Stored is headers s' (db, ok n) h = inl (refl, ap created h.0, h.1)
  respond-Stored is headers s' (db, err (fault f)) h = inr (refl, h)
  respond-Stored is headers s' (db, err record_not_found) h = absurd h
  respond-Stored is headers s' (db, err no_task) h = absurd h
  respond-Stored is headers s' (db, err not_cancellable) h = absurd h

  respond-store :
      (headers : List (String × String)) (s' : Server B) (p : database.Db × Result database.Fault ℕ)
      → (respond B 201 headers created s' p).0.store ≡ s'.store
  unfolding respond
  respond-store headers s' (db, ok n) = refl
  respond-store headers s' (db, err e) = refl

  batch_gated-Judged :
      (is : List CreateTaskInput) (a : Answer) (store : redis.Store)
      → let h = batch_gated B c is (gate_of limiter.max a) (record s { store = store }) in
        Judged is a h × (h.0.store ≡ store)
  unfolding batch_gated gate_of with_status
  batch_gated-Judged is denied store = ((refl, refl), refl)
  batch_gated-Judged is failed store = (
    respond-Stored is [] (record s { store = store }) (batch_create_tasks database c is s.db)
        (batch_create_tasks-Created database c is s.db),
    respond-store [] (record s { store = store }) (batch_create_tasks database c is s.db),
  )
  batch_gated-Judged is (allowed n) store = (
    respond-Stored is _ (record s { store = store }) (batch_create_tasks database c is s.db)
        (batch_create_tasks-Created database c is s.db),
    respond-store _ (record s { store = store }) (batch_create_tasks database c is s.db),
  )

  batch_bound-Answered :
      (b : Bound (List CreateTaskInput)) → HasInputs b → Answered b (batch_bound B m c b s)
  unfolding batch_bound rate_limited bad_request with_status
  batch_bound-Answered (refused text) h = (refl, refl)
  batch_bound-Answered (bound is) h =
      let (store, a) = allow_n redis limiter c (length is) m.now m.base s.store in
      let (judged, same) = batch_gated-Judged is a store in (h, judged, same)

-- CreateBatch answers 400 and changes nothing if the body does not validate. Else it has between 1
-- and 200 inputs, each with a type and a priority between 1 and 5, and asks the limiter for as many
-- tokens: if the limiter denies them it answers 429 and no table is changed; if it allows them, or
-- fails, either 201 with the number of inputs, and a row is added for each of them, or 500 because
-- the database failed, with no table changed.
pub create_batch-Answered :
    (B : Backend) (m : Moment) (client_id body : String) (s : Server B)
    → Answered B m client_id s
        (validate_batch B.json (B.json.decode_batch body))
        (create_batch B m client_id body s)
unfolding create_batch
create_batch-Answered B m client_id body s =
    batch_bound-Answered B m client_id s (validate_batch B.json (B.json.decode_batch body))
      (validate_batch-HasInputs B.json (B.json.decode_batch body))
