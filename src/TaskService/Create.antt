-- ===== src/TaskService/Create.antt =====
-- CreateTask and BatchCreateTasks of backend/services/task_service.go.
use task_execution_engine.Prelude.{
  ℕ, ◌≡◌, ◌≢◌, refl, ap, String, none, some, List, [], ◌∷◌, ◌++◌, map, length, arith,
}
use task_execution_engine.Models.{Task, Tables, pending, with_defaults}
use task_execution_engine.Database.{Database}
use task_execution_engine.Database.Outcome.{Faulted}
use task_execution_engine.Database.Laws.{Inserted, Stored, AllStored}
use task_execution_engine.Database.Rows.{IsKeyed}
use task_execution_engine.Database.Program.{Ends, pure, bind-Ends}
use task_execution_engine.TaskService.{
  CreateTaskInput, new_task, new_row, create_task, batch_create_tasks,
}

-- A row made from an input: it waits, untried, for its client, with its payload in the form of a
-- JSON column; a max_retries of 0 was stored as 3.
pub record IsNew (json : String → String) (client_id : String) (input : CreateTaskInput) (s : Task)
    : Type 0 where
  pub status : s.status ≡ pending
  pub owner : s.client_id ≡ client_id
  pub task_type : s.task_type ≡ input.task_type
  pub payload : s.payload ≡ json input.payload
  pub priority : input.priority ≢ 0 → s.priority ≡ input.priority
  pub tries : s.retry_count ≡ 0
  pub default_retries : input.max_retries ≡ none → s.max_retries ≡ 3
  pub given_retries : (n : ℕ) → input.max_retries ≡ some n → n ≢ 0 → s.max_retries ≡ n
  pub zero_retries : input.max_retries ≡ some 0 → s.max_retries ≡ 3

Stored-IsNew :
    (D : Database) (client_id : String) (input : CreateTaskInput) (s : Task)
    → Stored (new_row D client_id input) s
    → IsNew D.json_column client_id input s
unfolding new_row new_task with_defaults
Stored-IsNew D client_id input s e = record {
  status = ap (λ (t : Task). t.status) e;
  owner = ap (λ (t : Task). t.client_id) e;
  task_type = ap (λ (t : Task). t.task_type) e;
  payload = ap (λ (t : Task). t.payload) e;
  priority = λ ne. ground (arith, ne, ap (λ (t : Task). t.priority) e);
  tries = ap (λ (t : Task). t.retry_count) e;
  default_retries = λ h. ground (arith, h, ap (λ (t : Task). t.max_retries) e);
  given_retries = λ n h ne. ground (arith, h, ne, ap (λ (t : Task). t.max_retries) e);
  zero_retries = λ h. ground (arith, h, ap (λ (t : Task). t.max_retries) e);
}

-- The rows of a batch, one for each input, in order.
abbrev pub AllNew : (String → String) → String → List CreateTaskInput → List Task → Type 0
AllNew json client_id [] [] = Unit {0}
AllNew json client_id (i ∷ is) (s ∷ ss) = IsNew json client_id i s × AllNew json client_id is ss
AllNew json client_id [] (s ∷ ss) = ⊥
AllNew json client_id (i ∷ is) [] = ⊥

AllStored-AllNew :
    (D : Database) (client_id : String) (inputs : List CreateTaskInput) (ss : List Task)
    → AllStored (map (new_row D client_id) inputs) ss
    → AllNew D.json_column client_id inputs ss
AllStored-AllNew D client_id [] [] h = tt
AllStored-AllNew D client_id [] (s ∷ ss) h = absurd h
AllStored-AllNew D client_id (i ∷ is) [] h = absurd h
AllStored-AllNew D client_id (i ∷ is) (s ∷ ss) h =
    (Stored-IsNew D client_id i s h.0, AllStored-AllNew D client_id is ss h.1)

-- What an insert added to the tables.
pub record Created (D : Database) (T : Tables) (client_id : String) (inputs : List CreateTaskInput)
    (ss : List Task) (T' : Tables) : Type 0 where
  pub rows : T' ≡ record T { tasks = T.tasks ++ ss }
  pub new : AllNew D.json_column client_id inputs ss
  pub keyed : IsKeyed T.tasks → IsKeyed T'.tasks

Inserted-Created :
    (D : Database) (T T' : Tables) (client_id : String) (inputs : List CreateTaskInput)
    (ss : List Task)
    → Inserted T (map (new_row D client_id) inputs) ss T'
    → Created D T client_id inputs ss T'
Inserted-Created D T T' client_id inputs ss h = record {
  rows = h.rows;
  new = AllStored-AllNew D client_id inputs ss h.stored;
  keyed = rw h.rows h.keyed;
}

-- What CreateTask returns: the row that was added, but with the text of the payload as it was given.
abbrev pub CreatedOne : (D : Database) → String → CreateTaskInput → Tables → Task → Tables → Type 0
CreatedOne D client_id input T r T' =
    (s : Task) × (Created D T client_id (input ∷ []) (s ∷ []) T'
      × (r ≡ record s { payload = input.payload }))

-- CreateTask adds one row for its input and returns it, under an id of its own: pending, of the
-- client, untried, of the type and the priority that were asked for, unless that is 0, with the
-- retries that were asked for or 3, but also with 3 where 0 were asked for. The row's payload is as
-- the JSON column holds it, the returned one's as it was given. If the database fails, nothing is
-- changed.
pub create_task-Created :
    (D : Database) (client_id : String) (input : CreateTaskInput) (db : D.Db)
    → Ends D
        (CreatedOne D client_id input (D.tables db))
        (Faulted (D.tables db))
        (create_task D client_id input db)
unfolding create_task
create_task-Created D client_id input db =
    let T = D.tables db in
    let t = new_row D client_id input in
    bind-Ends D (λ s. Inserted T (t ∷ []) (s ∷ [])) (CreatedOne D client_id input T) (Faulted T)
      (Faulted T) (D.insert_task t) (λ s. pure (record s { payload = input.payload })) db
      (D.insert_task_law t db)
      (λ s h. (s, (Inserted-Created D T _ client_id (input ∷ []) (s ∷ []) h, refl))) (λ e h. h)

-- BatchCreateTasks adds one such row for each input, in their order, all or none, and returns how
-- many inputs there were. If the database fails, nothing is changed.
pub batch_create_tasks-Created :
    (D : Database) (client_id : String) (inputs : List CreateTaskInput) (db : D.Db)
    → Ends D
        (λ n T'.
          (n ≡ length inputs) × ((ss : List Task) × Created D (D.tables db) client_id inputs ss T'))
        (Faulted (D.tables db))
        (batch_create_tasks D client_id inputs db)
unfolding batch_create_tasks
batch_create_tasks-Created D client_id inputs db =
    let T = D.tables db in
    let tasks = map (new_row D client_id) inputs in
    bind-Ends D (λ ss. Inserted T tasks ss)
      (λ n T'. (n ≡ length inputs) × ((ss : List Task) × Created D T client_id inputs ss T'))
      (Faulted T) (Faulted T) (D.insert_tasks tasks) (λ _. pure (length tasks)) db
      (D.insert_tasks_law tasks db)
      (λ ss h. (length-map inputs, (ss, Inserted-Created D T _ client_id inputs ss h))) (λ e h. h)
  where
    length-map : (is : List CreateTaskInput) → length (map (new_row D client_id) is) ≡ length is
    length-map [] = refl
    length-map (i ∷ is) = omega (arith, length-map is)
