-- ===== src/TaskService/Tenancy.antt =====
-- The rows of other clients under the methods of backend/services that a client's requests call.
use task_execution_engine.Prelude.{
  ℕ, ◌==◌, ◌≡◌, refl, ap, subst, ◌∙◌, inl, inr, Bool, true, not, String, List, [], ◌∷◌, ◌++◌,
  filter, filter-append, str_eq, str_eq_iff, arith, Bool-cases, length,
}
use task_execution_engine.Models.{Task, Tables}
use task_execution_engine.Database.{Database}
use task_execution_engine.Database.Outcome.{
  Error, Post-mono, Faulted, record_not_found, no_task, not_cancellable, fault,
}
use task_execution_engine.Database.Laws.{Updated, First, NotFound}
use task_execution_engine.Database.Rows.{update_row, update_rows}
use task_execution_engine.Database.Program.{Program, Ends, throw, bind-Ends}
use task_execution_engine.TaskService.{
  CreateTaskInput, create_task, batch_create_tasks, get_task, cancel_task, cancel_outcome, cancel,
  is_owned, is_cancellable,
}
use task_execution_engine.TaskService.Cancel.{is_owned-IsOwn}
use task_execution_engine.TaskService.Create.{
  AllNew, Created, CreatedOne, create_task-Created, batch_create_tasks-Created,
}

abbrev pub is_others : String → Task → Bool
is_others client_id t = not (str_eq t.client_id client_id)

-- The rows of the other clients are the same ones, in the same order, and no table but tasks changed.
pub record IsIsolated (client_id : String) (T T' : Tables) : Type 0 where
  pub tasks : filter (is_others client_id) T'.tasks ≡ filter (is_others client_id) T.tasks
  pub dead_letters : T'.dead_letters ≡ T.dead_letters
  pub api_keys : T'.api_keys ≡ T.api_keys

pub same-IsIsolated : (c : String) (T T' : Tables) → T' ≡ T → IsIsolated c T T'
same-IsIsolated c T T' e = record {
  tasks = ap (λ (S : Tables). filter (is_others c) S.tasks) e;
  dead_letters = ap (λ (S : Tables). S.dead_letters) e;
  api_keys = ap (λ (S : Tables). S.api_keys) e;
}

pub IsIsolated-from : (c : String) (S T T' : Tables) → S ≡ T → IsIsolated c S T' → IsIsolated c T T'
IsIsolated-from c S T T' e h = subst (λ R. IsIsolated c R T') e h

filter_new :
    (json : String → String) (c : String) (is : List CreateTaskInput) (ss : List Task)
    → AllNew json c is ss
    → filter (is_others c) ss ≡ []
filter_new json c [] [] h = refl
filter_new json c [] (s ∷ ss) h = absurd h
filter_new json c (i ∷ is) [] h = absurd h
filter_new json c (i ∷ is) (s ∷ ss) h =
    ground (arith, str_eq_iff s.client_id c, h.0.owner, filter_new json c is ss h.1)

Created-IsIsolated :
    (D : Database) (c : String) (T T' : Tables) (is : List CreateTaskInput) (ss : List Task)
    → Created D T c is ss T'
    → IsIsolated c T T'
Created-IsIsolated D c T T' is ss h = record {
  tasks =
      ap (λ (S : Tables). filter (is_others c) S.tasks) h.rows
      ∙ filter-append (is_others c) T.tasks ss
      ∙ ap (λ l. filter (is_others c) T.tasks ++ l) (filter_new D.json_column c is ss h.new)
      ∙ append_nil (filter (is_others c) T.tasks);
  dead_letters = ap (λ (S : Tables). S.dead_letters) h.rows;
  api_keys = ap (λ (S : Tables). S.api_keys) h.rows;
}
  where
    append_nil : (ts : List Task) → ts ++ [] ≡ ts
    append_nil [] = refl
    append_nil (t ∷ ts) = ap (λ l. t ∷ l) (append_nil ts)

-- An update of own rows that leaves them the client's own.
update_rows-others :
    (c : String) (p : Task → Bool) (f : Task → Task) (ts : List Task)
    → ((t : Task) → p t ≡ true → t.client_id ≡ c)
    → ((t : Task) → (f t).client_id ≡ t.client_id)
    → filter (is_others c) (update_rows p f ts) ≡ filter (is_others c) ts
unfolding update_rows update_row
update_rows-others c p f [] own keeps = refl
update_rows-others c p f (t ∷ ts) own keeps = ground (
  arith,
  str_eq_iff t.client_id c,
  str_eq_iff (f t).client_id c,
  own t,
  keeps t,
  update_rows-others c p f ts own keeps,
)

pub Faulted-same : {F : Type 0} (T T' : Tables) (e : Error F) → Faulted T e T' → T' ≡ T
Faulted-same T T' (fault f) h = h
Faulted-same T T' record_not_found h = absurd h
Faulted-same T T' no_task h = absurd h
Faulted-same T T' not_cancellable h = absurd h

NotFound-same :
    {F : Type 0} (T T' : Tables) (p : Task → Bool) (e : Error F) → NotFound T p e T' → T' ≡ T
NotFound-same T T' p (fault f) h = h
NotFound-same T T' p record_not_found h = h.0
NotFound-same T T' p no_task h = absurd h
NotFound-same T T' p not_cancellable h = absurd h

module _ (D : Database) (c : String) where
  -- A program that keeps the rows of others and returns one of the client's own.
  abbrev pub Isolates : Program D Task → D.Db → Type 0
  Isolates m db =
      Ends D (λ t T'. IsIsolated c (D.tables db) T' × (t.client_id ≡ c))
        (λ _ T'. IsIsolated c (D.tables db) T') (m db)

  pub create_task-Isolates :
      (input : CreateTaskInput) (db : D.Db) → Isolates (create_task D c input) db
  create_task-Isolates input db =
      let T = D.tables db in
      let (db', r) = create_task D c input db in
      Post-mono (CreatedOne D c input T) (λ t T'. IsIsolated c T T' × (t.client_id ≡ c)) (Faulted T)
        (λ _ T'. IsIsolated c T T') r (D.tables db')
        (λ s (row, (h, e)). (
          Created-IsIsolated D c T (D.tables db') (input ∷ []) (row ∷ []) h,
          ap (λ (t : Task). t.client_id) e ∙ h.new.0.owner,
        ))
        (λ e h. same-IsIsolated c T (D.tables db') (Faulted-same T (D.tables db') e h))
        (create_task-Created D c input db)

  pub batch_create_tasks-IsIsolated :
      (inputs : List CreateTaskInput) (db : D.Db)
      → Ends D
          (λ _ T'. IsIsolated c (D.tables db) T')
          (λ _ T'. IsIsolated c (D.tables db) T')
          (batch_create_tasks D c inputs db)
  batch_create_tasks-IsIsolated inputs db =
      let T = D.tables db in
      let (db', r) = batch_create_tasks D c inputs db in
      Post-mono (λ n T'. (n ≡ length inputs) × ((ss : List Task) × Created D T c inputs ss T'))
        (λ _ T'. IsIsolated c T T') (Faulted T) (λ _ T'. IsIsolated c T T') r (D.tables db')
        (λ n h. Created-IsIsolated D c T (D.tables db') inputs h.1.0 h.1.1)
        (λ e h. same-IsIsolated c T (D.tables db') (Faulted-same T (D.tables db') e h))
        (batch_create_tasks-Created D c inputs db)

  -- A read of an own row.
  pub first_own-Isolates : (id : ℕ) (db : D.Db) → Isolates (D.first_task (is_owned c id)) db
  first_own-Isolates id db =
      let T = D.tables db in
      let (db', r) = D.first_task (is_owned c id) db in
      Post-mono (First T (is_owned c id)) (λ t T'. IsIsolated c T T' × (t.client_id ≡ c))
        (NotFound T (is_owned c id)) (λ _ T'. IsIsolated c T T') r (D.tables db')
        (λ t f.
          (same-IsIsolated c T (D.tables db') f.same, (is_owned-IsOwn c id t f.matches).owned))
        (λ e h.
          same-IsIsolated c T (D.tables db') (NotFound-same T (D.tables db') (is_owned c id) e h))
        (D.first_task_law (is_owned c id) db)

  pub get_task-Isolates : (id : ℕ) (db : D.Db) → Isolates (get_task D c id) db
  unfolding get_task
  get_task-Isolates = first_own-Isolates

  cancel_outcome-Isolates :
      (id affected : ℕ) (db : D.Db) → Isolates (cancel_outcome D c id affected) db
  unfolding cancel_outcome
  cancel_outcome-Isolates id affected db = elim (Bool-cases (affected == 1)) [
    | inl e ↦ rw e (first_own-Isolates id db)
    | inr e ↦ rw e (
        let T = D.tables db in
        bind-Ends D (λ t T'. IsIsolated c T T' × (t.client_id ≡ c))
          (λ t T'. IsIsolated c T T' × (t.client_id ≡ c)) (λ _ T'. IsIsolated c T T')
          (λ _ T'. IsIsolated c T T') (D.first_task (is_owned c id)) (λ _. throw not_cancellable) db
          (first_own-Isolates id db) (λ t h. h.0) (λ e h. h))
  ]

  cancelled_rows :
      (now id : ℕ) (T T' : Tables)
      → T' ≡ record T { tasks = update_rows (is_cancellable c id) (cancel now) T.tasks }
      → IsIsolated c T T'
  unfolding cancel is_cancellable
  cancelled_rows now id T T' e = record {
    tasks =
        ap (λ (S : Tables). filter (is_others c) S.tasks) e
        ∙ update_rows-others c (is_cancellable c id) (cancel now) T.tasks
            (λ t h. (is_owned-IsOwn c id t (ground arith)).owned) (λ t. refl);
    dead_letters = ap (λ (S : Tables). S.dead_letters) e;
    api_keys = ap (λ (S : Tables). S.api_keys) e;
  }

  IsIsolated-trans : (S T U : Tables) → IsIsolated c S T → IsIsolated c T U → IsIsolated c S U
  IsIsolated-trans S T U h k = record {
    tasks = k.tasks ∙ h.tasks;
    dead_letters = k.dead_letters ∙ h.dead_letters;
    api_keys = k.api_keys ∙ h.api_keys;
  }

  pub cancel_task-Isolates : (now id : ℕ) (db : D.Db) → Isolates (cancel_task D now c id) db
  unfolding cancel_task
  cancel_task-Isolates now id db =
      let T = D.tables db in
      bind-Ends D (Updated T (is_cancellable c id) (cancel now))
        (λ t T'. IsIsolated c T T' × (t.client_id ≡ c)) (Faulted T) (λ _ T'. IsIsolated c T T')
        (D.update_tasks (is_cancellable c id) (cancel now)) (cancel_outcome D c id) db
        (D.update_tasks_law (is_cancellable c id) (cancel now) db)
        (λ n u.
          let db' = (D.update_tasks (is_cancellable c id) (cancel now) db).0 in
          let first = cancelled_rows now id T (D.tables db') u.rows in
          let (db2, r) = cancel_outcome D c id n db' in
          Post-mono (λ t T'. IsIsolated c (D.tables db') T' × (t.client_id ≡ c))
            (λ t T'. IsIsolated c T T' × (t.client_id ≡ c)) (λ _ T'. IsIsolated c (D.tables db') T')
            (λ _ T'. IsIsolated c T T') r (D.tables db2)
            (λ t h. (IsIsolated-trans T (D.tables db') (D.tables db2) first h.0, h.1))
            (λ e h. IsIsolated-trans T (D.tables db') (D.tables db2) first h)
            (cancel_outcome-Isolates id n db'))
        (λ e h. same-IsIsolated c T _ (Faulted-same T _ e h))
