-- ===== src/TaskService/Demo/Rows.antt =====
-- The rows that AddDemoTasks of backend/services/task_service.go adds.
use task_execution_engine.Prelude.{
  ℕ, zero, suc, ◌+◌, ◌≤◌, ◌<◌, ◌%◌, ◌≡◌, ◌⊎◌, inl, inr, refl, sym, ap, subst, true, false, String,
  List, [], ◌∷◌, ◌++◌, Memᴰ, All, All_mono, All-mem, length, arith,
}
use native.Mathlib.Nat.{mod-lt}
use task_execution_engine.Models.{Task, ApiKey, Tables, pending, with_defaults}
use task_execution_engine.Database.{Database}
use task_execution_engine.Database.Outcome.{Faulted}
use task_execution_engine.Database.Keys.{Keys, Plucked}
use task_execution_engine.Database.Laws.{Inserted, Stored, AllStored}
use task_execution_engine.Database.Program.{Ends, ◌>>◌, pure, bind-Ends, reads-Ends}
use task_execution_engine.TaskService.Demo.{
  index, pick, demo_types, or_alpha, demo_task, demo_tasks, is_active, add_demo_tasks,
}

module _ {A : Type 0} where
  mem-index : (d : A) (xs : List A) (i : ℕ) → i < length xs → Memᴰ (index d xs i) xs
  unfolding index
  mem-index d [] i h = absurd (omega arith)
  mem-index d (x ∷ xs) zero h = Memᴰ.head refl
  mem-index d (x ∷ xs) (suc i) h = Memᴰ.tail (mem-index d xs i (omega arith))

  mem-pick : (d : A) (xs : List A) (r : ℕ) → 0 < length xs → Memᴰ (pick d xs r) xs
  unfolding pick
  mem-pick d xs r h = mem-index d xs (r % length xs) (mod-lt r {m = length xs} h)

or_alpha_pos : (cs : List String) → 0 < length (or_alpha cs)
unfolding or_alpha
or_alpha_pos [] = omega arith
or_alpha_pos (c ∷ cs) = omega arith

-- A demo row: it waits, untried, with a priority between 1 and 5, for one of the clients.
pub record IsDemo (clients : List String) (t : Task) : Type 0 where
  pub status : t.status ≡ pending
  pub owner : Memᴰ t.client_id clients
  pub task_type : Memᴰ t.task_type demo_types
  pub priority : (1 ≤ t.priority) × (t.priority ≤ 5)
  pub retries : (t.retry_count ≡ 0) × (t.max_retries ≡ 3)

module _ (clients : List String) (some_clients : 0 < length clients) (draw : ℕ → ℕ) where
  Stored-IsDemo : (k : ℕ) (s : Task) → Stored (demo_task clients draw k) s → IsDemo clients s
  unfolding demo_task with_defaults
  Stored-IsDemo k s e = record {
    status = ap (λ (t : Task). t.status) e;
    owner =
        subst (λ c. Memᴰ c clients) (sym (ap (λ (t : Task). t.client_id) e))
          (mem-pick "" clients (draw k) some_clients);
    task_type =
        subst (λ c. Memᴰ c demo_types) (sym (ap (λ (t : Task). t.task_type) e))
          (mem-pick "" demo_types (draw (k + 1)) (omega arith));
    priority = let q = ap (λ (t : Task). t.priority) e in (ground (arith, q), ground (arith, q));
    retries = (ap (λ (t : Task). t.retry_count) e, ap (λ (t : Task). t.max_retries) e);
  }

  AllStored-IsDemo :
      (k n : ℕ) (ss : List Task)
      → AllStored (demo_tasks clients draw k n) ss
      → (length ss ≡ n) × All (IsDemo clients) ss
  unfolding demo_tasks
  AllStored-IsDemo k zero [] h = (refl, tt)
  AllStored-IsDemo k zero (s ∷ ss) h = absurd h
  AllStored-IsDemo k (suc n) [] h = absurd h
  AllStored-IsDemo k (suc n) (s ∷ ss) h =
      let (count, rest) = AllStored-IsDemo (k + 3) n ss h.1 in
      (omega (arith, count), (Stored-IsDemo k s h.0, rest))

-- The client of an active key; or "alpha", if no key is active.
abbrev pub IsDemoClient : Tables → String → Type 0
IsDemoClient T c =
    ((k : ApiKey) × Memᴰ k T.api_keys × (k.active ≡ true) × (k.client_id ≡ c))
    ⊎ ((c ≡ "alpha") × All (λ k. k.active ≡ false) T.api_keys)

mem-client :
    (T : Tables) (cs : List String) (c : String)
    → Plucked T is_active cs
    → Memᴰ c (or_alpha cs)
    → IsDemoClient T c
unfolding or_alpha
mem-client T [] c h (Memᴰ.head e) =
    inr (e, All_mono _ _ T.api_keys (λ k q. ground (arith, q)) h.complete)
mem-client T [] c h (Memᴰ.tail m) = elim m [ ]
mem-client T (d ∷ cs) c h m = inl (All-mem _ (d ∷ cs) h.sound m)

-- A row that was added.
pub record IsAdded (T : Tables) (t : Task) : Type 0 where
  pub status : t.status ≡ pending
  pub owner : IsDemoClient T t.client_id
  pub task_type : Memᴰ t.task_type demo_types
  pub priority : (1 ≤ t.priority) × (t.priority ≤ 5)
  pub retries : (t.retry_count ≡ 0) × (t.max_retries ≡ 3)

pub record Added (T : Tables) (n : ℕ) (T' : Tables) : Type 0 where
  pub new : List Task
  pub rows : T' ≡ record T { tasks = T.tasks ++ new }
  pub number : length new ≡ n
  pub each : All (IsAdded T) new

Inserted-Added :
    (T : Tables) (draw : ℕ → ℕ) (n : ℕ) (found : List String) (ss : List Task) {T' : Tables}
    → Plucked T is_active found
    → Inserted T (demo_tasks (or_alpha found) draw 0 n) ss T'
    → Added T n T'
Inserted-Added T draw n found ss plucked h =
    let (number, demo) =
      AllStored-IsDemo (or_alpha found) (or_alpha_pos found) draw 0 n ss h.stored in
    record {
      new = ss;
      rows = h.rows;
      number = number;
      each =
          All_mono _ _ ss
            (λ t d. record {
              status = d.status;
              owner = mem-client T found t.client_id plucked d.owner;
              task_type = d.task_type;
              priority = d.priority;
              retries = d.retries;
            })
            demo;
    }

-- AddDemoTasks appends n rows: pending, untried, with 3 retries, a priority between 1 and 5 and one
-- of the four demo types, each for the client of an active key or, if no key is active, for "alpha".
-- If the database fails, nothing is changed.
pub add_demo_tasks-Added :
    (D : Database) (K : Keys D) (draw : ℕ → ℕ) (n : ℕ) (db : D.Db)
    → Ends D (λ _. Added (D.tables db) n) (Faulted (D.tables db)) (add_demo_tasks D K draw n db)
unfolding add_demo_tasks
add_demo_tasks-Added D K draw n db =
    let T = D.tables db in
    let rows = λ (found : List String). demo_tasks (or_alpha found) draw 0 n in
    reads-Ends D (λ S cs. Plucked S is_active cs) (λ _. Added T n) T (K.pluck_clients is_active)
      (λ found. D.insert_tasks (rows found) >> pure tt) db refl (K.pluck_clients_law is_active db)
      (λ found db' same plucked.
        bind-Ends D (λ ss. Inserted (D.tables db') (rows found) ss) (λ _. Added T n)
          (Faulted (D.tables db')) (Faulted T) (D.insert_tasks (rows found)) (λ _. pure tt) db'
          (D.insert_tasks_law (rows found) db')
          (λ ss h. Inserted-Added T draw n found ss plucked (rw same at h)) (λ e h. rw same at h))
