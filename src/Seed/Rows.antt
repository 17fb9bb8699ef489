-- ===== src/Seed/Rows.antt =====
-- What Seed of backend/database/seed.go leaves in the tables.
use task_execution_engine.Prelude.{
  ℕ, zero, suc, ◌+◌, ◌==◌, ◌≤◌, ◌<◌, ltb, ◌≡◌, ◌⊎◌, inl, inr, refl, sym, ap, subst, ◌∙◌, String,
  Option, none, some, List, [], ◌∷◌, ◌++◌, All, length, arith, Bool-cases, if◌then◌else◌,
}
use task_execution_engine.Models.{
  Task, ApiKey, Tables, Status, pending, running, completed, failed, cancelled, with_defaults,
}
use task_execution_engine.Database.{Database}
use task_execution_engine.Database.Outcome.{
  Result, Error, Faulted, record_not_found, no_task, not_cancellable, fault,
}
use task_execution_engine.Database.Keys.{Keys, StoredKeys}
use task_execution_engine.Database.Laws.{Inserted, Stored, AllStored}
use task_execution_engine.Database.Program.{Ends, ◌>>◌, pure, bind-Ends}
use task_execution_engine.Seed.{
  seed_clients, with_history, draws, status_at, plain_task, seed_task, seed_tasks, seed_empty,
  seed_counted, seed,
}

-- A time is there, and a later one.
abbrev Ordered : Option ℕ → Option ℕ → Type 0
Ordered (some a) (some b) = a < b
Ordered none b = ⊥
Ordered (some a) none = ⊥

abbrev IsPresent : Option ℕ → Type 0
IsPresent none = ⊥
IsPresent (some a) = Unit {0}

-- The times of a task go with its status: a running task has started, and one that is completed or
-- failed has ended after its start.
abbrev pub HasHistory : Status → Task → Type 0
HasHistory pending t = (t.started_at ≡ none) × (t.completed_at ≡ none)
HasHistory running t =
    IsPresent t.started_at × (t.completed_at ≡ none) × (t.processed_by ≡ some "backend-1")
HasHistory completed t = Ordered t.started_at t.completed_at × (t.processed_by ≡ some "backend-1")
HasHistory failed t = Ordered t.started_at t.completed_at × (t.processed_by ≡ some "backend-1")
HasHistory cancelled t = (t.started_at ≡ none) × (t.completed_at ≡ none)

pub record IsSeeded (t : Task) : Type 0 where
  pub history : HasHistory t.status t
  pub priority : (1 ≤ t.priority) × (t.priority ≤ 5)
  pub retries : (t.retry_count < 3) × (t.max_retries ≡ 3)

module _ (clock : ℕ → ℕ) (draw : ℕ → ℕ) (payload : ℕ → String) where
  with_history-IsSeeded :
      (s : Status) (r r' i k : ℕ)
      → status_at clock draw payload k ≡ s
      → IsSeeded (with_history s r r' (plain_task clock draw payload i k))
  unfolding with_history plain_task
  with_history-IsSeeded pending r r' i k e = record {
    history =
        subst (λ x. HasHistory x (with_history pending r r' (plain_task clock draw payload i k)))
          (sym e) (refl, refl);
    priority = (omega arith, omega arith);
    retries = (omega arith, refl);
  }
  with_history-IsSeeded cancelled r r' i k e = record {
    history =
        subst (λ x. HasHistory x (with_history cancelled r r' (plain_task clock draw payload i k)))
          (sym e) (refl, refl);
    priority = (omega arith, omega arith);
    retries = (omega arith, refl);
  }
  with_history-IsSeeded running r r' i k e = record {
    history =
        subst (λ x. HasHistory x (with_history running r r' (plain_task clock draw payload i k)))
          (sym e) (tt, refl, refl);
    priority = (omega arith, omega arith);
    retries = (omega arith, refl);
  }
  with_history-IsSeeded completed r r' i k e = record {
    history =
        subst (λ x. HasHistory x (with_history completed r r' (plain_task clock draw payload i k)))
          (sym e) (omega arith, refl);
    priority = (omega arith, omega arith);
    retries = (omega arith, refl);
  }
  with_history-IsSeeded failed r r' i k e = record {
    history =
        subst (λ x. HasHistory x (with_history failed r r' (plain_task clock draw payload i k)))
          (sym e) (omega arith, refl);
    priority = (omega arith, omega arith);
    retries = (omega arith, refl);
  }

Stored-IsSeeded : (t s : Task) → IsSeeded t → Stored t s → IsSeeded s
unfolding with_defaults
Stored-IsSeeded t s h e = subst IsSeeded (sym e) (record {
  history = same_history t.status t h.history;
  priority = (ground (arith, h.priority.0), ground (arith, h.priority.0, h.priority.1));
  retries = (h.retries.0, ground (arith, h.retries.1));
})
  where
    same_history :
        (x : Status) (u : Task)
        → HasHistory x u
        → HasHistory x (record (with_defaults u) {
          id = s.id;
          created_at = if u.created_at == 0 then s.created_at else u.created_at;
        })
    same_history pending u q = q
    same_history running u q = q
    same_history completed u q = q
    same_history failed u q = q
    same_history cancelled u q = q

module _ (clock : ℕ → ℕ) (draw : ℕ → ℕ) (payload : ℕ → String) where
  stored_tasks :
      (i k n : ℕ) (ss : List Task)
      → AllStored (seed_tasks clock draw payload i k n) ss
      → (length ss ≡ n) × All IsSeeded ss
  unfolding seed_tasks seed_task
  stored_tasks i k zero [] h = (refl, tt)
  stored_tasks i k zero (s ∷ ss) h = absurd h
  stored_tasks i k (suc n) [] h = absurd h
  stored_tasks i k (suc n) (s ∷ ss) h =
      let st = status_at clock draw payload k in
      let (len, rest) = stored_tasks (i + 1) (k + draws st) n ss h.1 in
      (
        omega (arith, len),
        (
          Stored-IsSeeded (seed_task clock draw payload i k) s
              (with_history-IsSeeded clock draw payload st (draw (k + 5)) (draw (k + 6)) i k refl)
              h.0,
          rest,
        ),
      )

-- The tables with the five keys and the 60 tasks added.
pub record Filled (T T' : Tables) : Type 0 where
  pub keys : List ApiKey
  pub tasks : List Task
  pub seed_keys : StoredKeys seed_clients keys
  pub number : length tasks ≡ 60
  pub seeded : All IsSeeded tasks
  pub rows : T' ≡ record T { tasks = T.tasks ++ tasks; api_keys = T.api_keys ++ keys }

-- How Seed ends: the keys were there and nothing is written, or there were none and all is filled.
abbrev pub Seeded : Tables → Tables → Type 0
Seeded T T' = ((0 < length T.api_keys) × (T' ≡ T)) ⊎ ((length T.api_keys ≡ 0) × Filled T T')

-- A failure writes nothing, or it leaves the keys with no task.
abbrev pub PartlySeeded : Tables → Tables → Type 0
PartlySeeded T T' =
    (T' ≡ T)
    ⊎ ((length T.api_keys ≡ 0)
        × ((ls : List ApiKey) × StoredKeys seed_clients ls
            × (T' ≡ record T { api_keys = T.api_keys ++ ls })))

Faulted-same : {F : Type 0} (T T' : Tables) (e : Error F) → Faulted T e T' → T' ≡ T
Faulted-same T T' (fault f) h = h
Faulted-same T T' record_not_found h = absurd h
Faulted-same T T' no_task h = absurd h
Faulted-same T T' not_cancellable h = absurd h

module _ (clock : ℕ → ℕ) (draw : ℕ → ℕ) (payload : ℕ → String) (D : Database) (K : Keys D) where
  open D use {Db, tables}

  abbrev Ended : Tables → Db × Result D.Fault (Unit {0}) → Type 0
  Ended T = Ends D (λ _ T'. Seeded T T') (λ _ T'. PartlySeeded T T')

  seed_empty-Seeded :
      (T : Tables) (db : Db)
      → length T.api_keys ≡ 0
      → tables db ≡ T
      → Ended T (seed_empty clock draw payload D K db)
  unfolding seed_empty
  seed_empty-Seeded T db none_yet same =
      let rows = seed_tasks clock draw payload 0 0 60 in
      bind-Ends D
        (λ ls T'.
          (T' ≡ record (tables db) { api_keys = (tables db).api_keys ++ ls })
          × StoredKeys seed_clients ls)
        (λ _ T'. Seeded T T') (Faulted (tables db)) (λ _ T'. PartlySeeded T T')
        (K.insert_keys seed_clients) (λ _. D.insert_tasks rows >> pure tt) db
        (K.insert_keys_law seed_clients db)
        (λ ls (q, keyed).
          let db' = (K.insert_keys seed_clients db).0 in
          let filled : tables db' ≡ record T { api_keys = T.api_keys ++ ls } =
            q ∙ ap (λ (S : Tables). record S { api_keys = S.api_keys ++ ls }) same in
          bind-Ends D (λ ss. Inserted (tables db') rows ss) (λ _ T'. Seeded T T')
            (Faulted (tables db')) (λ _ T'. PartlySeeded T T') (D.insert_tasks rows) (λ _. pure tt)
            db' (D.insert_tasks_law rows db')
            (λ ss h.
              let (number, seeded) = stored_tasks clock draw payload 0 0 60 ss h.stored in
              inr (
                none_yet,
                record {
                  keys = ls;
                  tasks = ss;
                  seed_keys = keyed;
                  number = number;
                  seeded = seeded;
                  rows = h.rows ∙ ap (λ (S : Tables). record S { tasks = S.tasks ++ ss }) filled;
                },
              ))
            (λ e h. inr (none_yet, (ls, keyed, Faulted-same (tables db') _ e h ∙ filled))))
        (λ e h. inl (Faulted-same (tables db) _ e h ∙ same))

-- Seed writes nothing where a key is stored. Where none is, it adds the five keys and 60 tasks, each
-- with a priority between 1 and 5, 3 retries of which it used fewer, and times that go with its
-- status: a running one has started and has not ended, a completed or failed one has ended after its
-- start, a pending one has done neither. If the database fails, nothing is written, or the keys are
-- there without the tasks.
pub seed-Seeded :
    (clock : ℕ → ℕ) (draw : ℕ → ℕ) (payload : ℕ → String) (D : Database) (K : Keys D) (db : D.Db)
    → Ends D
        (λ _ T'. Seeded (D.tables db) T')
        (λ _ T'. PartlySeeded (D.tables db) T')
        (seed clock draw payload D K db)
unfolding seed seed_counted
seed-Seeded clock draw payload D K db =
    let T = D.tables db in
    bind-Ends D (λ n T'. (T' ≡ T) × (n ≡ length T.api_keys)) (λ _ T'. Seeded T T') (Faulted T)
      (λ _ T'. PartlySeeded T T') K.count_keys (seed_counted clock draw payload D K) db
      (K.count_keys_law db)
      (λ n (same, counted). elim (Bool-cases (ltb 0 n)) [
        | inl there ↦ rw there (inl (ground (arith, counted), same))
        | inr missing ↦ rw missing (
            seed_empty-Seeded clock draw payload D K T (K.count_keys db).0 (ground (arith, counted))
              same)
      ])
      (λ e h. inl (Faulted-same T _ e h))
