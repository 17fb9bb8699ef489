-- ===== src/Lifecycle/Letters.antt =====
-- The tables after any run of the methods: distinct ids, and a dead letter for each failed task.
use task_execution_engine.Prelude.{
  ℕ, suc, zero, ◌+◌, ◌==◌, ltb, ◌≡◌, ◌≢◌, refl, sym, ap, subst, ◌∙◌, inl, inr, Bool, true, ◌||◌,
  not, String, Option, none, some, List, [], ◌∷◌, ◌++◌, All, filter, map, length, any, arith,
  Bool-cases,
}
use task_execution_engine.Models.{Task, DeadLetterTask, Tables, failed, dead_letter_defaults}
use task_execution_engine.Database.{Database}
use task_execution_engine.Database.Outcome.{
  Result, ok, err, Faulted, Post, Post-ok, record_not_found, no_task, not_cancellable, fault,
}
use task_execution_engine.Database.Laws.{Updated, First, NotFound, Claimed, Deposited, Inserted}
use task_execution_engine.Database.Keys.{Keys, Plucked}
use task_execution_engine.Database.Rows.{has_id, update_row, update_rows, update_rows-IsKeyed}
use task_execution_engine.Database.Program.{Program, ◌>>=◌, ◌>>◌, pure, throw, Ends, bind-Ends}
use task_execution_engine.TaskService.{
  CreateTaskInput, new_task, new_row, create_task, batch_create_tasks, claim_row, claim_order,
  is_claimable, mark_running, dequeue_task_for_client, requeue, is_orphan, requeue_orphaned_tasks,
  mark_started, complete, complete_task, retry, give_up, dead_letter_of, dead_letter,
  requeue_failed, fail_task, is_owned, is_cancellable, cancel, cancel_outcome, cancel_task,
  clear_all_data,
}
use task_execution_engine.TaskService.Demo.{
  demo_task, demo_tasks, or_alpha, is_active, add_demo_tasks,
}
use task_execution_engine.Lifecycle.{
  Call, creates, creates_batch, adds_demo, claims, requeues, starts, completes, fails, cancels,
  clears, make, make_all,
}
use task_execution_engine.Lifecycle.Steps.{
  IsRecorded, IsSound, IsTame, Inserted-IsSound, Keeps, bind-Keeps, transaction-Keeps, Post-IsSound,
  Faulted-IsSound, update-Keeps,
}

any-append :
    (p : DeadLetterTask → Bool) (ds es : List DeadLetterTask)
    → any p (ds ++ es) ≡ (any p ds || any p es)
any-append p [] es = refl
any-append p (d ∷ ds) es = ground (arith, any-append p ds es)

-- The rows of a task that is given up, with its letter.
buried_rows :
    (ds : List DeadLetterTask) (id now : ℕ) (task_err : String) (letter : DeadLetterTask)
    (ts : List Task)
    → letter.original_task_id ≡ id
    → All (IsRecorded ds) ts
    → All (IsRecorded (ds ++ letter ∷ [])) (update_rows (has_id id) (give_up now task_err) ts)
unfolding update_rows update_row has_id give_up
buried_rows ds id now task_err letter [] e h = tt
buried_rows ds id now task_err letter (t ∷ ts) e h = (
  elim (Bool-cases (t.id == id)) [
    | inl same ↦
        rw same
          (λ q. ground (arith, e, any-append (λ d. d.original_task_id == t.id) ds (letter ∷ [])))
    | inr other ↦
        rw other (λ q.
          ground (arith, h.0 q, any-append (λ d. d.original_task_id == t.id) ds (letter ∷ [])))
  ],
  buried_rows ds id now task_err letter ts e h.1,
)

letter-IsSound :
    (T S S' : Tables) (now : ℕ) (t : Task) (task_err : String) (n k : ℕ)
    → IsSound T
    → Updated T (has_id t.id) (give_up now task_err) n S
    → Deposited S (dead_letter_of t task_err now) k S'
    → IsSound S'
unfolding dead_letter_of dead_letter_defaults give_up
letter-IsSound T S S' now t task_err n k h u d =
    let letter = record (dead_letter_defaults (dead_letter_of t task_err now)) { id = k } in
    subst IsSound
      (sym (
        d.rows
        ∙ ap (λ (R : Tables). record R { dead_letters = R.dead_letters ++ letter ∷ [] }) u.rows))
      (record {
        keyed =
            update_rows-IsKeyed (has_id t.id) (give_up now task_err) T.tasks (λ r. refl) h.keyed;
        recorded = buried_rows T.dead_letters t.id now task_err letter T.tasks refl h.recorded;
      })

empty-IsSound : (T : Tables) → T.tasks ≡ [] → IsSound T
empty-IsSound T e = record { keyed = rw e tt; recorded = rw e tt }

filter_nothing : (ts : List Task) → filter (λ _. not true) ts ≡ []
filter_nothing [] = refl
filter_nothing (t ∷ ts) = filter_nothing ts

module _ (D : Database) where
  open D use {Db, Fault, tables}

  same-Keeps :
      {A : Type 0} (m : Program D A) → ((db : Db) → tables (m db).0 ≡ tables db) → Keeps D m
  same-Keeps m h db s = subst IsSound (sym (h db)) s

  First-same :
      (T T' : Tables) (p : Task → Bool) (r : Result Fault Task)
      → Post (First T p) (NotFound T p) r T'
      → T' ≡ T
  First-same T T' p (ok t) h = h.same
  First-same T T' p (err record_not_found) h = h.0
  First-same T T' p (err (fault f)) h = h
  First-same T T' p (err no_task) h = absurd h
  First-same T T' p (err not_cancellable) h = absurd h

  first-Keeps : (p : Task → Bool) → Keeps D (D.first_task p)
  first-Keeps p = same-Keeps (D.first_task p) (λ db.
      First-same (tables db) (tables (D.first_task p db).0) p (D.first_task p db).1
        (D.first_task_law p db))

  insert_one-Keeps : (t : Task) → t.status ≢ failed → Keeps D (D.insert_task t)
  insert_one-Keeps t live db h =
      let (db', r) = D.insert_task t db in
      Post-IsSound D (λ s. Inserted (tables db) (t ∷ []) (s ∷ [])) (Faulted (tables db)) r
        (tables db') (D.insert_task_law t db)
        (λ s ins. Inserted-IsSound (tables db) (tables db') (t ∷ []) (s ∷ []) (live, tt) h ins)
        (λ e q. Faulted-IsSound D (tables db) (tables db') e h q)

  create_task-Keeps : (c : String) (i : CreateTaskInput) → Keeps D (create_task D c i)
  unfolding create_task new_row new_task
  create_task-Keeps c i =
      bind-Keeps D (D.insert_task (new_row D c i)) (λ s. pure (record s { payload = i.payload }))
        (insert_one-Keeps (new_row D c i) (λ q. cc)) (λ _ db h. h)

  insert-Keeps : (ts : List Task) → All (λ t. t.status ≢ failed) ts → Keeps D (D.insert_tasks ts)
  insert-Keeps ts live db h =
      let (db', r) = D.insert_tasks ts db in
      Post-IsSound D (Inserted (tables db) ts) (Faulted (tables db)) r (tables db')
        (D.insert_tasks_law ts db)
        (λ ss ins. Inserted-IsSound (tables db) (tables db') ts ss live h ins)
        (λ e q. Faulted-IsSound D (tables db) (tables db') e h q)

  new_live :
      (c : String) (is : List CreateTaskInput) → All (λ t. t.status ≢ failed) (map (new_row D c) is)
  unfolding new_row new_task
  new_live c [] = tt
  new_live c (i ∷ is) = (λ q. cc, new_live c is)

  batch-Keeps : (c : String) (is : List CreateTaskInput) → Keeps D (batch_create_tasks D c is)
  unfolding batch_create_tasks
  batch-Keeps c is =
      bind-Keeps D (D.insert_tasks (map (new_row D c) is))
        (λ _. pure (length (map (new_row D c) is)))
        (insert-Keeps (map (new_row D c) is) (new_live c is)) (λ _ db h. h)

  demo_live :
      (cs : List String) (draw : ℕ → ℕ) (k n : ℕ)
      → All (λ t. t.status ≢ failed) (demo_tasks cs draw k n)
  unfolding demo_tasks demo_task
  demo_live cs draw k zero = tt
  demo_live cs draw k (suc n) = (λ q. cc, demo_live cs draw (k + 3) n)

  demo-Keeps : (K : Keys D) (draw : ℕ → ℕ) (n : ℕ) → Keeps D (add_demo_tasks D K draw n)
  unfolding add_demo_tasks
  demo-Keeps K draw n =
      bind-Keeps D (K.pluck_clients is_active)
        (λ found. D.insert_tasks (demo_tasks (or_alpha found) draw 0 n) >> pure tt) plucks
        (λ found.
          bind-Keeps D (D.insert_tasks (demo_tasks (or_alpha found) draw 0 n)) (λ _. pure tt)
            (insert-Keeps _ (demo_live (or_alpha found) draw 0 n)) (λ _ db h. h))
    where
      plucks : Keeps D (K.pluck_clients is_active)
      plucks db h =
          let (db', r) = K.pluck_clients is_active db in
          Post-IsSound D (λ cs T'. (T' ≡ tables db) × Plucked (tables db) is_active cs)
            (Faulted (tables db)) r (tables db') (K.pluck_clients_law is_active db)
            (λ cs q. subst IsSound (sym q.0) h)
            (λ e q. Faulted-IsSound D (tables db) (tables db') e h q)

  -- UPDATE … SET f by a condition, with nothing after it.
  update_only :
      (p : Task → Bool) (f : Task → Task) → IsTame f → Keeps D (D.update_tasks p f >> pure (tt {0}))
  update_only p f tame =
      bind-Keeps D (D.update_tasks p f) (λ _. pure (tt {0})) (update-Keeps D p f tame) (λ _ db h. h)

  claim_row-Keeps : (i : String) (o : Option Task) → Keeps D (claim_row D i o)
  unfolding claim_row mark_running
  claim_row-Keeps i none = λ db h. h
  claim_row-Keeps i (some t) =
      bind-Keeps D (D.update_tasks (has_id t.id) (mark_running i)) (λ _. pure _)
        (update-Keeps D (has_id t.id) (mark_running i)
          (record { keeps_id = λ u. refl; no_failure = λ u q. cc }))
        (λ _ db h. h)

  -- The two writes of a dead letter, if both are made.
  letter-Keeps : (now : ℕ) (t : Task) (task_err : String) → Keeps D (dead_letter D now t task_err)
  unfolding dead_letter
  letter-Keeps now t task_err =
      transaction-Keeps D
        (D.update_tasks (has_id t.id) (give_up now task_err)
          >> (D.insert_dead_letter (dead_letter_of t task_err now) >> pure tt))
        (λ start a h q. Post-ok (λ _ T'. IsSound T') (λ _ _. Unit {0}) _ _ (both start h) q)
    where
      both :
          (start : Db)
          → IsSound (tables start)
          → Ends D
              (λ _ T'. IsSound T')
              (λ _ _. Unit {0})
              ((D.update_tasks (has_id t.id) (give_up now task_err)
                  >> (D.insert_dead_letter (dead_letter_of t task_err now) >> pure (tt {0})))
                start)
      both start h =
          bind-Ends D (Updated (tables start) (has_id t.id) (give_up now task_err))
            (λ _ T'. IsSound T') (Faulted (tables start)) (λ _ _. Unit {0})
            (D.update_tasks (has_id t.id) (give_up now task_err))
            (λ _. D.insert_dead_letter (dead_letter_of t task_err now) >> pure tt) start
            (D.update_tasks_law (has_id t.id) (give_up now task_err) start)
            (λ n u.
              let s' = (D.update_tasks (has_id t.id) (give_up now task_err) start).0 in
              bind-Ends D (Deposited (tables s') (dead_letter_of t task_err now))
                (λ _ T'. IsSound T') (Faulted (tables s')) (λ _ _. Unit {0})
                (D.insert_dead_letter (dead_letter_of t task_err now)) (λ _. pure tt) s'
                (D.insert_dead_letter_law (dead_letter_of t task_err now) s')
                (λ k d. letter-IsSound (tables start) (tables s') _ now t task_err n k h u d)
                (λ e q. tt))
            (λ e q. tt)

  claim-Keeps : (c i : String) → Keeps D (dequeue_task_for_client D c i)
  unfolding dequeue_task_for_client
  claim-Keeps c i =
      transaction-Keeps D (D.claim_task (is_claimable c) claim_order >>= claim_row D i)
        (λ start a h q.
          bind-Keeps D (D.claim_task (is_claimable c) claim_order) (claim_row D i) reads claimed
            start h)
    where
      Claimed-same :
          (T T' : Tables) (L : ℕ → Bool) (o : Option Task)
          → Claimed T L (is_claimable c) claim_order o T'
          → T' ≡ T
      Claimed-same T T' L none h = h.0
      Claimed-same T T' L (some t) h = h.0

      reads : Keeps D (D.claim_task (is_claimable c) claim_order)
      reads db h =
          let (db', r) = D.claim_task (is_claimable c) claim_order db in
          Post-IsSound D (Claimed (tables db) (D.locked db) (is_claimable c) claim_order)
            (Faulted (tables db)) r (tables db') (D.claim_task_law (is_claimable c) claim_order db)
            (λ o q. subst IsSound (sym (Claimed-same (tables db) (tables db') (D.locked db) o q)) h)
            (λ e q. Faulted-IsSound D (tables db) (tables db') e h q)

      claimed : (o : Option Task) → Keeps D (claim_row D i o)
      claimed o = claim_row-Keeps i o

  fail-Keeps : (now : ℕ) (t : Task) (task_err : String) → Keeps D (fail_task D now t task_err)
  unfolding fail_task requeue_failed retry
  fail-Keeps now t task_err = elim (Bool-cases (ltb t.retry_count t.max_retries)) [
    | inl e ↦
        rw e (update_only (has_id t.id) _ (record { keeps_id = λ u. refl; no_failure = λ u q. cc }))
    | inr e ↦ rw e (letter-Keeps now t task_err)
  ]

  cancel-Keeps : (now : ℕ) (c : String) (id : ℕ) → Keeps D (cancel_task D now c id)
  unfolding cancel_task cancel_outcome cancel
  cancel-Keeps now c id =
      bind-Keeps D (D.update_tasks (is_cancellable c id) (cancel now)) (cancel_outcome D c id)
        (update-Keeps D (is_cancellable c id) (cancel now)
          (record { keeps_id = λ u. refl; no_failure = λ u q. cc }))
        (λ n. outcome n)
    where
      outcome : (n : ℕ) → Keeps D (cancel_outcome D c id n)
      outcome n = elim (Bool-cases (n == 1)) [
        | inl e ↦ rw e (first-Keeps (is_owned c id))
        | inr e ↦ rw e (
            bind-Keeps D (D.first_task (is_owned c id)) (λ _. throw not_cancellable)
              (first-Keeps (is_owned c id)) (λ _ db h. h))
      ]

  cleared :
      (db : Db)
      → Ends D
          (λ _ T'. T'.tasks ≡ [])
          (λ _ _. Unit {0})
          ((D.delete_tasks (λ _. true) >> (D.delete_dead_letters (λ _. true) >> pure (tt {0}))) db)
  cleared db =
      bind-Ends D
        (λ _ T'. T' ≡ record (tables db) { tasks = filter (λ _. not true) (tables db).tasks })
        (λ _ T'. T'.tasks ≡ []) (Faulted (tables db)) (λ _ _. Unit {0}) (D.delete_tasks (λ _. true))
        (λ _. D.delete_dead_letters (λ _. true) >> pure tt) db (D.delete_tasks_law (λ _. true) db)
        (λ n e.
          let db' = (D.delete_tasks (λ _. true) db).0 in
          bind-Ends D
            (λ _ T'. T' ≡ record (tables db') {
              dead_letters = filter (λ _. not true) (tables db').dead_letters;
            })
            (λ _ T'. T'.tasks ≡ []) (Faulted (tables db')) (λ _ _. Unit {0})
            (D.delete_dead_letters (λ _. true)) (λ _. pure tt) db'
            (D.delete_dead_letters_law (λ _. true) db')
            (λ m f.
              ap (λ (T : Tables). T.tasks) f
              ∙ ap (λ (T : Tables). T.tasks) e
              ∙ filter_nothing (tables db).tasks)
            (λ x q. tt))
        (λ x q. tt)

  clear-Keeps : Keeps D (clear_all_data D)
  unfolding clear_all_data
  clear-Keeps =
      transaction-Keeps D
        (D.delete_tasks (λ _. true) >> (D.delete_dead_letters (λ _. true) >> pure tt))
        (λ start a h q.
          empty-IsSound _ (Post-ok (λ _ T'. T'.tasks ≡ []) (λ _ _. Unit {0}) _ _ (cleared start) q))

  module _ (K : Keys D) where
    make-IsSound : (c : Call) (db : Db) → IsSound (tables db) → IsSound (tables (make D K c db))
    unfolding make mark_started complete_task complete requeue_orphaned_tasks requeue
    make-IsSound (creates c i) = create_task-Keeps c i
    make-IsSound (creates_batch c is) = batch-Keeps c is
    make-IsSound (adds_demo draw n) = demo-Keeps K draw n
    make-IsSound (claims c i) = claim-Keeps c i
    make-IsSound (requeues i) =
        update-Keeps D (is_orphan i) requeue
          (record { keeps_id = λ u. refl; no_failure = λ u q. cc })
    make-IsSound (starts now id) =
        update_only (has_id id) _ (record { keeps_id = λ u. refl; no_failure = λ u q. q })
    make-IsSound (completes now id) =
        update_only (has_id id) (complete now)
          (record { keeps_id = λ u. refl; no_failure = λ u q. cc })
    make-IsSound (fails now t task_err) = fail-Keeps now t task_err
    make-IsSound (cancels now c id) = cancel-Keeps now c id
    make-IsSound clears = clear-Keeps

    make_all-Keeps :
        (cs : List Call) (db : Db) → IsSound (tables db) → IsSound (tables (make_all D K cs db))
    unfolding make_all
    make_all-Keeps [] db h = h
    make_all-Keeps (c ∷ cs) db h = make_all-Keeps cs (make D K c db) (make-IsSound c db h)

-- From a table with no tasks, through any sequence of submissions, demo batches, claims, requeues,
-- starts, completions, failures, cancellations and clearings, with whatever arguments and whether or
-- not the database fails in between: the ids of the tasks stay distinct, and every failed task has a
-- dead letter of its id.
pub make_all-IsSound :
    (D : Database) (K : Keys D) (calls : List Call) (db : D.Db)
    → (D.tables db).tasks ≡ []
    → IsSound (D.tables (make_all D K calls db))
make_all-IsSound D K calls db e = make_all-Keeps D K calls db (empty-IsSound (D.tables db) e)
