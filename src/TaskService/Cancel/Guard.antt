-- ===== src/TaskService/Cancel/Guard.antt =====
-- The guarded UPDATE of CancelTask, and what its RowsAffected leads to.
use task_execution_engine.Prelude.{
  ℕ, ◌==◌, ==_iff, ◌≡◌, inl, inr, refl, sym, ap, subst, ◌∙◌, Bool, true, false, String, some, List,
  Memᴰ, arith, Bool-cases, All, All_mono, All-mem, count,
}
use mathlib.Core.Option.{some-injective}
use task_execution_engine.Models.{Task, Tables}
use task_execution_engine.Database.{Database}
use task_execution_engine.Database.Outcome.{
  Error, Faulted, Post-mono, no_task, not_cancellable, record_not_found, fault,
}
use task_execution_engine.Database.Laws.{Updated, First, NotFound}
use task_execution_engine.Database.Rows.{
  IsKeyed, find, find-update_rows, update_rows, update_rows-IsKeyed, update_row, mem-find, find-id,
  find-mem,
}
use task_execution_engine.Database.Counted.{count-mem, count_zero, count_le_one, update_rows_none}
use task_execution_engine.Database.Program.{Ends, ◌>>◌, throw, bind-Ends}
use task_execution_engine.TaskService.{
  is_owned, is_cancellable, cancel, cancel_outcome, cancel_task,
}
use task_execution_engine.TaskService.Cancel.{
  is_owned-IsOwn, IsOwn-is_owned, Cancelled, NotCancelled, is_cancellable-live, not-is_cancellable,
  cancel_changes, cancel_others,
}

module _ (now : ℕ) (c : String) (id : ℕ) (T : Tables) (k : IsKeyed T.tasks) where
  abbrev matches : Task → Bool
  matches = is_cancellable c id

  abbrev written : List Task
  written = update_rows matches (cancel now) T.tasks

  keeps_id : (t : Task) → (cancel now t).id ≡ t.id
  unfolding cancel
  keeps_id t = refl

  matches-id : (t : Task) → matches t ≡ true → t.id ≡ id
  matches-id t h = (is_cancellable-live c id t h).0.same_id

  module _ (old : Task) (m : Memᴰ old T.tasks) (p : matches old ≡ true) where
    find-old : find id T.tasks ≡ some old
    find-old = rw (← matches-id old p) (mem-find T.tasks {t = old} k m)

    find-written : find id written ≡ some (cancel now old)
    unfolding update_row
    find-written =
        rw (find-update_rows id matches (cancel now) T.tasks keeps_id, find-old) (ground arith)

    hit : (S : Tables) → S ≡ record T { tasks = written } → Cancelled T now c id (cancel now old) S
    unfolding cancel
    hit S e = record {
      old = old;
      stored = m;
      own = (is_cancellable-live c id old p).0;
      live = (is_cancellable-live c id old p).1;
      returned = refl;
      row = λ j. rw e (
          find-update_rows j matches (cancel now) T.tasks keeps_id
          ∙ cancel_others now c id j (find j T.tasks) old p (λ i. rw (← i) find-old)
              (λ t q. find-id j T.tasks {t = t} q));
      dead = rw e;
    }

    read_back :
        (S S' : Tables) (t : Task)
        → S ≡ record T { tasks = written }
        → First S (is_owned c id) t S'
        → Cancelled T now c id t S'
    read_back S S' t e r = subst (λ x. Cancelled T now c id x S') (sym same) (hit S' (r.same ∙ e))
      where
        there : find t.id written ≡ some t
        there =
            mem-find written {t = t} (update_rows-IsKeyed matches (cancel now) T.tasks keeps_id k)
              (rw e at r.stored)

        same : t ≡ cancel now old
        same = some-injective _ _ (
            sym there
            ∙ ap (λ i. find i written) (is_owned-IsOwn c id t r.matches).same_id
            ∙ find-written)

    old_owned : is_owned c id (cancel now old) ≡ true
    unfolding cancel
    old_owned = IsOwn-is_owned c id (cancel now old) (
        let own = (is_cancellable-live c id old p).0 in
        record { same_id = own.same_id; owned = own.owned })

    not_read_back :
        {F : Type 0} (S S' : Tables) (e : Error F)
        → S ≡ record T { tasks = written }
        → NotFound S (is_owned c id) e S'
        → NotCancelled T now c id e S'
    not_read_back S S' record_not_found e (same, missing) = absurd (
        true_not_false old_owned (
          All-mem (λ t. is_owned c id t ≡ false) written (rw e at missing)
            (find-mem id written find-written)))
      where
        true_not_false : {b : Bool} → b ≡ true → b ≡ false → ⊥
        true_not_false x y = cc
    not_read_back S S' (fault f) e h = inr (cancel now old, hit S' (h ∙ e))
    not_read_back S S' no_task e h = absurd h
    not_read_back S S' not_cancellable e h = absurd h

module _ (D : Database) (now : ℕ) (c : String) (id : ℕ) (T : Tables) (k : IsKeyed T.tasks) where
  open D use {Db, Fault, tables}

  -- One row was affected: the row is cancelled and read back.
  one-Cancelled :
      (db : Db)
      → tables db ≡ record T { tasks = written now c id T k }
      → count (matches now c id T k) T.tasks ≡ 1
      → Ends D (Cancelled T now c id) (NotCancelled T now c id) (D.first_task (is_owned c id) db)
  one-Cancelled db e one =
      let (old, m, p) = count-mem (matches now c id T k) T.tasks 0 one in
      Post-mono (First (tables db) (is_owned c id)) (Cancelled T now c id)
        (NotFound (tables db) (is_owned c id)) (NotCancelled T now c id)
        (D.first_task (is_owned c id) db).1 (tables (D.first_task (is_owned c id) db).0)
        (λ t r. read_back now c id T k old m p (tables db) _ t e r)
        (λ x h. not_read_back now c id T k old m p (tables db) _ x e h)
        (D.first_task_law (is_owned c id) db)

  refuse :
      (S S' : Tables) (t : Task)
      → S ≡ T
      → All (λ u. matches now c id T k u ≡ false) T.tasks
      → First S (is_owned c id) t S'
      → NotCancelled {F = Fault} T now c id not_cancellable S'
  refuse S S' t e none_live r =
      let stored : Memᴰ t T.tasks = rw e at r.stored in
      let dead =
        not-is_cancellable c id t
          (All-mem (λ u. matches now c id T k u ≡ false) T.tasks none_live stored) r.matches in
      (r.same ∙ e, (t, stored, is_owned-IsOwn c id t r.matches, dead.0, dead.1))

  not_there :
      (S S' : Tables) (x : Error Fault)
      → S ≡ T
      → NotFound S (is_owned c id) x S'
      → NotCancelled T now c id x S'
  not_there S S' record_not_found e (same, missing) = (
    same ∙ e,
    All_mono _ _ T.tasks (λ t h own. ground (arith, IsOwn-is_owned c id t own)) (rw e at missing),
  )
  not_there S S' (fault f) e h = inl (h ∙ e)
  not_there S S' no_task e h = h
  not_there S S' not_cancellable e h = absurd h

  -- No row was affected: the row is missing or has ended.
  none-Cancelled :
      (db : Db)
      → tables db ≡ record T { tasks = written now c id T k }
      → count (matches now c id T k) T.tasks ≡ 0
      → Ends D
          (Cancelled T now c id)
          (NotCancelled T now c id)
          ((D.first_task (is_owned c id) >> throw not_cancellable) db)
  none-Cancelled db e zero_rows =
      let idle = count_zero (matches now c id T k) T.tasks zero_rows in
      let same : tables db ≡ T =
        e
        ∙ ap (λ ts. record T { tasks = ts })
            (update_rows_none (matches now c id T k) (cancel now) T.tasks idle) in
      bind-Ends D (First (tables db) (is_owned c id)) (Cancelled T now c id)
        (NotFound (tables db) (is_owned c id)) (NotCancelled T now c id)
        (D.first_task (is_owned c id)) (λ _. throw not_cancellable) db
        (D.first_task_law (is_owned c id) db) (λ t r. refuse (tables db) _ t same idle r)
        (λ x h. not_there (tables db) _ x same h)

  cancel_outcome-Cancelled :
      (db : Db) (n : ℕ)
      → Updated T (matches now c id T k) (cancel now) n (tables db)
      → Ends D (Cancelled T now c id) (NotCancelled T now c id) (cancel_outcome D c id n db)
  unfolding cancel_outcome
  cancel_outcome-Cancelled db n u =
      let counted = u.affected (cancel_changes now c id) in
      elim (Bool-cases (n == 1)) [
        | inl one ↦ rw one (one-Cancelled db u.rows (sym counted ∙ (==_iff n 1).0 one))
        | inr other ↦ rw other (
            none-Cancelled db u.rows (
              ground (
                arith,
                counted,
                count_le_one (matches now c id T k) id T.tasks (matches-id now c id T k) k,
              )))
      ]

fault-Cancelled :
    {F : Type 0} (T : Tables) (now : ℕ) (c : String) (id : ℕ) (T' : Tables) (e : Error F)
    → Faulted T e T'
    → NotCancelled T now c id e T'
fault-Cancelled T now c id T' (fault f) h = inl h
fault-Cancelled T now c id T' record_not_found h = absurd h
fault-Cancelled T now c id T' no_task h = h
fault-Cancelled T now c id T' not_cancellable h = absurd h

-- CancelTask cancels the client's own row if it waits or runs, and no other row; it answers
-- record_not_found if the client has no row of the id, and not_cancellable if its row has ended,
-- both without a write.
pub cancel_task-Cancelled :
    (D : Database) (now : ℕ) (client_id : String) (id : ℕ) (db : D.Db)
    → IsKeyed (D.tables db).tasks
    → Ends D
        (Cancelled (D.tables db) now client_id id)
        (NotCancelled (D.tables db) now client_id id)
        (cancel_task D now client_id id db)
unfolding cancel_task
cancel_task-Cancelled D now client_id id db k =
    let T = D.tables db in
    bind-Ends D (Updated T (is_cancellable client_id id) (cancel now))
      (Cancelled T now client_id id) (Faulted T) (NotCancelled T now client_id id)
      (D.update_tasks (is_cancellable client_id id) (cancel now)) (cancel_outcome D client_id id) db
      (D.update_tasks_law (is_cancellable client_id id) (cancel now) db)
      (cancel_outcome-Cancelled D now client_id id T k _) (fault-Cancelled T now client_id id _)
