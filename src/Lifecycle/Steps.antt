-- ===== src/Lifecycle/Steps.antt =====
-- What holds of the tables through every statement, and the rules that carry it through a method.
use task_execution_engine.Prelude.{
  ◌==◌, ◌≡◌, ◌≢◌, sym, ap, subst, ◌∙◌, inl, inr, Bool, true, List, [], ◌∷◌, All, All-append, any,
  Bool-cases,
}
use task_execution_engine.Models.{Task, DeadLetterTask, Tables, failed, with_defaults}
use task_execution_engine.Database.{Database}
use task_execution_engine.Database.Outcome.{
  Result, Error, ok, err, Post, Faulted, record_not_found, no_task, not_cancellable, fault,
}
use task_execution_engine.Database.Laws.{
  Transacted, committed, rolled_back, lost, Updated, Inserted, AllStored,
}
use task_execution_engine.Database.Rows.{
  IsKeyed, KeepsId, update_row, update_rows, update_rows-IsKeyed,
}
use task_execution_engine.Database.Program.{Program, ◌>>=◌, resume}

-- A failed task has a dead letter of its id.
abbrev pub IsRecorded : List DeadLetterTask → Task → Type 0
IsRecorded ds t = t.status ≡ failed → any (λ d. d.original_task_id == t.id) ds ≡ true

pub record IsSound (T : Tables) : Type 0 where
  pub keyed : IsKeyed T.tasks
  pub recorded : All (IsRecorded T.dead_letters) T.tasks

-- An UPDATE that makes no task failed.
pub record IsTame (f : Task → Task) : Type 0 where
  pub keeps_id : KeepsId f
  pub no_failure : (t : Task) → (f t).status ≡ failed → t.status ≡ failed

update_rows-IsRecorded :
    (ds : List DeadLetterTask) (p : Task → Bool) (f : Task → Task) (ts : List Task)
    → IsTame f
    → All (IsRecorded ds) ts
    → All (IsRecorded ds) (update_rows p f ts)
unfolding update_rows update_row
update_rows-IsRecorded ds p f [] tame h = tt
update_rows-IsRecorded ds p f (t ∷ ts) tame h = (
  elim (Bool-cases (p t)) [
    | inl e ↦ rw e (λ q.
        subst (λ i. any (λ d. d.original_task_id == i) ds ≡ true) (sym (tame.keeps_id t))
          (h.0 (tame.no_failure t q)))
    | inr e ↦ rw e (h.0)
  ],
  update_rows-IsRecorded ds p f ts tame h.1,
)

pub update-IsSound :
    (T : Tables) (p : Task → Bool) (f : Task → Task)
    → IsTame f
    → IsSound T
    → IsSound (record T { tasks = update_rows p f T.tasks })
update-IsSound T p f tame h = record {
  keyed = update_rows-IsKeyed p f T.tasks tame.keeps_id h.keyed;
  recorded = update_rows-IsRecorded T.dead_letters p f T.tasks tame h.recorded;
}

stored_live :
    (ds : List DeadLetterTask) (us vs : List Task)
    → All (λ t. t.status ≢ failed) us
    → AllStored us vs
    → All (IsRecorded ds) vs
unfolding with_defaults
stored_live ds [] [] l s = tt
stored_live ds [] (v ∷ vs) l s = absurd s
stored_live ds (u ∷ us) [] l s = absurd s
stored_live ds (u ∷ us) (v ∷ vs) l s =
    (λ q. absurd (l.0 (sym (ap (λ (t : Task). t.status) s.0) ∙ q)), stored_live ds us vs l.1 s.1)

-- An INSERT of tasks that have not failed.
pub Inserted-IsSound :
    (T T' : Tables) (ts ss : List Task)
    → All (λ t. t.status ≢ failed) ts
    → IsSound T
    → Inserted T ts ss T'
    → IsSound T'
Inserted-IsSound T T' ts ss live h i = subst IsSound (sym i.rows) (record {
  keyed = i.keyed h.keyed;
  recorded =
      All-append (IsRecorded T.dead_letters) T.tasks ss h.recorded
        (stored_live T.dead_letters ts ss live i.stored);
})

module _ (D : Database) where
  open D use {Db, Fault, tables}

  -- However the method ends, the tables are sound after it if they were before.
  abbrev pub Keeps : {A : Type 0} → Program D A → Type 0
  Keeps m = (db : Db) → IsSound (tables db) → IsSound (tables (m db).0)

  resume-Keeps :
      {A B : Type 0} (f : A → Program D B) (db : Db) (r : Result Fault A)
      → ((a : A) → Keeps (f a))
      → IsSound (tables db)
      → IsSound (tables (resume f db r).0)
  resume-Keeps f db (ok a) k h = k a db h
  resume-Keeps f db (err e) k h = h

  pub bind-Keeps :
      {A B : Type 0} (m : Program D A) (f : A → Program D B)
      → Keeps m
      → ((a : A) → Keeps (f a))
      → Keeps (m >>= f)
  bind-Keeps m f k l db h = resume-Keeps f (m db).0 (m db).1 l (k db h)

  Transacted-IsSound :
      {A : Type 0} (body : Program D A) (db db' : Db) (r : Result Fault A)
      → ((start : Db) (a : A)
          → tables start ≡ tables db
          → (body start).1 ≡ ok a
          → IsSound (tables (body start).0))
      → IsSound (tables db)
      → Transacted tables D.locked body db db' r
      → IsSound (tables db')
  Transacted-IsSound body db db' r k h (committed s a t l b t' q) =
      subst IsSound (sym t') (k s a t b)
  Transacted-IsSound body db db' r k h (rolled_back s x t l b t' q) = subst IsSound (sym t') h
  Transacted-IsSound body db db' r k h (lost f t' q) = subst IsSound (sym t') h

  -- A transaction need keep the tables sound only where its body succeeds.
  pub transaction-Keeps :
      {A : Type 0} (body : Program D A)
      → ((start : Db) (a : A)
          → IsSound (tables start)
          → (body start).1 ≡ ok a
          → IsSound (tables (body start).0))
      → Keeps (D.transaction body)
  transaction-Keeps body k db h =
      let (db', r) = D.transaction body db in
      Transacted-IsSound body db db' r (λ s a t b. k s a (subst IsSound (sym t) h) b) h
        (D.transaction_law body db)

  -- A statement whose success and failure are known.
  pub Post-IsSound :
      {A : Type 0} (G : A → Tables → Type 0) (B : Error Fault → Tables → Type 0)
      (r : Result Fault A) (T' : Tables)
      → Post G B r T'
      → ((a : A) → G a T' → IsSound T')
      → ((e : Error Fault) → B e T' → IsSound T')
      → IsSound T'
  Post-IsSound G B (ok a) T' h g b = g a h
  Post-IsSound G B (err e) T' h g b = b e h

  pub Faulted-IsSound : (T T' : Tables) (e : Error Fault) → IsSound T → Faulted T e T' → IsSound T'
  Faulted-IsSound T T' (fault f) h q = subst IsSound (sym q) h
  Faulted-IsSound T T' record_not_found h q = absurd q
  Faulted-IsSound T T' no_task h q = absurd q
  Faulted-IsSound T T' not_cancellable h q = absurd q

  pub update-Keeps : (p : Task → Bool) (f : Task → Task) → IsTame f → Keeps (D.update_tasks p f)
  update-Keeps p f tame db h =
      let (db', r) = D.update_tasks p f db in
      Post-IsSound (Updated (tables db) p f) (Faulted (tables db)) r (tables db')
        (D.update_tasks_law p f db)
        (λ n u. subst IsSound (sym u.rows) (update-IsSound (tables db) p f tame h))
        (λ e q. Faulted-IsSound (tables db) (tables db') e h q)
