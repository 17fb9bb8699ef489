-- ===== src/Database/Program.antt =====
-- Programs over a database: state passing with errors, and the rules that their proofs use.
use task_execution_engine.Prelude.{◌≡◌, sym, subst, ◌∙◌}
use task_execution_engine.Models.{Tables}
use task_execution_engine.Database.{Database}
use task_execution_engine.Database.Outcome.{Result, Error, Post, Post-mono, Faulted, ok, err, fault}
use task_execution_engine.Database.Laws.{Transacted, committed, rolled_back, lost}

-- A method of a service: it may write to the database, and returns a value or an error.
abbrev pub Program : Database → Type 0 → Type 0
Program D A = D.Db → D.Db × Result D.Fault A

abbrev pub resume : {S F A B : Type 0} → (A → S → S × Result F B) → S → Result F A → S × Result F B
resume f s (ok a) = f a s
resume f s (err e) = (s, err e)

-- `if err := …; err != nil { return err }`: an error ends the method, with the state as it is then.
infixl 5 ◌>>=◌ ◌>>◌
abbrev pub ◌>>=◌ :
    {S F A B : Type 0} → (S → S × Result F A) → (A → S → S × Result F B) → S → S × Result F B
◌>>=◌ m f s = resume f (m s).0 (m s).1

abbrev pub ◌>>◌ :
    {S F A B : Type 0} → (S → S × Result F A) → (S → S × Result F B) → S → S × Result F B
◌>>◌ m k s = resume (λ _. k) (m s).0 (m s).1

abbrev pub pure : {S F A : Type 0} → A → S → S × Result F A
pure a s = (s, ok a)

abbrev pub throw : {S F A : Type 0} → Error F → S → S × Result F A
throw e s = (s, err e)

-- The result r, with the database as it is after it, meets one postcondition or the other.
abbrev pub Ends :
    (D : Database) {A : Type 0}
    → (A → Tables → Type 0)
    → (Error D.Fault → Tables → Type 0)
    → D.Db × Result D.Fault A
    → Type 0
Ends D G B (db, r) = Post G B r (D.tables db)

module _ (D : Database) where
  open D use {Db, Fault, tables}

  pub Ends-mono :
      {A : Type 0} (G G' : A → Tables → Type 0) (E : Error Fault → Tables → Type 0)
      (s : Db × Result Fault A)
      → ((a : A) (T : Tables) → G a T → G' a T)
      → Ends D G E s
      → Ends D G' E s
  Ends-mono G G' E (db, r) g = Post-mono G G' E E r (tables db) (λ a. g a (tables db)) (λ e h. h)

  resume-Ends :
      {A B : Type 0} (G : A → Tables → Type 0) (G' : B → Tables → Type 0)
      (E E' : Error Fault → Tables → Type 0) (f : A → Program D B) (db : Db) (r : Result Fault A)
      → Post G E r (tables db)
      → ((a : A) → G a (tables db) → Ends D G' E' (f a db))
      → ((e : Error Fault) → E e (tables db) → E' e (tables db))
      → Ends D G' E' (resume f db r)
  resume-Ends G G' E E' f db (ok a) h g e = g a h
  resume-Ends G G' E E' f db (err x) h g e = e x h

  -- A step, and what follows it from the database that the step left.
  pub bind-Ends :
      {A B : Type 0} (G : A → Tables → Type 0) (G' : B → Tables → Type 0)
      (E E' : Error Fault → Tables → Type 0) (m : Program D A) (f : A → Program D B) (db : Db)
      → Ends D G E (m db)
      → ((a : A) → G a (tables (m db).0) → Ends D G' E' (f a (m db).0))
      → ((e : Error Fault) → E e (tables (m db).0) → E' e (tables (m db).0))
      → Ends D G' E' ((m >>= f) db)
  bind-Ends G G' E E' m f db = resume-Ends G G' E E' f (m db).0 (m db).1

  Transacted-Ends :
      {A : Type 0} (G : A → Tables → Type 0) (E : Error Fault → Tables → Type 0)
      (body : Program D A) (db db' : Db) (r : Result Fault A)
      → Transacted tables D.locked body db db' r
      → ((start : Db)
          → tables start ≡ tables db
          → D.locked start ≡ D.locked db
          → Ends D G (λ e _. E e (tables db)) (body start))
      → ((f : Fault) → E (fault f) (tables db))
      → Post G E r (tables db')
  Transacted-Ends G E body db db' r (committed s a t l b t' q) h e =
      subst (λ x. Post G E x (tables db')) (sym q)
        (subst (G a) (sym t')
          (subst (λ x. Post G (λ e _. E e (tables db)) x (tables (body s).0)) b (h s t l)))
  Transacted-Ends G E body db db' r (rolled_back s x t l b t' q) h e =
      subst (λ y. Post G E y (tables db')) (sym q)
        (subst (E x) (sym t')
          (subst (λ y. Post G (λ e _. E e (tables db)) y (tables (body s).0)) b (h s t l)))
  Transacted-Ends G E body db db' r (lost f t' q) h e =
      subst (λ y. Post G E y (tables db')) (sym q) (subst (E (fault f)) (sym t') (e f))

  -- A transaction ends as its body does, but on an error the tables are as they were.
  pub transaction-Ends :
      {A : Type 0} (G : A → Tables → Type 0) (E : Error Fault → Tables → Type 0)
      (body : Program D A) (db : Db)
      → ((start : Db)
          → tables start ≡ tables db
          → D.locked start ≡ D.locked db
          → Ends D G (λ e _. E e (tables db)) (body start))
      → ((f : Fault) → E (fault f) (tables db))
      → Ends D G E (D.transaction body db)
  transaction-Ends G E body db h e =
      let (db', r) = D.transaction body db in
      Transacted-Ends G E body db db' r (D.transaction_law body db) h e

  -- A step that only reads, and what follows it from the same tables.
  pub reads-Ends :
      {A B : Type 0} (G : Tables → A → Type 0) (G' : B → Tables → Type 0) (T : Tables)
      (m : Program D A) (f : A → Program D B) (db : Db)
      → tables db ≡ T
      → Ends D (λ a T'. (T' ≡ tables db) × G (tables db) a) (Faulted (tables db)) (m db)
      → ((a : A) (db' : Db) → tables db' ≡ T → G T a → Ends D G' (Faulted T) (f a db'))
      → Ends D G' (Faulted T) ((m >>= f) db)
  reads-Ends G G' T m f db same law next =
      bind-Ends (λ a T'. (T' ≡ tables db) × G (tables db) a) G' (Faulted (tables db)) (Faulted T) m
        f db law (λ a (kept, g). next a (m db).0 (kept ∙ same) (subst (λ S. G S a) same g))
        (λ e h. subst (λ S. Faulted S e (tables (m db).0)) same h)
