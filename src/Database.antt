-- ===== src/Database.antt =====
-- What the services use of gorm.io/gorm and MySQL, as an interface: the state and the statements
-- are the third party's, and the laws say what their documentation says of the tables. A statement
-- either succeeds or fails with a `Fault` of the driver and changes no row. Every statement and
-- every transaction is one atomic step; the rows that other open transactions hold are `locked`.
pub mod Outcome
pub mod Rows
pub mod Counted
pub mod Laws
pub mod Program
pub mod Keys
pub mod Memory
use Outcome.{Result, Error, Post, Faulted}
use Laws.{
  Updated, Selected, First, NotFound, OrderBy, Claimed, Distinct, Inserted, Deposited, Transacted,
}
use task_execution_engine.Prelude.{ℕ, ◌≡◌, Bool, not, String, Option, List, [], ◌∷◌, filter}
use task_execution_engine.Models.{Task, DeadLetterTask, Tables}

pub record Database : Type 1 where
  pub Db : Type 0
  pub Fault : Type 0
  -- What a text column compares by, in =, in GROUP BY and in a unique key: the weight of the text in
  -- the column's collation. Texts that differ in the case of letters may have the same.
  pub weight : String → String
  -- What a JSON column holds for a text: MySQL's normal form of the document.
  pub json_column : String → String
  pub tables : Db → Tables
  pub locked : Db → ℕ → Bool
  pub update_tasks : (Task → Bool) → (Task → Task) → Db → Db × Result Fault ℕ
  pub update_tasks_law :
      (p : Task → Bool) (f : Task → Task) (db : Db)
      → let (db', r) = update_tasks p f db in
        Post (Updated (tables db) p f) (Faulted (tables db)) r (tables db')
  pub select_tasks : (Task → Bool) → Db → Db × Result Fault (List Task)
  pub select_tasks_law :
      (p : Task → Bool) (db : Db)
      → let (db', r) = select_tasks p db in
        Post (Selected (tables db) p) (Faulted (tables db)) r (tables db')
  pub first_task : (Task → Bool) → Db → Db × Result Fault Task
  pub first_task_law :
      (p : Task → Bool) (db : Db)
      → let (db', r) = first_task p db in
        Post (First (tables db) p) (NotFound (tables db) p) r (tables db')
  pub claim_task : (Task → Bool) → OrderBy → Db → Db × Result Fault (Option Task)
  pub claim_task_law :
      (p : Task → Bool) (order : OrderBy) (db : Db)
      → let (db', r) = claim_task p order db in
        Post (Claimed (tables db) (locked db) p order) (Faulted (tables db)) r (tables db')
  pub distinct_clients : (Task → Bool) → Db → Db × Result Fault (List String)
  pub distinct_clients_law :
      (p : Task → Bool) (db : Db)
      → let (db', r) = distinct_clients p db in
        Post (Distinct (tables db) p) (Faulted (tables db)) r (tables db')
  pub insert_task : Task → Db → Db × Result Fault Task
  pub insert_task_law :
      (t : Task) (db : Db)
      → let (db', r) = insert_task t db in
        Post (λ s. Inserted (tables db) (t ∷ []) (s ∷ [])) (Faulted (tables db)) r (tables db')
  pub insert_tasks : List Task → Db → Db × Result Fault (List Task)
  pub insert_tasks_law :
      (ts : List Task) (db : Db)
      → let (db', r) = insert_tasks ts db in
        Post (Inserted (tables db) ts) (Faulted (tables db)) r (tables db')
  pub insert_dead_letter : DeadLetterTask → Db → Db × Result Fault ℕ
  pub insert_dead_letter_law :
      (d : DeadLetterTask) (db : Db)
      → let (db', r) = insert_dead_letter d db in
        Post (Deposited (tables db) d) (Faulted (tables db)) r (tables db')
  pub delete_tasks : (Task → Bool) → Db → Db × Result Fault ℕ
  pub delete_tasks_law :
      (p : Task → Bool) (db : Db)
      → let (db', r) = delete_tasks p db in
        Post
          (λ _ T'. T' ≡ record (tables db) { tasks = filter (λ t. not (p t)) (tables db).tasks })
          (Faulted (tables db))
          r
          (tables db')
  pub delete_dead_letters : (DeadLetterTask → Bool) → Db → Db × Result Fault ℕ
  pub delete_dead_letters_law :
      (p : DeadLetterTask → Bool) (db : Db)
      → let (db', r) = delete_dead_letters p db in
        Post
          (λ _ T'. T' ≡ record (tables db) {
            dead_letters = filter (λ d. not (p d)) (tables db).dead_letters;
          })
          (Faulted (tables db))
          r
          (tables db')
  pub transaction : {A : Type 0} → (Db → Db × Result Fault A) → Db → Db × Result Fault A
  pub transaction_law :
      {A : Type 0} (body : Db → Db × Result Fault A) (db : Db)
      → let (db', r) = transaction body db in Transacted tables locked body db db' r
