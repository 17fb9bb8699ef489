-- ===== src/Database/Laws.antt =====
-- The documented effect of each statement on the tables, as predicates of its result.
use task_execution_engine.Prelude.{
  ℕ, ◌==◌, ltb, ◌||◌, ◌≤◌, ◌≡◌, ◌≢◌, Bool, true, false, ◌&&◌, not, String, Option, none, some, List,
  [], ◌∷◌, ◌++◌, Memᴰ, All, count, filter, if◌then◌else◌,
}
use mathlib.Core.List.{Perm}
use task_execution_engine.Models.{Task, DeadLetterTask, Tables, with_defaults, dead_letter_defaults}
use task_execution_engine.Database.Outcome.{Result, Error, ok, err, fault}
use task_execution_engine.Database.Rows.{update_rows, IsKeyed}

-- UPDATE tasks SET f WHERE p. RowsAffected counts the matching rows, if each of them is changed.
pub record Updated (T : Tables) (p : Task → Bool) (f : Task → Task) (n : ℕ) (T' : Tables)
    : Type 0 where
  pub rows : T' ≡ record T { tasks = update_rows p f T.tasks }
  pub affected : ((t : Task) → p t ≡ true → (f t).status ≢ t.status) → n ≡ count p T.tasks

-- SELECT … FROM tasks WHERE p, in no particular order.
pub record Selected (T : Tables) (p : Task → Bool) (ts : List Task) (T' : Tables) : Type 0 where
  pub same : T' ≡ T
  pub found : Perm ts (filter p T.tasks)

-- SELECT … WHERE p ORDER BY id LIMIT 1
pub record First (T : Tables) (p : Task → Bool) (t : Task) (T' : Tables) : Type 0 where
  pub same : T' ≡ T
  pub stored : Memᴰ t T.tasks
  pub matches : p t ≡ true
  pub least : All (λ u. p u ≡ true → t.id ≤ u.id) T.tasks

-- First found nothing, or the statement failed.
abbrev pub NotFound : {F : Type 0} → Tables → (Task → Bool) → Error F → Tables → Type 0
NotFound T p Error.record_not_found T' = (T' ≡ T) × All (λ u. p u ≡ false) T.tasks
NotFound T p (fault f) T' = T' ≡ T
NotFound T p Error.no_task T' = ⊥
NotFound T p Error.not_cancellable T' = ⊥

pub data Direction : Type 0 where
  asc desc : Direction

-- ORDER BY key direction, …
abbrev pub OrderBy : Type 0
OrderBy = List (Direction × (Task → ℕ))

unfoldable pub precedes : OrderBy → Task → Task → Bool
precedes [] u t = false
precedes ((asc, key) ∷ keys) u t = ltb (key u) (key t) || (key u == key t && precedes keys u t)
precedes ((desc, key) ∷ keys) u t = ltb (key t) (key u) || (key u == key t && precedes keys u t)

-- SELECT … WHERE p ORDER BY order LIMIT 1 FOR UPDATE SKIP LOCKED: a row that matches, that no other
-- transaction holds, and that no other such row precedes; no row only if there is none such.
abbrev pub Claimed : Tables → (ℕ → Bool) → (Task → Bool) → OrderBy → Option Task → Tables → Type 0
Claimed T locked p order none T' = (T' ≡ T) × All (λ u. (p u && not (locked u.id)) ≡ false) T.tasks
Claimed T locked p order (some t) T' =
    (T' ≡ T)
    × Memᴰ t T.tasks
    × (p t ≡ true)
    × (locked t.id ≡ false)
    × All (λ u. (p u && not (locked u.id)) ≡ true → precedes order u t ≡ false) T.tasks

abbrev pub AllDistinct : List String → Type 0
AllDistinct [] = Unit {0}
AllDistinct (c ∷ cs) = All (λ d. d ≢ c) cs × AllDistinct cs

-- SELECT DISTINCT client_id FROM tasks WHERE p
pub record Distinct (T : Tables) (p : Task → Bool) (cs : List String) (T' : Tables) : Type 0 where
  pub same : T' ≡ T
  pub once : AllDistinct cs
  pub sound : All (λ c. (t : Task) × Memᴰ t T.tasks × (p t ≡ true) × (t.client_id ≡ c)) cs
  pub complete : All (λ t. p t ≡ true → Memᴰ t.client_id cs) T.tasks

-- A stored row is the one that was given, with the column defaults, a new id, and the creation time
-- filled in where it was zero.
abbrev pub Stored : Task → Task → Type 0
Stored t s = s ≡ record (with_defaults t) {
  id = s.id;
  created_at = if t.created_at == 0 then s.created_at else t.created_at;
}

abbrev pub AllStored : List Task → List Task → Type 0
AllStored [] [] = Unit {0}
AllStored (t ∷ ts) (s ∷ ss) = Stored t s × AllStored ts ss
AllStored [] (s ∷ ss) = ⊥
AllStored (t ∷ ts) [] = ⊥

-- INSERT INTO tasks: the rows are appended, and the ids stay a primary key.
pub record Inserted (T : Tables) (ts ss : List Task) (T' : Tables) : Type 0 where
  pub rows : T' ≡ record T { tasks = T.tasks ++ ss }
  pub stored : AllStored ts ss
  pub keyed : IsKeyed T.tasks → IsKeyed (T.tasks ++ ss)

-- INSERT INTO dead_letter_queue
pub record Deposited (T : Tables) (d : DeadLetterTask) (n : ℕ) (T' : Tables) : Type 0 where
  pub rows : T' ≡ record T {
    dead_letters = T.dead_letters ++ record (dead_letter_defaults d) { id = n } ∷ [];
  }

-- db.Transaction(body): the body starts from the tables and locks as they are; its writes are kept
-- if it returns no error, and undone if it does. Begin and commit may fail, and nothing is kept.
pub data Transacted {Db F A : Type 0} (tables : Db → Tables) (locked : Db → ℕ → Bool)
    (body : Db → Db × Result F A) (db db' : Db) (r : Result F A) : Type 0 where
  committed :
      (start : Db) (a : A)
      → tables start ≡ tables db
      → locked start ≡ locked db
      → (body start).1 ≡ ok a
      → tables db' ≡ tables (body start).0
      → r ≡ ok a
      → Transacted tables locked body db db' r
  rolled_back :
      (start : Db) (e : Error F)
      → tables start ≡ tables db
      → locked start ≡ locked db
      → (body start).1 ≡ err e
      → tables db' ≡ tables db
      → r ≡ err e
      → Transacted tables locked body db db' r
  lost :
      (f : F) → tables db' ≡ tables db → r ≡ err (fault f) → Transacted tables locked body db db' r
