-- ===== src/Database/Memory.antt =====
-- A database in memory that meets the laws of the interface: its statements never fail.
pub mod Order
pub mod Insert
use mathlib.Core.List.Perm
use task_execution_engine.Prelude.{
  ℕ, ◌+◌, ◌≡◌, ◌≤◌, ◌<◌, refl, sym, ap, Bool, true, false, ◌&&◌, not, ltb, String, Option, none,
  some, List, [], ◌∷◌, ◌++◌, Memᴰ, arith, filter, count, All, All_mono,
}
use task_execution_engine.Models.{Task, DeadLetterTask, ApiKey, Tables, dead_letter_defaults}
use task_execution_engine.Database.{Database}
use task_execution_engine.Database.Outcome.{
  Result, Error, Post, Faulted, ok, err, record_not_found, fault,
}
use task_execution_engine.Database.Laws.{
  Updated, Selected, First, NotFound, OrderBy, asc, precedes, Claimed, Distinct, Inserted,
  Deposited, Transacted, committed, rolled_back,
}
use task_execution_engine.Database.Rows.{update_rows}
use task_execution_engine.Database.Memory.Order.{best, IsBest, best-IsBest}
use task_execution_engine.Database.Memory.Insert.{
  next_id, store_row, store_row-Stored, store, store-AllStored, insert-IsKeyed, clients_of,
  clients_of-AllDistinct, clients_of_sound, clients_of_complete,
}

-- The tables, the rows that other transactions hold, and the clock.
pub record Memory : Type 0 where
  pub tables : Tables
  pub locked : ℕ → Bool
  pub now : ℕ

-- No statement fails.
pub data NoFault : Type 0 where

abbrev pub with_tables : Memory → Tables → Memory
with_tables m T = record m { tables = T }

abbrev pub update : (Task → Bool) → (Task → Task) → Memory → Memory × Result NoFault ℕ
update p f m = (
  with_tables m (record m.tables { tasks = update_rows p f m.tables.tasks }),
  ok (count p m.tables.tasks),
)

abbrev pub first_of_id : OrderBy
first_of_id = (asc, λ t. t.id) ∷ []

unfoldable pub found : Option Task → Result NoFault Task
found none = err record_not_found
found (some t) = ok t

pub found-First :
    (T : Tables) (p : Task → Bool) (o : Option Task)
    → IsBest p first_of_id T.tasks o
    → Post (First T p) (NotFound T p) (found o) T
unfolding found precedes
found-First T p none h = (refl, h)
found-First T p (some t) (m, e, a) = record {
  same = refl;
  stored = m;
  matches = e;
  least = All_mono _ _ T.tasks (λ u f g. ground (arith, f g)) a;
}

abbrev pub free : (ℕ → Bool) → (Task → Bool) → Task → Bool
free locked p t = p t && not (locked t.id)

pub best-Claimed :
    (T : Tables) (L : ℕ → Bool) (p : Task → Bool) (o : OrderBy) (r : Option Task)
    → IsBest (free L p) o T.tasks r
    → Claimed T L p o r T
best-Claimed T L p o none h = (refl, h)
best-Claimed T L p o (some t) (m, e, a) = (refl, m, ground arith, ground arith, a)

abbrev pub insert : List Task → Memory → Memory × Result NoFault (List Task)
insert ts m =
    let ss = store m.now (next_id m.tables.tasks) ts in
    (with_tables m (record m.tables { tasks = m.tables.tasks ++ ss }), ok ss)

abbrev pub insert_one : Task → Memory → Memory × Result NoFault Task
insert_one t m =
    let s = store_row m.now (next_id m.tables.tasks) t in
    (with_tables m (record m.tables { tasks = m.tables.tasks ++ s ∷ [] }), ok s)

pub insert_one-Inserted :
    (t : Task) (m : Memory)
    → Inserted m.tables
        (t ∷ [])
        (store_row m.now (next_id m.tables.tasks) t ∷ [])
        (insert_one t m).0.tables
unfolding store
insert_one-Inserted t m = record {
  rows = refl;
  stored = (store_row-Stored m.now (next_id m.tables.tasks) t, tt);
  keyed = insert-IsKeyed m.now m.tables.tasks (t ∷ []);
}

abbrev pub settle : {A : Type 0} → Memory → Memory × Result NoFault A → Memory × Result NoFault A
settle m (m', ok a) = (m', ok a)
settle m (m', err e) = (m, err e)

pub settle-Transacted :
    {A : Type 0} (body : Memory → Memory × Result NoFault A) (m m' : Memory) (r : Result NoFault A)
    → body m ≡ (m', r)
    → Transacted (λ n. n.tables) (λ n. n.locked) body m (settle m (m', r)).0 (settle m (m', r)).1
settle-Transacted body m m' (ok a) e =
    committed m a refl refl (ap (λ s. s.1) e) (ap (λ s. s.0.tables) (sym e)) refl
settle-Transacted body m m' (err x) e = rolled_back m x refl refl (ap (λ s. s.1) e) refl refl

abbrev pub memory : Database
memory = record {
  Db = Memory;
  Fault = NoFault;
  weight = λ s. s;
  json_column = λ s. s;
  tables = λ m. m.tables;
  locked = λ m. m.locked;
  update_tasks = update;
  update_tasks_law = λ p f m. record { rows = refl; affected = λ _. refl };
  select_tasks = λ p m. (m, ok (filter p m.tables.tasks));
  select_tasks_law = λ p m. record { same = refl; found = Perm.refl _ };
  first_task = λ p m. (m, found (best p first_of_id m.tables.tasks));
  first_task_law = λ p m. found-First m.tables p _ (best-IsBest p first_of_id m.tables.tasks);
  claim_task = λ p o m. (m, ok (best (free m.locked p) o m.tables.tasks));
  claim_task_law = λ p o m.
      best-Claimed m.tables m.locked p o _ (best-IsBest (free m.locked p) o m.tables.tasks);
  distinct_clients = λ p m. (m, ok (clients_of p m.tables.tasks));
  distinct_clients_law = λ p m. record {
    same = refl;
    once = clients_of-AllDistinct p m.tables.tasks;
    sound = clients_of_sound p m.tables.tasks;
    complete = clients_of_complete p m.tables.tasks;
  };
  insert_task = insert_one;
  insert_task_law = insert_one-Inserted;
  insert_tasks = insert;
  insert_tasks_law = λ ts m. record {
    rows = refl;
    stored = store-AllStored m.now _ ts;
    keyed = insert-IsKeyed m.now m.tables.tasks ts;
  };
  insert_dead_letter = λ d m. (
    with_tables m (record m.tables {
      dead_letters = m.tables.dead_letters ++ record (dead_letter_defaults d) { id = 1 } ∷ [];
    }),
    ok 1,
  );
  insert_dead_letter_law = λ d m. record { rows = refl };
  delete_tasks = λ p m. (
    with_tables m (record m.tables { tasks = filter (λ t. not (p t)) m.tables.tasks }),
    ok (count p m.tables.tasks),
  );
  delete_tasks_law = λ p m. refl;
  delete_dead_letters = λ p m. (
    with_tables m
        (record m.tables { dead_letters = filter (λ d. not (p d)) m.tables.dead_letters }),
    ok (count p m.tables.dead_letters),
  );
  delete_dead_letters_law = λ p m. refl;
  transaction = λ body m. settle m (body m);
  transaction_law = λ body m. settle-Transacted body m (body m).0 (body m).1 refl;
}
