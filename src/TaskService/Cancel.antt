-- ===== src/TaskService/Cancel.antt =====
-- CancelTask of backend/services/task_service.go: its outcomes, and the statements it is made of.
pub mod Guard
use task_execution_engine.Prelude.{
  ℕ, suc, ◌==◌, ◌≤◌, ◌≡◌, ◌≢◌, ◌⊎◌, inl, inr, refl, sym, ap, subst, Bool, true, false, ◌&&◌, String,
  Option, none, some, List, [], ◌∷◌, Memᴰ, arith, if◌then◌else◌, Bool-cases, All, All_mono, count,
  str_eq, str_eq_iff,
}
use mathlib.Core.Option as Opt
use task_execution_engine.Models.{
  Task, Tables, Status, pending, running, completed, failed, cancelled,
}
use task_execution_engine.Database.{Database}
use task_execution_engine.Database.Outcome.{
  Error, Faulted, no_task, not_cancellable, record_not_found, fault,
}
use task_execution_engine.Database.Laws.{Updated, First, NotFound}
use task_execution_engine.Database.Rows.{
  IsKeyed, RowBecomes, find, find-update_rows, update_rows, update_row, has_id, mem-find, status_of,
  find-id, find-mem,
}
use task_execution_engine.Database.Program.{Program, Ends, ◌>>=◌, ◌>>◌, pure, throw, bind-Ends}
use task_execution_engine.TaskService.{
  is_owned, is_cancellable, cancel, cancel_outcome, cancel_task, get_task,
}

-- The client's own row of the id.
pub record IsOwn (client_id : String) (id : ℕ) (t : Task) : Type 0 where
  pub same_id : t.id ≡ id
  pub owned : t.client_id ≡ client_id

pub is_owned-IsOwn : (c : String) (i : ℕ) (t : Task) → is_owned c i t ≡ true → IsOwn c i t
unfolding is_owned
is_owned-IsOwn c i t h = ground (arith, str_eq_iff t.client_id c)

pub IsOwn-is_owned : (c : String) (i : ℕ) (t : Task) → IsOwn c i t → is_owned c i t ≡ true
unfolding is_owned
IsOwn-is_owned c i t h = ground (arith, str_eq_iff t.client_id c)

-- The row was the client's own, and waiting or running; it is cancelled at `now`, and returned so.
pub record Cancelled (T : Tables) (now : ℕ) (client_id : String) (id : ℕ) (t : Task) (T' : Tables)
    : Type 0 where
  pub old : Task
  pub stored : Memᴰ old T.tasks
  pub own : IsOwn client_id id old
  pub live : (old.status ≡ pending) ⊎ (old.status ≡ running)
  pub returned : t ≡ record old { status = cancelled; completed_at = some now }
  pub row :
      RowBecomes id (λ r. record r { status = cancelled; completed_at = some now }) T.tasks T'.tasks
  pub dead : T'.dead_letters ≡ T.dead_letters

-- Nothing to cancel: the client has no such row, or its row has ended. If the database fails, it
-- fails before the update or, with the row cancelled, at the reading back.
abbrev pub NotCancelled : {F : Type 0} → Tables → ℕ → String → ℕ → Error F → Tables → Type 0
NotCancelled T now client_id id record_not_found T' =
    (T' ≡ T) × All (λ t. ¬ IsOwn client_id id t) T.tasks
NotCancelled T now client_id id not_cancellable T' =
    (T' ≡ T)
    × ((t : Task) × Memᴰ t T.tasks
        × IsOwn client_id id t
        × (t.status ≢ pending)
        × (t.status ≢ running))
NotCancelled T now client_id id (fault f) T' =
    (T' ≡ T) ⊎ ((t : Task) × Cancelled T now client_id id t T')
NotCancelled T now client_id id no_task T' = ⊥

is_cancellable-live :
    (c : String) (i : ℕ) (t : Task)
    → is_cancellable c i t ≡ true
    → IsOwn c i t × ((t.status ≡ pending) ⊎ (t.status ≡ running))
unfolding is_cancellable
is_cancellable-live c i t h = (is_owned-IsOwn c i t (ground arith), ground arith)

not-is_cancellable :
    (c : String) (i : ℕ) (t : Task)
    → is_cancellable c i t ≡ false
    → is_owned c i t ≡ true
    → (t.status ≢ pending) × (t.status ≢ running)
unfolding is_cancellable
not-is_cancellable c i t h o = (ground arith, ground arith)

cancel_changes :
    (now : ℕ) (c : String) (i : ℕ) (t : Task)
    → is_cancellable c i t ≡ true
    → (cancel now t).status ≢ t.status
unfolding cancel
cancel_changes now c i t h = ground (arith, (is_cancellable-live c i t h).1)

cancel_others :
    (now : ℕ) (c : String) (i j : ℕ) (o : Option Task) (old : Task)
    → is_cancellable c i old ≡ true
    → (i ≡ j → o ≡ some old)
    → ((t : Task) → o ≡ some t → t.id ≡ j)
    → Opt.map (update_row (is_cancellable c i) (cancel now)) o
      ≡ (if i == j then Opt.map (cancel now) o else o)
unfolding update_row
cancel_others now c i j none old p same ids = ground arith
cancel_others now c i j (some t) old p same ids = elim (Bool-cases (i == j)) [
  | inl e ↦ ground (arith, same (ground arith))
  | inr e ↦ ground (arith, ids t refl, (is_cancellable-live c i t))
]
