-- ===== src/TaskService/Claim.antt =====
-- DequeueTaskForClient of backend/services/task_service.go: which row is claimed.
pub mod Once
use task_execution_engine.Prelude.{
  ℕ, ◌≤◌, ◌<◌, ◌≡◌, ◌⊎◌, refl, Bool, true, false, ◌&&◌, not, String, Option, none, some, Memᴰ,
  arith, str_eq_iff, All, All_mono,
}
use task_execution_engine.Models.{Task, Tables, pending}
use task_execution_engine.Database.{Database}
use task_execution_engine.Database.Outcome.{
  Error, Faulted, no_task, not_cancellable, record_not_found, fault,
}
use task_execution_engine.Database.Laws.{Updated, Claimed, precedes}
use task_execution_engine.Database.Rows.{update_rows, has_id}
use task_execution_engine.Database.Program.{Ends, ◌>>=◌, pure, bind-Ends, transaction-Ends}
use task_execution_engine.TaskService.{
  is_claimable, claim_order, claim_columns, mark_running, claim_row, dequeue_task_for_client,
}

-- A row that the client may claim now: it waits, it is the client's, and no transaction holds it.
pub record MayClaim (locked : ℕ → Bool) (client_id : String) (t : Task) : Type 0 where
  pub waits : t.status ≡ pending
  pub owned : t.client_id ≡ client_id
  pub unlocked : locked t.id ≡ false

-- The highest priority first, and within a priority the oldest.
abbrev pub NotAfter : Task → Task → Type 0
NotAfter t u =
    (u.priority < t.priority) ⊎ ((u.priority ≡ t.priority) × (t.created_at ≤ u.created_at))

-- The claimed row was claimable and the best such; it alone is written, and now runs here.
pub record Dequeued (T : Tables) (locked : ℕ → Bool) (client_id instance_id : String) (t : Task)
    (T' : Tables) : Type 0 where
  pub row : Task
  pub stored : Memᴰ row T.tasks
  pub claimable : MayClaim locked client_id row
  pub best : All (λ u. MayClaim locked client_id u → NotAfter row u) T.tasks
  pub returned : t ≡ mark_running instance_id (claim_columns row)
  pub written :
      T' ≡ record T { tasks = update_rows (has_id row.id) (mark_running instance_id) T.tasks }

-- Nothing was claimed: no row is claimable, or the database failed; nothing is written.
abbrev pub NotDequeued : {F : Type 0} → Tables → (ℕ → Bool) → String → Error F → Tables → Type 0
NotDequeued T locked client_id no_task T' =
    (T' ≡ T) × All (λ u. ¬ MayClaim locked client_id u) T.tasks
NotDequeued T locked client_id (fault f) T' = T' ≡ T
NotDequeued T locked client_id record_not_found T' = ⊥
NotDequeued T locked client_id not_cancellable T' = ⊥

is_claimable-MayClaim :
    (locked : ℕ → Bool) (c : String) (t : Task)
    → is_claimable c t ≡ true
    → locked t.id ≡ false
    → MayClaim locked c t
unfolding is_claimable
is_claimable-MayClaim locked c t h l = ground (arith, str_eq_iff t.client_id c)

MayClaim-is_claimable :
    (locked : ℕ → Bool) (c : String) (t : Task)
    → MayClaim locked c t
    → (is_claimable c t && not (locked t.id)) ≡ true
unfolding is_claimable
MayClaim-is_claimable locked c t m = ground (arith, str_eq_iff t.client_id c)

precedes-NotAfter : (t u : Task) → precedes claim_order u t ≡ false → NotAfter t u
unfolding precedes
precedes-NotAfter t u h = ground arith

module _ (D : Database) (client_id instance_id : String) (T : Tables) (L : ℕ → Bool) where
  open D use {Db, Fault, tables}

  -- The postconditions of the transaction's body; an error undoes what it wrote.
  abbrev Claims : Task → Tables → Type 0
  Claims = Dequeued T L client_id instance_id

  abbrev Undone : Error Fault → Tables → Type 0
  Undone e _ = NotDequeued T L client_id e T

  Faulted-Undone : (S S' : Tables) (e : Error Fault) → Faulted S e S' → Undone e S'
  Faulted-Undone S S' no_task h = absurd h
  Faulted-Undone S S' record_not_found h = h
  Faulted-Undone S S' not_cancellable h = h
  Faulted-Undone S S' (fault f) h = refl

  claim_row-Dequeued :
      (db : Db) (o : Option Task)
      → Claimed T L (is_claimable client_id) claim_order o (tables db)
      → Ends D Claims Undone (claim_row D instance_id o db)
  unfolding claim_row
  claim_row-Dequeued db none (same, none_left) = (
    refl,
    All_mono _ _ T.tasks (λ u h m. ground (arith, MayClaim-is_claimable L client_id u m)) none_left,
  )
  claim_row-Dequeued db (some t) (same, stored, p, l, best) =
      bind-Ends D (Updated (tables db) (has_id t.id) (mark_running instance_id)) Claims
        (Faulted (tables db)) Undone (D.update_tasks (has_id t.id) (mark_running instance_id))
        (λ _. pure (mark_running instance_id (claim_columns t))) db
        (D.update_tasks_law (has_id t.id) (mark_running instance_id) db)
        (λ n u. record {
          row = t;
          stored = stored;
          claimable = is_claimable-MayClaim L client_id t p l;
          best =
              All_mono _ _ T.tasks
                (λ v h m. precedes-NotAfter t v (h (MayClaim-is_claimable L client_id v m))) best;
          returned = refl;
          written = rw same at u.rows;
        })
        (Faulted-Undone (tables db) _)

  body-Dequeued :
      (start : Db)
      → tables start ≡ T
      → D.locked start ≡ L
      → Ends D Claims Undone
          ((D.claim_task (is_claimable client_id) claim_order >>= claim_row D instance_id) start)
  body-Dequeued start t l =
      bind-Ends D (Claimed T L (is_claimable client_id) claim_order) Claims (Faulted T) Undone
        (D.claim_task (is_claimable client_id) claim_order) (claim_row D instance_id) start
        (rw (t, l) at (D.claim_task_law (is_claimable client_id) claim_order start))
        (λ o. claim_row-Dequeued _ o) (Faulted-Undone T _)

pub dequeue_task_for_client-Dequeued :
    (D : Database) (client_id instance_id : String) (db : D.Db)
    → Ends D
        (Dequeued (D.tables db) (D.locked db) client_id instance_id)
        (NotDequeued (D.tables db) (D.locked db) client_id)
        (dequeue_task_for_client D client_id instance_id db)
unfolding dequeue_task_for_client
dequeue_task_for_client-Dequeued D client_id instance_id db =
    transaction-Ends D (Dequeued (D.tables db) (D.locked db) client_id instance_id)
      (NotDequeued (D.tables db) (D.locked db) client_id) _ db
      (body-Dequeued D client_id instance_id (D.tables db) (D.locked db)) (λ f. refl)
