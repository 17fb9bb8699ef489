-- ===== src/TaskService/Recover.antt =====
-- RequeueOrphanedTasks and FindStaleRunningTasks of backend/services/task_service.go.
use task_execution_engine.Prelude.{
  ℕ, ◌-◌, ◌<◌, ◌≡◌, ◌↔◌, inl, inr, refl, ap, Bool, true, false, ◌&&◌, String, Option, none, some,
  List, [], ◌∷◌, ◌∙◌, Option-cases, arith, Bool-cases, All, count, opt_str_eq_iff, mem-filter,
}
use mathlib.Core.List.{Mem}
use mathlib.Core.List.Perm
use task_execution_engine.Models.{Task, Tables, pending, running, status_eq}
use task_execution_engine.Database.{Database}
use task_execution_engine.Database.Outcome.{Faulted, Post-mono}
use task_execution_engine.Database.Laws.{Updated, Selected}
use task_execution_engine.Database.Rows.{find, find-update_rows, update_rows, update_row}
use task_execution_engine.Database.Program.{Ends}
use task_execution_engine.TaskService.{
  is_orphan, requeue, is_stale, requeue_orphaned_tasks, find_stale_running_tasks,
}

-- A running task that the instance has claimed.
pub record IsOrphan (instance_id : String) (t : Task) : Type 0 where
  pub runs : t.status ≡ running
  pub here : t.processed_by ≡ some instance_id

is_orphan-IsOrphan : (s : String) (t : Task) → (is_orphan s t ≡ true) ↔ IsOrphan s t
unfolding is_orphan
is_orphan-IsOrphan s t = (
  λ h. ground (arith, opt_str_eq_iff t.processed_by s),
  λ h. ground (arith, opt_str_eq_iff t.processed_by s),
)

-- Every row: an orphan waits again, unowned and with its retries untouched; any other is as it was.
pub record Requeued (T : Tables) (instance_id : String) (n : ℕ) (T' : Tables) : Type 0 where
  pub orphans :
      (i : ℕ) (t : Task)
      → find i T.tasks ≡ some t
      → IsOrphan instance_id t
      → find i T'.tasks
        ≡ some (record t { status = pending; started_at = none; processed_by = none })
  pub others :
      (i : ℕ) (t : Task)
      → find i T.tasks ≡ some t
      → ¬ IsOrphan instance_id t
      → find i T'.tasks ≡ some t
  pub none_left : All (λ t. ¬ IsOrphan instance_id t) T'.tasks
  pub affected : n ≡ count (is_orphan instance_id) T.tasks
  pub dead : T'.dead_letters ≡ T.dead_letters

requeue_clears :
    (s : String) (ts : List Task) → All (λ t. ¬ IsOrphan s t) (update_rows (is_orphan s) requeue ts)
unfolding update_rows update_row requeue
requeue_clears s [] = tt
requeue_clears s (t ∷ ts) = (
  elim (Bool-cases (is_orphan s t)) [
    | inl e ↦ rw e (λ o. cc o.runs)
    | inr e ↦ rw e (λ o. ground (arith, e, (is_orphan-IsOrphan s t).1 o))
  ],
  requeue_clears s ts,
)

requeue_row :
    (s : String) (i : ℕ) (ts : List Task) (t : Task)
    → find i ts ≡ some t
    → find i (update_rows (is_orphan s) requeue ts) ≡ some (update_row (is_orphan s) requeue t)
unfolding requeue
requeue_row s i ts t e = rw (find-update_rows i (is_orphan s) requeue ts (λ u. refl), e)

Updated-Requeued :
    (T T' : Tables) (s : String) (n : ℕ) → Updated T (is_orphan s) requeue n T' → Requeued T s n T'
unfolding requeue
Updated-Requeued T T' s n u = record {
  orphans = λ i t e o. rw u.rows (
      requeue_row s i T.tasks t e ∙ unfold update_row requeue in rw ((is_orphan-IsOrphan s t).1 o));
  others = λ i t e o. rw u.rows (requeue_row s i T.tasks t e ∙ unchanged t o (is_orphan s t) refl);
  none_left = rw u.rows (requeue_clears s T.tasks);
  affected = u.affected (λ t h. ground (arith, (is_orphan-IsOrphan s t).0 h));
  dead = ap (λ (S : Tables). S.dead_letters) u.rows;
}
  where
    unchanged :
        (t : Task)
        → ¬ IsOrphan s t
        → (b : Bool) → is_orphan s t ≡ b
        → Path (Option Task) (some (update_row (is_orphan s) requeue t)) (some t)
    unchanged t o true e = absurd (o ((is_orphan-IsOrphan s t).0 e))
    unchanged t o false e = unfold update_row requeue in rw e

-- Startup recovery gives every task that this instance left running back to the queue, without a
-- retry more, and touches no other task.
pub requeue_orphaned_tasks-Requeued :
    (D : Database) (instance_id : String) (db : D.Db)
    → Ends D
        (Requeued (D.tables db) instance_id)
        (Faulted (D.tables db))
        (requeue_orphaned_tasks D instance_id db)
unfolding requeue_orphaned_tasks
requeue_orphaned_tasks-Requeued D s db =
    let T = D.tables db in
    let (db', r) = D.update_tasks (is_orphan s) requeue db in
    Post-mono (Updated T (is_orphan s) requeue) (Requeued T s) (Faulted T) (Faulted T) r
      (D.tables db') (λ n u. Updated-Requeued T (D.tables db') s n u) (λ e h. h)
      (D.update_tasks_law (is_orphan s) requeue db)

-- What the watchdog sees: a running task that a worker started before the bound.
pub record IsStale (cutoff : ℕ) (t : Task) : Type 0 where
  pub runs : t.status ≡ running
  pub started : ℕ
  pub started_at : t.started_at ≡ some started
  pub before : started < cutoff

pub is_stale-IsStale : (cutoff : ℕ) (t : Task) → (is_stale cutoff t ≡ true) ↔ IsStale cutoff t
unfolding is_stale
is_stale-IsStale cutoff t = (
  λ h. elim (Option-cases t.started_at) [
    | inl e ↦ absurd (never (status_eq t.status running) (rw e at h))
    | inr (x, e) ↦ record {
      runs = ground arith;
      started = x;
      started_at = e;
      before = ground (arith, rw e at h);
    }
  ],
  λ s. rw (s.runs, s.started_at) (ground (arith, s.before)),
)
  where
    never : (b : Bool) → (b && false) ≡ true → ⊥
    never b h = ground arith

-- The watchdog's query writes nothing and returns exactly the stale rows: a task that was claimed
-- and never started is not among them, however long it has been running.
pub find_stale_running_tasks-IsStale :
    (D : Database) (now timeout : ℕ) (db : D.Db)
    → Ends D
        (λ ts T'.
          (T' ≡ D.tables db)
          × ((t : Task) → Mem t ts ↔ (Mem t (D.tables db).tasks × IsStale (now - timeout) t)))
        (Faulted (D.tables db))
        (find_stale_running_tasks D now timeout db)
unfolding find_stale_running_tasks
find_stale_running_tasks-IsStale D now timeout db =
    let T = D.tables db in
    let p = is_stale (now - timeout) in
    let (db', r) = D.select_tasks p db in
    Post-mono (Selected T p)
      (λ ts T'. (T' ≡ T) × ((t : Task) → Mem t ts ↔ (Mem t T.tasks × IsStale (now - timeout) t)))
      (Faulted T) (Faulted T) r (D.tables db')
      (λ ts s. (
        s.same,
        λ t. (
          λ m.
              let f = (mem-filter p T.tasks).0 ((Perm.mem_iff s.found).0 m) in
              (f.0, (is_stale-IsStale (now - timeout) t).0 f.1),
          λ (m, q).
              (Perm.mem_iff s.found).1
                ((mem-filter p T.tasks).1 (m, (is_stale-IsStale (now - timeout) t).1 q)),
        ),
      ))
      (λ e h. h) (D.select_tasks_law p db)
