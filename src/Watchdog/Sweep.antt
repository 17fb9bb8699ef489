-- ===== src/Watchdog/Sweep.antt =====
-- What a sweep of backend/watchdog/watchdog.go does to each row.
use task_execution_engine.Prelude.{
  ℕ, ◌-◌, ◌==◌, ◌≡◌, inl, inr, refl, ap, ◌∙◌, subst, Bool, true, false, String, some, List, [], ◌∷◌,
  arith, any, Bool-cases, Memᴰ,
}
use mathlib.Core.Logic.{∥∥₁_elim, ◌↔◌}
use mathlib.Core.List.{Mem}
use text.Mathlib.TextEquality.{IsScalar-prop}
use task_execution_engine.Models.{Task, Tables}
use task_execution_engine.Database.{Database}
use task_execution_engine.Database.Outcome.{
  Result, ok, err, Post, Faulted, fault, no_task, not_cancellable, record_not_found,
}
use task_execution_engine.Database.Rows.{find, IsKeyed, mem-find}
use task_execution_engine.TaskService.{find_stale_running_tasks}
use task_execution_engine.TaskService.Recover.{IsStale, find_stale_running_tasks-IsStale}
use task_execution_engine.Watchdog.{Watchdog, recover_found, sweep}
use task_execution_engine.Watchdog.Loop.{IsRescued, row, recover-others, recover-rescues}

Task-set : IsSet Task
Task-set = hlevel (IsScalar-prop)

stale_once :
    (T : Tables) (v t : Task)
    → IsKeyed T.tasks
    → Memᴰ v T.tasks
    → Memᴰ t T.tasks
    → v.id ≡ t.id
    → v ≡ t
stale_once T v t keyed m n e =
    let a : find v.id T.tasks ≡ some v = mem-find T.tasks {t = v} keyed m in
    let b : find t.id T.tasks ≡ some t = mem-find T.tasks {t = t} keyed n in cc

any_of_mem : (ts : List Task) {t : Task} → Memᴰ t ts → any (λ v. v.id == t.id) ts ≡ true
any_of_mem [] m = elim m [ ]
any_of_mem (u ∷ ts) (Memᴰ.head e) = ground arith
any_of_mem (u ∷ ts) {t} (Memᴰ.tail m) = ground (arith, any_of_mem ts {t = t} m)

mem_of_any :
    (ts : List Task) (i : ℕ) → any (λ v. v.id == i) ts ≡ true → (u : Task) × Memᴰ u ts × (u.id ≡ i)
mem_of_any [] i h = absurd (never h)
  where
    never : false ≡ true → ⊥
    never h = cc
mem_of_any (u ∷ ts) i h = elim (Bool-cases (u.id == i)) [
  | inl e ↦ (u, Memᴰ.head refl, ground arith)
  | inr e ↦ let (v, m, q) = mem_of_any ts i (ground arith) in (v, Memᴰ.tail m, q)
]

module _ (D : Database) (clock : ℕ → ℕ) (done : ℕ → Bool) (timeout_text : String) where
  -- The list that the query returned, as the loop takes it.
  abbrev Found : ℕ → Tables → D.Db → Result D.Fault (List Task) → Type 0
  Found cutoff T db' r =
      Post (λ ts T'. (T' ≡ T) × ((t : Task) → Mem t ts ↔ (Mem t T.tasks × IsStale cutoff t)))
        (Faulted T) r (D.tables db')

  Found-others :
      (cutoff : ℕ) (T : Tables) (db' : D.Db) (r : Result D.Fault (List Task)) (t : Task)
      → Found cutoff T db' r
      → IsKeyed T.tasks
      → Memᴰ t T.tasks
      → ¬ IsStale cutoff t
      → row D clock done timeout_text t.id (recover_found D clock done timeout_text db' r) ≡ some t
  unfolding recover_found
  Found-others cutoff T db' (ok ts) t (same, iff) keyed m fresh =
      elim (Bool-cases (any (λ v. v.id == t.id) ts)) [
        | inl some_one ↦
            let (v, n, e) = mem_of_any ts t.id some_one in
            let (stored, stale) = (iff v).0 ∣ n ∣₁ in
            let same_task : v ≡ t =
              ∥∥₁_elim stored (Task-set v t) (λ k. stale_once T v t keyed k m e) in
            absurd (fresh (subst (IsStale cutoff) same_task stale))
        | inr no_one ↦
            recover-others D clock done timeout_text 0 ts db' t.id no_one
            ∙ ap (λ (S : Tables). find t.id S.tasks) same
            ∙ mem-find T.tasks {t = t} keyed m
      ]
  Found-others cutoff T db' (err (fault f)) t h keyed m fresh =
      ap (λ (S : Tables). find t.id S.tasks) h ∙ mem-find T.tasks {t = t} keyed m
  Found-others cutoff T db' (err no_task) t h keyed m fresh = absurd h
  Found-others cutoff T db' (err not_cancellable) t h keyed m fresh = absurd h
  Found-others cutoff T db' (err record_not_found) t h keyed m fresh = absurd h

  Found-rescues :
      (cutoff : ℕ) (T : Tables) (db' : D.Db) (r : Result D.Fault (List Task)) (t : Task)
      → Found cutoff T db' r
      → IsKeyed T.tasks
      → (D.Fault → ⊥)
      → ((k : ℕ) → done k ≡ false)
      → Memᴰ t T.tasks
      → IsStale cutoff t
      → IsRescued t
          (row D clock done timeout_text t.id (recover_found D clock done timeout_text db' r))
  unfolding recover_found
  Found-rescues cutoff T db' (ok ts) t (same, iff) keyed sound on m stale =
      recover-rescues D clock done timeout_text 0 ts db' t sound on
        (λ v n e. ∥∥₁_elim ((iff v).0 ∣ n ∣₁).0 (Task-set v t) (λ k. stale_once T v t keyed k m e))
        (inr (
          ap (λ (S : Tables). find t.id S.tasks) same ∙ mem-find T.tasks {t = t} keyed m,
          ∥∥₁_elim ((iff t).1 (∣ m ∣₁, stale)) (Bool-set _ _) (λ n. any_of_mem ts {t = t} n),
        ))
    where
      Bool-set : IsSet Bool
      Bool-set = hlevel
  Found-rescues cutoff T db' (err (fault f)) t h keyed sound on m stale = absurd (sound f)
  Found-rescues cutoff T db' (err no_task) t h keyed sound on m stale = absurd h
  Found-rescues cutoff T db' (err not_cancellable) t h keyed sound on m stale = absurd h
  Found-rescues cutoff T db' (err record_not_found) t h keyed sound on m stale = absurd h

-- A sweep over a table with distinct ids leaves every task that is not stale as it is.
pub sweep-others :
    (D : Database) (clock : ℕ → ℕ) (done : ℕ → Bool) (timeout_text : String) (w : Watchdog)
    (now : ℕ) (db : D.Db) (t : Task)
    → IsKeyed (D.tables db).tasks
    → Memᴰ t (D.tables db).tasks
    → ¬ IsStale (now - w.timeout) t
    → find t.id (D.tables (sweep D clock done timeout_text w now db)).tasks ≡ some t
unfolding sweep
sweep-others D clock done timeout_text w now db t keyed m fresh =
    let (db', r) = find_stale_running_tasks D now w.timeout db in
    Found-others D clock done timeout_text (now - w.timeout) (D.tables db) db' r t
      (find_stale_running_tasks-IsStale D now w.timeout db) keyed m fresh

-- A sweep over a table with distinct ids, by a database that does not fail and in a process that is
-- not shutting down, sends every stale task with retries left back to the queue, with one retry
-- more, and fails every other stale task.
pub sweep-IsRescued :
    (D : Database) (clock : ℕ → ℕ) (done : ℕ → Bool) (timeout_text : String) (w : Watchdog)
    (now : ℕ) (db : D.Db) (t : Task)
    → IsKeyed (D.tables db).tasks
    → (D.Fault → ⊥)
    → ((k : ℕ) → done k ≡ false)
    → Memᴰ t (D.tables db).tasks
    → IsStale (now - w.timeout) t
    → IsRescued t (find t.id (D.tables (sweep D clock done timeout_text w now db)).tasks)
unfolding sweep
sweep-IsRescued D clock done timeout_text w now db t keyed sound on m stale =
    let (db', r) = find_stale_running_tasks D now w.timeout db in
    Found-rescues D clock done timeout_text (now - w.timeout) (D.tables db) db' r t
      (find_stale_running_tasks-IsStale D now w.timeout db) keyed sound on m stale
