-- ===== src/Watchdog/Loop.antt =====
-- The loop of a sweep over the stale tasks (backend/watchdog/watchdog.go).
use task_execution_engine.Prelude.{
  ℕ, ◌+◌, ◌==◌, ◌≤◌, ◌<◌, ◌≡◌, ◌≢◌, ◌⊎◌, inl, inr, refl, ◌∙◌, Bool, true, false, String, Option,
  none, some, List, [], ◌∷◌, arith, any, Bool-cases, Memᴰ,
}
use task_execution_engine.Models.{Task, Tables, pending, failed}
use task_execution_engine.Database.{Database}
use task_execution_engine.Database.Outcome.{
  Result, ok, err, Post, Faulted, fault, no_task, not_cancellable, record_not_found,
}
use task_execution_engine.Database.Rows.{find}
use task_execution_engine.TaskService.{fail_task}
use task_execution_engine.TaskService.Fail.{Failed, fail_task-Failed}
use task_execution_engine.Watchdog.{timeout_reason, recover}

-- The row that FailTask leaves of a task.
abbrev pub IsRescued : Task → Option Task → Type 0
IsRescued t o =
    (r : Task) × (o ≡ some r)
    × (((t.retry_count < t.max_retries)
          × (r.status ≡ pending)
          × (r.retry_count ≡ t.retry_count + 1)
          × (r.started_at ≡ none))
        ⊎ ((t.max_retries ≤ t.retry_count) × (r.status ≡ failed)))

module _ (D : Database) (clock : ℕ → ℕ) (done : ℕ → Bool) (timeout_text : String) where
  abbrev pub row : ℕ → D.Db → Option Task
  row i db = find i (D.tables db).tasks

  -- The row of another id is left alone.
  fail_other :
      (t : Task) (T T' : Tables) (now : ℕ) (reason : String) (r : Result D.Fault (Unit {0})) (i : ℕ)
      → Post (λ _. Failed T now t reason) (Faulted T) r T'
      → t.id ≢ i
      → find i T'.tasks ≡ find i T.tasks
  fail_other t T T' now reason (ok _) i (inl x) ne = ground (arith, x.row i, ne)
  fail_other t T T' now reason (ok _) i (inr x) ne = ground (arith, x.row i, ne)
  fail_other t T T' now reason (err (fault f)) i h ne = rw h refl
  fail_other t T T' now reason (err no_task) i h ne = absurd h
  fail_other t T T' now reason (err not_cancellable) i h ne = absurd h
  fail_other t T T' now reason (err record_not_found) i h ne = absurd h

  -- The row of its own id is rescued, if there is one.
  fail_own :
      (t u : Task) (T T' : Tables) (now : ℕ) (reason : String) (r : Result D.Fault (Unit {0}))
      → (D.Fault → ⊥)
      → Post (λ _. Failed T now t reason) (Faulted T) r T'
      → find t.id T.tasks ≡ some u
      → IsRescued t (find t.id T'.tasks)
  fail_own t u T T' now reason (ok _) sound (inl x) e = (
    record u {
      status = pending;
      retry_count = t.retry_count + 1;
      error_message = some reason;
      started_at = none;
      completed_at = none;
    },
    ground (arith, x.row t.id, e),
    inl (x.allowed, refl, refl, refl),
  )
  fail_own t u T T' now reason (ok _) sound (inr x) e = (
    record u { status = failed; error_message = some reason; completed_at = some now },
    ground (arith, x.row t.id, e),
    inr (x.exhausted, refl),
  )
  fail_own t u T T' now reason (err (fault f)) sound h e = absurd (sound f)
  fail_own t u T T' now reason (err no_task) sound h e = absurd h
  fail_own t u T T' now reason (err not_cancellable) sound h e = absurd h
  fail_own t u T T' now reason (err record_not_found) sound h e = absurd h

  fail_at : ℕ → Task → D.Db → D.Db
  fail_at n t db = (fail_task D (clock n) t (timeout_reason timeout_text) db).0

  pub recover-others :
      (n : ℕ) (ts : List Task) (db : D.Db) (i : ℕ)
      → any (λ v. v.id == i) ts ≡ false
      → row i (recover D clock done timeout_text n ts db) ≡ row i db
  unfolding recover
  recover-others n [] db i h = refl
  recover-others n (t ∷ ts) db i h =
      let reason = timeout_reason timeout_text in
      let (db', r) = fail_task D (clock n) t reason db in
      elim (Bool-cases (done n)) [
        | inl stop ↦ rw stop refl
        | inr on ↦ rw on (
            recover-others (n + 1) ts db' i (ground arith)
            ∙ fail_other t (D.tables db) (D.tables db') (clock n) reason r i
                (fail_task-Failed D (clock n) t reason db) (ground arith))
      ]

  pub recover-rescues :
      (n : ℕ) (ts : List Task) (db : D.Db) (t : Task)
      → (D.Fault → ⊥)
      → ((k : ℕ) → done k ≡ false)
      → ((v : Task) → Memᴰ v ts → v.id ≡ t.id → v ≡ t)
      → IsRescued t (row t.id db) ⊎ ((row t.id db ≡ some t) × (any (λ v. v.id == t.id) ts ≡ true))
      → IsRescued t (row t.id (recover D clock done timeout_text n ts db))
  unfolding recover
  recover-rescues n [] db t sound on one (inl r) = r
  recover-rescues n [] db t sound on one (inr (e, h)) = absurd (never h)
    where
      never : false ≡ true → ⊥
      never h = cc
  recover-rescues n (v ∷ ts) db t sound on one h =
      let reason = timeout_reason timeout_text in
      let (db', r) = fail_task D (clock n) v reason db in
      let post = fail_task-Failed D (clock n) v reason db in
      rw (on n) (
        recover-rescues (n + 1) ts db' t sound on (λ u m. one u (Memᴰ.tail m))
          (next (D.tables db) (D.tables db') (clock n) reason r post (there h)))
    where
      there :
          IsRescued t (row t.id db)
            ⊎ ((row t.id db ≡ some t) × (any (λ v. v.id == t.id) (v ∷ ts) ≡ true))
          → (u : Task) × (row t.id db ≡ some u)
            × (IsRescued t (row t.id db)
                ⊎ ((row t.id db ≡ some t) × (any (λ v. v.id == t.id) (v ∷ ts) ≡ true)))
      there (inl x) = (x.0, x.1, inl x)
      there (inr x) = (t, x.0, inr x)

      next :
          (T T' : Tables) (now : ℕ) (reason : String) (r : Result D.Fault (Unit {0}))
          → Post (λ _. Failed T now v reason) (Faulted T) r T'
          → (u : Task) × (find t.id T.tasks ≡ some u)
            × (IsRescued t (find t.id T.tasks)
                ⊎ ((find t.id T.tasks ≡ some t) × (any (λ v. v.id == t.id) (v ∷ ts) ≡ true)))
          → IsRescued t (find t.id T'.tasks)
            ⊎ ((find t.id T'.tasks ≡ some t) × (any (λ v. v.id == t.id) ts ≡ true))
      next T T' now reason r post (u, e, how) = elim (Bool-cases (v.id == t.id)) [
        | inl own ↦
            let same : v ≡ t = one v (Memᴰ.head refl) (ground arith) in
            inl (fail_own t u T T' now reason r sound (rw same at post) e)
        | inr other ↦
            let kept : find t.id T'.tasks ≡ find t.id T.tasks =
              fail_other v T T' now reason r t.id post (ground arith) in
            elim how [
              | inl x ↦ inl (rw kept x)
              | inr (f, m) ↦ inr (kept ∙ f, ground (arith, m, other))
            ]
      ]
