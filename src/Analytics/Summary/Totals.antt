-- ===== src/Analytics/Summary/Totals.antt =====
-- What the numbers of GetSummary count.
use task_execution_engine.Prelude.{
  ℕ, ◌+◌, ◌^◌, ◌<◌, ◌==◌, ==_iff, ◌≡◌, refl, sym, ap, subst, ◌∙◌, inl, inr, Bool, ◌&&◌, String,
  Option, none, some, List, [], ◌∷◌, if◌then◌else◌, arith, All, All-mem, All_mono, count, any,
  str_eq, str_eq_iff, Bool-cases,
}
use task_execution_engine.Prelude.Maps.{get, put, get-put}
use task_execution_engine.Decimal.{print}
use task_execution_engine.Decimal.RoundTrip.{print-injective}
use task_execution_engine.Models.{
  Task, Tables, Status, status_name, status_eq, pending, running, completed, failed, cancelled,
}
use task_execution_engine.Database.{Database}
use task_execution_engine.Database.Outcome.{
  Result, ok, err, Post, Faulted, fault, no_task, not_cancellable, record_not_found,
}
use task_execution_engine.Database.Program.{Program, Ends, ◌>>=◌, pure, reads-Ends, Ends-mono}
use task_execution_engine.Analytics.{Floats, Reports, in_scope, is_present, has_status, or_nought}
use task_execution_engine.Analytics.Rows.{
  is_shown_to, is_done_since, count_ext, since_iff, IsRate, failure_rate-IsRate,
}
use task_execution_engine.Analytics.Groups.{
  Grouped, keys_of, sum_counts, sum-Grouped, Grouped-absent,
}
use task_execution_engine.Analytics.Summary.{
  Summary, add_statuses, add_priorities, has_run, has_started, done_last_hour, scanned, avg_ms,
  summarise, get_summary,
}

add_statuses-total :
    (rows : List (String × ℕ)) (n : ℕ) (m : List (String × ℕ))
    → (add_statuses rows n m).0 ≡ n + sum_counts rows
unfolding add_statuses sum_counts
add_statuses-total [] n m = omega arith
add_statuses-total ((s, k) ∷ rows) n m = omega (arith, add_statuses-total rows (n + k) (put s k m))

-- What a map holds after the loop over the groups: the count of the key, or what it held before.
get-add_statuses :
    (f : String → ℕ) (rows : List (String × ℕ)) (n : ℕ) (m : List (String × ℕ)) (s : String)
    → All (λ r. r.1 ≡ f r.0) rows
    → get s (add_statuses rows n m).1 ≡ (if any (str_eq s) (keys_of rows) then f s else get s m)
unfolding add_statuses
get-add_statuses f [] n m s h = refl
get-add_statuses f ((k, c) ∷ rows) n m s h = ground (
  arith,
  h.0,
  get-add_statuses f rows (n + c) (put k c m) s h.1,
  get-put k s c m,
  str_eq_iff k s,
  str_eq_iff s k,
)

name_eq : (s u : Status) → str_eq (status_name s) (status_name u) ≡ status_eq s u
unfolding status_name str_eq
name_eq pending pending = refl
name_eq pending running = refl
name_eq pending completed = refl
name_eq pending failed = refl
name_eq pending cancelled = refl
name_eq running pending = refl
name_eq running running = refl
name_eq running completed = refl
name_eq running failed = refl
name_eq running cancelled = refl
name_eq completed pending = refl
name_eq completed running = refl
name_eq completed completed = refl
name_eq completed failed = refl
name_eq completed cancelled = refl
name_eq failed pending = refl
name_eq failed running = refl
name_eq failed completed = refl
name_eq failed failed = refl
name_eq failed cancelled = refl
name_eq cancelled pending = refl
name_eq cancelled running = refl
name_eq cancelled completed = refl
name_eq cancelled failed = refl
name_eq cancelled cancelled = refl

get-add_priorities :
    (f : ℕ → ℕ) (rows : List (ℕ × ℕ)) (m : List (String × ℕ)) (n : ℕ)
    → n < 2 ^ 64
    → All (λ r. r.0 < 2 ^ 64) rows
    → All (λ r. r.1 ≡ f r.0) rows
    → get (print n) (add_priorities rows m)
      ≡ (if any (λ k. n == k) (keys_of rows) then f n else get (print n) m)
unfolding add_priorities
get-add_priorities f [] m n small bounds h = refl
get-add_priorities f ((k, c) ∷ rows) m n small bounds h = ground (
  arith,
  h.0,
  get-add_priorities f rows (put (print k) c m) n small bounds.1 h.1,
  get-put (print k) (print n) c m,
  str_eq_iff (print k) (print n),
  print-injective k n bounds.0 small,
)

module _ (own : Task → Bool) (ts : List Task) where
  abbrev pub number_with : Status → ℕ
  number_with u = count (λ t. own t && status_eq t.status u) ts

-- What the numbers are about: the rows that the report shows, whatever the order of the groups.
pub record Summed (F : Floats) (T : Tables) (own : Task → Bool) (now : ℕ) (s : Summary F.Float)
    : Type 0 where
  pub total : s.total_tasks ≡ count own T.tasks
  pub statuses : (u : Status) → get (status_name u) s.status_counts ≡ number_with own T.tasks u
  pub priorities :
      (n : ℕ)
      → n < 2 ^ 64
      → get (print n) s.priority_counts ≡ count (λ t. own t && t.priority == n) T.tasks
  pub rate :
      IsRate F
        (number_with own T.tasks completed)
        (number_with own T.tasks failed)
        s.rate_of_failure
  pub no_execution :
      count
          (λ t.
            own t
            && status_eq t.status completed
            && is_present t.started_at
            && is_present t.completed_at)
          T.tasks
        ≡ 0
      → s.avg_execution_ms ≡ F.nought
  pub no_wait :
      count (λ t. own t && is_present t.started_at) T.tasks ≡ 0 → s.avg_queue_wait_ms ≡ F.nought
  pub last_hour : s.completed_last_hour ≡ count (λ t. own t && is_done_since now 3600000 t) T.tasks

status_count :
    (p : Task → Bool) (ts : List Task) (rows : List (String × ℕ)) (u : Status)
    → Grouped str_eq (λ t. status_name t.status) p ts rows
    → get (status_name u) (add_statuses rows 0 []).1 ≡ count (λ t. p t && has_status u t) ts
unfolding get
status_count p ts rows u g =
    let name = status_name u in
    let f = λ (k : String). count (λ t. p t && str_eq (status_name t.status) k) ts in
    get-add_statuses f rows 0 [] name g.counted
    ∙ elim (Bool-cases (any (str_eq name) (keys_of rows))) [
      | inl here ↦ rw here refl
      | inr absent ↦ rw absent (
          sym (
            Grouped-absent str_eq str_eq_iff (λ t. status_name t.status) p ts ts rows name g absent
              g.complete))
    ]
    ∙ count_ext _ _ ts (λ t. ap (λ b. p t && b) (name_eq t.status u))

priority_count :
    (p : Task → Bool) (ts : List Task) (rows : List (ℕ × ℕ)) (n : ℕ)
    → All (λ t. t.priority < 2 ^ 64) ts
    → n < 2 ^ 64
    → Grouped ◌==◌ (λ t. t.priority) p ts rows
    → get (print n) (add_priorities rows []) ≡ count (λ t. p t && t.priority == n) ts
unfolding get
priority_count p ts rows n small fits g =
    let f = λ (k : ℕ). count (λ t. p t && t.priority == k) ts in
    get-add_priorities f rows [] n fits bounds g.counted
    ∙ elim (Bool-cases (any (λ k. n == k) (keys_of rows))) [
      | inl here ↦ rw here refl
      | inr absent ↦
          rw absent
            (sym (Grouped-absent ◌==◌ ==_iff (λ t. t.priority) p ts ts rows n g absent g.complete))
    ]
  where
    bounds : All (λ r. r.0 < 2 ^ 64) rows
    bounds =
        All_mono _ _ rows
          (λ r h. subst (λ k. k < 2 ^ 64) h.3 (All-mem (λ t. t.priority < 2 ^ 64) ts small h.1))
          g.inhabited

module _ (D : Database) (F : Floats) (R : Reports D F) where
  scanned-null :
      (T : Tables) (p : Task → Bool) (r : Result D.Fault (Option F.Float)) (T' : Tables)
      → Post (λ a S. (S ≡ T) × (count p T.tasks ≡ 0 → a ≡ none)) (Faulted T) r T'
      → (T' ≡ T) × (count p T.tasks ≡ 0 → scanned D F R r ≡ F.nought)
  unfolding scanned or_nought
  scanned-null T p (ok a) T' (same, h) = (same, λ e. rw (h e) refl)
  scanned-null T p (err (fault f)) T' h = (h, λ e. refl)
  scanned-null T p (err no_task) T' h = absurd h
  scanned-null T p (err not_cancellable) T' h = absurd h
  scanned-null T p (err record_not_found) T' h = absurd h

  avg_ms-reads :
      (all_clients : Bool) (client_id : String) (cond : Task → Bool) (from to : Task → Option ℕ)
      (db : D.Db)
      → Ends D
          (λ x T'.
            (T' ≡ D.tables db)
            × (count (λ t. in_scope all_clients client_id t && cond t) (D.tables db).tasks ≡ 0
                → x ≡ F.nought))
          (Faulted (D.tables db))
          (avg_ms D F R all_clients client_id cond from to db)
  unfolding avg_ms
  avg_ms-reads all_clients client_id cond from to db =
      let q = λ (t : Task). in_scope all_clients client_id t && cond t in
      let (db', r) = R.average q from to db in
      scanned-null (D.tables db) q r (D.tables db') (R.average_law q from to db)

  module _ (all_clients : Bool) (client_id : String) (now : ℕ) where
    abbrev scope : Task → Bool
    scope = in_scope all_clients client_id

    -- The queries of GetSummary from each on.
    abbrev from_last_hour :
        List (String × ℕ) → List (ℕ × ℕ) → F.Float → F.Float → Program D (Summary F.Float)
    from_last_hour st pr ex wt = R.count_rows (λ t. scope t && done_last_hour now t) >>= λ n.
        pure (summarise D F R st pr ex wt n)

    abbrev from_wait : List (String × ℕ) → List (ℕ × ℕ) → F.Float → Program D (Summary F.Float)
    from_wait st pr ex =
        avg_ms D F R all_clients client_id has_started (λ t. some t.created_at) (λ t. t.started_at)
        >>= from_last_hour st pr ex

    abbrev from_execution : List (String × ℕ) → List (ℕ × ℕ) → Program D (Summary F.Float)
    from_execution st pr =
        avg_ms D F R all_clients client_id has_run (λ t. t.started_at) (λ t. t.completed_at)
        >>= from_wait st pr

    abbrev from_priorities : List (String × ℕ) → Program D (Summary F.Float)
    from_priorities st = R.count_priorities scope >>= from_execution st

    summarise-Summed :
        (T : Tables) (st : List (String × ℕ)) (pr : List (ℕ × ℕ)) (ex wt : F.Float) (n : ℕ)
        → All (λ t. t.priority < 2 ^ 64) T.tasks
        → Grouped str_eq (λ t. status_name t.status) scope T.tasks st
        → Grouped ◌==◌ (λ t. t.priority) scope T.tasks pr
        → (count (λ t. scope t && has_run t) T.tasks ≡ 0 → ex ≡ F.nought)
        → (count (λ t. scope t && has_started t) T.tasks ≡ 0 → wt ≡ F.nought)
        → n ≡ count (λ t. scope t && done_last_hour now t) T.tasks
        → Summed F T (is_shown_to all_clients client_id) now (summarise D F R st pr ex wt n)
    unfolding summarise status_name in_scope has_run has_started done_last_hour
    summarise-Summed T st pr ex wt n small gs gp he hw hn = record {
      total =
          add_statuses-total st 0 []
          ∙ omega (
            arith,
            sum-Grouped str_eq str_eq_iff (λ t. status_name t.status) scope T.tasks st gs,
          );
      statuses = λ u. status_count scope T.tasks st u gs;
      priorities = λ k fits. priority_count scope T.tasks pr k small fits gp;
      rate =
          rw (status_count scope T.tasks st completed gs, status_count scope T.tasks st failed gs)
            (failure_rate-IsRate F _ _);
      no_execution = λ h. he (count_ext _ _ T.tasks (λ t. ground arith) ∙ h);
      no_wait = hw;
      last_hour = hn ∙ count_ext _ _ T.tasks (λ t. rw (since_iff now 3600000 t.completed_at) refl);
    }

-- GetSummary only reads, and its result is as `Summed` says if the priorities fit.
pub get_summary-reads :
    (D : Database) (F : Floats) (R : Reports D F) (all_clients : Bool) (client_id : String)
    (now : ℕ) (db : D.Db)
    → Ends D
        (λ s T'.
          (T' ≡ D.tables db)
          × (All (λ t. t.priority < 2 ^ 64) (D.tables db).tasks
              → Summed F (D.tables db) (is_shown_to all_clients client_id) now s))
        (Faulted (D.tables db))
        (get_summary D F R all_clients client_id now db)
unfolding get_summary
get_summary-reads D F R all_clients client_id now db =
    let T = D.tables db in
    let p = in_scope all_clients client_id in
    let own = is_shown_to all_clients client_id in
    let Goal : Summary F.Float → Tables → Type 0 =
      λ s T'. (T' ≡ T) × (All (λ t. t.priority < 2 ^ 64) T.tasks → Summed F T own now s) in
    reads-Ends D (λ S rows. Grouped str_eq (λ t. status_name t.status) p S.tasks rows) Goal T
      (R.count_statuses p) (from_priorities D F R all_clients client_id now) db refl
      (R.count_statuses_law p db)
      (λ st db1 e1 gs.
        reads-Ends D (λ S rows. Grouped ◌==◌ (λ t. t.priority) p S.tasks rows) Goal T
          (R.count_priorities p) (from_execution D F R all_clients client_id now st) db1 e1
          (R.count_priorities_law p db1)
          (λ pr db2 e2 gp.
            reads-Ends D (λ S x. count (λ t. p t && has_run t) S.tasks ≡ 0 → x ≡ F.nought) Goal T
              (avg_ms D F R all_clients client_id has_run (λ t. t.started_at) (λ t. t.completed_at))
              (from_wait D F R all_clients client_id now st pr) db2 e2
              (avg_ms-reads D F R all_clients client_id has_run (λ t. t.started_at)
                (λ t. t.completed_at) db2)
              (λ ex db3 e3 he.
                reads-Ends D (λ S x. count (λ t. p t && has_started t) S.tasks ≡ 0 → x ≡ F.nought)
                  Goal T
                  (avg_ms D F R all_clients client_id has_started (λ t. some t.created_at)
                    (λ t. t.started_at))
                  (from_last_hour D F R all_clients client_id now st pr ex) db3 e3
                  (avg_ms-reads D F R all_clients client_id has_started (λ t. some t.created_at)
                    (λ t. t.started_at) db3)
                  (λ wt db4 e4 hw.
                    reads-Ends D (λ S n. n ≡ count (λ t. p t && done_last_hour now t) S.tasks) Goal
                      T (R.count_rows (λ t. p t && done_last_hour now t))
                      (λ n. pure (summarise D F R st pr ex wt n)) db4 e4
                      (R.count_rows_law (λ t. p t && done_last_hour now t) db4)
                      (λ n db5 e5 hn. (
                        e5,
                        λ small.
                            summarise-Summed D F R all_clients client_id now T st pr ex wt n small
                              gs gp he hw hn,
                      ))))))

-- GetSummary writes nothing, and its numbers are those of the client's rows, or of all rows if that
-- is asked for: all of them, those in each status and, if the priorities are below 2^64, of each
-- priority; the rate is the failed ones among the completed and the failed ones, or 0 without any;
-- last are the completed ones whose completion was at most an hour before NOW(). The average run is 0
-- if no completed row has both times, and the average wait is 0 if no row was started.
-- If the database fails, nothing is changed.
pub get_summary-Summed :
    (D : Database) (F : Floats) (R : Reports D F) (all_clients : Bool) (client_id : String)
    (now : ℕ) (db : D.Db)
    → All (λ t. t.priority < 2 ^ 64) (D.tables db).tasks
    → Ends D
        (λ s T'.
          (T' ≡ D.tables db) × Summed F (D.tables db) (is_shown_to all_clients client_id) now s)
        (Faulted (D.tables db))
        (get_summary D F R all_clients client_id now db)
get_summary-Summed D F R all_clients client_id now db small =
    let T = D.tables db in
    let own = is_shown_to all_clients client_id in
    Ends-mono D (λ s T'. (T' ≡ T) × (All (λ t. t.priority < 2 ^ 64) T.tasks → Summed F T own now s))
      (λ s T'. (T' ≡ T) × Summed F T own now s) (Faulted T)
      (get_summary D F R all_clients client_id now db) (λ s T' h. (h.0, h.1 small))
      (get_summary-reads D F R all_clients client_id now db)
