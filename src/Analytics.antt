-- ===== src/Analytics.antt =====
-- backend/services/analytics_service.go: the read-only reports. Times are in milliseconds. A float64
-- and its operations are a parameter, as is the text of a time of day; an aggregate query of MySQL is
-- an interface below.
pub mod Groups
pub mod Rows
pub mod Summary
pub mod Throughput
pub mod Types
use task_execution_engine.Prelude.{
  ℕ, zero, suc, ◌+◌, ◌-◌, ◌*◌, ◌/◌, ltb, leb, ◌==◌, str_eq, ◌≡◌, Bool, true, false, ◌&&◌, ◌||◌,
  String, Option, none, some, List, [], ◌∷◌, Memᴰ, All, count, length, map, if◌then◌else◌,
}
use task_execution_engine.Prelude.Maps.{get, put}
use task_execution_engine.Decimal.{print}
use task_execution_engine.Models.{
  Task, Tables, Status, pending, running, completed, failed, cancelled, status_eq, status_name,
}
use task_execution_engine.Database.{Database}
use task_execution_engine.Database.Outcome.{Result, ok, err, Post, Faulted}
use task_execution_engine.Database.Program.{Program, ◌>>=◌, pure}
use task_execution_engine.Analytics.Groups.{Grouped, ByType}

-- What the code does with a float64.
pub record Floats : Type 1 where
  pub Float : Type 0
  pub nought : Float
  pub of_int : ℕ → Float
  pub divide : Float → Float → Float
  pub times : Float → Float → Float
  pub round : Float → Float

-- The WHERE clause of the scope: one client, or all of them.
unfoldable pub in_scope : Bool → String → Task → Bool
in_scope all_clients client_id t = all_clients || str_eq t.client_id client_id

abbrev pub has_status : Status → Task → Bool
has_status s t = status_eq t.status s

-- completed_at >= NOW() - INTERVAL …; NULL is not.
unfoldable pub is_since : ℕ → ℕ → Option ℕ → Bool
is_since now interval none = false
is_since now interval (some t) = leb now (t + interval)

abbrev pub is_present : Option ℕ → Bool
is_present none = false
is_present (some t) = true

-- The rows of the throughput query: status = 'completed' AND completed_at >= NOW() - 300 s.
unfoldable pub is_recent : Bool → String → ℕ → Task → Bool
unfolding in_scope is_since
is_recent all_clients client_id now t =
    in_scope all_clients client_id t && has_status completed t && is_since now 300000 t.completed_at

-- FLOOR(UNIX_TIMESTAMP(completed_at) / 10) * 10, in seconds.
unfoldable pub bucket_unix : Task → ℕ
bucket_unix t = elim t.completed_at [ none ↦ 0 | some c ↦ c / 10000 * 10 ]

-- A row of the throughput query, and one of the breakdown by type.
pub record BucketRow (F : Type 0) : Type 0 where
  pub bucket : ℕ
  pub completed : ℕ
  pub exec : Option F
  pub wait : Option F

pub record TypeRow (F : Type 0) : Type 0 where
  pub task_type : String
  pub total : ℕ
  pub completed : ℕ
  pub failed : ℕ
  pub pending : ℕ
  pub running : ℕ
  pub cancelled : ℕ
  pub avg_exec : Option F
  pub avg_wait : Option F

-- AVG(CASE WHEN from IS NOT NULL AND to IS NOT NULL THEN … END): the times that it is over.
unfoldable pub add_span : Option ℕ → Option ℕ → List (ℕ × ℕ) → List (ℕ × ℕ)
add_span (some a) (some b) rest = (a, b) ∷ rest
add_span (some a) none rest = rest
add_span none to rest = rest

unfoldable pub spans : (Task → Option ℕ) → (Task → Option ℕ) → List Task → List (ℕ × ℕ)
unfolding add_span
spans from to [] = []
spans from to (t ∷ ts) = add_span (from t) (to t) (spans from to ts)

-- CASE WHEN status = 'completed' THEN started_at END
unfoldable pub started_if_completed : Task → Option ℕ
started_if_completed t = if has_status completed t then t.started_at else none

-- The columns of the breakdown, over the rows of one type; `mean` is AVG, in milliseconds.
unfoldable pub type_row_of :
    {F : Type 0} → (List (ℕ × ℕ) → Option F) → String × List Task → TypeRow F
unfolding spans started_if_completed
type_row_of mean (task_type, ts) = record {
  task_type = task_type;
  total = length ts;
  completed = count (has_status completed) ts;
  failed = count (has_status failed) ts;
  pending = count (has_status pending) ts;
  running = count (has_status running) ts;
  cancelled = count (has_status cancelled) ts;
  avg_exec = mean (spans started_if_completed (λ t. t.completed_at) ts);
  avg_wait = mean (spans (λ t. some t.created_at) (λ t. t.started_at) ts);
}

-- The aggregate queries. They write nothing; AVG over no rows is NULL; the groups of GROUP BY are the
-- distinct keys of the rows that match, each with the number of its rows; `type_groups` is GROUP BY
-- type, its groups as they are before the columns are computed, in any order.
pub record Reports (D : Database) (F : Floats) : Type 1 where
  pub count_statuses : (Task → Bool) → D.Db → D.Db × Result D.Fault (List (String × ℕ))
  pub count_statuses_law :
      (p : Task → Bool) (db : D.Db)
      → let (db', r) = count_statuses p db in
        Post
          (λ rows T'.
            (T' ≡ D.tables db)
            × Grouped str_eq (λ t. status_name t.status) p (D.tables db).tasks rows)
          (Faulted (D.tables db))
          r
          (D.tables db')
  pub count_priorities : (Task → Bool) → D.Db → D.Db × Result D.Fault (List (ℕ × ℕ))
  pub count_priorities_law :
      (p : Task → Bool) (db : D.Db)
      → let (db', r) = count_priorities p db in
        Post
          (λ rows T'.
            (T' ≡ D.tables db) × Grouped ◌==◌ (λ t. t.priority) p (D.tables db).tasks rows)
          (Faulted (D.tables db))
          r
          (D.tables db')
  pub count_rows : (Task → Bool) → D.Db → D.Db × Result D.Fault ℕ
  pub count_rows_law :
      (p : Task → Bool) (db : D.Db)
      → let (db', r) = count_rows p db in
        Post
          (λ n T'. (T' ≡ D.tables db) × (n ≡ count p (D.tables db).tasks))
          (Faulted (D.tables db))
          r
          (D.tables db')
  pub average :
      (Task → Bool)
      → (Task → Option ℕ)
      → (Task → Option ℕ)
      → D.Db
      → D.Db × Result D.Fault (Option F.Float)
  pub average_law :
      (p : Task → Bool) (from to : Task → Option ℕ) (db : D.Db)
      → let (db', r) = average p from to db in
        Post
          (λ a T'. (T' ≡ D.tables db) × (count p (D.tables db).tasks ≡ 0 → a ≡ none))
          (Faulted (D.tables db))
          r
          (D.tables db')
  pub bucket_rows : (Task → Bool) → D.Db → D.Db × Result D.Fault (List (BucketRow F.Float))
  pub bucket_rows_law :
      (p : Task → Bool) (db : D.Db)
      → let (db', r) = bucket_rows p db in
        Post
          (λ rows T'.
            (T' ≡ D.tables db)
            × Grouped ◌==◌ bucket_unix p
                (D.tables db).tasks
                (map (λ r. (r.bucket, r.completed)) rows))
          (Faulted (D.tables db))
          r
          (D.tables db')
  pub mean : List (ℕ × ℕ) → Option F.Float
  pub mean_law : mean [] ≡ none
  pub type_groups : (Task → Bool) → D.Db → D.Db × Result D.Fault (List (String × List Task))
  pub type_groups_law :
      (p : Task → Bool) (db : D.Db)
      → let (db', r) = type_groups p db in
        Post
          (λ groups T'. (T' ≡ D.tables db) × ByType D.weight p (D.tables db).tasks groups)
          (Faulted (D.tables db))
          r
          (D.tables db')

module _ (F : Floats) where
  open F use {Float}

  -- failed / (completed + failed), or 0.
  unfoldable pub failure_rate : ℕ → ℕ → Float
  failure_rate done lost =
      if ltb 0 (done + lost) then F.divide (F.of_int lost) (F.of_int (done + lost)) else F.nought

  unfoldable pub round2 : Float → Float
  round2 x = F.divide (F.round (F.times x (F.of_int 100))) (F.of_int 100)

  -- A NullFloat64, or 0 for NULL.
  unfoldable pub or_nought : Option Float → Float
  unfolding round2
  or_nought none = F.nought
  or_nought (some x) = round2 x
