-- ===== src/Analytics/Throughput.antt =====
-- GetThroughput of backend/services/analytics_service.go. The text of a time of day is a parameter.
pub mod Buckets
use task_execution_engine.Prelude.{
  ℕ, zero, suc, ◌+◌, ◌-◌, ◌*◌, ◌/◌, ◌==◌, ◌≡◌, Bool, true, false, String, Option, none, some, List,
  [], ◌∷◌, if◌then◌else◌,
}
use task_execution_engine.Models.{Task}
use task_execution_engine.Database.{Database}
use task_execution_engine.Database.Outcome.{Result, ok, err}
use task_execution_engine.Database.Program.{Program, ◌>>=◌, pure}
use task_execution_engine.Analytics.{Floats, Reports, BucketRow, is_recent, or_nought}

abbrev pub bucket_seconds : ℕ
bucket_seconds = 10

abbrev pub bucket_count : ℕ
bucket_count = 30

pub record ThroughputPoint (F : Type 0) : Type 0 where
  pub time : String
  pub completed : ℕ
  pub avg_execution_ms : F
  pub avg_queue_wait_ms : F

-- byBucket[b]: the last row of the bucket, if there is one.
unfoldable pub by_bucket : {F : Type 0} → List (BucketRow F) → ℕ → Option (BucketRow F)
by_bucket [] b = none
by_bucket (r ∷ rows) b = elim (by_bucket rows b) [
  | some later ↦ some later
  | none ↦ if r.bucket == b then some r else none
]

unfoldable pub now_bucket : ℕ → ℕ
now_bucket unix = unix / bucket_seconds * bucket_seconds

module _ (F : Floats) (time_text : ℕ → String) where
  open F use {Float}

  unfoldable pub point_of : ℕ → Option (BucketRow Float) → ThroughputPoint Float
  unfolding or_nought
  point_of b none = record {
    time = time_text b;
    completed = 0;
    avg_execution_ms = F.nought;
    avg_queue_wait_ms = F.nought;
  }
  point_of b (some r) = record {
    time = time_text b;
    completed = r.completed;
    avg_execution_ms = or_nought F r.exec;
    avg_queue_wait_ms = or_nought F r.wait;
  }

  -- `for i := bucketCount - 1; i >= 0; i--`, from n rounds before the end.
  unfoldable pub points_from : ℕ → ℕ → List (BucketRow Float) → List (ThroughputPoint Float)
  unfolding point_of
  points_from zero last rows = []
  points_from (suc i) last rows =
      let b = last - i * bucket_seconds in point_of b (by_bucket rows b) ∷ points_from i last rows

module _ (D : Database) (F : Floats) (R : Reports D F) (time_text : ℕ → String) where
  -- `now` is MySQL's NOW(), `unix` the process' clock in seconds.
  unfoldable pub get_throughput : Bool → String → ℕ → ℕ → Program D (List (ThroughputPoint F.Float))
  unfolding is_recent points_from now_bucket
  get_throughput all_clients client_id now unix = do
    rows ← R.bucket_rows (is_recent all_clients client_id now)
    pure (points_from F time_text bucket_count (now_bucket unix) rows)
