-- ===== src/Analytics/Throughput/Buckets.antt =====
-- The points of GetThroughput and the rows that they count.
use task_execution_engine.Prelude.{
  ℕ, zero, suc, ◌+◌, ◌-◌, ◌*◌, ◌/◌, ◌≤◌, ltb, leb, ◌==◌, ==_iff, ◌≡◌, refl, sym, ap, subst, ◌∙◌,
  ◌⊎◌, inl, inr, Bool, true, false, ◌&&◌, String, none, some, List, [], ◌∷◌, map, if◌then◌else◌,
  arith, All-mem, Memᴰ, count, any, Bool-cases, Option-cases,
}
use task_execution_engine.Models.{Task}
use task_execution_engine.Database.{Database}
use task_execution_engine.Database.Outcome.{Faulted}
use task_execution_engine.Database.Program.{Ends, pure, reads-Ends}
use task_execution_engine.Analytics.{
  Floats, Reports, BucketRow, bucket_unix, is_recent, is_since, in_scope,
}
use task_execution_engine.Analytics.Groups.{Grouped, keys_of, Grouped-absent}
use task_execution_engine.Analytics.Rows.{
  is_shown_to, is_done_in, is_done_by, count_ext, count-pos, count_none, count_split,
}
use task_execution_engine.Analytics.Throughput.{
  ThroughputPoint, bucket_count, by_bucket, now_bucket, point_of, points_from, get_throughput,
}

abbrev groups : {F : Type 0} → List (BucketRow F) → List (ℕ × ℕ)
groups rows = map (λ r. (r.bucket, r.completed)) rows

by_bucket-cases :
    {F : Type 0} (rows : List (BucketRow F)) (b : ℕ)
    → ((r : BucketRow F) × Memᴰ r rows × (r.bucket ≡ b) × (by_bucket rows b ≡ some r))
      ⊎ ((by_bucket rows b ≡ none) × (any (λ k. b == k) (keys_of (groups rows)) ≡ false))
unfolding by_bucket
by_bucket-cases [] b = inr (refl, refl)
by_bucket-cases (r ∷ rows) b = elim (by_bucket-cases rows b) [
  | inl (s, m, e, q) ↦ inl (s, Memᴰ.tail m, e, rw q refl)
  | inr (q, h) ↦ elim (Bool-cases (r.bucket == b)) [
    | inl e ↦ inl (r, Memᴰ.head refl, ground (arith, e), rw (q, e) refl)
    | inr e ↦ inr (rw (q, e) refl, ground (arith, h, e))
  ]
]

mem-groups :
    {F : Type 0} (rows : List (BucketRow F)) {r : BucketRow F}
    → Memᴰ r rows
    → Memᴰ (r.bucket, r.completed) (groups rows)
mem-groups [] m = elim m [ ]
mem-groups (s ∷ rows) (Memᴰ.head e) = Memᴰ.head (ap (λ r. (r.bucket, r.completed)) e)
mem-groups (s ∷ rows) (Memᴰ.tail m) = Memᴰ.tail (mem-groups rows m)

-- The tasks that the points count, together.
unfoldable pub all_completed : {F : Type 0} → List (ThroughputPoint F) → ℕ
all_completed [] = 0
all_completed (q ∷ qs) = q.completed + all_completed qs

module _ (F : Floats) (time_text : ℕ → String) (p : Task → Bool) (ts : List Task) where
  -- A point of the rows whose bucket `bucket_unix` computes.
  record IsBucketPoint (b : ℕ) (q : ThroughputPoint F.Float) : Type 0 where
    time : q.time ≡ time_text b
    completed : q.completed ≡ count (λ t. p t && bucket_unix t == b) ts
    no_execution : count (λ t. p t && bucket_unix t == b) ts ≡ 0 → q.avg_execution_ms ≡ F.nought
    no_wait : count (λ t. p t && bucket_unix t == b) ts ≡ 0 → q.avg_queue_wait_ms ≡ F.nought

  abbrev AreBucketPoints : ℕ → ℕ → List (ThroughputPoint F.Float) → Type 0
  AreBucketPoints zero last [] = Unit {0}
  AreBucketPoints (suc i) last (q ∷ qs) =
      IsBucketPoint (last - i * 10) q × AreBucketPoints i last qs
  AreBucketPoints zero last (q ∷ qs) = ⊥
  AreBucketPoints (suc i) last [] = ⊥

  point_of-IsBucketPoint :
      (rows : List (BucketRow F.Float)) (b : ℕ)
      → Grouped ◌==◌ bucket_unix p ts (groups rows)
      → IsBucketPoint b (point_of F time_text b (by_bucket rows b))
  unfolding point_of
  point_of-IsBucketPoint rows b g = elim (by_bucket-cases rows b) [
    | inl (r, m, e, q) ↦ rw q (record {
      time = refl;
      completed = counted r m e;
      no_execution = λ z. absurd (none_empty r m e z);
      no_wait = λ z. absurd (none_empty r m e z);
    })
    | inr (q, h) ↦ rw q (record {
      time = refl;
      completed =
          sym (Grouped-absent ◌==◌ ==_iff bucket_unix p ts ts (groups rows) b g h g.complete);
      no_execution = λ z. refl;
      no_wait = λ z. refl;
    })
  ]
    where
      counted :
          (r : BucketRow F.Float)
          → Memᴰ r rows
          → r.bucket ≡ b
          → r.completed ≡ count (λ t. p t && bucket_unix t == b) ts
      counted r m e =
          subst (λ k. r.completed ≡ count (λ t. p t && bucket_unix t == k) ts) e
            (All-mem (λ g. g.1 ≡ count (λ t. p t && bucket_unix t == g.0) ts) (groups rows)
              g.counted (mem-groups rows m))

      none_empty :
          (r : BucketRow F.Float)
          → Memᴰ r rows
          → r.bucket ≡ b
          → count (λ t. p t && bucket_unix t == b) ts ≡ 0
          → ⊥
      none_empty r m e z =
          let (t, stored, passes, own) =
            All-mem (λ g. (t : Task) × Memᴰ t ts × (p t ≡ true) × (bucket_unix t ≡ g.0))
              (groups rows) g.inhabited (mem-groups rows m) in
          omega (
            arith,
            z,
            count-pos (λ t. p t && bucket_unix t == b) ts stored
                (ground (arith, passes, (==_iff (bucket_unix t) b).1 (own ∙ e))),
          )

  points-AreBucketPoints :
      (rows : List (BucketRow F.Float)) (n last : ℕ)
      → Grouped ◌==◌ bucket_unix p ts (groups rows)
      → AreBucketPoints n last (points_from F time_text n last rows)
  unfolding points_from
  points-AreBucketPoints rows zero last g = tt
  points-AreBucketPoints rows (suc i) last g =
      (point_of-IsBucketPoint rows (last - i * 10) g, points-AreBucketPoints rows i last g)

  -- A row of one of the n buckets that end with the last one.
  abbrev pub is_shown : ℕ → ℕ → Task → Bool
  is_shown n last t = p t && leb (bucket_unix t) last && ltb last (bucket_unix t + n * 10)

  tens : (t : Task) → (k : ℕ) × (bucket_unix t ≡ k * 10)
  unfolding bucket_unix
  tens t = elim (Option-cases t.completed_at) [
    | inl e ↦ (0, rw e (omega arith))
    | inr (c, e) ↦ (c / 10000, rw e refl)
  ]

  completed-AreBucketPoints :
      (n k : ℕ) (qs : List (ThroughputPoint F.Float))
      → n ≤ suc k
      → AreBucketPoints n (k * 10) qs
      → all_completed qs ≡ count (is_shown n (k * 10)) ts
  unfolding all_completed
  completed-AreBucketPoints zero k [] h a =
      sym (count_none (is_shown zero (k * 10)) ts (λ t. ground arith))
  completed-AreBucketPoints zero k (q ∷ qs) h a = absurd a
  completed-AreBucketPoints (suc i) k [] h a = absurd a
  completed-AreBucketPoints (suc i) k (q ∷ qs) h a =
      let split =
        count_split (is_shown (suc i) (k * 10)) (λ t. p t && bucket_unix t == k * 10 - i * 10)
          (is_shown i (k * 10)) ts (λ t. one t (tens t).0 (tens t).1) in
      omega (arith, a.0.completed, completed-AreBucketPoints i k qs (omega arith) a.1, split)
    where
      one :
          (t : Task) (j : ℕ)
          → bucket_unix t ≡ j * 10
          → (if is_shown (suc i) (k * 10) t then 1 else 0)
            ≡ (if p t && bucket_unix t == k * 10 - i * 10 then 1 else 0)
              + (if is_shown i (k * 10) t then 1 else 0)
      one t j e = rw e (ground arith)

-- The points of the rows that `own` tells, at the clock's time `unix` in seconds and NOW() `now`.
module _ (F : Floats) (time_text : ℕ → String) (own : Task → Bool) (now : ℕ) (ts : List Task) where
  -- One point: the text of its time, and the rows completed in the ten seconds from b on, or zeros if
  -- there are none.
  pub record IsPoint (b : ℕ) (q : ThroughputPoint F.Float) : Type 0 where
    pub time : q.time ≡ time_text b
    pub completed : q.completed ≡ count (λ t. own t && is_done_in now b t) ts
    pub no_execution :
        count (λ t. own t && is_done_in now b t) ts ≡ 0 → q.avg_execution_ms ≡ F.nought
    pub no_wait : count (λ t. own t && is_done_in now b t) ts ≡ 0 → q.avg_queue_wait_ms ≡ F.nought

  -- A point for each of the n buckets that end with the last one, in order.
  abbrev pub ArePoints : ℕ → ℕ → List (ThroughputPoint F.Float) → Type 0
  ArePoints zero last [] = Unit {0}
  ArePoints (suc i) last (q ∷ qs) = IsPoint (last - i * 10) q × ArePoints i last qs
  ArePoints zero last (q ∷ qs) = ⊥
  ArePoints (suc i) last [] = ⊥

recent_in :
    (all_clients : Bool) (client_id : String) (now k : ℕ) (t : Task)
    → (is_recent all_clients client_id now t && bucket_unix t == k * 10)
      ≡ (is_shown_to all_clients client_id t && is_done_in now (k * 10) t)
unfolding is_recent in_scope is_since bucket_unix
recent_in all_clients client_id now k t = elim (Option-cases t.completed_at) [
  | inl e ↦ rw e (ground arith)
  | inr (c, e) ↦ rw e (ground arith)
]

recent_by :
    (all_clients : Bool) (client_id : String) (now k : ℕ) (t : Task)
    → (is_recent all_clients client_id now t
        && leb (bucket_unix t) (k * 10)
        && ltb (k * 10) (bucket_unix t + 300))
      ≡ (is_shown_to all_clients client_id t && is_done_by now (k * 10) t)
unfolding is_recent in_scope is_since bucket_unix
recent_by all_clients client_id now k t = elim (Option-cases t.completed_at) [
  | inl e ↦ rw e (ground arith)
  | inr (c, e) ↦ rw e (ground arith)
]

module _ (F : Floats) (time_text : ℕ → String) (all_clients : Bool) (client_id : String) (now : ℕ)
    (ts : List Task) where
  abbrev own : Task → Bool
  own = is_shown_to all_clients client_id

  abbrev recent : Task → Bool
  recent = is_recent all_clients client_id now

  in_bucket :
      (k b : ℕ)
      → b ≡ k * 10
      → count (λ t. recent t && bucket_unix t == b) ts ≡ count (λ t. own t && is_done_in now b t) ts
  in_bucket k b e = rw e (count_ext _ _ ts (recent_in all_clients client_id now k))

  written_out :
      (n k : ℕ) (qs : List (ThroughputPoint F.Float))
      → AreBucketPoints F time_text recent ts n (k * 10) qs
      → ArePoints F time_text own now ts n (k * 10) qs
  written_out zero k [] h = tt
  written_out zero k (q ∷ qs) h = absurd h
  written_out (suc i) k [] h = absurd h
  written_out (suc i) k (q ∷ qs) h =
      let b = k * 10 - i * 10 in
      let same = in_bucket (k - i) b (omega arith) in
      (
        record {
          time = h.0.time;
          completed = h.0.completed ∙ same;
          no_execution = λ z. h.0.no_execution (same ∙ z);
          no_wait = λ z. h.0.no_wait (same ∙ z);
        },
        written_out i k qs h.1,
      )

-- What GetThroughput answers with: the points of the last 30 buckets of ten seconds and, once the
-- clock is past 290 s, what they count together.
pub record Throughput (F : Floats) (time_text : ℕ → String) (own : Task → Bool) (now unix : ℕ)
    (ts : List Task) (qs : List (ThroughputPoint F.Float)) : Type 0 where
  pub points : ArePoints F time_text own now ts 30 (unix / 10 * 10) qs
  pub together :
      290 ≤ unix → all_completed qs ≡ count (λ t. own t && is_done_by now (unix / 10 * 10) t) ts

-- GetThroughput writes nothing, and answers with a point for each of the 30 spans of ten seconds that
-- end with the one of the clock, `unix / 10 * 10` and the nine seconds after it, in order: the number
-- of the client's rows, or of all rows if that is asked for, that were completed in the span and, by
-- NOW(), in the last 300 s, and averages of 0 where there are none. On a clock past 290 s the points
-- together count each such row that was completed in the 300 s of the spans once, and no other. If
-- the database fails, nothing is changed.
pub get_throughput-ArePoints :
    (D : Database) (F : Floats) (R : Reports D F) (time_text : ℕ → String) (all_clients : Bool)
    (client_id : String) (now unix : ℕ) (db : D.Db)
    → Ends D
        (λ qs T'.
          (T' ≡ D.tables db)
          × Throughput F time_text
              (is_shown_to all_clients client_id)
              now
              unix
              (D.tables db).tasks
              qs)
        (Faulted (D.tables db))
        (get_throughput D F R time_text all_clients client_id now unix db)
unfolding get_throughput now_bucket
get_throughput-ArePoints D F R time_text all_clients client_id now unix db =
    let T = D.tables db in
    let p = is_recent all_clients client_id now in
    let own = is_shown_to all_clients client_id in
    reads-Ends D (λ S rows. Grouped ◌==◌ bucket_unix p S.tasks (groups rows))
      (λ qs T'. (T' ≡ T) × Throughput F time_text own now unix T.tasks qs) T (R.bucket_rows p)
      (λ rows. pure (points_from F time_text bucket_count (now_bucket unix) rows)) db refl
      (R.bucket_rows_law p db)
      (λ rows db' same g.
        let qs = points_from F time_text 30 (unix / 10 * 10) rows in
        let found = points-AreBucketPoints F time_text p T.tasks rows 30 (unix / 10 * 10) g in
        (
          same,
          record {
            points =
                written_out F time_text all_clients client_id now T.tasks 30 (unix / 10) qs found;
            together = λ late.
                completed-AreBucketPoints F time_text p T.tasks 30 (unix / 10) qs
                  (omega (arith, late)) found
                ∙ count_ext _ _ T.tasks (recent_by all_clients client_id now (unix / 10));
          },
        ))
