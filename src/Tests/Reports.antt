-- ===== src/Tests/Reports.antt =====
-- Aggregate queries on the tables in memory, and reports on a queue.
use mathlib.Core.List.Perm
use mathlib.Core.List.{Perm as Permuted}
use task_execution_engine.Prelude.{
  ℕ, zero, suc, ◌*◌, ◌/◌, ◌≡◌, ◌↔◌, refl, ap, inl, inr, Bool, true, false, ◌&&◌, not, ◌==◌, ==_iff,
  str_eq, str_eq_iff, String, Option, none, some, List, [], ◌∷◌, Memᴰ, map, count, any, filter,
  filter_of_mem, All, All_mono, arith, if◌then◌else◌, Bool-cases,
}
use task_execution_engine.Decimal.{print}
use task_execution_engine.Models.{Task, completed, failed, status_name}
use task_execution_engine.Database.Outcome.{Faulted, ok}
use task_execution_engine.Database.Program.{Ends}
use task_execution_engine.Database.Memory.{Memory, memory}
use task_execution_engine.Analytics.{Floats, Reports, BucketRow, bucket_unix}
use task_execution_engine.Analytics.Groups.{Grouped, ByType, AllApart, keys_of}
use task_execution_engine.Analytics.Rows.{is_shown_to}
use task_execution_engine.Analytics.Summary.{get_summary}
use task_execution_engine.Analytics.Summary.Totals.{Summed, get_summary-Summed}
use task_execution_engine.Analytics.Throughput.{get_throughput}
use task_execution_engine.Analytics.Throughput.Buckets.{Throughput, get_throughput-ArePoints}
use task_execution_engine.Analytics.Types.{get_type_breakdown}
use task_execution_engine.Analytics.Types.Statuses.{AreStats, get_type_breakdown-IsStat}
use task_execution_engine.Tests.Queue.{low, high, other, queue}

module _ {K : Type 0} (same : K → K → Bool) (same_iff : (a b : K) → (same a b ≡ true) ↔ (a ≡ b))
    (key : Task → K) (p : Task → Bool) where
  -- The keys of the rows that match, each once.
  unfoldable pub distinct : List Task → List K
  distinct [] = []
  distinct (t ∷ ts) =
      let ks = distinct ts in if p t && not (any (same (key t)) ks) then key t ∷ ks else ks

  any-false : (x : K) (ks : List K) → any (same x) ks ≡ false → All (λ j. same x j ≡ false) ks
  any-false x [] h = tt
  any-false x (k ∷ ks) h = ground (arith, any-false x ks)

  distinct-AllApart : (ts : List Task) → AllApart same (distinct ts)
  unfolding distinct
  distinct-AllApart [] = tt
  distinct-AllApart (t ∷ ts) = elim (Bool-cases (p t && not (any (same (key t)) (distinct ts)))) [
    | inl e ↦ rw e (any-false (key t) (distinct ts) (ground arith), distinct-AllApart ts)
    | inr e ↦ rw e (distinct-AllApart ts)
  ]

  distinct_inhabited :
      (all ts : List Task)
      → ((t : Task) → Memᴰ t ts → Memᴰ t all)
      → All (λ k. (t : Task) × Memᴰ t all × (p t ≡ true) × (key t ≡ k)) (distinct ts)
  unfolding distinct
  distinct_inhabited all [] h = tt
  distinct_inhabited all (t ∷ ts) h =
      let rest = distinct_inhabited all ts (λ u m. h u (Memᴰ.tail m)) in
      elim (Bool-cases (p t && not (any (same (key t)) (distinct ts)))) [
        | inl e ↦ rw e ((t, h t (Memᴰ.head refl), ground arith, refl), rest)
        | inr e ↦ rw e rest
      ]

  distinct-grows :
      (t : Task) (ts : List Task) (k : K)
      → any (same k) (distinct ts) ≡ true
      → any (same k) (distinct (t ∷ ts)) ≡ true
  unfolding distinct
  distinct-grows t ts k h = ground arith

  distinct_has :
      (t : Task) (ts : List Task) → p t ≡ true → any (same (key t)) (distinct (t ∷ ts)) ≡ true
  unfolding distinct
  distinct_has t ts h = ground (arith, same_iff (key t) (key t))

  distinct_complete :
      (ts : List Task) → All (λ t. p t ≡ true → any (same (key t)) (distinct ts) ≡ true) ts
  distinct_complete [] = tt
  distinct_complete (t ∷ ts) = (
    distinct_has t ts,
    All_mono _ _ ts (λ u h e. distinct-grows t ts (key u) (h e)) (distinct_complete ts),
  )

  -- COUNT(*) for each key.
  abbrev pub rows_of : List Task → List (K × ℕ)
  rows_of ts = map (λ k. (k, count (λ t. p t && same (key t) k) ts)) (distinct ts)

  keys_of-map : (f : K → ℕ) (ks : List K) → keys_of {K = K} (map (λ k. (k, f k)) ks) ≡ ks
  keys_of-map f [] = refl
  keys_of-map f (k ∷ ks) = ap (λ l. k ∷ l) (keys_of-map f ks)

  counted_map :
      (f : K → ℕ) (ks : List K) → All (λ (r : K × ℕ). r.1 ≡ f r.0) (map (λ k. (k, f k)) ks)
  counted_map f [] = tt
  counted_map f (k ∷ ks) = (refl, counted_map f ks)

  All-map :
      (Q : K → Type 0) (f : K → ℕ) (ks : List K)
      → All Q ks
      → All (λ (r : K × ℕ). Q r.0) (map (λ k. (k, f k)) ks)
  All-map Q f [] h = tt
  All-map Q f (k ∷ ks) h = (h.0, All-map Q f ks h.1)

  pub rows_of-Grouped : (ts : List Task) → Grouped same key p ts (rows_of ts)
  rows_of-Grouped ts =
      let f = λ (k : K). count (λ t. p t && same (key t) k) ts in
      let keys = keys_of-map f (distinct ts) in
      record {
        once = rw keys (distinct-AllApart ts);
        counted = counted_map f (distinct ts);
        inhabited =
            All-map (λ k. (t : Task) × Memᴰ t ts × (p t ≡ true) × (key t ≡ k)) f (distinct ts)
              (distinct_inhabited ts ts (λ t m. m));
        complete = rw keys (distinct_complete ts);
      }

-- Whole numbers in place of floats.
abbrev pub whole : Floats
whole = record {
  Float = ℕ;
  nought = 0;
  of_int = λ n. n;
  divide = λ a b. a / b;
  times = λ a b. a * b;
  round = λ a. a;
}

abbrev pub average_of : ℕ → Option ℕ
average_of zero = none
average_of (suc n) = some 1

pub average_of_zero : (n : ℕ) → n ≡ 0 → average_of n ≡ none
average_of_zero zero h = refl
average_of_zero (suc n) h = absurd (omega arith)

abbrev pub bucket_row : (Task → Bool) → List Task → ℕ → BucketRow ℕ
bucket_row p ts b = record {
  bucket = b;
  completed = count (λ t. p t && bucket_unix t == b) ts;
  exec = some 5;
  wait = none;
}

pub bucket_rows-Grouped :
    (p : Task → Bool) (ts : List Task)
    → Grouped ◌==◌ bucket_unix p ts (
        map
          (λ r. (r.bucket, r.completed))
          (map (bucket_row p ts) (distinct ◌==◌ ==_iff bucket_unix p ts)))
bucket_rows-Grouped p ts =
    rw (each (distinct ◌==◌ ==_iff bucket_unix p ts)) (rows_of-Grouped ◌==◌ ==_iff bucket_unix p ts)
  where
    each :
        (bs : List ℕ)
        → map {B = ℕ × ℕ} (λ r. (r.bucket, r.completed)) (map (bucket_row p ts) bs)
          ≡ map {B = ℕ × ℕ} (λ b. (b, count (λ t. p t && bucket_unix t == b) ts)) bs
    each [] = refl
    each (b ∷ bs) = ap (λ l. (b, count (λ t. p t && bucket_unix t == b) ts) ∷ l) (each bs)

-- GROUP BY type, by texts that compare exactly.
module _ (p : Task → Bool) (ts : List Task) where
  abbrev pub type_group : String → String × List Task
  type_group k = (k, filter (λ t. p t && str_eq t.task_type k) ts)

  abbrev pub types_of : List Task → List String
  types_of = distinct str_eq str_eq_iff (λ t. t.task_type) p

  group_keys : (ks : List String) → map {A = String × List Task} (λ g. g.0) (map type_group ks) ≡ ks
  group_keys [] = refl
  group_keys (k ∷ ks) = ap (λ l. k ∷ l) (group_keys ks)

  group_rows :
      (ks : List String)
      → All
          (λ (g : String × List Task).
            Permuted g.1 (filter (λ t. p t && str_eq t.task_type g.0) ts))
          (map type_group ks)
  group_rows [] = tt
  group_rows (k ∷ ks) = (Perm.refl _, group_rows ks)

  group_named :
      (ks : List String)
      → All (λ k. (t : Task) × Memᴰ t ts × (p t ≡ true) × (t.task_type ≡ k)) ks
      → All
          (λ (g : String × List Task). (t : Task) × Memᴰ t g.1 × (t.task_type ≡ g.0))
          (map type_group ks)
  group_named [] h = tt
  group_named (k ∷ ks) h =
      let (t, stored, passes, same) = h.0 in
      (
        (
          t,
          filter_of_mem _ ts stored (ground (arith, passes, (str_eq_iff t.task_type k).1 same)),
          same,
        ),
        group_named ks h.1,
      )

  any-group :
      (x : String) (ks : List String)
      → any (str_eq x) ks ≡ true
      → any (λ (g : String × List Task). str_eq x g.0) (map type_group ks) ≡ true
  any-group x [] h = h
  any-group x (k ∷ ks) h = ground (arith, any-group x ks)

  pub groups-ByType : ByType (λ s. s) p ts (map type_group (types_of ts))
  groups-ByType = record {
    once =
        rw (group_keys (types_of ts)) (distinct-AllApart str_eq str_eq_iff (λ t. t.task_type) p ts);
    rows = group_rows (types_of ts);
    named =
        group_named (types_of ts)
          (distinct_inhabited str_eq str_eq_iff (λ t. t.task_type) p ts ts (λ t m. m));
    complete =
        All_mono _ _ ts (λ t h e. any-group t.task_type (types_of ts) (h e))
          (distinct_complete str_eq str_eq_iff (λ t. t.task_type) p ts);
  }

abbrev pub mean_of : List (ℕ × ℕ) → Option ℕ
mean_of [] = none
mean_of (s ∷ ss) = some 1

abbrev pub reports : Reports memory whole
reports = record {
  count_statuses =
      λ p db. (db, ok (rows_of str_eq str_eq_iff (λ t. status_name t.status) p db.tables.tasks));
  count_statuses_law = λ p db.
      (refl, rows_of-Grouped str_eq str_eq_iff (λ t. status_name t.status) p db.tables.tasks);
  count_priorities = λ p db. (db, ok (rows_of ◌==◌ ==_iff (λ t. t.priority) p db.tables.tasks));
  count_priorities_law =
      λ p db. (refl, rows_of-Grouped ◌==◌ ==_iff (λ t. t.priority) p db.tables.tasks);
  count_rows = λ p db. (db, ok (count p db.tables.tasks));
  count_rows_law = λ p db. (refl, refl);
  average = λ p from to db. (db, ok (average_of (count p db.tables.tasks)));
  average_law = λ p from to db. (refl, average_of_zero (count p db.tables.tasks));
  bucket_rows = λ p db. (
    db,
    ok (map (bucket_row p db.tables.tasks) (distinct ◌==◌ ==_iff bucket_unix p db.tables.tasks)),
  );
  bucket_rows_law = λ p db. (refl, bucket_rows-Grouped p db.tables.tasks);
  mean = mean_of;
  mean_law = refl;
  type_groups = λ p db.
      (db, ok (map (type_group p db.tables.tasks) (types_of p db.tables.tasks db.tables.tasks)));
  type_groups_law = λ p db. (refl, groups-ByType p db.tables.tasks);
}

-- One task done 12 s ago, one failed, and those of the queue.
abbrev pub history : Memory
history = record queue {
  tables = record {
    tasks =
        record low { status = completed; started_at = some 983000; completed_at = some 988000 }
        ∷ record high { status = failed; completed_at = some 990000 }
        ∷ other
        ∷ [];
    dead_letters = [];
    api_keys = [];
  };
}

get_summary_example :
    Ends memory
      (λ s T'.
        (T' ≡ history.tables) × Summed whole history.tables (is_shown_to false "alpha") 1000000 s)
      (Faulted history.tables)
      (get_summary memory whole reports false "alpha" 1000000 history)
get_summary_example =
    get_summary-Summed memory whole reports false "alpha" 1000000 history (omega arith)

get_throughput_example :
    Ends memory
      (λ qs T'.
        (T' ≡ history.tables)
        × Throughput whole print (is_shown_to false "alpha") 1000000 1000 history.tables.tasks qs)
      (Faulted history.tables)
      (get_throughput memory whole reports print false "alpha" 1000000 1000 history)
get_throughput_example =
    get_throughput-ArePoints memory whole reports print false "alpha" 1000000 1000 history

get_type_breakdown_example :
    Ends memory
      (λ stats T'.
        (T' ≡ history.tables) × AreStats whole (λ s. s) true "alpha" history.tables.tasks stats)
      (Faulted history.tables)
      (get_type_breakdown memory whole reports true "alpha" history)
get_type_breakdown_example = get_type_breakdown-IsStat memory whole reports true "alpha" history
