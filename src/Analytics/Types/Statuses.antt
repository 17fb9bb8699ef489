-- ===== src/Analytics/Types/Statuses.antt =====
-- The rows behind the numbers of GetTypeBreakdown.
use mathlib.Core.List.{Mem, Perm as Permuted}
use mathlib.Core.List.Perm
use task_execution_engine.Prelude.{
  ℕ, ◌≡◌, refl, ap, ◌∙◌, Bool, true, ◌&&◌, String, Option, none, some, List, [], ◌∷◌, map, arith,
  All, All_mono, count, length, any, filter, str_eq, Memᴰ, mem-filter,
}
use task_execution_engine.Models.{Task, Status, status_eq}
use task_execution_engine.Database.{Database}
use task_execution_engine.Database.Outcome.{Faulted}
use task_execution_engine.Database.Program.{Ends, pure, reads-Ends}
use task_execution_engine.Analytics.{
  Floats, Reports, add_span, type_row_of, spans, started_if_completed, in_scope, is_present,
  or_nought,
}
use task_execution_engine.Analytics.Groups.{ByType, AllApart}
use task_execution_engine.Analytics.Rows.{
  is_shown_to, IsRate, failure_rate-IsRate, count-Perm, count-filter, count_ext,
}
use task_execution_engine.Analytics.Types.{TypeStat, stat_of, get_type_breakdown}

-- The rows of a type, as its column compares, that the report is about.
abbrev pub is_of_type : (String → String) → Bool → String → String → Task → Bool
is_of_type weight all_clients client_id task_type t =
    is_shown_to all_clients client_id t && str_eq (weight t.task_type) (weight task_type)

module _ (F : Floats) (own : Task → Bool) (ts : List Task) where
  abbrev pub number_with : Status → ℕ
  number_with u = count (λ t. own t && status_eq t.status u) ts

  -- The statistics of the rows that `own` tells: how many, how many in each status, the failed ones
  -- among those that ended, and averages that are 0 where there is nothing to average.
  pub record Numbers (s : TypeStat F.Float) : Type 0 where
    pub total : s.total ≡ count own ts
    pub completed : s.completed ≡ number_with Status.completed
    pub failed : s.failed ≡ number_with Status.failed
    pub pending : s.pending ≡ number_with Status.pending
    pub running : s.running ≡ number_with Status.running
    pub cancelled : s.cancelled ≡ number_with Status.cancelled
    pub rate : IsRate F (number_with Status.completed) (number_with Status.failed) s.rate_of_failure
    pub no_execution :
        count
            (λ t.
              own t
              && status_eq t.status Status.completed
              && is_present t.started_at
              && is_present t.completed_at)
            ts
          ≡ 0
        → s.avg_execution_ms ≡ F.nought
    pub no_wait :
        count (λ t. own t && is_present t.started_at) ts ≡ 0 → s.avg_queue_wait_ms ≡ F.nought

-- One entry: its type is the type of one of its rows.
pub record IsStat (F : Floats) (weight : String → String) (all_clients : Bool) (client_id : String)
    (ts : List Task) (s : TypeStat F.Float) : Type 0 where
  pub numbers : Numbers F (is_of_type weight all_clients client_id s.task_type) ts s
  pub named :
      (t : Task) × Mem t ts
      × (is_shown_to all_clients client_id t ≡ true)
      × (t.task_type ≡ s.task_type)

spans_none :
    (from to : Task → Option ℕ) (ts : List Task)
    → count (λ t. is_present (from t) && is_present (to t)) ts ≡ 0
    → spans from to ts ≡ []
unfolding spans add_span
spans_none from to [] h = refl
spans_none from to (t ∷ ts) h = ground (arith, spans_none from to ts)

-- A row of the query, and the entry made of it, from the rows of its type.
module _ (F : Floats) (mean : List (ℕ × ℕ) → Option F.Float) (mean_law : mean [] ≡ none)
    (own : Task → Bool) (ts us : List Task) (task_type : String)
    (all : Permuted us (filter own ts)) where
  counted : (q : Task → Bool) → count q us ≡ count (λ t. own t && q t) ts
  counted q = count-Perm q all ∙ count-filter q own ts

  length-count : (vs : List Task) → length vs ≡ count (λ _. true) vs
  length-count [] = refl
  length-count (v ∷ vs) = omega (arith, length-count vs)

  counted_all : length us ≡ count own ts
  counted_all = length-count us ∙ counted (λ _. true) ∙ count_ext _ _ ts (λ t. ground arith)

  mean_none :
      (from to : Task → Option ℕ)
      → count (λ t. is_present (from t) && is_present (to t)) us ≡ 0
      → or_nought F (mean (spans from to us)) ≡ F.nought
  unfolding or_nought
  mean_none from to h = rw (spans_none from to us h, mean_law) refl

  run_none :
      count
          (λ t.
            own t
            && status_eq t.status Status.completed
            && is_present t.started_at
            && is_present t.completed_at)
          ts
        ≡ 0
      → count (λ t. is_present (started_if_completed t) && is_present t.completed_at) us ≡ 0
  unfolding started_if_completed
  run_none h = counted _ ∙ count_ext _ _ ts (λ t. ground arith) ∙ h

  stat_of-Numbers : Numbers F own ts (stat_of F (type_row_of mean (task_type, us)))
  unfolding stat_of type_row_of
  stat_of-Numbers = record {
    total = counted_all;
    completed = counted _;
    failed = counted _;
    pending = counted _;
    running = counted _;
    cancelled = counted _;
    rate =
        rw
          (
            counted (λ t. status_eq t.status Status.completed),
            counted (λ t. status_eq t.status Status.failed),
          )
          (failure_rate-IsRate F _ _);
    no_execution = λ h. mean_none started_if_completed (λ t. t.completed_at) (run_none h);
    no_wait = λ h. mean_none (λ t. some t.created_at) (λ t. t.started_at) (counted _ ∙ h);
  }

-- The entries of a breakdown: each with the numbers of its type, and no type twice.
pub record AreStats (F : Floats) (weight : String → String) (all_clients : Bool)
    (client_id : String) (ts : List Task) (stats : List (TypeStat F.Float)) : Type 0 where
  pub each : All (IsStat F weight all_clients client_id ts) stats
  pub once :
      AllApart
        (λ a b. str_eq (weight a) (weight b))
        (map (λ (s : TypeStat F.Float). s.task_type) stats)
  pub complete :
      All
        (λ t.
          is_shown_to all_clients client_id t ≡ true
          → any (λ s. str_eq (weight t.task_type) (weight s.task_type)) stats ≡ true)
        ts

module _ (F : Floats) (mean : List (ℕ × ℕ) → Option F.Float) (mean_law : mean [] ≡ none)
    (weight : String → String) (all_clients : Bool) (client_id : String) (ts : List Task) where
  abbrev entry : String × List Task → TypeStat F.Float
  entry g = stat_of F (type_row_of mean g)

  entry-IsStat :
      (g : String × List Task)
      → Permuted g.1 (filter (is_of_type weight all_clients client_id g.0) ts)
      → (t : Task) × Memᴰ t g.1 × (t.task_type ≡ g.0)
      → IsStat F weight all_clients client_id ts (entry g)
  unfolding stat_of type_row_of
  entry-IsStat (k, us) all (t, m, e) = record {
    numbers =
        stat_of-Numbers F mean mean_law (is_of_type weight all_clients client_id k) ts us k all;
    named = named;
  }
    where
      named :
          (u : Task) × Mem u ts × (is_shown_to all_clients client_id u ≡ true) × (u.task_type ≡ k)
      named =
          let (stored, own) = (mem-filter _ ts).0 ((Perm.mem_iff all).0 ∣ m ∣₁) in
          (t, stored, ground arith, e)

  entries-IsStat :
      (gs : List (String × List Task))
      → All (λ g. Permuted g.1 (filter (is_of_type weight all_clients client_id g.0) ts)) gs
      → All (λ g. (t : Task) × Memᴰ t g.1 × (t.task_type ≡ g.0)) gs
      → All (IsStat F weight all_clients client_id ts) (map entry gs)
  entries-IsStat [] h n = tt
  entries-IsStat (g ∷ gs) h n = (entry-IsStat g h.0 n.0, entries-IsStat gs h.1 n.1)

  entry-keys :
      (gs : List (String × List Task))
      → map (λ (s : TypeStat F.Float). s.task_type) (map entry gs) ≡ map (λ g. g.0) gs
  unfolding stat_of type_row_of
  entry-keys [] = refl
  entry-keys (g ∷ gs) = ap (λ l. g.0 ∷ l) (entry-keys gs)

  any-entry :
      (x : String) (gs : List (String × List Task))
      → any (λ g. str_eq x (weight g.0)) gs ≡ true
      → any (λ s. str_eq x (weight s.task_type)) (map entry gs) ≡ true
  unfolding stat_of type_row_of
  any-entry x [] h = h
  any-entry x (g ∷ gs) h = ground (arith, any-entry x gs)

  entries-AreStats :
      (gs : List (String × List Task))
      → ByType weight (in_scope all_clients client_id) ts gs
      → AreStats F weight all_clients client_id ts (map entry gs)
  unfolding in_scope
  entries-AreStats gs g = record {
    each = entries-IsStat gs g.rows g.named;
    once = rw (entry-keys gs) g.once;
    complete = All_mono _ _ ts (λ t h e. any-entry (weight t.task_type) gs (h e)) g.complete;
  }

-- GetTypeBreakdown writes nothing. Each of its entries counts the rows of one type, as the column
-- compares types, of the client or of all clients if that is asked for: all of them and those in
-- each status; its rate is that of the failed ones among the completed and the failed ones, or 0
-- without any, and its averages are 0 where no row has run or started. No type has two entries,
-- and every such row has one for its type. If the database fails, nothing is changed.
pub get_type_breakdown-IsStat :
    (D : Database) (F : Floats) (R : Reports D F) (all_clients : Bool) (client_id : String)
    (db : D.Db)
    → Ends D
        (λ stats T'.
          (T' ≡ D.tables db) × AreStats F D.weight all_clients client_id (D.tables db).tasks stats)
        (Faulted (D.tables db))
        (get_type_breakdown D F R all_clients client_id db)
unfolding get_type_breakdown
get_type_breakdown-IsStat D F R all_clients client_id db =
    let T = D.tables db in
    let p = in_scope all_clients client_id in
    reads-Ends D (λ S groups. ByType D.weight p S.tasks groups)
      (λ stats T'. (T' ≡ T) × AreStats F D.weight all_clients client_id T.tasks stats) T
      (R.type_groups p) (λ groups. pure (map (λ g. stat_of F (type_row_of R.mean g)) groups)) db
      refl (R.type_groups_law p db)
      (λ groups db' same g. (
        same,
        entries-AreStats F R.mean R.mean_law D.weight all_clients client_id T.tasks groups g,
      ))
