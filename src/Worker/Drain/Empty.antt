-- ===== src/Worker/Drain/Empty.antt =====
-- What the workers can do after the last Submit: the drain of Stop (backend/worker/pool.go).
use task_execution_engine.Prelude.{
  ℕ, ◌≤◌, ◌≡◌, refl, sym, ◌∙◌, Bool, Option, none, some, List, [], ◌∷◌, ◌++◌, arith, length,
  length-append, count, All, All-append,
}
use mathlib.Core.List.{append_assoc, append-nil}
use task_execution_engine.Models.{Task}
use task_execution_engine.Worker.{Pool}
use task_execution_engine.Worker.Drain.{
  Step, takes, finishes, Reach, Reach-conserved, Reach-staffed, in_hand,
}

-- Steps that submit nothing.
pub data Runs : Pool → Pool → Type 0 where
  still : {p : Pool} → Runs p p
  more : {p p' p'' : Pool} → Step p [] p' → Runs p' p'' → Runs p p''

Runs-trans : {p p' p'' : Pool} → Runs p p' → Runs p' p'' → Runs p p''
Runs-trans still r = r
Runs-trans (more s r') r = more s (Runs-trans r' r)

Reach-Runs : {n : ℕ} {ts : List Task} {p p' : Pool} → Reach n ts p → Runs p p' → Reach n ts p'
Reach-Runs r still = r
Reach-Runs r (more s rs) = Reach-Runs (Reach.later r s) rs

abbrev pub IsFree : Option Task → Type 0
IsFree none = Unit {0}
IsFree (some _) = ⊥

-- Every worker has finished, and nothing else has changed.
record Freed (p : Pool) : Type 0 where
  after : Pool
  runs : Runs p after
  queue : after.queue ≡ p.queue
  free : All IsFree after.hands
  staff : length after.hands ≡ length p.hands

record Emptied (p : Pool) : Type 0 where
  after : Pool
  runs : Runs p after
  queue : after.queue ≡ []
  free : All IsFree after.hands

free_hands :
    (before after : List (Option Task)) (p : Pool)
    → p.hands ≡ before ++ after
    → All IsFree before
    → Freed p
free_hands before [] p e f = record {
  after = p;
  runs = still;
  queue = refl;
  free = rw (e, append-nil before) f;
  staff = refl;
}
free_hands before (none ∷ after) p e f =
    free_hands (before ++ none ∷ []) after p (e ∙ sym (append_assoc before (none ∷ []) after))
      (All-append IsFree before (none ∷ []) f (tt, tt))
free_hands before (some t ∷ after) p e f =
    let p' : Pool = record p { hands = before ++ none ∷ after; finished = t ∷ p.finished } in
    let d =
      free_hands (before ++ none ∷ []) after p' (sym (append_assoc before (none ∷ []) after))
        (All-append IsFree before (none ∷ []) f (tt, tt)) in
    record {
      after = d.after;
      runs = more (finishes before after t e refl) d.runs;
      queue = d.queue;
      free = d.free;
      staff = ground (
        arith,
        d.staff,
        e,
        length-append before (none ∷ after),
        length-append before (some t ∷ after),
      );
    }

empty_queue :
    (ts : List Task) (hs : List (Option Task)) (p : Pool)
    → p.queue ≡ ts
    → p.hands ≡ hs
    → All IsFree hs
    → 1 ≤ length hs
    → Emptied p
empty_queue ts [] p e h f some_one = absurd (omega arith)
empty_queue ts (some t ∷ hs) p e h f some_one = absurd f.0
empty_queue [] (none ∷ hs) p e h f some_one = record {
  after = p;
  runs = still;
  queue = e;
  free = rw h f;
}
empty_queue (t ∷ ts) (none ∷ hs) p e h f some_one =
    let busy : Pool = record p { queue = ts; hands = some t ∷ hs } in
    let p' : Pool = record busy { hands = none ∷ hs; finished = t ∷ p.finished } in
    let d = empty_queue ts (none ∷ hs) p' refl refl f some_one in
    record {
      after = d.after;
      runs = more (takes [] hs t ts h e refl) (more (finishes [] hs t refl refl) d.runs);
      queue = d.queue;
      free = d.free;
    }

none_in_hand :
    (q : Task → Bool) (hs : List (Option Task)) → All IsFree hs → count (in_hand q) hs ≡ 0
none_in_hand q [] f = refl
none_in_hand q (none ∷ hs) f = none_in_hand q hs f.1
none_in_hand q (some t ∷ hs) f = absurd f.0

-- From every state that the pool can be in, the workers can go on, with no further Submit, to a
-- state in which the channel is empty, no worker has a task in hand, and the tasks that were finished
-- are, counted by any test, exactly those that were accepted.
pub Reach-drains :
    (n : ℕ) (ts : List Task) (p : Pool)
    → Reach n ts p
    → (p' : Pool) × Runs p p'
      × (p'.queue ≡ [])
      × All IsFree p'.hands
      × ((q : Task → Bool) → count q ts ≡ count q p'.finished)
Reach-drains n ts p r =
    let f = free_hands [] p.hands p refl tt in
    let d =
      empty_queue f.after.queue f.after.hands f.after refl refl f.free
        (omega (arith, f.staff, Reach-staffed n ts p r)) in
    let runs = Runs-trans f.runs d.runs in
    (
      d.after,
      runs,
      d.queue,
      d.free,
      λ q. ground (
        arith,
        (Reach-conserved n ts d.after (Reach-Runs r runs)).1 q,
        none_in_hand q d.after.hands d.free,
        d.queue,
      ),
    )
