-- ===== src/Worker/Drain.antt =====
-- The channel between the scheduler and the workers, under any interleaving of Submit, the workers'
-- receives and Stop (backend/worker/pool.go).
pub mod Empty
use task_execution_engine.Prelude.{
  ℕ, zero, suc, ◌+◌, ◌-◌, ◌*◌, ◌≤◌, ◌<◌, ltb, ◌≡◌, ◌⊎◌, inl, inr, refl, Bool, true, false, Option,
  none, some, List, [], ◌∷◌, ◌++◌, arith, length, length-append, count, count-append, if◌then◌else◌,
  Bool-cases,
}
use task_execution_engine.Models.{Task}
use task_execution_engine.Worker.{
  Pool, no_tasks, new_pool, Submitted, accepted, blocked, panics, submit,
}

-- Submit by the scheduler; a worker's receive, and the end of its work; and Stop's close, which is
-- a panic on a closed channel.
pub data Step (p : Pool) : List Task → Pool → Type 0 where
  submits : {p' : Pool} (t : Task) → submit t p ≡ accepted p' → Step p (t ∷ []) p'
  takes :
      {p' : Pool} (before after : List (Option Task)) (t : Task) (rest : List Task)
      → p.hands ≡ before ++ none ∷ after
      → p.queue ≡ t ∷ rest
      → p' ≡ record p { queue = rest; hands = before ++ some t ∷ after }
      → Step p [] p'
  finishes :
      {p' : Pool} (before after : List (Option Task)) (t : Task)
      → p.hands ≡ before ++ some t ∷ after
      → p' ≡ record p { hands = before ++ none ∷ after; finished = t ∷ p.finished }
      → Step p [] p'
  stops : {p' : Pool} → p.closed ≡ false → p' ≡ record p { closed = true } → Step p [] p'

-- The pool after some steps, with the tasks that were submitted to it, the last one first.
pub data Reach (n : ℕ) : List Task → Pool → Type 0 where
  start : Reach n [] (new_pool n)
  later : {ts new : List Task} {p p' : Pool} → Reach n ts p → Step p new p' → Reach n (new ++ ts) p'

abbrev pub in_hand : (Task → Bool) → Option Task → Bool
in_hand q none = false
in_hand q (some t) = q t

-- The tasks that pass a test are as many as were submitted; the channel holds at most one for each
-- worker.
record Balanced (ts : List Task) (p : Pool) : Type 0 where
  kept :
      (q : Task → Bool)
      → count q ts ≡ count q p.finished + count (in_hand q) p.hands + count q p.queue
  room : length p.queue ≤ p.num_workers
  staffed : 1 ≤ length p.hands

if_accepted :
    (shut room : Bool) (p p' : Pool)
    → (if shut then panics else if room then accepted p else blocked) ≡ accepted p'
    → (room ≡ true) × (p ≡ p')
if_accepted true room p p' e = absurd (never e)
  where
    never : panics ≡ accepted p' → ⊥
    never h = cc
if_accepted false true p p' e = (refl, cc)
if_accepted false false p p' e = absurd (never e)
  where
    never : blocked ≡ accepted p' → ⊥
    never h = cc

submit-Balanced :
    (ts : List Task) (p p' : Pool) (t : Task)
    → submit t p ≡ accepted p'
    → Balanced ts p
    → Balanced (t ∷ ts) p'
unfolding submit
submit-Balanced ts p p' t e b =
    let (room, same) =
      if_accepted p.closed (ltb (length p.queue) p.num_workers)
        (record p { queue = p.queue ++ t ∷ [] }) p' e in
    rw (← same) (record {
      kept = λ q. ground (arith, b.kept q, count-append q p.queue (t ∷ []));
      room = ground (arith, room, length-append p.queue (t ∷ []));
      staffed = b.staffed;
    })

Step-Balanced :
    {p p' : Pool} {new : List Task} (ts : List Task)
    → Step p new p'
    → Balanced ts p
    → Balanced (new ++ ts) p'
Step-Balanced {p} {p'} ts (submits t e) b = submit-Balanced ts p p' t e b
Step-Balanced {p} ts (takes before after t rest h e f) b = rw f (record {
  kept = λ q. ground (
    arith,
    b.kept q,
    h,
    e,
    count-append (in_hand q) before (none ∷ after),
    count-append (in_hand q) before (some t ∷ after),
  );
  room = ground (arith, b.room, e);
  staffed = ground (
    arith,
    b.staffed,
    h,
    length-append before (none ∷ after),
    length-append before (some t ∷ after),
  );
})
Step-Balanced {p} ts (finishes before after t h f) b = rw f (record {
  kept = λ q. ground (
    arith,
    b.kept q,
    h,
    count-append (in_hand q) before (none ∷ after),
    count-append (in_hand q) before (some t ∷ after),
  );
  room = b.room;
  staffed = ground (
    arith,
    b.staffed,
    h,
    length-append before (none ∷ after),
    length-append before (some t ∷ after),
  );
})
Step-Balanced ts (stops e f) b = rw f (record { kept = b.kept; room = b.room; staffed = b.staffed })

no_tasks-none : (n : ℕ) (q : Task → Bool) → count (in_hand q) (no_tasks n) ≡ 0
unfolding no_tasks
no_tasks-none zero q = refl
no_tasks-none (suc n) q = no_tasks-none n q

length-no_tasks : (n : ℕ) → length (no_tasks n) ≡ n
unfolding no_tasks
length-no_tasks zero = refl
length-no_tasks (suc n) = omega (arith, length-no_tasks n)

Reach-Balanced : {n : ℕ} {ts : List Task} {p : Pool} → Reach n ts p → Balanced ts p
unfolding new_pool
Reach-Balanced {n} start = record {
  kept = λ q. omega (arith, no_tasks-none (if ltb n 1 then 1 else n) q);
  room = omega arith;
  staffed = ground (arith, length-no_tasks (if ltb n 1 then 1 else n));
}
Reach-Balanced (later r st) = Step-Balanced _ st (Reach-Balanced r)

-- However submits, receives and Stop interleave, the channel holds at most one task for each worker,
-- and every task that was accepted is in it, in a worker's hand, or finished: of those that pass any
-- test there are as many.
pub Reach-conserved :
    (n : ℕ) (ts : List Task) (p : Pool)
    → Reach n ts p
    → (length p.queue ≤ p.num_workers)
      × ((q : Task → Bool)
          → count q ts ≡ count q p.finished + count (in_hand q) p.hands + count q p.queue)
Reach-conserved n ts p r = let b = Reach-Balanced r in (b.room, b.kept)

pub Reach-staffed : (n : ℕ) (ts : List Task) (p : Pool) → Reach n ts p → 1 ≤ length p.hands
Reach-staffed n ts p r = (Reach-Balanced r).staffed
