-- ===== src/Scheduler/Guard.antt =====
-- The isScheduling guard of scheduleOnce, under ticks that fire at any time: each tick starts a
-- goroutine, and the goroutines' critical sections under the mutex are interleaved in any order.
use task_execution_engine.Prelude.{
  ◌≤◌, ◌≡◌, refl, Bool, true, false, List, [], ◌∷◌, ◌++◌, arith, count, count-append, if◌then◌else◌,
}

-- Where a goroutine of the loop is.
pub data Routine : Type 0 where
  fired scheduling over : Routine

abbrev pub is_scheduling : Routine → Bool
is_scheduling scheduling = true
is_scheduling _ = false

-- The flag and the goroutines that the ticks have started.
pub record Ticks : Type 0 where
  pub flag : Bool
  pub routines : List Routine

-- The first critical section: the flag after it, and where the goroutine goes.
unfoldable pub enter : Bool → Bool × Routine
enter true = (true, over)
enter false = (true, scheduling)

pub data Step (s t : Ticks) : Type 0 where
  tick : t ≡ record s { routines = fired ∷ s.routines } → Step s t
  enters :
      (before after : List Routine)
      → s.routines ≡ before ++ fired ∷ after
      → t ≡ record { flag = (enter s.flag).0; routines = before ++ (enter s.flag).1 ∷ after }
      → Step s t
  leaves :
      (before after : List Routine)
      → s.routines ≡ before ++ scheduling ∷ after
      → t ≡ record { flag = false; routines = before ++ over ∷ after }
      → Step s t

pub data Reach : Ticks → Type 0 where
  start : Reach (record { flag = false; routines = [] })
  later : {s t : Ticks} → Reach s → Step s t → Reach t

-- The flag counts the goroutines between the two critical sections.
abbrev IsGuarded : Ticks → Type 0
IsGuarded s = count is_scheduling s.routines ≡ (if s.flag then 1 else 0)

Step-IsGuarded : {s t : Ticks} → Step s t → IsGuarded s → IsGuarded t
unfolding enter
Step-IsGuarded (tick e) h = ground arith
Step-IsGuarded {s} (enters before after e f) h = ground (
  arith,
  count-append is_scheduling before (fired ∷ after),
  count-append is_scheduling before (scheduling ∷ after),
  count-append is_scheduling before (over ∷ after),
)
Step-IsGuarded {s} (leaves before after e f) h = ground (
  arith,
  count-append is_scheduling before (scheduling ∷ after),
  count-append is_scheduling before (over ∷ after),
)

Reach-IsGuarded : {s : Ticks} → Reach s → IsGuarded s
Reach-IsGuarded start = refl
Reach-IsGuarded (later r st) = Step-IsGuarded st (Reach-IsGuarded r)

-- However ticks and passes interleave, at most one goroutine is in a pass, and none is while the
-- flag is down; so the deficits, which only a pass touches, need no lock of their own.
pub Reach-one_pass :
    {s : Ticks}
    → Reach s
    → (count is_scheduling s.routines ≤ 1) × (s.flag ≡ false → count is_scheduling s.routines ≡ 0)
Reach-one_pass {s} r = ground (arith, Reach-IsGuarded r)
