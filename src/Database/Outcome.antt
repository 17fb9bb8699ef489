-- ===== src/Database/Outcome.antt =====
-- Results of a statement, and what a result says of the tables after it.
use task_execution_engine.Prelude.{◌≡◌, subst}
use task_execution_engine.Models.{Tables}

-- gorm.ErrRecordNotFound, services.ErrNoTask, services.ErrTaskNotCancellable, and any other error.
pub data Error (F : Type 0) : Type 0 where
  record_not_found no_task not_cancellable : Error F
  fault : F → Error F

pub data Result (F A : Type 0) : Type 0 where
  ok : A → Result F A
  err : Error F → Result F A

-- One predicate for a success, with its value and the tables after it, and one for an error.
abbrev pub Post :
    {F A : Type 0}
    → (A → Tables → Type 0)
    → (Error F → Tables → Type 0)
    → Result F A
    → Tables
    → Type 0
Post Good Bad (ok a) T = Good a T
Post Good Bad (err e) T = Bad e T

-- A statement fails by a fault of the driver only, and then the tables are as they were.
abbrev pub Faulted : {F : Type 0} → Tables → Error F → Tables → Type 0
Faulted T (fault f) T' = T' ≡ T
Faulted T record_not_found T' = ⊥
Faulted T no_task T' = ⊥
Faulted T not_cancellable T' = ⊥

pub Post-mono :
    {F A : Type 0} (G G' : A → Tables → Type 0) (B B' : Error F → Tables → Type 0) (r : Result F A)
    (T : Tables)
    → ((a : A) → G a T → G' a T)
    → ((e : Error F) → B e T → B' e T)
    → Post G B r T
    → Post G' B' r T
Post-mono G G' B B' (ok a) T g b h = g a h
Post-mono G G' B B' (err e) T g b h = b e h

-- What a success or an error that was observed says.
pub Post-ok :
    {F A : Type 0} (G : A → Tables → Type 0) (B : Error F → Tables → Type 0) (r : Result F A)
    (T : Tables) {a : A}
    → Post G B r T
    → r ≡ ok a
    → G a T
Post-ok G B r T h e = subst (λ x. Post G B x T) e h
