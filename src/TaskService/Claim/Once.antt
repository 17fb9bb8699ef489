-- ===== src/TaskService/Claim/Once.antt =====
-- Runs of DequeueTaskForClient: the claims of any number of schedulers and instances, one transaction
-- after the other, in any order.
use task_execution_engine.Prelude.{
  ℕ, ◌==◌, ◌≡◌, ◌≢◌, refl, Bool, String, some, List, [], ◌∷◌, arith, if◌then◌else◌, All,
}
use mathlib.Core.Option as Opt
use task_execution_engine.Models.{Task, Tables, pending, running}
use task_execution_engine.Database.{Database}
use task_execution_engine.Database.Outcome.{
  Result, Error, Post, ok, err, no_task, not_cancellable, record_not_found, fault,
}
use task_execution_engine.Database.Rows.{
  IsKeyed, has_id, update_rows, update_rows-IsKeyed, status_of, mem-status_of, status_of-update_id,
}
use task_execution_engine.TaskService.{mark_running, claim_columns, dequeue_task_for_client}
use task_execution_engine.TaskService.Claim.{
  Dequeued, NotDequeued, dequeue_task_for_client-Dequeued,
}

keep_claimed : {S F : Type 0} → Result F Task → S × List Task → S × List Task
keep_claimed (ok t) (s, ts) = (s, t ∷ ts)
keep_claimed (err e) (s, ts) = (s, ts)

-- The tasks that a sequence of claims, each for a client by an instance, hands out.
unfoldable pub claim_all : (D : Database) → List (String × String) → D.Db → D.Db × List Task
unfolding keep_claimed
claim_all D [] db = (db, [])
claim_all D ((client_id, instance_id) ∷ calls) db =
    let (db', r) = dequeue_task_for_client D client_id instance_id db in
    keep_claimed r (claim_all D calls db')

abbrev IsRunning : ℕ → Tables → Type 0
IsRunning i T = status_of i T.tasks ≡ some running

-- What a claim does to the rows that matter later.
record Handed (T : Tables) (t : Task) (T' : Tables) : Type 0 where
  keyed : IsKeyed T'.tasks
  runs : IsRunning t.id T'
  was_pending : status_of t.id T.tasks ≡ some pending
  kept : (i : ℕ) → IsRunning i T → IsRunning i T'

mark_running-status :
    (instance_id : String) (i j : ℕ) (ts : List Task)
    → status_of j (update_rows (has_id i) (mark_running instance_id) ts)
      ≡ (if i == j then Opt.map (λ _. running) (status_of j ts) else status_of j ts)
unfolding mark_running
mark_running-status instance_id i j ts =
    status_of-update_id i j (mark_running instance_id) running ts (λ t. refl) (λ t. refl)

Dequeued-Handed :
    (T T' : Tables) (L : ℕ → Bool) (c i : String) (t : Task)
    → IsKeyed T.tasks
    → Dequeued T L c i t T'
    → Handed T t T'
unfolding mark_running claim_columns
Dequeued-Handed T T' L c i t k d = record {
  keyed =
      rw d.written (update_rows-IsKeyed (has_id d.row.id) (mark_running i) T.tasks (λ u. refl) k);
  runs =
      rw (d.written, d.returned)
        (rw (mark_running-status i d.row.id d.row.id T.tasks) (ground (arith, was)));
  was_pending = rw d.returned was;
  kept = λ j h. rw d.written (ground (arith, h, mark_running-status i d.row.id j T.tasks));
}
  where
    was : status_of d.row.id T.tasks ≡ some pending
    was = ground (arith, mem-status_of T.tasks {t = d.row} k d.stored, d.claimable.waits)

-- What any claim leaves, a failed one too.
abbrev Kept : Tables → Tables → Type 0
Kept T T' = IsKeyed T'.tasks × ((i : ℕ) → IsRunning i T → IsRunning i T')

NotDequeued-same :
    {F : Type 0} (T T' : Tables) (L : ℕ → Bool) (c : String) (e : Error F)
    → NotDequeued T L c e T'
    → T' ≡ T
NotDequeued-same T T' L c no_task h = h.0
NotDequeued-same T T' L c (fault f) h = h
NotDequeued-same T T' L c record_not_found h = absurd h
NotDequeued-same T T' L c not_cancellable h = absurd h

module _ {F : Type 0} (T T' : Tables) (L : ℕ → Bool) (c s : String) (k : IsKeyed T.tasks) where
  abbrev Claim : Result F Task → Type 0
  Claim r = Post (Dequeued T L c s) (NotDequeued T L c) r T'

  Claim-Kept : (r : Result F Task) → Claim r → Kept T T'
  Claim-Kept (ok t) h = let g = Dequeued-Handed T T' L c s t k h in (g.keyed, g.kept)
  Claim-Kept (err e) h = let same = NotDequeued-same T T' L c e h in (rw same k, λ i r. rw same r)

  -- A claim does not hand out a task that runs, if the later claims do not.
  Claim-fresh :
      {S : Type 0} (r : Result F Task) (rest : S × List Task) (i : ℕ)
      → Claim r
      → IsRunning i T
      → All (λ t. t.id ≢ i) rest.1
      → All (λ t. t.id ≢ i) (keep_claimed r rest).1
  unfolding keep_claimed
  Claim-fresh (ok t) rest i h run later =
      (λ e. cc (Dequeued-Handed T T' L c s t k h).was_pending, later)
  Claim-fresh (err e) rest i h run later = later

  -- A claim adds a task with a new id, if the later claims hand out none that runs.
  Claim-distinct :
      {S : Type 0} (r : Result F Task) (rest : S × List Task)
      → Claim r
      → ((i : ℕ) → IsRunning i T' → All (λ t. t.id ≢ i) rest.1)
      → IsKeyed rest.1
      → IsKeyed (keep_claimed r rest).1
  unfolding keep_claimed
  Claim-distinct (ok t) rest h fresh keyed =
      (fresh t.id (Dequeued-Handed T T' L c s t k h).runs, keyed)
  Claim-distinct (err e) rest h fresh keyed = keyed

module _ (D : Database) where
  open D use {Db, tables}

  claim_all-fresh :
      (calls : List (String × String)) (db : Db) (i : ℕ)
      → IsKeyed (tables db).tasks
      → IsRunning i (tables db)
      → All (λ t. t.id ≢ i) (claim_all D calls db).1
  unfolding claim_all
  claim_all-fresh [] db i k run = tt
  claim_all-fresh ((c, s) ∷ calls) db i k run =
      let (db', r) = dequeue_task_for_client D c s db in
      let post = dequeue_task_for_client-Dequeued D c s db in
      let kept = Claim-Kept (tables db) (tables db') (D.locked db) c s k r post in
      Claim-fresh (tables db) (tables db') (D.locked db) c s k r (claim_all D calls db') i post run
        (claim_all-fresh calls db' i kept.0 (kept.1 i run))

-- However the claims of the clients' turns and of the instances are interleaved, no two of the
-- tasks that they hand out have the same id, so no task is run twice.
pub claim_all-IsKeyed :
    (D : Database) (calls : List (String × String)) (db : D.Db)
    → IsKeyed (D.tables db).tasks
    → IsKeyed (claim_all D calls db).1
unfolding claim_all
claim_all-IsKeyed D [] db k = tt
claim_all-IsKeyed D ((c, s) ∷ calls) db k =
    let (db', r) = dequeue_task_for_client D c s db in
    let post = dequeue_task_for_client-Dequeued D c s db in
    let kept = Claim-Kept (D.tables db) (D.tables db') (D.locked db) c s k r post in
    Claim-distinct (D.tables db) (D.tables db') (D.locked db) c s k r (claim_all D calls db') post
      (λ i run. claim_all-fresh D calls db' i kept.0 run) (claim_all-IsKeyed D calls db' kept.0)
