-- ===== src/Scheduler/Turn.antt =====
-- One client's turn: what it hands to the workers, and what is left of its deficit.
use task_execution_engine.Prelude.{
  ℕ, zero, suc, ◌+◌, ◌-◌, ◌^◌, ◌≡◌, ◌≢◌, ◌<◌, ltb, refl, sym, ap, ◌∙◌, inl, inr, ◌⊎◌, str_eq_iff,
  str_eq_refl, Bool, true, false, ◌&&◌, String, List, [], ◌∷◌, ◌++◌, arith, All, length,
  if◌then◌else◌, Bool-cases,
}
use mathlib.Core.List.{append_assoc, append-nil}
use task_execution_engine.Models.{Task, Tables}
use task_execution_engine.Database.{Database}
use task_execution_engine.Database.Outcome.{
  Result, ok, err, no_task, record_not_found, not_cancellable, fault, Post,
}
use task_execution_engine.TaskService.{dequeue_task_for_client, mark_running, claim_columns}
use task_execution_engine.TaskService.Claim.{
  MayClaim, Dequeued, NotDequeued, dequeue_task_for_client-Dequeued,
}
use task_execution_engine.Prelude.Maps.{get, put, get-put}
use task_execution_engine.Scheduler.{
  Dispatcher, World, Ending, again, next, stop, is_positive, hand_on, claimed, claim_one, round,
  turn,
}

module _ (D : Database) (P : Dispatcher) (done : ℕ → Bool) (instance_id : String) where
  -- A claim of the client found nothing that it may claim, and the database is as that claim left it.
  pub record Drained (c : String) (db : D.Db) : Type 0 where
    pub before : D.Db
    pub after : db ≡ (dequeue_task_for_client D c instance_id before).0
    pub empty : All (λ t. ¬ MayClaim (D.locked before) c t) (D.tables before).tasks

  -- Only the client's own deficit changes.
  abbrev pub OnlyDeficitOf : String → World D P → World D P → Type 0
  OnlyDeficitOf c w w' = (d : String) → d ≢ c → get d w'.deficits ≡ get d w.deficits

  -- What one round did.
  abbrev Rounded : String → World D P → World D P → Ending → Type 0
  Rounded c w w' again =
      ((t : Task) × (t.client_id ≡ c) × (P.received w'.pool ≡ P.received w.pool ++ t ∷ []))
      × (suc (get c w'.deficits) ≡ get c w.deficits)
      × OnlyDeficitOf c w w'
  Rounded c w w' next =
      (P.received w'.pool ≡ P.received w.pool)
      × (((get c w.deficits ≡ 0) × (get c w'.deficits ≡ 0))
          ⊎ ((0 < get c w.deficits) × (get c w'.deficits ≡ 0) × Drained c w'.db)
          ⊎ (D.Fault × (get c w'.deficits ≡ get c w.deficits)))
      × OnlyDeficitOf c w w'
  Rounded c w w' stop =
      (P.received w'.pool ≡ P.received w.pool)
      × (get c w'.deficits ≡ get c w.deficits)
      × OnlyDeficitOf c w w'

  Dequeued-client :
      (T T' : Tables) (L : ℕ → Bool) (c : String) (t : Task)
      → Dequeued T L c instance_id t T'
      → t.client_id ≡ c
  unfolding mark_running claim_columns
  Dequeued-client T T' L c t h = ap (λ (u : Task). u.client_id) h.returned ∙ h.claimable.owned

  put_others :
      (c : String) (v : ℕ) (m : List (String × ℕ)) (d : String)
      → d ≢ c
      → get d (put c v m) ≡ get d m
  put_others c v m d ne = ground (arith, get-put c d v m, str_eq_iff c d, ne)

  put_own : (c : String) (v : ℕ) (m : List (String × ℕ)) → get c (put c v m) ≡ v
  put_own c v m = ground (arith, get-put c c v m, str_eq_refl c)

  hand_on-Rounded :
      (c : String) (t : Task) (w : World D P)
      → t.client_id ≡ c
      → 0 < get c w.deficits
      → let (w', e) = hand_on D P done instance_id c t w in Rounded c w w' e
  unfolding hand_on
  hand_on-Rounded c t w own pos =
      go (P.submit t w.pool).0 (P.submit t w.pool).1 (P.submit_law t w.pool)
    where
      go :
          (p : P.Pool) (b : Bool)
          → P.received p ≡ (if b then P.received w.pool ++ t ∷ [] else P.received w.pool)
          → let r : World D P × Ending =
              if b
              then (
                record w { pool = p; deficits = put c (get c w.deficits - 1) w.deficits },
                again,
              )
              else (record w { pool = p }, stop) in
            Rounded c w r.0 r.1
      go p true e = (
        (t, own, e),
        omega (arith, put_own c (get c w.deficits - 1) w.deficits),
        put_others c (get c w.deficits - 1) w.deficits,
      )
      go p false e = (e, refl, λ d ne. refl)

  claimed-Rounded :
      (c : String) (w : World D P) (db : D.Db) (looks : ℕ) (r : Result D.Fault Task)
      → 0 < get c w.deficits
      → (db ≡ (dequeue_task_for_client D c instance_id w.db).0)
      → Post
          (Dequeued (D.tables w.db) (D.locked w.db) c instance_id)
          (NotDequeued (D.tables w.db) (D.locked w.db) c)
          r
          (D.tables db)
      → let (w', e) = claimed D P done instance_id c (record w { db = db; looks = looks }) r in
        Rounded c w w' e
  unfolding claimed
  claimed-Rounded c w db looks (ok t) pos e h =
      hand_on-Rounded c t (record w { db = db; looks = looks })
        (Dequeued-client (D.tables w.db) (D.tables db) (D.locked w.db) c t h) pos
  claimed-Rounded c w db looks (err no_task) pos e h = (
    refl,
    inr (inl (pos, put_own c 0 w.deficits, record { before = w.db; after = e; empty = h.1 })),
    put_others c 0 w.deficits,
  )
  claimed-Rounded c w db looks (err record_not_found) pos e h = absurd h
  claimed-Rounded c w db looks (err not_cancellable) pos e h = absurd h
  claimed-Rounded c w db looks (err (fault f)) pos e h = (refl, inr (inr (f, refl)), λ d ne. refl)

  round-Rounded :
      (c : String) (w : World D P)
      → get c w.deficits < 2 ^ 63
      → let (w', e) = round D P done instance_id c w in Rounded c w w' e
  unfolding round claim_one is_positive
  round-Rounded c w small =
      elim (Bool-cases (ltb 0 (get c w.deficits) && ltb (get c w.deficits) (2 ^ 63))) [
        | inl positive ↦ rw positive (elim (Bool-cases (done w.looks)) [
          | inl over ↦ rw over (refl, refl, λ d ne. refl)
          | inr on ↦ rw on (
              claimed-Rounded c w (dequeue_task_for_client D c instance_id w.db).0 (w.looks + 1)
                (dequeue_task_for_client D c instance_id w.db).1 (ground arith) refl
                (dequeue_task_for_client-Dequeued D c instance_id w.db))
        ])
        | inr spent ↦
            let zero_left : get c w.deficits ≡ 0 = ground arith in
            rw spent (refl, inl (zero_left, zero_left), λ d ne. refl)
      ]

  -- What a turn did: the tasks it handed on, all of the client; and either its deficit is used up,
  -- by that many tasks or because the client's queue was found empty, or the database failed or the
  -- pass was stopped, and what is left of the deficit is what was not handed on.
  pub record Turned (c : String) (w w' : World D P) (stopped : Bool) : Type 0 where
    pub sent : List Task
    pub handed : P.received w'.pool ≡ P.received w.pool ++ sent
    pub own : All (λ t. t.client_id ≡ c) sent
    pub paid :
        ((get c w'.deficits ≡ 0) × (length sent ≡ get c w.deficits) × (stopped ≡ false))
        ⊎ ((get c w'.deficits ≡ 0)
            × (length sent < get c w.deficits)
            × Drained c w'.db
            × (stopped ≡ false))
        ⊎ ((D.Fault ⊎ (stopped ≡ true)) × (length sent + get c w'.deficits ≡ get c w.deficits))
    pub others : OnlyDeficitOf c w w'

  next-Turned : (c : String) (w w' : World D P) → Rounded c w w' next → Turned c w w' false
  next-Turned c w w' (same, how, others) = record {
    sent = [];
    handed = same ∙ sym (append-nil _);
    own = tt;
    paid = elim how [
      | inl (z, z') ↦ inl (z', sym z, refl)
      | inr (inl (pos, z, d)) ↦ inr (inl (z, pos, d, refl))
      | inr (inr (f, kept)) ↦ inr (inr (inl f, omega (arith, kept)))
    ];
    others = others;
  }

  stop-Turned : (c : String) (w w' : World D P) → Rounded c w w' stop → Turned c w w' true
  stop-Turned c w w' (same, kept, others) = record {
    sent = [];
    handed = same ∙ sym (append-nil _);
    own = tt;
    paid = inr (inr (inr refl, omega (arith, kept)));
    others = others;
  }

  again-Turned :
      (c : String) (w w' w'' : World D P) (stopped : Bool)
      → Rounded c w w' again
      → Turned c w' w'' stopped
      → Turned c w w'' stopped
  again-Turned c w w' w'' stopped ((t, mine, sent), less, others) rest = record {
    sent = t ∷ rest.sent;
    handed =
        rest.handed
        ∙ ap (λ ts. ts ++ rest.sent) sent
        ∙ append_assoc (P.received w.pool) (t ∷ []) rest.sent;
    own = (mine, rest.own);
    paid = elim rest.paid [
      | inl (z, n, s) ↦ inl (z, omega (arith, n, less), s)
      | inr (inl (z, n, d, s)) ↦ inr (inl (z, omega (arith, n, less), d, s))
      | inr (inr (f, n)) ↦ inr (inr (f, omega (arith, n, less)))
    ];
    others = λ d ne. rest.others d ne ∙ others d ne;
  }

-- A turn of a client with a deficit within int, on more rounds than the deficit: only tasks of the
-- client are handed on, and only its deficit changes. Either exactly as many tasks are handed on as
-- the deficit allows and it is used up; or fewer, its queue was found empty, and the deficit is
-- reset; or the database can fail or the turn was stopped, and the rest of the deficit is kept.
pub turn-Turned :
    (D : Database) (P : Dispatcher) (done : ℕ → Bool) (instance_id : String) (fuel : ℕ) (c : String)
    (w : World D P)
    → get c w.deficits < 2 ^ 63
    → get c w.deficits < fuel
    → let (w', stopped) = turn D P done instance_id fuel c w in
      Turned D P done instance_id c w w' stopped
unfolding turn
turn-Turned D P done i zero c w small enough = absurd (omega arith)
turn-Turned D P done i (suc fuel) c w small enough =
    go (round D P done i c w).0 (round D P done i c w).1 (round-Rounded D P done i c w small)
      (λ w' s e. turn-Turned D P done i fuel c w' s e)
  where
    go :
        (w' : World D P) (e : Ending)
        → Rounded D P done i c w w' e
        → ((v : World D P)
            → get c v.deficits < 2 ^ 63
            → get c v.deficits < fuel
            → Turned D P done i c v (turn D P done i fuel c v).0 (turn D P done i fuel c v).1)
        → let r : World D P × Bool = elim e [
          | again ↦ turn D P done i fuel c w'
          | next ↦ (w', false)
          | stop ↦ (w', true)
        ] in
          Turned D P done i c w r.0 r.1
    go w' again r ih =
        again-Turned D P done i c w w' (turn D P done i fuel c w').0 (turn D P done i fuel c w').1 r
          (ih w' (omega (arith, r.1)) (omega (arith, r.1)))
    go w' next r ih = next-Turned D P done i c w w' r
    go w' stop r ih = stop-Turned D P done i c w w' r
