-- ===== src/Scheduler/Pass.antt =====
-- The turns of a whole pass over the clients (scheduleOnce of backend/scheduler/scheduler.go).
use task_execution_engine.Prelude.{
  ℕ, suc, ◌+◌, ◌^◌, ◌≡◌, ◌≢◌, ◌⊎◌, ◌≤◌, ◌<◌, refl, sym, ap, ◌∙◌, inl, inr, str_eq, str_eq_iff,
  str_eq_refl, Bool, true, false, String, List, [], ◌∷◌, ◌++◌, arith, All, length, count,
  count-append, any, if◌then◌else◌, Bool-cases,
}
use mathlib.Core.List.{append_assoc, append-nil}
use task_execution_engine.Models.{Task}
use task_execution_engine.Database.{Database}
use task_execution_engine.Database.Laws.{AllDistinct}
use task_execution_engine.Prelude.Maps.{get, put, get-put}
use task_execution_engine.Scheduler.{Dispatcher, World, add_int, turn, turns}
use task_execution_engine.Scheduler.Turn.{Turned, turn-Turned}

-- The tasks of a client in a list.
unfoldable pub of_client : String → Task → Bool
of_client c t = str_eq t.client_id c

share : ℕ → String → List String → ℕ
share quantum c cs = if any (str_eq c) cs then quantum else 0

count_own :
    (c d : String) (ts : List Task)
    → All (λ t. t.client_id ≡ c) ts
    → count (of_client d) ts ≡ (if str_eq c d then length ts else 0)
unfolding of_client
count_own c d [] h = ground arith
count_own c d (t ∷ ts) h = rw h.0 (ground (arith, count_own c d ts h.1))

not-listed :
    (c d : String) (cs : List String) → All (λ e. e ≢ c) cs → any (str_eq d) cs ≡ true → d ≢ c
not-listed c d [] a h = cc
not-listed c d (e ∷ cs) a h = elim (Bool-cases (str_eq d e)) [
  | inl same ↦ λ q. a.0 (sym ((str_eq_iff d e).0 same) ∙ q)
  | inr other ↦ not-listed c d cs a.1 (ground arith)
]

module _ (D : Database) (P : Dispatcher) (done : ℕ → Bool) (instance_id : String)
    (quantum : ℕ) where
  -- What the pass handed on: to each client at most its deficit and, if it had a turn, a quantum;
  -- a pass that is neither stopped nor failed by the database leaves no deficit to the next one.
  pub record Served (cs : List String) (w w' : World D P) (stopped : Bool) : Type 0 where
    pub sent : List Task
    pub handed : P.received w'.pool ≡ P.received w.pool ++ sent
    pub quota :
        (c : String)
        → count (of_client c) sent + get c w'.deficits
          ≤ get c w.deficits + (if any (str_eq c) cs then quantum else 0)
    pub clean :
        stopped ≡ false
        → (c : String) → any (str_eq c) cs ≡ true
        → (get c w'.deficits ≡ 0) ⊎ D.Fault
    pub others : (c : String) → any (str_eq c) cs ≡ false → get c w'.deficits ≡ get c w.deficits

  abbrev start : String → World D P → World D P
  start c w = record w { deficits = put c (add_int (get c w.deficits) quantum) w.deficits }

  start_own :
      (c : String) (w : World D P)
      → get c w.deficits + quantum < 2 ^ 63
      → get c (start c w).deficits ≡ get c w.deficits + quantum
  unfolding add_int
  start_own c w h =
      ground (arith, get-put c c (add_int (get c w.deficits) quantum) w.deficits, str_eq_refl c)

  start_others :
      (c d : String) (w : World D P) → d ≢ c → get d (start c w).deficits ≡ get d w.deficits
  start_others c d w ne =
      ground
        (arith, get-put c d (add_int (get c w.deficits) quantum) w.deficits, str_eq_iff c d, ne)

  -- What one turn gives to any client.
  turn_quota :
      (c d : String) (w w' : World D P) (stopped : Bool)
      → get c w.deficits + quantum < 2 ^ 63
      → (h : Turned D P done instance_id c (start c w) w' stopped)
      → count (of_client d) h.sent + get d w'.deficits
        ≤ get d w.deficits + (if str_eq c d then quantum else 0)
  turn_quota c d w w' stopped small h = elim (Bool-cases (str_eq c d)) [
    | inl same ↦
        let q : c ≡ d = (str_eq_iff c d).0 same in
        rw same (
          rw (← q) (
            ground (arith, count_own c c h.sent h.own, str_eq_refl c, start_own c w small, h.paid)))
    | inr other ↦
        let ne : d ≢ c = λ e. ground (arith, other, str_eq_iff c d, e) in
        let nothing : count (of_client d) h.sent ≡ 0 =
          ground (arith, count_own c d h.sent h.own, other) in
        rw other (omega (arith, nothing, h.others d ne, start_others c d w ne))
  ]

  turn_clean :
      (c : String) (w w' : World D P)
      → (h : Turned D P done instance_id c (start c w) w' false) → (get c w'.deficits ≡ 0) ⊎ D.Fault
  turn_clean c w w' h = elim h.paid [
    | inl (z, _, _) ↦ inl z
    | inr (inl (z, _, _, _)) ↦ inl z
    | inr (inr (inl f, _)) ↦ inr f
    | inr (inr (inr s, _)) ↦ cc
  ]

  stopped-Served :
      (c : String) (cs : List String) (w w' : World D P)
      → get c w.deficits + quantum < 2 ^ 63
      → Turned D P done instance_id c (start c w) w' true
      → Served (c ∷ cs) w w' true
  stopped-Served c cs w w' small h = record {
    sent = h.sent;
    handed = h.handed;
    quota = λ d. ground (arith, turn_quota c d w w' true small h, str_eq_iff c d, str_eq_iff d c);
    clean = λ s. cc;
    others = λ d e.
        let ne : d ≢ c = λ q. ground (arith, e, str_eq_iff d c, q) in
        h.others d ne ∙ start_others c d w ne;
  }

  next-Served :
      (c : String) (cs : List String) (w w' w'' : World D P) (stopped : Bool)
      → All (λ d. d ≢ c) cs
      → get c w.deficits + quantum < 2 ^ 63
      → Turned D P done instance_id c (start c w) w' false
      → Served cs w' w'' stopped
      → Served (c ∷ cs) w w'' stopped
  next-Served c cs w w' w'' stopped new small h r = record {
    sent = h.sent ++ r.sent;
    handed =
        r.handed
        ∙ ap (λ ts. ts ++ r.sent) h.handed
        ∙ append_assoc (P.received w.pool) h.sent r.sent;
    quota = λ d. ground (
      arith,
      count-append (of_client d) h.sent r.sent,
      turn_quota c d w w' false small h,
      r.quota d,
      not-listed c d cs new,
      str_eq_iff c d,
      str_eq_iff d c,
    );
    clean = λ s d listed. elim (Bool-cases (any (str_eq d) cs)) [
      | inl later ↦ r.clean s d later
      | inr now ↦
          let same : d ≡ c = ground (arith, listed, now, str_eq_iff d c) in
          elim (turn_clean c w w' h) [ inl z ↦ inl (r.others d now ∙ rw same z) | inr f ↦ inr f ]
    ];
    others = λ d e.
        let ne : d ≢ c = λ q. ground (arith, e, str_eq_iff d c, q) in
        r.others d (ground (arith, e)) ∙ h.others d ne ∙ start_others c d w ne;
  }

-- The turns of distinct clients, whose deficits with a quantum added stay within int: each client is
-- handed at most its deficit and one quantum, what is left of it included, and a client without a
-- turn is handed no more than it gave up of its deficit and keeps its deficit; and unless the turns
-- are stopped or the database can fail, every client that had one is left with no deficit.
pub turns-Served :
    (D : Database) (P : Dispatcher) (done : ℕ → Bool) (instance_id : String) (quantum : ℕ)
    (cs : List String) (w : World D P)
    → AllDistinct cs
    → All (λ c. get c w.deficits + quantum < 2 ^ 63) cs
    → let (w', stopped) = turns D P done instance_id quantum cs w in
      Served D P done instance_id quantum cs w w' stopped
unfolding turns
turns-Served D P done i quantum [] w new small = record {
  sent = [];
  handed = sym (append-nil _);
  quota = λ c. omega arith;
  clean = λ _ c h. cc;
  others = λ c h. refl;
}
turns-Served D P done i quantum (c ∷ cs) w new small =
    let first = start D P done i quantum c w in
    let result = turn D P done i (suc (get c first.deficits)) c first in
    go result.0 result.1
      (turn-Turned D P done i (suc (get c first.deficits)) c first
        (omega (arith, start_own D P done i quantum c w small.0, small.0)) (omega arith))
      (turns-Served D P done i quantum cs result.0 new.1)
  where
    go :
        (w' : World D P) (stopped : Bool)
        → Turned D P done i c (start D P done i quantum c w) w' stopped
        → (All (λ d. get d w'.deficits + quantum < 2 ^ 63) cs
            → Served D P done i quantum cs w'
                (turns D P done i quantum cs w').0
                (turns D P done i quantum cs w').1)
        → let r : World D P × Bool =
            if stopped then (w', true) else turns D P done i quantum cs w' in
          Served D P done i quantum (c ∷ cs) w r.0 r.1
    go w' true h ih = stopped-Served D P done i quantum c cs w w' small.0 h
    go w' false h ih =
        next-Served D P done i quantum c cs w w' (turns D P done i quantum cs w').0
          (turns D P done i quantum cs w').1 new.0 small.0 h (ih (small_after cs new.0 small.1))
      where
        small_after :
            (ds : List String)
            → All (λ d. d ≢ c) ds
            → All (λ d. get d w.deficits + quantum < 2 ^ 63) ds
            → All (λ d. get d w'.deficits + quantum < 2 ^ 63) ds
        small_after [] a s = tt
        small_after (d ∷ ds) a s = (
          omega (arith, s.0, h.others d a.0, start_others D P done i quantum c d w a.0),
          small_after ds a.1 s.1,
        )
