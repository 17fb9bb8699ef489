-- ===== src/Hub/Isolation.antt =====
-- Runs of the hub of backend/sse/hub.go, and what one publication does to the connections.
use task_execution_engine.Prelude.{
  ℕ, ◌==◌, ◌≤◌, ◌<◌, ltb, ◌≡◌, ◌≢◌, ◌⊎◌, refl, sym, inl, inr, not, String, Option, none, some, List,
  [], ◌∷◌, ◌++◌, map, arith, str_eq, str_eq_iff, length, length-append, any, All, All-append,
  All-filter, if◌then◌else◌, Bool-cases,
}
use task_execution_engine.Hub.{
  Event, Subscriber, Hub, capacity, new_hub, subscribe, unsubscribe, offer, new_event, tail,
  read_from, publish_task_event,
}

-- What holds of a connection: its channel is within its capacity, and each event in it is of a task
-- of the client that the connection was opened for.
pub record IsOwn (s : Subscriber) : Type 0 where
  pub bounded : length s.buffer ≤ capacity
  pub own : All (λ e. e.client_id ≡ s.client_id) s.buffer

abbrev pub IsIsolated : Hub → Type 0
IsIsolated h = All IsOwn h.subs

-- What the connections and the workers do to the hub, one after the other.
pub data Call : Type 0 where
  subscribes : String → Call
  unsubscribes : ℕ → Call
  publishes : ℕ → String → ℕ → String → String → Call
  reads : ℕ → Call

-- A second close is a panic, after which the process is gone; the hub then stays as it was.
or_else : Hub → Option Hub → Hub
or_else h none = h
or_else h (some h') = h'

unfoldable pub step : Hub → Call → Hub
unfolding or_else
step h (subscribes client_id) = (subscribe h client_id).0
step h (unsubscribes i) = or_else h (unsubscribe h i)
step h (publishes now event_type task_id client_id status) =
    publish_task_event h now event_type task_id client_id status
step h (reads i) = record h { subs = map (read_from i) h.subs }

unfoldable pub run : Hub → List Call → Hub
run h [] = h
run h (c ∷ cs) = run (step h c) cs

-- An event of the connection's client is sent if there is room, and dropped if there is none.
offer-IsOwn : (e : Event) (s : Subscriber) → IsOwn s → IsOwn (offer e s)
unfolding offer
offer-IsOwn e s h = elim (Bool-cases (str_eq s.client_id e.client_id)) [
  | inl same ↦ rw same (elim (Bool-cases (ltb (length s.buffer) capacity)) [
    | inl room ↦ rw room (record {
      bounded = ground (arith, h.bounded, room, length-append s.buffer (e ∷ []));
      own =
          All-append (λ d. d.client_id ≡ s.client_id) s.buffer (e ∷ []) h.own
            (sym ((str_eq_iff s.client_id e.client_id).0 same), tt);
    })
    | inr full ↦ rw full h
  ])
  | inr different ↦ rw different h
]

tail_own :
    (c : String) (es : List Event)
    → All (λ e. e.client_id ≡ c) es
    → All (λ e. e.client_id ≡ c) (tail es)
unfolding tail
tail_own c [] h = tt
tail_own c (e ∷ es) h = h.1

length-tail : (es : List Event) → length (tail es) ≤ length es
unfolding tail
length-tail [] = omega arith
length-tail (e ∷ es) = omega arith

read_from-IsOwn : (i : ℕ) (s : Subscriber) → IsOwn s → IsOwn (read_from i s)
unfolding read_from
read_from-IsOwn i s h = elim (Bool-cases (s.handle == i)) [
  | inl e ↦ rw e (record {
    bounded = omega (arith, length-tail s.buffer, h.bounded);
    own = tail_own s.client_id s.buffer h.own;
  })
  | inr e ↦ rw e h
]

All-map :
    (f : Subscriber → Subscriber) (ss : List Subscriber)
    → ((s : Subscriber) → IsOwn s → IsOwn (f s))
    → All IsOwn ss
    → All IsOwn (map f ss)
All-map f [] h a = tt
All-map f (s ∷ ss) h a = (h s a.0, All-map f ss h a.1)

step-IsIsolated : (h : Hub) (c : Call) → IsIsolated h → IsIsolated (step h c)
unfolding step subscribe unsubscribe publish_task_event
step-IsIsolated h (subscribes client_id) own = (record { bounded = omega arith; own = tt }, own)
step-IsIsolated h (unsubscribes i) own = elim (Bool-cases (any (λ j. j == i) h.closed)) [
  | inl twice ↦ rw twice own
  | inr once ↦ rw once (All-filter IsOwn (λ s. not (s.handle == i)) h.subs own)
]
step-IsIsolated h (publishes now event_type task_id client_id status) own =
    All-map (offer (new_event now event_type task_id client_id status)) h.subs
      (offer-IsOwn (new_event now event_type task_id client_id status)) own
step-IsIsolated h (reads i) own = All-map (read_from i) h.subs (read_from-IsOwn i) own

run-from-IsIsolated : (h : Hub) (cs : List Call) → IsIsolated h → IsIsolated (run h cs)
unfolding run
run-from-IsIsolated h [] own = own
run-from-IsIsolated h (c ∷ cs) own = run-from-IsIsolated (step h c) cs (step-IsIsolated h c own)

-- Whatever connections come and go, whatever is published and read, no channel of the hub holds an
-- event of another client's task, and none holds more than its 16 events.
pub run-IsIsolated : (cs : List Call) → IsIsolated (run new_hub cs)
unfolding new_hub
run-IsIsolated cs = run-from-IsIsolated new_hub cs tt

-- The buffer of a connection, if it is registered.
unfoldable pub find_sub : ℕ → List Subscriber → Option Subscriber
find_sub i [] = none
find_sub i (s ∷ ss) = if s.handle == i then some s else find_sub i ss

-- What a publication owes to one connection.
abbrev pub Receives : Event → Subscriber → Subscriber → Type 0
Receives e s s' =
    ((s.client_id ≡ e.client_id)
      × (length s.buffer < capacity)
      × (s' ≡ record s { buffer = s.buffer ++ e ∷ [] }))
    ⊎ (((s.client_id ≢ e.client_id) ⊎ (capacity ≤ length s.buffer)) × (s' ≡ s))

offer-Receives : (e : Event) (s : Subscriber) → Receives e s (offer e s)
unfolding offer
offer-Receives e s = elim (Bool-cases (str_eq s.client_id e.client_id)) [
  | inl same ↦
      let eq = (str_eq_iff s.client_id e.client_id).0 same in
      rw same (elim (Bool-cases (ltb (length s.buffer) capacity)) [
        | inl room ↦ inl (eq, ground arith, rw room)
        | inr full ↦ inr (inr (ground arith), rw full)
      ])
  | inr different ↦
      rw different
        (inr (inl (λ e'. ground (arith, different, str_eq_iff s.client_id e.client_id, e')), refl))
]

offer-handle : (e : Event) (s : Subscriber) → (offer e s).handle ≡ s.handle
unfolding offer
offer-handle e s = ground arith

find_sub-offer :
    (i : ℕ) (e : Event) (ss : List Subscriber) {s : Subscriber}
    → find_sub i ss ≡ some s
    → find_sub i (map (offer e) ss) ≡ some (offer e s)
unfolding find_sub
find_sub-offer i e [] h = cc
find_sub-offer i e (u ∷ ss) {s} h = elim (Bool-cases (u.handle == i)) [
  | inl here ↦ ground (arith, offer-handle e u)
  | inr later ↦ ground (arith, offer-handle e u, find_sub-offer i e ss {s = s} (ground arith))
]

-- A publication reaches every registered connection of the task's client that has room, as the last
-- event of its channel; every other connection keeps its channel as it is.
pub publish_task_event-Receives :
    (h : Hub) (now : ℕ) (event_type : String) (task_id : ℕ) (client_id status : String) (i : ℕ)
    (s : Subscriber)
    → find_sub i h.subs ≡ some s
    → (s' : Subscriber) × (find_sub i
          (publish_task_event h now event_type task_id client_id status).subs
        ≡ some s')
      × Receives
          (record {
            event_type = event_type;
            task_id = task_id;
            client_id = client_id;
            status = status;
            time = now;
          })
          s
          s'
unfolding publish_task_event
publish_task_event-Receives h now event_type task_id client_id status i s e =
    let ev = new_event now event_type task_id client_id status in
    (offer ev s, find_sub-offer i ev h.subs {s = s} e, offer-Receives ev s)
