-- ===== src/Tests/Heartbeats.antt =====
-- String keys in memory, and the heartbeat of an instance.
use text.Mathlib.Text.{starts_with}
use task_execution_engine.Prelude.{
  ◌≡◌, refl, inl, inr, ◌==◌, Bool, true, false, ◌&&◌, not, String, Option, none, some, List, [],
  ◌∷◌, Memᴰ, any, str_eq, str_eq_iff, arith, if◌then◌else◌, Bool-cases,
}
use task_execution_engine.Worker.{WorkerStatus, idle_state, worker_states}
use task_execution_engine.Registry.{
  InstanceWorkers, Snapshots, KeyValues, snapshot_of, publish, write_snapshot, all_instances,
  read_keys, read_all, decoded, keep, sort, insert,
}
use task_execution_engine.Registry.Panel.{IsPanel, all_instances-IsPanel, publish-all_instances}

abbrev Strings : Type 0
Strings = List (String × String)

pub look : Strings → String → Option String
look [] k = none
look ((j, v) ∷ s) k = if str_eq j k then some v else look s k

pub without : String → Strings → Strings
without k [] = []
without k ((j, v) ∷ s) = if str_eq j k then without k s else (j, v) ∷ without k s

pub listed : String → Strings → List String
listed prefix [] = []
listed prefix ((j, v) ∷ s) = if starts_with j prefix then j ∷ listed prefix s else listed prefix s

listed_sound :
    (prefix : String) (s : Strings) (k : String)
    → any (str_eq k) (listed prefix s) ≡ true
    → starts_with k prefix ≡ true
unfolding listed
listed_sound prefix [] k h = cc
listed_sound prefix ((j, v) ∷ s) k h = elim (Bool-cases (starts_with j prefix)) [
  | inl e ↦ elim (Bool-cases (str_eq k j)) [
    | inl q ↦ rw ((str_eq_iff k j).0 q) e
    | inr q ↦ listed_sound prefix s k (rw (e, q) at h)
  ]
  | inr e ↦ listed_sound prefix s k (rw e at h)
]

listed_complete :
    (prefix : String) (s : Strings) (k v : String)
    → look s k ≡ some v
    → starts_with k prefix ≡ true
    → any (str_eq k) (listed prefix s) ≡ true
unfolding listed look
listed_complete prefix [] k v h p = cc
listed_complete prefix ((j, w) ∷ s) k v h p =
    ground (arith, str_eq_iff j k, str_eq_iff k j, listed_complete prefix s k v)

look-without : (k j : String) (s : Strings) → str_eq j k ≡ false → look (without k s) j ≡ look s j
unfolding look without
look-without k j [] h = refl
look-without k j ((i, v) ∷ s) h =
    ground (arith, str_eq_iff i k, str_eq_iff i j, str_eq_iff j k, look-without k j s)

look-without_self : (k : String) (s : Strings) → look (without k s) k ≡ none
unfolding look without
look-without_self k [] = refl
look-without_self k ((i, v) ∷ s) = ground (arith, str_eq_iff i k, look-without_self k s)

abbrev write : String → String → Strings → Strings
write k v s = (k, v) ∷ without k s

look-write : (k v j : String) (s : Strings) → str_eq j k ≡ false → look (write k v s) j ≡ look s j
unfolding look
look-write k v j s h = ground (arith, str_eq_iff j k, str_eq_iff k j, look-without k j s)

look-write_self : (k v : String) (s : Strings) → look (write k v s) k ≡ some v
unfolding look
look-write_self k v s = ground (arith, str_eq_iff k k)

keys_law :
    (prefix : String) (s : Strings) (ks : List String)
    → some (listed prefix s) ≡ some ks
    → (k : String)
    → (any (str_eq k) ks ≡ true → starts_with k prefix ≡ true)
      × ((v : String) → look s k ≡ some v → starts_with k prefix ≡ true → any (str_eq k) ks ≡ true)
keys_law prefix s ks h k =
    let same : listed prefix s ≡ ks = cc in
    (
      λ e. listed_sound prefix s k (rw same e),
      λ v l p. rw (← same) (listed_complete prefix s k v l p),
    )

abbrev values : KeyValues Strings
values = record {
  contents = look;
  keys = λ prefix s. some (listed prefix s);
  keys_law = keys_law;
  get = λ k s. look s k;
  get_law = λ k s v h. h;
  set = λ k v ttl s. (write k v s, true);
  set_law = λ k v ttl s. (λ h. look-write_self k v s, λ j. look-write k v j s);
  del = λ k s. (without k s, true);
  del_law = λ k s. (λ h. look-without_self k s, λ j. look-without k j s);
}

abbrev idle_worker : WorkerStatus
idle_worker = record {
  id = 1;
  busy = false;
  task_id = 0;
  task_type = "";
  client_id = "";
  busy_ms = 0;
}

abbrev is_idle : WorkerStatus → Bool
is_idle w =
    w.id == 1
    && not w.busy
    && w.task_id == 0
    && str_eq w.task_type ""
    && str_eq w.client_id ""
    && w.busy_ms == 0

is_idle-eq : (w : WorkerStatus) → is_idle w ≡ true → w ≡ idle_worker
is_idle-eq w h = ground (arith, str_eq_iff w.task_type "", str_eq_iff w.client_id "")

-- The instance with one idle worker is written as its name; no other is written.
abbrev marshal_workers : String → List WorkerStatus → Option String
marshal_workers name (w ∷ []) = if is_idle w then some name else none
marshal_workers name ws = none

abbrev idle_instance : String → InstanceWorkers
idle_instance name = record { instance_id = name; workers = idle_worker ∷ [] }

unmarshal_law :
    (name : String) (ws : List WorkerStatus) (text : String)
    → marshal_workers name ws ≡ some text
    → ◌≡◌ {A = Option InstanceWorkers}
        (some (idle_instance text))
        (some (record { instance_id = name; workers = ws }))
unmarshal_law name [] text h = cc
unmarshal_law name (w ∷ []) text h = elim (Bool-cases (is_idle w)) [
  | inl e ↦ rw (is_idle-eq w e) (named (rw e at h))
  | inr e ↦ absurd (never (rw e at h))
]
  where
    named :
        some name ≡ some text
        → ◌≡◌ {A = Option InstanceWorkers} (some (idle_instance text)) (some (idle_instance name))
    named q = cc

    never : none ≡ some text → ⊥
    never q = cc
unmarshal_law name (w ∷ v ∷ ws) text h = cc

abbrev snapshots : Snapshots
snapshots = record {
  marshal = λ i. marshal_workers i.instance_id i.workers;
  unmarshal = λ text. some (idle_instance text);
  unmarshal_law = λ i text h. unmarshal_law i.instance_id i.workers text h;
}

-- Another instance is alive, and a key that is none of the panel's.
abbrev alive : Strings
alive = ("workers:backend-1", "backend-1") ∷ ("ratelimit:alpha", "x") ∷ []

abbrev panel : List InstanceWorkers
panel = idle_instance "backend-1" ∷ idle_instance "backend-2" ∷ []

all_instances_example : IsPanel values snapshots alive (idle_instance "backend-1" ∷ [])
unfolding all_instances read_keys read_all decoded keep sort insert listed look str_eq
all_instances_example =
    all_instances-IsPanel values snapshots alive (idle_instance "backend-1" ∷ []) refl

publish-all_instances_example : Memᴰ (snapshot_of "backend-2" 5 (idle_state ∷ [])) panel
unfolding publish write_snapshot all_instances read_keys read_all decoded keep sort insert listed
    look without worker_states str_eq
publish-all_instances_example =
    publish-all_instances values snapshots "backend-2" 5 (idle_state ∷ []) alive "backend-2"
      "backend-2" panel refl refl refl refl
