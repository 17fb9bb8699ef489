-- ===== src/Tests/Keys.antt =====
-- The statements on the keys of the tables in memory, and the demo tasks of a queue.
use task_execution_engine.Prelude.{
  ℕ, ◌+◌, ◌*◌, ◌≡◌, refl, inl, inr, Bool, true, false, String, none, List, [], ◌∷◌, ◌++◌, Memᴰ, map,
  length, any, filter, All, All_mono, str_eq, str_eq_iff, arith, if◌then◌else◌, Bool-cases,
}
use task_execution_engine.Models.{ApiKey, Tables}
use task_execution_engine.Database.Outcome.{Result, ok, err, record_not_found, Post, Faulted}
use task_execution_engine.Database.Program.{Ends}
use task_execution_engine.Database.Keys.{Keys, KeyNotFound, StoredKeys}
use task_execution_engine.Database.Memory.{Memory, NoFault, memory}
use task_execution_engine.TaskService.Demo.{add_demo_tasks}
use task_execution_engine.TaskService.Demo.Rows.{Added, add_demo_tasks-Added}
use task_execution_engine.Lifecycle.{
  Call, creates, adds_demo, claims, starts, fails, cancels, make_all,
}
use task_execution_engine.Lifecycle.Steps.{IsSound}
use task_execution_engine.Lifecycle.Letters.{make_all-IsSound}
use task_execution_engine.TaskService.{CreateTaskInput}
use task_execution_engine.Seed.{seed}
use task_execution_engine.Seed.Rows.{Seeded, PartlySeeded, seed-Seeded}
use task_execution_engine.Tests.Queue.{queue, other}

unfoldable pub first : (ApiKey → Bool) → List ApiKey → Result NoFault ApiKey
first p [] = err record_not_found
first p (k ∷ ks) = if p k then ok k else first p ks

pub first_lem :
    (p : ApiKey → Bool) (T : Tables) (ks : List ApiKey)
    → ((k : ApiKey) → Memᴰ k ks → Memᴰ k T.api_keys)
    → (All (λ k. p k ≡ false) ks → All (λ k. p k ≡ false) T.api_keys)
    → Post (λ k T'. (T' ≡ T) × Memᴰ k T.api_keys × (p k ≡ true)) (KeyNotFound T p) (first p ks) T
unfolding first
first_lem p T [] m a = (refl, a tt)
first_lem p T (k ∷ ks) m a = elim (Bool-cases (p k)) [
  | inl e ↦ rw e (refl, m k (Memᴰ.head refl), e)
  | inr e ↦ rw e (first_lem p T ks (λ j q. m j (Memᴰ.tail q)) (λ h. a (e, h)))
]

module _ (p : ApiKey → Bool) where
  pub plucked_sound :
      (T : Tables) (ks : List ApiKey)
      → ((k : ApiKey) → Memᴰ k ks → Memᴰ k T.api_keys)
      → All
          (λ c. (k : ApiKey) × Memᴰ k T.api_keys × (p k ≡ true) × (k.client_id ≡ c))
          (map (λ k. k.client_id) (filter p ks))
  plucked_sound T [] m = tt
  plucked_sound T (k ∷ ks) m = elim (Bool-cases (p k)) [
    | inl e ↦
        rw e ((k, m k (Memᴰ.head refl), e, refl), plucked_sound T ks (λ j q. m j (Memᴰ.tail q)))
    | inr e ↦ rw e (plucked_sound T ks (λ j q. m j (Memᴰ.tail q)))
  ]

  abbrev pub clients : List ApiKey → List String
  clients ks = map (λ k. k.client_id) (filter p ks)

  clients-grow :
      (k : ApiKey) (ks : List ApiKey) (c : String)
      → any (str_eq c) (clients ks) ≡ true
      → any (str_eq c) (clients (k ∷ ks)) ≡ true
  clients-grow k ks c h = ground arith

  pub plucked_complete :
      (ks : List ApiKey) → All (λ k. p k ≡ true → any (str_eq k.client_id) (clients ks) ≡ true) ks
  plucked_complete [] = tt
  plucked_complete (k ∷ ks) = (
    λ e. ground (arith, str_eq_iff k.client_id k.client_id),
    All_mono _ _ ks (λ j h e. clients-grow k ks j.client_id (h e)) (plucked_complete ks),
  )

abbrev pub stored : List ApiKey → List ApiKey
stored [] = []
stored (k ∷ ks) = record k { active = true } ∷ stored ks

pub stored-StoredKeys : (ks : List ApiKey) → StoredKeys ks (stored ks)
stored-StoredKeys [] = tt
stored-StoredKeys (k ∷ ks) = (refl, stored-StoredKeys ks)

abbrev pub keys : Keys memory
keys = record {
  first_key = λ p db. (db, first p db.tables.api_keys);
  first_key_law = λ p db. first_lem p db.tables db.tables.api_keys (λ k m. m) (λ h. h);
  pluck_clients = λ p db. (db, ok (clients p db.tables.api_keys));
  pluck_clients_law = λ p db. (
    refl,
    record {
      sound = plucked_sound p db.tables db.tables.api_keys (λ k m. m);
      complete = plucked_complete p db.tables.api_keys;
    },
  );
  count_keys = λ db. (db, ok (length db.tables.api_keys));
  count_keys_law = λ db. (refl, refl);
  insert_keys = λ ks db. (
    record db { tables = record db.tables { api_keys = db.tables.api_keys ++ stored ks } },
    ok (stored ks),
  );
  insert_keys_law = λ ks db. (refl, stored-StoredKeys ks);
}

abbrev key_of : ℕ → String → String → ApiKey
key_of id api_key client_id = record {
  id = id;
  api_key = api_key;
  client_id = client_id;
  client_name = client_id;
  active = true;
  created_at = 1;
}

-- The queue, with a key for each of its clients.
abbrev pub with_keys : Memory
with_keys = record queue {
  tables = record queue.tables {
    api_keys = key_of 1 "key-alpha" "alpha" ∷ key_of 2 "key-beta" "beta" ∷ [];
  };
}

add_demo_tasks_example :
    Ends memory
      (λ _. Added with_keys.tables 3)
      (Faulted with_keys.tables)
      (add_demo_tasks memory keys (λ k. k + 7) 3 with_keys)
add_demo_tasks_example = add_demo_tasks-Added memory keys (λ k. k + 7) 3 with_keys

-- Two tasks: the first fails for good, the other is cancelled.
abbrev once_only : CreateTaskInput
once_only = record { task_type = "send_sms"; priority = 4; payload = "{}"; max_retries = none }

abbrev calls : List Call
calls =
    creates "beta" once_only
    ∷ creates "alpha" once_only
    ∷ claims "beta" "backend-1"
    ∷ starts 5 1
    ∷ fails 6 (record other { id = 1 }) "timeout"
    ∷ cancels 7 "alpha" 3
    ∷ adds_demo (λ k. k) 2
    ∷ []

abbrev no_tasks : Memory
no_tasks = record with_keys { tables = record with_keys.tables { tasks = [] } }

make_all-IsSound_example : IsSound (make_all memory keys calls no_tasks).tables
make_all-IsSound_example = make_all-IsSound memory keys calls no_tasks refl

-- The same with no key.
abbrev unseeded : Memory
unseeded = record queue { tables = record { tasks = []; dead_letters = []; api_keys = [] } }

seed-Seeded_example :
    Ends memory
      (λ _ T'. Seeded unseeded.tables T')
      (λ _ T'. PartlySeeded unseeded.tables T')
      (seed (λ i. 50000000 + i) (λ k. k * k) (λ i. "{}") memory keys unseeded)
seed-Seeded_example = seed-Seeded (λ i. 50000000 + i) (λ k. k * k) (λ i. "{}") memory keys unseeded
