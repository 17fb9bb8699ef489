-- ===== src/Registry.antt =====
-- backend/worker/registry.go: the snapshots of the workers that the instances share by Redis. The
-- string keys of Redis and the two functions of encoding/json are interfaces.
pub mod Panel
use Prim.Native.Char.{code}
use Prim.Native.String.{◌++◌ as text_append}
use Prim.Native.String as Text
use text.Mathlib.Text.{starts_with}
use task_execution_engine.Prelude.{
  ℕ, ltb, ◌==◌, str_eq, ◌≡◌, Bool, true, false, ◌&&◌, ◌||◌, String, Option, none, some, any,
  if◌then◌else◌, List, [], ◌∷◌,
}
use task_execution_engine.Worker.{WorkerState, WorkerStatus, worker_states}

pub record InstanceWorkers : Type 0 where
  pub instance_id : String
  pub workers : List WorkerStatus

abbrev pub worker_key_prefix : String
worker_key_prefix = "workers:"

-- In milliseconds.
abbrev pub heartbeat_ttl : ℕ
heartbeat_ttl = 6000

-- json.Marshal and json.Unmarshal of a snapshot.
pub record Snapshots : Type 0 where
  pub marshal : InstanceWorkers → Option String
  pub unmarshal : String → Option InstanceWorkers
  pub unmarshal_law :
      (i : InstanceWorkers) (text : String) → marshal i ≡ some text → unmarshal text ≡ some i

-- The string keys that are alive. KEYS lists those of a prefix; a command may fail.
pub record KeyValues (Store : Type 0) : Type 0 where
  pub contents : Store → String → Option String
  pub keys : String → Store → Option (List String)
  pub keys_law :
      (prefix : String) (s : Store) (ks : List String)
      → keys prefix s ≡ some ks
      → (k : String)
      → (any (str_eq k) ks ≡ true → starts_with k prefix ≡ true)
        × ((v : String)
            → contents s k ≡ some v
            → starts_with k prefix ≡ true
            → any (str_eq k) ks ≡ true)
  pub get : String → Store → Option String
  pub get_law : (k : String) (s : Store) (v : String) → get k s ≡ some v → contents s k ≡ some v
  pub set : String → String → ℕ → Store → Store × Bool
  pub set_law :
      (k v : String) (ttl : ℕ) (s : Store)
      → let (s', done) = set k v ttl s in
        (done ≡ true → contents s' k ≡ some v)
        × ((j : String) → str_eq j k ≡ false → contents s' j ≡ contents s j)
  pub del : String → Store → Store × Bool
  pub del_law :
      (k : String) (s : Store)
      → let (s', done) = del k s in
        (done ≡ true → contents s' k ≡ none)
        × ((j : String) → str_eq j k ≡ false → contents s' j ≡ contents s j)

-- `<` on strings.
unfoldable pub text_lt : String → String → Bool
text_lt s Text.[] = false
text_lt Text.[] (Text.◌∷◌ d t) = true
text_lt (Text.◌∷◌ c s) (Text.◌∷◌ d t) = ltb (code c) (code d) || (code c == code d && text_lt s t)

-- sort.Slice by the instance.
unfoldable pub insert : InstanceWorkers → List InstanceWorkers → List InstanceWorkers
unfolding text_lt
insert i [] = i ∷ []
insert i (j ∷ js) = if text_lt j.instance_id i.instance_id then j ∷ insert i js else i ∷ j ∷ js

unfoldable pub sort : List InstanceWorkers → List InstanceWorkers
unfolding insert
sort [] = []
sort (i ∷ is) = insert i (sort is)

abbrev pub key_of : String → String
key_of instance_id = text_append worker_key_prefix instance_id

-- The states of the pool's workers, whose ids start with 1.
abbrev pub snapshot_of : String → ℕ → List WorkerState → InstanceWorkers
snapshot_of instance_id now states = record {
  instance_id = instance_id;
  workers = worker_states now 1 states;
}

module _ {Store : Type 0} (K : KeyValues Store) (N : Snapshots) where
  unfoldable pub write_snapshot : String → Option String → Store → Store
  write_snapshot instance_id none s = s
  write_snapshot instance_id (some text) s = (K.set (key_of instance_id) text heartbeat_ttl s).0

  unfoldable pub publish : String → ℕ → List WorkerState → Store → Store
  unfolding write_snapshot
  publish instance_id now states s =
      write_snapshot instance_id (N.marshal (snapshot_of instance_id now states)) s

  -- What Stop does to Redis.
  unfoldable pub withdraw : String → Store → Store
  withdraw instance_id s = (K.del (key_of instance_id) s).0

  unfoldable pub decoded : Option String → Option InstanceWorkers
  decoded none = none
  decoded (some text) = N.unmarshal text

  unfoldable pub keep : Option InstanceWorkers → List InstanceWorkers → List InstanceWorkers
  keep none is = is
  keep (some i) is = i ∷ is

  -- A key that is gone by now, or that does not decode, is left out.
  unfoldable pub read_all : List String → Store → List InstanceWorkers
  unfolding decoded keep
  read_all [] s = []
  read_all (k ∷ ks) s = keep (decoded (K.get k s)) (read_all ks s)

  unfoldable pub read_keys : Option (List String) → Store → Option (List InstanceWorkers)
  unfolding read_all sort
  read_keys none s = none
  read_keys (some ks) s = some (sort (read_all ks s))

  unfoldable pub all_instances : Store → Option (List InstanceWorkers)
  unfolding read_keys
  all_instances s = read_keys (K.keys worker_key_prefix s) s
