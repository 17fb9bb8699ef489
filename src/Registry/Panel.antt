-- ===== src/Registry/Panel.antt =====
-- What AllInstances of backend/worker/registry.go shows, and that it shows what publish wrote.
use Prim.Native.String as Text
use text.Mathlib.Text.{starts_with}
use text.Mathlib.TextPositions.{starts_with-append}
use task_execution_engine.Prelude.{
  ℕ, ◌≡◌, refl, subst, inl, inr, true, false, String, Option, none, some, List, [], ◌∷◌, Memᴰ, All,
  any, str_eq, str_eq_iff, arith, Bool-cases, Option-cases,
}
use task_execution_engine.Worker.{WorkerState}
use task_execution_engine.Registry.{
  InstanceWorkers, snapshot_of, Snapshots, KeyValues, worker_key_prefix, heartbeat_ttl, key_of,
  text_lt, insert, sort, publish, write_snapshot, decoded, keep, read_all, read_keys, all_instances,
}

text_lt_asym : (s t : String) → text_lt s t ≡ true → text_lt t s ≡ false
unfolding text_lt
text_lt_asym Text.[] Text.[] h = refl
text_lt_asym Text.[] (Text.◌∷◌ d t) h = refl
text_lt_asym (Text.◌∷◌ c s) Text.[] h = cc
text_lt_asym (Text.◌∷◌ c s) (Text.◌∷◌ d t) h = ground (arith, text_lt_asym s t)

-- What is not below y, which is not below z, is not below z.
text_lt-false : (x y z : String) → text_lt x y ≡ false → text_lt y z ≡ false → text_lt x z ≡ false
unfolding text_lt
text_lt-false x y Text.[] h k = refl
text_lt-false x Text.[] (Text.◌∷◌ e u) h k = cc
text_lt-false Text.[] (Text.◌∷◌ d t) (Text.◌∷◌ e u) h k = cc
text_lt-false (Text.◌∷◌ c s) (Text.◌∷◌ d t) (Text.◌∷◌ e u) h k = ground (arith, text_lt-false s t u)

-- By instance, ascending.
abbrev pub IsOrdered : List InstanceWorkers → Type 0
IsOrdered [] = Unit {0}
IsOrdered (i ∷ is) = All (λ j. text_lt j.instance_id i.instance_id ≡ false) is × IsOrdered is

All-insert :
    (P : InstanceWorkers → Type 0) (i : InstanceWorkers) (is : List InstanceWorkers)
    → P i
    → All P is
    → All P (insert i is)
unfolding insert
All-insert P i [] h a = (h, tt)
All-insert P i (j ∷ js) h a = elim (Bool-cases (text_lt j.instance_id i.instance_id)) [
  | inl e ↦ rw e (a.0, All-insert P i js h a.1)
  | inr e ↦ rw e (h, a)
]

All-not_below :
    (i j : InstanceWorkers) (js : List InstanceWorkers)
    → text_lt j.instance_id i.instance_id ≡ false
    → All (λ x. text_lt x.instance_id j.instance_id ≡ false) js
    → All (λ x. text_lt x.instance_id i.instance_id ≡ false) js
All-not_below i j [] h a = tt
All-not_below i j (x ∷ js) h a =
    (text_lt-false x.instance_id j.instance_id i.instance_id a.0 h, All-not_below i j js h a.1)

insert-IsOrdered :
    (i : InstanceWorkers) (is : List InstanceWorkers) → IsOrdered is → IsOrdered (insert i is)
unfolding insert
insert-IsOrdered i [] h = (tt, tt)
insert-IsOrdered i (j ∷ js) h = elim (Bool-cases (text_lt j.instance_id i.instance_id)) [
  | inl e ↦ rw e (
    All-insert (λ x. text_lt x.instance_id j.instance_id ≡ false) i js
        (text_lt_asym j.instance_id i.instance_id e) h.0,
    insert-IsOrdered i js h.1,
  )
  | inr e ↦ rw e ((e, All-not_below i j js e h.0), h)
]

sort-IsOrdered : (is : List InstanceWorkers) → IsOrdered (sort is)
unfolding sort
sort-IsOrdered [] = tt
sort-IsOrdered (i ∷ is) = insert-IsOrdered i (sort is) (sort-IsOrdered is)

All-sort : (P : InstanceWorkers → Type 0) (is : List InstanceWorkers) → All P is → All P (sort is)
unfolding sort
All-sort P [] h = tt
All-sort P (i ∷ is) h = All-insert P i (sort is) h.0 (All-sort P is h.1)

mem-insert_self : (i : InstanceWorkers) (is : List InstanceWorkers) → Memᴰ i (insert i is)
unfolding insert
mem-insert_self i [] = Memᴰ.head refl
mem-insert_self i (j ∷ js) = elim (Bool-cases (text_lt j.instance_id i.instance_id)) [
  | inl e ↦ rw e (Memᴰ.tail (mem-insert_self i js))
  | inr e ↦ rw e (Memᴰ.head refl)
]

mem-insert :
    (i : InstanceWorkers) (is : List InstanceWorkers) {x : InstanceWorkers}
    → Memᴰ x is
    → Memᴰ x (insert i is)
unfolding insert
mem-insert i [] m = Memᴰ.tail m
mem-insert i (j ∷ js) (Memᴰ.head q) = elim (Bool-cases (text_lt j.instance_id i.instance_id)) [
  | inl e ↦ rw e (Memᴰ.head q)
  | inr e ↦ rw e (Memᴰ.tail (Memᴰ.head q))
]
mem-insert i (j ∷ js) (Memᴰ.tail m) = elim (Bool-cases (text_lt j.instance_id i.instance_id)) [
  | inl e ↦ rw e (Memᴰ.tail (mem-insert i js m))
  | inr e ↦ rw e (Memᴰ.tail (Memᴰ.tail m))
]

mem-sort : (is : List InstanceWorkers) {x : InstanceWorkers} → Memᴰ x is → Memᴰ x (sort is)
unfolding sort
mem-sort [] m = elim m [ ]
mem-sort (i ∷ is) (Memᴰ.head q) = rw q (mem-insert_self i (sort is))
mem-sort (i ∷ is) (Memᴰ.tail m) = mem-insert i (sort is) (mem-sort is m)

module _ {Store : Type 0} (K : KeyValues Store) (N : Snapshots) (s : Store) where
  -- An entry of the panel: the snapshot under a key that is alive.
  pub record IsShown (i : InstanceWorkers) : Type 0 where
    pub key : String
    pub text : String
    pub prefixed : starts_with key worker_key_prefix ≡ true
    pub alive : K.contents s key ≡ some text
    pub snapshot : N.unmarshal text ≡ some i

  -- Ordered by instance; nothing but snapshots under live keys, and each one that can be read.
  pub record IsPanel (out : List InstanceWorkers) : Type 0 where
    pub ordered : IsOrdered out
    pub shown : All IsShown out
    pub complete :
        (key text : String) (i : InstanceWorkers)
        → starts_with key worker_key_prefix ≡ true
        → K.get key s ≡ some text
        → N.unmarshal text ≡ some i
        → Memᴰ i out

  read_all-IsShown :
      (ks : List String)
      → ((k : String) → any (str_eq k) ks ≡ true → starts_with k worker_key_prefix ≡ true)
      → All IsShown (read_all K N ks s)
  unfolding read_all decoded keep
  read_all-IsShown [] h = tt
  read_all-IsShown (k ∷ ks) h =
      kept (K.get k s) refl (read_all-IsShown ks (λ j e. h j (ground (arith, e))))
    where
      kept :
          (o : Option String)
          → K.get k s ≡ o
          → All IsShown (read_all K N ks s)
          → All IsShown (keep K N (decoded K N o) (read_all K N ks s))
      kept none e ih = ih
      kept (some text) e ih = elim (Option-cases (N.unmarshal text)) [
        | inl d ↦ rw d ih
        | inr (i, d) ↦ rw d (
          record {
            key = k;
            text = text;
            prefixed = h k (ground (arith, str_eq_iff k k));
            alive = K.get_law k s text e;
            snapshot = d;
          },
          ih,
        )
      ]

  mem-keep :
      (o : Option InstanceWorkers) (is : List InstanceWorkers) {x : InstanceWorkers}
      → Memᴰ x is
      → Memᴰ x (keep K N o is)
  unfolding keep
  mem-keep none is m = m
  mem-keep (some i) is m = Memᴰ.tail m

  read_all_complete :
      (ks : List String) (key text : String) (i : InstanceWorkers)
      → any (str_eq key) ks ≡ true
      → K.get key s ≡ some text
      → N.unmarshal text ≡ some i
      → Memᴰ i (read_all K N ks s)
  unfolding read_all decoded keep
  read_all_complete [] key text i h g d = absurd (never h)
    where
      never : false ≡ true → ⊥
      never e = cc
  read_all_complete (k ∷ ks) key text i h g d = elim (Bool-cases (str_eq key k)) [
    | inl e ↦
        let same : key ≡ k = (str_eq_iff key k).0 e in rw (← same) (rw g (rw d (Memᴰ.head refl)))
    | inr e ↦
        mem-keep (decoded K N (K.get k s)) (read_all K N ks s)
          (read_all_complete ks key text i (rw e at h) g d)
  ]

  read_keys-IsPanel :
      (o : Option (List String)) (out : List InstanceWorkers)
      → K.keys worker_key_prefix s ≡ o
      → read_keys K N o s ≡ some out
      → IsPanel out
  unfolding read_keys
  read_keys-IsPanel none out e h = absurd (never h)
    where
      never : ◌≡◌ {A = Option (List InstanceWorkers)} none (some out) → ⊥
      never q = cc
  read_keys-IsPanel (some ks) out e h =
      let read = read_all K N ks s in
      let law = K.keys_law worker_key_prefix s ks e in
      subst IsPanel (some_injective h) (record {
        ordered = sort-IsOrdered read;
        shown = All-sort IsShown read (read_all-IsShown ks (λ k. (law k).0));
        complete = λ key text i p g d.
            mem-sort read
              (read_all_complete ks key text i ((law key).1 text (K.get_law key s text g) p) g d);
      })
    where
      some_injective : {x y : List InstanceWorkers} → some x ≡ some y → x ≡ y
      some_injective q = cc

-- If Redis answers, AllInstances returns the snapshots in the order of their instances: each is
-- stored under a live key with the prefix of the workers, and each that can be read from such a key
-- is among them.
pub all_instances-IsPanel :
    {Store : Type 0} (K : KeyValues Store) (N : Snapshots) (s : Store) (out : List InstanceWorkers)
    → all_instances K N s ≡ some out
    → IsPanel K N s out
unfolding all_instances
all_instances-IsPanel K N s out h = read_keys-IsPanel K N s (K.keys worker_key_prefix s) out refl h

-- After a publish whose SET was done, a list that Redis answers, with the instance's key still
-- readable, holds the instance's snapshot, as it was at the publish.
pub publish-all_instances :
    {Store : Type 0} (K : KeyValues Store) (N : Snapshots) (instance_id : String) (now : ℕ)
    (states : List WorkerState) (s : Store) (text read : String) (out : List InstanceWorkers)
    → N.marshal (snapshot_of instance_id now states) ≡ some text
    → (K.set (key_of instance_id) text heartbeat_ttl s).1 ≡ true
    → K.get (key_of instance_id) (publish K N instance_id now states s) ≡ some read
    → all_instances K N (publish K N instance_id now states s) ≡ some out
    → Memᴰ (snapshot_of instance_id now states) out
unfolding publish write_snapshot
publish-all_instances K N instance_id now states s text read out m done g h =
    let s' = (K.set (key_of instance_id) text heartbeat_ttl s).0 in
    let here : K.get (key_of instance_id) s' ≡ some read = rw m at g in
    let same : read ≡ text = ground (
      arith,
      K.get_law (key_of instance_id) s' read here,
      (K.set_law (key_of instance_id) text heartbeat_ttl s).0 done,
    ) in
    (all_instances-IsPanel K N s' out (rw m at h)).complete (key_of instance_id) text
      (snapshot_of instance_id now states) (starts_with-append worker_key_prefix instance_id)
      (rw same at here) (N.unmarshal_law _ text m)
