-- ===== src/Database/Memory/Insert.antt =====
-- New rows under fresh ids, and the distinct clients of a table.
use task_execution_engine.Prelude.{
  ℕ, suc, ◌+◌, ◌==◌, ◌<◌, ◌≤◌, ◌≡◌, ◌≢◌, refl, inl, inr, Bool, true, false, String, List, [], ◌∷◌,
  ◌++◌, Memᴰ, arith, if◌then◌else◌, Bool-cases, All, All_mono, All-append, str_eq, str_eq_iff, any,
}
use task_execution_engine.Models.{Task, with_defaults}
use task_execution_engine.Database.Laws.{AllStored, Stored, AllDistinct}
use task_execution_engine.Database.Rows.{IsKeyed}

-- An id above all of the table.
unfoldable pub next_id : List Task → ℕ
next_id [] = 1
next_id (t ∷ ts) = t.id + next_id ts

-- A row with an AUTO_INCREMENT id, and the clock's time where no creation time is given.
unfoldable pub store_row : ℕ → ℕ → Task → Task
store_row now n t = record (with_defaults t) {
  id = n;
  created_at = if t.created_at == 0 then now else t.created_at;
}

unfoldable pub store : ℕ → ℕ → List Task → List Task
unfolding store_row
store now n [] = []
store now n (t ∷ ts) = store_row now n t ∷ store now (suc n) ts

pub store_row-Stored : (now n : ℕ) (t : Task) → Stored t (store_row now n t)
unfolding store_row
store_row-Stored now n t = elim (Bool-cases (t.created_at == 0)) [ inl e ↦ rw e | inr e ↦ rw e ]

pub store-AllStored : (now n : ℕ) (ts : List Task) → AllStored ts (store now n ts)
unfolding store
store-AllStored now n [] = tt
store-AllStored now n (t ∷ ts) = (store_row-Stored now n t, store-AllStored now (suc n) ts)

below_next : (ts : List Task) → All (λ t. t.id < next_id ts) ts
unfolding next_id
below_next [] = tt
below_next (t ∷ ts) = (pos ts, All_mono _ _ ts (λ u h. omega arith) (below_next ts))
  where
    pos : (us : List Task) → t.id < t.id + next_id us
    pos [] = omega arith
    pos (u ∷ us) = omega (arith, pos us)

store-above : (now n : ℕ) (ts : List Task) → All (λ t. n ≤ t.id) (store now n ts)
unfolding store
store-above now n [] = tt
store-above now n (t ∷ ts) = (
  omega arith,
  All_mono _ _ (store now (suc n) ts) (λ u h. omega arith) (store-above now (suc n) ts),
)

store-IsKeyed : (now n : ℕ) (ts : List Task) → IsKeyed (store now n ts)
unfolding store
store-IsKeyed now n [] = tt
store-IsKeyed now n (t ∷ ts) = (
  All_mono _ _ (store now (suc n) ts) (λ u h. omega arith) (store-above now (suc n) ts),
  store-IsKeyed now (suc n) ts,
)

append-IsKeyed :
    (n : ℕ) (ts us : List Task)
    → IsKeyed ts
    → All (λ t. t.id < n) ts
    → IsKeyed us
    → All (λ t. n ≤ t.id) us
    → IsKeyed (ts ++ us)
append-IsKeyed n [] us k b l a = l
append-IsKeyed n (t ∷ ts) us k b l a = (
  All-append (λ u. u.id ≢ t.id) ts us k.0 (All_mono _ _ us (λ u h. omega arith) a),
  append-IsKeyed n ts us k.1 b.1 l a,
)

pub insert-IsKeyed :
    (now : ℕ) (ts us : List Task) → IsKeyed ts → IsKeyed (ts ++ store now (next_id ts) us)
insert-IsKeyed now ts us k =
    append-IsKeyed (next_id ts) ts (store now (next_id ts) us) k (below_next ts)
      (store-IsKeyed now (next_id ts) us) (store-above now (next_id ts) us)

add_client : String → List String → List String
add_client c cs = if any (str_eq c) cs then cs else c ∷ cs

-- The clients of the rows that pass, each once.
unfoldable pub clients_of : (Task → Bool) → List Task → List String
unfolding add_client
clients_of p [] = []
clients_of p (t ∷ ts) =
    let rest = clients_of p ts in if p t then add_client t.client_id rest else rest

not-any : (c : String) (cs : List String) → any (str_eq c) cs ≡ false → All (λ d. d ≢ c) cs
not-any c [] h = tt
not-any c (d ∷ cs) h = (ground (arith, str_eq_iff c d), not-any c cs (ground arith))

any-mem : (c : String) (cs : List String) → any (str_eq c) cs ≡ true → Memᴰ c cs
any-mem c [] h = cc
any-mem c (d ∷ cs) h = elim (Bool-cases (str_eq c d)) [
  | inl e ↦ Memᴰ.head ((str_eq_iff c d).0 e)
  | inr e ↦ Memᴰ.tail (any-mem c cs (ground arith))
]

pub clients_of-AllDistinct : (p : Task → Bool) (ts : List Task) → AllDistinct (clients_of p ts)
unfolding clients_of
clients_of-AllDistinct p [] = tt
clients_of-AllDistinct p (t ∷ ts) =
    ground (arith, clients_of-AllDistinct p ts, not-any t.client_id (clients_of p ts))

-- A client of a row that passes.
abbrev pub HasRow : (Task → Bool) → List Task → String → Type 0
HasRow p ts c = (t : Task) × Memᴰ t ts × (p t ≡ true) × (t.client_id ≡ c)

HasRow-cons :
    (p : Task → Bool) (t : Task) (ts : List Task) (c : String) → HasRow p ts c → HasRow p (t ∷ ts) c
HasRow-cons p t ts c (u, m, q, s) = (u, Memᴰ.tail m, q, s)

add_client-All :
    (P : String → Type 0) (c : String) (cs : List String) → P c → All P cs → All P (add_client c cs)
unfolding add_client
add_client-All P c cs h a = elim (Bool-cases (any (str_eq c) cs)) [
  | inl old ↦ rw old a
  | inr new ↦ rw new (h, a)
]

pub clients_of_sound : (p : Task → Bool) (ts : List Task) → All (HasRow p ts) (clients_of p ts)
unfolding clients_of
clients_of_sound p [] = tt
clients_of_sound p (t ∷ ts) =
    let later = All_mono _ _ (clients_of p ts) (HasRow-cons p t ts) (clients_of_sound p ts) in
    elim (Bool-cases (p t)) [
      | inl e ↦ rw e (
          add_client-All (HasRow p (t ∷ ts)) t.client_id (clients_of p ts)
            (t, Memᴰ.head refl, e, refl) later)
      | inr e ↦ rw e later
    ]

mem-add_client : (c : String) (cs : List String) → Memᴰ c (add_client c cs)
unfolding add_client
mem-add_client c cs = elim (Bool-cases (any (str_eq c) cs)) [
  | inl old ↦ rw old (any-mem c cs old)
  | inr new ↦ rw new (Memᴰ.head refl)
]

add_client-mem : (c : String) (cs : List String) {d : String} → Memᴰ d cs → Memᴰ d (add_client c cs)
unfolding add_client
add_client-mem c cs m = elim (Bool-cases (any (str_eq c) cs)) [
  | inl old ↦ rw old m
  | inr new ↦ rw new (Memᴰ.tail m)
]

clients_of-mem :
    (p : Task → Bool) (t : Task) (ts : List Task) {d : String}
    → Memᴰ d (clients_of p ts)
    → Memᴰ d (clients_of p (t ∷ ts))
unfolding clients_of
clients_of-mem p t ts m = elim (Bool-cases (p t)) [
  | inl e ↦ rw e (add_client-mem t.client_id (clients_of p ts) m)
  | inr e ↦ rw e m
]

pub clients_of_complete :
    (p : Task → Bool) (ts : List Task)
    → All (λ t. p t ≡ true → Memᴰ t.client_id (clients_of p ts)) ts
unfolding clients_of
clients_of_complete p [] = tt
clients_of_complete p (t ∷ ts) = (
  λ e. rw e (mem-add_client t.client_id (clients_of p ts)),
  All_mono _ _ ts (λ u f g. clients_of-mem p t ts (f g)) (clients_of_complete p ts),
)
