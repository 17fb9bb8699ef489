-- ===== src/Database/Rows.antt =====
-- What a statement does to the rows of the tasks table, and the row of an id.
use task_execution_engine.Prelude.{
  ℕ, ◌==◌, ◌≡◌, refl, sym, ap, subst, ◌≢◌, inl, inr, Bool, Option, none, some, List, [], ◌∷◌, map,
  Memᴰ, arith, if◌then◌else◌, All, All-mem, Bool-cases,
}
use mathlib.Core.Option as Opt
use task_execution_engine.Models.{Task, Status}

-- UPDATE … SET f WHERE p.
unfoldable pub update_row : (Task → Bool) → (Task → Task) → Task → Task
update_row p f t = if p t then f t else t

unfoldable pub update_rows : (Task → Bool) → (Task → Task) → List Task → List Task
update_rows p f ts = map (update_row p f) ts

-- The row with an id, as `WHERE id = ?` selects it.
unfoldable pub find : ℕ → List Task → Option Task
find i [] = none
find i (t ∷ ts) = if t.id == i then some t else find i ts

-- `WHERE id = ?`
unfoldable pub has_id : ℕ → Task → Bool
has_id i t = t.id == i

-- The ids are a primary key.
abbrev pub IsKeyed : List Task → Type 0
IsKeyed [] = Unit {0}
IsKeyed (t ∷ ts) = All (λ u. u.id ≢ t.id) ts × IsKeyed ts

-- The assignments of an UPDATE leave the id alone.
abbrev pub KeepsId : (Task → Task) → Type 0
KeepsId f = (t : Task) → (f t).id ≡ t.id

pub update_row-id :
    (p : Task → Bool) (f : Task → Task) (t : Task) → KeepsId f → (update_row p f t).id ≡ t.id
unfolding update_row
update_row-id p f t h = ground (arith, h t)

pub find-update_rows :
    (i : ℕ) (p : Task → Bool) (f : Task → Task) (ts : List Task)
    → KeepsId f
    → find i (update_rows p f ts) ≡ Opt.map (update_row p f) (find i ts)
unfolding find update_rows update_row
find-update_rows i p f [] h = refl
find-update_rows i p f (t ∷ ts) h = ground (arith, h t, find-update_rows i p f ts h)

-- An update by id changes the row of that id and no other.
pub find-update_id :
    (i j : ℕ) (f : Task → Task) (ts : List Task)
    → KeepsId f
    → find j (update_rows (has_id i) f ts) ≡ (if i == j then Opt.map f (find j ts) else find j ts)
unfolding find update_rows update_row has_id
find-update_id i j f [] h = ground arith
find-update_id i j f (t ∷ ts) h = ground (arith, h t, find-update_id i j f ts h)

-- The row of an id becomes what f makes of it, and no other row changes.
abbrev pub RowBecomes : ℕ → (Task → Task) → List Task → List Task → Type 0
RowBecomes i f ts ts' = (j : ℕ) → find j ts' ≡ (if i == j then Opt.map f (find j ts) else find j ts)

pub find-id : (i : ℕ) (ts : List Task) {t : Task} → find i ts ≡ some t → t.id ≡ i
unfolding find
find-id i [] e = cc
find-id i (u ∷ ts) {t} e = elim (Bool-cases (u.id == i)) [
  | inl h ↦ ground arith
  | inr h ↦ find-id i ts {t = t} (ground arith)
]

pub find-mem : (i : ℕ) (ts : List Task) {t : Task} → find i ts ≡ some t → Memᴰ t ts
unfolding find
find-mem i [] e = cc
find-mem i (u ∷ ts) {t} e = elim (Bool-cases (u.id == i)) [
  | inl h ↦ Memᴰ.head (ground arith)
  | inr h ↦ Memᴰ.tail (find-mem i ts (ground arith))
]

not-id-mem : (k : ℕ) (us : List Task) {t : Task} → All (λ v. v.id ≢ k) us → Memᴰ t us → t.id ≢ k
not-id-mem k us a m = All-mem (λ v. v.id ≢ k) us a m

pub mem-find : (ts : List Task) {t : Task} → IsKeyed ts → Memᴰ t ts → find t.id ts ≡ some t
unfolding find
mem-find [] k m = elim m [ ]
mem-find (u ∷ ts) {t} k (Memᴰ.head e) = ground arith
mem-find (u ∷ ts) {t} k (Memᴰ.tail m) = ground (arith, not-id-mem u.id ts k.0 m, mem-find ts k.1 m)

update_rows-fresh :
    (k : ℕ) (p : Task → Bool) (f : Task → Task) (ts : List Task)
    → KeepsId f
    → All (λ u. u.id ≢ k) ts
    → All (λ u. u.id ≢ k) (update_rows p f ts)
unfolding update_rows update_row
update_rows-fresh k p f [] h a = tt
update_rows-fresh k p f (t ∷ ts) h a = ground (arith, h t, update_rows-fresh k p f ts h a.1)

-- An update keeps the ids distinct.
pub update_rows-IsKeyed :
    (p : Task → Bool) (f : Task → Task) (ts : List Task)
    → KeepsId f
    → IsKeyed ts
    → IsKeyed (update_rows p f ts)
unfolding update_rows update_row
update_rows-IsKeyed p f [] h k = tt
update_rows-IsKeyed p f (t ∷ ts) h k = (
  subst (λ n. All (λ u. u.id ≢ n) (update_rows p f ts)) (sym (update_row-id p f t h))
      (update_rows-fresh t.id p f ts h k.0),
  update_rows-IsKeyed p f ts h k.1,
)

-- The status of the row with an id, if there is one.
unfoldable pub status_of : ℕ → List Task → Option Status
status_of i ts = Opt.map (λ t. t.status) (find i ts)

pub mem-status_of :
    (ts : List Task) {t : Task} → IsKeyed ts → Memᴰ t ts → status_of t.id ts ≡ some t.status
unfolding status_of
mem-status_of ts {t} k m = rw (mem-find ts {t = t} k m)

-- What an update by id that writes a fixed status does to the status of each row.
pub status_of-update_id :
    (i j : ℕ) (f : Task → Task) (s : Status) (ts : List Task)
    → KeepsId f
    → ((t : Task) → (f t).status ≡ s)
    → status_of j (update_rows (has_id i) f ts)
      ≡ (if i == j then Opt.map (λ _. s) (status_of j ts) else status_of j ts)
unfolding status_of
status_of-update_id i j f s ts k h =
    rw (find-update_id i j f ts k)
      (elim (Bool-cases (i == j)) [ inl e ↦ rw (e) (map_status (find j ts)) | inr e ↦ rw (e) ])
  where
    map_status :
        (o : Option Task)
        → Opt.map (λ (t : Task). t.status) (Opt.map f o)
          ≡ Opt.map (λ _. s) (Opt.map (λ (t : Task). t.status) o)
    map_status none = refl
    map_status (some t) = ap some (h t)
