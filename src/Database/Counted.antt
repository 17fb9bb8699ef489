-- ===== src/Database/Counted.antt =====
-- What RowsAffected says of an update that can match one row at most.
use task_execution_engine.Prelude.{
  ℕ, suc, ◌≤◌, ◌≡◌, ◌≢◌, refl, sym, ◌∙◌, inl, inr, Bool, true, false, List, [], ◌∷◌, Memᴰ, arith,
  Bool-cases, All, count,
}
use task_execution_engine.Models.{Task}
use task_execution_engine.Database.Rows.{IsKeyed, update_row, update_rows}

pub count-mem :
    (p : Task → Bool) (ts : List Task) (n : ℕ)
    → count p ts ≡ suc n
    → (t : Task) × Memᴰ t ts × (p t ≡ true)
count-mem p [] n h = absurd (omega arith)
count-mem p (t ∷ ts) n h = elim (Bool-cases (p t)) [
  | inl e ↦ (t, Memᴰ.head refl, e)
  | inr e ↦ let (u, m, q) = count-mem p ts n (rw e at h) in (u, Memᴰ.tail m, q)
]

pub count_zero : (p : Task → Bool) (ts : List Task) → count p ts ≡ 0 → All (λ t. p t ≡ false) ts
count_zero p [] h = tt
count_zero p (t ∷ ts) h = ground (arith, count_zero p ts)

-- An update that matches nothing changes nothing.
pub update_rows_none :
    (p : Task → Bool) (f : Task → Task) (ts : List Task)
    → All (λ t. p t ≡ false) ts
    → update_rows p f ts ≡ ts
unfolding update_rows update_row
update_rows_none p f [] a = refl
update_rows_none p f (t ∷ ts) a = ground (arith, update_rows_none p f ts a.1)

count_other :
    (p : Task → Bool) (k : ℕ) (ts : List Task)
    → ((t : Task) → p t ≡ true → t.id ≡ k)
    → All (λ t. t.id ≢ k) ts
    → count p ts ≡ 0
count_other p k [] h a = refl
count_other p k (t ∷ ts) h a = ground (arith, h t, count_other p k ts h a.1)

-- Under a primary key, a test that fixes the id passes once at most.
pub count_le_one :
    (p : Task → Bool) (k : ℕ) (ts : List Task)
    → ((t : Task) → p t ≡ true → t.id ≡ k)
    → IsKeyed ts
    → count p ts ≤ 1
count_le_one p k [] h key = omega arith
count_le_one p k (t ∷ ts) h key = elim (Bool-cases (p t)) [
  | inl e ↦ rw e (omega (arith, count_other p t.id ts (λ u q. h u q ∙ sym (h t e)) key.0))
  | inr e ↦ rw e (count_le_one p k ts h key.1)
]
