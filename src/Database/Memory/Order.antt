-- ===== src/Database/Memory/Order.antt =====
-- The best row of a list by an ORDER BY clause.
use task_execution_engine.Prelude.{
  ◌≡◌, refl, sym, ap, subst, inl, inr, Bool, true, false, Option, none, some, List, [], ◌∷◌, Memᴰ,
  arith, if◌then◌else◌, Bool-cases, All, All_mono,
}
use task_execution_engine.Models.{Task}
use task_execution_engine.Database.Laws.{OrderBy, asc, desc, precedes}

precedes_irrefl : (o : OrderBy) (t : Task) → precedes o t t ≡ false
unfolding precedes
precedes_irrefl [] t = refl
precedes_irrefl ((asc, key) ∷ o) t = ground (arith, precedes_irrefl o t)
precedes_irrefl ((desc, key) ∷ o) t = ground (arith, precedes_irrefl o t)

precedes_trans :
    (o : OrderBy) (t u v : Task)
    → precedes o t u ≡ true
    → precedes o u v ≡ true
    → precedes o t v ≡ true
unfolding precedes
precedes_trans [] t u v h k = cc
precedes_trans ((asc, key) ∷ o) t u v h k = ground (arith, precedes_trans o t u v)
precedes_trans ((desc, key) ∷ o) t u v h k = ground (arith, precedes_trans o t u v)

choose : OrderBy → Task → Option Task → Task
choose o t none = t
choose o t (some b) = if precedes o t b then t else b

-- The first of the rows that pass and that no other such row precedes.
unfoldable pub best : (Task → Bool) → OrderBy → List Task → Option Task
unfolding choose
best p o [] = none
best p o (t ∷ ts) = let rest = best p o ts in if p t then some (choose o t rest) else rest

abbrev pub IsBest : (Task → Bool) → OrderBy → List Task → Option Task → Type 0
IsBest p o ts none = All (λ u. p u ≡ false) ts
IsBest p o ts (some t) =
    Memᴰ t ts × (p t ≡ true) × All (λ u. p u ≡ true → precedes o u t ≡ false) ts

not_before :
    (o : OrderBy) (u t b : Task)
    → precedes o t b ≡ true
    → precedes o u b ≡ false
    → precedes o u t ≡ false
not_before o u t b h k = ground (arith, precedes_trans o u t b)

module _ (p : Task → Bool) (o : OrderBy) (t : Task) (ts : List Task) where
  choose-IsBest :
      (r : Option Task) → IsBest p o ts r → p t ≡ true → IsBest p o (t ∷ ts) (some (choose o t r))
  unfolding choose
  choose-IsBest none h e = (
    Memᴰ.head refl,
    e,
    (λ _. precedes_irrefl o t, All_mono _ _ ts (λ u f g. ground (arith, f)) h),
  )
  choose-IsBest (some b) (m, q, a) e = elim (Bool-cases (precedes o t b)) [
    | inl first ↦
        subst (λ x. IsBest p o (t ∷ ts) (some x)) (ap (λ c. if c then t else b) (sym first))
          (
            Memᴰ.head refl,
            e,
            (λ _. precedes_irrefl o t, All_mono _ _ ts (λ u f g. not_before o u t b first (f g)) a),
          )
    | inr later ↦
        subst (λ x. IsBest p o (t ∷ ts) (some x)) (ap (λ c. if c then t else b) (sym later))
          (Memᴰ.tail m, q, (λ _. later, a))
  ]

  skip-IsBest : (r : Option Task) → IsBest p o ts r → p t ≡ false → IsBest p o (t ∷ ts) r
  skip-IsBest none h e = (e, h)
  skip-IsBest (some b) (m, q, a) e = (Memᴰ.tail m, q, ((λ g. ground arith), a))

pub best-IsBest : (p : Task → Bool) (o : OrderBy) (ts : List Task) → IsBest p o ts (best p o ts)
unfolding best
best-IsBest p o [] = tt
best-IsBest p o (t ∷ ts) = elim (Bool-cases (p t)) [
  | inl e ↦ rw e (choose-IsBest p o t ts (best p o ts) (best-IsBest p o ts) e)
  | inr e ↦ rw e (skip-IsBest p o t ts (best p o ts) (best-IsBest p o ts) e)
]
