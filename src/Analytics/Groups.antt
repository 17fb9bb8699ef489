-- ===== src/Analytics/Groups.antt =====
-- GROUP BY with COUNT(*): its result, and the sum of its counts.
use mathlib.Core.List.{Perm}
use task_execution_engine.Prelude.{
  ℕ, String, filter, str_eq, ◌+◌, ◌≡◌, ◌↔◌, ◌⊎◌, refl, sym, ap, ◌∙◌, inl, inr, Bool, true, false,
  ◌&&◌, List, [], ◌∷◌, map, Memᴰ, arith, All, count, any, if◌then◌else◌, Bool-cases,
}
use task_execution_engine.Models.{Task}

module _ {K : Type 0} where
  abbrev pub keys_of : List (K × ℕ) → List K
  keys_of rows = map (λ r. r.0) rows

  -- The counts of the groups, added up.
  unfoldable pub sum_counts : List (K × ℕ) → ℕ
  sum_counts [] = 0
  sum_counts ((k, n) ∷ rows) = n + sum_counts rows

  abbrev pub AllApart : (K → K → Bool) → List K → Type 0
  AllApart same [] = Unit {0}
  AllApart same (k ∷ ks) = All (λ j. same k j ≡ false) ks × AllApart same ks

-- SELECT key, COUNT(*) FROM tasks WHERE p GROUP BY key
pub record Grouped {K : Type 0} (same : K → K → Bool) (key : Task → K) (p : Task → Bool)
    (ts : List Task) (rows : List (K × ℕ)) : Type 0 where
  pub once : AllApart same (keys_of rows)
  pub counted : All (λ r. r.1 ≡ count (λ t. p t && same (key t) r.0) ts) rows
  pub inhabited : All (λ r. (t : Task) × Memᴰ t ts × (p t ≡ true) × (key t ≡ r.0)) rows
  pub complete : All (λ t. p t ≡ true → any (same (key t)) (keys_of rows) ≡ true) ts

-- FROM tasks WHERE p GROUP BY type: each group has the type of one of its rows
-- and all the rows that match with a type of the same weight.
pub record ByType (weight : String → String) (p : Task → Bool) (ts : List Task)
    (groups : List (String × List Task)) : Type 0 where
  pub once : AllApart (λ a b. str_eq (weight a) (weight b)) (map (λ g. g.0) groups)
  pub rows :
      All (λ g. Perm g.1 (filter (λ t. p t && str_eq (weight t.task_type) (weight g.0)) ts)) groups
  pub named : All (λ g. (t : Task) × Memᴰ t g.1 × (t.task_type ≡ g.0)) groups
  pub complete :
      All (λ t. p t ≡ true → any (λ g. str_eq (weight t.task_type) (weight g.0)) groups ≡ true) ts

-- The same test, on keys that it tells apart.
module _ {K : Type 0} (same : K → K → Bool)
    (same_iff : (a b : K) → (same a b ≡ true) ↔ (a ≡ b)) where
  tally : (K → ℕ) → List K → ℕ
  tally f [] = 0
  tally f (k ∷ ks) = f k + tally f ks

  tally-add : (f g : K → ℕ) (ks : List K) → tally (λ k. f k + g k) ks ≡ tally f ks + tally g ks
  unfolding tally
  tally-add f g [] = refl
  tally-add f g (k ∷ ks) = omega (arith, tally-add f g ks)

  tally-nothing : (ks : List K) → tally (λ _. 0) ks ≡ 0
  unfolding tally
  tally-nothing [] = refl
  tally-nothing (k ∷ ks) = omega (arith, tally-nothing ks)

  tally-ext : (f g : K → ℕ) (ks : List K) → ((k : K) → f k ≡ g k) → tally f ks ≡ tally g ks
  unfolding tally
  tally-ext f g [] h = refl
  tally-ext f g (k ∷ ks) h = omega (arith, h k, tally-ext f g ks h)

  abbrev one_if : Bool → ℕ
  one_if b = if b then 1 else 0

  tally_absent :
      (x : K) (ks : List K) → any (same x) ks ≡ false → tally (λ k. one_if (same x k)) ks ≡ 0
  unfolding tally
  tally_absent x [] h = refl
  tally_absent x (k ∷ ks) h = ground (arith, tally_absent x ks)

  any-apart : (k : K) (ks : List K) → All (λ j. same k j ≡ false) ks → any (same k) ks ≡ false
  any-apart k [] h = refl
  any-apart k (j ∷ ks) h = rw (h.0) (any-apart k ks h.1)

  -- A key that is among distinct ones is one of them, once.
  tally_present :
      (x : K) (ks : List K)
      → AllApart same ks
      → any (same x) ks ≡ true
      → tally (λ k. one_if (same x k)) ks ≡ 1
  unfolding tally
  tally_present x [] a h = absurd (never h)
    where
      never : false ≡ true → ⊥
      never e = cc
  tally_present x (k ∷ ks) a h = elim (Bool-cases (same x k)) [
    | inl e ↦ rw e (
        omega (
          arith,
          tally_absent x ks (ap (λ y. any (same y) ks) ((same_iff x k).0 e) ∙ any-apart k ks a.0),
        ))
    | inr e ↦ rw e (omega (arith, tally_present x ks a.1 (rw e at h)))
  ]

  sum-tally :
      (f : K → ℕ) (rows : List (K × ℕ))
      → All (λ r. r.1 ≡ f r.0) rows
      → sum_counts rows ≡ tally f (keys_of rows)
  unfolding tally sum_counts
  sum-tally f [] h = refl
  sum-tally f ((k, n) ∷ rows) h = omega (arith, h.0, sum-tally f rows h.1)

  tally-count :
      (key : Task → K) (p : Task → Bool) (ts : List Task) (ks : List K)
      → AllApart same ks
      → All (λ t. p t ≡ true → any (same (key t)) ks ≡ true) ts
      → tally (λ k. count (λ t. p t && same (key t) k) ts) ks ≡ count p ts
  tally-count key p [] ks a h = tally-nothing ks
  tally-count key p (t ∷ ts) ks a h =
      tally-ext _ _ ks (λ k. split k)
      ∙ tally-add (λ k. one_if (p t && same (key t) k)) (λ k. count (λ u. p u && same (key u) k) ts)
          ks
      ∙ total (Bool-cases (p t)) (tally-count key p ts ks a h.1)
    where
      split :
          (k : K)
          → count (λ u. p u && same (key u) k) (t ∷ ts)
            ≡ one_if (p t && same (key t) k) + count (λ u. p u && same (key u) k) ts
      split k = ground arith

      total :
          (p t ≡ true) ⊎ (p t ≡ false)
          → tally (λ k. count (λ u. p u && same (key u) k) ts) ks ≡ count p ts
          → tally (λ k. one_if (p t && same (key t) k)) ks
              + tally (λ k. count (λ u. p u && same (key u) k) ts) ks
            ≡ count p (t ∷ ts)
      total (inl e) ih = rw e (omega (arith, tally_present (key t) ks a (h.0 e), ih))
      total (inr e) ih = rw e (omega (arith, tally-nothing ks, ih))

  -- The groups' counts add up to the number of rows that match.
  pub sum-Grouped :
      (key : Task → K) (p : Task → Bool) (ts : List Task) (rows : List (K × ℕ))
      → Grouped same key p ts rows
      → sum_counts rows ≡ count p ts
  sum-Grouped key p ts rows g =
      sum-tally (λ k. count (λ t. p t && same (key t) k) ts) rows g.counted
      ∙ tally-count key p ts (keys_of rows) g.once g.complete

  -- A key of no group is the key of no row that matches.
  pub Grouped-absent :
      (key : Task → K) (p : Task → Bool) (ts us : List Task) (rows : List (K × ℕ)) (k : K)
      → Grouped same key p us rows
      → any (same k) (keys_of rows) ≡ false
      → All (λ t. p t ≡ true → any (same (key t)) (keys_of rows) ≡ true) ts
      → count (λ t. p t && same (key t) k) ts ≡ 0
  Grouped-absent key p [] us rows k g h a = refl
  Grouped-absent key p (t ∷ ts) us rows k g h a =
      rw (other (Bool-cases (p t && same (key t) k))) (Grouped-absent key p ts us rows k g h a.1)
    where
      other :
          ((p t && same (key t) k) ≡ true) ⊎ ((p t && same (key t) k) ≡ false)
          → (p t && same (key t) k) ≡ false
      other (inr e) = e
      other (inl e) =
          let found : any (same (key t)) (keys_of rows) ≡ true = a.0 (ground arith) in
          let here : key t ≡ k = (same_iff (key t) k).0 (ground arith) in
          let clash : any (same k) (keys_of rows) ≡ true =
            ap (λ x. any (same x) (keys_of rows)) (sym here) ∙ found in
          cc
