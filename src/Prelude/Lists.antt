-- ===== src/Prelude/Lists.antt =====
-- Lists measured by native numbers, and predicates over their elements.
use Prim.Native.Nat.{ℕ, suc, ◌+◌, ◌≤◌}
use mathlib.Core.Path.{◌≡◌, refl, subst, sym}
use mathlib.Core.Bool.{Bool, true, false, ◌||◌}
use mathlib.Core.Logic.{◌↔◌, inl, inr, ∥∥₁_map, ∥∥₁_elim}
use mathlib.Core.List.{List, [], ◌∷◌, ◌++◌, Memᴰ, Mem}
use native.Mathlib.Omega.{arith}
use task_execution_engine.Prelude.Tests.{if◌then◌else◌, Bool-cases}

module _ {ℓ} {A : Type ℓ} where
  abbrev pub length : List A → ℕ
  length [] = 0
  length (x ∷ xs) = suc (length xs)

  -- The elements that pass a Boolean test, in order.
  abbrev pub filter : (A → Bool) → List A → List A
  filter p [] = []
  filter p (x ∷ xs) = if p x then x ∷ filter p xs else filter p xs

  abbrev pub count : (A → Bool) → List A → ℕ
  count p [] = 0
  count p (x ∷ xs) = if p x then suc (count p xs) else count p xs

  abbrev pub any : (A → Bool) → List A → Bool
  any p [] = false
  any p (x ∷ xs) = p x || any p xs

  pub length-append : (xs ys : List A) → length (xs ++ ys) ≡ length xs + length ys
  length-append [] ys = omega arith
  length-append (x ∷ xs) ys = omega (arith, length-append xs ys)

  pub length-filter-le : (p : A → Bool) (xs : List A) → length (filter p xs) ≤ length xs
  length-filter-le p [] = omega arith
  length-filter-le p (x ∷ xs) = ground (arith, length-filter-le p xs)

  pub count-append : (p : A → Bool) (xs ys : List A) → count p (xs ++ ys) ≡ count p xs + count p ys
  count-append p [] ys = omega arith
  count-append p (x ∷ xs) ys = ground (arith, count-append p xs ys)

  pub filter-append :
      (p : A → Bool) (xs ys : List A) → filter p (xs ++ ys) ≡ filter p xs ++ filter p ys
  filter-append p [] ys = refl
  filter-append p (x ∷ xs) ys = ground (arith, filter-append p xs ys)

module _ {ℓ κ} {A : Type ℓ} (P : A → Type κ) where
  abbrev pub All : List A → Type κ
  All [] = Unit
  All (x ∷ xs) = P x × All xs

module _ {ℓ κ} {A : Type ℓ} (P : A → Type κ) where
  pub All-append : (xs ys : List A) → All P xs → All P ys → All P (xs ++ ys)
  All-append [] ys hx hy = hy
  All-append (x ∷ xs) ys hx hy = (hx.0, All-append xs ys hx.1 hy)

  pub All-filter : (p : A → Bool) (xs : List A) → All P xs → All P (filter p xs)
  All-filter p [] h = tt
  All-filter p (x ∷ xs) h = ground (arith, All-filter p xs h.1)

  pub All-mem : (xs : List A) {a : A} → All P xs → Memᴰ a xs → P a
  All-mem [] h m = elim m [ ]
  All-mem (x ∷ xs) h (Memᴰ.head e) = subst P (sym e) h.0
  All-mem (x ∷ xs) h (Memᴰ.tail m) = All-mem xs h.1 m

module _ {ℓ κ μ} {A : Type ℓ} (P : A → Type κ) (Q : A → Type μ) where
  pub All_mono : (xs : List A) → ((a : A) → P a → Q a) → All P xs → All Q xs
  All_mono [] h a = tt
  All_mono (x ∷ xs) h a = (h x a.0, All_mono xs h a.1)

module _ {ℓ} {A : Type ℓ} (p : A → Bool) where
  mem_of_filter : (xs : List A) {a : A} → Memᴰ a (filter p xs) → Memᴰ a xs × (p a ≡ true)
  mem_of_filter [] m = elim m [ ]
  mem_of_filter (x ∷ xs) {a} m = elim (Bool-cases (p x)) [
    | inl e ↦ kept e (rw e at m) (mem_of_filter xs)
    | inr e ↦ let (n, q) = mem_of_filter xs (rw e at m) in (Memᴰ.tail n, q)
  ]
    where
      kept :
          p x ≡ true
          → Memᴰ a (x ∷ filter p xs)
          → (Memᴰ a (filter p xs) → Memᴰ a xs × (p a ≡ true))
          → Memᴰ a (x ∷ xs) × (p a ≡ true)
      kept e (Memᴰ.head q) ih = (Memᴰ.head q, rw q e)
      kept e (Memᴰ.tail n) ih = let (o, q) = ih n in (Memᴰ.tail o, q)

  pub filter_of_mem : (xs : List A) {a : A} → Memᴰ a xs → p a ≡ true → Memᴰ a (filter p xs)
  filter_of_mem [] m e = elim m [ ]
  filter_of_mem (x ∷ xs) (Memᴰ.head q) e = rw (← q, e) (Memᴰ.head refl)
  filter_of_mem (x ∷ xs) (Memᴰ.tail m) e = elim (Bool-cases (p x)) [
    | inl f ↦ rw f (Memᴰ.tail (filter_of_mem xs m e))
    | inr f ↦ rw f (filter_of_mem xs m e)
  ]

  pub mem-filter : (xs : List A) {a : A} → Mem a (filter p xs) ↔ (Mem a xs × (p a ≡ true))
  mem-filter xs {a} = (
    λ m. (
      ∥∥₁_map m (λ d. (mem_of_filter xs d).0),
      ∥∥₁_elim m (Bool-set _ _) (λ d. (mem_of_filter xs d).1),
    ),
    λ (m, e). ∥∥₁_map m (λ d. filter_of_mem xs d e),
  )
    where
      Bool-set : IsSet Bool
      Bool-set = hlevel
