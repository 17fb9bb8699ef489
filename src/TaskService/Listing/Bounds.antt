-- ===== src/TaskService/Listing/Bounds.antt =====
-- The bounds of a page in ListTasks of backend/services/task_service.go.
use mathlib.Core.List.{Mem, mem-cons_self, mem-cons_of_mem}
use native.Mathlib.Nat.{div-add-mod', mod-lt, mod-eq_of_lt}
use task_execution_engine.Prelude.{
  ℕ, zero, suc, ◌+◌, ◌-◌, ◌*◌, ◌^◌, ◌≤◌, ◌<◌, ltb, ltb_iff, ◌≡◌, refl, List, [], ◌∷◌, length, All,
  arith, if◌then◌else◌,
}
use task_execution_engine.Prelude.Int.{ℤ, pos, negsuc}
use task_execution_engine.Models.{Task}
use task_execution_engine.TaskService.Listing.{
  clamp_page, clamp_page_size, page_offset, count_pages, slice,
}

pub clamp_page_bound : (p : ℤ) → 1 ≤ clamp_page p
unfolding clamp_page
clamp_page_bound (pos n) = ground arith
clamp_page_bound (negsuc n) = omega arith

pub clamp_page_size_bound : (p : ℤ) → (1 ≤ clamp_page_size p) × (clamp_page_size p ≤ 100)
unfolding clamp_page_size
clamp_page_size_bound (pos n) = ground arith
clamp_page_size_bound (negsuc n) = (omega arith, omega arith)

pub clamp_page_asked : (p : ℤ) (n : ℕ) → p ≡ pos n → 1 ≤ n → clamp_page p ≡ n
unfolding clamp_page
clamp_page_asked (pos k) n e h = ground arith
clamp_page_asked (negsuc k) n e h = cc

pub clamp_page_size_asked : (p : ℤ) (n : ℕ) → p ≡ pos n → 1 ≤ n → n ≤ 100 → clamp_page_size p ≡ n
unfolding clamp_page_size
clamp_page_size_asked (pos k) n e h l = ground arith
clamp_page_size_asked (negsuc k) n e h l = cc

pub offset-fits :
    (page size : ℕ)
    → (page - 1) * size < 2 ^ 63
    → (if ltb (page_offset page size) (2 ^ 63) then page_offset page size else 0)
      ≡ (page - 1) * size
unfolding page_offset
offset-fits page size h =
    rw
      (
        mod-eq_of_lt {n = (page - 1) * size} {m = 2 ^ 64} (omega (arith, h)),
        (ltb_iff ((page - 1) * size) (2 ^ 63)).1 h,
      )
      refl

pub count_pages_bound :
    (total size : ℕ)
    → 1 ≤ size
    → (total ≤ count_pages total size * size) × (count_pages total size * size < total + size)
unfolding count_pages
count_pages_bound total size h =
    let whole = div-add-mod' (total + size - 1) size in
    let less = mod-lt (total + size - 1) {m = size} (omega arith) in
    (omega (arith, whole, less), omega (arith, whole, less))

pub length-slice-le : (offset limit : ℕ) (ts : List Task) → length (slice offset limit ts) ≤ limit
unfolding slice
length-slice-le offset limit [] = omega arith
length-slice-le zero zero (t ∷ ts) = omega arith
length-slice-le zero (suc limit) (t ∷ ts) = omega (arith, length-slice-le zero limit ts)
length-slice-le (suc offset) limit (t ∷ ts) = length-slice-le offset limit ts

pub All-slice :
    (P : Task → Type 0) (offset limit : ℕ) (ts : List Task)
    → All P ts
    → All P (slice offset limit ts)
unfolding slice
All-slice P offset limit [] a = tt
All-slice P zero zero (t ∷ ts) a = tt
All-slice P zero (suc limit) (t ∷ ts) a = (a.0, All-slice P zero limit ts a.1)
All-slice P (suc offset) limit (t ∷ ts) a = All-slice P offset limit ts a.1

pub all_of_mem : (P : Task → Type 0) (ts : List Task) → ((t : Task) → Mem t ts → P t) → All P ts
all_of_mem P [] h = tt
all_of_mem P (t ∷ ts) h = (h t mem-cons_self, all_of_mem P ts (λ u m. h u (mem-cons_of_mem t m)))
