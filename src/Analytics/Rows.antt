-- ===== src/Analytics/Rows.antt =====
-- The rows that the reports of analytics_service.go are about, written out apart from its queries,
-- and lemmas on their numbers.
use native.Mathlib.Nat.{ℕ_set}
use mathlib.Core.Logic.{∥∥₁_elim}
use mathlib.Core.List.{Perm, Permᴰ}
use task_execution_engine.Prelude.{
  ℕ, ◌+◌, ◌/◌, ◌≤◌, ltb, leb, ◌≡◌, refl, sym, ap, ◌∙◌, Bool, true, false, ◌&&◌, ◌||◌, String,
  Option, none, some, List, [], ◌∷◌, Memᴰ, count, filter, str_eq, if◌then◌else◌, arith, Bool-cases,
  inl, inr,
}
use task_execution_engine.Models.{Task, completed, status_eq}
use task_execution_engine.Analytics.{Floats, is_since, failure_rate}

-- The rows of the client, or of all of them.
abbrev pub is_shown_to : Bool → String → Task → Bool
is_shown_to all_clients client_id t = all_clients || str_eq t.client_id client_id

-- A time that is there and passes a test.
abbrev pub holds_at : (ℕ → Bool) → Option ℕ → Bool
holds_at q none = false
holds_at q (some c) = q c

-- Completed, at a time c with now ≤ c + interval.
abbrev pub is_done_since : ℕ → ℕ → Task → Bool
is_done_since now interval t =
    status_eq t.status completed && holds_at (λ c. leb now (c + interval)) t.completed_at

-- Completed in the 300 s before now, and in the ten seconds from b on.
abbrev pub is_done_in : ℕ → ℕ → Task → Bool
is_done_in now b t =
    status_eq t.status completed
    && holds_at (λ c. leb now (c + 300000) && leb b (c / 1000) && ltb (c / 1000) (b + 10))
        t.completed_at

-- Completed in the 300 s before now, and in the 300 s that end with the ten from `last` on.
abbrev pub is_done_by : ℕ → ℕ → Task → Bool
is_done_by now last t =
    status_eq t.status completed
    && holds_at
        (λ c. leb now (c + 300000) && leb last (c / 1000 + 290) && ltb (c / 1000) (last + 10))
        t.completed_at

pub count_ext :
    (p q : Task → Bool) (ts : List Task) → ((t : Task) → p t ≡ q t) → count p ts ≡ count q ts
count_ext p q [] h = refl
count_ext p q (t ∷ ts) h = ground (arith, h t, count_ext p q ts h)

pub count-pos :
    (q : Task → Bool) (ts : List Task) {t : Task} → Memᴰ t ts → q t ≡ true → 1 ≤ count q ts
count-pos q [] m e = elim m [ ]
count-pos q (u ∷ ts) {t} (Memᴰ.head h) e = rw (ap q (sym h) ∙ e) (omega arith)
count-pos q (u ∷ ts) {t} (Memᴰ.tail m) e = ground (arith, count-pos q ts {t = t} m e)

pub count_none : (q : Task → Bool) (ts : List Task) → ((t : Task) → q t ≡ false) → count q ts ≡ 0
count_none q [] h = refl
count_none q (t ∷ ts) h = rw (h t) (count_none q ts h)

pub count_split :
    (p q r : Task → Bool) (ts : List Task)
    → ((t : Task) → (if p t then 1 else 0) ≡ (if q t then 1 else 0) + (if r t then 1 else 0))
    → count p ts ≡ count q ts + count r ts
count_split p q r [] h = refl
count_split p q r (t ∷ ts) h = ground (arith, h t, count_split p q r ts h)

pub count-filter :
    (q p : Task → Bool) (ts : List Task) → count q (filter p ts) ≡ count (λ t. p t && q t) ts
count-filter q p [] = refl
count-filter q p (t ∷ ts) = ground (arith, count-filter q p ts)

count-Permᴰ : (q : Task → Bool) {us ts : List Task} → Permᴰ us ts → count q us ≡ count q ts
count-Permᴰ q Permᴰ.nil = refl
count-Permᴰ q (Permᴰ.cons e h) = let ih = count-Permᴰ q h in rw e (ground (arith, ih))
count-Permᴰ q (Permᴰ.swap e f) = rw (e, f) (ground arith)
count-Permᴰ q (Permᴰ.trans h k) = count-Permᴰ q h ∙ count-Permᴰ q k

pub count-Perm : (q : Task → Bool) {us ts : List Task} → Perm us ts → count q us ≡ count q ts
count-Perm q h = ∥∥₁_elim h (ℕ_set _ _) (λ p. count-Permᴰ q p)

-- Which rows is_since selects.
pub since_iff :
    (now interval : ℕ) (o : Option ℕ)
    → is_since now interval o ≡ holds_at (λ c. leb now (c + interval)) o
unfolding is_since
since_iff now interval none = refl
since_iff now interval (some c) = refl

-- A rate of failure: of the lost ones among all that ended, and 0 if none did.
pub record IsRate (F : Floats) (done lost : ℕ) (x : F.Float) : Type 0 where
  pub nothing : done + lost ≡ 0 → x ≡ F.nought
  pub share : 1 ≤ done + lost → x ≡ F.divide (F.of_int lost) (F.of_int (done + lost))

pub failure_rate-IsRate :
    (F : Floats) (done lost : ℕ) → IsRate F done lost (failure_rate F done lost)
unfolding failure_rate
failure_rate-IsRate F done lost = elim (Bool-cases (ltb 0 (done + lost))) [
  | inl e ↦ rw e (record { nothing = λ z. absurd (some_ended e z); share = λ h. refl })
  | inr e ↦ rw e (record { nothing = λ z. refl; share = λ h. absurd (none_ended e h) })
]
  where
    some_ended : ltb 0 (done + lost) ≡ true → done + lost ≡ 0 → ⊥
    some_ended e z = ground arith

    none_ended : ltb 0 (done + lost) ≡ false → 1 ≤ done + lost → ⊥
    none_ended e h = ground arith
