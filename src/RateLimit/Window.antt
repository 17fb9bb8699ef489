-- ===== src/RateLimit/Window.antt =====
-- Runs of AllowN of backend/ratelimit/ratelimit.go on one key.
use task_execution_engine.Prelude.{
  ℕ, ◌+◌, ◌≤◌, ltb, ◌≡◌, ◌≢◌, refl, String, some, List, [], ◌∷◌, if◌then◌else◌, arith, All,
}
use task_execution_engine.Prelude.Int.{ℤ, pos, negsuc}
use task_execution_engine.RateLimit.{
  replied, reply_lost, not_run, Redis, Limiter, Answer, allowed, denied, failed, answer,
  allow_n_script, key_of, tokens_asked, allow_n,
}
use task_execution_engine.RateLimit.Script.{
  in_window, has_base, held, all_entries, Scripted, allow_n_script-Scripted, allow_n_script-others,
  count_le,
}

-- A call of AllowN, with the time it reads from the clock and the text its members begin with.
pub record Request : Type 0 where
  pub now : ℕ
  pub n : ℕ
  pub base : String

-- The tokens that were admitted, with the time of their admission.
unfoldable pub note : Request → Answer → List (ℕ × ℕ) → List (ℕ × ℕ)
unfolding tokens_asked
note q (allowed left) log = (q.now, tokens_asked q.n) ∷ log
note q denied log = log
note q failed log = log

-- The tokens admitted at a time whose window is still open at t.
unfoldable pub tokens_in : ℕ → ℕ → List (ℕ × ℕ) → ℕ
tokens_in window t [] = 0
tokens_in window t ((time, n) ∷ log) =
    (if ltb t (time + window) then n else 0) + tokens_in window t log

-- The requests come in the order of their times, the first at `last` or later, and no two have the
-- same text.
abbrev pub IsRun : ℕ → List Request → Type 0
IsRun last [] = Unit
IsRun last (q ∷ qs) = (last ≤ q.now) × All (λ p. p.base ≢ q.base) qs × IsRun q.now qs

-- The time of the last request.
unfoldable pub end : ℕ → List Request → ℕ
end last [] = last
end last (q ∷ qs) = end q.now qs

tokens_mono :
    (window t u : ℕ) (log : List (ℕ × ℕ)) → t ≤ u → tokens_in window u log ≤ tokens_in window t log
unfolding tokens_in
tokens_mono window t u [] h = omega arith
tokens_mono window t u ((time, n) ∷ log) h = ground (arith, tokens_mono window t u log h)

module _ (R : Redis) (l : Limiter) (id : String) where
  open R use {Store, entries}

  unfoldable pub serve_all : List Request → Store → List (ℕ × ℕ) → Store × List (ℕ × ℕ)
  serve_all [] s log = (s, log)
  serve_all (q ∷ qs) s log =
      let (s', a) = allow_n R l id q.n q.now q.base s in serve_all qs s' (note q a log)

  -- The set holds at least what was admitted in the window, and that is within the maximum.
  record Tracks (last : ℕ) (s : Store) (log : List (ℕ × ℕ)) : Type 0 where
    covers :
        (t : ℕ) → last ≤ t → tokens_in l.window t log ≤ held R (key_of id) (in_window l.window t) s
    capped : tokens_in l.window last log ≤ l.max

  later-Tracks :
      (last now : ℕ) (s s' : Store) (log : List (ℕ × ℕ))
      → last ≤ now
      → ((t : ℕ)
          → now ≤ t
          → held R (key_of id) (in_window l.window t) s
            ≤ held R (key_of id) (in_window l.window t) s')
      → Tracks last s log
      → Tracks now s' log
  later-Tracks last now s s' log h grows tr = record {
    covers = λ t a. omega (arith, tr.covers t (omega arith), grows t a);
    capped = omega (arith, tokens_mono l.window last now log h, tr.capped);
  }

  admitted-Tracks :
      (last : ℕ) (q : Request) (s s' : Store) (left : ℕ) (log : List (ℕ × ℕ))
      → last ≤ q.now
      → Scripted R (key_of id) q.now l.window l.max (tokens_asked q.n) s s' (pos left)
      → Tracks last s log
      → Tracks q.now s' (note q (allowed left) log)
  unfolding note tokens_in
  admitted-Tracks last q s s' left log h (adds, total) tr = record {
    covers = covers;
    capped = omega (
      arith,
      covers q.now (omega arith),
      count_le (in_window l.window q.now) (all_entries R (key_of id)) (entries s' (key_of id))
          (λ e i. refl),
      total,
    );
  }
    where
      covers :
          (t : ℕ)
          → q.now ≤ t
          → tokens_in l.window t ((q.now, tokens_asked q.n) ∷ log)
            ≤ held R (key_of id) (in_window l.window t) s'
      covers t a = omega (arith, adds t a, tr.covers t (omega arith))

  grown :
      (q : Request) (s s' : Store) (r : ℤ)
      → Scripted R (key_of id) q.now l.window l.max (tokens_asked q.n) s s' r
      → (t : ℕ) → q.now ≤ t
      → held R (key_of id) (in_window l.window t) s ≤ held R (key_of id) (in_window l.window t) s'
  grown q s s' (pos left) (adds, total) t h = omega (arith, adds t h)
  grown q s s' (negsuc k) (same, over) t h = omega (arith, same t h)

  replied-Tracks :
      (last : ℕ) (q : Request) (s s' : Store) (r : ℤ) (log : List (ℕ × ℕ))
      → last ≤ q.now
      → Scripted R (key_of id) q.now l.window l.max (tokens_asked q.n) s s' r
      → Tracks last s log
      → Tracks q.now s' (note q (answer (some r)) log)
  unfolding answer note
  replied-Tracks last q s s' (pos left) log h done tr =
      admitted-Tracks last q s s' left log h done tr
  replied-Tracks last q s s' (negsuc k) log h done tr =
      later-Tracks last q.now s s' log h (grown q s s' (negsuc k) done) tr

  allow_n-Tracks :
      (last : ℕ) (q : Request) (s : Store) (log : List (ℕ × ℕ))
      → last ≤ q.now
      → held R (key_of id) (has_base q.base) s ≡ 0
      → Tracks last s log
      → let (s', a) = allow_n R l id q.n q.now q.base s in Tracks q.now s' (note q a log)
  unfolding allow_n answer note
  allow_n-Tracks last q s log h new tr =
      let script = allow_n_script R (key_of id) q.now l.window l.max (tokens_asked q.n) q.base in
      let done =
        allow_n_script-Scripted R (key_of id) q.now l.window l.max (tokens_asked q.n) q.base s
          new in
      elim (R.eval_law script s) [
        | replied e f ↦ rw (e, f) (replied-Tracks last q s (script s).0 (script s).1 log h done tr)
        | reply_lost e f ↦
            rw (e, f)
              (later-Tracks last q.now s (script s).0 log h
                (grown q s (script s).0 (script s).1 done) tr)
        | not_run e f ↦ rw (e, f) (later-Tracks last q.now s s log h (λ t a. omega arith) tr)
      ]

  allow_n-unused :
      (q : Request) (s : Store) (other : String)
      → held R (key_of id) (has_base q.base) s ≡ 0
      → other ≢ q.base
      → held R (key_of id) (has_base other) s ≡ 0
      → held R (key_of id) (has_base other) (allow_n R l id q.n q.now q.base s).0 ≡ 0
  unfolding allow_n
  allow_n-unused q s other new ne none_yet =
      let script = allow_n_script R (key_of id) q.now l.window l.max (tokens_asked q.n) q.base in
      let kept =
        allow_n_script-others R (key_of id) q.now l.window l.max (tokens_asked q.n) q.base other s
          new ne none_yet in
      elim (R.eval_law script s) [
        | replied e f ↦ rw e kept
        | reply_lost e f ↦ rw e kept
        | not_run e f ↦ rw e none_yet
      ]

  abbrev pub IsUnused : Store → List Request → Type 0
  IsUnused s qs = All (λ q. held R (key_of id) (has_base q.base) s ≡ 0) qs

  still-IsUnused :
      (q : Request) (s : Store) (qs : List Request)
      → held R (key_of id) (has_base q.base) s ≡ 0
      → All (λ p. p.base ≢ q.base) qs
      → IsUnused s qs
      → IsUnused (allow_n R l id q.n q.now q.base s).0 qs
  still-IsUnused q s [] new ne h = tt
  still-IsUnused q s (p ∷ qs) new ne h =
      (allow_n-unused q s p.base new ne.0 h.0, still-IsUnused q s qs new ne.1 h.1)

  serve_all-Tracks :
      (last : ℕ) (qs : List Request) (s : Store) (log : List (ℕ × ℕ))
      → IsRun last qs
      → IsUnused s qs
      → Tracks last s log
      → let (s', log') = serve_all qs s log in Tracks (end last qs) s' log'
  unfolding serve_all end
  serve_all-Tracks last [] s log h new tr = tr
  serve_all-Tracks last (q ∷ qs) s log (after, ne, rest) new tr =
      let (s', a) = allow_n R l id q.n q.now q.base s in
      serve_all-Tracks q.now qs s' (note q a log) rest (still-IsUnused q s qs new.0 ne new.1)
        (allow_n-Tracks last q s log after new.0 tr)

-- However many batches are asked for in a run of AllowN on one key, with any error in between, the
-- tokens that it admitted in the window that ends with the run, or later, are at most the maximum.
-- The requests' times do not decrease, and their members are new to the set.
pub serve_all_bound :
    (R : Redis) (l : Limiter) (id : String) (qs : List Request) (s : R.Store)
    → IsRun 0 qs
    → IsUnused R l id s qs
    → (t : ℕ) → end 0 qs ≤ t
    → tokens_in l.window t (serve_all R l id qs s []).1 ≤ l.max
unfolding tokens_in
serve_all_bound R l id qs s h new t late =
    let log = (serve_all R l id qs s []).1 in
    let tr =
      serve_all-Tracks R l id 0 qs s [] h new
        (record { covers = λ t _. omega arith; capped = omega arith }) in
    omega (arith, tokens_mono l.window (end 0 qs) t log late, tr.capped)
