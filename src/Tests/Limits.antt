-- ===== src/Tests/Limits.antt =====
-- Sorted sets in memory, and two batches of one client.
use task_execution_engine.Prelude.{
  ℕ, ◌+◌, ◌≡◌, ◌≢◌, ◌≤◌, refl, leb, str_eq, str_eq_refl, str_eq_iff, Bool, true, false, ◌&&◌, not,
  String, some, List, [], ◌∷◌, count, filter, arith, if◌then◌else◌,
}
use task_execution_engine.RateLimit.{
  Entry, is_member, replied, Redis, Limiter, new_limiter, allow_n_script, sliding_window_script,
  prune, add_all, allow_n, tokens_asked, key_of, answer,
}
use task_execution_engine.RateLimit.Script.{Scripted, allow_n_script-Scripted}
use task_execution_engine.RateLimit.Single.{SameRun, sliding_window_script-allow_n_script}
use task_execution_engine.RateLimit.Window.{
  Request, tokens_in, end, serve_all, serve_all_bound, note,
}

count-filter :
    (p q : Entry → Bool) (es : List Entry) → count q (filter p es) ≡ count (λ e. q e && p e) es
count-filter p q [] = refl
count-filter p q (e ∷ es) = ground (arith, count-filter p q es)

filter_absent :
    (p : Entry → Bool) (es : List Entry) → count p es ≡ 0 → filter (λ e. not (p e)) es ≡ es
filter_absent p [] h = refl
filter_absent p (e ∷ es) h = ground (arith, filter_absent p es)

abbrev pub add : String → ℕ → String → ℕ → (String → List Entry) → String → List Entry
add key score base index s k =
    if str_eq k key
    then record { base = base; index = index; score = score }
      ∷ filter (λ e. not (is_member base index e)) (s k)
    else s k

abbrev pub remove : String → ℕ → ℕ → (String → List Entry) → String → List Entry
remove key lo hi s k =
    if str_eq k key then filter (λ e. not (leb lo e.score && leb e.score hi)) (s k) else s k

pub add_law :
    (key : String) (score : ℕ) (base : String) (index : ℕ) (s : String → List Entry)
    (q : Entry → Bool)
    → count (is_member base index) (s key) ≡ 0
    → count q (add key score base index s key)
      ≡ count q (s key)
        + (if q (record { base = base; index = index; score = score }) then 1 else 0)
add_law key score base index s q new =
    rw (str_eq_refl key, filter_absent (is_member base index) (s key) new) (ground arith)

pub remove_law :
    (key : String) (lo hi : ℕ) (s : String → List Entry) (q : Entry → Bool)
    → count q (remove key lo hi s key)
      ≡ count (λ e. q e && not (leb lo e.score && leb e.score hi)) (s key)
remove_law key lo hi s q =
    rw (str_eq_refl key) (count-filter (λ e. not (leb lo e.score && leb e.score hi)) q (s key))

abbrev pub in_memory : Redis
in_memory = record {
  Store = String → List Entry;
  entries = λ s key. s key;
  zremrangebyscore = remove;
  zremrangebyscore_law = remove_law;
  zcard = λ key s. count (λ _. true) (s key);
  zcard_law = λ key s. refl;
  zadd = add;
  zadd_law = add_law;
  pexpire = λ key window s. s;
  pexpire_law = λ key window s q. refl;
  eval = λ script s. ((script s).0, some (script s).1);
  eval_law = λ script s. replied refl refl;
}

abbrev two_of : ℕ → String → Request
two_of now base = record { now = now; n = 2; base = base }

abbrev pub empty : String → List Entry
empty _ = []

abbrev pub limiter : Limiter
limiter = new_limiter 3 1000

-- The second batch does not fit; the third comes when the first has left the window.
admitted :
    (serve_all in_memory limiter "alpha"
      (two_of 10 "a" ∷ two_of 500 "b" ∷ two_of 1010 "c" ∷ [])
      empty
      []).1
    ≡ (1010, 2) ∷ (10, 2) ∷ []
unfolding serve_all allow_n allow_n_script prune add_all tokens_asked key_of answer note new_limiter
    str_eq
admitted = refl

serve_all_bound_example :
    tokens_in 1000 1100
      (serve_all in_memory limiter "alpha" (two_of 10 "a" ∷ two_of 500 "b" ∷ []) empty []).1
    ≤ 3
unfolding end new_limiter str_eq
serve_all_bound_example =
    serve_all_bound in_memory limiter "alpha" (two_of 10 "a" ∷ two_of 500 "b" ∷ []) empty
      (omega arith, (apart, tt), (omega arith, tt, tt)) (refl, (refl, tt)) 1100 (omega arith)
  where
    apart : ◌≢◌ {A = String} "b" "a"
    apart e = let q : false ≡ true = (str_eq_iff "b" "a").1 e in cc

allow_n_script_example :
    let (s', r) = allow_n_script in_memory "ratelimit:alpha" 10 1000 3 2 "a" empty in
    Scripted in_memory "ratelimit:alpha" 10 1000 3 2 empty s' r
allow_n_script_example =
    allow_n_script-Scripted in_memory "ratelimit:alpha" 10 1000 3 2 "a" empty refl

single_example :
    SameRun in_memory "ratelimit:alpha" 10 1000 3 empty
      (sliding_window_script in_memory "ratelimit:alpha" 10 1000 3 "m" empty)
      (allow_n_script in_memory "ratelimit:alpha" 10 1000 3 1 "b" empty)
single_example =
    sliding_window_script-allow_n_script in_memory "ratelimit:alpha" 10 1000 3 "m" "b" empty refl
      refl
