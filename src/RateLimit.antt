-- ===== src/RateLimit.antt =====
-- backend/ratelimit/ratelimit.go: the sliding window log, with its two Lua scripts. Redis runs a
-- script as one atomic step; its sorted sets are the interface below. A member's text `base:i` is
-- kept as the pair of its parts. Times and the window are in milliseconds.
pub mod Script
pub mod Window
pub mod Single
use task_execution_engine.Prelude.{
  ℕ, zero, suc, ◌+◌, ◌-◌, ltb, leb, str_eq, ◌==◌, ◌≡◌, Bool, ◌&&◌, not, String, Option, none, some,
  List, count, if◌then◌else◌, true,
}
use Prim.Native.String.{◌++◌ as text_append}
use task_execution_engine.Prelude.Int.{ℤ, pos, negsuc}

pub record Entry : Type 0 where
  pub base : String
  pub index : ℕ
  pub score : ℕ

abbrev pub is_member : String → ℕ → Entry → Bool
is_member base index e = str_eq e.base base && e.index == index

-- EVAL: the script ran and its reply came, or an error came, with the script run or not.
pub data Evaluated {Store A : Type 0} (script : Store → Store × A) (s s' : Store) (r : Option A)
    : Type 0 where
  replied : s' ≡ (script s).0 → r ≡ some (script s).1 → Evaluated script s s' r
  reply_lost : s' ≡ (script s).0 → r ≡ none → Evaluated script s s' r
  not_run : s' ≡ s → r ≡ none → Evaluated script s s' r

-- The sorted sets of Redis, seen through the number of entries that pass a test: a set has no order
-- that a script of ours could tell.
pub record Redis : Type 1 where
  pub Store : Type 0
  pub entries : Store → String → List Entry
  pub zremrangebyscore : String → ℕ → ℕ → Store → Store
  pub zremrangebyscore_law :
      (key : String) (lo hi : ℕ) (s : Store) (q : Entry → Bool)
      → count q (entries (zremrangebyscore key lo hi s) key)
        ≡ count (λ e. q e && not (leb lo e.score && leb e.score hi)) (entries s key)
  pub zcard : String → Store → ℕ
  pub zcard_law : (key : String) (s : Store) → zcard key s ≡ count (λ _. true) (entries s key)
  pub zadd : String → ℕ → String → ℕ → Store → Store
  pub zadd_law :
      (key : String) (score : ℕ) (base : String) (index : ℕ) (s : Store) (q : Entry → Bool)
      → count (is_member base index) (entries s key) ≡ 0
      → count q (entries (zadd key score base index s) key)
        ≡ count q (entries s key)
          + (if q (record { base = base; index = index; score = score }) then 1 else 0)
  pub pexpire : String → ℕ → Store → Store
  pub pexpire_law :
      (key : String) (window : ℕ) (s : Store) (q : Entry → Bool)
      → count q (entries (pexpire key window s) key) ≡ count q (entries s key)
  pub eval : {A : Type 0} → (Store → Store × A) → Store → Store × Option A
  pub eval_law :
      {A : Type 0} (script : Store → Store × A) (s : Store)
      → let (s', r) = eval script s in Evaluated script s s' r

pub record Limiter : Type 0 where
  pub max : ℕ
  pub window : ℕ

-- NewLimiter clamps max to 1.
unfoldable pub new_limiter : ℕ → ℕ → Limiter
new_limiter max window = record { max = if ltb max 1 then 1 else max; window = window }

-- What a call of the limiter returns: (true, remaining, nil), (false, 0, nil) or an error.
pub data Answer : Type 0 where
  allowed : ℕ → Answer
  denied failed : Answer

unfoldable pub answer : Option ℤ → Answer
answer none = failed
answer (some (pos n)) = allowed n
answer (some (negsuc n)) = denied

unfoldable pub key_of : String → String
key_of id = text_append "ratelimit:" id

-- AllowN takes a batch of none for one.
unfoldable pub tokens_asked : ℕ → ℕ
tokens_asked n = if ltb n 1 then 1 else n

module _ (R : Redis) where
  open R use {Store, zremrangebyscore, zcard, zadd, pexpire, eval}

  -- ZREMRANGEBYSCORE key 0 (now - window): an empty range before the first window has passed.
  unfoldable pub prune : String → ℕ → ℕ → Store → Store
  prune key now window s = if ltb now window then s else zremrangebyscore key 0 (now - window) s

  -- `for i = 1, n do ZADD … end`, from index i on.
  unfoldable pub add_all : String → ℕ → String → ℕ → ℕ → Store → Store
  add_all key now base zero i s = s
  add_all key now base (suc n) i s = add_all key now base n (i + 1) (zadd key now base i s)

  -- allowNScript
  unfoldable pub allow_n_script : String → ℕ → ℕ → ℕ → ℕ → String → Store → Store × ℤ
  allow_n_script key now window max n base s =
      let pruned = prune key now window s in
      let held = zcard key pruned in
      if leb (held + n) max
      then (pexpire key window (add_all key now base n 1 pruned), pos (max - held - n))
      else (pruned, negsuc 0)

  -- slidingWindowScript; its member has no index, which is kept as 0.
  unfoldable pub sliding_window_script : String → ℕ → ℕ → ℕ → String → Store → Store × ℤ
  sliding_window_script key now window max member s =
      let pruned = prune key now window s in
      let held = zcard key pruned in
      if ltb held max
      then (pexpire key window (zadd key now member 0 pruned), pos (max - held - 1))
      else (pruned, negsuc 0)

  unfoldable pub allow : Limiter → String → ℕ → String → Store → Store × Answer
  allow l id now member s =
      let (s', r) = eval (sliding_window_script (key_of id) now l.window l.max member) s in
      (s', answer r)

  unfoldable pub allow_n : Limiter → String → ℕ → ℕ → String → Store → Store × Answer
  unfolding tokens_asked
  allow_n l id n now base s =
      let (s', r) = eval (allow_n_script (key_of id) now l.window l.max (tokens_asked n) base) s in
      (s', answer r)
