-- ===== src/RateLimit/Single.antt =====
-- The two scripts of backend/ratelimit/ratelimit.go on one token.
use task_execution_engine.Prelude.{
  ℕ, ◌+◌, ltb, leb, ◌≡◌, refl, sym, ◌∙◌, inl, inr, Bool, true, false, String, if◌then◌else◌, arith,
  Bool-cases,
}
use task_execution_engine.Prelude.Int.{ℤ}
use task_execution_engine.RateLimit.{
  is_member, Redis, prune, add_all, allow_n_script, sliding_window_script,
}
use task_execution_engine.RateLimit.Script.{held, prune_le}

module _ (R : Redis) (key : String) (now window max : ℕ) (s : R.Store) where
  open R use {Store, entries, zcard, zadd, pexpire}

  abbrev pruned : Store
  pruned = prune R key now window s

  -- A new member's entry is counted by its time, whatever its name.
  added :
      (member : String) (index : ℕ) (p : ℕ → Bool)
      → held R key (is_member member index) s ≡ 0
      → held R key (λ e. p e.score) (pexpire key window (zadd key now member index pruned))
        ≡ held R key (λ e. p e.score) pruned + (if p now then 1 else 0)
  added member index p new =
      R.pexpire_law key window (zadd key now member index pruned) (λ e. p e.score)
      ∙ R.zadd_law key now member index pruned (λ e. p e.score)
          (omega (arith, prune_le R key now window s (is_member member index), new))

  abbrev pub SameRun : Store × ℤ → Store × ℤ → Type 0
  SameRun (s1, r1) (s2, r2) =
      (r1 ≡ r2) × ((p : ℕ → Bool) → held R key (λ e. p e.score) s1 ≡ held R key (λ e. p e.score) s2)

  same_run :
      (member base : String)
      → held R key (is_member member 0) s ≡ 0
      → held R key (is_member base 1) s ≡ 0
      → SameRun
          (sliding_window_script R key now window max member s)
          (allow_n_script R key now window max 1 base s)
  unfolding sliding_window_script allow_n_script add_all
  same_run member base new new_base = elim (Bool-cases (ltb (zcard key pruned) max)) [
    | inl room ↦
        let fits : leb (zcard key pruned + 1) max ≡ true = ground arith in
        rw (room, fits) (refl, λ p. added member 0 p new ∙ sym (added base 1 p new_base))
    | inr full ↦
        let over : leb (zcard key pruned + 1) max ≡ false = ground arith in
        rw (full, over) (refl, λ p. refl)
  ]

-- Where the members of both are new to the set, the script of Allow and the script of AllowN for one
-- token return the same number, and leave as many entries of any times.
pub sliding_window_script-allow_n_script :
    (R : Redis) (key : String) (now window max : ℕ) (member base : String) (s : R.Store)
    → held R key (is_member member 0) s ≡ 0
    → held R key (is_member base 1) s ≡ 0
    → SameRun R key now window max s
        (sliding_window_script R key now window max member s)
        (allow_n_script R key now window max 1 base s)
sliding_window_script-allow_n_script R key now window max member base s =
    same_run R key now window max s member base
