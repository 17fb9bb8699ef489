-- ===== src/RateLimit/Script.antt =====
-- One run of allowNScript of backend/ratelimit/ratelimit.go on the entries of its key.
use task_execution_engine.Prelude.{
  ℕ, zero, suc, ◌+◌, ◌-◌, ltb, leb, ◌≤◌, ◌<◌, str_eq, str_eq_iff, ◌≡◌, ◌≢◌, refl, ap, ◌∙◌, inl, inr,
  Bool, true, String, List, [], ◌∷◌, count, if◌then◌else◌, arith, Bool-cases,
}
use task_execution_engine.Prelude.Int.{ℤ, pos, negsuc}
use task_execution_engine.RateLimit.{Entry, is_member, Redis, prune, add_all, allow_n_script}

abbrev pub in_window : ℕ → ℕ → Entry → Bool
in_window window t e = ltb t (e.score + window)

abbrev pub has_base : String → Entry → Bool
has_base base e = str_eq e.base base

count_ext :
    (p q : Entry → Bool) (es : List Entry) → ((e : Entry) → p e ≡ q e) → count p es ≡ count q es
count_ext p q [] h = refl
count_ext p q (e ∷ es) h = ground (arith, h e, count_ext p q es h)

pub count_le :
    (p q : Entry → Bool) (es : List Entry)
    → ((e : Entry) → p e ≡ true → q e ≡ true)
    → count p es ≤ count q es
count_le p q [] h = omega arith
count_le p q (e ∷ es) h = ground (arith, h e, count_le p q es h)

module _ (R : Redis) (key : String) where
  open R use {Store, entries}

  abbrev pub held : (Entry → Bool) → Store → ℕ
  held q s = count q (entries s key)

  -- Pruning keeps what lies in the window, and adds nothing.
  prune_keeps :
      (now window t : ℕ) (s : Store)
      → now ≤ t
      → held (in_window window t) (prune R key now window s) ≡ held (in_window window t) s
  unfolding prune
  prune_keeps now window t s h = elim (Bool-cases (ltb now window)) [
    | inl early ↦ rw early
    | inr late ↦ rw late (
        R.zremrangebyscore_law key 0 (now - window) s (in_window window t)
        ∙ count_ext _ _ (entries s key) (λ e. ground (arith, late)))
  ]

  pub prune_le :
      (now window : ℕ) (s : Store) (q : Entry → Bool) → held q (prune R key now window s) ≤ held q s
  unfolding prune
  prune_le now window s q = elim (Bool-cases (ltb now window)) [
    | inl early ↦ rw early (omega arith)
    | inr late ↦
        rw (late, R.zremrangebyscore_law key 0 (now - window) s q)
          (count_le _ _ (entries s key) (λ e h. ground (arith, h)))
  ]

  -- The n members of one request are new, so each of them adds one entry at `now`.
  add_all_adds :
      (now : ℕ) (base : String) (n i : ℕ) (s : Store) (q : Entry → Bool)
      → ((j : ℕ) → i ≤ j → held (is_member base j) s ≡ 0)
      → ((j : ℕ)
          → q (record { base = base; index = j; score = now })
            ≡ q (record { base = base; index = 0; score = now }))
      → held q (add_all R key now base n i s)
        ≡ held q s + (if q (record { base = base; index = 0; score = now }) then n else 0)
  unfolding add_all
  add_all_adds now base zero i s q new same = ground arith
  add_all_adds now base (suc n) i s q new same = ground (
    arith,
    add_all_adds now base n (i + 1) (R.zadd key now base i s) q fresh same,
    R.zadd_law key now base i s q (new i (omega arith)),
    same i,
  )
    where
      fresh : (j : ℕ) → i + 1 ≤ j → held (is_member base j) (R.zadd key now base i s) ≡ 0
      fresh j h =
          R.zadd_law key now base i s (is_member base j) (new i (omega arith))
          ∙ ground (arith, new j (omega arith))

  abbrev pub all_entries : Entry → Bool
  all_entries e = true

  -- What the script did: it let the n tokens in, and then no more than the maximum are held; or it
  -- denied them, because they would not have fitted, and no entry of the window was touched.
  abbrev pub Scripted : ℕ → ℕ → ℕ → ℕ → Store → Store → ℤ → Type 0
  Scripted now window max n s s' (pos left) =
      ((t : ℕ)
        → now ≤ t
        → held (in_window window t) s'
          ≡ held (in_window window t) s + (if ltb t (now + window) then n else 0))
      × (held all_entries s' + left ≡ max)
  Scripted now window max n s s' (negsuc k) =
      ((t : ℕ) → now ≤ t → held (in_window window t) s' ≡ held (in_window window t) s)
      × (max < held all_entries s' + n)

  member-le-base :
      (base : String) (j : ℕ) (s : Store) → held (is_member base j) s ≤ held (has_base base) s
  member-le-base base j s = count_le _ _ (entries s key) (λ e h. ground (arith, h))

  fresh_members :
      (now window : ℕ) (base : String) (s : Store)
      → held (has_base base) s ≡ 0
      → (j : ℕ) → 1 ≤ j
      → held (is_member base j) (prune R key now window s) ≡ 0
  fresh_members now window base s h j _ = omega (
    arith,
    member-le-base base j (prune R key now window s),
    prune_le now window s (has_base base),
    h,
  )

  -- The script of AllowN with members that are new to the set: either it adds exactly n entries to
  -- every window that is open at `now` or later, reports what is left of the maximum, and holds no
  -- more than the maximum; or it denies, because the n would not fit, and no window loses an entry.
  pub allow_n_script-Scripted :
      (now window max n : ℕ) (base : String) (s : Store)
      → held (has_base base) s ≡ 0
      → let (s', r) = allow_n_script R key now window max n base s in
        Scripted now window max n s s' r
  unfolding allow_n_script
  allow_n_script-Scripted now window max n base s new =
      let pruned = prune R key now window s in
      let full = add_all R key now base n 1 pruned in
      let fresh = fresh_members now window base s new in
      let card = R.zcard_law key pruned in
      elim (Bool-cases (leb (R.zcard key pruned + n) max)) [
        | inl fits ↦ rw fits (
          λ t h.
              R.pexpire_law key window full (in_window window t)
              ∙ add_all_adds now base n 1 pruned (in_window window t) fresh (λ j. refl)
              ∙ ap (λ m. m + (if ltb t (now + window) then n else 0))
                  (prune_keeps now window t s h),
          ground (
            arith,
            fits,
            card,
            R.pexpire_law key window full all_entries,
            add_all_adds now base n 1 pruned all_entries fresh (λ j. refl),
          ),
        )
        | inr over ↦ rw over (λ t h. prune_keeps now window t s h, ground (arith, over, card))
      ]

  -- No other base appears.
  pub allow_n_script-others :
      (now window max n : ℕ) (base other : String) (s : Store)
      → held (has_base base) s ≡ 0
      → other ≢ base
      → held (has_base other) s ≡ 0
      → held (has_base other) (allow_n_script R key now window max n base s).0 ≡ 0
  unfolding allow_n_script
  allow_n_script-others now window max n base other s new ne none_yet =
      let pruned = prune R key now window s in
      let full = add_all R key now base n 1 pruned in
      let kept = prune_le now window s (has_base other) in
      elim (Bool-cases (leb (R.zcard key pruned + n) max)) [
        | inl fits ↦ rw fits (
            R.pexpire_law key window full (has_base other)
            ∙ add_all_adds now base n 1 pruned (has_base other)
                (fresh_members now window base s new) (λ j. refl)
            ∙ ground (arith, kept, none_yet, str_eq_iff base other, ne))
        | inr over ↦ rw over (omega (arith, kept, none_yet))
      ]
