-- ===== src/Config/Durations.antt =====
-- The durations that backend/config/config.go reads.
use Prim.Native.Char.{Char, code}
use Prim.Native.String as Text
use task_execution_engine.Prelude.{
  ℕ, ◌*◌, ◌^◌, ◌<◌, leb, ◌==◌, str_eq, str_eq_iff, ◌≡◌, ◌&&◌, refl, inl, inr, ap, ◌∙◌, true, false,
  String, none, some, arith, Bool-cases,
}
use task_execution_engine.Prelude.Int.{ℤ, pos}
use task_execution_engine.Decimal.{print, scan, below, parse_uint, positive, atoi}
use task_execution_engine.Decimal.RoundTrip.{parse_uint-print}
use task_execution_engine.Config.{signed, seconds, or_fallback, get_env_int, get_env_seconds}

below-ne-none : (bound n : ℕ) → below bound none ≡ some n → ⊥
unfolding below
below-ne-none bound n h = cc

-- A number that is read starts with a digit.
starts_digit :
    (c : Char) (s : String) (n : ℕ)
    → parse_uint 63 (Text.◌∷◌ c s) ≡ some n
    → leb b'0' (code c) ≡ true
unfolding parse_uint scan
starts_digit c s n h = elim (Bool-cases (leb b'0' (code c) && leb (code c) b'9')) [
  | inl e ↦ ground (arith, e)
  | inr e ↦ absurd (below-ne-none (2 ^ 63) n (rw e at h))
]

no_digits : (n : ℕ) → parse_uint 63 "" ≡ some n → ⊥
unfolding parse_uint
no_digits n h = cc

no_number : (n : ℕ) → atoi "" ≡ some (pos n) → ⊥
unfolding atoi
no_number n h = cc

-- A text of digits has no sign.
atoi_digits : (s : String) (n : ℕ) → parse_uint 63 s ≡ some n → atoi s ≡ some (pos n)
unfolding atoi positive
atoi_digits Text.[] n h = absurd (no_digits n h)
atoi_digits (Text.◌∷◌ c s) n h =
    let digit = starts_digit c s n h in
    let no_minus : (code c == b'-') ≡ false = ground (arith, digit) in
    let no_plus : (code c == b'+') ≡ false = ground (arith, digit) in rw (no_minus, no_plus, h) refl

-- A variable that holds a number of seconds in decimal, of at most 2^63 - 1 nanoseconds, is read as
-- the duration of that many seconds, whatever the fallback is.
pub get_env_seconds-print :
    (env : String → String) (key : String) (fallback : ℤ) (n : ℕ)
    → env key ≡ print n
    → n * 1000000000 < 2 ^ 63
    → get_env_seconds env key fallback ≡ pos (n * 1000000000)
unfolding get_env_seconds get_env_int seconds or_fallback signed
get_env_seconds-print env key fallback n e fits =
    let read : atoi (env key) ≡ some (pos n) =
      ap atoi e
      ∙ atoi_digits (print n) n
          (parse_uint-print 63 n (omega (arith, fits)) (omega (arith, fits))) in
    elim (Bool-cases (str_eq (env key) "")) [
      | inl q ↦ absurd (no_number n (rw ((str_eq_iff (env key) "").0 q) at read))
      | inr q ↦ rw (q, read) (ground (arith, fits))
    ]
