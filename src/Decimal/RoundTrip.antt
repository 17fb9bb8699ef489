-- ===== src/Decimal/RoundTrip.antt =====
-- What is printed is read back.
use Prim.Native.Char.{Char, code}
use Prim.Native.String.{[], ◌∷◌}
use task_execution_engine.Prelude.{
  ℕ, zero, suc, ◌+◌, ◌-◌, ◌*◌, ◌/◌, ◌%◌, ◌^◌, ◌<◌, ltb, leb, Bool, true, false, if◌then◌else◌, ◌≡◌,
  ◌≢◌, refl, String, some, arith, ◌∙◌, sym, ap, inl, inr, Bool-cases,
}
use task_execution_engine.Decimal.{digit, print_before, print, scan, below, parse_uint}

code-if : (b : Bool) (c d : Char) → code (if b then c else d) ≡ (if b then code c else code d)
code-if true c d = refl
code-if false c d = refl

code-digit : (d : ℕ) → d < 10 → code (digit d) ≡ b'0' + d
unfolding digit
code-digit d h = simp code-if (ground arith)

power : ℕ → ℕ
power zero = 1
power (suc n) = 10 * power n

scan-digit : (n d : ℕ) (rest : String) → d < 10 → scan n (digit d ∷ rest) ≡ scan (n * 10 + d) rest
unfolding scan
scan-digit n d rest h =
    let lower : leb b'0' (b'0' + d) ≡ true = ground arith in
    let upper : leb (b'0' + d) b'9' ≡ true = ground arith in
    let same : b'0' + d - b'0' ≡ d = omega arith in rw (code-digit d h, lower, upper, same) refl

scan-print_before :
    (fuel n : ℕ) (rest : String) → n < power fuel → scan 0 (print_before fuel n rest) ≡ scan n rest
unfolding print_before power
scan-print_before zero n rest h = ground arith
scan-print_before (suc fuel) n rest h = elim (Bool-cases (ltb n 10)) [
  | inl small ↦ rw small (scan-digit 0 n rest (ground arith) ∙ ap (λ m. scan m rest) (omega arith))
  | inr large ↦ rw large (
      scan-print_before fuel (n / 10) (digit (n % 10) ∷ rest) (omega arith)
      ∙ scan-digit (n / 10) (n % 10) rest (omega arith)
      ∙ ap (λ m. scan m rest) (omega arith))
]

print_before-ne-nil : (fuel n : ℕ) (rest : String) → rest ≢ "" → print_before fuel n rest ≢ ""
unfolding print_before
print_before-ne-nil zero n rest h = h
print_before-ne-nil (suc fuel) n rest h = elim (Bool-cases (ltb n 10)) [
  | inl small ↦ rw small (λ e. cc)
  | inr large ↦ rw large (print_before-ne-nil fuel (n / 10) (digit (n % 10) ∷ rest) (λ e. cc))
]

print-ne-nil : (n : ℕ) → print n ≢ ""
unfolding print print_before
print-ne-nil n = elim (Bool-cases (ltb n 10)) [
  | inl small ↦ rw small (λ e. cc)
  | inr large ↦ rw large (print_before-ne-nil 19 (n / 10) (digit (n % 10) ∷ "") (λ e. cc))
]

below_lem : (bound n : ℕ) → n < bound → below bound (some n) ≡ some n
unfolding below
below_lem bound n h = ground (arith, h)

parse_uint-scan : (bits : ℕ) (s : String) → s ≢ "" → parse_uint bits s ≡ below (2 ^ bits) (scan 0 s)
unfolding parse_uint
parse_uint-scan bits [] h = absurd (h refl)
parse_uint-scan bits (c ∷ s) h = refl

-- The print of a number that fits in the bits, at most 64, is read back as the number.
pub parse_uint-print : (bits n : ℕ) → n < 2 ^ bits → n < 2 ^ 64 → parse_uint bits (print n) ≡ some n
unfolding print scan power
parse_uint-print bits n fits small =
    parse_uint-scan bits (print n) (print-ne-nil n)
    ∙ ap (below (2 ^ bits)) (scan-print_before 20 n "" (omega arith))
    ∙ below_lem (2 ^ bits) n fits

-- Different numbers have different prints.
pub print-injective : (m n : ℕ) → m < 2 ^ 64 → n < 2 ^ 64 → print m ≡ print n → m ≡ n
print-injective m n hm hn e =
    let a : parse_uint 64 (print n) ≡ some m =
      ap (parse_uint 64) (sym e) ∙ parse_uint-print 64 m hm hm in
    let b : parse_uint 64 (print n) ≡ some n = parse_uint-print 64 n hn hn in cc
