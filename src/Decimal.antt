-- ===== src/Decimal.antt =====
-- The decimal conversions of Go's strconv that the backend calls: ParseUint and Atoi, base ten, and
-- Itoa with the decimal numbers of encoding/json, for numbers below 2^64.
pub mod RoundTrip
use Prim.Native.Char.{Char, code}
use Prim.Native.String.{[], ◌∷◌}
use task_execution_engine.Prelude.{
  ℕ, zero, suc, ◌+◌, ◌-◌, ◌*◌, ◌/◌, ◌%◌, ◌^◌, ◌==◌, ltb, leb, Bool, true, false, ◌&&◌, String,
  Option, none, some, if◌then◌else◌, ◌≡◌, refl,
}
use task_execution_engine.Prelude.Int.{ℤ, pos, negsuc}

unfoldable pub digit : ℕ → Char
digit d =
    if d == 0
    then "0"
    else if d == 1
    then "1"
    else if d == 2
    then "2"
    else if d == 3
    then "3"
    else if d == 4
    then "4"
    else if d == 5
    then "5"
    else if d == 6
    then "6"
    else if d == 7
    then "7"
    else if d == 8
    then "8"
    else "9"

-- The digits of n before `rest`, on as many rounds as the fuel allows.
unfoldable pub print_before : ℕ → ℕ → String → String
unfolding digit
print_before zero n rest = rest
print_before (suc fuel) n rest =
    let more = print_before fuel (n / 10) (digit (n % 10) ∷ rest) in
    if ltb n 10 then digit n ∷ rest else more

-- Twenty digits are enough below 2^64.
unfoldable pub print : ℕ → String
print n = print_before 20 n ""

-- Digits read behind the number n; any other character is an error.
unfoldable pub scan : ℕ → String → Option ℕ
scan n [] = some n
scan n (c ∷ s) =
    let rest = scan (n * 10 + (code c - b'0')) s in
    if leb b'0' (code c) && leb (code c) b'9' then rest else none

unfoldable pub below : ℕ → Option ℕ → Option ℕ
below bound none = none
below bound (some n) = if ltb n bound then some n else none

-- ParseUint(s, 10, bits): one digit or more, and a value that fits.
unfoldable pub parse_uint : ℕ → String → Option ℕ
unfolding scan below
parse_uint bits [] = none
parse_uint bits (c ∷ s) = below (2 ^ bits) (scan 0 (c ∷ s))

unfoldable pub negate : Option ℕ → Option ℤ
negate none = none
negate (some zero) = some (pos 0)
negate (some (suc n)) = some (negsuc n)

unfoldable pub positive : Option ℕ → Option ℤ
positive none = none
positive (some n) = some (pos n)

-- Atoi: a sign may stand before the digits, and the value fits in an int64.
unfoldable pub atoi : String → Option ℤ
unfolding parse_uint negate positive below
atoi [] = none
atoi (c ∷ s) =
    if code c == b'-'
    then negate (below (2 ^ 63 + 1) (parse_uint 64 s))
    else if code c == b'+'
    then positive (parse_uint 63 s)
    else positive (parse_uint 63 (c ∷ s))
