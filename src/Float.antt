-- ===== src/Float.antt =====
-- The float64 values that the Go code computes with, and its arithmetic: IEEE 754 binary64, rounded
-- to nearest, ties to even. A finite value is an integer number of units of 2^-1074, which every
-- finite float64 is; the sign of zero is left out, since no test of the program sees it.
use burnban.Prelude.{
  ℕ, zero, suc, ◌+◌, ◌-◌, ◌*◌, ◌/◌, ◌%◌, ◌^◌, Bool, true, false, ◌||◌, ◌&&◌, ltb, leb, ◌==◌,
  if◌then◌else◌,
}
use burnban.Prelude.Int.{ℤ, pos, negsuc, pos_part, neg_part, sub_ℕ, ◌+ℤ◌, leb_ℤ, ltb_ℤ, max_int64}

pub data Float64 : Type 0 where
  nan : Float64
  inf : Bool → Float64  -- true: negative
  fin : ℤ → Float64

-- The number of units in 1.
abbrev pub one_in_units : ℕ
one_in_units = 2 ^ 1074

-- A whole number that float64 holds exactly.
unfoldable pub of_int : ℕ → Float64
of_int n = fin (pos (n * one_in_units))

unfoldable pub is_nan : Float64 → Bool
is_nan nan = true
is_nan _ = false

unfoldable pub is_inf : Float64 → Bool
is_inf (inf s) = true
is_inf _ = false

-- `a < b`: false where either is NaN.
unfoldable pub lt : Float64 → Float64 → Bool
lt nan b = false
lt (inf s) nan = false
lt (inf true) (inf true) = false
lt (inf true) (inf false) = true
lt (inf true) (fin y) = true
lt (inf false) b = false
lt (fin x) nan = false
lt (fin x) (inf true) = false
lt (fin x) (inf false) = true
lt (fin x) (fin y) = ltb_ℤ x y

-- `a <= b`.
unfoldable pub le : Float64 → Float64 → Bool
le nan b = false
le (inf s) nan = false
le (inf true) (inf t) = true
le (inf true) (fin y) = true
le (inf false) (inf true) = false
le (inf false) (inf false) = true
le (inf false) (fin y) = false
le (fin x) nan = false
le (fin x) (inf true) = false
le (fin x) (inf false) = true
le (fin x) (fin y) = leb_ℤ x y

-- The number of binary digits.
bit_len : ℕ → ℕ → ℕ
bit_len zero n = 0
bit_len (suc f) n = let more = suc (bit_len f (n / 2)) in if n == 0 then 0 else more

-- num / den to the nearest whole number, ties to even.
nearest : ℕ → ℕ → ℕ
nearest num den =
    let q = num / den in
    let r = num % den in if ltb (2 * r) den || (2 * r == den && q % 2 == 0) then q else q + 1

-- The magnitude num / den, in units, rounded to 53 binary digits.
round_units : ℕ → ℕ → ℕ
unfolding bit_len nearest
round_units num den =
    let digits = bit_len 6500 (num / den) in
    if leb digits 53
    then nearest num den
    else nearest num (den * 2 ^ (digits - 53)) * 2 ^ (digits - 53)

-- Beyond the largest float64 the result is an infinity.
finish : Bool → ℕ → Float64
finish negative n =
    if leb (2 ^ 2098) n then inf negative else fin (if negative then sub_ℕ 0 n else pos n)

is_negative : ℤ → Bool
is_negative (pos n) = false
is_negative (negsuc n) = true

magnitude : ℤ → ℕ
magnitude x = pos_part x + neg_part x

differ : Bool → Bool → Bool
differ true true = false
differ true false = true
differ false t = t

-- The exact value num / den with a sign, as a float64.
round : Bool → ℕ → ℕ → Float64
unfolding round_units finish
round negative num den = finish negative (round_units num den)

unfoldable pub add_fin : ℤ → ℤ → Float64
unfolding round ◌+ℤ◌ is_negative magnitude
add_fin x y = round (is_negative (x +ℤ y)) (magnitude (x +ℤ y)) 1

-- `a * b` at finite values; no call of the program multiplies an infinity.
unfoldable pub mul_fin : ℤ → ℤ → Float64
unfolding round is_negative magnitude differ
mul_fin x y =
    round (differ (is_negative x) (is_negative y)) (magnitude x * magnitude y) one_in_units

unfoldable pub div_fin : ℤ → ℤ → Float64
unfolding round is_negative magnitude differ
div_fin x y =
    round (differ (is_negative x) (is_negative y)) (magnitude x * one_in_units) (magnitude y)

-- `math.Ceil` of a value that is not negative, as a whole number.
unfoldable pub ceil : ℕ → ℕ
ceil n = if n % one_in_units == 0 then n / one_in_units else n / one_in_units + 1

-- `int64(x)` of a whole number: out of range amd64 gives the least int64.
unfoldable pub to_int64 : ℕ → ℤ
to_int64 n = if leb n max_int64 then pos n else negsuc max_int64

-- `a + b`, `a - b` and the built-in `max(a, b)` at any two values.
unfoldable pub add : Float64 → Float64 → Float64
unfolding add_fin differ
add nan b = nan
add (inf s) nan = nan
add (inf s) (inf t) = if differ s t then nan else inf s
add (inf s) (fin y) = inf s
add (fin x) nan = nan
add (fin x) (inf t) = inf t
add (fin x) (fin y) = add_fin x y

unfoldable pub negate : Float64 → Float64
unfolding differ
negate nan = nan
negate (inf s) = inf (differ true s)
negate (fin x) = fin (sub_ℕ (neg_part x) (pos_part x))

unfoldable pub sub : Float64 → Float64 → Float64
unfolding add negate
sub a b = add a (negate b)

unfoldable pub max : Float64 → Float64 → Float64
unfolding is_nan lt
max a b = if is_nan a || is_nan b then nan else if lt a b then b else a

-- Equality, and `a >= b`.
unfoldable pub equal : Float64 → Float64 → Bool
unfolding le
equal a b = le a b && le b a

is_zero : ℤ → Bool
is_zero (pos zero) = true
is_zero _ = false

-- `a * b` and `a / b` at any two values.
unfoldable pub mul : Float64 → Float64 → Float64
unfolding mul_fin differ is_negative is_zero
mul nan b = nan
mul (inf s) nan = nan
mul (inf s) (inf t) = inf (differ s t)
mul (inf s) (fin y) = if is_zero y then nan else inf (differ s (is_negative y))
mul (fin x) nan = nan
mul (fin x) (inf t) = if is_zero x then nan else inf (differ (is_negative x) t)
mul (fin x) (fin y) = mul_fin x y

-- The program divides by numbers above zero.
unfoldable pub div : Float64 → Float64 → Float64
unfolding div_fin differ is_negative is_zero
div nan b = nan
div (inf s) nan = nan
div (inf s) (inf t) = nan
div (inf s) (fin y) = inf (differ s (is_negative y))
div (fin x) nan = nan
div (fin x) (inf t) = fin (pos 0)
div (fin x) (fin y) =
    if is_zero y then (if is_zero x then nan else inf (is_negative x)) else div_fin x y

-- `float64(n)`.
unfoldable pub of_int64 : ℤ → Float64
unfolding round is_negative magnitude
of_int64 n = round (is_negative n) (magnitude n * one_in_units) 1

-- The float64 nearest to num / den.
unfoldable pub of_ratio : ℕ → ℕ → Float64
unfolding round
of_ratio num den = round false (num * one_in_units) den

-- `math.Round`: to a whole number, halves away from zero.
unfoldable pub round_whole : Float64 → Float64
unfolding magnitude is_negative
round_whole nan = nan
round_whole (inf s) = inf s
round_whole (fin x) = fin (
    let n = (2 * magnitude x + one_in_units) / (2 * one_in_units) * one_in_units in
    if is_negative x then sub_ℕ 0 n else pos n)
