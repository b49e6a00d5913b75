-- ===== src/Prelude/Decimal.antt =====
-- Decimal numbers in texts: `strconv.ParseInt` and `ParseUint` on digits, and the verbs %d and %06d
-- of fmt. A text is the list of its runes.
use Prim.Native.Nat.{ℕ, zero, suc, ◌+◌, ◌-◌, ◌*◌, ◌/◌, ◌%◌, ◌≤◌, ◌<◌}
use mathlib.Core.Path.{◌≡◌, refl}
use mathlib.Core.Bool.{Bool, true, ◌&&◌}
use mathlib.Core.List.{List, [], ◌∷◌, ◌++◌}
use native.Mathlib.Omega.{arith}
use burnban.Prelude.Tests.{leb, ◌==◌, if◌then◌else◌}
use burnban.Prelude.Lists.{length, all, length-append}

abbrev pub is_digit : ℕ → Bool
is_digit c = leb 48 c && leb c 57

-- The number that a text of digits stands for, after the digits of `n`.
unfoldable pub value : List ℕ → ℕ → ℕ
value [] n = n
value (c ∷ s) n = value s (n * 10 + (c - 48))

abbrev pub pow10 : ℕ → ℕ
pow10 zero = 1
pow10 (suc k) = 10 * pow10 k

-- The digits of `n` in front of `out`, by a loop that divides by ten.
unfoldable pub emit : ℕ → ℕ → List ℕ → List ℕ
emit zero n out = out
emit (suc f) n out =
    let rest = emit f (n / 10) ((48 + n % 10) ∷ out) in if n == 0 then out else rest

-- %d. A number of 64 bits has twenty digits at most.
unfoldable pub decimal : ℕ → List ℕ
decimal n = if n == 0 then 48 ∷ [] else emit 20 n []

unfoldable pub zeros : ℕ → List ℕ
zeros zero = []
zeros (suc k) = 48 ∷ zeros k

-- %0wd.
unfoldable pub padded : ℕ → ℕ → List ℕ
padded w n = zeros (w - length (decimal n)) ++ decimal n

pub value-emit : (f n : ℕ) (out : List ℕ) → n < pow10 f → value (emit f n out) 0 ≡ value out n
unfolding value emit
value-emit zero n out h = ground arith
value-emit (suc f) n out h = ground (arith, value-emit f (n / 10) ((48 + n % 10) ∷ out))

pub all_digits-emit : (f n : ℕ) (out : List ℕ) → all is_digit (emit f n out) ≡ all is_digit out
unfolding emit
all_digits-emit zero n out = refl
all_digits-emit (suc f) n out = ground (arith, all_digits-emit f (n / 10) ((48 + n % 10) ∷ out))

pub length-emit : (f n k : ℕ) (out : List ℕ) → n < pow10 k → length (emit f n out) ≤ k + length out
unfolding emit
length-emit zero n k out h = omega arith
length-emit (suc f) n zero out h = ground arith
length-emit (suc f) n (suc k) out h = ground (arith, length-emit f (n / 10) k ((48 + n % 10) ∷ out))

pub length-emit_ge : (f n : ℕ) (out : List ℕ) → length out ≤ length (emit f n out)
unfolding emit
length-emit_ge zero n out = omega arith
length-emit_ge (suc f) n out = ground (arith, length-emit_ge f (n / 10) ((48 + n % 10) ∷ out))

pub value-decimal : (n : ℕ) → n < pow10 20 → value (decimal n) 0 ≡ n
unfolding decimal value
value-decimal n h = ground (arith, value-emit 20 n [] h)

pub all_digits-decimal : (n : ℕ) → all is_digit (decimal n) ≡ true
unfolding decimal
all_digits-decimal n = ground (arith, all_digits-emit 20 n [])

pub length-decimal : (n k : ℕ) → n < pow10 (suc k) → length (decimal n) ≤ suc k
unfolding decimal
length-decimal n k h = ground (arith, length-emit 20 n (suc k) [] h)

emit_pos : (f n : ℕ) → 0 < n → 0 < length (emit (suc f) n [])
unfolding emit
emit_pos f n h = ground (arith, length-emit_ge f (n / 10) ((48 + n % 10) ∷ []))

pub length-decimal_pos : (n : ℕ) → 0 < length (decimal n)
unfolding decimal
length-decimal_pos n = ground (arith, emit_pos 19 n)

value-zeros : (k : ℕ) (s : List ℕ) → value (zeros k ++ s) 0 ≡ value s 0
unfolding value zeros
value-zeros zero s = refl
value-zeros (suc k) s = value-zeros k s

pub value_more : (k n : ℕ) (s : List ℕ) → value (s ++ zeros k) n ≡ value s n * pow10 k
unfolding value zeros
value_more zero n [] = omega arith
value_more (suc k) n [] = grind (arith, value_more k (n * 10) [])
value_more k n (c ∷ s) = value_more k (n * 10 + (c - 48)) s

all_digits-zeros : (k : ℕ) (s : List ℕ) → all is_digit (zeros k ++ s) ≡ all is_digit s
unfolding zeros
all_digits-zeros zero s = refl
all_digits-zeros (suc k) s = all_digits-zeros k s

length-zeros : (k : ℕ) → length (zeros k) ≡ k
unfolding zeros
length-zeros zero = refl
length-zeros (suc k) = omega (arith, length-zeros k)

pub length-padded : (w n : ℕ) → n < pow10 (suc w) → length (padded (suc w) n) ≡ suc w
unfolding padded
length-padded w n h = rw (length-append, length-zeros) (omega (arith, length-decimal n w h))

pub value-padded : (w n : ℕ) → n < pow10 20 → value (padded w n) 0 ≡ n
unfolding padded
value-padded w n h = rw value-zeros (value-decimal n h)

pub all_digits-padded : (w n : ℕ) → all is_digit (padded w n) ≡ true
unfolding padded
all_digits-padded w n = rw all_digits-zeros (all_digits-decimal n)
