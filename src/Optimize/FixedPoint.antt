-- ===== src/Optimize/FixedPoint.antt =====
-- internal/optimize/recommend.go, `checkedAddPositive`, `multiplyDivideCeil` and `roundUp`.
-- `bits.Mul64` gives the two words of an exact product, and `bits.Div64` divides them.
use burnban.Prelude.{
  ℕ, ◌+◌, ◌-◌, ◌*◌, ◌/◌, ◌%◌, ◌≤◌, ◌<◌, ◌≡◌, refl, ◌⊎◌, inl, inr, Bool, true, false, ◌||◌, Option,
  none, some, List, [], ◌∷◌, ◌==◌, leb, ltb, if◌then◌else◌, ltb→lt, arith,
}
use burnban.Prelude.Int.{ℤ, pos, negsuc, max_int64}

abbrev pub word : ℕ
word = 18446744073709551616

-- The loop of `checkedAddPositive`, at the sum `result`.
unfoldable pub add_from : ℕ → List ℤ → Option ℕ
add_from result [] = some result
add_from result (negsuc n ∷ values) = none
add_from result (pos n ∷ values) =
    let rest = add_from (result + n) values in if ltb (max_int64 - n) result then none else rest

unfoldable pub checked_add_positive : List ℤ → Option ℕ
unfolding add_from
checked_add_positive values = add_from 0 values

-- The quotient of the two words, one more where something is left.
abbrev pub ceil_div : ℕ → ℕ → ℕ
ceil_div product denominator =
    if product % denominator == 0 then product / denominator else product / denominator + 1

unfoldable pub multiply_divide_ceil : ℤ → ℕ → ℕ → Option ℕ
multiply_divide_ceil (negsuc n) numerator denominator = none
multiply_divide_ceil (pos value) numerator denominator =
    let product = value * numerator in
    if denominator == 0 || leb denominator (product / word)
    then none
    else if ltb max_int64 (ceil_div product denominator)
    then none
    else some (ceil_div product denominator)

unfoldable pub round_up : ℤ → ℤ → Option ℕ
unfolding checked_add_positive
round_up (negsuc n) unit = none
round_up (pos value) (negsuc n) = none
round_up (pos value) (pos unit) =
    if unit == 0
    then none
    else if value % unit == 0
    then some value
    else checked_add_positive (pos value ∷ pos (unit - value % unit) ∷ [])

-- `q` is the least number that, taken `d` times, reaches `p`.
abbrev pub IsCeil : ℕ → ℕ → ℕ → Type 0
IsCeil p d q = (p ≤ q * d) × (q * d < p + d)

ceil_div-IsCeil : (p d : ℕ) → 0 < d → IsCeil p d (ceil_div p d)
ceil_div-IsCeil p d h = grind arith

overflow_product : (p d : ℕ) → 0 < d → d ≤ p / word → max_int64 * d < p
overflow_product p d h k = grind arith

overflow_ceil : (p d q : ℕ) → IsCeil p d q → max_int64 < q → max_int64 * d < p
overflow_ceil p d q h k = grind arith

three_ways :
    (a b : Bool) (q : ℕ)
    → let o = if a then none else if b then none else some q in
      ((a ≡ true) × (o ≡ none)) ⊎ (((b ≡ true) × (o ≡ none)) ⊎ ((b ≡ false) × (o ≡ some q)))
three_ways true b q = inl (refl, refl)
three_ways false true q = inr (inl (refl, refl))
three_ways false false q = inr (inr (refl, refl))

too_high : (d h : ℕ) → 0 < d → (d == 0 || leb d h) ≡ true → d ≤ h
too_high d h p k = ground arith

-- The result is the exact product divided by the denominator, rounded up, where an int64 holds it; it
-- is refused exactly where none does.
pub multiply_divide_ceil_exact :
    (value numerator denominator : ℕ)
    → 0 < denominator
    → ((q : ℕ) × (multiply_divide_ceil (pos value) numerator denominator ≡ some q)
        × IsCeil (value * numerator) denominator q
        × (q ≤ max_int64))
      ⊎ ((multiply_divide_ceil (pos value) numerator denominator ≡ none)
          × (max_int64 * denominator < value * numerator))
unfolding multiply_divide_ceil
multiply_divide_ceil_exact value numerator denominator h =
    let p = value * numerator in
    let q = ceil_div p denominator in
    let ceil = ceil_div-IsCeil p denominator h in
    elim (three_ways (denominator == 0 || leb denominator (p / word)) (ltb max_int64 q) q) [
      | inl (a, e) ↦ inr (e, overflow_product p denominator h (too_high denominator (p / word) h a))
      | inr (inl (b, e)) ↦ inr (e, overflow_ceil p denominator q ceil (ltb→lt max_int64 q b))
      | inr (inr (b, e)) ↦ inl (q, e, ceil, below q b)
    ]
  where
    below : (n : ℕ) → ltb max_int64 n ≡ false → n ≤ max_int64
    below n k = ground arith
