-- ===== src/Policy/Replay/Exact.antt =====
-- internal/policy/simulate.go: the values of the 128-bit sums of a replay.
use burnban.Prelude.{
  ℕ, ◌+◌, ◌-◌, ◌*◌, ◌≤◌, ◌<◌, ◌≡◌, ◌↔◌, true, List, [], ◌∷◌, ◌++◌, All, length, refl, ap, ◌∙◌,
  arith,
}
use burnban.Prelude.Int.{ℤ, pos, pos_part, IsInt64, int64_range, max_int64}
use burnban.Policy.Counters.{clamp}
use burnban.Policy.Replay.{SimUint128, add_int64, sub, greater_than_int64, clamped_int64}

abbrev pub value : SimUint128 → ℕ
value n = n.hi * int64_range + n.lo

-- Both words hold a uint64.
abbrev pub IsWords : SimUint128 → Type 0
IsWords n = (n.hi < int64_range) × (n.lo < int64_range)

-- A sum that stays below the top word's last value is exact; what is not positive adds nothing.
add_int64-value :
    (n : SimUint128) (a : ℤ)
    → IsWords n
    → IsInt64 a
    → n.hi + 1 < int64_range
    → (value (add_int64 n a) ≡ value n + pos_part a)
      × IsWords (add_int64 n a)
      × (n.hi ≤ (add_int64 n a).hi)
      × ((add_int64 n a).hi ≤ n.hi + 1)
unfolding add_int64
add_int64-value n a w i b = ground arith

sub-value :
    (n m : SimUint128)
    → IsWords n
    → IsWords m
    → value m ≤ value n
    → (value (sub n m) ≡ value n - value m) × IsWords (sub n m)
unfolding sub
sub-value n m w v b = ground arith

-- Two readings of a 128-bit sum of two uint64 words agree with its value: that it exceeds an int64 that
-- is not negative, and the int64 that it is reported as, which sticks at the largest.
pub compare_value :
    (n : SimUint128) (a : ℕ)
    → IsWords n
    → a ≤ max_int64
    → ((greater_than_int64 n (pos a) ≡ true) ↔ (a < value n))
      × (clamped_int64 n ≡ pos (clamp (value n)))
unfolding greater_than_int64 clamped_int64
compare_value n a w b = ground arith

-- The running total that each replayed request adds to.
abbrev pub prefix : SimUint128 → List ℤ → SimUint128
prefix n [] = n
prefix n (a ∷ more) = prefix (add_int64 n a) more

-- What the requests add: nothing for a negative amount.
abbrev pub sum_of : List ℤ → ℕ
sum_of [] = 0
sum_of (a ∷ more) = pos_part a + sum_of more

prefix_facts :
    (more : List ℤ) (n : SimUint128)
    → IsWords n
    → All IsInt64 more
    → n.hi + length more < int64_range
    → (value (prefix n more) ≡ value n + sum_of more)
      × IsWords (prefix n more)
      × ((prefix n more).hi ≤ n.hi + length more)
prefix_facts [] n w i b = (omega arith, w, omega arith)
prefix_facts (a ∷ more) n w i b =
    let (v, w', _, top) = add_int64-value n a w i.0 (omega (arith, b)) in
    let (v', w'', top') = prefix_facts more (add_int64 n a) w' i.1 (omega (arith, b, top)) in
    (omega (arith, v, v'), w'', omega (arith, top, top'))

prefix-append : (n : SimUint128) (xs ys : List ℤ) → prefix n (xs ++ ys) ≡ prefix (prefix n xs) ys
prefix-append n [] ys = refl
prefix-append n (x ∷ xs) ys = prefix-append (add_int64 n x) xs ys

-- For fewer than 2^64 int64 amounts, the usage in a window, the difference of two running totals, is
-- exactly what the requests of the window add, whatever came before: no amount is lost to an overflow.
pub window_exact :
    (before inside : List ℤ)
    → All IsInt64 before
    → All IsInt64 inside
    → length before + length inside < int64_range
    → let zero : SimUint128 = record { hi = 0; lo = 0 } in
      value (sub (prefix zero (before ++ inside)) (prefix zero before)) ≡ sum_of inside
window_exact before inside hb hi b =
    let zero : SimUint128 = record { hi = 0; lo = 0 } in
    let p = prefix zero before in
    let (v, w, top) = prefix_facts before zero (omega arith, omega arith) hb (omega (arith, b)) in
    let (v', w', _) = prefix_facts inside p w hi (omega (arith, b, top)) in
    ap (λ t. value (sub t p)) (prefix-append zero before inside)
    ∙ ((sub-value (prefix p inside) p w' w (omega (arith, v'))).0 ∙ omega (arith, v'))
