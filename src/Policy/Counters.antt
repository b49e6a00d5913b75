-- ===== src/Policy/Counters.antt =====
-- internal/policy/simulate.go, `saturatedAdd`: the sum of two counters.
use burnban.Prelude.{ℕ, ◌+◌, ◌≤◌, ◌≡◌, ◌||◌, arith, leb, if◌then◌else◌}
use burnban.Prelude.Int.{ℤ, pos, negsuc, ◌+ℤ◌, ◌-ℤ◌, ltb_ℤ, max_int64, add64, sub64, wrap64}

unfoldable pub saturated_add : ℤ → ℤ → ℤ
saturated_add a b =
    if ltb_ℤ a (pos 0) || ltb_ℤ b (pos 0) || ltb_ℤ (sub64 (pos max_int64) b) a
    then pos max_int64
    else add64 a b

-- A count that sticks at the largest int64.
abbrev pub clamp : ℕ → ℕ
clamp n = if leb n max_int64 then n else max_int64

-- For two counts within int64 it is their exact sum, clamped at the largest int64.
pub saturated_add_pos :
    (a b : ℕ) → a ≤ max_int64 → b ≤ max_int64 → saturated_add (pos a) (pos b) ≡ pos (clamp (a + b))
unfolding saturated_add add64 sub64 wrap64 ◌+ℤ◌ ◌-ℤ◌
saturated_add_pos a b h k = ground arith

-- A negative argument is taken for a full counter.
pub saturated_add_neg :
    (n : ℕ) (b : ℤ)
    → (saturated_add (negsuc n) b ≡ pos max_int64) × (saturated_add b (negsuc n) ≡ pos max_int64)
unfolding saturated_add
saturated_add_neg n (pos b) = ground arith
saturated_add_neg n (negsuc b) = ground arith
