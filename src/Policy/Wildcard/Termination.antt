-- ===== src/Policy/Wildcard/Termination.antt =====
-- internal/policy/types.go, the loop of `wildcardMatch`: each round shortens the pattern, or moves the
-- place to come back to.
use burnban.Prelude.{
  ℕ, zero, suc, ◌+◌, ◌*◌, ◌≤◌, ◌<◌, ◌≢◌, Option, none, some, List, [], ◌∷◌, arith, length,
}
use burnban.Policy.Wildcard.{match_loop, enough}

-- How many places the last '*' can still be moved to.
abbrev places : Option (List ℕ × List ℕ) → List ℕ → ℕ
places none v = length v + 1
places (some (_, r)) v = length r

-- The pattern behind the last '*' is no longer than `n`, and the value has not been left of it.
abbrev IsWithin : ℕ → Option (List ℕ × List ℕ) → List ℕ → Type 0
IsWithin n none v = Unit {0}
IsWithin n (some (ps, r)) v = (length ps ≤ n) × (length v ≤ length r)

mul_le : (a b n : ℕ) → a ≤ b → a * n ≤ b * n
mul_le a b n h = grind arith

match_loop-ne-none :
    (f n : ℕ) (p v : List ℕ) (star : Option (List ℕ × List ℕ))
    → length p ≤ n
    → IsWithin n star v
    → places star v * (n + 1) + length p < f
    → match_loop f p v star ≢ none
unfolding match_loop
match_loop-ne-none zero n p v star hp hs h = elim h [ ]
match_loop-ne-none (suc f) n p [] star hp hs h = ground arith
match_loop-ne-none (suc f) n [] (c ∷ v) none hp hs h = ground arith
match_loop-ne-none (suc f) n [] (c ∷ v) (some (ps, [])) hp hs h = absurd (omega arith)
match_loop-ne-none (suc f) n [] (c ∷ v) (some (ps, d ∷ r)) hp hs h =
    match_loop-ne-none f n ps r (some (ps, r)) hs.0 (hs.0, omega arith) (omega arith)
match_loop-ne-none (suc f) n (q ∷ p) (c ∷ v) none hp hs h = ground (
  arith,
  match_loop-ne-none f n p v none (omega arith) tt (omega arith),
  match_loop-ne-none f n p (c ∷ v) (some (p, c ∷ v)) (omega arith) (omega arith) (omega arith),
)
match_loop-ne-none (suc f) n (q ∷ p) (c ∷ v) (some (ps, [])) hp hs h = absurd (omega arith)
match_loop-ne-none (suc f) n (q ∷ p) (c ∷ v) (some (ps, d ∷ r)) hp hs h = ground (
  arith,
  match_loop-ne-none f n p v (some (ps, d ∷ r)) (omega arith) (hs.0, omega arith) (omega arith),
  match_loop-ne-none f n p (c ∷ v) (some (p, c ∷ v)) (omega arith) (omega arith)
      (omega (arith, mul_le (length (c ∷ v)) (length (d ∷ r)) (n + 1) hs.1)),
  match_loop-ne-none f n ps r (some (ps, r)) hs.0 (hs.0, omega arith) (omega arith),
)

-- The loop of `wildcardMatch` ends with an answer for every pattern and value, within the rounds that
-- `match_runes` allows.
pub match_loop-total : (p v : List ℕ) → match_loop (enough (length p) (length v)) p v none ≢ none
match_loop-total p v =
    match_loop-ne-none (enough (length p) (length v)) (length p) p v none (omega arith) tt
      (omega arith)
