-- ===== src/Policy/Wildcard.antt =====
-- internal/policy/types.go, `wildcardMatch` and `matchesAny`: '*' stands for any sequence and '?'
-- for one code point. The loop's indices pi, vi, star and retry are the suffixes that they cut off.
pub mod Spec
pub mod Termination
pub mod Soundness
pub mod Completeness
use burnban.Prelude.{
  ℕ, zero, suc, ◌+◌, ◌*◌, String, Bool, true, false, ◌||◌, Option, none, some, List, [], ◌∷◌,
  if◌then◌else◌, ◌==◌, all, any, length, codes,
}

-- The text after its first rune.
abbrev pub rest : List ℕ → List ℕ
rest [] = []
rest (c ∷ v) = v

-- `star` holds the pattern behind the last '*' and the value at `retry`; `none` is star = -1.
unfoldable pub match_loop : ℕ → List ℕ → List ℕ → Option (List ℕ × List ℕ) → Option Bool
match_loop zero p v star = none
match_loop (suc f) p [] star = some (all (λ q. q == b'*') p)
match_loop (suc f) [] (c ∷ v) none = some false
match_loop (suc f) [] (c ∷ v) (some (ps, r)) = match_loop f ps (rest r) (some (ps, rest r))
match_loop (suc f) (q ∷ p) (c ∷ v) star =
    let advance = match_loop f p v star in
    let widen = match_loop f p (c ∷ v) (some (p, c ∷ v)) in
    let retry : Option Bool = elim star [
      | none ↦ some false
      | some (ps, r) ↦ match_loop f ps (rest r) (some (ps, rest r))
    ] in
    if q == b'?' || q == c then advance else if q == b'*' then widen else retry

-- One round for each rune of the pattern at each place of the value is enough.
abbrev pub enough : ℕ → ℕ → ℕ
enough p v = suc ((v + 1) * (p + 1) + p)

abbrev pub decided : Option Bool → Bool
decided none = false
decided (some b) = b

unfoldable pub match_runes : List ℕ → List ℕ → Bool
match_runes p v = decided (match_loop (enough (length p) (length v)) p v none)

unfoldable pub wildcard_match : String → String → Bool
unfolding match_runes match_loop
wildcard_match pattern value = match_runes (codes pattern) (codes value)

unfoldable pub matches_any : List String → String → Bool
unfolding wildcard_match
matches_any patterns value = any (λ pattern. wildcard_match pattern value) patterns
