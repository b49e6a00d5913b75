-- ===== src/Policy/Wildcard/Spec.antt =====
-- What a wildcard pattern means, as a relation between the runes of a pattern and of a value.
use burnban.Prelude.{ℕ, ◌≡◌, ◌≢◌, ◌⊎◌, List, [], ◌∷◌}

-- A rune of the pattern that accepts one rune of the value.
abbrev pub Hit : ℕ → ℕ → Type 0
Hit q c = (q ≡ b'?') ⊎ (q ≡ c)

pub data Matches : List ℕ → List ℕ → Type 0 where
  nil : Matches [] []
  one : {q c : ℕ} {p v : List ℕ} → q ≢ b'*' → Hit q c → Matches p v → Matches (q ∷ p) (c ∷ v)
  skip : {q : ℕ} {p v : List ℕ} → q ≡ b'*' → Matches p v → Matches (q ∷ p) v
  take : {q c : ℕ} {p v : List ℕ} → q ≡ b'*' → Matches (q ∷ p) v → Matches (q ∷ p) (c ∷ v)
