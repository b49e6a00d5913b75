-- ===== src/Policy/Wildcard/Soundness.antt =====
-- internal/policy/types.go, `wildcardMatch`: what an accepted value has to do with the pattern.
use burnban.Prelude.{
  ℕ, zero, suc, ◌≡◌, Bool, true, false, Option, none, some, List, [], ◌∷◌, arith, Bool-cases, inl,
  inr, ◌||◌, ◌==◌, all, String, codes, length, refl,
}
use burnban.Policy.Wildcard.{rest, match_loop, match_runes, wildcard_match, enough, decided}
use burnban.Policy.Wildcard.Spec.{Hit, Matches}

all_stars : (p : List ℕ) → all (λ q. q == b'*') p ≡ true → Matches p []
all_stars [] h = Matches.nil
all_stars (q ∷ p) h = Matches.skip (ground arith) (all_stars p (ground arith))

hit : (q c : ℕ) → (q == b'?' || q == c) ≡ true → Hit q c
hit q c h = ground arith

-- A rune that is taken literally: also '*', which is one of the sequences that '*' stands for.
literal :
    (q c : ℕ) (p v : List ℕ) → (q == b'?' || q == c) ≡ true → Matches p v → Matches (q ∷ p) (c ∷ v)
literal q c p v h m = elim (Bool-cases (q == b'*')) [
  | inl e ↦ Matches.take (ground arith) (Matches.skip (ground arith) m)
  | inr e ↦ Matches.one (ground arith) (hit q c h) m
]

after_rest : (q : ℕ) (ps r : List ℕ) → q ≡ b'*' → Matches (q ∷ ps) (rest r) → Matches (q ∷ ps) r
after_rest q ps [] e m = m
after_rest q ps (d ∷ r) e m = Matches.take e m

is_star : (q : ℕ) → (q == b'*') ≡ true → q ≡ b'*'
is_star q h = ground arith

false≢some_true : some false ≡ some true → ⊥
false≢some_true h = cc

-- What is left to show once the last '*' is widened.
abbrev Widens : Option (List ℕ × List ℕ) → Type 0 → Type 0
Widens none M = Unit {0}
Widens (some (ps, r)) M = Matches (b'*' ∷ ps) r → M

match_loop_sound :
    (f : ℕ) (p v : List ℕ) (star : Option (List ℕ × List ℕ)) (M : Type 0)
    → match_loop f p v star ≡ some true
    → (Matches p v → M)
    → Widens star M
    → M
unfolding match_loop
match_loop_sound zero p v star M h k w = cc
match_loop_sound (suc f) p [] star M h k w = k (all_stars p (ground arith))
match_loop_sound (suc f) [] (c ∷ v) none M h k w = cc
match_loop_sound (suc f) [] (c ∷ v) (some (ps, r)) M h k w =
    match_loop_sound f ps (rest r) (some (ps, rest r)) M h
      (λ m. w (after_rest _ ps r refl (Matches.skip refl m))) (λ m. w (after_rest _ ps r refl m))
match_loop_sound (suc f) (q ∷ p) (c ∷ v) none M h k w = elim (Bool-cases (q == b'?' || q == c)) [
  | inl e ↦ match_loop_sound f p v none M (rw e at h) (λ m. k (literal q c p v e m)) w
  | inr e ↦ elim (Bool-cases (q == b'*')) [
    | inl s ↦
        match_loop_sound f p (c ∷ v) (some (p, c ∷ v)) M (rw (e, s) at h)
          (λ m. k (Matches.skip (ground arith) m)) (λ m. k (rw (is_star q s) m))
    | inr s ↦ absurd (false≢some_true (rw (e, s) at h))
  ]
]
match_loop_sound (suc f) (q ∷ p) (c ∷ v) (some (ps, r)) M h k w =
    elim (Bool-cases (q == b'?' || q == c)) [
      | inl e ↦ match_loop_sound f p v (some (ps, r)) M (rw e at h) (λ m. k (literal q c p v e m)) w
      | inr e ↦ elim (Bool-cases (q == b'*')) [
        | inl s ↦
            match_loop_sound f p (c ∷ v) (some (p, c ∷ v)) M (rw (e, s) at h)
              (λ m. k (Matches.skip (ground arith) m)) (λ m. k (rw (is_star q s) m))
        | inr s ↦
            match_loop_sound f ps (rest r) (some (ps, rest r)) M (rw (e, s) at h)
              (λ m. w (after_rest _ ps r refl (Matches.skip refl m)))
              (λ m. w (after_rest _ ps r refl m))
      ]
    ]

decided-true : (o : Option Bool) → decided o ≡ true → o ≡ some true
decided-true none h = cc
decided-true (some b) h = cc

-- A pattern that `wildcardMatch` accepts for a value matches it, whatever runes the value has.
pub wildcard_match_sound :
    (pattern value : String)
    → wildcard_match pattern value ≡ true
    → Matches (codes pattern) (codes value)
unfolding wildcard_match match_runes
wildcard_match_sound pattern value h =
    match_loop_sound (enough (length (codes pattern)) (length (codes value))) (codes pattern)
      (codes value) none _ (decided-true _ h) (λ m. m) tt
