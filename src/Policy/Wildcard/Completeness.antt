-- ===== src/Policy/Wildcard/Completeness.antt =====
-- internal/policy/types.go, `wildcardMatch`: the values that a pattern means. The loop keeps one '*' to
-- come back to, the last.
use burnban.Prelude.{
  ℕ, zero, suc, ◌≡◌, ◌≢◌, ◌↔◌, Bool, true, false, Option, none, some, List, [], ◌∷◌, arith,
  Bool-cases, inl, inr, ◌||◌, ◌==◌, all, All, String, codes, length, subst, refl,
}
use burnban.Policy.Wildcard.{rest, match_loop, match_runes, wildcard_match, enough, decided}
use burnban.Policy.Wildcard.Termination.{match_loop-total}
use burnban.Policy.Wildcard.Soundness.{wildcard_match_sound}
use burnban.Policy.Wildcard.Spec.{Hit, Matches}

abbrev pub HasNoStar : List ℕ → Type 0
HasNoStar = All (λ c. c ≢ b'*')

-- `y` is what is left of `v` behind some place.
data IsSuffix (y : List ℕ) : List ℕ → Type 0 where
  whole : IsSuffix y y
  later : {c : ℕ} {v : List ℕ} → IsSuffix y v → IsSuffix y (c ∷ v)

-- The loop has matched the runes between (ps, r) and (p, v) one by one, with no '*' among them.
data Between (ps r : List ℕ) : List ℕ → List ℕ → Type 0 where
  start : Between ps r ps r
  step :
      {q c : ℕ} {p v : List ℕ}
      → q ≢ b'*'
      → Hit q c
      → Between ps r (q ∷ p) (c ∷ v)
      → Between ps r p v

IsSuffix-tail : {d : ℕ} {y v : List ℕ} → IsSuffix (d ∷ y) v → IsSuffix y (rest v)
IsSuffix-tail whole = whole
IsSuffix-tail {y = y} {v = c ∷ v} (later s) = behind v (IsSuffix-tail s)
  where
    behind : (v : List ℕ) → IsSuffix y (rest v) → IsSuffix y v
    behind [] s = s
    behind (c ∷ v) s = later s

widen : {q : ℕ} {p y v : List ℕ} → q ≡ b'*' → IsSuffix y v → Matches (q ∷ p) y → Matches (q ∷ p) v
widen e whole m = m
widen e (later s) m = Matches.take e (widen e s m)

-- A '*' leaves some suffix of the value to the pattern behind it.
behind_star :
    {q : ℕ} {p v : List ℕ}
    → q ≡ b'*'
    → Matches (q ∷ p) v
    → (y : List ℕ) × IsSuffix y v × Matches p y
behind_star e (Matches.one n h m) = absurd (n e)
behind_star e (Matches.skip _ m) = (_, whole, m)
behind_star e (Matches.take s m) = let (y, t, n) = behind_star e m in (y, later t, n)

behind_rune :
    {q : ℕ} {p y : List ℕ}
    → q ≢ b'*'
    → Matches (q ∷ p) y
    → (d : ℕ) × (z : List ℕ) × (y ≡ d ∷ z) × Hit q d × Matches p z
behind_rune n (Matches.one _ h m) = (_, _, refl, h, m)
behind_rune n (Matches.skip e m) = absurd (n e)
behind_rune n (Matches.take e m) = absurd (n e)

between :
    {ps r p v y : List ℕ}
    → Between ps r p v
    → IsSuffix y r
    → Matches ps y
    → (z : List ℕ) × IsSuffix z v × Matches p z
between {y = y} start s m = (y, s, m)
between {v = v} (step {c = c} n h b) s m =
    let (z, t, k) = between b s m in
    let (d, z', e, _, j) = behind_rune n k in
    (z', IsSuffix-tail (subst (λ l. IsSuffix l (c ∷ v)) e t), j)

tail_eq : {d c : ℕ} {z v : List ℕ} → (c ∷ v) ≡ (d ∷ z) → z ≡ v
tail_eq e = cc

-- The runes between are taken from the pattern and from the value alike.
Between-same : {ps r p v : List ℕ} → Between ps r p v → Matches ps r → Matches p v
Between-same start m = m
Between-same (step n h b) m =
    let (d, z, e, _, j) = behind_rune n (Between-same b m) in subst (Matches _) (tail_eq e) j

-- A later '*' serves wherever the one before it would.
later_star :
    {ps r p v : List ℕ} {q : ℕ}
    → q ≡ b'*'
    → Between ps r (q ∷ p) v
    → Matches (b'*' ∷ ps) r
    → Matches (q ∷ p) v
later_star e b m =
    let (y, s, j) = behind_star refl m in let (z, t, k) = between b s j in widen e t k

no_stars : (p : List ℕ) → Matches p [] → all (λ q. q == b'*') p ≡ true
no_stars [] m = refl
no_stars (q ∷ p) (Matches.skip e m) = ground (arith, no_stars p m)

-- The state from which the loop can still accept.
abbrev IsGood : Option (List ℕ × List ℕ) → List ℕ → List ℕ → Type 0
IsGood none p v = Matches p v
IsGood (some (ps, r)) p v = Between ps r p v × Matches (b'*' ∷ ps) r × HasNoStar r

-- The '*' takes one more rune when what stands behind it does not match here.
IsGood-retry :
    (ps r : List ℕ)
    → Matches (b'*' ∷ ps) r
    → HasNoStar r
    → ¬ Matches ps r
    → IsGood (some (ps, rest r)) ps (rest r)
IsGood-retry ps r (Matches.one n h m) k fails = absurd (n refl)
IsGood-retry ps r (Matches.skip _ m) k fails = absurd (fails m)
IsGood-retry ps (c ∷ r) (Matches.take e m) k fails = (start, m, k.1)

IsGood-step :
    (star : Option (List ℕ × List ℕ)) {q c : ℕ} (p v : List ℕ)
    → q ≢ b'*'
    → Hit q c
    → IsGood star (q ∷ p) (c ∷ v)
    → IsGood star p v
IsGood-step none p v n h m =
    let (d, z, e, _, j) = behind_rune n m in subst (Matches p) (tail_eq e) j
IsGood-step (some _) p v n h (b, m, k) = (step n h b, m, k)

IsGood-star :
    (star : Option (List ℕ × List ℕ)) {q c : ℕ} (p v : List ℕ)
    → q ≡ b'*'
    → HasNoStar (c ∷ v)
    → IsGood star (q ∷ p) (c ∷ v)
    → IsGood (some (p, c ∷ v)) p (c ∷ v)
IsGood-star none p v e k m = (start, rw (← e) m, k)
IsGood-star (some _) p v e k (b, m, _) = (start, rw (← e) (later_star e b m), k)

-- Every sequence matches "*".
star_all : (v : List ℕ) → Matches (b'*' ∷ []) v
star_all [] = Matches.skip refl Matches.nil
star_all (c ∷ v) = Matches.take refl (star_all v)

at_end : {y p : List ℕ} → IsSuffix y [] → Matches p y → Matches p []
at_end whole m = m

not_end : {c : ℕ} {v : List ℕ} → ¬ Matches [] (c ∷ v)
not_end m = elim m [ ]

HasNoStar-rest : (r : List ℕ) → HasNoStar r → HasNoStar (rest r)
HasNoStar-rest [] h = h
HasNoStar-rest (c ∷ r) h = h.1

is_star : (q : ℕ) → (q == b'*') ≡ true → q ≡ b'*'
is_star q h = ground arith

no-Hit : (q c : ℕ) → (q == b'?' || q == c) ≡ false → ¬ Hit q c
no-Hit q c h = ground arith

hit : (q c : ℕ) → (q == b'?' || q == c) ≡ true → c ≢ b'*' → Hit q c × (q ≢ b'*')
hit q c h k = ground arith

mismatch :
    (q c : ℕ) (p v : List ℕ)
    → (q == b'?' || q == c) ≡ false
    → (q == b'*') ≡ false
    → ¬ Matches (q ∷ p) (c ∷ v)
mismatch q c p v h s (Matches.one n k m) = no-Hit q c h k
mismatch q c p v h s (Matches.skip e m) = ground arith
mismatch q c p v h s (Matches.take e m) = ground arith

match_loop-ne-false :
    (f : ℕ) (p v : List ℕ) (star : Option (List ℕ × List ℕ))
    → HasNoStar v
    → IsGood star p v
    → match_loop f p v star ≢ some false
unfolding match_loop
match_loop-ne-false zero p v star k g h = cc
match_loop-ne-false (suc f) p [] none k g h = cc (no_stars p g)
match_loop-ne-false (suc f) p [] (some (ps, r)) k (b, m, _) h =
    let (y, s, j) = behind_star refl m in
    let (z, t, i) = between b s j in cc (no_stars p (at_end t i))
match_loop-ne-false (suc f) [] (c ∷ v) none k g h = elim g [ ]
match_loop-ne-false (suc f) [] (c ∷ v) (some (ps, r)) k (b, m, l) h =
    match_loop-ne-false f ps (rest r) (some (ps, rest r)) (HasNoStar-rest r l)
      (IsGood-retry ps r m l (λ j. not_end (Between-same b j))) h
match_loop-ne-false (suc f) (q ∷ p) (c ∷ v) none k g h = elim (Bool-cases (q == b'?' || q == c)) [
  | inl e ↦
      let (i, n) = hit q c e k.0 in
      match_loop-ne-false f p v none k.1 (IsGood-step none p v n i g) (rw e at h)
  | inr e ↦ elim (Bool-cases (q == b'*')) [
    | inl s ↦
        match_loop-ne-false f p (c ∷ v) (some (p, c ∷ v)) k (IsGood-star none p v (is_star q s) k g)
          (rw (e, s) at h)
    | inr s ↦ mismatch q c p v e s g
  ]
]
match_loop-ne-false (suc f) (q ∷ p) (c ∷ v) (some (ps, r)) k g h =
    elim (Bool-cases (q == b'?' || q == c)) [
      | inl e ↦
          let (i, n) = hit q c e k.0 in
          match_loop-ne-false f p v (some (ps, r)) k.1 (IsGood-step (some (ps, r)) p v n i g)
            (rw e at h)
      | inr e ↦ elim (Bool-cases (q == b'*')) [
        | inl s ↦
            match_loop-ne-false f p (c ∷ v) (some (p, c ∷ v)) k
              (IsGood-star (some (ps, r)) p v (is_star q s) k g) (rw (e, s) at h)
        | inr s ↦
            match_loop-ne-false f ps (rest r) (some (ps, rest r)) (HasNoStar-rest r g.2)
              (IsGood-retry ps r g.1 g.2 (λ j. mismatch q c p v e s (Between-same g.0 j)))
              (rw (e, s) at h)
      ]
    ]

decided_of : (o : Option Bool) → o ≢ none → o ≢ some false → decided o ≡ true
decided_of none n f = absurd (n refl)
decided_of (some true) n f = refl
decided_of (some false) n f = absurd (f refl)

-- For a value that holds no '*', `wildcardMatch` accepts exactly the patterns that match it.
pub wildcard_match_exact :
    (pattern value : String)
    → HasNoStar (codes value)
    → (wildcard_match pattern value ≡ true) ↔ Matches (codes pattern) (codes value)
unfolding wildcard_match match_runes
wildcard_match_exact pattern value k = (
  wildcard_match_sound pattern value,
  λ m. decided_of _ (match_loop-total (codes pattern) (codes value)) (
      match_loop-ne-false (enough (length (codes pattern)) (length (codes value))) (codes pattern)
        (codes value) none k m),
)

ends_early : (f c : ℕ) (v : List ℕ) → decided (match_loop f [] (c ∷ v) none) ≡ false
unfolding match_loop
ends_early zero c v = refl
ends_early (suc f) c v = refl

-- A '*' in the value is taken for the literal rune, and the wildcard is lost: the pattern "*", which
-- matches every value, is refused for each value of two or more runes that begins with '*'.
pub wildcard_match_misses :
    (value : List ℕ) (c : ℕ)
    → (match_runes (codes "*") (b'*' ∷ c ∷ value) ≡ false) × Matches (codes "*") (b'*' ∷ c ∷ value)
unfolding match_runes match_loop
wildcard_match_misses value c = (ends_early _ c value, star_all (b'*' ∷ c ∷ value))
