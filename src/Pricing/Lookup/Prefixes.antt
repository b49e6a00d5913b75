-- ===== src/Pricing/Lookup/Prefixes.antt =====
-- internal/pricing, the names that a model extends with a version.
use Prim.Native.Char.{code}
use text.Mathlib.TextEquality.{codes_equal}
use burnban.Prelude.{
  ℕ, ◌+◌, ◌<◌, String, true, some, List, [], ◌∷◌, codes, byte_len, rune_len, Option-cases, ◌≡◌, inl,
  inr, refl, arith,
}
use burnban.Pricing.Lookup.{after, version_suffix, extends}

pub codes_inj : (s t : String) → codes s ≡ codes t → s ≡ t
codes_inj String.[] String.[] h = refl
codes_inj String.[] (String.◌∷◌ d t) h = cc
codes_inj (String.◌∷◌ c s) String.[] h = cc
codes_inj (String.◌∷◌ c s) (String.◌∷◌ d t) h =
    let e : code c ≡ code d = cc in
    let r : codes s ≡ codes t = cc in
    λ i. String.◌∷◌ (codes_equal c d (ground arith) i) (codes_inj s t r i)

pub rune_len-pos : (c : ℕ) → 0 < rune_len c
rune_len-pos c = ground arith

pub after_len :
    (prefix s rest : List ℕ)
    → after prefix s ≡ some rest
    → byte_len s ≡ byte_len prefix + byte_len rest
unfolding after
after_len [] s rest h = ground arith
after_len (c ∷ prefix) [] rest h = cc
after_len (c ∷ prefix) (d ∷ s) rest h = ground (arith, after_len prefix s rest)

-- Two prefixes of one text that are as long are the same.
pub after_same :
    (p q s t u : List ℕ) → after p s ≡ some t → after q s ≡ some u → byte_len p ≡ byte_len q → p ≡ q
unfolding after
after_same [] [] s t u h k e = refl
after_same [] (d ∷ q) s t u h k e = absurd (omega (arith, rune_len-pos d))
after_same (c ∷ p) [] s t u h k e = absurd (omega (arith, rune_len-pos c))
after_same (c ∷ p) (d ∷ q) [] t u h k e = cc
after_same (c ∷ p) (d ∷ q) (x ∷ s) t u h k e = ground (arith, after_same p q s t u)

version_suffix-len : (s : List ℕ) → version_suffix s ≡ true → 0 < byte_len s
unfolding version_suffix
version_suffix-len [] h = cc
version_suffix-len (c ∷ []) h = cc
version_suffix-len (c ∷ d ∷ s) h = omega (arith, rune_len-pos c)

-- What follows a prefix that a model extends.
pub extends-after :
    (model key : List ℕ)
    → extends model key ≡ true
    → (rest : List ℕ) × (after key model ≡ some rest) × (version_suffix rest ≡ true)
unfolding extends
extends-after model key h = elim (Option-cases (after key model)) [
  | inl e ↦ cc (rw (extends, e) at h)
  | inr (rest, e) ↦ (rest, e, rw (extends, e) at h)
]

-- The bytes of a name.
abbrev pub size : String → ℕ
size s = byte_len (codes s)

pub extends-shorter :
    (model key : String) → extends (codes model) (codes key) ≡ true → size key < size model
extends-shorter model key h =
    let (rest, e, v) = extends-after (codes model) (codes key) h in
    omega (arith, after_len (codes key) (codes model) rest e, version_suffix-len rest v)

pub size_zero : (s : String) → size s ≡ 0 → s ≡ ""
size_zero String.[] h = refl
size_zero (String.◌∷◌ c s) h = absurd (omega (arith, rune_len-pos (code c)))
