-- ===== src/Pricing/Contracts/Names.antt =====
-- internal/pricing/layers.go: the names of two contracts that match one model.
use burnban.Prelude.{
  ℕ, String, true, ◌&&◌, some, List, [], ◌∷◌, leb, codes, str_eq, eq_iff, Bool-cases, ◌≡◌, ◌⊎◌, inl,
  inr, refl, sym, subst, and_true, arith,
}
use burnban.Pricing.Lookup.{after, version_suffix, extends, is_tag}
use burnban.Pricing.Lookup.Prefixes.{extends-after, codes_inj}
use burnban.Pricing.Contracts.{model_matches, model_selectors_overlap}

-- Two texts that are prefixes of a third: the shorter is a prefix of the longer.
after_both :
    (p q s t u : List ℕ)
    → after p s ≡ some t
    → after q s ≡ some u
    → ((r : List ℕ) × (after p q ≡ some r) × (after r t ≡ some u))
      ⊎ ((r : List ℕ) × (after q p ≡ some r) × (after r u ≡ some t))
unfolding after
after_both [] q s t u h k = inl (q, refl, subst (λ x. after q x ≡ some u) (cc) k)
after_both (c ∷ p) [] s t u h k = inr (c ∷ p, refl, subst (λ x. after (c ∷ p) x ≡ some t) (cc) h)
after_both (c ∷ p) (d ∷ q) [] t u h k = cc
after_both (c ∷ p) (d ∷ q) (x ∷ s) t u h k =
    elim (after_both p q s t u (ground arith) (ground arith)) [
      | inl (r, e, f) ↦ inl (r, ground arith, f)
      | inr (r, e, f) ↦ inr (r, ground arith, f)
    ]

version_suffix-tag : (c : ℕ) (s : List ℕ) → version_suffix (c ∷ s) ≡ true → is_tag c ≡ true
unfolding version_suffix
version_suffix-tag c [] h = cc
version_suffix-tag c (d ∷ s) h = (and_true _ _ h).0

no_tag_digit : (c : ℕ) → is_tag c ≡ true → (leb 48 c && leb c 57) ≡ true → ⊥
no_tag_digit c h k = ground arith

-- Where a text and what is left of it after a few runes both begin with a version, so do the few runes,
-- if there are any.
version_between :
    (r t u : List ℕ)
    → after r t ≡ some u
    → version_suffix t ≡ true
    → version_suffix u ≡ true
    → (r ≡ []) ⊎ (version_suffix r ≡ true)
unfolding after version_suffix
version_between [] t u h v w = inl refl
version_between (c ∷ []) (x ∷ y ∷ t) u h v w =
    let left : y ∷ t ≡ u = ground arith in
    let tag = version_suffix-tag y t (subst (λ s. version_suffix s ≡ true) (sym left) w) in
    absurd (no_tag_digit y tag (and_true (is_tag x) _ v).1)
version_between (c ∷ d ∷ r) (x ∷ y ∷ t) u h v w = inr (ground arith)
version_between (c ∷ r) (x ∷ []) u h v w = cc
version_between (c ∷ r) [] u h v w = cc

after_nil : (p q : List ℕ) → after p q ≡ some [] → p ≡ q
unfolding after
after_nil [] q h = cc
after_nil (c ∷ p) [] h = cc
after_nil (c ∷ p) (d ∷ q) h = ground (arith, after_nil p q)

-- The names of two contracts that match one model overlap, as `modelSelectorsOverlap` sees it.
extends_both :
    (model a b : List ℕ)
    → extends model a ≡ true
    → extends model b ≡ true
    → (a ≡ b) ⊎ (extends b a ≡ true) ⊎ (extends a b ≡ true)
unfolding extends
extends_both model a b h k =
    let (t, p, v) = extends-after model a h in
    let (u, q, w) = extends-after model b k in
    elim (after_both a b model t u p q) [
      | inl (r, e, f) ↦ elim (version_between r t u f v w) [
        | inl z ↦ inl (after_nil a b (subst (λ s. after a b ≡ some s) z e))
        | inr z ↦ inr (inl (rw (extends, e) z))
      ]
      | inr (r, e, f) ↦ elim (version_between r u t f w v) [
        | inl z ↦ inl (sym (after_nil b a (subst (λ s. after b a ≡ some s) z e)))
        | inr z ↦ inr (inr (rw (extends, e) z))
      ]
    ]

pub model_matches-overlap :
    (a b model : String)
    → model_matches a model ≡ true
    → model_matches b model ≡ true
    → model_selectors_overlap a b ≡ true
unfolding model_matches model_selectors_overlap
model_matches-overlap a b model h k = elim (Bool-cases (str_eq model a)) [
  | inl e ↦ ground (arith, subst (λ m. model_matches b m ≡ true) ((eq_iff model a).0 e) k)
  | inr e ↦ elim (Bool-cases (str_eq model b)) [
    | inl f ↦ ground (arith, subst (λ m. model_matches a m ≡ true) ((eq_iff model b).0 f) h)
    | inr f ↦ elim (extends_both (codes model) (codes a) (codes b) (ground arith) (ground arith)) [
      | inl z ↦ ground (arith, (eq_iff b a).1 (sym (codes_inj a b z)))
      | inr (inl z) ↦ ground arith
      | inr (inr z) ↦ ground arith
    ]
  ]
]
