-- ===== src/Pricing/Lookup/Longest.antt =====
-- internal/pricing, `lookupWithKey`: which entry answers for a model.
use burnban.Prelude.{
  ◌≤◌, ◌<◌, String, true, false, none, some, [], ◌∷◌, ltb→lt, codes, str_eq, eq_iff, Bool-cases,
  Option-cases, if◌then◌else◌, ◌≡◌, ◌≢◌, ◌↔◌, ◌⊎◌, inl, inr, refl, sym, ap, ◌∙◌, subst, and_true,
  some_inj, arith,
}
use burnban.Pricing.Types.{Price, Models}
use burnban.Pricing.Lookup.{
  find, extends, better, best_key, or_zero, lookup_longest, lookup_with_key,
}
use burnban.Pricing.Lookup.Prefixes.{
  codes_inj, after_same, extends-after, extends-shorter, size, size_zero,
}

-- The name is the model's own, or the model is a version of it.
abbrev pub Serves : String → String → Type 0
Serves model key = (key ≡ model) ⊎ (extends (codes model) (codes key) ≡ true)

-- No name in the table that serves the model is longer than this one, which does.
pub record IsLongest (models : Models) (model key : String) : Type 0 where
  pub serves : Serves model key
  pub longest :
      (other : String) (p : Price)
      → find other models ≡ some p
      → Serves model other
      → size other ≤ size key

module _ (model : String) where
  -- The best name so far only grows.
  best_key-grows : (best : String) (models : Models) → size best ≤ size (best_key model best models)
  unfolding best_key
  best_key-grows best [] = omega arith
  best_key-grows best ((key, p) ∷ rest) = elim (Bool-cases (better model best key)) [
    | inl e ↦
        let less : size best < size key =
          ltb→lt (size best) (size key) (and_true (extends (codes model) (codes key)) _ e).1 in
        rw e (omega (arith, less, best_key-grows key rest))
    | inr e ↦ rw e (best_key-grows best rest)
  ]

  abbrev Found : String → Models → String → Type 0
  Found best models b =
      (b ≡ best)
      ⊎ ((p : Price) × (find b models ≡ some p) × (extends (codes model) (codes b) ≡ true))

  Found-cons :
      (best b : String) (models : Models) (key : String) (p : Price)
      → (better model best key ≡ true) ⊎ (key ≡ best)
      → Found key models b
      → Found best ((key, p) ∷ models) b
  unfolding find
  Found-cons best b models key p h (inl e) = elim h [
    | inl w ↦ inr (
      p,
      rw (e, (eq_iff key key).1 refl) refl,
      subst (λ k. extends (codes model) (codes k) ≡ true) (sym e) (and_true _ _ w).0,
    )
    | inr q ↦ inl (e ∙ q)
  ]
  Found-cons best b models key p h (inr (q, f, x)) = elim (Bool-cases (str_eq b key)) [
    | inl s ↦ inr (p, rw s refl, x)
    | inr s ↦ inr (q, rw s f, x)
  ]

  -- A name that passes no test leaves the search as it was.
  Found-skip :
      (best b : String) (models : Models) (key : String) (p : Price)
      → Found best models b
      → Found best ((key, p) ∷ models) b
  unfolding find
  Found-skip best b models key p (inl e) = inl e
  Found-skip best b models key p (inr (q, f, x)) = elim (Bool-cases (str_eq b key)) [
    | inl s ↦ inr (p, rw s refl, x)
    | inr s ↦ inr (q, rw s f, x)
  ]

  best_key-Found :
      (best : String) (models : Models) → Found best models (best_key model best models)
  unfolding best_key
  best_key-Found best [] = inl refl
  best_key-Found best ((key, p) ∷ rest) = elim (Bool-cases (better model best key)) [
    | inl e ↦ rw e (Found-cons best _ rest key p (inl e) (best_key-Found key rest))
    | inr e ↦ rw e (Found-skip best _ rest key p (best_key-Found best rest))
  ]

  -- No name that the model extends is longer than the best.
  best_key-longest :
      (best : String) (models : Models) (other : String) (p : Price)
      → find other models ≡ some p
      → extends (codes model) (codes other) ≡ true
      → size other ≤ size (best_key model best models)
  unfolding find best_key
  best_key-longest best [] other p f x = cc
  best_key-longest best ((key, q) ∷ rest) other p f x = elim (Bool-cases (str_eq other key)) [
    | inr s ↦
        best_key-longest (if better model best key then key else best) rest other p (rw s at f) x
    | inl s ↦ here ((eq_iff other key).0 s) (Bool-cases (better model best key))
  ]
    where
      here :
          other ≡ key
          → (better model best key ≡ true) ⊎ (better model best key ≡ false)
          → size other ≤ size (best_key model (if better model best key then key else best) rest)
      here e (inl w) = rw w (omega (arith, ap size e, best_key-grows key rest))
      here e (inr w) =
          let g = best_key-grows best rest in
          let below : size key ≤ size best =
            grind (arith, ap (λ k. extends (codes model) (codes k)) e) in
          rw w (omega (arith, ap size e, g, below))

  Serves-size : (key : String) → Serves model key → size key ≤ size model
  Serves-size key (inl e) = omega (arith, ap size e)
  Serves-size key (inr x) = omega (arith, extends-shorter model key x)

  lookup_longest-some :
      (best : String) (models : Models) (p : Price) (key : String)
      → lookup_longest best models model ≡ some (p, key)
      → (best ≢ "") × (best ≡ key) × (or_zero (find best models) ≡ p)
  unfolding lookup_longest
  lookup_longest-some best models p key h = elim (Bool-cases (str_eq best "")) [
    | inl e ↦ cc (rw e at h)
    | inr e ↦
        let q = some_inj (rw e at h) in
        ((λ z. cc ((eq_iff best "").1 z, e)), ap (λ r. r.1) q, ap (λ r. r.0) q)
  ]

  module _ (models : Models) where
    answers :
        (p : Price) (key : String)
        → lookup_with_key models model ≡ some (p, key)
        → (find key models ≡ some p) × IsLongest models model key
    unfolding lookup_with_key
    answers p key h = elim (Option-cases (find model models)) [
      | inr (q, f) ↦
          let e = some_inj (rw (lookup_with_key, f) at h) in
          let k : model ≡ key = ap (λ r. r.1) e in
          (
            subst (λ n. find n models ≡ some p) k (f ∙ ap (λ r. some r.0) e),
            record {
              serves = inl (sym k);
              longest = λ other r g s. omega (arith, ap size k, Serves-size other s);
            },
          )
      | inl f ↦
          let best = best_key model "" models in
          let (n, e, z) = lookup_longest-some best models p key (rw (lookup_with_key, f) at h) in
          elim (best_key-Found "" models) [
            | inl empty ↦ absurd (n empty)
            | inr (q, g, x) ↦ (
              subst (λ k. find k models ≡ some p) e (g ∙ ap some (sym (ap or_zero g) ∙ z)),
              record {
                serves = inr (subst (λ k. extends (codes model) (codes k) ≡ true) e x);
                longest = λ other r o s. elim s [
                  | inl own ↦ cc (f, o, ap (λ k. find k models) own)
                  | inr y ↦ omega (arith, ap size e, best_key-longest "" models other r o y)
                ];
              },
            )
          ]
    ]

    chosen :
        (p : Price) (key : String)
        → find model models ≡ none
        → find key models ≡ some p
        → extends (codes model) (codes key) ≡ true
        → IsLongest models model key
        → best_key model "" models ≡ key
    chosen p key f g x l = elim (best_key-Found "" models) [
      | inl e ↦
          let small : size key ≤ size (best_key model "" models) =
            best_key-longest "" models key p g x in
          let none_left : size key ≡ 0 = omega (arith, ap size e, small) in
          e ∙ sym (size_zero key none_left)
      | inr (q, h, y) ↦
          let b = best_key model "" models in
          let (r, a, _) = extends-after (codes model) (codes b) y in
          let (t, c, _) = extends-after (codes model) (codes key) x in
          let up : size key ≤ size b = best_key-longest "" models key p g x in
          let down : size b ≤ size key = l.longest b q h (inr y) in
          codes_inj b key (after_same (codes b) (codes key) (codes model) r t a c (omega arith))
    ]

    module _ (named : find "" models ≡ none) where
      named_key : (p : Price) (key : String) → find key models ≡ some p → str_eq key "" ≡ false
      named_key p key g = elim (Bool-cases (str_eq key "")) [
        | inl z ↦ cc (g, named, ap (λ k. find k models) ((eq_iff key "").0 z))
        | inr z ↦ z
      ]

      chosen_answers :
          (p : Price) (key : String)
          → find key models ≡ some p
          → IsLongest models model key
          → lookup_with_key models model ≡ some (p, key)
      unfolding lookup_with_key lookup_longest
      chosen_answers p key g l = elim (Option-cases (find model models)) [
        | inr (q, f) ↦ elim l.serves [
          | inl e ↦ rw (lookup_with_key, f) (cc (f, g, ap (λ k. find k models) e))
          | inr x ↦
              let up : size model ≤ size key = l.longest model q f (inl refl) in
              absurd (omega (arith, extends-shorter model key x))
        ]
        | inl f ↦ elim l.serves [
          | inl e ↦ cc (f, g, ap (λ k. find k models) e)
          | inr x ↦
              let b = chosen p key f g x l in
              rw (lookup_with_key, f, b, g, lookup_longest, named_key p key g) refl
        ]
      ]

-- In a table without an empty name, a lookup answers with an entry exactly where it is the longest name
-- that serves the model: the model's own name, or else one that the model extends with a version.
pub lookup_with_key_iff :
    (model : String) (models : Models) (p : Price) (key : String)
    → find "" models ≡ none
    → ((lookup_with_key models model ≡ some (p, key))
        ↔ ((find key models ≡ some p) × IsLongest models model key))
lookup_with_key_iff model models p key named =
    (answers model models p key, λ h. chosen_answers model models named p key h.0 h.1)

longest_of_same :
    (model key : String) (models models' : Models)
    → ((k : String) → find k models ≡ find k models')
    → IsLongest models model key
    → IsLongest models' model key
longest_of_same model key models models' same l = record {
  serves = l.serves;
  longest = λ other p f s. l.longest other p (same other ∙ f) s;
}

-- Tables with the same entries answer alike, whatever the order in which a loop visits them.
pub lookup_with_key_same :
    (model : String) (models models' : Models)
    → find "" models ≡ none
    → ((k : String) → find k models ≡ find k models')
    → lookup_with_key models model ≡ lookup_with_key models' model
lookup_with_key_same model models models' named same =
    elim (Option-cases (lookup_with_key models model)) [
      | inr ((p, key), e) ↦
          let (f, l) = answers model models p key e in
          e
          ∙ sym (
              chosen_answers model models' (sym (same "") ∙ named) p key (sym (same key) ∙ f)
                (longest_of_same model key models models' same l))
      | inl e ↦ elim (Option-cases (lookup_with_key models' model)) [
        | inl e' ↦ e ∙ sym e'
        | inr ((p, key), e') ↦
            let (f, l) = answers model models' p key e' in
            cc (
              e,
              chosen_answers model models named p key (same key ∙ f)
                  (longest_of_same model key models' models (λ k. sym (same k)) l),
            )
      ]
    ]
