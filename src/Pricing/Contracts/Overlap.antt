-- ===== src/Pricing/Contracts/Overlap.antt =====
-- internal/pricing/layers.go: two contracts of a valid file that match one request.
use mathlib.Core.List.Memᴰ
use burnban.Prelude.{
  String, Bool, true, false, not, ◌&&◌, List, [], ◌∷◌, Memᴰ, ==_iff, str_eq, str_lt, eq_iff,
  Bool-cases, ◌≡◌, ◌≢◌, ◌⊎◌, inl, inr, refl, sym, ap, ◌∙◌, subst, and_true, not-true, all-at, arith,
}
use burnban.Prelude.Sort.{sort_by, Memᴰ-sort_by}
use burnban.Prelude.TextOrder.{str_lt_trans, str_lt_total}
use burnban.Pricing.Types.{ContractPrice, Go}
use burnban.Pricing.Contracts.{
  Query, model_matches, date_in_range, contract_specificity, last_day, ranges_overlap,
  optional_matches, contract_matches, contract_named, contract_dated, contract_priced, contract_ok,
  contracts_ok, same_selector, is_ambiguous, is_unambiguous, validate_contracts,
}
use burnban.Pricing.Contracts.Crossing.{IsCrossing, dimensions_bool, crossing}
use burnban.Pricing.Contracts.Names.{model_matches-overlap}

-- What the library's calls are documented to do: EqualFold is an equivalence, and a YYYY-MM-DD has four
-- digits for its year.
pub record IsFolding (go : Go) : Type 0 where
  pub self : (a : String) → go.equal_fold a a ≡ true
  pub same :
      (a b v : String)
      → go.equal_fold a v ≡ true
      → go.equal_fold b v ≡ true
      → go.equal_fold a b ≡ true
  pub dated : (d : String) → go.is_date d ≡ true → str_lt "9999-12-31" d ≡ false

-- A day that is not before `from` nor after `through`.
not_before :
    (date from through : String)
    → str_lt date from ≡ false
    → str_lt through date ≡ false
    → str_lt through from ≡ false
not_before date from through h k = elim (Bool-cases (str_lt through from)) [
  | inr e ↦ e
  | inl e ↦ elim (Bool-cases (str_lt date through)) [
    | inl l ↦ cc (str_lt_trans date through from l e, h)
    | inr l ↦ cc (h, ap (λ d. str_lt d from) (str_lt_total date through l k))
  ]
]

in_range_parts :
    (date from through : String)
    → date_in_range date from through ≡ true
    → ((from ≡ "") ⊎ (str_lt date from ≡ false)) × ((through ≡ "") ⊎ (str_lt through date ≡ false))
unfolding date_in_range
in_range_parts date from through h = ground (arith, eq_iff from "", eq_iff through "")

module _ (go : Go) (laws : IsFolding go) where
  ends_after :
      (a b : ContractPrice) (date : String)
      → go.is_date a.effective_from ≡ true
      → str_eq a.effective_from "" ≡ false
      → date_in_range date a.effective_from a.valid_through ≡ true
      → date_in_range date b.effective_from b.valid_through ≡ true
      → str_lt (last_day b) a.effective_from ≡ false
  unfolding last_day
  ends_after a b date d n h k =
      let from = (in_range_parts date a.effective_from a.valid_through h).0 in
      let through = (in_range_parts date b.effective_from b.valid_through k).1 in
      elim (Bool-cases (str_eq b.valid_through "")) [
        | inl e ↦ rw e (laws.dated a.effective_from d)
        | inr e ↦ rw e (elim from [
          | inl z ↦ cc (n, (eq_iff a.effective_from "").1 z)
          | inr f ↦ elim through [
            | inl z ↦ cc (e, (eq_iff b.valid_through "").1 z)
            | inr t ↦ not_before date a.effective_from b.valid_through f t
          ]
        ])
      ]

  optional-same :
      (a b v : String)
      → optional_matches go a v ≡ true
      → optional_matches go b v ≡ true
      → str_eq a "" ≡ str_eq b ""
      → go.equal_fold a b ≡ true
  unfolding optional_matches
  optional-same a b v h k e = elim (Bool-cases (str_eq a "")) [
    | inl z ↦
        let x : a ≡ b = (eq_iff a "").0 z ∙ sym ((eq_iff b "").0 (sym e ∙ z)) in
        subst (λ c. go.equal_fold a c ≡ true) x (laws.self a)
    | inr z ↦ laws.same a b (go.trim_space v) (rw z at h) (rw (sym e ∙ z) at k)
  ]

  unambiguous-pair :
      (contracts : List ContractPrice) (a b : ContractPrice)
      → is_unambiguous go contracts ≡ true
      → Memᴰ a contracts
      → Memᴰ b contracts
      → a.id ≢ b.id
      → (is_ambiguous go a b ≡ false) ⊎ (is_ambiguous go b a ≡ false)
  unfolding is_unambiguous
  unambiguous-pair [] a b h m n d = absurd (Memᴰ.not-nil m)
  unambiguous-pair (c ∷ rest) a b h m n d =
      let (here, there) = and_true _ _ h in
      elim (Memᴰ.cases_cons m) [
        | inl e ↦ elim (Memᴰ.cases_cons n) [
          | inl f ↦ absurd (d (ap (λ r. r.id) (e ∙ sym f)))
          | inr f ↦ inl (
              subst (λ x. is_ambiguous go x b ≡ false) (sym e)
                (not-true _ (all-at (λ y. not (is_ambiguous go c y)) b rest here f)))
        ]
        | inr e ↦ elim (Memᴰ.cases_cons n) [
          | inl f ↦ inr (
              subst (λ x. is_ambiguous go x a ≡ false) (sym f)
                (not-true _ (all-at (λ y. not (is_ambiguous go c y)) a rest here e)))
          | inr f ↦ unambiguous-pair rest a b there e f d
        ]
      ]

  contract_ok-dated :
      (seen : List String) (c : ContractPrice)
      → contract_ok go seen c ≡ true
      → contract_dated go c ≡ true
  unfolding contract_ok
  contract_ok-dated seen c h =
      let rest =
        and_true (contract_named go seen c) (contract_dated go c && contract_priced go c) h in
      (and_true (contract_dated go c) (contract_priced go c) rest.1).0

  contracts_ok-at :
      (seen : List String) (contracts : List ContractPrice) (a : ContractPrice)
      → contracts_ok go seen contracts ≡ true
      → Memᴰ a contracts
      → contract_dated go a ≡ true
  unfolding contracts_ok
  contracts_ok-at seen [] a h m = absurd (Memᴰ.not-nil m)
  contracts_ok-at seen (c ∷ rest) a h m =
      let (here, there) = and_true (contract_ok go seen c) (contracts_ok go (c.id ∷ seen) rest) h in
      elim (Memᴰ.cases_cons m) [
        | inl e ↦ subst (λ x. contract_dated go x ≡ true) (sym e) (contract_ok-dated seen c here)
        | inr t ↦ contracts_ok-at (c.id ∷ seen) rest a there t
      ]

  dated_parts :
      (a : ContractPrice)
      → contract_dated go a ≡ true
      → (str_eq a.effective_from "" ≡ false) × (go.is_date a.effective_from ≡ true)
  unfolding contract_dated
  dated_parts a h = ground arith

and_parts :
    (a b c d e : Bool)
    → (a && b && c && d && e) ≡ true
    → (a ≡ true) × (b ≡ true) × (c ≡ true) × (d ≡ true) × (e ≡ true)
and_parts a b c d e h = ground arith

-- The parts of a match.
match_parts :
    (go : Go) (c : ContractPrice) (q : Query)
    → contract_matches go c q ≡ true
    → (go.equal_fold c.provider (go.trim_space q.provider) ≡ true)
      × (model_matches c.model q.model ≡ true)
      × (date_in_range q.date c.effective_from c.valid_through ≡ true)
      × (optional_matches go c.region q.region ≡ true)
      × (optional_matches go c.service_tier q.service_tier ≡ true)
unfolding contract_matches
match_parts go c q h =
    and_parts (go.equal_fold c.provider (go.trim_space q.provider)) (model_matches c.model q.model)
      (date_in_range q.date c.effective_from c.valid_through)
      (optional_matches go c.region q.region) (optional_matches go c.service_tier q.service_tier) h

module _ (go : Go) (laws : IsFolding go) where
  -- Two valid contracts that match one request by the same dimensions are ambiguous.
  both_match-is_ambiguous :
      (a b : ContractPrice) (q : Query)
      → contract_dated go a ≡ true
      → contract_dated go b ≡ true
      → contract_matches go a q ≡ true
      → contract_matches go b q ≡ true
      → contract_specificity a ≡ contract_specificity b
      → str_eq a.region "" ≡ str_eq b.region ""
      → str_eq a.service_tier "" ≡ str_eq b.service_tier ""
      → is_ambiguous go a b ≡ true
  unfolding is_ambiguous same_selector ranges_overlap
  both_match-is_ambiguous a b q da db ma mb s r t =
      let (p, m, d, o, v) = match_parts go a q ma in
      let (p', m', d', o', v') = match_parts go b q mb in
      let (na, fa) = dated_parts go laws a da in
      let (nb, fb) = dated_parts go laws b db in
      rw
        (
          (==_iff _ _).1 s,
          laws.same a.provider b.provider _ p p',
          model_matches-overlap a.model b.model q.model m m',
          optional-same go laws a.region b.region q.region o o' r,
          optional-same go laws a.service_tier b.service_tier q.service_tier v v' t,
          ends_after go laws a b q.date fa na d d',
          ends_after go laws b a q.date fb nb d' d,
        )
        refl

  -- In a valid file, two contracts that match one request and are as specific name different
  -- dimensions: one a region and no service tier, the other a service tier and no region. So a file
  -- with no such pair has one most specific contract for each request.
  pub validate_contracts-IsCrossing :
      (contracts : List ContractPrice) (a b : ContractPrice) (q : Query)
      → validate_contracts go contracts ≡ true
      → Memᴰ a contracts
      → Memᴰ b contracts
      → a.id ≢ b.id
      → contract_matches go a q ≡ true
      → contract_matches go b q ≡ true
      → contract_specificity a ≡ contract_specificity b
      → IsCrossing a b ⊎ IsCrossing b a
  unfolding validate_contracts contract_specificity
  validate_contracts-IsCrossing contracts a b q v m n d ma mb s =
      let (each, pairs) = and_true (contracts_ok go [] contracts) _ v in
      let da = contracts_ok-at go laws [] contracts a each m in
      let db = contracts_ok-at go laws [] contracts b each n in
      elim (dimensions_bool (str_eq a.region "") (str_eq a.service_tier "") (str_eq b.region "")
        (str_eq b.service_tier "") s) [
          | inr (inl (ra, ta, rb, tb)) ↦ inl (crossing a b ra ta rb tb)
          | inr (inr (rb, tb, ra, ta)) ↦ inr (crossing b a rb tb ra ta)
          | inl (r, t) ↦
              let sorted = sort_by (λ (x y : ContractPrice). str_lt x.id y.id) contracts in
              elim (unambiguous-pair go laws sorted a b pairs (Memᴰ-sort_by _ a contracts m)
                (Memᴰ-sort_by _ b contracts n) d) [
                  | inl f ↦ cc (f, both_match-is_ambiguous a b q da db ma mb s r t)
                  | inr f ↦
                      cc (f, both_match-is_ambiguous b a q db da mb ma (sym s) (sym r) (sym t))
                ]
        ]
