-- ===== src/Pricing/Resolve/Ids.antt =====
-- internal/pricing: what a valid file says of its ids and names.
use mathlib.Core.List.Memᴰ
use burnban.Prelude.{
  ℕ, String, true, false, none, List, [], ◌∷◌, Memᴰ, not, all, any, is_empty, str_eq, eq_iff,
  Bool-cases, ◌≡◌, inl, inr, refl, sym, ap, ◌∙◌, subst, and_true, arith,
}
use burnban.Pricing.Types.{ContractPrice, Models, Go}
use burnban.Pricing.Validate.{validate_pricing_label, price_ok, model_ok, validate_models}
use burnban.Pricing.Lookup.{find}
use burnban.Pricing.Contracts.{contract_named, contract_ok, contracts_ok}

module _ (go : Go) where
  contract_ok-fresh :
      (seen : List String) (c : ContractPrice)
      → contract_ok go seen c ≡ true
      → any (str_eq c.id) seen ≡ false
  unfolding contract_ok contract_named
  contract_ok-fresh seen c h = ground arith

  fresh-at :
      (seen : List String) (contracts : List ContractPrice) (a : ContractPrice)
      → contracts_ok go seen contracts ≡ true
      → Memᴰ a contracts
      → any (str_eq a.id) seen ≡ false
  unfolding contracts_ok
  fresh-at seen [] a h m = absurd (Memᴰ.not-nil m)
  fresh-at seen (c ∷ rest) a h m =
      let (here, there) = and_true (contract_ok go seen c) (contracts_ok go (c.id ∷ seen) rest) h in
      elim (Memᴰ.cases_cons m) [
        | inl e ↦
            subst (λ x. any (str_eq x.id) seen ≡ false) (sym e) (contract_ok-fresh seen c here)
        | inr t ↦
            let later : any (str_eq a.id) (c.id ∷ seen) ≡ false =
              fresh-at (c.id ∷ seen) rest a there t in
            ground arith
      ]

  -- A contract is told by its id.
  pub contracts_ok-inj :
      (seen : List String) (contracts : List ContractPrice) (a b : ContractPrice)
      → contracts_ok go seen contracts ≡ true
      → Memᴰ a contracts
      → Memᴰ b contracts
      → a.id ≡ b.id
      → a ≡ b
  unfolding contracts_ok
  contracts_ok-inj seen [] a b h m n e = absurd (Memᴰ.not-nil m)
  contracts_ok-inj seen (c ∷ rest) a b h m n e =
      let there = (and_true (contract_ok go seen c) (contracts_ok go (c.id ∷ seen) rest) h).1 in
      elim (Memᴰ.cases_cons m) [
        | inl x ↦ elim (Memᴰ.cases_cons n) [
          | inl y ↦ x ∙ sym y
          | inr t ↦ absurd (
              seen_here c.id b.id seen (sym (ap (λ r. r.id) x) ∙ e)
                (fresh-at (c.id ∷ seen) rest b there t))
        ]
        | inr t ↦ elim (Memᴰ.cases_cons n) [
          | inl y ↦ absurd (
              seen_here c.id a.id seen (sym (ap (λ r. r.id) y) ∙ sym e)
                (fresh-at (c.id ∷ seen) rest a there t))
          | inr u ↦ contracts_ok-inj (c.id ∷ seen) rest a b there t u e
        ]
      ]
    where
      seen_here :
          (k j : String) (seen : List String) → k ≡ j → any (str_eq j) (k ∷ seen) ≡ false → ⊥
      seen_here k j seen e f = ground (arith, eq_iff j k)

  empty_label : (n : ℕ) → validate_pricing_label go "" n ≡ true → false ≡ true
  unfolding validate_pricing_label
  empty_label n h = h

  label_not-empty :
      (name : String) (n : ℕ) → validate_pricing_label go name n ≡ true → str_eq "" name ≡ false
  unfolding validate_pricing_label
  label_not-empty name n h = elim (Bool-cases (str_eq "" name)) [
    | inr e ↦ e
    | inl e ↦ cc (
        empty_label n
          (subst (λ s. validate_pricing_label go s n ≡ true) (sym ((eq_iff "" name).0 e)) h))
  ]

  -- A valid table has no empty name.
  all_ok-named : (models : Models) → all (model_ok go) models ≡ true → find "" models ≡ none
  unfolding find model_ok
  all_ok-named [] h = refl
  all_ok-named ((name, p) ∷ rest) h =
      let (here, there) = and_true (model_ok go (name, p)) (all (model_ok go) rest) h in
      rw
        (label_not-empty name 256
          (and_true (validate_pricing_label go name 256) (price_ok go p) here).0)
        (all_ok-named rest there)

  pub validate_models-named :
      (models : Models) → validate_models go models ≡ true → find "" models ≡ none
  unfolding validate_models
  validate_models-named models h =
      all_ok-named models (and_true (not (is_empty models)) (all (model_ok go) models) h).1
