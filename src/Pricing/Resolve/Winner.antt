-- ===== src/Pricing/Resolve/Winner.antt =====
-- internal/pricing/layers.go, `Table.Resolve`: the contract that wins.
use mathlib.Core.List.Memᴰ
use burnban.Prelude.{
  ◌≤◌, true, ◌&&◌, Option, none, some, List, [], ◌∷◌, Memᴰ, Bool-cases, if◌then◌else◌, ◌≡◌, ◌⊎◌,
  inl, inr, refl, sym, ap, subst, and_true, some_inj, arith,
}
use burnban.Pricing.Types.{ContractPrice, Go}
use burnban.Pricing.Contracts.{Query, contract_matches, contract_specificity}
use burnban.Pricing.Resolve.{beats, winner_from}

module _ (go : Go) (q : Query) where
  -- The winner is not below the contract.
  abbrev AtLeast : ContractPrice → Option ContractPrice → Type 0
  AtLeast c none = ⊥
  AtLeast c (some w) = contract_specificity c ≤ contract_specificity w

  -- A winner is one that was before, or a contract of the list that matches.
  abbrev From : Option ContractPrice → List ContractPrice → Option ContractPrice → Type 0
  From winner contracts none = winner ≡ none
  From winner contracts (some w) =
      (winner ≡ some w) ⊎ (Memᴰ w contracts × (contract_matches go w q ≡ true))

  abbrev step : ContractPrice → Option ContractPrice → Option ContractPrice
  step c winner = if contract_matches go c q && beats c winner then some c else winner

  AtLeast-step :
      (c d : ContractPrice) (winner : Option ContractPrice)
      → AtLeast d winner
      → AtLeast d (step c winner)
  unfolding beats
  AtLeast-step c d none h = absurd h
  AtLeast-step c d (some w) h = ground arith

  AtLeast-here :
      (c : ContractPrice) (winner : Option ContractPrice)
      → contract_matches go c q ≡ true
      → AtLeast c (step c winner)
  unfolding beats
  AtLeast-here c none h = rw h (omega arith)
  AtLeast-here c (some w) h = ground arith

  winner-AtLeast :
      (winner : Option ContractPrice) (contracts : List ContractPrice) (d : ContractPrice)
      → AtLeast d winner ⊎ (Memᴰ d contracts × (contract_matches go d q ≡ true))
      → AtLeast d (winner_from go q winner contracts)
  unfolding winner_from
  winner-AtLeast winner [] d (inl h) = h
  winner-AtLeast winner [] d (inr (m, h)) = absurd (Memᴰ.not-nil m)
  winner-AtLeast winner (c ∷ rest) d (inl h) =
      winner-AtLeast (step c winner) rest d (inl (AtLeast-step c d winner h))
  winner-AtLeast winner (c ∷ rest) d (inr (m, h)) = elim (Memᴰ.cases_cons m) [
    | inr t ↦ winner-AtLeast (step c winner) rest d (inr (t, h))
    | inl e ↦ winner-AtLeast (step c winner) rest d (
        inl (
          subst (λ x. AtLeast x (step c winner)) (sym e)
            (AtLeast-here c winner (subst (λ x. contract_matches go x q ≡ true) e h))))
  ]

  From-start : (winner : Option ContractPrice) → From winner [] winner
  From-start none = refl
  From-start (some w) = inl refl

  From-step :
      (c : ContractPrice) (winner : Option ContractPrice) (rest : List ContractPrice)
      (result : Option ContractPrice)
      → From (step c winner) rest result
      → From winner (c ∷ rest) result
  From-step c winner rest result h = elim (Bool-cases (contract_matches go c q && beats c winner)) [
    | inr e ↦
        kept result (subst (λ w. From w rest result) (ap (λ b. if b then some c else winner) e) h)
    | inl e ↦
        taken result (subst (λ w. From w rest result) (ap (λ b. if b then some c else winner) e) h)
          (and_true (contract_matches go c q) (beats c winner) e).0
  ]
    where
      kept : (r : Option ContractPrice) → From winner rest r → From winner (c ∷ rest) r
      kept none k = k
      kept (some w) (inl k) = inl k
      kept (some w) (inr (m, k)) = inr (Memᴰ.tail m, k)

      taken :
          (r : Option ContractPrice)
          → From (some c) rest r
          → contract_matches go c q ≡ true
          → From winner (c ∷ rest) r
      taken none k m = cc
      taken (some w) (inl k) m =
          let e : c ≡ w = some_inj k in
          inr (Memᴰ.head (sym e), subst (λ x. contract_matches go x q ≡ true) e m)
      taken (some w) (inr (t, k)) m = inr (Memᴰ.tail t, k)

  winner-From :
      (winner : Option ContractPrice) (contracts : List ContractPrice)
      → From winner contracts (winner_from go q winner contracts)
  unfolding winner_from
  winner-From winner [] = From-start winner
  winner-From winner (c ∷ rest) =
      From-step c winner rest (winner_from go q (step c winner) rest)
        (winner-From (step c winner) rest)

  -- A contract of the list that matches, and none that matches is more specific.
  pub record IsWinner (contracts : List ContractPrice) (w : ContractPrice) : Type 0 where
    pub listed : Memᴰ w contracts
    pub matches : contract_matches go w q ≡ true
    pub most :
        (d : ContractPrice)
        → Memᴰ d contracts
        → contract_matches go d q ≡ true
        → contract_specificity d ≤ contract_specificity w

  pub winner_from-IsWinner :
      (contracts : List ContractPrice) (w : ContractPrice)
      → winner_from go q none contracts ≡ some w
      → IsWinner contracts w
  winner_from-IsWinner contracts w h =
      elim (subst (From none contracts) h (winner-From none contracts)) [
        | inl e ↦ cc e
        | inr (m, k) ↦ record {
          listed = m;
          matches = k;
          most = λ d n l. subst (AtLeast d) h (winner-AtLeast none contracts d (inr (n, l)));
        }
      ]

  -- Where nothing wins, nothing matches.
  pub winner_from-none :
      (contracts : List ContractPrice) (d : ContractPrice)
      → winner_from go q none contracts ≡ none
      → Memᴰ d contracts
      → contract_matches go d q ≡ true
      → ⊥
  winner_from-none contracts d h m k =
      subst (AtLeast d) h (winner-AtLeast none contracts d (inr (m, k)))
