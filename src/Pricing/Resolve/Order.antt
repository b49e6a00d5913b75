-- ===== src/Pricing/Resolve/Order.antt =====
-- internal/pricing: prices do not hang on the order of a file where no two contracts cross.
use burnban.Prelude.{
  String, true, Option, none, some, List, [], Memᴰ, str_eq, eq_iff, Bool-cases, Option-cases, ◌≡◌,
  ◌≢◌, inl, inr, refl, sym, ap, ◌∙◌, and_true, arith,
}
use burnban.Prelude.Int.{ℤ}
use burnban.Float.{Float64}
use burnban.Pricing.Types.{ContractPrice, Table, Go}
use burnban.Pricing.Validate.{validate_models}
use burnban.Pricing.Lookup.{find, lookup_with_key}
use burnban.Pricing.Lookup.Longest.{lookup_with_key_same}
use burnban.Pricing.Contracts.{
  Query, contract_matches, contract_specificity, contracts_ok, validate_contracts,
}
use burnban.Pricing.Contracts.Overlap.{IsFolding, validate_contracts-IsCrossing}
use burnban.Pricing.Resolve.{winner_from, of_layers, of_table, query_of, resolve}
use burnban.Pricing.Resolve.Winner.{IsWinner, winner_from-IsWinner, winner_from-none}
use burnban.Pricing.Contracts.Crossing.{IsCrossing}
use burnban.Pricing.Resolve.Ids.{contracts_ok-inj, validate_models-named}

-- Two tables hold the same prices, in any order.
pub record SameEntries (t t' : Table) : Type 0 where
  pub prices : (k : String) → find k t.models ≡ find k t'.models
  pub there : (c : ContractPrice) → Memᴰ c t.contracts → Memᴰ c t'.contracts
  pub back : (c : ContractPrice) → Memᴰ c t'.contracts → Memᴰ c t.contracts

-- No two of the contracts that match the request cross.
abbrev pub HasNoCrossing : Go → Query → List ContractPrice → Type 0
HasNoCrossing go q contracts =
    (a b : ContractPrice)
    → Memᴰ a contracts
    → Memᴰ b contracts
    → contract_matches go a q ≡ true
    → contract_matches go b q ≡ true
    → ¬ IsCrossing a b

module _ (go : Go) (laws : IsFolding go) (q : Query) where
  IsWinner-unique :
      (contracts : List ContractPrice) (w w' : ContractPrice)
      → validate_contracts go contracts ≡ true
      → HasNoCrossing go q contracts
      → IsWinner go q contracts w
      → IsWinner go q contracts w'
      → w ≡ w'
  unfolding validate_contracts
  IsWinner-unique contracts w w' v clear h h' =
      let each = (and_true (contracts_ok go [] contracts) _ v).0 in
      let same : contract_specificity w ≡ contract_specificity w' =
        omega (arith, h.most w' h'.listed h'.matches, h'.most w h.listed h.matches) in
      elim (Bool-cases (str_eq w.id w'.id)) [
        | inl e ↦
            contracts_ok-inj go [] contracts w w' each h.listed h'.listed ((eq_iff w.id w'.id).0 e)
        | inr e ↦
            let apart : w.id ≢ w'.id = λ z. cc (e, (eq_iff w.id w'.id).1 z) in
            elim (validate_contracts-IsCrossing go laws contracts w w' q v h.listed h'.listed apart
              h.matches h'.matches same) [
                | inl x ↦ absurd (clear w w' h.listed h'.listed h.matches h'.matches x)
                | inr x ↦ absurd (clear w' w h'.listed h.listed h'.matches h.matches x)
              ]
      ]

  IsWinner-map :
      (t t' : Table) (w : ContractPrice)
      → SameEntries t t'
      → IsWinner go q t'.contracts w
      → IsWinner go q t.contracts w
  IsWinner-map t t' w s h = record {
    listed = s.back w h.listed;
    matches = h.matches;
    most = λ d m l. h.most d (s.there d m) l;
  }

  winner_same :
      (t t' : Table)
      → validate_contracts go t.contracts ≡ true
      → HasNoCrossing go q t.contracts
      → SameEntries t t'
      → winner_from go q none t.contracts ≡ winner_from go q none t'.contracts
  winner_same t t' v clear s = elim (Option-cases (winner_from go q none t.contracts)) [
    | inr (w, e) ↦
        let h = winner_from-IsWinner go q t.contracts w e in
        elim (Option-cases (winner_from go q none t'.contracts)) [
          | inl e' ↦ absurd (winner_from-none go q t'.contracts w e' (s.there w h.listed) h.matches)
          | inr (w', e') ↦
              let h' = IsWinner-map t t' w' s (winner_from-IsWinner go q t'.contracts w' e') in
              e ∙ ap some (IsWinner-unique t.contracts w w' v clear h h') ∙ sym e'
        ]
    | inl e ↦ elim (Option-cases (winner_from go q none t'.contracts)) [
      | inl e' ↦ e ∙ sym e'
      | inr (w', e') ↦
          let h' = IsWinner-map t t' w' s (winner_from-IsWinner go q t'.contracts w' e') in
          absurd (winner_from-none go q t.contracts w' e h'.listed h'.matches)
    ]
  ]

-- A request has one price, whatever the order of the contracts in a valid file and whatever the order in
-- which a loop visits the models, where no two contracts that match the request cross.
pub resolve_same :
    (go : Go) (t t' : Table) (provider model region service_tier : String) (at : ℤ)
    (final : Option Float64)
    → IsFolding go
    → validate_models go t.models ≡ true
    → validate_contracts go t.contracts ≡ true
    → SameEntries t t'
    → HasNoCrossing go (query_of go provider model region service_tier at) t.contracts
    → resolve go t provider model region service_tier at final
      ≡ resolve go t' provider model region service_tier at final
unfolding resolve of_table
resolve_same go t t' provider model region tier at (some usd) laws vm vc s clear = refl
resolve_same go t t' provider model region tier at none laws vm vc s clear =
    let q = query_of go provider model region tier at in
    let l =
      lookup_with_key_same model t.models t'.models (validate_models-named go t.models vm)
        s.prices in
    ap (λ w. of_layers w (lookup_with_key t.models model) q.date)
      (winner_same go laws q t t' vc clear s)
    ∙ ap (λ r. of_layers (winner_from go q none t'.contracts) r q.date) l
