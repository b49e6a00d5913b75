-- ===== src/Pricing/Resolve/FileOrder.antt =====
-- internal/pricing/layers.go: the price of a request that crossing contracts match.
use mathlib.Core.List.Memᴰ
use burnban.Prelude.{
  ◌⊎◌, ◌++◌, ◌<◌, ◌≤◌, ◌&&◌, if◌then◌else◌, ℕ, String, true, false, Option, none, some, List, [],
  ◌∷◌, Memᴰ, ltb, str_eq, eq_iff, Bool-cases, ◌≡◌, ◌≢◌, inl, inr, refl, sym, ap, and_true, arith,
}
use burnban.Prelude.Int.{ℤ}
use burnban.Pricing.Types.{ContractPrice, Table, Go}
use burnban.Pricing.Lookup.{lookup_with_key}
use burnban.Pricing.Contracts.{Query, contract_matches, contract_specificity}
use burnban.Pricing.Resolve.{
  beats, winner_from, of_contract, of_layers, of_table, query_of, resolve,
}
use burnban.Pricing.Contracts.Crossing.{IsCrossing}

not_given : (s : String) → s ≢ "" → str_eq s "" ≡ false
not_given s n = elim (Bool-cases (str_eq s "")) [
  | inl e ↦ absurd (n ((eq_iff s "").0 e))
  | inr e ↦ e
]

not_above : (m n : ℕ) → m ≤ n → ltb n m ≡ false
not_above m n h = ground arith

above : (m n : ℕ) → m < n → ltb m n ≡ true
above m n h = ground arith

cases_append :
    {A : Type 0} {d : A} (xs : List A) {ys : List A} → Memᴰ d (xs ++ ys) → Memᴰ d xs ⊎ Memᴰ d ys
cases_append [] m = inr m
cases_append (x ∷ xs) m = elim (Memᴰ.cases_cons m) [
  | inl e ↦ inl (Memᴰ.head e)
  | inr t ↦ elim (cases_append xs t) [ inl l ↦ inl (Memᴰ.tail l) | inr r ↦ inr r ]
]

-- Crossing contracts are as specific.
crossing_same :
    (a b : ContractPrice) → IsCrossing a b → contract_specificity a ≡ contract_specificity b
unfolding contract_specificity
crossing_same a b x =
    rw
      (
        not_given a.region x.region_only.0,
        (eq_iff a.service_tier "").1 x.region_only.1,
        (eq_iff b.region "").1 x.tier_only.0,
        not_given b.service_tier x.tier_only.1,
      )
      refl

-- Every contract of the list that matches is less specific.
abbrev pub AreBelow : Go → Query → ContractPrice → List ContractPrice → Type 0
AreBelow go q a contracts =
    (d : ContractPrice)
    → Memᴰ d contracts
    → contract_matches go d q ≡ true
    → contract_specificity d < contract_specificity a

-- Neither the first contract that matches nor one after it is more specific.
abbrev NoneAbove : Go → Query → ContractPrice → List ContractPrice → Type 0
NoneAbove go q a contracts =
    (d : ContractPrice)
    → Memᴰ d contracts
    → contract_matches go d q ≡ true
    → contract_specificity d ≤ contract_specificity a

-- What is left of the list once `a` has won stays below it.
winner_kept :
    (go : Go) (q : Query) (a : ContractPrice) (rest : List ContractPrice)
    → NoneAbove go q a rest
    → winner_from go q (some a) rest ≡ some a
unfolding winner_from beats
winner_kept go q a [] h = refl
winner_kept go q a (d ∷ rest) h =
    let tail = winner_kept go q a rest (λ x m. h x (Memᴰ.tail m)) in
    elim (Bool-cases (contract_matches go d q)) [
      | inr f ↦ rw (winner_from, f) tail
      | inl t ↦
          let low : ltb (contract_specificity a) (contract_specificity d) ≡ false =
            not_above (contract_specificity d) (contract_specificity a) (h d (Memᴰ.head refl) t) in
          rw (winner_from, t, beats, low) tail
    ]

-- The winner so far is less specific, if there is one.
abbrev IsUnder : ContractPrice → Option ContractPrice → Type 0
IsUnder a none = Unit
IsUnder a (some w) = contract_specificity w < contract_specificity a

winner_first :
    (go : Go) (q : Query) (a : ContractPrice) (before rest : List ContractPrice)
    (winner : Option ContractPrice)
    → IsUnder a winner
    → AreBelow go q a before
    → contract_matches go a q ≡ true
    → NoneAbove go q a rest
    → winner_from go q winner (before ++ a ∷ rest) ≡ some a
unfolding winner_from beats
winner_first go q a [] rest none u b m h = rw (winner_from, m) (winner_kept go q a rest h)
winner_first go q a [] rest (some w) u b m h =
    let more : ltb (contract_specificity w) (contract_specificity a) ≡ true =
      above (contract_specificity w) (contract_specificity a) u in
    rw (winner_from, m, beats, more) (winner_kept go q a rest h)
winner_first go q a (d ∷ before) rest winner u b m h =
    winner_first go q a before rest
      (if contract_matches go d q && beats d winner then some d else winner)
      (elim (Bool-cases (contract_matches go d q && beats d winner)) [
        | inl t ↦ rw t (b d (Memᴰ.head refl) (and_true _ _ t).0)
        | inr f ↦ rw f u
      ])
      (λ x n. b x (Memᴰ.tail n)) m h

-- With two contracts of one specificity, the earlier one wins over the later one.
winner_earlier :
    (go : Go) (q : Query) (a b : ContractPrice) (before between rest : List ContractPrice)
    → contract_matches go a q ≡ true
    → contract_specificity a ≡ contract_specificity b
    → AreBelow go q a before
    → AreBelow go q a between
    → AreBelow go q a rest
    → winner_from go q none (before ++ a ∷ (between ++ b ∷ rest)) ≡ some a
winner_earlier go q a b before between rest m s x y z =
    winner_first go q a before (between ++ b ∷ rest) none tt x m none_above
  where
    none_above : NoneAbove go q a (between ++ b ∷ rest)
    none_above d n t = elim (cases_append between n) [
      | inl l ↦ omega (arith, y d l t)
      | inr l ↦ elim (Memᴰ.cases_cons l) [
        | inl e ↦ omega (arith, s, ap contract_specificity e)
        | inr k ↦ omega (arith, z d k t)
      ]
    ]

-- Where two contracts cross and both match a request, and every other contract of the file that matches
-- it is less specific, the one of the two that comes first prices the request: to exchange them in the
-- file changes the contract that is charged. It is so in valid files and in others.
pub resolve_crossing :
    (go : Go) (t : Table) (a b : ContractPrice) (before between rest : List ContractPrice)
    (provider model region service_tier : String) (at : ℤ)
    → contract_matches go a (query_of go provider model region service_tier at) ≡ true
    → contract_matches go b (query_of go provider model region service_tier at) ≡ true
    → IsCrossing a b
    → AreBelow go
        (query_of go provider model region service_tier at)
        a
        (before ++ (between ++ rest))
    → (resolve go
          (record t { contracts = before ++ a ∷ (between ++ b ∷ rest) })
          provider
          model
          region
          service_tier
          at
          none
        ≡ (of_contract a, true))
      × (resolve go
            (record t { contracts = before ++ b ∷ (between ++ a ∷ rest) })
            provider
            model
            region
            service_tier
            at
            none
          ≡ (of_contract b, true))
unfolding resolve of_table of_layers
resolve_crossing go t a b before between rest provider model region tier at ma mb x low =
    let q = query_of go provider model region tier at in
    let s = crossing_same a b x in
    let l = lookup_with_key t.models model in
    let first : AreBelow go q a before = λ d n. low d (Memᴰ.append_left (between ++ rest) n) in
    let second : AreBelow go q a between =
      λ d n. low d (Memᴰ.append_right before (Memᴰ.append_left rest n)) in
    let third : AreBelow go q a rest =
      λ d n. low d (Memᴰ.append_right before (Memᴰ.append_right between n)) in
    (
      ap (λ w. of_layers w l q.date)
          (winner_earlier go q a b before between rest ma s first second third),
      ap (λ w. of_layers w l q.date)
          (winner_earlier go q b a before between rest mb (sym s)
            (λ d n k. omega (arith, s, first d n k)) (λ d n k. omega (arith, s, second d n k))
            (λ d n k. omega (arith, s, third d n k))),
    )
