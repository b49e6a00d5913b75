-- ===== src/Pricing/Contracts/Crossing.antt =====
-- internal/pricing/layers.go: contracts that are as specific by different dimensions.
use burnban.Prelude.{
  ◌+◌, String, Bool, true, false, str_eq, eq_iff, if◌then◌else◌, ◌≡◌, ◌≢◌, ◌⊎◌, inl, inr, refl,
  arith,
}
use burnban.Pricing.Types.{ContractPrice}

-- One contract names a region and no service tier, the other a service tier and no region.
pub record IsCrossing (a b : ContractPrice) : Type 0 where
  pub region_only : (a.region ≢ "") × (a.service_tier ≡ "")
  pub tier_only : (b.region ≡ "") × (b.service_tier ≢ "")

pub dimensions_bool :
    (ra ta rb tb : Bool)
    → 2 + (if ra then 0 else 1) + (if ta then 0 else 1)
      ≡ 2 + (if rb then 0 else 1) + (if tb then 0 else 1)
    → ((ra ≡ rb) × (ta ≡ tb))
      ⊎ ((ra ≡ false) × (ta ≡ true) × (rb ≡ true) × (tb ≡ false))
      ⊎ ((rb ≡ false) × (tb ≡ true) × (ra ≡ true) × (ta ≡ false))
dimensions_bool true true true true h = inl (refl, refl)
dimensions_bool true false true false h = inl (refl, refl)
dimensions_bool false true false true h = inl (refl, refl)
dimensions_bool false false false false h = inl (refl, refl)
dimensions_bool false true true false h = inr (inl (refl, refl, refl, refl))
dimensions_bool true false false true h = inr (inr (refl, refl, refl, refl))
dimensions_bool true true true false h = absurd (omega arith)
dimensions_bool true true false tb h = absurd (ground arith)
dimensions_bool true false true true h = absurd (omega arith)
dimensions_bool true false false false h = absurd (omega arith)
dimensions_bool false true true true h = absurd (omega arith)
dimensions_bool false true false false h = absurd (omega arith)
dimensions_bool false false true tb h = absurd (ground arith)
dimensions_bool false false false true h = absurd (omega arith)

given : (s : String) → str_eq s "" ≡ false → s ≢ ""
given s h e = cc (h, (eq_iff s "").1 e)

pub crossing :
    (a b : ContractPrice)
    → str_eq a.region "" ≡ false
    → str_eq a.service_tier "" ≡ true
    → str_eq b.region "" ≡ true
    → str_eq b.service_tier "" ≡ false
    → IsCrossing a b
crossing a b ra ta rb tb = record {
  region_only = (given a.region ra, (eq_iff a.service_tier "").0 ta);
  tier_only = ((eq_iff b.region "").0 rb, given b.service_tier tb);
}
