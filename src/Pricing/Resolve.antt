-- ===== src/Pricing/Resolve.antt =====
-- internal/pricing/layers.go, `Table.Resolve`: the layer that prices a request.
use burnban.Prelude.{
  String, Bool, true, false, not, ◌&&◌, ◌||◌, Option, none, some, List, [], ◌∷◌, ltb, str_eq,
  if◌then◌else◌,
}
use burnban.Prelude.Int.{ℤ}
use burnban.Float
use burnban.Float.{Float64, of_int}
use burnban.Pricing.Types.{
  Price, ContractPrice, Table, CostSource, provider_final, contract, public_list, unknown, Go,
  no_price,
}
use burnban.Pricing.Lookup.{lookup_with_key}
use burnban.Pricing.Contracts.{Query, contract_matches, contract_specificity, date_in_range}
pub mod Winner
pub mod Ids
pub mod Order
pub mod FileOrder

pub record Resolution : Type 0 where
  pub price : Price
  pub final_cost_usd : Float64
  pub has_final_cost : Bool
  pub source : CostSource
  pub source_ref : String
  pub effective_from : String
  pub valid_through : String
  pub covers_region : Bool
  pub covers_tier : Bool

-- `Resolution{Source: SourceUnknown}`.
abbrev pub unresolved : Resolution
unfolding of_int
unresolved = record {
  price = no_price;
  final_cost_usd = of_int 0;
  has_final_cost = false;
  source = unknown;
  source_ref = "";
  effective_from = "";
  valid_through = "";
  covers_region = false;
  covers_tier = false;
}

unfoldable pub valid_final_cost : Float64 → Bool
unfolding Float.is_nan Float.is_inf Float.le of_int
valid_final_cost v =
    not (Float.is_nan v)
    && not (Float.is_inf v)
    && Float.le (of_int 0) v
    && Float.le v (of_int 1_000_000_000)

-- Whether the contract is more specific than the winner so far; -1 stands where there is none.
unfoldable pub beats : ContractPrice → Option ContractPrice → Bool
unfolding contract_specificity
beats c none = true
beats c (some w) = ltb (contract_specificity w) (contract_specificity c)

unfoldable pub of_contract : ContractPrice → Resolution
of_contract w = record unresolved {
  price = w.price;
  source = contract;
  source_ref = w.id;
  effective_from = w.effective_from;
  valid_through = w.valid_through;
  covers_region = not (str_eq w.region "");
  covers_tier = not (str_eq w.service_tier "");
}

unfoldable pub of_list : Price → String → Resolution
of_list p key = record unresolved {
  price = p;
  source = public_list;
  source_ref = if str_eq p.source "" then key else p.source;
  effective_from = p.effective_from;
  valid_through = p.valid_through;
}

-- The public price, where it is in force.
unfoldable pub of_public : Option (Price × String) → String → Resolution × Bool
unfolding date_in_range of_list
of_public none date = (unresolved, false)
of_public (some (p, key)) date =
    if date_in_range date p.effective_from p.valid_through
    then (of_list p key, true)
    else (unresolved, false)

-- A contract, or else the public list.
unfoldable pub of_layers :
    Option ContractPrice → Option (Price × String) → String → Resolution × Bool
unfolding of_contract of_public
of_layers (some w) listed date = (of_contract w, true)
of_layers none listed date = of_public listed date

module _ (go : Go) where
  unfoldable pub winner_from :
      Query → Option ContractPrice → List ContractPrice → Option ContractPrice
  unfolding contract_matches beats
  winner_from q winner [] = winner
  winner_from q winner (c ∷ rest) =
      winner_from q (if contract_matches go c q && beats c winner then some c else winner) rest

  unfoldable pub of_provider : String → ℤ → Float64 → Resolution × Bool
  unfolding valid_final_cost
  of_provider provider at usd =
      if valid_final_cost usd
      then (
        record unresolved {
          final_cost_usd = usd;
          has_final_cost = true;
          source = provider_final;
          source_ref = go.to_lower (go.trim_space provider);
          effective_from = go.format_date at;
        },
        true,
      )
      else (unresolved, false)

  unfoldable pub of_table : Table → Query → Resolution × Bool
  unfolding winner_from of_layers lookup_with_key
  of_table t q =
      of_layers (winner_from q none t.contracts) (lookup_with_key t.models q.model) q.date

  abbrev pub query_of : String → String → String → String → ℤ → Query
  query_of provider model region service_tier at = record {
    provider = provider;
    model = model;
    region = region;
    service_tier = service_tier;
    date = go.format_date at;
  }

  -- The last argument is the provider's amount, if it gave one.
  unfoldable pub resolve :
      Table → String → String → String → String → ℤ → Option Float64 → Resolution × Bool
  unfolding of_provider of_table
  resolve t provider model region service_tier at (some usd) = of_provider provider at usd
  resolve t provider model region service_tier at none =
      of_table t (query_of provider model region service_tier at)
