-- ===== src/Tests/Prices.antt =====
-- A small price file, and the requests that it prices.
use mathlib.Core.List.Memᴰ
use burnban.Prelude.{
  ◌<◌, subst, ◌≡◌, ◌≢◌, ◌↔◌, ◌⊎◌, refl, sym, ap, ◌∙◌, true, not, none, some, List, [], ◌∷◌, Memᴰ,
  str_eq, str_lt, eq_iff, not-true, arith,
}
use burnban.Prelude.Int.{pos}
use burnban.Prelude.Sort.{sort_by}
use burnban.Float
use burnban.Pricing.Types.{Price, Models, Metadata, ContractPrice, Table, Go, no_price}
use burnban.Pricing.Lookup.{find, lookup_with_key}
use burnban.Pricing.Lookup.Longest.{IsLongest, lookup_with_key_iff}
use burnban.Pricing.Validate.{validate_models}
use burnban.Pricing.Contracts.{contract_matches, contract_specificity, validate_contracts}
use burnban.Pricing.Contracts.Overlap.{IsFolding, validate_contracts-IsCrossing}
use burnban.Pricing.Contracts.Crossing.{IsCrossing}
use burnban.Pricing.Load.{contents, overlaid, load}
use burnban.Pricing.Load.Loaded.{IsLoaded, load-IsLoaded}
use burnban.Pricing.Resolve.{query_of, of_contract, resolve}
use burnban.Pricing.Resolve.Order.{SameEntries, resolve_same}
use burnban.Pricing.Resolve.FileOrder.{AreBelow, resolve_crossing}
use burnban.Tests.Data.{ascii}

-- Calls of the library on texts of one case, without spaces round them.
abbrev pub go : Go
go = record {
  unicode = ascii;
  equal_fold = str_eq;
  trim_space = λ s. s;
  to_lower = λ s. s;
  is_date = λ s. not (str_lt "9999-12-31" s);
  is_url = λ s. true;
  format_date = λ t. "2026-07-10";
}

go-IsFolding : IsFolding go
go-IsFolding = record {
  self = λ a. (eq_iff a a).1 refl;
  same = λ a b v h k. (eq_iff a b).1 ((eq_iff a v).0 h ∙ sym ((eq_iff b v).0 k));
  dated = λ d h. not-true (str_lt "9999-12-31" d) h;
}

abbrev pub listed : Price
listed =
    let p = no_price in
    record p { input_per_mtok = Float.of_int 2; output_per_mtok = Float.of_int 4 }

abbrev pub models : Models
models = ("gpt-5", listed) ∷ ("gpt-5.4", listed) ∷ ("small", listed) ∷ []

lookup_version : lookup_with_key models "gpt-5.4-20260301" ≡ some (listed, "gpt-5.4")
unfolding lookup_with_key
lookup_version = refl

lookup_variant : lookup_with_key models "gpt-5-mini" ≡ none
unfolding lookup_with_key
lookup_variant = refl

lookup_with_key_iff_example :
    (lookup_with_key models "gpt-5.4-20260301" ≡ some (listed, "gpt-5.4"))
    ↔ ((find "gpt-5.4" models ≡ some listed) × IsLongest models "gpt-5.4-20260301" "gpt-5.4")
unfolding find
lookup_with_key_iff_example = lookup_with_key_iff "gpt-5.4-20260301" models listed "gpt-5.4" no_name
  where
    no_name : find "" models ≡ none
    no_name = refl

abbrev pub metadata : Metadata
metadata = record {
  version = "1";
  effective_date = "2026-01-01";
  verified_date = "2026-01-02";
  sources = record { provider = "p"; url = "https://p"; verified_date = "2026-01-02" } ∷ [];
}

abbrev regional : ContractPrice
regional = record {
  id = "regional";
  provider = "openai";
  model = "gpt-5";
  region = "us";
  service_tier = "";
  effective_from = "2026-01-01";
  valid_through = "";
  price = listed;
}

abbrev tiered : ContractPrice
tiered = let c = regional in record c { id = "tiered"; region = ""; service_tier = "priority" }

abbrev crossed : List ContractPrice
crossed = regional ∷ tiered ∷ []

valid_crossed : validate_contracts go crossed ≡ true
unfolding validate_contracts sort_by
valid_crossed = refl

matches_regional :
    contract_matches go regional (query_of go "openai" "gpt-5" "us" "priority" (pos 0)) ≡ true
unfolding contract_matches
matches_regional = refl

matches_tiered :
    contract_matches go tiered (query_of go "openai" "gpt-5" "us" "priority" (pos 0)) ≡ true
unfolding contract_matches
matches_tiered = refl

apart : regional.id ≢ tiered.id
apart e = cc ((eq_iff regional.id tiered.id).1 e)

as_specific : contract_specificity regional ≡ contract_specificity tiered
unfolding contract_specificity
as_specific = refl

validate_contracts-IsCrossing_example : IsCrossing regional tiered ⊎ IsCrossing tiered regional
validate_contracts-IsCrossing_example =
    validate_contracts-IsCrossing go go-IsFolding crossed regional tiered
      (query_of go "openai" "gpt-5" "us" "priority" (pos 0)) valid_crossed (Memᴰ.head refl)
      (Memᴰ.tail (Memᴰ.head refl)) apart matches_regional matches_tiered as_specific

us_given : regional.region ≢ ""
us_given e = cc

priority_given : tiered.service_tier ≢ ""
priority_given e = cc

regional-IsCrossing : IsCrossing regional tiered
regional-IsCrossing = record { region_only = (us_given, refl); tier_only = (refl, priority_given) }

abbrev pub base : Table
base = record { metadata = metadata; models = models; contracts = []; override_models = [] }

abbrev negotiated : Table
negotiated = let t = base in record t { contracts = crossed }

-- A contract for the model alone, which is less specific.
abbrev general : ContractPrice
general = let c = regional in record c { id = "general"; region = "" }

general_below :
    AreBelow go (query_of go "openai" "gpt-5" "us" "priority" (pos 0)) regional (general ∷ [])
unfolding contract_specificity
general_below d (Memᴰ.head e) m =
    subst (λ x. contract_specificity x < contract_specificity regional) (sym e) (omega arith)
general_below d (Memᴰ.tail n) m = absurd (Memᴰ.not-nil n)

resolve_crossing_example :
    (resolve go
        (record base { contracts = general ∷ regional ∷ tiered ∷ [] })
        "openai"
        "gpt-5"
        "us"
        "priority"
        (pos 0)
        none
      ≡ (of_contract regional, true))
    × (resolve go
          (record base { contracts = general ∷ tiered ∷ regional ∷ [] })
          "openai"
          "gpt-5"
          "us"
          "priority"
          (pos 0)
          none
        ≡ (of_contract tiered, true))
resolve_crossing_example =
    resolve_crossing go base regional tiered (general ∷ []) [] [] "openai" "gpt-5" "us" "priority"
      (pos 0) matches_regional matches_tiered regional-IsCrossing general_below

-- Both orders of the file are valid, and they price one request by different contracts.
valid_either :
    (validate_contracts go (general ∷ crossed) ≡ true)
    × (validate_contracts go (general ∷ tiered ∷ regional ∷ []) ≡ true)
unfolding validate_contracts sort_by
valid_either = (refl, refl)

loaded : load go (some base) true (contents (some negotiated)) ≡ some (overlaid base negotiated)
unfolding load sort_by
loaded = refl

load-IsLoaded_example : IsLoaded go (overlaid base negotiated)
load-IsLoaded_example =
    load-IsLoaded go base true (contents (some negotiated)) (overlaid base negotiated) refl loaded

-- Two contracts of which neither names a region, in either order.
abbrev plain : ContractPrice
plain = let c = regional in record c { id = "plain"; region = "" }

abbrev other : ContractPrice
other = let c = plain in record c { id = "other"; provider = "gemini" }

abbrev ordered : Table
ordered = let t = base in record t { contracts = plain ∷ other ∷ [] }

abbrev reversed : Table
reversed =
    let t = base in
    record t {
      models = ("small", listed) ∷ ("gpt-5.4", listed) ∷ ("gpt-5", listed) ∷ [];
      contracts = other ∷ plain ∷ [];
    }

same_entries : SameEntries ordered reversed
unfolding find
same_entries = record {
  prices = λ k. ground (arith, eq_iff k "gpt-5", eq_iff k "gpt-5.4", eq_iff k "small");
  there = λ c m. swap plain other c m;
  back = λ c m. swap other plain c m;
}
  where
    swap : (a b c : ContractPrice) → Memᴰ c (a ∷ b ∷ []) → Memᴰ c (b ∷ a ∷ [])
    swap a b c (Memᴰ.head e) = Memᴰ.tail (Memᴰ.head e)
    swap a b c (Memᴰ.tail (Memᴰ.head e)) = Memᴰ.head e
    swap a b c (Memᴰ.tail (Memᴰ.tail m)) = absurd (Memᴰ.not-nil m)

regionless : (c : ContractPrice) → Memᴰ c (plain ∷ other ∷ []) → c.region ≡ ""
regionless c (Memᴰ.head e) = ap (λ r. r.region) e
regionless c (Memᴰ.tail (Memᴰ.head e)) = ap (λ r. r.region) e
regionless c (Memᴰ.tail (Memᴰ.tail m)) = absurd (Memᴰ.not-nil m)

valid_ordered :
    (validate_models go ordered.models ≡ true) × (validate_contracts go ordered.contracts ≡ true)
unfolding validate_models validate_contracts sort_by
valid_ordered = (refl, refl)

resolve_same_example :
    resolve go ordered "openai" "gpt-5" "us" "" (pos 0) none
    ≡ resolve go reversed "openai" "gpt-5" "us" "" (pos 0) none
resolve_same_example =
    resolve_same go ordered reversed "openai" "gpt-5" "us" "" (pos 0) none go-IsFolding
      valid_ordered.0 valid_ordered.1 same_entries
      (λ a b m n h k x. x.region_only.0 (regionless a m))
