-- ===== src/Pricing/Contracts.antt =====
-- internal/pricing/layers.go: which contract prices a request, and which contracts a file may hold.
use burnban.Prelude.{
  ℕ, suc, String, Bool, true, false, not, ◌&&◌, ◌||◌, Option, none, some, List, [], ◌∷◌, leb, ltb,
  ◌==◌, ◌+◌, all, any, codes, is_empty, byte_len, str_eq, str_lt, if◌then◌else◌,
}
use burnban.Prelude.Sort.{sort_by}
use burnban.Pricing.Types.{ContractPrice, Go}
use burnban.Pricing.Lookup.{extends}
use burnban.Pricing.Validate.{validate_models}
pub mod Names
pub mod Crossing
pub mod Overlap

unfoldable pub model_matches : String → String → Bool
unfolding extends
model_matches configured observed =
    str_eq observed configured || extends (codes observed) (codes configured)

-- `date >= from` and `date <= through`, each where it is set.
unfoldable pub date_in_range : String → String → String → Bool
date_in_range date from through =
    (str_eq from "" || not (str_lt date from)) && (str_eq through "" || not (str_lt through date))

unfoldable pub contract_specificity : ContractPrice → ℕ
contract_specificity c =
    2 + (if str_eq c.region "" then 0 else 1) + (if str_eq c.service_tier "" then 0 else 1)

-- The last day of a contract: the end of time where none is set.
unfoldable pub last_day : ContractPrice → String
last_day c = if str_eq c.valid_through "" then "9999-12-31" else c.valid_through

unfoldable pub ranges_overlap : ContractPrice → ContractPrice → Bool
unfolding last_day
ranges_overlap a b =
    not (str_lt (last_day b) a.effective_from) && not (str_lt (last_day a) b.effective_from)

unfoldable pub model_selectors_overlap : String → String → Bool
unfolding model_matches
model_selectors_overlap a b = model_matches a b || model_matches b a

-- What a request is matched by.
pub record Query : Type 0 where
  pub provider : String
  pub model : String
  pub region : String
  pub service_tier : String
  pub date : String

module _ (go : Go) where
  -- A selector that is not set matches everything.
  unfoldable pub optional_matches : String → String → Bool
  optional_matches selector value =
      str_eq selector "" || go.equal_fold selector (go.trim_space value)

  unfoldable pub contract_matches : ContractPrice → Query → Bool
  unfolding model_matches date_in_range optional_matches
  contract_matches c q =
      go.equal_fold c.provider (go.trim_space q.provider)
      && model_matches c.model q.model
      && date_in_range q.date c.effective_from c.valid_through
      && optional_matches c.region q.region
      && optional_matches c.service_tier q.service_tier

  unfoldable pub validate_selector : String → Bool
  validate_selector value =
      leb (byte_len (codes value)) 200 && not (any go.unicode.is_unsafe (codes value))

  abbrev pub selector_ok : String → Bool
  selector_ok value = validate_selector value && str_eq value (go.trim_space value)

  -- The tests of one contract, after those of the ids `seen`.
  unfoldable pub contract_named : List String → ContractPrice → Bool
  unfolding validate_selector
  contract_named seen c =
      all selector_ok (c.id ∷ c.provider ∷ c.model ∷ c.region ∷ c.service_tier ∷ [])
      && not (str_eq c.id "" || str_eq c.provider "" || str_eq c.model "")
      && not (any (str_eq c.id) seen)

  unfoldable pub contract_dated : ContractPrice → Bool
  contract_dated c =
      not (str_eq c.effective_from "")
      && go.is_date c.effective_from
      && (str_eq c.valid_through ""
          || go.is_date c.valid_through && not (str_lt c.valid_through c.effective_from))

  -- The price holds no dates of its own.
  unfoldable pub contract_priced : ContractPrice → Bool
  unfolding validate_models
  contract_priced c =
      str_eq c.price.source ""
      && str_eq c.price.effective_from ""
      && str_eq c.price.valid_through ""
      && str_eq c.price.verified_date ""
      && validate_models go ((c.model, c.price) ∷ [])

  unfoldable pub contract_ok : List String → ContractPrice → Bool
  unfolding contract_named contract_dated contract_priced
  contract_ok seen c = contract_named seen c && (contract_dated c && contract_priced c)

  unfoldable pub contracts_ok : List String → List ContractPrice → Bool
  unfolding contract_ok
  contracts_ok seen [] = true
  contracts_ok seen (c ∷ rest) = contract_ok seen c && contracts_ok (c.id ∷ seen) rest

  unfoldable pub same_selector : ContractPrice → ContractPrice → Bool
  unfolding model_selectors_overlap
  same_selector a b =
      go.equal_fold a.provider b.provider
      && model_selectors_overlap a.model b.model
      && go.equal_fold a.region b.region
      && go.equal_fold a.service_tier b.service_tier

  unfoldable pub is_ambiguous : ContractPrice → ContractPrice → Bool
  unfolding contract_specificity same_selector ranges_overlap
  is_ambiguous a b =
      contract_specificity a == contract_specificity b && same_selector a b && ranges_overlap a b

  unfoldable pub is_unambiguous : List ContractPrice → Bool
  unfolding is_ambiguous
  is_unambiguous [] = true
  is_unambiguous (a ∷ rest) = all (λ b. not (is_ambiguous a b)) rest && is_unambiguous rest

  -- The ids are all different, so that any sort by them gives one order.
  unfoldable pub validate_contracts : List ContractPrice → Bool
  unfolding contracts_ok is_unambiguous
  validate_contracts contracts =
      contracts_ok [] contracts && is_unambiguous (sort_by (λ a b. str_lt a.id b.id) contracts)
