-- ===== src/Downshift/Simulate.antt =====
-- internal/downshift/simulate.go: the replay of past requests against a configuration.
use burnban.Prelude.{
  ℕ, ◌+◌, ◌%◌, ◌^◌, String, Bool, true, false, not, ◌&&◌, ◌||◌, Option, none, some, List, [], ◌∷◌,
  leb, length, byte_len, codes, str_eq, guard, chain, if◌then◌else◌,
}
use Prim.Native.String.{◌++◌ as append}
use burnban.Prelude.Int.{ℤ, pos, ◌+ℤ◌, ◌-ℤ◌, leb_ℤ, ltb_ℤ, max_ℤ, max_int64}
use burnban.Float
use burnban.Float.{Float64, of_int}
use burnban.Pricing.Types.{Table, Go}
use burnban.Pricing.Cost.{Usage, cost}
use burnban.Pricing.Resolve.{Resolution, resolve}
use burnban.Downshift.Config.{
  Compiled, Identity, Mismatch, requires_authenticated, does_not_match, modalities_from, rule_of,
  scope_matches, Rule,
}
use burnban.Downshift.Features.{
  Features, Refusal, incompatible, dialects_differ, no_output_bound, exceeds_source, exceeds_target,
  no_tools, no_structured_output, no_modality, eligible,
}
use burnban.Downshift.History.{Row, Decoders, parse_feature_receipt, identity_of}
use burnban.Downshift.TargetCost.{invalid_cost, historical_target_cost}
pub mod Counts
pub mod Agrees

-- The counters are int64: numbers modulo 2^64.
pub record SimulationReport : Type 0 where
  pub total_requests : ℕ
  pub matched_requests : ℕ
  pub eligible_requests : ℕ
  pub ineligible_requests : ℕ
  pub indeterminate_requests : ℕ
  pub source_cost_usd : Float64
  pub target_cost_usd : Float64
  pub reasons : List (String × ℕ)

abbrev pub new_report : SimulationReport
unfolding of_int
new_report = record {
  total_requests = 0;
  matched_requests = 0;
  eligible_requests = 0;
  ineligible_requests = 0;
  indeterminate_requests = 0;
  source_cost_usd = of_int 0;
  target_cost_usd = of_int 0;
  reasons = [];
}

-- The texts of `ScopeMatches` and `Eligible`.
unfoldable pub mismatch_text : Mismatch → String
mismatch_text (requires_authenticated name) = append "scoped rule requires authenticated " name
mismatch_text (does_not_match name) = append "authenticated identity does not match rule " name

unfoldable pub refusal_text : Refusal → String
refusal_text (incompatible reason) = reason
refusal_text dialects_differ = "request and target dialect differ"
refusal_text no_output_bound = "request has no explicit output-token bound"
refusal_text exceeds_source = "request exceeds declared source context window"
refusal_text exceeds_target = "request exceeds target context window"
refusal_text no_tools = "target is not allowlisted for function tools"
refusal_text no_structured_output = "target is not allowlisted for structured output"
refusal_text (no_modality m) = append "target is not allowlisted for " (append m " modality")

-- What the replay makes of a row; an eligible one comes with the target's cost.
pub data Outcome : Type 0 where
  unmatched : Outcome
  indeterminate : String → Outcome
  ineligible : String → Outcome
  counted : Float64 → Outcome

unfoldable pub route_of : Row → String
route_of row = if str_eq row.requested_provider "" then row.provider else row.requested_provider

unfoldable pub model_of : Row → String
model_of row = if str_eq row.requested_model "" then row.model else row.requested_model

abbrev pub tick : ℕ → ℕ
tick n = (n + 1) % 2 ^ 64

-- `reasons[reason]++`.
unfoldable pub tick_reason : String → List (String × ℕ) → List (String × ℕ)
tick_reason reason [] = (reason, 1) ∷ []
tick_reason reason ((r, n) ∷ rest) =
    let later = tick_reason reason rest in
    if str_eq reason r then (r, tick n) ∷ rest else (r, n) ∷ later

-- The counters of a row.
unfoldable pub tally : SimulationReport → Row → Outcome → SimulationReport
unfolding tick_reason Float.add
tally r row unmatched = record r { total_requests = tick r.total_requests }
tally r row (indeterminate reason) = record r {
  total_requests = tick r.total_requests;
  matched_requests = tick r.matched_requests;
  indeterminate_requests = tick r.indeterminate_requests;
  reasons = tick_reason reason r.reasons;
}
tally r row (ineligible reason) = record r {
  total_requests = tick r.total_requests;
  matched_requests = tick r.matched_requests;
  ineligible_requests = tick r.ineligible_requests;
  reasons = tick_reason reason r.reasons;
}
tally r row (counted target_cost) = record r {
  total_requests = tick r.total_requests;
  matched_requests = tick r.matched_requests;
  eligible_requests = tick r.eligible_requests;
  source_cost_usd = Float.add r.source_cost_usd row.cost_usd;
  target_cost_usd = Float.add r.target_cost_usd target_cost;
}

abbrev pub costed : Option Float64 → Outcome
costed none = indeterminate "target price does not cover a historical tier or region fee"
costed (some c) = counted c

-- The end of `Add`, from the resolved price of the target and what the row would have cost there.
unfoldable pub priced_with : Row → Resolution → Bool → Option Float64 → Outcome
unfolding invalid_cost
priced_with row resolved found target =
    if not (str_eq row.pricing_state "priced") || row.fee_unpriced || invalid_cost row.cost_usd
    then indeterminate "source historical cost is incomplete or unknown"
    else if not found || resolved.has_final_cost
    then indeterminate "target price is unknown for the historical date and dimensions"
    else costed target

module _ (go : Go) (decode : Decoders) where
  -- The costs of a row that the target can serve.
  unfoldable pub priced : Table → Rule → Row → Outcome
  unfolding priced_with resolve historical_target_cost
  priced prices rule row =
      let (resolved, found) =
        resolve go prices rule.target.route rule.target.model row.inference_geo row.service_tier
          row.ts none in
      priced_with row resolved found (historical_target_cost go resolved row)

  unfoldable pub compared : Table → Rule → Row → Features → Outcome
  unfolding scope_matches eligible mismatch_text refusal_text identity_of priced
  compared prices rule row features = elim (scope_matches rule.scope (identity_of decode row)) [
    | some m ↦ ineligible (mismatch_text m)
    | none ↦ elim (eligible rule features) [
      | some r ↦ ineligible (refusal_text r)
      | none ↦ priced prices rule row
    ]
  ]

  unfoldable pub matched : Table → Rule → Row → Outcome
  unfolding parse_feature_receipt compared
  matched prices rule row =
      if str_eq row.downshift_action "downshift"
      then indeterminate "already-downshifted rows lack counterfactual source usage"
      else elim (parse_feature_receipt decode row.downshift_features) [
        | none ↦ indeterminate "missing or invalid compatibility receipt"
        | some features ↦ compared prices rule row features
      ]

  unfoldable pub outcome : Compiled → Table → Row → Outcome
  unfolding rule_of route_of model_of matched
  outcome compiled prices row = elim (rule_of compiled.config.rules (route_of row) (model_of row)) [
    | none ↦ unmatched
    | some rule ↦ matched prices rule row
  ]

  -- `Simulator.Add`.
  unfoldable pub add : Compiled → Table → SimulationReport → Row → SimulationReport
  unfolding tally outcome
  add compiled prices report row = tally report row (outcome compiled prices row)

  unfoldable pub add_all : Compiled → Table → SimulationReport → List Row → SimulationReport
  unfolding add
  add_all compiled prices report [] = report
  add_all compiled prices report (row ∷ rows) =
      add_all compiled prices (add compiled prices report row) rows

unfoldable pub rounded_money : Float64 → Float64
unfolding Float.mul Float.div Float.round_whole of_int
rounded_money value =
    Float.div (Float.round_whole (Float.mul value (of_int 1_000_000_000))) (of_int 1_000_000_000)

-- The rounded costs, the savings and their share in per cent, as `Finish` leaves them.
pub record Savings : Type 0 where
  pub source_cost_usd : Float64
  pub target_cost_usd : Float64
  pub savings_usd : Float64
  pub savings_pct : Float64

unfoldable pub percent : Float64 → Float64 → Float64
unfolding Float.lt Float.sub Float.mul Float.div of_int
percent source target =
    if Float.lt (of_int 0) source
    then Float.mul (Float.div (Float.sub source target) source) (of_int 100)
    else of_int 0

unfoldable pub rounded_percent : Float64 → Float64
unfolding Float.is_nan Float.is_inf Float.mul Float.div Float.round_whole of_int
rounded_percent pct =
    let safe = if Float.is_nan pct || Float.is_inf pct then of_int 0 else pct in
    Float.div (Float.round_whole (Float.mul safe (of_int 100))) (of_int 100)

-- `Simulator.Finish`, less the notes.
unfoldable pub finish : SimulationReport → Savings
unfolding rounded_money percent rounded_percent Float.sub
finish r =
    let source = rounded_money r.source_cost_usd in
    let target = rounded_money r.target_cost_usd in
    record {
      source_cost_usd = source;
      target_cost_usd = target;
      savings_usd = rounded_money (Float.sub source target);
      savings_pct = rounded_percent (percent source target);
    }
