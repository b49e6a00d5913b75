-- ===== src/Tests/Counting.antt =====
-- Counters, costs and statuses on concrete values.
use burnban.Prelude.{◌+◌, ◌*◌, ◌/◌, ◌≡◌, ◌<◌, ◌↔◌, ◌++◌, true, List, [], ◌∷◌, refl, arith}
use burnban.Prelude.Int.{pos, negsuc, ◌≤ℤ◌, ◌<ℤ◌, ◌+ℤ◌, max_int64}
use burnban.Policy.Types.{Context}
use burnban.Policy.Types.{fixed}
use burnban.Policy.Engine.{window_start}
use burnban.Policy.Engine.Windows.{window_start-fixed}
use burnban.Policy.Counters.{saturated_add, clamp, saturated_add_pos}
use burnban.Policy.Context.{estimated_tokens}
use burnban.Policy.Context.Bounds.{declared_output, estimated_tokens_exact}
use burnban.Policy.Decision.{Violation, violation, dollar_limit, not_allowed, status_for_violations}
use burnban.Policy.Decision.Status.{expected_status, status_for_violations-eq-expected}
use burnban.Policy.Replay.{SimUint128, sub, greater_than_int64, clamped_int64}
use burnban.Policy.Replay.Exact.{value, prefix, sum_of, window_exact, compare_value}
use burnban.Store.PolicyDecisions.{policy_rule_usage_since}
use burnban.Store.PolicyDecisions.Usage.{
  IsCounted, clamped, totals_from, no_totals, policy_rule_usage_since_exact,
}
use burnban.Tests.Data.{request, counted_rule, ledger}

sticks_at_largest : saturated_add (pos max_int64) (pos 3) ≡ pos (clamp (max_int64 + 3))
sticks_at_largest = saturated_add_pos max_int64 3 (omega arith) (omega arith)

abbrev bounded : Context
bounded = let c = request in record c { output_bound = pos 90; output_bound_present = true }

estimates_bounded : estimated_tokens bounded ≡ pos (clamp (10 + declared_output bounded))
estimates_bounded =
    estimated_tokens_exact bounded (omega arith, omega arith) (omega arith, omega arith)

abbrev refusals : List Violation
refusals = violation dollar_limit "dollars" ∷ violation not_allowed "model" ∷ []

status_of_refusals : status_for_violations refusals ≡ expected_status refusals
status_of_refusals = status_for_violations-eq-expected refusals

abbrev large : SimUint128
large = record { hi = 1; lo = 5 }

reads_large :
    ((greater_than_int64 large (pos 9) ≡ true) ↔ (9 < value large))
    × (clamped_int64 large ≡ pos (clamp (value large)))
reads_large = compare_value large 9 (omega arith, omega arith) (omega arith)

window_exact_example :
    let zero : SimUint128 = record { hi = 0; lo = 0 } in
    value (
      sub
        (prefix zero ((pos max_int64 ∷ pos max_int64 ∷ pos 4 ∷ []) ++ (pos 7 ∷ negsuc 2 ∷ [])))
        (prefix zero (pos max_int64 ∷ pos max_int64 ∷ pos 4 ∷ [])))
    ≡ sum_of (pos 7 ∷ negsuc 2 ∷ [])
window_exact_example =
    window_exact (pos max_int64 ∷ pos max_int64 ∷ pos 4 ∷ []) (pos 7 ∷ negsuc 2 ∷ [])
      ((omega arith, omega arith), ((omega arith, omega arith), ((omega arith, omega arith), tt)))
      ((omega arith, omega arith), ((omega arith, omega arith), tt)) (omega arith)

is_counted : IsCounted counted_rule
is_counted = record {
  tokens = ((omega arith, omega arith), refl);
  input = ((omega arith, omega arith), refl);
  output = ((omega arith, omega arith), refl);
  total = ((omega arith, omega arith), refl);
  cost = ((omega arith, omega arith), refl);
}

usage_example :
    policy_rule_usage_since ledger "n" "hourly" (pos 0)
    ≡ clamped (totals_from "n" "hourly" (pos 0) no_totals ledger.rows)
usage_example = policy_rule_usage_since_exact ledger "n" "hourly" (pos 0) (is_counted, tt)

-- Two hours and a half into a day that windows of an hour divide.
window_of_clock :
    let start = window_start (pos 9000) (pos 3600) fixed in
    (start ≡ pos (3600 * (9000 / 3600))) × (start ≤ℤ pos 9000) × (pos 9000 <ℤ start +ℤ pos 3600)
window_of_clock = window_start-fixed 9000 3600 (omega arith)
