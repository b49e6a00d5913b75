-- ===== src/Tests/Admission.antt =====
-- The policy engine on a small policy: admissions, a denial, and the end of a reservation.
use burnban.Prelude.{◌≡◌, ◌⊎◌, Bool, true, false, none, some, List, [], ◌∷◌, All, Memᴰ, refl, arith}
use burnban.Prelude.Int.{pos}
use burnban.Prelude.Int.{add64, sub64, wrap64, ◌+ℤ◌, ◌-ℤ◌}
use burnban.Prelude.Sort.{sort_by, insert_by}
use burnban.Float
use burnban.Policy.Wildcard
use burnban.Policy.Counters.{saturated_add}
use burnban.Policy.Context
use burnban.Policy.Scope
use burnban.Policy.Decision
use burnban.Policy.Engine
use burnban.Policy.Engine.Evaluate
use burnban.Policy.Engine.Prepare
use burnban.Policy.Validate
use burnban.Store.PolicyDecisions
use burnban.Policy.Types.{enforce, Context, Rule}
use burnban.Policy.Context.{conservative_cost_micro_usd}
use burnban.Policy.Scope.{applies, rule_mode}
use burnban.Policy.Decision.{Decision, allow, exact}
use burnban.Policy.Engine.{RuleCounterKey, Compiled, Engine, drop_id}
use burnban.Policy.Engine.Evaluate.{ok, Outcome, IndexedRule}
use burnban.Policy.Engine.Evaluate.Breach.{IsBreach}
use burnban.Policy.Engine.Evaluate.Limits.{IsSane, HasBoundedLimits, Within}
use burnban.Policy.Engine.Prepare.{
  Turn, Prepared, prepared, Reservation, reserved, refused, refresh_locked, reader, granted,
  prepare, numbered,
}
use burnban.Policy.Engine.Prepare.Admissions.{prepare_reserved}
use burnban.Policy.Engine.Prepare.Denials.{IsDenial, prepare_refused}
use burnban.Policy.Engine.Reservation.{World, release, cancel, commit}
use burnban.Policy.Engine.Reservation.Lifecycle.{IsClosed, release-IsClosed, commit_once}
use burnban.Policy.Engine.Reservation.Accounting.{IsRestored, granted-IsRestored}
use burnban.Policy.Validate.{validate}
use burnban.Policy.Validate.Limits.{AreBounded}
use burnban.Policy.Validate.Rules.{HasInt64Limits, IsAccepted, HasDistinctIds, validate-IsAccepted}
use burnban.Store.PolicyDecisions.{Ledger}
use burnban.Tests.Data.{
  ascii, hours, hourly, policy, compiled, idle, row, parse, request, foreign_request, ledger,
}

abbrev active : Engine
active = let e = idle in record e { active = some compiled; active_id = 7 }

abbrev turn : Context → Turn
turn context = prepare true parse (some (some row)) (pos 100) context idle ledger

refreshes : refresh_locked parse (some (some row)) idle ≡ ok active
unfolding refresh_locked
refreshes = refl

abbrev nothing : Decision
nothing = record {
  id = 0;
  policy_name = "";
  policy_namespace = "";
  policy_revision = pos 0;
  policy_digest = "";
  mode = enforce;
  outcome = allow;
  http_status = 0;
  confidence = exact;
  window_accounting = false;
  rules = [];
}

abbrev blank : Reservation
blank = record {
  decision = nothing;
  receipt = record {
    ts = pos 0;
    policy_digest = "";
    policy_revision = pos 0;
    policy_name = "";
    policy_namespace = "";
    denied = false;
    admitted = false;
    http_status = 0;
    rules = [];
  };
  concurrency_keys = [];
  counter_keys = [];
  pending_id = 0;
  state = prepared;
}

-- The reservation, or the decision, that a turn gives.
abbrev given : Outcome Prepared → Reservation
given (ok (reserved r)) = r
given _ = blank

abbrev denial_of : Outcome Prepared → Decision
denial_of (ok (refused d)) = d
denial_of _ = nothing

sane : IsSane request
unfolding conservative_cost_micro_usd
sane = record { input = (omega arith, omega arith); output = (omega arith, omega arith); cost = tt }

foreign_request-IsSane : IsSane foreign_request
unfolding conservative_cost_micro_usd
foreign_request-IsSane = record {
  input = (omega arith, omega arith);
  output = (omega arith, omega arith);
  cost = tt;
}

int64_limits : HasInt64Limits hourly
int64_limits = record { requests = ((omega arith, omega arith), tt); tokens = tt }

has_bounds : HasBoundedLimits hourly
has_bounds = record {
  requests = (((omega arith, omega arith), refl), tt);
  tokens = tt;
  dollars = tt;
}

admits : turn request ≡ (ok (reserved (given (turn request).0)), (turn request).1, ledger)
unfolding prepare refresh_locked Prepare.judge Evaluate.evaluate Evaluate.applicable_rules sort_by
    applies rule_mode Scope.identity_scope_authenticated Scope.has_identity_scope
    Scope.scope_selectors Scope.rule_applies Scope.selected Evaluate.evaluate_rule Evaluate.each
    Evaluate.request_check Prepare.conclude Decision.denied conservative_cost_micro_usd
    Context.estimated_tokens Context.estimated_tokens_for_kind Context.micro_usd_from_usd
    saturated_add Decision.access_violation Decision.access_violations Decision.cost_violation
    Decision.decision_confidence Decision.enforced_violations Decision.output_violation
    Decision.sort_violations Decision.static_violations Decision.status_for_violations
    Decision.violation_less Evaluate.concurrency_check Evaluate.dollar_check
    Evaluate.identity_violation Evaluate.specificity Evaluate.token_check Prepare.decide
    Prepare.record_of Prepare.reserve Prepare.rule_rows Prepare.usage_of Engine.key_eq
    Engine.pending_from Engine.pending_since Engine.put Engine.remainder Engine.rule_has_counters
    Engine.window_key_eq Engine.window_of Engine.window_start Scope.context_values
    Scope.identity_dimension_confidence Scope.match_access
    Scope.rule_applies_ignoring_untrusted_identity Scope.trusted Wildcard.match_loop
    Wildcard.match_runes Wildcard.matches_any Wildcard.wildcard_match add64 sub64 wrap64 ◌+ℤ◌ ◌-ℤ◌
    insert_by PolicyDecisions.insert_policy_decision PolicyDecisions.policy_rule_usage_since
    PolicyDecisions.usage_from PolicyDecisions.count_row Float.lt Float.is_nan Float.is_inf
admits = refl

refuses : turn foreign_request ≡ (
  ok (refused (denial_of (turn foreign_request).0)),
  (turn foreign_request).1,
  (turn foreign_request).2,
)
unfolding prepare refresh_locked Prepare.judge Evaluate.evaluate Evaluate.applicable_rules sort_by
    applies rule_mode Scope.identity_scope_authenticated Scope.has_identity_scope
    Scope.scope_selectors Scope.rule_applies Scope.selected Evaluate.evaluate_rule Evaluate.each
    Evaluate.request_check Prepare.conclude Decision.denied conservative_cost_micro_usd
    Context.estimated_tokens Context.estimated_tokens_for_kind Context.micro_usd_from_usd
    saturated_add Decision.access_violation Decision.access_violations Decision.cost_violation
    Decision.decision_confidence Decision.enforced_violations Decision.output_violation
    Decision.sort_violations Decision.static_violations Decision.status_for_violations
    Decision.violation_less Evaluate.concurrency_check Evaluate.dollar_check
    Evaluate.identity_violation Evaluate.specificity Evaluate.token_check Prepare.decide
    Prepare.record_of Prepare.reserve Prepare.rule_rows Prepare.usage_of Engine.key_eq
    Engine.pending_from Engine.pending_since Engine.put Engine.remainder Engine.rule_has_counters
    Engine.window_key_eq Engine.window_of Engine.window_start Scope.context_values
    Scope.identity_dimension_confidence Scope.match_access
    Scope.rule_applies_ignoring_untrusted_identity Scope.trusted Wildcard.match_loop
    Wildcard.match_runes Wildcard.matches_any Wildcard.wildcard_match add64 sub64 wrap64 ◌+ℤ◌ ◌-ℤ◌
    insert_by PolicyDecisions.insert_policy_decision PolicyDecisions.policy_rule_usage_since
    PolicyDecisions.usage_from PolicyDecisions.count_row Float.lt Float.is_nan Float.is_inf
refuses = refl

applicable : applies enforce hourly request ≡ true
unfolding applies rule_mode Scope.identity_scope_authenticated Scope.has_identity_scope
    Scope.scope_selectors Scope.rule_applies Scope.selected
applicable = refl

enforced : rule_mode enforce hourly ≡ enforce
unfolding rule_mode
enforced = refl

prepare_reserved_example :
    Within active compiled (reader true ledger compiled) (pos 100) request hourly
    × (ledger ≡ ledger)
prepare_reserved_example =
    prepare_reserved true parse (some (some row)) (pos 100) request idle active compiled ledger
      (given (turn request).0) (turn request).1 ledger sane (has_bounds, tt) refreshes refl admits
      hourly (Memᴰ.head refl) applicable enforced

prepare_refused_example :
    IsDenial
      (denial_of (turn foreign_request).0)
      active
      (turn foreign_request).1
      ledger
      (turn foreign_request).2
    × ((rule : Rule) × IsBreach active compiled
          (reader true ledger compiled)
          (pos 100)
          foreign_request
          rule)
prepare_refused_example =
    prepare_refused true parse (some (some row)) (pos 100) foreign_request idle active compiled
      ledger (denial_of (turn foreign_request).0) (turn foreign_request).1 (turn foreign_request).2
      foreign_request-IsSane (has_bounds, tt) refreshes refl refuses

abbrev indexed : List IndexedRule
indexed = record { rule = hourly; specificity = 0 } ∷ []

abbrev hourly_key : RuleCounterKey
hourly_key = record { namespace = "n"; rule_id = "hourly" }

granted-IsRestored_example :
    let (e', r) = granted (pos 100) request compiled indexed [] active in
    let w : World = record { reservation = r; engine = e'; ledger = ledger } in
    IsRestored hourly_key 0 active (release w).engine
    × IsRestored hourly_key 0 active (cancel true w).0.engine
    × IsRestored hourly_key 0 active (release (commit true w).0).engine
unfolding drop_id
granted-IsRestored_example =
    granted-IsRestored (pos 100) request compiled indexed [] active ledger true hourly_key 0 refl
      (omega arith) refl

abbrev world : World
world = record { reservation = given (turn request).0; engine = (turn request).1; ledger = ledger }

release-IsClosed_example : IsClosed (release world)
release-IsClosed_example = release-IsClosed world

commit_once_example :
    let w' = (commit true world).0 in
    (((commit true world).1 ≡ none)
      × ((again : Bool) → (commit again w' ≡ (w', none)) × (cancel again w' ≡ (w', none))))
    ⊎ IsClosed w'
commit_once_example = commit_once true world

validates : validate ascii hours policy ≡ some compiled.windows
unfolding validate Validate.validate_label Validate.valid_mode Validate.validate_rule rule_mode
    Validate.cooperative_free Scope.match_access Validate.validate_selectors Scope.scope_selectors
    Validate.window_duration Validate.rule_has_effect
validates = refl

validate-IsAccepted_example :
    All (IsAccepted enforce) policy.rules
    × HasDistinctIds policy.rules
    × AreBounded compiled.windows
validate-IsAccepted_example =
    validate-IsAccepted ascii hours policy compiled.windows (int64_limits, tt) validates
