-- ===== src/Policy/Engine/Evaluate.antt =====
-- internal/policy/engine.go: which limits of a rule a request would exceed, given the durable counters
-- and what is pending.
pub mod Limits
pub mod Applicable
pub mod Broken
pub mod Checks
pub mod Breach
use burnban.Prelude.{
  ℕ, ◌+◌, String, Bool, true, false, not, ◌&&◌, ◌||◌, Option, none, some, List, [], ◌∷◌, ◌++◌,
  if◌then◌else◌, is_empty, ◌==◌, str_lt, ltb, ◌≡◌, refl, ◌⊎◌, inl, inr,
}
use burnban.Prelude.Int.{ℤ, pos, negsuc, ltb_ℤ, leb_ℤ, add64, sub64}
use burnban.Prelude.Sort.{sort_by}
use burnban.Policy.Types.{
  Mode, TokenKind, any_kind, input, output, total, other_kind, WindowLimit, DollarLimit, Rule,
  Scope, Document, Context, Dimension,
}
use burnban.Policy.Counters.{saturated_add}
use burnban.Policy.Context.{estimated_tokens_for_kind, conservative_cost_micro_usd}
use burnban.Policy.Scope.{
  scope_selectors, dimensions, rule_mode, is_enforce, identity_scope_authenticated, applies,
}
use burnban.Policy.Decision.{
  Code, authenticated_identity_required, concurrency_limit, dollar_limit, estimated_cost_unknown,
  request_limit, token_limit, Violation, violation, RuleDecision, token_limit_kind, token_dimension,
  static_violations, sort_violations,
}
use burnban.Policy.Engine.State.{
  RuleCounterKey, PendingUsage, WindowKey, Compiled, window_of, Engine, window_start, pending_since,
  rule_has_counters,
}
use burnban.Store.PolicyDecisions.{PolicyRuleUsage}

pub data EngineError : Type 0 where
  no_store cost_not_finite negative_estimate cost_not_representable : EngineError
  load_active_policy active_policy_invalid active_policy_mismatch : EngineError
  load_usage persist closed : EngineError

-- A Go result with an error.
pub data Outcome {ℓ} (A : Type ℓ) : Type ℓ where
  ok : A → Outcome A
  err : EngineError → Outcome A

infixl 5 ◌>>=◌
abbrev pub ◌>>=◌ {ℓ κ} : {A : Type ℓ} {B : Type κ} → Outcome A → (A → Outcome B) → Outcome B
ok a >>= f = f a
err e >>= f = err e

pub Outcome-cases {ℓ} :
    {A : Type ℓ} (o : Outcome A) → ((x : EngineError) × (o ≡ err x)) ⊎ ((a : A) × (o ≡ ok a))
Outcome-cases (err x) = inl (x, refl)
Outcome-cases (ok a) = inr (a, refl)

pub record IndexedRule : Type 0 where
  pub rule : Rule
  pub specificity : ℕ

count_selected : Scope → List Dimension → ℕ
count_selected scope [] = 0
count_selected scope (d ∷ ds) =
    (if is_empty (scope_selectors scope d) then 0 else 1) + count_selected scope ds

unfoldable pub specificity : Scope → ℕ
unfolding count_selected
specificity scope = count_selected scope dimensions

applicable_from : Document → Context → List Rule → List IndexedRule
applicable_from doc context [] = []
applicable_from doc context (rule ∷ rules) =
    (if applies doc.mode rule context
      then record { rule = rule; specificity = specificity rule.scope } ∷ []
      else [])
    ++ applicable_from doc context rules

-- Narrower scopes first, then by identifier.
abbrev rule_before : IndexedRule → IndexedRule → Bool
rule_before a b =
    if not (a.specificity == b.specificity)
    then ltb b.specificity a.specificity
    else str_lt a.rule.id b.rule.id

-- `applicableRules`. The identifiers of a valid document differ, so its sort has one result.
unfoldable pub applicable_rules : Document → Context → List IndexedRule
unfolding applicable_from specificity
applicable_rules doc context = sort_by rule_before (applicable_from doc context doc.rules)

-- The durable counters, read for one rule since a time: `none` is a database error.
abbrev pub UsageReader : Type 0
UsageReader = String → ℤ → Option PolicyRuleUsage

abbrev pub or_load_error : Option PolicyRuleUsage → Outcome PolicyRuleUsage
or_load_error none = err load_usage
or_load_error (some u) = ok u

abbrev pub token_usage_for_kind : PolicyRuleUsage → TokenKind → ℤ
token_usage_for_kind u input = u.input_tokens
token_usage_for_kind u output = u.output_tokens
token_usage_for_kind u _ = u.total_tokens

abbrev pub pending_tokens_for_kind : PendingUsage → TokenKind → ℤ
pending_tokens_for_kind u input = u.input_tokens
pending_tokens_for_kind u output = u.output_tokens
pending_tokens_for_kind u _ = u.total_tokens

-- What the loops over the limits of one rule share.
module _ (e : Engine) (compiled : Compiled) (read : UsageReader) (now : ℤ) (rule : Rule) where
  abbrev pub key_of : RuleCounterKey
  key_of = record { namespace = compiled.document.metadata.namespace; rule_id = rule.id }

  abbrev pub cutoff_of_window : String → WindowLimit → ℤ
  cutoff_of_window dimension limit =
      window_start now
        (window_of compiled.windows
          (record { rule_id = rule.id; dimension = dimension; limit_id = limit.id }))
        limit.window_type

  abbrev pub cutoff_of_dollars : DollarLimit → ℤ
  cutoff_of_dollars limit =
      window_start now
        (window_of compiled.windows
          (record { rule_id = rule.id; dimension = "dollars"; limit_id = limit.id }))
        limit.window_type

  unfoldable pub request_check : WindowLimit → Outcome (List Violation)
  request_check limit = do
    let cutoff = cutoff_of_window "requests" limit
    usage ← or_load_error (read rule.id cutoff)
    let current = saturated_add usage.requests (pending_since e key_of cutoff).requests
    let v = violation request_limit "requests"
    ok (
        if leb_ℤ limit.max current
        then record v {
          limit_id = limit.id;
          current = current;
          requested = pos 1;
          maximum = limit.max;
        }
          ∷ []
        else [])

  token_check_for : ℤ → WindowLimit → Outcome (List Violation)
  token_check_for requested limit = do
    let cutoff = cutoff_of_window "tokens" limit
    usage ← or_load_error (read rule.id cutoff)
    let current =
        saturated_add (token_usage_for_kind usage (token_limit_kind limit.kind))
          (pending_tokens_for_kind (pending_since e key_of cutoff) (token_limit_kind limit.kind))
    let v = violation token_limit (token_dimension limit.kind)
    ok (
        if ltb_ℤ (sub64 limit.max requested) current
        then record v {
          limit_id = limit.id;
          current = current;
          requested = requested;
          maximum = limit.max;
        }
          ∷ []
        else [])

  unfoldable pub token_check : Context → WindowLimit → Outcome (List Violation)
  unfolding token_check_for
  token_check context limit = elim (estimated_tokens_for_kind context limit.kind) [
    | none ↦ ok []
    | some requested ↦ token_check_for requested limit
  ]

  dollar_check_for : ℤ → DollarLimit → Outcome (List Violation)
  dollar_check_for cost limit = do
    let cutoff = cutoff_of_dollars limit
    usage ← or_load_error (read rule.id cutoff)
    let current = saturated_add usage.cost_micro_usd (pending_since e key_of cutoff).cost_micro_usd
    let v = violation dollar_limit "dollars"
    ok (
        if ltb_ℤ (sub64 limit.max_micro_usd cost) current
        then record v {
          limit_id = limit.id;
          current = current;
          requested = cost;
          maximum = limit.max_micro_usd;
        }
          ∷ []
        else [])

  unfoldable pub dollar_check : Option ℤ → DollarLimit → Outcome (List Violation)
  unfolding dollar_check_for
  dollar_check none limit =
      let v = violation estimated_cost_unknown "dollars" in
      ok (record v { limit_id = limit.id; maximum = limit.max_micro_usd } ∷ [])
  dollar_check (some cost) limit = dollar_check_for cost limit

  unfoldable pub concurrency_check : List Violation
  concurrency_check =
      let maximum = rule.limits.concurrency in
      let current = e.in_flight key_of in
      let v = violation concurrency_limit "concurrency" in
      if ltb_ℤ (pos 0) maximum && ltb_ℤ maximum (add64 current (pos 1))
      then record v { current = current; requested = pos 1; maximum = maximum } ∷ []
      else []

-- A loop that appends what each round gives, and stops at an error.
unfoldable pub each {ℓ κ} :
    {A : Type ℓ} {B : Type κ} → (A → Outcome (List B)) → List A → Outcome (List B)
each f [] = ok []
each f (x ∷ xs) = f x >>= λ found. each f xs >>= λ more. ok (found ++ more)

unfoldable pub identity_violation : Document → Rule → Context → List Violation
identity_violation doc rule context =
    if is_enforce (rule_mode doc.mode rule) && not (identity_scope_authenticated rule.scope context)
    then violation authenticated_identity_required "identity" ∷ []
    else []

-- The decision on a rule from what the loops over its limits found.
abbrev pub rule_decision :
    Engine
    → Compiled
    → UsageReader
    → ℤ
    → Context
    → IndexedRule
    → List Violation
    → List Violation
    → List Violation
    → RuleDecision
rule_decision e compiled read now context indexed requests tokens dollars =
    let rule = indexed.rule in
    record {
      rule_id = rule.id;
      mode = rule_mode compiled.document.mode rule;
      specificity = indexed.specificity;
      violations = sort_violations (
          static_violations rule context
          ++ (identity_violation compiled.document rule context
              ++ (requests
                  ++ (tokens ++ (dollars ++ concurrency_check e compiled read now rule)))));
    }

-- The body of the loop over the applicable rules.
unfoldable pub evaluate_rule :
    Engine → Compiled → UsageReader → ℤ → Context → IndexedRule → Outcome RuleDecision
evaluate_rule e compiled read now context indexed = do
  let rule = indexed.rule
  requests ← each (request_check e compiled read now rule) rule.limits.requests
  tokens ← each (token_check e compiled read now rule context) rule.limits.tokens
  dollars ←
      each (dollar_check e compiled read now rule (conservative_cost_micro_usd context))
        rule.limits.dollars
  ok (rule_decision e compiled read now context indexed requests tokens dollars)

unfoldable pub evaluate :
    Engine → Compiled → UsageReader → ℤ → Context → List IndexedRule → Outcome (List RuleDecision)
evaluate e compiled read now context [] = ok []
evaluate e compiled read now context (r ∷ rs) = evaluate_rule e compiled read now context r >>= λ d.
    evaluate e compiled read now context rs >>= λ ds. ok (d ∷ ds)
