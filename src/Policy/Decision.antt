-- ===== src/Policy/Decision.antt =====
-- internal/policy/engine.go: what a decision records, and the static checks of one rule. The texts for
-- people (Message, Summary) are left out: nothing reads them back.
pub mod Status
use Prim.Native.String.{◌++◌ as str_append}
use burnban.Prelude.{
  ℕ, String, Bool, true, false, not, ◌&&◌, ◌||◌, Option, none, some, List, [], ◌∷◌, ◌++◌,
  if◌then◌else◌, is_empty, any, str_eq, str_lt, ◌==◌,
}
use burnban.Prelude.Int.{ℤ, pos}
use burnban.Prelude.Sort.{sort_by}
use burnban.Float
use burnban.Float.{Float64, fin}
use burnban.Policy.Types.{
  Mode, enforce, TokenKind, any_kind, input, output, total, other_kind, AccessList, Rule,
  WindowLimit, Context, Confidence, absent, authenticated, self_reported, unverified, Dimension,
}
use burnban.Policy.Wildcard.{matches_any}
use burnban.Policy.Scope.{match_access, context_values, is_enforce, is_authenticated}

pub data Code : Type 0 where
  authenticated_identity_required concurrency_limit deny_match dollar_limit : Code
  estimated_cost_unknown max_estimated_call_cost not_allowed output_bound_required : Code
  request_limit token_limit : Code

abbrev pub code_name : Code → String
code_name authenticated_identity_required = "authenticated_identity_required"
code_name concurrency_limit = "concurrency_limit"
code_name deny_match = "deny_match"
code_name dollar_limit = "dollar_limit"
code_name estimated_cost_unknown = "estimated_cost_unknown"
code_name max_estimated_call_cost = "max_estimated_call_cost"
code_name not_allowed = "not_allowed"
code_name output_bound_required = "output_bound_required"
code_name request_limit = "request_limit"
code_name token_limit = "token_limit"

pub record Violation : Type 0 where
  pub code : Code
  pub dimension : String
  pub limit_id : String
  pub current : ℤ
  pub requested : ℤ
  pub maximum : ℤ
  pub usd : Float64
  pub max_usd : Float64

-- A violation with the fields that the code sets, and zero in the others.
abbrev pub violation : Code → String → Violation
violation code dimension = record {
  code = code;
  dimension = dimension;
  limit_id = "";
  current = pos 0;
  requested = pos 0;
  maximum = pos 0;
  usd = fin (pos 0);
  max_usd = fin (pos 0);
}

pub record RuleDecision : Type 0 where
  pub rule_id : String
  pub mode : Mode
  pub specificity : ℕ
  pub violations : List Violation

pub data Verdict : Type 0 where
  allow deny : Verdict

pub data Accuracy : Type 0 where
  exact partial : Accuracy

pub record Decision : Type 0 where
  pub id : ℕ
  pub policy_name : String
  pub policy_namespace : String
  pub policy_revision : ℤ
  pub policy_digest : String
  pub mode : Mode
  pub outcome : Verdict
  pub http_status : ℕ
  pub confidence : Accuracy
  pub window_accounting : Bool
  pub rules : List RuleDecision

unfoldable pub denied : Decision → Bool
denied d = elim d.outcome [ deny ↦ true | allow ↦ false ]

-- The order of `sortViolations`.
unfoldable pub violation_less : Violation → Violation → Bool
violation_less a b =
    if not (str_eq (code_name a.code) (code_name b.code))
    then str_lt (code_name a.code) (code_name b.code)
    else if not (str_eq a.dimension b.dimension)
    then str_lt a.dimension b.dimension
    else str_lt a.limit_id b.limit_id

unfoldable pub sort_violations : List Violation → List Violation
sort_violations = sort_by violation_less

abbrev pub token_limit_kind : TokenKind → TokenKind
token_limit_kind any_kind = total
token_limit_kind kind = kind

abbrev pub kind_name : TokenKind → String
kind_name any_kind = ""
kind_name input = "input"
kind_name output = "output"
kind_name total = "total"
kind_name (other_kind k) = k

abbrev pub token_dimension : TokenKind → String
token_dimension kind = str_append (kind_name (token_limit_kind kind)) "_tokens"

abbrev pub is_input : TokenKind → Bool
is_input input = true
is_input _ = false

abbrev dimension_name : Dimension → String
dimension_name Dimension.provider = "provider"
dimension_name Dimension.model = "model"
dimension_name Dimension.model_class = "model_class"
dimension_name Dimension.route = "route"
dimension_name Dimension.tier = "tier"
dimension_name Dimension.service_tier = "service_tier"
dimension_name Dimension.geo = "geo"
dimension_name Dimension.inference_geo = "inference_geo"
dimension_name _ = ""

abbrev pub access_dimensions : List Dimension
access_dimensions =
    Dimension.provider ∷ Dimension.model ∷ Dimension.model_class ∷ Dimension.route ∷ Dimension.tier
    ∷ Dimension.service_tier ∷ Dimension.geo ∷ Dimension.inference_geo ∷ []

-- The `switch` on one dimension's allow and deny lists.
unfoldable pub access_violation : AccessList → String → Dimension → List Violation
access_violation access value d =
    if not (is_empty access.deny) && matches_any access.deny value
    then violation deny_match (dimension_name d) ∷ []
    else if not (is_empty access.allow) && not (matches_any access.allow value)
    then violation not_allowed (dimension_name d) ∷ []
    else []

unfoldable pub access_violations : Rule → Context → List Dimension → List Violation
unfolding access_violation
access_violations rule context [] = []
access_violations rule context (d ∷ ds) =
    access_violation (match_access rule.match d) (context_values context d) d
    ++ access_violations rule context ds

abbrev pub requires_output_bound : Rule → Bool
requires_output_bound rule =
    rule.limits.require_output_bound
    || any (λ (l : WindowLimit). not (is_input (token_limit_kind l.kind))) rule.limits.tokens

unfoldable pub output_violation : Rule → Context → List Violation
output_violation rule context =
    if requires_output_bound rule && not context.output_bound_present
    then violation output_bound_required "output_tokens" ∷ []
    else []

-- The per-call cost ceiling.
unfoldable pub cost_violation : Option Float64 → Context → List Violation
unfolding Float.lt
cost_violation none context = []
cost_violation (some maximum) context =
    if not context.cost_known
    then (let v = violation estimated_cost_unknown "cost" in record v { max_usd = maximum }) ∷ []
    else if Float.lt maximum context.estimated_cost_usd
    then (let v = violation max_estimated_call_cost "cost" in
        record v { usd = context.estimated_cost_usd; max_usd = maximum })
      ∷ []
    else []

unfoldable pub static_violations : Rule → Context → List Violation
unfolding access_violations output_violation cost_violation sort_violations
static_violations rule context = sort_violations (
    access_violations rule context access_dimensions
    ++ (output_violation rule context
        ++ cost_violation rule.limits.max_estimated_call_cost_usd context))

unfoldable pub enforced_violations : List RuleDecision → List Violation
enforced_violations [] = []
enforced_violations (rule ∷ rules) =
    (if is_enforce rule.mode then rule.violations else []) ++ enforced_violations rules

-- One round of the loop in `statusForViolations`: a final answer, or the status so far.
abbrev status_step : Code → ℕ → Option ℕ × ℕ
status_step authenticated_identity_required status = (some 401, status)
status_step deny_match status = (some 403, status)
status_step not_allowed status = (some 403, status)
status_step max_estimated_call_cost status = (none, 402)
status_step estimated_cost_unknown status = (none, 402)
status_step dollar_limit status = (none, 402)
status_step request_limit status = (none, if status == 402 then 402 else 429)
status_step token_limit status = (none, if status == 402 then 402 else 429)
status_step concurrency_limit status = (none, if status == 402 then 402 else 429)
status_step output_bound_required status = (none, status)

status_from : ℕ → List Violation → ℕ
status_from status [] = status
status_from status (v ∷ vs) =
    let (final, next) = status_step v.code status in
    let later = status_from next vs in elim final [ some s ↦ s | none ↦ later ]

unfoldable pub status_for_violations : List Violation → ℕ
unfolding status_from
status_for_violations vs = status_from 422 vs

abbrev is_doubtful : Confidence → Bool
is_doubtful self_reported = true
is_doubtful unverified = true
is_doubtful _ = false

abbrev is_absent : Confidence → Bool
is_absent absent = true
is_absent _ = false

abbrev field_confidences : Context → List Confidence
field_confidences c =
    c.organization_confidence ∷ c.tenant_confidence ∷ c.meter_confidence ∷ c.device_confidence
    ∷ c.team_confidence ∷ c.cost_center_confidence ∷ c.principal_confidence
    ∷ c.service_account_confidence ∷ c.user_confidence ∷ c.project_confidence
    ∷ c.environment_confidence ∷ []

unfoldable pub decision_confidence : Context → Accuracy
decision_confidence c =
    let fields = field_confidences c in
    if is_doubtful c.identity_confidence
    then partial
    else if any (λ f. not (is_absent f) && not (is_authenticated f)) fields
    then partial
    else if is_authenticated c.identity_confidence && not (any (λ f. not (is_absent f)) fields)
    then partial
    else exact
