-- ===== src/Policy/Scope.antt =====
-- internal/policy/types.go and engine.go: the selectors of a rule, the values of a request, and which
-- rules apply. The Go maps from a dimension's name are functions of the dimension; the loops over them
-- return at a first failure, whose place in the order does not change the result.
pub mod Applies
pub mod Identity
use burnban.Prelude.{
  String, Bool, true, false, not, ◌&&◌, ◌||◌, Option, none, some, List, [], ◌∷◌, if◌then◌else◌,
  is_empty, any, all,
}
use burnban.Prelude.Int.{pos}
use burnban.Float.{fin}
use burnban.Policy.Types.{
  Mode, unset, observe, warn, enforce, other_mode, Scope, AccessList, Match, Rule, Context,
  Confidence, absent, authenticated, self_reported, unverified, not_identity, other_confidence,
  Dimension,
}
use burnban.Policy.Wildcard.{matches_any}

-- The keys of `scopeSelectors` and `contextValues`.
abbrev pub dimensions : List Dimension
dimensions =
    Dimension.organization ∷ Dimension.tenant ∷ Dimension.meter ∷ Dimension.device ∷ Dimension.team
    ∷ Dimension.cost_center ∷ Dimension.principal ∷ Dimension.service_account ∷ Dimension.user
    ∷ Dimension.project ∷ Dimension.environment ∷ Dimension.agent ∷ Dimension.session
    ∷ Dimension.provider ∷ Dimension.model ∷ Dimension.model_class ∷ Dimension.route
    ∷ Dimension.tier ∷ Dimension.service_tier ∷ Dimension.geo ∷ Dimension.inference_geo ∷ []

unfoldable pub scope_selectors : Scope → Dimension → List String
scope_selectors s Dimension.organization = s.organization
scope_selectors s Dimension.tenant = s.tenant
scope_selectors s Dimension.meter = s.meter
scope_selectors s Dimension.device = s.device
scope_selectors s Dimension.team = s.team
scope_selectors s Dimension.cost_center = s.cost_center
scope_selectors s Dimension.principal = s.principal
scope_selectors s Dimension.service_account = s.service_account
scope_selectors s Dimension.user = s.user
scope_selectors s Dimension.project = s.project
scope_selectors s Dimension.environment = s.environment
scope_selectors s Dimension.agent = s.agent
scope_selectors s Dimension.session = s.session
scope_selectors s Dimension.provider = s.provider
scope_selectors s Dimension.model = s.model
scope_selectors s Dimension.model_class = s.model_class
scope_selectors s Dimension.route = s.route
scope_selectors s Dimension.tier = s.tier
scope_selectors s Dimension.service_tier = s.service_tier
scope_selectors s Dimension.geo = s.geo
scope_selectors s Dimension.inference_geo = s.inference_geo

unfoldable pub context_values : Context → Dimension → String
context_values c Dimension.organization = c.organization
context_values c Dimension.tenant = c.tenant
context_values c Dimension.meter = c.meter
context_values c Dimension.device = c.device
context_values c Dimension.team = c.team
context_values c Dimension.cost_center = c.cost_center
context_values c Dimension.principal = c.principal
context_values c Dimension.service_account = c.service_account
context_values c Dimension.user = c.user
context_values c Dimension.project = c.project
context_values c Dimension.environment = c.environment
context_values c Dimension.agent = c.agent
context_values c Dimension.session = c.session
context_values c Dimension.provider = c.provider
context_values c Dimension.model = c.model
context_values c Dimension.model_class = c.model_class
context_values c Dimension.route = c.route
context_values c Dimension.tier = c.tier
context_values c Dimension.service_tier = c.service_tier
context_values c Dimension.geo = c.geo
context_values c Dimension.inference_geo = c.inference_geo

unfoldable pub identity_dimension_confidence : Context → Dimension → Confidence
identity_dimension_confidence c Dimension.organization = c.organization_confidence
identity_dimension_confidence c Dimension.tenant = c.tenant_confidence
identity_dimension_confidence c Dimension.meter = c.meter_confidence
identity_dimension_confidence c Dimension.device = c.device_confidence
identity_dimension_confidence c Dimension.team = c.team_confidence
identity_dimension_confidence c Dimension.cost_center = c.cost_center_confidence
identity_dimension_confidence c Dimension.principal = c.principal_confidence
identity_dimension_confidence c Dimension.service_account = c.service_account_confidence
identity_dimension_confidence c Dimension.user = c.user_confidence
identity_dimension_confidence c Dimension.project = c.project_confidence
identity_dimension_confidence c Dimension.environment = c.environment_confidence
identity_dimension_confidence c _ = not_identity

abbrev pub no_access : AccessList
no_access = record { allow = []; deny = [] }

-- A nil list is left out of the map, and a missing key reads as two empty lists.
abbrev or_none : Option AccessList → AccessList
or_none none = no_access
or_none (some a) = a

unfoldable pub match_access : Match → Dimension → AccessList
match_access m Dimension.provider = m.provider
match_access m Dimension.model = m.model
match_access m Dimension.route = m.route
match_access m Dimension.tier = m.tier
match_access m Dimension.geo = m.geo
match_access m Dimension.model_class = or_none m.model_class
match_access m Dimension.service_tier = or_none m.service_tier
match_access m Dimension.inference_geo = or_none m.inference_geo
match_access m _ = no_access

unfoldable pub rule_mode : Mode → Rule → Mode
rule_mode doc rule = elim rule.mode [ unset ↦ doc | m ↦ m ]

abbrev pub is_enforce : Mode → Bool
is_enforce enforce = true
is_enforce _ = false

abbrev pub is_not_identity : Confidence → Bool
is_not_identity not_identity = true
is_not_identity _ = false

abbrev pub is_authenticated : Confidence → Bool
is_authenticated authenticated = true
is_authenticated _ = false

-- An empty selector list accepts every value.
unfoldable pub selected : List String → String → Bool
selected selectors value = is_empty selectors || matches_any selectors value

unfoldable pub rule_applies : Rule → Context → Bool
rule_applies rule context =
    all (λ d. selected (scope_selectors rule.scope d) (context_values context d)) dimensions

-- `Context{}`.
abbrev pub empty_context : Context
empty_context = record {
  organization = "";
  tenant = "";
  meter = "";
  device = "";
  team = "";
  cost_center = "";
  principal = "";
  service_account = "";
  user = "";
  project = "";
  environment = "";
  agent = "";
  session = "";
  provider = "";
  model = "";
  model_class = "";
  route = "";
  tier = "";
  service_tier = "";
  geo = "";
  inference_geo = "";
  estimated_input = pos 0;
  output_bound = pos 0;
  output_bound_present = false;
  estimated_cost_usd = fin (pos 0);
  estimated_cost_micro_usd = pos 0;
  cost_known = false;
  identity_confidence = absent;
  organization_confidence = absent;
  tenant_confidence = absent;
  meter_confidence = absent;
  device_confidence = absent;
  team_confidence = absent;
  cost_center_confidence = absent;
  principal_confidence = absent;
  service_account_confidence = absent;
  user_confidence = absent;
  project_confidence = absent;
  environment_confidence = absent;
}

unfoldable pub has_identity_scope : Scope → Bool
unfolding identity_dimension_confidence
has_identity_scope scope =
    any
      (λ d.
        not (is_empty (scope_selectors scope d))
        && not (is_not_identity (identity_dimension_confidence empty_context d)))
      dimensions

-- A dimension that is not an identity, or that the server has authorised.
unfoldable pub trusted : Context → Dimension → Bool
trusted context d =
    let confidence = identity_dimension_confidence context d in
    is_not_identity confidence || is_authenticated confidence

unfoldable pub identity_scope_authenticated : Scope → Context → Bool
identity_scope_authenticated scope context =
    if not (has_identity_scope scope)
    then true
    else all (λ d. is_empty (scope_selectors scope d) || trusted context d) dimensions

-- `ruleAppliesIgnoringUntrustedIdentity`.
unfoldable pub rule_applies_ignoring_untrusted_identity : Rule → Context → Bool
rule_applies_ignoring_untrusted_identity rule context =
    all
      (λ d.
        not (trusted context d)
        || selected (scope_selectors rule.scope d) (context_values context d))
      dimensions

-- The test of the loop in `applicableRules`.
unfoldable pub applies : Mode → Rule → Context → Bool
applies doc_mode rule context =
    if is_enforce (rule_mode doc_mode rule) && not (identity_scope_authenticated rule.scope context)
    then rule_applies_ignoring_untrusted_identity rule context
    else rule_applies rule context
