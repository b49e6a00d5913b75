-- ===== src/Downshift/Decide.antt =====
-- internal/downshift/decision.go: what to do with a request at the budget's present use. The texts of
-- the reasons are constructors; what they print is in the decision or the configuration.
use burnban.Prelude.{String, Bool, true, false, not, Option, none, some, str_eq, if◌then◌else◌}
use burnban.Prelude.Int.{ℤ, pos}
use burnban.Float
use burnban.Float.{Float64}
use burnban.Downshift.Config.{
  Mode, observe, Config, Compiled, Identity, Rule, Mismatch, rule_of, scope_matches,
}
use burnban.Downshift.Features.{Features, Refusal, eligible}

pub data Action : Type 0 where
  no_action warn_only downshift : Action

pub data Trigger : Type 0 where
  no_trigger warning threshold denial : Trigger

pub data Reason : Type 0 where
  no_configuration no_target source_dialect no_target_route target_dialect : Reason
  out_of_scope : Mismatch → Reason
  ineligible : Refusal → Reason
  denial_disabled below_warning : Reason
  reached_warning observed_denial observed_threshold chosen_on_denial chosen_on_threshold : Reason

pub record Input : Type 0 where
  pub route : String
  pub model : String
  pub dialect : String
  pub target_route_exists : Bool
  pub target_dialect : String
  pub identity : Identity
  pub features : Features
  pub budget_pct : Float64
  pub budget_denial : Bool

-- The fields that repeat the input or the configuration are left out.
pub record Decision : Type 0 where
  pub action : Action
  pub trigger : Trigger
  pub reason : Reason
  pub rule_id : String
  pub target_route : String
  pub target_model : String
  pub config_revision : ℤ
  pub config_digest : String
  pub compatibility_ok : Bool

abbrev pub undecided : Decision
undecided = record {
  action = no_action;
  trigger = no_trigger;
  reason = no_configuration;
  rule_id = "";
  target_route = "";
  target_model = "";
  config_revision = pos 0;
  config_digest = "";
  compatibility_ok = false;
}

abbrev pub is_observe : Mode → Bool
is_observe observe = true
is_observe _ = false

-- The trigger, or why there is none.
pub data Pull : Type 0 where
  pull : Trigger → Pull
  none_since : Reason → Pull

unfoldable pub trigger_of : Config → Input → Pull
unfolding Float.le
trigger_of config input =
    if input.budget_denial
    then (if config.downshift_on_denial then pull denial else none_since denial_disabled)
    else if Float.le config.downshift_at_pct input.budget_pct
    then pull threshold
    else if Float.le config.warn_at_pct input.budget_pct
    then pull warning
    else none_since below_warning

-- The part of `Decide` after the trigger is set.
unfoldable pub act : Config → Trigger → Decision → Decision
act config warning d = record d { trigger = warning; action = warn_only; reason = reached_warning }
act config denial d =
    if is_observe config.mode
    then record d { trigger = denial; action = warn_only; reason = observed_denial }
    else record d { trigger = denial; action = downshift; reason = chosen_on_denial }
act config threshold d =
    if is_observe config.mode
    then record d { trigger = threshold; action = warn_only; reason = observed_threshold }
    else record d { trigger = threshold; action = downshift; reason = chosen_on_threshold }
act config no_trigger d = d

-- What the rule says against the target, if anything.
unfoldable pub obstacle : Rule → Input → Option Reason
unfolding scope_matches eligible
obstacle rule input =
    if not (str_eq input.dialect rule.source.dialect)
    then some source_dialect
    else if not input.target_route_exists
    then some no_target_route
    else if not (str_eq input.target_dialect rule.target.dialect)
    then some target_dialect
    else elim (scope_matches rule.scope input.identity) [
      | some m ↦ some (out_of_scope m)
      | none ↦ elim (eligible rule input.features) [ some r ↦ some (ineligible r) | none ↦ none ]
    ]

unfoldable pub decide_rule : Config → Rule → Input → Decision → Decision
unfolding obstacle trigger_of act
decide_rule config rule input d = elim (obstacle rule input) [
  | some reason ↦ record d { reason = reason }
  | none ↦ elim (trigger_of config input) [
    | none_since reason ↦ record d { reason = reason; compatibility_ok = true }
    | pull trigger ↦ act config trigger (record d { compatibility_ok = true })
  ]
]

unfoldable pub decide : Option Compiled → Input → Decision
unfolding rule_of decide_rule
decide none input = undecided
decide (some compiled) input =
    let config = compiled.config in
    let d : Decision = record undecided {
      config_revision = config.revision;
      config_digest = compiled.digest;
    } in
    elim (rule_of config.rules input.route input.model) [
      | none ↦ record d { reason = no_target }
      | some rule ↦ decide_rule config rule input (record d {
        rule_id = rule.id;
        target_route = rule.target.route;
        target_model = rule.target.model;
      })
    ]
