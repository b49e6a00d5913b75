-- ===== src/Tests/Choosing.antt =====
-- Downshifts on a small configuration.
use burnban.Prelude.{◌≡◌, ◌↔◌, All, none, some, refl}
use burnban.Prelude.Sort.{sort_by}
use burnban.Float
use burnban.Downshift.Config
use burnban.Downshift.Config.{Rule, validate_config, rule_of, scope_matches, checks_of}
use burnban.Downshift.Features.{eligible}
use burnban.Downshift.Decide.{downshift, decide}
use burnban.Downshift.Valid.Due.{IsDue, decide_downshift_iff}
use burnban.Downshift.Valid.Compatible.{IsMet, CanServe, scope_matches_iff, eligible_iff}
use burnban.Downshift.Valid.Sources.{IsEquivalent, validate_config-IsFound, downshift-IsEquivalent}
use burnban.Tests.Data.{ascii, smaller, config, downshifts, someone, features, busy}

valid : validate_config ascii config ≡ some config
unfolding validate_config Config.config_header Config.finite_pct Config.rule_ok
    Config.validate_endpoint Config.safe_config_label Config.validate_scope
    Config.normalize_modalities sort_by
valid = refl

downshifted : (decide (some downshifts) busy).action ≡ downshift
unfolding decide Float.of_int
downshifted = refl

downshift-IsEquivalent_example :
    (rule : Rule) × (busy.route ≡ rule.source.route)
    × (busy.model ≡ rule.source.model)
    × ((decide (some downshifts) busy).target_route ≡ rule.target.route)
    × ((decide (some downshifts) busy).target_model ≡ rule.target.model)
    × IsEquivalent rule
    × CanServe rule busy.features
    × All IsMet (checks_of rule.scope busy.identity)
downshift-IsEquivalent_example =
    downshift-IsEquivalent ascii config downshifts busy valid downshifted

decide_downshift_iff_example :
    ((decide (some downshifts) busy).action ≡ downshift) ↔ ((rule : Rule) × IsDue config busy rule)
decide_downshift_iff_example = decide_downshift_iff downshifts busy

validate_config-IsFound_example :
    All IsEquivalent config.rules
    × All (λ (r : Rule). rule_of config.rules r.source.route r.source.model ≡ some r) config.rules
validate_config-IsFound_example = validate_config-IsFound ascii config config valid

served_by_smaller : (eligible smaller features ≡ none) ↔ CanServe smaller features
served_by_smaller = eligible_iff smaller features

someone_in_scope :
    (scope_matches smaller.scope someone ≡ none) ↔ All IsMet (checks_of smaller.scope someone)
someone_in_scope = scope_matches_iff smaller.scope someone
