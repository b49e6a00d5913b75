-- ===== src/Downshift/Simulate/Agrees.antt =====
-- internal/downshift/simulate.go: a row that the replay counts as eligible.
use burnban.Prelude.{
  Bool, true, false, not, ◌&&◌, ◌||◌, Option, none, some, str_eq, eq_iff, chain, guard-some,
  not-true, Bool-cases, Option-cases, some_inj, ◌≡◌, inl, inr, refl, sym, ap, ◌∙◌, subst, arith,
}
use burnban.Float.{Float64}
use burnban.Pricing.Types.{Table, Go}
use burnban.Pricing.Cost.{cost}
use burnban.Pricing.Resolve.{Resolution, resolve}
use burnban.Downshift.Config.{Compiled, Rule, rule_of, scope_matches}
use burnban.Downshift.Features.{Features, eligible}
use burnban.Downshift.Decide.{downshift, Input, is_observe, decide}
use burnban.Downshift.Valid.Choice.{Pulls, IsReady, decide-IsReady, decide_target}
use burnban.Downshift.Valid.Due.{obstacle-none}
use burnban.Downshift.History.{Row, Decoders, parse_feature_receipt, identity_of}
use burnban.Downshift.TargetCost.{
  invalid_cost, valid_cost, historical_target_cost, region_cost, hour_cost, usage_ok, standard_tier,
}
use burnban.Downshift.Simulate.{
  Outcome, counted, costed, priced_with, priced, compared, matched, route_of, model_of, outcome,
}

-- A live request like the row: its source, its features and its identity are the row's, and the target's
-- route is there with the target's dialect.
pub record IsLive (decode : Decoders) (row : Row) (rule : Rule) (features : Features)
    (input : Input) : Type 0 where
  pub route : input.route ≡ route_of row
  pub model : input.model ≡ model_of row
  pub dialect : input.dialect ≡ features.dialect
  pub exists : input.target_route_exists ≡ true
  pub target : input.target_dialect ≡ rule.target.dialect
  pub identity : input.identity ≡ identity_of decode row
  pub same : input.features ≡ features

eligible-source_dialect :
    (rule : Rule) (f : Features)
    → eligible rule f ≡ none
    → str_eq f.dialect rule.source.dialect ≡ true
unfolding eligible
eligible-source_dialect rule f h = elim (Bool-cases (str_eq f.dialect rule.source.dialect)) [
  | inl e ↦ e
  | inr e ↦ elim (Bool-cases f.compatible) [
    | inl c ↦ cc (rw (eligible, c, e) at h)
    | inr c ↦ cc (rw (eligible, c) at h)
  ]
]

valid_cost-some :
    (o : Option Float64) (c : Float64) → chain o valid_cost ≡ some c → invalid_cost c ≡ false
valid_cost-some none c h = cc
valid_cost-some (some b) c h =
    let (v, e) = guard-some (not (invalid_cost b)) (some b) c h in
    subst (λ x. invalid_cost x ≡ false) (some_inj e) (not-true _ v)

costed-counted : (o : Option Float64) (c : Float64) → costed o ≡ counted c → o ≡ some c
costed-counted none c h = cc
costed-counted (some b) c h = cc

or_false : (a b c : Bool) → (a || b || c) ≡ false → c ≡ false
or_false a b c h = ground arith

neither : (a b : Bool) → (not a || b) ≡ false → (a ≡ true) × (b ≡ false)
neither true b h = (refl, h)
neither false b h = cc

priced_with-counted :
    (row : Row) (resolved : Resolution) (found : Bool) (target : Option Float64) (c : Float64)
    → priced_with row resolved found target ≡ counted c
    → (invalid_cost row.cost_usd ≡ false)
      × (target ≡ some c)
      × (found ≡ true)
      × (resolved.has_final_cost ≡ false)
unfolding priced_with
priced_with-counted row resolved found target c h =
    let source =
      not (str_eq row.pricing_state "priced") || row.fee_unpriced || invalid_cost row.cost_usd in
    let unknown_target = not found || resolved.has_final_cost in
    elim (Bool-cases source) [
      | inl e ↦ cc (rw (priced_with, e) at h)
      | inr e ↦ elim (Bool-cases unknown_target) [
        | inl x ↦ cc (rw (priced_with, e, x) at h)
        | inr x ↦ (
          or_false (not (str_eq row.pricing_state "priced")) row.fee_unpriced
              (invalid_cost row.cost_usd) e,
          costed-counted target c (rw (priced_with, e, x) at h),
          (neither found resolved.has_final_cost x).0,
          (neither found resolved.has_final_cost x).1,
        )
      ]
    ]

module _ (go : Go) (decode : Decoders) where
  historical_target_cost-valid :
      (resolved : Resolution) (row : Row) (c : Float64)
      → historical_target_cost go resolved row ≡ some c
      → invalid_cost c ≡ false
  unfolding historical_target_cost
  historical_target_cost-valid resolved row c h =
      valid_cost-some
        (region_cost go resolved row (hour_cost go resolved row (cost resolved.price row.usage))) c
        (guard-some (usage_ok row && (resolved.covers_tier || standard_tier go row.service_tier)) _
          c h).1

  -- What the row's usage costs at the price of the rule's target: the table has one for the target's
  -- route and model at the row's time, region and tier, and it covers them.
  pub record IsTargetCost (prices : Table) (rule : Rule) (row : Row) (c : Float64) : Type 0 where
    pub found :
        (resolve go prices rule.target.route rule.target.model row.inference_geo row.service_tier
          row.ts none).1
        ≡ true
    pub list_price :
        (resolve go prices rule.target.route rule.target.model row.inference_geo row.service_tier
          row.ts none).0.has_final_cost
        ≡ false
    pub cost :
        historical_target_cost go
          (resolve go prices rule.target.route rule.target.model row.inference_geo row.service_tier
            row.ts none).0
          row
        ≡ some c

  priced-counted :
      (prices : Table) (rule : Rule) (row : Row) (c : Float64)
      → priced go decode prices rule row ≡ counted c
      → (invalid_cost c ≡ false)
        × (invalid_cost row.cost_usd ≡ false)
        × IsTargetCost prices rule row c
  unfolding priced
  priced-counted prices rule row c h =
      let r =
        resolve go prices rule.target.route rule.target.model row.inference_geo row.service_tier
          row.ts none in
      let (v, t, f, n) = priced_with-counted row r.0 r.1 (historical_target_cost go r.0 row) c h in
      (historical_target_cost-valid r.0 row c t, v, record { found = f; list_price = n; cost = t })

  compared-counted :
      (prices : Table) (rule : Rule) (row : Row) (f : Features) (c : Float64)
      → compared go decode prices rule row f ≡ counted c
      → (scope_matches rule.scope (identity_of decode row) ≡ none)
        × (eligible rule f ≡ none)
        × (priced go decode prices rule row ≡ counted c)
  unfolding compared
  compared-counted prices rule row f c h =
      elim (Option-cases (scope_matches rule.scope (identity_of decode row))) [
        | inr (m, e) ↦ cc (rw (compared, e) at h)
        | inl e ↦ elim (Option-cases (eligible rule f)) [
          | inr (r, x) ↦ cc (rw (compared, e, x) at h)
          | inl x ↦ (e, x, rw (compared, e, x) at h)
        ]
      ]

  matched-counted :
      (prices : Table) (rule : Rule) (row : Row) (f : Features) (c : Float64)
      → parse_feature_receipt decode row.downshift_features ≡ some f
      → matched go decode prices rule row ≡ counted c
      → compared go decode prices rule row f ≡ counted c
  unfolding matched
  matched-counted prices rule row f c p h =
      elim (Bool-cases (str_eq row.downshift_action "downshift")) [
        | inl e ↦ cc (rw (matched, e) at h)
        | inr e ↦ rw (matched, e, p) at h
      ]

  outcome-matched :
      (compiled : Compiled) (prices : Table) (row : Row) (rule : Rule) (o : Outcome)
      → rule_of compiled.config.rules (route_of row) (model_of row) ≡ some rule
      → outcome go decode compiled prices row ≡ o
      → matched go decode prices rule row ≡ o
  unfolding outcome
  outcome-matched compiled prices row rule o r h = rw (outcome, r) at h

  module _ (compiled : Compiled) (prices : Table) (row : Row) (rule : Rule) (features : Features)
      (input : Input) (c : Float64) where
    -- A row that the replay counts as eligible is one that a live request like it is downshifted for, to
    -- the target of the rule of its source, wherever the budget pulls and the configuration does not
    -- merely observe. The cost that is counted is that of the row's usage at the price which the table
    -- has for this target, and neither of the row's two costs is an invalid one.
    pub counted-downshift :
        rule_of compiled.config.rules (route_of row) (model_of row) ≡ some rule
        → parse_feature_receipt decode row.downshift_features ≡ some features
        → outcome go decode compiled prices row ≡ counted c
        → IsLive decode row rule features input
        → Pulls compiled.config input
        → is_observe compiled.config.mode ≡ false
        → ((decide (some compiled) input).action ≡ downshift)
          × ((decide (some compiled) input).target_route ≡ rule.target.route)
          × ((decide (some compiled) input).target_model ≡ rule.target.model)
          × (invalid_cost c ≡ false)
          × (invalid_cost row.cost_usd ≡ false)
          × IsTargetCost prices rule row c
    counted-downshift r p o live pulls armed =
        let m = outcome-matched compiled prices row rule (counted c) r o in
        let (s, e, k) =
          compared-counted prices rule row features c
            (matched-counted prices rule row features c p m) in
        let (v, w, x) = priced-counted prices rule row c k in
        let found : rule_of compiled.config.rules input.route input.model ≡ some rule =
          ap (λ x. rule_of compiled.config.rules x input.model) live.route
          ∙ ap (rule_of compiled.config.rules (route_of row)) live.model
          ∙ r in
        let clear =
          obstacle-none rule input
            (subst (λ d. str_eq d rule.source.dialect ≡ true) (sym live.dialect)
              (eligible-source_dialect rule features e))
            live.exists ((eq_iff input.target_dialect rule.target.dialect).1 live.target)
            (ap (scope_matches rule.scope) live.identity ∙ s) (ap (eligible rule) live.same ∙ e) in
        let ready : IsReady compiled.config input rule = record {
          found = found;
          clear = clear;
          pulled = pulls;
          armed = armed;
        } in
        let target = decide_target compiled input rule found in
        ((decide-IsReady compiled input).1 (rule, ready), target.0, target.1, v, w, x)
