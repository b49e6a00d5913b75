-- ===== src/Downshift/Valid/Due.antt =====
-- internal/downshift: what a request and a configuration must be for `Decide` to replace the model.
use burnban.Prelude.{
  ◌≡◌, ◌≢◌, ◌↔◌, ◌⊎◌, inl, inr, String, Bool, true, false, not, ◌&&◌, Option, none, some, List, [],
  ◌∷◌, All, str_eq, eq_iff, Option-cases, Bool-cases, and_true, some_inj, refl, ap, ◌∙◌, subst,
  if◌then◌else◌, arith,
}
use burnban.Downshift.Config.{
  Scope, Identity, Config, Compiled, Rule, rule_of, scope_matches, checks_of, observe,
}
use burnban.Downshift.Features.{eligible}
use burnban.Downshift.Decide.{
  downshift, Reason, out_of_scope, ineligible, source_dialect, no_target_route, target_dialect,
  Input, is_observe, obstacle, decide,
}
use burnban.Downshift.Valid.Choice.{Pulls, decide-IsReady}
use burnban.Downshift.Valid.Compatible.{CanServe, scope_matches_iff, eligible_iff}

early_true :
    (b : Bool) (r : Reason) (o : Option Reason)
    → (if not b then some r else o) ≡ none
    → (b ≡ true) × (o ≡ none)
early_true true r o h = (refl, h)
early_true false r o h = cc

both_clear :
    (rule : Rule) (input : Input)
    → elim (scope_matches rule.scope input.identity) [
      | some m ↦ some (out_of_scope m)
      | none ↦ elim (eligible rule input.features) [ some r ↦ some (ineligible r) | none ↦ none ]
    ]
      ≡ none
    → (scope_matches rule.scope input.identity ≡ none) × (eligible rule input.features ≡ none)
both_clear rule input h = elim (Option-cases (scope_matches rule.scope input.identity)) [
  | inr (m, e) ↦ cc (rw e at h)
  | inl e ↦ elim (Option-cases (eligible rule input.features)) [
    | inr (r, f) ↦ cc (rw (e, f) at h)
    | inl f ↦ (e, f)
  ]
]

-- Nothing of the five tests is against the target.
pub clear_obstacle :
    (rule : Rule) (input : Input)
    → obstacle rule input ≡ none
    → (input.dialect ≡ rule.source.dialect)
      × (input.target_route_exists ≡ true)
      × (input.target_dialect ≡ rule.target.dialect)
      × (scope_matches rule.scope input.identity ≡ none)
      × (eligible rule input.features ≡ none)
unfolding obstacle
clear_obstacle rule input h =
    let (d, h1) = early_true _ source_dialect _ h in
    let (x, h2) = early_true _ no_target_route _ h1 in
    let (t, h3) = early_true _ target_dialect _ h2 in
    let (s, f) = both_clear rule input h3 in ((eq_iff _ _).0 d, x, (eq_iff _ _).0 t, s, f)

pub obstacle-none :
    (rule : Rule) (input : Input)
    → str_eq input.dialect rule.source.dialect ≡ true
    → input.target_route_exists ≡ true
    → str_eq input.target_dialect rule.target.dialect ≡ true
    → scope_matches rule.scope input.identity ≡ none
    → eligible rule input.features ≡ none
    → obstacle rule input ≡ none
unfolding obstacle
obstacle-none rule input d x t s e = rw (obstacle, d, x, t, s, e) refl

-- The rule is the last of the list for this source.
pub data IsLast (route model : String) (rule : Rule) : List Rule → Type 0 where
  last :
      {rest : List Rule}
      → route ≡ rule.source.route
      → model ≡ rule.source.model
      → All (λ (r : Rule). (route ≢ r.source.route) ⊎ (model ≢ r.source.model)) rest
      → IsLast route model rule (rule ∷ rest)
  later :
      {r : Rule} {rest : List Rule}
      → IsLast route model rule rest
      → IsLast route model rule (r ∷ rest)

apart : (a b c d : String) → (str_eq a b && str_eq c d) ≡ false → (a ≢ b) ⊎ (c ≢ d)
apart a b c d h = elim (Bool-cases (str_eq a b)) [
  | inl x ↦ inr (λ e. cc ((eq_iff c d).1 e, x, rw x at h))
  | inr x ↦ inl (λ e. cc ((eq_iff a b).1 e, x))
]

rule_of-none :
    (rules : List Rule) (route model : String)
    → rule_of rules route model ≡ none
    → All (λ (r : Rule). (route ≢ r.source.route) ⊎ (model ≢ r.source.model)) rules
unfolding rule_of
rule_of-none [] route model h = tt
rule_of-none (r ∷ rules) route model h = elim (Option-cases (rule_of rules route model)) [
  | inr (x, e) ↦ cc (rw (rule_of, e) at h)
  | inl e ↦ elim (Bool-cases (str_eq route r.source.route && str_eq model r.source.model)) [
    | inl f ↦ cc (rw (rule_of, e, f) at h)
    | inr f ↦ (apart _ _ _ _ f, rule_of-none rules route model e)
  ]
]

none-rule_of :
    (rules : List Rule) (route model : String)
    → All (λ (r : Rule). (route ≢ r.source.route) ⊎ (model ≢ r.source.model)) rules
    → rule_of rules route model ≡ none
unfolding rule_of
none-rule_of [] route model h = refl
none-rule_of (r ∷ rules) route model h =
    elim (Bool-cases (str_eq route r.source.route && str_eq model r.source.model)) [
      | inr f ↦ rw (rule_of, none-rule_of rules route model h.1, f) refl
      | inl f ↦
          let (x, y) = and_true _ _ f in
          elim h.0 [ inl n ↦ absurd (n ((eq_iff _ _).0 x)) | inr n ↦ absurd (n ((eq_iff _ _).0 y)) ]
    ]

rule_of-IsLast :
    (rules : List Rule) (route model : String) (rule : Rule)
    → rule_of rules route model ≡ some rule
    → IsLast route model rule rules
unfolding rule_of
rule_of-IsLast [] route model rule h = cc
rule_of-IsLast (r ∷ rules) route model rule h = elim (Option-cases (rule_of rules route model)) [
  | inr (x, e) ↦ IsLast.later (rule_of-IsLast rules route model rule (e ∙ (rw (rule_of, e) at h)))
  | inl e ↦ elim (Bool-cases (str_eq route r.source.route && str_eq model r.source.model)) [
    | inr f ↦ cc (rw (rule_of, e, f) at h)
    | inl f ↦
        let (x, y) = and_true _ _ f in
        subst (λ t. IsLast route model t (r ∷ rules)) (some_inj (rw (rule_of, e, f) at h))
          (IsLast.last ((eq_iff _ _).0 x) ((eq_iff _ _).0 y) (rule_of-none rules route model e))
  ]
]

IsLast-rule_of :
    (route model : String) (rule : Rule) {rules : List Rule}
    → IsLast route model rule rules
    → rule_of rules route model ≡ some rule
unfolding rule_of
IsLast-rule_of route model rule (IsLast.last {rest} x y h) =
    rw (rule_of, none-rule_of rest route model h, (eq_iff _ _).1 x, (eq_iff _ _).1 y) refl
IsLast-rule_of route model rule (IsLast.later {rest = rest} h) =
    rw (rule_of, IsLast-rule_of route model rule h) refl

-- A label that the scope names is the identity's, which is authenticated.
abbrev pub IsGranted : String → String → String → Type 0
IsGranted want got confidence = (want ≡ "") ⊎ ((want ≡ got) × (confidence ≡ "authenticated"))

pub record IsInScope (scope : Scope) (identity : Identity) : Type 0 where
  pub tenant : IsGranted scope.tenant identity.tenant identity.confidence
  pub principal : IsGranted scope.principal identity.principal identity.user_confidence
  pub service_account :
      IsGranted scope.service_account identity.service_account identity.user_confidence
  pub project : IsGranted scope.project identity.project identity.project_confidence
  pub cost_center : IsGranted scope.cost_center identity.cost_center identity.team_confidence

scope_matches-IsInScope :
    (scope : Scope) (identity : Identity)
    → (scope_matches scope identity ≡ none) ↔ IsInScope scope identity
unfolding checks_of
scope_matches-IsInScope scope identity = (
  λ h.
      let (tenant, (principal, (account, (project, (center, _))))) =
        (scope_matches_iff scope identity).0 h in
      record {
        tenant = tenant;
        principal = principal;
        service_account = account;
        project = project;
        cost_center = center;
      },
  λ r.
      (scope_matches_iff scope identity).1
        (r.tenant, (r.principal, (r.service_account, (r.project, (r.cost_center, tt))))),
)

-- The rule for the request's source may replace its model, and the budget has it done.
pub record IsDue (config : Config) (input : Input) (rule : Rule) : Type 0 where
  pub source : IsLast input.route input.model rule config.rules
  pub source_dialect : input.dialect ≡ rule.source.dialect
  pub exists : input.target_route_exists ≡ true
  pub target_dialect : input.target_dialect ≡ rule.target.dialect
  pub scope : IsInScope rule.scope input.identity
  pub serves : CanServe rule input.features
  pub pulled : Pulls config input
  pub armed : config.mode ≢ observe

armed-false : (config : Config) → is_observe config.mode ≡ false → config.mode ≢ observe
armed-false config h e = cc (ap is_observe e, h)

armed-true : (config : Config) → config.mode ≢ observe → is_observe config.mode ≡ false
armed-true config h = ground arith

-- The model is replaced exactly where a rule is due: the last one for the request's route and model, in
-- the dialect of its source and with the target's route there in the target's dialect. Each label of its
-- scope is the identity's own and authenticated, its target can serve what the request uses, and the
-- configuration does not merely observe. Either the budget denies the request and the configuration
-- downshifts on that, or it does not and its use has reached the downshift threshold.
pub decide_downshift_iff :
    (compiled : Compiled) (input : Input)
    → (((decide (some compiled) input).action ≡ downshift)
        ↔ ((rule : Rule) × IsDue compiled.config input rule))
decide_downshift_iff compiled input = (forward, backward)
  where
    forward :
        (decide (some compiled) input).action ≡ downshift
        → (rule : Rule) × IsDue compiled.config input rule
    forward h =
        let (rule, r) = (decide-IsReady compiled input).0 h in
        let (d, x, t, s, f) = clear_obstacle rule input r.clear in
        (
          rule,
          record {
            source = rule_of-IsLast compiled.config.rules input.route input.model rule r.found;
            source_dialect = d;
            exists = x;
            target_dialect = t;
            scope = (scope_matches-IsInScope rule.scope input.identity).0 s;
            serves = (eligible_iff rule input.features).0 f;
            pulled = r.pulled;
            armed = armed-false compiled.config r.armed;
          },
        )

    backward :
        ((rule : Rule) × IsDue compiled.config input rule)
        → (decide (some compiled) input).action ≡ downshift
    backward (rule, r) = (decide-IsReady compiled input).1 (
      rule,
      record {
        found = IsLast-rule_of input.route input.model rule r.source;
        clear =
            obstacle-none rule input ((eq_iff _ _).1 r.source_dialect) r.exists
              ((eq_iff _ _).1 r.target_dialect)
              ((scope_matches-IsInScope rule.scope input.identity).1 r.scope)
              ((eligible_iff rule input.features).1 r.serves);
        pulled = r.pulled;
        armed = armed-true compiled.config r.armed;
      },
    )
