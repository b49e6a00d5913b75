-- ===== src/Downshift/Valid/Choice.antt =====
-- When `Decide` replaces the model of a request.
use burnban.Prelude.{
  ◌≡◌, ◌↔◌, ◌⊎◌, inl, inr, true, false, none, some, Option-cases, Bool-cases, refl, arith,
}
use burnban.Float
use burnban.Downshift.Config.{Config, Compiled, Rule, rule_of}
use burnban.Downshift.Decide.{
  no_action, downshift, Trigger, no_trigger, warning, threshold, denial, Reason, Pull, pull,
  none_since, Input, Decision, is_observe, trigger_of, act, obstacle, decide_rule, decide,
}

-- A budget denial that the configuration downshifts on, or else the downshift threshold.
abbrev pub Pulls : Config → Input → Type 0
Pulls config input =
    ((input.budget_denial ≡ true) × (config.downshift_on_denial ≡ true))
    ⊎ ((input.budget_denial ≡ false) × (Float.le config.downshift_at_pct input.budget_pct ≡ true))

abbrev Triggers : Config → Input → Type 0
Triggers config input =
    (trigger_of config input ≡ pull denial) ⊎ (trigger_of config input ≡ pull threshold)

Triggers-Pulls : (config : Config) (input : Input) → Triggers config input → Pulls config input
unfolding trigger_of
Triggers-Pulls config input h = elim (Bool-cases input.budget_denial) [
  | inl t ↦ elim (Bool-cases config.downshift_on_denial) [
    | inl d ↦ inl (t, d)
    | inr d ↦ elim h [
      | inl x ↦ cc (rw (trigger_of, t, d) at x)
      | inr x ↦ cc (rw (trigger_of, t, d) at x)
    ]
  ]
  | inr f ↦ elim (Bool-cases (Float.le config.downshift_at_pct input.budget_pct)) [
    | inl d ↦ inr (f, d)
    | inr d ↦ elim (Bool-cases (Float.le config.warn_at_pct input.budget_pct)) [
      | inl w ↦ elim h [
        | inl x ↦ cc (rw (trigger_of, f, d, w) at x)
        | inr x ↦ cc (rw (trigger_of, f, d, w) at x)
      ]
      | inr w ↦ elim h [
        | inl x ↦ cc (rw (trigger_of, f, d, w) at x)
        | inr x ↦ cc (rw (trigger_of, f, d, w) at x)
      ]
    ]
  ]
]

Pulls-Triggers : (config : Config) (input : Input) → Pulls config input → Triggers config input
unfolding trigger_of
Pulls-Triggers config input (inl (t, d)) = inl (rw (trigger_of, t, d) refl)
Pulls-Triggers config input (inr (f, d)) = inr (rw (trigger_of, f, d) refl)

-- The rule of the source that may replace the model.
pub record IsReady (config : Config) (input : Input) (rule : Rule) : Type 0 where
  pub found : rule_of config.rules input.route input.model ≡ some rule
  pub clear : obstacle rule input ≡ none
  pub pulled : Pulls config input
  pub armed : is_observe config.mode ≡ false

act_downshift :
    (config : Config) (t : Trigger) (d : Decision)
    → d.action ≡ no_action
    → (act config t d).action ≡ downshift
    → ((t ≡ denial) ⊎ (t ≡ threshold)) × (is_observe config.mode ≡ false)
unfolding act
act_downshift config no_trigger d n h = cc
act_downshift config warning d n h = cc
act_downshift config threshold d n h = ground arith
act_downshift config denial d n h = ground arith

Pull-cases : (p : Pull) → ((t : Trigger) × (p ≡ pull t)) ⊎ ((r : Reason) × (p ≡ none_since r))
Pull-cases (pull t) = inl (t, refl)
Pull-cases (none_since r) = inr (r, refl)

decide_rule_downshift :
    (config : Config) (rule : Rule) (input : Input) (d : Decision)
    → d.action ≡ no_action
    → (decide_rule config rule input d).action ≡ downshift
    → (obstacle rule input ≡ none) × Triggers config input × (is_observe config.mode ≡ false)
unfolding decide_rule
decide_rule_downshift config rule input d n h = elim (Option-cases (obstacle rule input)) [
  | inr (r, x) ↦ cc (n, rw (decide_rule, x) at h)
  | inl x ↦ elim (Pull-cases (trigger_of config input)) [
    | inr (r, y) ↦ cc (n, rw (decide_rule, x, y) at h)
    | inl (t, y) ↦
        let (k, o) = act_downshift config t _ n (rw (decide_rule, x, y) at h) in
        (x, elim k [ inl q ↦ inl (cc (y, q)) | inr q ↦ inr (cc (y, q)) ], o)
  ]
]

abbrev SameTarget : Decision → Decision → Type 0
SameTarget d d' = (d.target_route ≡ d'.target_route) × (d.target_model ≡ d'.target_model)

act_target : (config : Config) (t : Trigger) (d : Decision) → SameTarget (act config t d) d
unfolding act
act_target config no_trigger d = (refl, refl)
act_target config warning d = (refl, refl)
act_target config threshold d = ground arith
act_target config denial d = ground arith

decide_rule_target :
    (config : Config) (rule : Rule) (input : Input) (d : Decision)
    → SameTarget (decide_rule config rule input d) d
unfolding decide_rule
decide_rule_target config rule input d = elim (Option-cases (obstacle rule input)) [
  | inr (r, x) ↦ rw (decide_rule, x) (refl, refl)
  | inl x ↦ elim (Pull-cases (trigger_of config input)) [
    | inr (r, y) ↦ rw (decide_rule, x, y) (refl, refl)
    | inl (t, y) ↦ rw (decide_rule, x, y) (act_target config t _)
  ]
]

decide_rule_ready :
    (config : Config) (rule : Rule) (input : Input) (d : Decision)
    → obstacle rule input ≡ none
    → Triggers config input
    → is_observe config.mode ≡ false
    → (decide_rule config rule input d).action ≡ downshift
unfolding decide_rule act
decide_rule_ready config rule input d x p o = elim p [
  | inl y ↦ rw (decide_rule, x, y, o) refl
  | inr y ↦ rw (decide_rule, x, y, o) refl
]

pub decide-IsReady :
    (compiled : Compiled) (input : Input)
    → (((decide (some compiled) input).action ≡ downshift)
        ↔ ((rule : Rule) × IsReady compiled.config input rule))
unfolding decide
decide-IsReady compiled input = (forward, backward)
  where
    forward :
        (decide (some compiled) input).action ≡ downshift
        → (rule : Rule) × IsReady compiled.config input rule
    forward h = elim (Option-cases (rule_of compiled.config.rules input.route input.model)) [
      | inl x ↦ cc (rw (decide, x) at h)
      | inr (rule, x) ↦
          let (c, p, o) =
            decide_rule_downshift compiled.config rule input _ refl (rw (decide, x) at h) in
          (
            rule,
            record {
              found = x;
              clear = c;
              pulled = Triggers-Pulls compiled.config input p;
              armed = o;
            },
          )
    ]

    backward :
        ((rule : Rule) × IsReady compiled.config input rule)
        → (decide (some compiled) input).action ≡ downshift
    backward (rule, r) =
        rw (decide, r.found)
          (decide_rule_ready compiled.config rule input _ r.clear
            (Pulls-Triggers compiled.config input r.pulled) r.armed)

-- The target that a decision names is that of the source's rule.
pub decide_target :
    (compiled : Compiled) (input : Input) (rule : Rule)
    → rule_of compiled.config.rules input.route input.model ≡ some rule
    → ((decide (some compiled) input).target_route ≡ rule.target.route)
      × ((decide (some compiled) input).target_model ≡ rule.target.model)
unfolding decide
decide_target compiled input rule x =
    rw (decide, x) (decide_rule_target compiled.config rule input _)
