-- ===== src/Policy/Engine/Evaluate/Breach.antt =====
-- internal/policy/engine.go, `Prepare`: the rule that an enforced violation comes from.
use burnban.Prelude.{
  ◌≡◌, ◌≢◌, true, List, [], ◌∷◌, Memᴰ, All, All-at, if◌then◌else◌, arith, refl, Bool-cases, inl,
  inr, ap, ◌∙◌, sym,
}
use burnban.Prelude.Int.{ℤ}
use burnban.Prelude.Sort.{All-sort_by}
use burnban.Policy.Types.{Rule, Context, enforce, Mode}
use burnban.Policy.Scope.{rule_mode, is_enforce, applies}
use burnban.Policy.Decision.{RuleDecision, enforced_violations}
use burnban.Policy.Engine.State.{Compiled, Engine}
use burnban.Policy.Engine.Evaluate.{
  ok, Outcome-cases, IndexedRule, UsageReader, evaluate_rule, evaluate, applicable_from,
  applicable_rules, rule_before,
}
use burnban.Policy.Engine.Evaluate.Limits.{IsSane, HasBoundedLimits, mode_of_evaluate_rule}
use burnban.Policy.Engine.Evaluate.Applicable.{applicable_rules-All}
use burnban.Policy.Engine.Evaluate.Broken.{IsBroken}
use burnban.Policy.Engine.Evaluate.Checks.{append_some, evaluate_rule-IsBroken}

-- Enforcing rules that apply, with what they say against the request.
module _ (e : Engine) (compiled : Compiled) (read : UsageReader) (now : ℤ) (context : Context) where
  pub record IsBreach (rule : Rule) : Type 0 where
    pub listed : Memᴰ rule compiled.document.rules
    pub applies_here : applies compiled.document.mode rule context ≡ true
    pub enforced : rule_mode compiled.document.mode rule ≡ enforce
    pub broken : IsBroken e compiled read now context rule

  enforces : (m : Mode) → is_enforce m ≡ true → m ≡ enforce
  enforces m h = ground arith

  evaluate-IsBroken :
      IsSane context
      → (rules : List IndexedRule) (ds : List RuleDecision)
      → All (λ (i : IndexedRule). HasBoundedLimits i.rule) rules
      → evaluate e compiled read now context rules ≡ ok ds
      → enforced_violations ds ≢ []
      → (i : IndexedRule) × Memᴰ i rules
        × (rule_mode compiled.document.mode i.rule ≡ enforce)
        × IsBroken e compiled read now context i.rule
  unfolding evaluate enforced_violations
  evaluate-IsBroken s [] ds b h n =
      let q : [] ≡ ds = cc h in absurd (n (ap enforced_violations (sym q)))
  evaluate-IsBroken s (i ∷ rules) ds b h n =
      elim (Outcome-cases (evaluate_rule e compiled read now context i)) [
        | inl (w, x) ↦ cc (rw (evaluate, x) at h)
        | inr (d, x) ↦ elim (Outcome-cases (evaluate e compiled read now context rules)) [
          | inl (w, y) ↦ cc (rw (evaluate, x, y) at h)
          | inr (rest, y) ↦
              let q : d ∷ rest ≡ ds = cc (rw (evaluate, x, y) at h) in
              let split =
                append_some (if is_enforce d.mode then d.violations else [])
                  (enforced_violations rest) (λ z. n (ap enforced_violations (sym q) ∙ z)) in
              elim split [
                | inr later ↦
                    let (j, m, o, k) = evaluate-IsBroken s rules rest b.1 y later in
                    (j, Memᴰ.tail m, o, k)
                | inl here ↦ elim (Bool-cases (is_enforce d.mode)) [
                  | inr f ↦ absurd (here (rw f refl))
                  | inl t ↦ (
                    i,
                    Memᴰ.head refl,
                    sym (mode_of_evaluate_rule e compiled read now context i d x)
                        ∙ enforces d.mode t,
                    evaluate_rule-IsBroken e compiled read now context i.rule s b.0 i.specificity d
                        x (rw t at here),
                  )
                ]
              ]
        ]
      ]

  each_listed :
      (rules all : List Rule)
      → ((r : Rule) → Memᴰ r rules → Memᴰ r all)
      → All (λ r. Memᴰ r all) rules
  each_listed [] all f = tt
  each_listed (r ∷ rules) all f =
      (f r (Memᴰ.head refl), each_listed rules all (λ x m. f x (Memᴰ.tail m)))

  each_applies :
      (rules : List Rule)
      → All
          (λ (i : IndexedRule). applies compiled.document.mode i.rule context ≡ true)
          (applicable_from compiled.document context rules)
  unfolding applicable_from
  each_applies [] = tt
  each_applies (r ∷ rules) = elim (Bool-cases (applies compiled.document.mode r context)) [
    | inl x ↦ rw x (x, each_applies rules)
    | inr x ↦ rw x (each_applies rules)
  ]

  -- Where the evaluation finds an enforced violation, a rule of the document is in breach.
  pub evaluate-IsBreach :
      (ds : List RuleDecision)
      → IsSane context
      → All HasBoundedLimits compiled.document.rules
      → evaluate e compiled read now context (applicable_rules compiled.document context) ≡ ok ds
      → enforced_violations ds ≢ []
      → (rule : Rule) × IsBreach rule
  unfolding applicable_rules
  evaluate-IsBreach ds s b h n =
      let rules = applicable_rules compiled.document context in
      let (i, m, enforcing, broken) =
        evaluate-IsBroken s rules ds (applicable_rules-All compiled.document context _ b) h n in
      let listed =
        applicable_rules-All compiled.document context (λ r. Memᴰ r compiled.document.rules)
          (each_listed compiled.document.rules compiled.document.rules (λ r m. m)) in
      let applying =
        All-sort_by rule_before
          (λ (j : IndexedRule). applies compiled.document.mode j.rule context ≡ true) _
          (each_applies compiled.document.rules) in
      (
        i.rule,
        record {
          listed =
              All-at (λ (j : IndexedRule). Memᴰ j.rule compiled.document.rules) i rules listed m;
          applies_here =
              All-at (λ (j : IndexedRule). applies compiled.document.mode j.rule context ≡ true) i
                rules applying m;
          enforced = enforcing;
          broken = broken;
        },
      )
