-- ===== src/Policy/Engine/Prepare/Admissions.antt =====
-- internal/policy/engine.go, `Prepare`: the requests that it reserves.
use burnban.Prelude.{
  ◌≡◌, String, Bool, true, false, ◌&&◌, Option, none, some, List, [], ◌∷◌, ◌++◌, if◌then◌else◌,
  arith, refl, All, All-at, Memᴰ, Option-cases, Bool-cases, inl, inr, ap, ◌∙◌, subst, sym,
}
use burnban.Prelude.Int.{ℤ}
use burnban.Policy.Types.{enforce, Rule, Context}
use burnban.Policy.Context.{conservative_cost_micro_usd}
use burnban.Policy.Scope.{is_enforce, rule_mode, applies}
use burnban.Policy.Decision.{RuleDecision, Decision, denied, enforced_violations}
use burnban.Policy.Engine.State.{Compiled, Engine}
use burnban.Policy.Engine.Evaluate.{
  EngineError, Outcome, ok, err, ◌>>=◌, Outcome-cases, IndexedRule, UsageReader, applicable_rules,
  evaluate_rule, evaluate,
}
use burnban.Policy.Engine.Evaluate.Limits.{
  IsSane, HasBoundedLimits, Within, evaluate_rule_within, mode_of_evaluate_rule,
}
use burnban.Policy.Engine.Evaluate.Applicable.{applicable_rules-All, All-of_applicable_rules}
use burnban.Store.PolicyDecisions.{Ledger, insert_policy_decision}
use burnban.Policy.Engine.Prepare.Guards.{prepare_judges}
use burnban.Policy.Engine.Prepare.{
  Row, Turn, Reservation, no_policy, refused, reserved, refresh_locked, decide, record_of, granted,
  conclude, reader, judge, prepare,
}

-- The bind of two evaluations, taken apart.
both :
    {A : Type 0} (a : Outcome A) (b : Outcome (List A)) (ds : List A)
    → (a >>= λ d. b >>= λ rest. ok (d ∷ rest)) ≡ ok ds
    → (d : A) × (rest : List A) × (a ≡ ok d) × (b ≡ ok rest) × (d ∷ rest ≡ ds)
both (ok d) (ok rest) ds h = (d, rest, refl, refl, cc)
both (ok d) (err x) ds h = cc
both (err x) b ds h = cc

append_nil : {A : Type 0} (xs ys : List A) → xs ++ ys ≡ [] → (xs ≡ []) × (ys ≡ [])
append_nil [] ys h = (refl, h)
append_nil (x ∷ xs) ys h = cc

cleared :
    (d : RuleDecision)
    → (if is_enforce d.mode then d.violations else []) ≡ []
    → d.mode ≡ enforce
    → d.violations ≡ []
cleared d h m = rw m at h

module _ (e : Engine) (compiled : Compiled) (read : UsageReader) (now : ℤ) (context : Context) where
  -- An enforcing rule of the list lets the request pass on every limit.
  abbrev pub Passes : Rule → Type 0
  Passes rule =
      rule_mode compiled.document.mode rule ≡ enforce → Within e compiled read now context rule

  evaluate-Passes :
      IsSane context
      → (rules : List IndexedRule) (ds : List RuleDecision)
      → All (λ (i : IndexedRule). HasBoundedLimits i.rule) rules
      → evaluate e compiled read now context rules ≡ ok ds
      → enforced_violations ds ≡ []
      → All (λ (i : IndexedRule). Passes i.rule) rules
  unfolding evaluate enforced_violations
  evaluate-Passes s [] ds b h n = tt
  evaluate-Passes s (i ∷ rules) ds b h n =
      let (d, rest, hd, hr, q) =
        both (evaluate_rule e compiled read now context i)
          (evaluate e compiled read now context rules) ds h in
      let (here, later) = append_nil _ _ (ap enforced_violations q ∙ n) in
      (
        λ m.
            evaluate_rule_within e compiled read now context i.rule s b.0 i.specificity d hd
              (cleared d here (mode_of_evaluate_rule e compiled read now context i d hd ∙ m)),
        evaluate-Passes s rules rest b.1 hr later,
      )

module _ {r r' : Reservation} {e e' : Engine} {db db' : Ledger} where
  parts :
      ◌≡◌ {A = Turn} (ok (reserved r), e, db) (ok (reserved r'), e', db')
      → (◌≡◌ {A = Engine × Reservation} (e, r) (e', r')) × (db' ≡ db)
  parts h =
      (cc (ap (λ (t : Turn). t.0) h, ap (λ (t : Turn). t.1) h), sym (ap (λ (t : Turn). t.2) h))

module _ {r' : Reservation} {e e' : Engine} {db db' : Ledger} where
  not_err : {x : EngineError} → ◌≡◌ {A = Turn} (err x, e, db) (ok (reserved r'), e', db') → ⊥
  not_err h = cc (ap (λ (t : Turn). t.0) h)

  not_refused :
      {d : Decision} → ◌≡◌ {A = Turn} (ok (refused d), e, db) (ok (reserved r'), e', db') → ⊥
  not_refused h = cc (ap (λ (t : Turn). t.0) h)

  not_idle : ◌≡◌ {A = Turn} (ok no_policy, e, db) (ok (reserved r'), e', db') → ⊥
  not_idle h = cc (ap (λ (t : Turn). t.0) h)

-- The reservation is one that `conclude` granted, and nothing was written.
pub conclude_reserved :
    (answers : Bool) (now : ℤ) (context : Context) (compiled : Compiled) (rules : List IndexedRule)
    (ds : List RuleDecision) (e : Engine) (db : Ledger) (r : Reservation) (e' : Engine)
    (db' : Ledger)
    → conclude answers now context compiled rules ds e db ≡ (ok (reserved r), e', db')
    → (denied (decide compiled context rules ds) ≡ false)
      × (granted now context compiled rules ds e ≡ (e', r))
      × (db' ≡ db)
unfolding conclude
conclude_reserved answers now context compiled rules ds e db r e' db' h =
    elim (Bool-cases (denied (decide compiled context rules ds))) [
      | inl x ↦
          elim (Option-cases (
            insert_policy_decision answers db
              (record_of now context rules (decide compiled context rules ds)))) [
                | inl y ↦ absurd (not_err (rw (x, y) at h))
                | inr (p, y) ↦ absurd (not_refused (rw (x, y) at h))
              ]
      | inr x ↦ (x, (parts (rw x at h)).0, (parts (rw x at h)).1)
    ]

allowed :
    (compiled : Compiled) (context : Context) (rules : List IndexedRule) (ds : List RuleDecision)
    → denied (decide compiled context rules ds) ≡ false
    → enforced_violations ds ≡ []
unfolding decide denied
allowed compiled context rules ds h = ground arith

-- A request that the judgement reserves passes every enforcing rule of the policy that applies to it,
-- on each limit, given what was used and is pending; nothing is written until the commit.
judge_reserved :
    (answers : Bool) (now : ℤ) (context : Context) (compiled : Compiled) (e : Engine) (db : Ledger)
    (r : Reservation) (e' : Engine) (db' : Ledger)
    → IsSane context
    → All HasBoundedLimits compiled.document.rules
    → judge answers now context (some compiled) e db ≡ (ok (reserved r), e', db')
    → All
        (λ rule.
          applies compiled.document.mode rule context ≡ true
          → Passes e compiled (reader answers db compiled) now context rule)
        compiled.document.rules
      × (db' ≡ db)
unfolding judge
judge_reserved answers now context compiled e db r e' db' s b h =
    elim (Bool-cases (
      context.cost_known
      && elim (conservative_cost_micro_usd context) [ none ↦ true | some _ ↦ false ])) [
        | inl x ↦ absurd (not_err (rw x at h))
        | inr x ↦
            elim (Outcome-cases (
              evaluate e compiled (reader answers db compiled) now context
                (applicable_rules compiled.document context))) [
                  | inl (w, y) ↦ absurd (not_err (rw (x, y) at h))
                  | inr (ds, y) ↦
                      let (d, _, same) =
                        conclude_reserved answers now context compiled _ ds e db r e' db'
                          (rw (x, y) at h) in
                      (
                        All-of_applicable_rules compiled.document context _ (
                            evaluate-Passes e compiled (reader answers db compiled) now context s _
                              ds (applicable_rules-All compiled.document context _ b) y
                              (allowed compiled context _ ds d)),
                        same,
                      )
                ]
      ]

-- A reservation from `Prepare` fits every limit of every enforcing rule of the refreshed policy that
-- applies to the request: what the durable counters and the pending reservations hold, with what the
-- request may use, stays within the limit. The limits of the rules are counts, and the request's estimates
-- are int64 with a conservative cost, if any, that is a count. The database is as before.
pub prepare_reserved :
    (answers : Bool) (parse : String → Option Compiled) (row : Row) (now : ℤ) (context : Context)
    (e e0 : Engine) (compiled : Compiled) (db : Ledger) (r : Reservation) (e' : Engine)
    (db' : Ledger)
    → IsSane context
    → All HasBoundedLimits compiled.document.rules
    → refresh_locked parse row e ≡ ok e0
    → e0.active ≡ some compiled
    → prepare answers parse row now context e db ≡ (ok (reserved r), e', db')
    → (rule : Rule) → Memᴰ rule compiled.document.rules
    → applies compiled.document.mode rule context ≡ true
    → rule_mode compiled.document.mode rule ≡ enforce
    → Within e0 compiled (reader answers db compiled) now context rule × (db' ≡ db)
prepare_reserved answers parse row now context e e0 compiled db r e' db' s b f a h rule m p n =
    let (_, _, j) = prepare_judges answers parse row now context e e0 db (reserved r) e' db' f h in
    let (rules, same) =
      judge_reserved answers now context compiled e0 db r e' db' s b
        (subst (λ t. judge answers now context t e0 db ≡ (ok (reserved r), e', db')) a j) in
    (
      All-at
          (λ (x : Rule).
            applies compiled.document.mode x context ≡ true
            → Passes e0 compiled (reader answers db compiled) now context x)
          rule compiled.document.rules rules m p n,
      same,
    )
