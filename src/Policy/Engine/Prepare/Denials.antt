-- ===== src/Policy/Engine/Prepare/Denials.antt =====
-- internal/policy/engine.go, `Prepare`: the requests that it denies.
use burnban.Prelude.{
  ◌+◌, ◌≡◌, ◌≢◌, String, Bool, true, false, ◌&&◌, Option, none, some, List, [], ◌∷◌, arith, refl,
  All, Option-cases, Bool-cases, inl, inr, ap, ◌∙◌, sym, subst,
}
use burnban.Prelude.Int.{ℤ}
use burnban.Policy.Types.{Context, Rule}
use burnban.Policy.Engine.Evaluate.Limits.{IsSane, HasBoundedLimits}
use burnban.Policy.Engine.Evaluate.Breach.{IsBreach, evaluate-IsBreach}
use burnban.Policy.Context.{conservative_cost_micro_usd}
use burnban.Policy.Decision.{
  deny, RuleDecision, Decision, denied, enforced_violations, status_for_violations,
}
use burnban.Policy.Engine.State.{Compiled, Engine}
use burnban.Policy.Engine.Evaluate.{
  EngineError, ok, err, Outcome-cases, IndexedRule, applicable_rules, evaluate,
}
use burnban.Store.PolicyDecisions.{
  PolicyDecisionRule, Ledger, insert_policy_decision, policy_rule_usage_since,
}
use burnban.Store.PolicyDecisions.Insert.{insert_rejected, insert_policy_decision_parts}
use burnban.Policy.Engine.Prepare.Guards.{prepare_judges}
use burnban.Policy.Engine.Prepare.{
  Turn, Reservation, refused, reserved, decide, record_of, rule_rows, counted, conclude, reader,
  judge, Row, refresh_locked, prepare,
}

rule_rows_rejected :
    (context : Context) (rules : List IndexedRule) (ds : List RuleDecision)
    → All (λ (r : PolicyDecisionRule). r.accepted ≡ false) (rule_rows deny context rules ds)
unfolding rule_rows
rule_rows_rejected context rules [] = tt
rule_rows_rejected context rules (d ∷ ds) = elim (Bool-cases (counted rules d.rule_id)) [
  | inl e ↦ rw e (refl, rule_rows_rejected context rules ds)
  | inr e ↦ rw e (rule_rows_rejected context rules ds)
]

-- What is known of a denial.
pub record IsDenial (d : Decision) (e e' : Engine) (db db' : Ledger) : Type 0 where
  pub outcome : d.outcome ≡ deny
  pub violated : enforced_violations d.rules ≢ []
  pub status : d.http_status ≡ status_for_violations (enforced_violations d.rules)
  pub engine : e' ≡ e
  pub id : d.id ≡ db.last_id + 1
  pub usage :
      (namespace rule_id : String) (since : ℤ)
      → policy_rule_usage_since db' namespace rule_id since
        ≡ policy_rule_usage_since db namespace rule_id since

module _ {d d' : Decision} {e e' : Engine} {db db' : Ledger} where
  parts :
      ◌≡◌ {A = Turn} (ok (refused d), e, db) (ok (refused d'), e', db')
      → (d' ≡ d) × (e' ≡ e) × (db' ≡ db)
  parts h = (
    cc (ap (λ (t : Turn). t.0) h),
    sym (ap (λ (t : Turn). t.1) h),
    sym (ap (λ (t : Turn). t.2) h),
  )

module _ {d' : Decision} {e e' : Engine} {db db' : Ledger} where
  not_err : {x : EngineError} → ◌≡◌ {A = Turn} (err x, e, db) (ok (refused d'), e', db') → ⊥
  not_err h = cc (ap (λ (t : Turn). t.0) h)

  not_reserved :
      {r : Reservation} → ◌≡◌ {A = Turn} (ok (reserved r), e, db) (ok (refused d'), e', db') → ⊥
  not_reserved h = cc (ap (λ (t : Turn). t.0) h)

decide_denied :
    (compiled : Compiled) (context : Context) (rules : List IndexedRule) (ds : List RuleDecision)
    → let d = decide compiled context rules ds in
      denied d ≡ true
      → (d.outcome ≡ deny)
        × (enforced_violations d.rules ≢ [])
        × (d.http_status ≡ status_for_violations (enforced_violations d.rules))
unfolding decide denied
decide_denied compiled context rules ds h = ground arith

rejected_rows :
    (now : ℤ) (context : Context) (compiled : Compiled) (rules : List IndexedRule)
    (ds : List RuleDecision)
    → let d = decide compiled context rules ds in
      d.outcome ≡ deny
      → All (λ (r : PolicyDecisionRule). r.accepted ≡ false) (record_of now context rules d).rules
unfolding record_of
rejected_rows now context compiled rules ds o =
    rw o (rule_rows_rejected context rules (decide compiled context rules ds).rules)

conclude_refused :
    (answers : Bool) (now : ℤ) (context : Context) (compiled : Compiled) (rules : List IndexedRule)
    (ds : List RuleDecision) (e : Engine) (db : Ledger) (d : Decision) (e' : Engine) (db' : Ledger)
    → conclude answers now context compiled rules ds e db ≡ (ok (refused d), e', db')
    → IsDenial d e e' db db'
unfolding conclude
conclude_refused answers now context compiled rules ds e db d e' db' h =
    let v = decide compiled context rules ds in
    elim (Bool-cases (denied v)) [
      | inl x ↦
          elim (Option-cases (insert_policy_decision answers db (record_of now context rules v))) [
            | inl y ↦ absurd (not_err (rw (x, y) at h))
            | inr ((id, db1), y) ↦
                let (qd, qe, qdb) = parts (rw (x, y) at h) in
                let (o, n, s) = decide_denied compiled context rules ds x in
                record {
                  outcome = ap (λ (t : Decision). t.outcome) qd ∙ o;
                  violated =
                      λ z. n (ap (λ (t : Decision). enforced_violations t.rules) (sym qd) ∙ z);
                  status = rw qd s;
                  engine = qe;
                  id =
                      ap (λ (t : Decision). t.id) qd
                      ∙ (insert_policy_decision_parts answers db _ id db1 y).1;
                  usage = λ namespace rule_id since.
                      ap (λ t. policy_rule_usage_since t namespace rule_id since) qdb
                      ∙ insert_rejected answers db _ id db1 y
                          (rejected_rows now context compiled rules ds o) namespace rule_id since;
                }
          ]
      | inr x ↦ absurd (not_reserved (rw x at h))
    ]

conclude_violated :
    (answers : Bool) (now : ℤ) (context : Context) (compiled : Compiled) (rules : List IndexedRule)
    (ds : List RuleDecision) (e : Engine) (db : Ledger) (d : Decision) (e' : Engine) (db' : Ledger)
    → conclude answers now context compiled rules ds e db ≡ (ok (refused d), e', db')
    → enforced_violations ds ≢ []
unfolding conclude decide
conclude_violated answers now context compiled rules ds e db d e' db' h =
    elim (Bool-cases (denied (decide compiled context rules ds))) [
      | inr x ↦ absurd (not_reserved (rw x at h))
      | inl x ↦ let (_, n, _) = decide_denied compiled context rules ds x in n
    ]

judge_refused :
    (answers : Bool) (now : ℤ) (context : Context) (compiled : Compiled) (e : Engine) (db : Ledger)
    (d : Decision) (e' : Engine) (db' : Ledger)
    → IsSane context
    → All HasBoundedLimits compiled.document.rules
    → judge answers now context (some compiled) e db ≡ (ok (refused d), e', db')
    → IsDenial d e e' db db'
      × ((rule : Rule) × IsBreach e compiled (reader answers db compiled) now context rule)
unfolding judge
judge_refused answers now context compiled e db d e' db' s b h =
    elim (Bool-cases (
      context.cost_known
      && elim (conservative_cost_micro_usd context) [ none ↦ true | some _ ↦ false ])) [
        | inl x ↦ absurd (not_err (rw x at h))
        | inr x ↦
            elim (Outcome-cases (
              evaluate e compiled (reader answers db compiled) now context
                (applicable_rules compiled.document context))) [
                  | inl (w, y) ↦ absurd (not_err (rw (x, y) at h))
                  | inr (ds, y) ↦
                      let rules = applicable_rules compiled.document context in
                      let k = rw (x, y) at h in
                      (
                        conclude_refused answers now context compiled rules ds e db d e' db' k,
                        evaluate-IsBreach e compiled (reader answers db compiled) now context ds s b
                            y
                            (conclude_violated answers now context compiled rules ds e db d e' db'
                              k),
                      )
                ]
      ]

-- A request that `Prepare` denies breaks an enforcing rule of the refreshed policy that applies to it:
-- the rule denies or does not allow a value, asks for a bound or an authenticated label that is not there,
-- or has a limit that the request would exceed, given the durable counters and what is pending. The status
-- is that of the violations, the engine keeps its counters, and what is written down counts towards no
-- limit. The limits of the rules are counts, and the request's estimates are int64 with a conservative
-- cost, if any, that is a count.
pub prepare_refused :
    (answers : Bool) (parse : String → Option Compiled) (row : Row) (now : ℤ) (context : Context)
    (e e0 : Engine) (compiled : Compiled) (db : Ledger) (d : Decision) (e' : Engine) (db' : Ledger)
    → IsSane context
    → All HasBoundedLimits compiled.document.rules
    → refresh_locked parse row e ≡ ok e0
    → e0.active ≡ some compiled
    → prepare answers parse row now context e db ≡ (ok (refused d), e', db')
    → IsDenial d e0 e' db db'
      × ((rule : Rule) × IsBreach e0 compiled (reader answers db compiled) now context rule)
prepare_refused answers parse row now context e e0 compiled db d e' db' s b f a h =
    let (_, _, j) = prepare_judges answers parse row now context e e0 db (refused d) e' db' f h in
    judge_refused answers now context compiled e0 db d e' db' s b
      (subst (λ t. judge answers now context t e0 db ≡ (ok (refused d), e', db')) a j)
