-- ===== src/Store/PolicyDecisions/Insert.antt =====
-- What an inserted decision does to the counters that limits read.
use burnban.Prelude.{
  ℕ, ◌+◌, ◌≡◌, String, Bool, false, List, [], ◌∷◌, ◌++◌, map, if◌then◌else◌, any, arith, refl, All,
  some, ◌∙◌, ap,
}
use burnban.Prelude.Int.{ℤ}
use burnban.Store.PolicyDecisions.{
  PolicyDecisionRule, PolicyDecisionRecord, RuleRow, Ledger, PolicyRuleUsage, no_usage, count_row,
  counts, has_negative, row_of, usage_from, insert_policy_decision, policy_rule_usage_since,
}

-- The counters go on from the rows before.
pub usage_from-append :
    (namespace rule_id : String) (since : ℤ) (out : PolicyRuleUsage) (xs ys : List RuleRow)
    → usage_from namespace rule_id since out (xs ++ ys)
      ≡ usage_from namespace rule_id since (usage_from namespace rule_id since out xs) ys
unfolding usage_from
usage_from-append namespace rule_id since out [] ys = refl
usage_from-append namespace rule_id since out (x ∷ xs) ys =
    usage_from-append namespace rule_id since
      (if counts namespace rule_id since x then count_row out x.rule else out) xs ys

passed_over :
    (namespace rule_id : String) (since : ℤ) (out : PolicyRuleUsage) (x : RuleRow)
    → x.rule.accepted ≡ false
    → (if counts namespace rule_id since x then count_row out x.rule else out) ≡ out
passed_over namespace rule_id since out x e = ground arith

usage_from_rejected :
    (namespace rule_id : String) (since : ℤ) (out : PolicyRuleUsage) (id : ℕ)
    (receipt : PolicyDecisionRecord) (rules : List PolicyDecisionRule)
    → All (λ (r : PolicyDecisionRule). r.accepted ≡ false) rules
    → usage_from namespace rule_id since out (map (row_of id receipt) rules) ≡ out
unfolding usage_from
usage_from_rejected namespace rule_id since out id receipt [] h = refl
usage_from_rejected namespace rule_id since out id receipt (r ∷ rules) h =
    ap (λ o. usage_from namespace rule_id since o (map (row_of id receipt) rules))
      (passed_over namespace rule_id since out (row_of id receipt r) h.0)
    ∙ usage_from_rejected namespace rule_id since out id receipt rules h.1

-- An insertion that succeeds has no negative counter, and appends the decision and its rows.
pub insert_policy_decision_parts :
    (answers : Bool) (db : Ledger) (receipt : PolicyDecisionRecord) (id : ℕ) (db' : Ledger)
    → insert_policy_decision answers db receipt ≡ some (id, db')
    → (any has_negative receipt.rules ≡ false)
      × (id ≡ db.last_id + 1)
      × (db'.last_id ≡ id)
      × (db'.decisions ≡ db.decisions ++ (id, receipt) ∷ [])
      × (db'.rows ≡ db.rows ++ map (row_of id receipt) receipt.rules)
unfolding insert_policy_decision
insert_policy_decision_parts answers db receipt id db' h = ground arith

-- Rows that are not accepted count towards no limit.
pub insert_rejected :
    (answers : Bool) (db : Ledger) (receipt : PolicyDecisionRecord) (id : ℕ) (db' : Ledger)
    → insert_policy_decision answers db receipt ≡ some (id, db')
    → All (λ (r : PolicyDecisionRule). r.accepted ≡ false) receipt.rules
    → (namespace rule_id : String) (since : ℤ)
    → policy_rule_usage_since db' namespace rule_id since
      ≡ policy_rule_usage_since db namespace rule_id since
unfolding policy_rule_usage_since
insert_rejected answers db receipt id db' h rejected namespace rule_id since =
    let (_, _, _, _, e) = insert_policy_decision_parts answers db receipt id db' h in
    ap (usage_from namespace rule_id since no_usage) e
    ∙ usage_from-append namespace rule_id since no_usage db.rows
        (map (row_of id receipt) receipt.rules)
    ∙ usage_from_rejected namespace rule_id since _ id receipt receipt.rules rejected
