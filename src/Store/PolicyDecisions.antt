-- ===== src/Store/PolicyDecisions.antt =====
-- internal/store/policy.go: the durable decisions of the policy engine and the counters that its
-- limits read. Times are nanoseconds: the fixed-width UTC texts that are stored compare as these do.
pub mod Usage
pub mod Insert
use burnban.Prelude.{
  ℕ, ◌+◌, String, Bool, true, false, ◌&&◌, ◌||◌, List, [], ◌∷◌, ◌++◌, map, if◌then◌else◌, str_eq,
  any, Option, none, some,
}
use burnban.Prelude.Int.{ℤ, pos, negsuc, ltb_ℤ, leb_ℤ, max_int64, add64, sub64}

pub record PolicyDecisionRule : Type 0 where
  pub rule_id : String
  pub accepted : Bool
  pub estimated_tokens : ℤ
  pub estimated_input_tokens : ℤ
  pub estimated_output_tokens : ℤ
  pub estimated_total_tokens : ℤ
  pub estimated_cost_micro_usd : ℤ

-- The columns that other code reads; the texts of the explanation are left out.
pub record PolicyDecisionRecord : Type 0 where
  pub ts : ℤ
  pub policy_digest : String
  pub policy_revision : ℤ
  pub policy_name : String
  pub policy_namespace : String
  pub denied : Bool
  pub admitted : Bool
  pub http_status : ℕ
  pub rules : List PolicyDecisionRule

-- A row of policy_decision_rules.
pub record RuleRow : Type 0 where
  pub decision_id : ℕ
  pub ts : ℤ
  pub namespace : String
  pub rule : PolicyDecisionRule

-- `last_id` is the last rowid that SQLite gave out.
pub record Ledger : Type 0 where
  pub decisions : List (ℕ × PolicyDecisionRecord)
  pub rows : List RuleRow
  pub last_id : ℕ

pub record PolicyRuleUsage : Type 0 where
  pub requests : ℤ
  pub tokens : ℤ
  pub input_tokens : ℤ
  pub output_tokens : ℤ
  pub total_tokens : ℤ
  pub cost_micro_usd : ℤ

abbrev pub has_negative : PolicyDecisionRule → Bool
has_negative r =
    ltb_ℤ r.estimated_tokens (pos 0)
    || ltb_ℤ r.estimated_input_tokens (pos 0)
    || ltb_ℤ r.estimated_output_tokens (pos 0)
    || ltb_ℤ r.estimated_total_tokens (pos 0)
    || ltb_ℤ r.estimated_cost_micro_usd (pos 0)

abbrev pub row_of : ℕ → PolicyDecisionRecord → PolicyDecisionRule → RuleRow
row_of id receipt rule = record {
  decision_id = id;
  ts = receipt.ts;
  namespace = receipt.policy_namespace;
  rule = rule;
}

-- One transaction: a negative counter or a database error rolls back the decision too. `none` is an
-- error; the chunks of 200 rows are one statement here.
unfoldable pub insert_policy_decision : Bool → Ledger → PolicyDecisionRecord → Option (ℕ × Ledger)
insert_policy_decision answers db receipt =
    let id = db.last_id + 1 in
    if any has_negative receipt.rules
    then none
    else if answers
    then some (
      id,
      record db {
        decisions = db.decisions ++ (id, receipt) ∷ [];
        rows = db.rows ++ map (row_of id receipt) receipt.rules;
        last_id = id;
      },
    )
    else none

unfoldable pub saturating_policy_counter_add : ℤ → ℤ → ℤ
saturating_policy_counter_add current value =
    if ltb_ℤ value (pos 0) || ltb_ℤ (sub64 (pos max_int64) value) current
    then pos max_int64
    else add64 current value

abbrev pub no_usage : PolicyRuleUsage
no_usage = record {
  requests = pos 0;
  tokens = pos 0;
  input_tokens = pos 0;
  output_tokens = pos 0;
  total_tokens = pos 0;
  cost_micro_usd = pos 0;
}

-- The body of the loop over the rows.
unfoldable pub count_row : PolicyRuleUsage → PolicyDecisionRule → PolicyRuleUsage
count_row out r = record {
  requests =
      if ltb_ℤ out.requests (pos max_int64) then add64 out.requests (pos 1) else out.requests;
  tokens =
      if ltb_ℤ (sub64 (pos max_int64) out.tokens) r.estimated_tokens
      then pos max_int64
      else add64 out.tokens r.estimated_tokens;
  input_tokens = saturating_policy_counter_add out.input_tokens r.estimated_input_tokens;
  output_tokens = saturating_policy_counter_add out.output_tokens r.estimated_output_tokens;
  total_tokens = saturating_policy_counter_add out.total_tokens r.estimated_total_tokens;
  cost_micro_usd = saturating_policy_counter_add out.cost_micro_usd r.estimated_cost_micro_usd;
}

-- The WHERE clause.
abbrev pub counts : String → String → ℤ → RuleRow → Bool
counts namespace rule_id since row =
    str_eq row.namespace namespace
    && str_eq row.rule.rule_id rule_id
    && row.rule.accepted
    && leb_ℤ since row.ts

unfoldable pub usage_from : String → String → ℤ → PolicyRuleUsage → List RuleRow → PolicyRuleUsage
usage_from namespace rule_id since out [] = out
usage_from namespace rule_id since out (row ∷ rows) =
    usage_from namespace rule_id since
      (if counts namespace rule_id since row then count_row out row.rule else out) rows

unfoldable pub policy_rule_usage_since : Ledger → String → String → ℤ → PolicyRuleUsage
unfolding usage_from
policy_rule_usage_since db namespace rule_id since =
    usage_from namespace rule_id since no_usage db.rows
