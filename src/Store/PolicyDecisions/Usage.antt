-- ===== src/Store/PolicyDecisions/Usage.antt =====
-- internal/store/policy.go, `PolicyRuleUsageSince`, and the sums over the accepted rows of a rule.
use burnban.Prelude.{
  ℕ, ◌+◌, ◌≤◌, ◌≡◌, String, Bool, true, false, List, [], ◌∷◌, if◌then◌else◌, arith, refl, All,
}
use burnban.Prelude.Int.{
  ℤ, pos, negsuc, pos_part, neg_part, ltb_ℤ, max_int64, add64, sub64, wrap64, ◌+ℤ◌, ◌-ℤ◌, IsInt64,
}
use burnban.Policy.Counters.{clamp}
use burnban.Store.PolicyDecisions.{
  PolicyDecisionRule, RuleRow, Ledger, PolicyRuleUsage, count_row, counts, usage_from,
  policy_rule_usage_since, saturating_policy_counter_add,
}

saturating_pos :
    (a b : ℕ)
    → a ≤ max_int64
    → b ≤ max_int64
    → saturating_policy_counter_add (pos a) (pos b) ≡ pos (clamp (a + b))
unfolding saturating_policy_counter_add add64 sub64 wrap64 ◌+ℤ◌ ◌-ℤ◌
saturating_pos a b h k = ground arith

-- Exact totals, over numbers without a bound.
pub record Totals : Type 0 where
  pub requests : ℕ
  pub tokens : ℕ
  pub input_tokens : ℕ
  pub output_tokens : ℕ
  pub total_tokens : ℕ
  pub cost_micro_usd : ℕ

abbrev pub clamped : Totals → PolicyRuleUsage
clamped t = record {
  requests = pos (clamp t.requests);
  tokens = pos (clamp t.tokens);
  input_tokens = pos (clamp t.input_tokens);
  output_tokens = pos (clamp t.output_tokens);
  total_tokens = pos (clamp t.total_tokens);
  cost_micro_usd = pos (clamp t.cost_micro_usd);
}

abbrev pub add_rule : Totals → PolicyDecisionRule → Totals
add_rule t r = record {
  requests = t.requests + 1;
  tokens = t.tokens + pos_part r.estimated_tokens;
  input_tokens = t.input_tokens + pos_part r.estimated_input_tokens;
  output_tokens = t.output_tokens + pos_part r.estimated_output_tokens;
  total_tokens = t.total_tokens + pos_part r.estimated_total_tokens;
  cost_micro_usd = t.cost_micro_usd + pos_part r.estimated_cost_micro_usd;
}

abbrev pub IsCount : ℤ → Type 0
IsCount a = IsInt64 a × (neg_part a ≡ 0)

-- What `insert_policy_decision` lets into the table.
pub record IsCounted (r : PolicyDecisionRule) : Type 0 where
  pub tokens : IsCount r.estimated_tokens
  pub input : IsCount r.estimated_input_tokens
  pub output : IsCount r.estimated_output_tokens
  pub total : IsCount r.estimated_total_tokens
  pub cost : IsCount r.estimated_cost_micro_usd

saturating_clamp :
    (a : ℕ) (b : ℤ)
    → IsCount b
    → saturating_policy_counter_add (pos (clamp a)) b ≡ pos (clamp (a + pos_part b))
saturating_clamp a (pos b) h = ground (arith, saturating_pos (clamp a) b)
saturating_clamp a (negsuc b) h = absurd (omega arith)

tokens_clamp :
    (a : ℕ) (b : ℤ)
    → IsCount b
    → (if ltb_ℤ (sub64 (pos max_int64) (pos (clamp a))) b
        then pos max_int64
        else add64 (pos (clamp a)) b)
      ≡ pos (clamp (a + pos_part b))
unfolding add64 sub64 wrap64 ◌+ℤ◌ ◌-ℤ◌
tokens_clamp a (pos b) h = ground arith
tokens_clamp a (negsuc b) h = absurd (omega arith)

requests_clamp :
    (a : ℕ)
    → (if ltb_ℤ (pos (clamp a)) (pos max_int64)
        then add64 (pos (clamp a)) (pos 1)
        else pos (clamp a))
      ≡ pos (clamp (a + 1))
unfolding add64 wrap64 ◌+ℤ◌
requests_clamp a = ground arith

count_row-clamped :
    (t : Totals) (r : PolicyDecisionRule)
    → IsCounted r
    → count_row (clamped t) r ≡ clamped (add_rule t r)
unfolding count_row
count_row-clamped t r h = cc (
  requests_clamp t.requests,
  tokens_clamp t.tokens r.estimated_tokens h.tokens,
  saturating_clamp t.input_tokens r.estimated_input_tokens h.input,
  saturating_clamp t.output_tokens r.estimated_output_tokens h.output,
  saturating_clamp t.total_tokens r.estimated_total_tokens h.total,
  saturating_clamp t.cost_micro_usd r.estimated_cost_micro_usd h.cost,
)

abbrev pub no_totals : Totals
no_totals = record {
  requests = 0;
  tokens = 0;
  input_tokens = 0;
  output_tokens = 0;
  total_tokens = 0;
  cost_micro_usd = 0;
}

-- The sum over the rows that the WHERE clause keeps.
abbrev pub totals_from : String → String → ℤ → Totals → List RuleRow → Totals
totals_from namespace rule_id since t [] = t
totals_from namespace rule_id since t (row ∷ rows) =
    totals_from namespace rule_id since
      (if counts namespace rule_id since row then add_rule t row.rule else t) rows

usage_from-clamped :
    (namespace rule_id : String) (since : ℤ) (t : Totals) (rows : List RuleRow)
    → All (λ row. IsCounted row.rule) rows
    → usage_from namespace rule_id since (clamped t) rows
      ≡ clamped (totals_from namespace rule_id since t rows)
unfolding usage_from
usage_from-clamped namespace rule_id since t [] h = refl
usage_from-clamped namespace rule_id since t (row ∷ rows) h =
    by_test (λ u. usage_from-clamped namespace rule_id since u rows h.1)
      (counts namespace rule_id since row)
  where
    by_test :
        ((u : Totals)
          → usage_from namespace rule_id since (clamped u) rows
            ≡ clamped (totals_from namespace rule_id since u rows))
        → (b : Bool)
        → usage_from namespace rule_id since
            (if b then count_row (clamped t) row.rule else clamped t)
            rows
          ≡ clamped
              (totals_from namespace rule_id since (if b then add_rule t row.rule else t) rows)
    by_test rest true = rw (count_row-clamped t row.rule h.0) (rest (add_rule t row.rule))
    by_test rest false = rest t

-- A limit reads the exact sums of the accepted rows of its rule in its window, each clamped at the
-- largest int64: the loop neither wraps nor loses a row.
pub policy_rule_usage_since_exact :
    (db : Ledger) (namespace rule_id : String) (since : ℤ)
    → All (λ row. IsCounted row.rule) db.rows
    → policy_rule_usage_since db namespace rule_id since
      ≡ clamped (totals_from namespace rule_id since no_totals db.rows)
unfolding policy_rule_usage_since
policy_rule_usage_since_exact db namespace rule_id since h =
    usage_from-clamped namespace rule_id since no_totals db.rows h
