-- ===== src/Policy/Engine/Evaluate/Limits.antt =====
-- internal/policy/engine.go, `Prepare`: the limits of a rule in which no violation is found.
use burnban.Prelude.{
  ℕ, ◌≡◌, Bool, true, false, Option, none, some, List, [], ◌∷◌, ◌++◌, if◌then◌else◌, arith, refl,
  All, Option-cases, Bool-cases, inl, inr, ◌⊎◌, ap, ◌∙◌, sym, subst,
}
use burnban.Prelude.Int.{
  ℤ, pos, negsuc, ◌≤ℤ◌, ◌<ℤ◌, ltb_ℤ, add64, sub64, wrap64, ◌+ℤ◌, ◌-ℤ◌, IsInt64,
}
use burnban.Prelude.Sort.{sort_by-eq-nil}
use burnban.Policy.Types.{
  WindowLimit, DollarLimit, Rule, Context, TokenKind, input, output, any_kind, total, other_kind,
}
use burnban.Policy.Counters.{saturated_add}
use burnban.Policy.Context.{estimated_tokens_for_kind, conservative_cost_micro_usd}
use burnban.Policy.Scope.{rule_mode}
use burnban.Policy.Decision.{
  Violation, RuleDecision, token_limit_kind, sort_violations, violation_less,
}
use burnban.Policy.Engine.State.{Compiled, Engine, pending_since}
use burnban.Store.PolicyDecisions.{PolicyRuleUsage}
use burnban.Store.PolicyDecisions.Usage.{IsCount}
use burnban.Policy.Context.Bounds.{estimated_tokens_exact}
use burnban.Policy.Engine.Evaluate.{
  EngineError, Outcome, ok, err, ◌>>=◌, IndexedRule, UsageReader, key_of, cutoff_of_window,
  cutoff_of_dollars, token_usage_for_kind, pending_tokens_for_kind, request_check, token_check,
  dollar_check, concurrency_check, each, rule_decision, evaluate_rule,
}

append_nil : {A : Type 0} (xs ys : List A) → xs ++ ys ≡ [] → (xs ≡ []) × (ys ≡ [])
append_nil [] ys h = (refl, h)
append_nil (x ∷ xs) ys h = cc

each_step :
    {B : Type 0} (a b : Outcome (List B))
    → (a >>= λ found. b >>= λ more. ok (found ++ more)) ≡ ok []
    → (a ≡ ok []) × (b ≡ ok [])
each_step (ok []) (ok []) h = (refl, refl)
each_step (ok []) (ok (y ∷ ys)) h = cc
each_step (ok (x ∷ xs)) (ok ys) h = cc
each_step (ok xs) (err e) h = cc
each_step (err e) b h = cc

-- A loop that found nothing found nothing at any element.
each-nil :
    {A B : Type 0} (f : A → Outcome (List B)) (xs : List A)
    → each f xs ≡ ok []
    → All (λ x. f x ≡ ok []) xs
unfolding each
each-nil f [] h = tt
each-nil f (x ∷ xs) h =
    let (now, later) = each_step (f x) (each f xs) h in (now, each-nil f xs later)

All-map_both :
    {A : Type 0} {P Q R : A → Type 0}
    → ((x : A) → P x → Q x → R x)
    → (xs : List A) → All P xs
    → All Q xs
    → All R xs
All-map_both f [] h k = tt
All-map_both f (x ∷ xs) h k = (f x h.0 k.0, All-map_both f xs h.1 k.1)

All-map :
    {A : Type 0} {P Q : A → Type 0} → ((x : A) → P x → Q x) → (xs : List A) → All P xs → All Q xs
All-map f [] h = tt
All-map f (x ∷ xs) h = (f x h.0, All-map f xs h.1)

abbrev pub IsCostCount : Option ℤ → Type 0
IsCostCount none = Unit
IsCostCount (some cost) = IsCount cost

-- The estimates are int64 counts, as the metadata of a request from the wire gives them.
pub record IsSane (context : Context) : Type 0 where
  pub input : IsInt64 context.estimated_input
  pub output : IsInt64 context.output_bound
  pub cost : IsCostCount (conservative_cost_micro_usd context)

-- The maxima of a valid document's limits.
pub record HasBoundedLimits (rule : Rule) : Type 0 where
  pub requests : All (λ (l : WindowLimit). IsCount l.max) rule.limits.requests
  pub tokens : All (λ (l : WindowLimit). IsCount l.max) rule.limits.tokens
  pub dollars : All (λ (l : DollarLimit). IsCount l.max_micro_usd) rule.limits.dollars

pub tokens_IsCount :
    (context : Context) (k : TokenKind) (n : ℤ)
    → IsSane context
    → estimated_tokens_for_kind context k ≡ some n
    → IsCount n
unfolding estimated_tokens_for_kind
tokens_IsCount context input n s h = ground (arith, s.input)
tokens_IsCount context output n s h = ground (arith, s.output)
tokens_IsCount context any_kind n s h =
    ground (arith, estimated_tokens_exact context s.input s.output)
tokens_IsCount context total n s h = ground (arith, estimated_tokens_exact context s.input s.output)
tokens_IsCount context (other_kind k) n s h = cc

-- Where `m - r` does not fall below the current count, the sum fits: none of it wraps.
fits : (m r c : ℤ) → IsCount m → IsCount r → ltb_ℤ (sub64 m r) c ≡ false → c +ℤ r ≤ℤ m
unfolding sub64 wrap64 ◌+ℤ◌ ◌-ℤ◌
fits (pos m) (pos r) c hm hr h = ground arith
fits (pos m) (negsuc r) c hm hr h = absurd (omega arith)
fits (negsuc m) r c hm hr h = absurd (omega arith)

failed : {x : EngineError} → ◌≡◌ {A = Outcome (List Violation)} (err x) (ok []) → ⊥
failed h = cc

cleared :
    (b : Bool) (v : Violation)
    → ◌≡◌ {A = Outcome (List Violation)} (ok (if b then v ∷ [] else [])) (ok [])
    → b ≡ false
cleared true v h = cc
cleared false v h = refl

-- What a chain of three loops that returns has found.
pub three :
    {A : Type 0} (a b c : Outcome (List Violation))
    (f : List Violation → List Violation → List Violation → A) (d : A)
    → (a >>= λ x. b >>= λ y. c >>= λ z. ok (f x y z)) ≡ ok d
    → (x y z : List Violation) × (a ≡ ok x) × (b ≡ ok y) × (c ≡ ok z) × (f x y z ≡ d)
three (ok x) (ok y) (ok z) f d h = (x, y, z, refl, refl, refl, cc)
three (ok x) (ok y) (err w) f d h = cc
three (ok x) (err w) c f d h = cc
three (err w) b c f d h = cc

module _ (e : Engine) (compiled : Compiled) (read : UsageReader) (now : ℤ) (context : Context)
    (rule : Rule) where
  -- What was used and is pending leaves room for one more request.
  abbrev pub LeavesRequest : WindowLimit → Type 0
  LeavesRequest limit =
      let cutoff = cutoff_of_window e compiled read now rule "requests" limit in
      (u : PolicyRuleUsage) × (read rule.id cutoff ≡ some u)
      × (saturated_add u.requests
            (pending_since e (key_of e compiled read now rule) cutoff).requests
          <ℤ limit.max)

  -- It leaves room for the tokens asked for, if they are bounded.
  abbrev pub LeavesTokens : WindowLimit → Type 0
  LeavesTokens limit =
      let cutoff = cutoff_of_window e compiled read now rule "tokens" limit in
      let kind = token_limit_kind limit.kind in
      (estimated_tokens_for_kind context limit.kind ≡ none)
      ⊎ ((requested : ℤ) × (estimated_tokens_for_kind context limit.kind ≡ some requested)
          × (u : PolicyRuleUsage) × (read rule.id cutoff ≡ some u)
          × (saturated_add (token_usage_for_kind u kind) (
                  pending_tokens_for_kind (pending_since e (key_of e compiled read now rule) cutoff)
                    kind)
                +ℤ requested
              ≤ℤ limit.max))

  -- It leaves room for the cost, which is bounded.
  abbrev pub LeavesDollars : DollarLimit → Type 0
  LeavesDollars limit =
      let cutoff = cutoff_of_dollars e compiled read now rule limit in
      (cost : ℤ) × (conservative_cost_micro_usd context ≡ some cost)
      × (u : PolicyRuleUsage) × (read rule.id cutoff ≡ some u)
      × (saturated_add u.cost_micro_usd
              (pending_since e (key_of e compiled read now rule) cutoff).cost_micro_usd
            +ℤ cost
          ≤ℤ limit.max_micro_usd)

  -- A request fits every limit of the rule.
  pub record Within : Type 0 where
    pub requests : All LeavesRequest rule.limits.requests
    pub tokens : All LeavesTokens rule.limits.tokens
    pub dollars : All LeavesDollars rule.limits.dollars
    pub concurrency :
        (rule.limits.concurrency ≤ℤ pos 0)
        ⊎ (add64 (e.in_flight (key_of e compiled read now rule)) (pos 1) ≤ℤ rule.limits.concurrency)

  leaves_request :
      (limit : WindowLimit)
      → request_check e compiled read now rule limit ≡ ok []
      → LeavesRequest limit
  unfolding request_check
  leaves_request limit h =
      elim (Option-cases
        (read rule.id (cutoff_of_window e compiled read now rule "requests" limit))) [
          | inl x ↦ ground arith
          | inr (u, x) ↦ (u, x, ground arith)
        ]

  leaves_tokens :
      IsSane context
      → (limit : WindowLimit) → IsCount limit.max
      → token_check e compiled read now rule context limit ≡ ok []
      → LeavesTokens limit
  unfolding token_check
  leaves_tokens s limit m h = elim (Option-cases (estimated_tokens_for_kind context limit.kind)) [
    | inl q ↦ inl q
    | inr (requested, q) ↦
        elim (Option-cases
          (read rule.id (cutoff_of_window e compiled read now rule "tokens" limit))) [
            | inl x ↦ absurd (failed (rw (q, token_check, x) at h))
            | inr (u, x) ↦ inr (
              requested,
              q,
              u,
              x,
              fits limit.max requested _ m (tokens_IsCount context limit.kind requested s q)
                  (cleared _ _ (rw (q, token_check, x) at h)),
            )
          ]
  ]

  leaves_dollars :
      IsSane context
      → (limit : DollarLimit) → IsCount limit.max_micro_usd
      → dollar_check e compiled read now rule (conservative_cost_micro_usd context) limit ≡ ok []
      → LeavesDollars limit
  unfolding dollar_check
  leaves_dollars s limit m h = elim (Option-cases (conservative_cost_micro_usd context)) [
    | inl q ↦ ground arith
    | inr (cost, q) ↦
        elim (Option-cases (read rule.id (cutoff_of_dollars e compiled read now rule limit))) [
          | inl x ↦ ground arith
          | inr (u, x) ↦ (
            cost,
            q,
            u,
            x,
            fits limit.max_micro_usd cost _ m (subst IsCostCount q s.cost) (ground arith),
          )
        ]
  ]

  leaves_concurrency :
      concurrency_check e compiled read now rule ≡ []
      → (rule.limits.concurrency ≤ℤ pos 0)
        ⊎ (add64 (e.in_flight (key_of e compiled read now rule)) (pos 1) ≤ℤ rule.limits.concurrency)
  unfolding concurrency_check
  leaves_concurrency h = elim (Bool-cases (ltb_ℤ (pos 0) rule.limits.concurrency)) [
    | inr x ↦ inl (ground arith)
    | inl x ↦ inr (ground arith)
  ]

  -- A rule without violations is one that the request fits, limit by limit.
  pub evaluate_rule_within :
      IsSane context
      → HasBoundedLimits rule
      → (n : ℕ) (d : RuleDecision)
      → evaluate_rule e compiled read now context (record { rule = rule; specificity = n }) ≡ ok d
      → d.violations ≡ []
      → Within
  unfolding evaluate_rule sort_violations
  evaluate_rule_within s b n d h v =
      let (x, y, z, hx, hy, hz, q) =
        three _ _ _
          (rule_decision e compiled read now context (record { rule = rule; specificity = n })) d
          h in
      let all_nil =
        sort_by-eq-nil violation_less _ (ap (λ (r : RuleDecision). r.violations) q ∙ v) in
      let (_, r0) = append_nil _ _ all_nil in
      let (_, r1) = append_nil _ _ r0 in
      let (nx, r2) = append_nil x _ r1 in
      let (ny, r3) = append_nil y _ r2 in
      let (nz, nc) = append_nil z _ r3 in
      record {
        requests = All-map leaves_request _ (each-nil _ _ (hx ∙ ap ok nx));
        tokens = All-map_both (leaves_tokens s) _ b.tokens (each-nil _ _ (hy ∙ ap ok ny));
        dollars = All-map_both (leaves_dollars s) _ b.dollars (each-nil _ _ (hz ∙ ap ok nz));
        concurrency = leaves_concurrency nc;
      }

-- A decision carries the mode of its rule.
pub mode_of_evaluate_rule :
    (e : Engine) (compiled : Compiled) (read : UsageReader) (now : ℤ) (context : Context)
    (i : IndexedRule) (d : RuleDecision)
    → evaluate_rule e compiled read now context i ≡ ok d
    → d.mode ≡ rule_mode compiled.document.mode i.rule
unfolding evaluate_rule
mode_of_evaluate_rule e compiled read now context i d h =
    let (x, y, z, _, _, _, q) =
      three (each (request_check e compiled read now i.rule) i.rule.limits.requests)
        (each (token_check e compiled read now i.rule context) i.rule.limits.tokens)
        (each (dollar_check e compiled read now i.rule (conservative_cost_micro_usd context))
          i.rule.limits.dollars)
        (rule_decision e compiled read now context i) d h in
    sym (ap (λ (r : RuleDecision). r.mode) q)
