-- ===== src/Policy/Engine/Evaluate/Broken.antt =====
-- internal/policy/engine.go and types.go: what a rule says against a request, if anything.
use burnban.Prelude.{◌≡◌, ◌≢◌, ◌⊎◌, true, false, none, some, [], Memᴰ}
use burnban.Prelude.Int.{ℤ, pos, ◌≤ℤ◌, ◌<ℤ◌, add64, ◌+ℤ◌}
use burnban.Float
use burnban.Float.{Float64}
use burnban.Policy.Types.{WindowLimit, DollarLimit, Rule, Context, Dimension}
use burnban.Policy.Wildcard.{matches_any}
use burnban.Policy.Counters.{saturated_add}
use burnban.Policy.Context.{estimated_tokens_for_kind, conservative_cost_micro_usd}
use burnban.Policy.Scope.{match_access, context_values, identity_scope_authenticated}
use burnban.Policy.Decision.{token_limit_kind, requires_output_bound}
use burnban.Policy.Engine.State.{Compiled, Engine, pending_since}
use burnban.Store.PolicyDecisions.{PolicyRuleUsage}
use burnban.Policy.Engine.Evaluate.{
  UsageReader, key_of, cutoff_of_window, cutoff_of_dollars, token_usage_for_kind,
  pending_tokens_for_kind,
}

module _ (e : Engine) (compiled : Compiled) (read : UsageReader) (now : ℤ) (context : Context)
    (rule : Rule) where
  -- What was used and is pending has reached the most.
  abbrev pub ExceedsRequests : WindowLimit → Type 0
  ExceedsRequests limit =
      let cutoff = cutoff_of_window e compiled read now rule "requests" limit in
      (u : PolicyRuleUsage) × (read rule.id cutoff ≡ some u)
      × (limit.max
          ≤ℤ saturated_add u.requests
              (pending_since e (key_of e compiled read now rule) cutoff).requests)

  -- With the tokens asked for it is above the most.
  abbrev pub ExceedsTokens : WindowLimit → Type 0
  ExceedsTokens limit =
      let cutoff = cutoff_of_window e compiled read now rule "tokens" limit in
      let kind = token_limit_kind limit.kind in
      (requested : ℤ) × (estimated_tokens_for_kind context limit.kind ≡ some requested)
      × (u : PolicyRuleUsage) × (read rule.id cutoff ≡ some u)
      × (limit.max
          <ℤ saturated_add (token_usage_for_kind u kind) (
              pending_tokens_for_kind (pending_since e (key_of e compiled read now rule) cutoff)
                kind)
            +ℤ requested)

  -- With the cost it is above the most, or the cost has no bound.
  abbrev pub ExceedsDollars : DollarLimit → Type 0
  ExceedsDollars limit =
      let cutoff = cutoff_of_dollars e compiled read now rule limit in
      (conservative_cost_micro_usd context ≡ none)
      ⊎ ((cost : ℤ) × (conservative_cost_micro_usd context ≡ some cost)
          × (u : PolicyRuleUsage) × (read rule.id cutoff ≡ some u)
          × (limit.max_micro_usd
              <ℤ saturated_add u.cost_micro_usd
                  (pending_since e (key_of e compiled read now rule) cutoff).cost_micro_usd
                +ℤ cost))

  -- What a rule says against the request: the value of some dimension is denied, or it is not among
  -- those allowed; the output has no bound, though one is required; the cost of the call is not known or is
  -- above the most for one call; the labels that the scope names are not authenticated; or a limit would be
  -- exceeded, given the durable counters and what is pending.
  pub data IsBroken : Type 0 where
    denies :
        (d : Dimension)
        → matches_any (match_access rule.match d).deny (context_values context d) ≡ true
        → IsBroken
    omits :
        (d : Dimension)
        → (match_access rule.match d).allow ≢ []
        → matches_any (match_access rule.match d).allow (context_values context d) ≡ false
        → IsBroken
    unbounded : requires_output_bound rule ≡ true → context.output_bound_present ≡ false → IsBroken
    costly :
        (most : Float64)
        → rule.limits.max_estimated_call_cost_usd ≡ some most
        → (context.cost_known ≡ false) ⊎ (Float.lt most context.estimated_cost_usd ≡ true)
        → IsBroken
    unauthenticated : identity_scope_authenticated rule.scope context ≡ false → IsBroken
    requests :
        (limit : WindowLimit) → Memᴰ limit rule.limits.requests → ExceedsRequests limit → IsBroken
    tokens : (limit : WindowLimit) → Memᴰ limit rule.limits.tokens → ExceedsTokens limit → IsBroken
    dollars :
        (limit : DollarLimit) → Memᴰ limit rule.limits.dollars → ExceedsDollars limit → IsBroken
    concurrency :
        pos 0 <ℤ rule.limits.concurrency
        → rule.limits.concurrency <ℤ add64 (e.in_flight (key_of e compiled read now rule)) (pos 1)
        → IsBroken
