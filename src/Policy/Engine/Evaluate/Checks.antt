-- ===== src/Policy/Engine/Evaluate/Checks.antt =====
-- internal/policy/engine.go, `Prepare`: a rule with a violation is one that the request breaks.
use burnban.Prelude.{
  ℕ, ◌≡◌, ◌≢◌, ◌⊎◌, Bool, true, false, not, ◌&&◌, List, [], ◌∷◌, ◌++◌, Memᴰ, All-at, if◌then◌else◌,
  arith, refl, Option-cases, Bool-cases, inl, inr, ap, ◌∙◌, sym, subst, is_empty, and_true,
  not-true,
}
use burnban.Prelude.Int.{ℤ, pos, negsuc, ◌<ℤ◌, ltb_ℤ, add64, sub64, wrap64, ◌+ℤ◌, ◌-ℤ◌}
use burnban.Prelude.Sort.{sort_by}
use burnban.Float
use burnban.Float.{Float64}
use burnban.Policy.Types.{WindowLimit, DollarLimit, Rule, Context, Dimension}
use burnban.Policy.Wildcard.{matches_any}
use burnban.Policy.Context.{estimated_tokens_for_kind, conservative_cost_micro_usd}
use burnban.Policy.Scope.{match_access, context_values, identity_scope_authenticated}
use burnban.Policy.Decision.{
  Violation, RuleDecision, access_dimensions, access_violation, access_violations,
  requires_output_bound, output_violation, cost_violation, static_violations, sort_violations,
  violation_less,
}
use burnban.Policy.Engine.State.{Compiled, Engine}
use burnban.Store.PolicyDecisions.Usage.{IsCount}
use burnban.Policy.Engine.Evaluate.{
  Outcome, ok, Outcome-cases, UsageReader, key_of, cutoff_of_window, cutoff_of_dollars,
  request_check, token_check, dollar_check, concurrency_check, each, identity_violation,
  rule_decision, evaluate_rule,
}
use burnban.Policy.Engine.Evaluate.Limits.{
  IsSane, HasBoundedLimits, IsCostCount, tokens_IsCount, three,
}
use burnban.Policy.Engine.Evaluate.Broken.{IsBroken}

pub append_some : {A : Type 0} (xs ys : List A) → xs ++ ys ≢ [] → (xs ≢ []) ⊎ (ys ≢ [])
append_some [] ys h = inr h
append_some (x ∷ xs) ys h = inl (λ e. cc e)

List-cases : {A : Type 0} (xs : List A) → (xs ≡ []) ⊎ (xs ≢ [])
List-cases [] = inl refl
List-cases (x ∷ xs) = inr (λ e. cc e)

-- A loop that found something found it at an element.
each-some :
    {A B : Type 0} (f : A → Outcome (List B)) (xs : List A) (ys : List B)
    → each f xs ≡ ok ys
    → ys ≢ []
    → (x : A) × Memᴰ x xs × (zs : List B) × (f x ≡ ok zs) × (zs ≢ [])
unfolding each
each-some f [] ys h n = absurd (n (cc h))
each-some f (x ∷ xs) ys h n = elim (Outcome-cases (f x)) [
  | inl (w, e) ↦ cc (rw (each, e) at h)
  | inr (zs, e) ↦ elim (Outcome-cases (each f xs)) [
    | inl (w, r) ↦ cc (rw (each, e, r) at h)
    | inr (more, r) ↦ elim (List-cases zs) [
      | inr filled ↦ (x, Memᴰ.head refl, zs, e, filled)
      | inl empty ↦
          let q : zs ++ more ≡ ys = cc (rw (each, e, r) at h) in
          let (y, m, w, k, l) =
            each-some f xs more r (λ z. n (sym q ∙ ap (λ t. t ++ more) empty ∙ z)) in
          (y, Memᴰ.tail m, w, k, l)
    ]
  ]
]

found :
    (b : Bool) (v : Violation) (zs : List Violation)
    → ◌≡◌ {A = Outcome (List Violation)} (ok (if b then v ∷ [] else [])) (ok zs)
    → zs ≢ []
    → b ≡ true
found true v zs h n = refl
found false v zs h n = absurd (n (cc h))

-- Where `m - r` falls below the current count, the sum is too much.
exceeds : (m r c : ℤ) → IsCount m → IsCount r → ltb_ℤ (sub64 m r) c ≡ true → m <ℤ c +ℤ r
unfolding sub64 wrap64 ◌+ℤ◌ ◌-ℤ◌
exceeds (pos m) (pos r) c hm hr h = ground arith
exceeds (pos m) (negsuc r) c hm hr h = absurd (omega arith)
exceeds (negsuc m) r c hm hr h = absurd (omega arith)

module _ (e : Engine) (compiled : Compiled) (read : UsageReader) (now : ℤ) (context : Context)
    (rule : Rule) where
  broken_request :
      (limit : WindowLimit) (zs : List Violation)
      → Memᴰ limit rule.limits.requests
      → request_check e compiled read now rule limit ≡ ok zs
      → zs ≢ []
      → IsBroken e compiled read now context rule
  unfolding request_check
  broken_request limit zs m h n =
      elim (Option-cases
        (read rule.id (cutoff_of_window e compiled read now rule "requests" limit))) [
          | inl x ↦ cc (rw (request_check, x) at h)
          | inr (u, x) ↦
              let t = found _ _ zs (rw (request_check, x) at h) n in
              IsBroken.requests limit m (u, x, ground (arith, t))
        ]

  broken_tokens :
      IsSane context
      → (limit : WindowLimit) (zs : List Violation) → IsCount limit.max
      → Memᴰ limit rule.limits.tokens
      → token_check e compiled read now rule context limit ≡ ok zs
      → zs ≢ []
      → IsBroken e compiled read now context rule
  unfolding token_check
  broken_tokens s limit zs b m h n =
      elim (Option-cases (estimated_tokens_for_kind context limit.kind)) [
        | inl q ↦ absurd (n (cc (rw (q, token_check) at h)))
        | inr (requested, q) ↦
            elim (Option-cases
              (read rule.id (cutoff_of_window e compiled read now rule "tokens" limit))) [
                | inl x ↦ cc (rw (q, token_check, x) at h)
                | inr (u, x) ↦ IsBroken.tokens limit m (
                  requested,
                  q,
                  u,
                  x,
                  exceeds limit.max requested _ b (tokens_IsCount context limit.kind requested s q)
                      (found _ _ zs (rw (q, token_check, x) at h) n),
                )
              ]
      ]

  broken_dollars :
      IsSane context
      → (limit : DollarLimit) (zs : List Violation) → IsCount limit.max_micro_usd
      → Memᴰ limit rule.limits.dollars
      → dollar_check e compiled read now rule (conservative_cost_micro_usd context) limit ≡ ok zs
      → zs ≢ []
      → IsBroken e compiled read now context rule
  unfolding dollar_check
  broken_dollars s limit zs b m h n = elim (Option-cases (conservative_cost_micro_usd context)) [
    | inl q ↦ IsBroken.dollars limit m (inl q)
    | inr (cost, q) ↦
        elim (Option-cases (read rule.id (cutoff_of_dollars e compiled read now rule limit))) [
          | inl x ↦ cc (rw (q, dollar_check, x) at h)
          | inr (u, x) ↦ IsBroken.dollars limit m (
              inr (
                cost,
                q,
                u,
                x,
                exceeds limit.max_micro_usd cost _ b (subst IsCostCount q s.cost)
                    (found _ _ zs (rw (q, dollar_check, x) at h) n),
              ))
        ]
  ]

  broken_concurrency :
      concurrency_check e compiled read now rule ≢ [] → IsBroken e compiled read now context rule
  unfolding concurrency_check
  broken_concurrency n =
      let at_most = rule.limits.concurrency in
      let next_one = add64 (e.in_flight (key_of e compiled read now rule)) (pos 1) in
      elim (Bool-cases (ltb_ℤ (pos 0) at_most && ltb_ℤ at_most next_one)) [
        | inr x ↦ absurd (n (rw (concurrency_check, x) refl))
        | inl x ↦
            let (a, b) = and_true (ltb_ℤ (pos 0) at_most) (ltb_ℤ at_most next_one) x in
            IsBroken.concurrency (ground (arith, a)) (ground (arith, b))
      ]

  broken_access :
      (ds : List Dimension)
      → access_violations rule context ds ≢ []
      → IsBroken e compiled read now context rule
  unfolding access_violations access_violation
  broken_access [] n = absurd (n refl)
  broken_access (d ∷ ds) n =
      elim (append_some (access_violation (match_access rule.match d) (context_values context d) d)
        _ n) [
          | inr later ↦ broken_access ds later
          | inl here ↦
              let access = match_access rule.match d in
              let value = context_values context d in
              elim (Bool-cases (not (is_empty access.deny) && matches_any access.deny value)) [
                | inl t ↦ IsBroken.denies d (and_true _ _ t).1
                | inr f ↦
                    elim (Bool-cases
                      (not (is_empty access.allow) && not (matches_any access.allow value))) [
                        | inr g ↦ absurd (here (rw (access_violation, f, g) refl))
                        | inl t ↦
                            let (a, b) =
                              and_true (not (is_empty access.allow))
                                (not (matches_any access.allow value)) t in
                            IsBroken.omits d (λ e. cc (a, ap (is_empty) e)) (not-true _ b)
                      ]
              ]
        ]

  broken_output : output_violation rule context ≢ [] → IsBroken e compiled read now context rule
  unfolding output_violation
  broken_output n =
      elim (Bool-cases (requires_output_bound rule && not context.output_bound_present)) [
        | inr f ↦ absurd (n (rw (output_violation, f) refl))
        | inl t ↦ let (a, b) = and_true _ _ t in IsBroken.unbounded a (not-true _ b)
      ]

  broken_cost :
      cost_violation rule.limits.max_estimated_call_cost_usd context ≢ []
      → IsBroken e compiled read now context rule
  unfolding cost_violation
  broken_cost n = elim (Option-cases rule.limits.max_estimated_call_cost_usd) [
    | inl q ↦ absurd (n (rw (q, cost_violation) refl))
    | inr (most, q) ↦ elim (Bool-cases context.cost_known) [
      | inr f ↦ IsBroken.costly most q (inl f)
      | inl t ↦ elim (Bool-cases (Float.lt most context.estimated_cost_usd)) [
        | inl x ↦ IsBroken.costly most q (inr x)
        | inr x ↦ absurd (n (rw (q, cost_violation, t, x) refl))
      ]
    ]
  ]

  broken_static : static_violations rule context ≢ [] → IsBroken e compiled read now context rule
  unfolding static_violations sort_violations sort_by
  broken_static n =
      let all =
        access_violations rule context access_dimensions
        ++ (output_violation rule context
            ++ cost_violation rule.limits.max_estimated_call_cost_usd context) in
      elim (append_some (access_violations rule context access_dimensions) _
        (λ q. n (ap (sort_by violation_less) q))) [
          | inl a ↦ broken_access access_dimensions a
          | inr r ↦ elim (append_some (output_violation rule context) _ r) [
            | inl o ↦ broken_output o
            | inr c ↦ broken_cost c
          ]
        ]

  broken_identity :
      identity_violation compiled.document rule context ≢ []
      → IsBroken e compiled read now context rule
  unfolding identity_violation
  broken_identity n = elim (Bool-cases (identity_scope_authenticated rule.scope context)) [
    | inr f ↦ IsBroken.unauthenticated f
    | inl t ↦ absurd (n (rw (identity_violation, t) (ground arith)))
  ]

  -- A rule with a violation is one that the request breaks.
  pub evaluate_rule-IsBroken :
      IsSane context
      → HasBoundedLimits rule
      → (n : ℕ) (d : RuleDecision)
      → evaluate_rule e compiled read now context (record { rule = rule; specificity = n }) ≡ ok d
      → d.violations ≢ []
      → IsBroken e compiled read now context rule
  unfolding evaluate_rule sort_violations sort_by
  evaluate_rule-IsBroken s b n d h v =
      let (x, y, z, hx, hy, hz, q) =
        three _ _ _
          (rule_decision e compiled read now context (record { rule = rule; specificity = n })) d
          h in
      elim (append_some (static_violations rule context) _ (λ t.
        v (sym (ap (λ (r : RuleDecision). r.violations) q) ∙ ap (sort_by violation_less) t))) [
          | inl a ↦ broken_static a
          | inr r0 ↦ elim (append_some (identity_violation compiled.document rule context) _ r0) [
            | inl a ↦ broken_identity a
            | inr r1 ↦ elim (append_some x _ r1) [
              | inl a ↦
                  let (l, m, zs, k, w) =
                    each-some (request_check e compiled read now rule) rule.limits.requests x hx
                      a in
                  broken_request l zs m k w
              | inr r2 ↦ elim (append_some y _ r2) [
                | inl a ↦
                    let (l, m, zs, k, w) =
                      each-some (token_check e compiled read now rule context) rule.limits.tokens y
                        hy a in
                    broken_tokens s l zs
                      (All-at (λ (t : WindowLimit). IsCount t.max) l rule.limits.tokens b.tokens m)
                      m k w
                | inr r3 ↦ elim (append_some z _ r3) [
                  | inl a ↦
                      let (l, m, zs, k, w) =
                        each-some
                          (dollar_check e compiled read now rule
                            (conservative_cost_micro_usd context))
                          rule.limits.dollars z hz a in
                      broken_dollars s l zs
                        (All-at (λ (t : DollarLimit). IsCount t.max_micro_usd) l rule.limits.dollars
                          b.dollars m)
                        m k w
                  | inr c ↦ broken_concurrency c
                ]
              ]
            ]
          ]
        ]
