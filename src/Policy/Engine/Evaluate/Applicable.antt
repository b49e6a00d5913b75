-- ===== src/Policy/Engine/Evaluate/Applicable.antt =====
-- internal/policy/engine.go, `applicableRules`: the rules of the list that it gives.
use burnban.Prelude.{◌≡◌, true, false, List, [], ◌∷◌, All, Bool-cases, inl, inr}
use burnban.Prelude.Sort.{All-of_sort_by, All-sort_by}
use burnban.Policy.Types.{Rule, Document, Context}
use burnban.Policy.Scope.{applies}
use burnban.Policy.Engine.Evaluate.{IndexedRule, applicable_from, applicable_rules, rule_before}

module _ (doc : Document) (context : Context) (P : Rule → Type 0) where
  into :
      (rules : List Rule)
      → All P rules
      → All (λ (i : IndexedRule). P i.rule) (applicable_from doc context rules)
  unfolding applicable_from
  into [] h = tt
  into (r ∷ rules) h = elim (Bool-cases (applies doc.mode r context)) [
    | inl e ↦ rw e (h.0, into rules h.1)
    | inr e ↦ rw e (into rules h.1)
  ]

  -- What holds of every rule of the document holds of the applicable ones.
  pub applicable_rules-All :
      All P doc.rules → All (λ (i : IndexedRule). P i.rule) (applicable_rules doc context)
  unfolding applicable_rules
  applicable_rules-All h =
      All-sort_by rule_before (λ (i : IndexedRule). P i.rule) _ (into doc.rules h)

  back :
      (rules : List Rule)
      → All (λ (i : IndexedRule). P i.rule) (applicable_from doc context rules)
      → All (λ r. applies doc.mode r context ≡ true → P r) rules
  unfolding applicable_from
  back [] h = tt
  back (r ∷ rules) h = elim (Bool-cases (applies doc.mode r context)) [
    | inl e ↦ let (p, rest) = opened (rw e at h) in ((λ _. p), back rules rest)
    | inr e ↦ ((λ a. absurd (differ e a)), back rules (rw e at h))
  ]
    where
      opened :
          P r × All (λ (i : IndexedRule). P i.rule) (applicable_from doc context rules)
          → P r × All (λ (i : IndexedRule). P i.rule) (applicable_from doc context rules)
      opened h = h

      differ : applies doc.mode r context ≡ false → applies doc.mode r context ≡ true → ⊥
      differ e a = cc

  -- What holds of the applicable rules holds of every rule of the document that applies.
  pub All-of_applicable_rules :
      All (λ (i : IndexedRule). P i.rule) (applicable_rules doc context)
      → All (λ r. applies doc.mode r context ≡ true → P r) doc.rules
  unfolding applicable_rules
  All-of_applicable_rules h =
      back doc.rules (All-of_sort_by rule_before (λ (i : IndexedRule). P i.rule) _ h)
