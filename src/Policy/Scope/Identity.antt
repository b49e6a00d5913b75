-- ===== src/Policy/Scope/Identity.antt =====
-- internal/policy/engine.go: the rules that apply to a request, and its untrusted identity labels.
use burnban.Prelude.{
  String, Bool, true, false, not, ◌||◌, ◌≡◌, ◌⊎◌, List, is_empty, all, arith, if◌then◌else◌, ap,
  inl, inr, refl, sym, ◌∙◌,
}
use burnban.Policy.Types.{
  Mode, enforce, Rule, Scope, Context, Dimension, Confidence, absent, self_reported, unverified,
}
use burnban.Policy.Scope.{
  dimensions, scope_selectors, context_values, identity_dimension_confidence, selected, trusted,
  rule_applies, rule_mode, identity_scope_authenticated, rule_applies_ignoring_untrusted_identity,
  applies, has_identity_scope, is_not_identity, is_authenticated,
}
use burnban.Policy.Scope.Applies.{every, all_intro, all_ext}

-- A confidence in what a label says: the client says so, nobody vouches for it, or there is none.
abbrev pub IsUnvouched : Confidence → Type 0
IsUnvouched c = (c ≡ self_reported) ⊎ (c ≡ unverified) ⊎ (c ≡ absent)

-- What the server vouches for is the same in both requests. The confidence of a dimension is the same,
-- or in neither request is it vouched for; and so is the value of each dimension that is no identity or
-- an authenticated one.
pub record SameTrusted (a b : Context) : Type 0 where
  pub confidence :
      (d : Dimension)
      → (identity_dimension_confidence a d ≡ identity_dimension_confidence b d)
        ⊎ (IsUnvouched (identity_dimension_confidence a d)
            × IsUnvouched (identity_dimension_confidence b d))
  pub value : (d : Dimension) → (trusted a d ≡ false) ⊎ (context_values a d ≡ context_values b d)

unvouched : (c : Confidence) → IsUnvouched c → (is_not_identity c || is_authenticated c) ≡ false
unvouched c (inl e) = rw e refl
unvouched c (inr (inl e)) = rw e refl
unvouched c (inr (inr e)) = rw e refl

trusted_same : {a b : Context} → SameTrusted a b → (d : Dimension) → trusted a d ≡ trusted b d
unfolding trusted
trusted_same s d = elim (s.confidence d) [
  | inl e ↦ ap (λ c. is_not_identity c || is_authenticated c) e
  | inr (x, y) ↦ unvouched _ x ∙ sym (unvouched _ y)
]

authenticated_same :
    (scope : Scope) (a b : Context)
    → SameTrusted a b
    → identity_scope_authenticated scope a ≡ identity_scope_authenticated scope b
unfolding identity_scope_authenticated
authenticated_same scope a b s =
    ap (λ t. if not (has_identity_scope scope) then true else t)
      (all_ext dimensions
        (λ d. ap (λ t. is_empty (scope_selectors scope d) || t) (trusted_same s d)))

test_same :
    (a b : Context) (ps : List String)
    → SameTrusted a b
    → (d : Dimension)
    → (not (trusted a d) || selected ps (context_values a d))
      ≡ (not (trusted b d) || selected ps (context_values b d))
test_same a b ps s d = ground (arith, trusted_same s d, s.value d)

-- An enforcing rule whose identity scope is not authenticated applies to a request, or not, whatever
-- labels that nobody vouches for the request carries or omits.
pub applies_ignores_untrusted :
    (doc : Mode) (rule : Rule) (a b : Context)
    → rule_mode doc rule ≡ enforce
    → identity_scope_authenticated rule.scope a ≡ false
    → SameTrusted a b
    → applies doc rule a ≡ applies doc rule b
unfolding applies rule_applies_ignoring_untrusted_identity
applies_ignores_untrusted doc rule a b m f s =
    let same = all_ext dimensions (λ d. test_same a b (scope_selectors rule.scope d) s d) in
    ground (arith, authenticated_same rule.scope a b s, same)

-- A rule whose scope selects the request applies to it, trusted or not.
pub applies_of_rule_applies :
    (doc : Mode) (rule : Rule) (context : Context)
    → rule_applies rule context ≡ true
    → applies doc rule context ≡ true
unfolding applies rule_applies rule_applies_ignoring_untrusted_identity
applies_of_rule_applies doc rule context h =
    let p : Dimension → Bool =
      λ d. selected (scope_selectors rule.scope d) (context_values context d) in
    let relaxed : all (λ d. not (trusted context d) || p d) dimensions ≡ true =
      all_intro (λ d. not (trusted context d) || p d) dimensions
        (λ d. ground (arith, every p d h)) in
    ground (arith, relaxed)
