-- ===== src/Tests/Matching.antt =====
-- Wildcards and scopes on concrete texts.
use burnban.Prelude.{
  ◌≡◌, ◌≢◌, ◌↔◌, ◌⊎◌, true, false, none, [], ◌∷◌, length, codes, refl, inl, inr, arith,
}
use burnban.Policy.Types.{enforce, Context, Dimension, self_reported, unverified}
use burnban.Policy.Wildcard.{match_loop, enough, match_runes, wildcard_match}
use burnban.Policy.Wildcard.Spec.{Matches}
use burnban.Policy.Wildcard.Termination.{match_loop-total}
use burnban.Policy.Wildcard.Soundness.{wildcard_match_sound}
use burnban.Policy.Wildcard.Completeness.{HasNoStar, wildcard_match_exact, wildcard_match_misses}
use burnban.Policy.Scope.{
  rule_mode, has_identity_scope, scope_selectors, selected, identity_dimension_confidence,
  context_values, trusted, rule_applies, identity_scope_authenticated, applies,
}
use burnban.Policy.Scope.Identity.{
  IsUnvouched, SameTrusted, applies_ignores_untrusted, applies_of_rule_applies,
}
use burnban.Tests.Data.{hourly, team_rule, request}

no_star : HasNoStar (codes "openai")
no_star =
    let o : 111 ≢ b'*' = λ e. omega (arith, e) in
    let p : 112 ≢ b'*' = λ e. omega (arith, e) in
    let q : 101 ≢ b'*' = λ e. omega (arith, e) in
    let n : 110 ≢ b'*' = λ e. omega (arith, e) in
    let a : 97 ≢ b'*' = λ e. omega (arith, e) in
    let i : 105 ≢ b'*' = λ e. omega (arith, e) in (o, (p, (q, (n, (a, (i, tt))))))

wildcard_match_exact_example :
    (wildcard_match "op*n?" "openai" ≡ true) ↔ Matches (codes "op*n?") (codes "openai")
wildcard_match_exact_example = wildcard_match_exact "op*n?" "openai" no_star

star_accepts : Matches (codes "*") (codes "gpt")
unfolding wildcard_match match_runes match_loop
star_accepts = wildcard_match_sound "*" "gpt" refl

match_loop-total_example :
    match_loop (enough (length (codes "*a")) (length (codes "ba"))) (codes "*a") (codes "ba") none
    ≢ none
match_loop-total_example = match_loop-total (codes "*a") (codes "ba")

wildcard_match_misses_example :
    (match_runes (codes "*") (b'*' ∷ b'x' ∷ []) ≡ false) × Matches (codes "*") (b'*' ∷ b'x' ∷ [])
wildcard_match_misses_example = wildcard_match_misses [] b'x'

-- The same request, with a team name that the client gives, and with none.
abbrev claimed : Context
claimed = let c = request in record c { team = "other"; team_confidence = self_reported }

abbrev silent : Context
silent = let c = request in record c { team_confidence = unverified }

same_trusted : SameTrusted claimed silent
unfolding trusted identity_dimension_confidence context_values
same_trusted = record { confidence = λ d. same d; value = λ d. either d }
  where
    same :
        (d : Dimension)
        → (identity_dimension_confidence claimed d ≡ identity_dimension_confidence silent d)
          ⊎ (IsUnvouched (identity_dimension_confidence claimed d)
              × IsUnvouched (identity_dimension_confidence silent d))
    same Dimension.team = inr (inl refl, inr (inl refl))
    same d = ground arith

    either :
        (d : Dimension)
        → (trusted claimed d ≡ false) ⊎ (context_values claimed d ≡ context_values silent d)
    either d = ground arith

applies_ignores_untrusted_example :
    applies enforce team_rule claimed ≡ applies enforce team_rule silent
unfolding identity_scope_authenticated rule_mode has_identity_scope scope_selectors trusted
    identity_dimension_confidence
applies_ignores_untrusted_example =
    applies_ignores_untrusted enforce team_rule claimed silent refl refl same_trusted

selected_applies : applies enforce hourly request ≡ true
unfolding rule_applies selected scope_selectors context_values
selected_applies = applies_of_rule_applies enforce hourly request refl
