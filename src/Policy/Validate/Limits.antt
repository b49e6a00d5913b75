-- ===== src/Policy/Validate/Limits.antt =====
-- What the loops of `validate` over the window limits check, and what they leave in the map of durations.
use burnban.Prelude.{
  ◌≡◌, String, Bool, true, Option, some, List, [], ◌∷◌, All, guard-some, chain-some, and_true,
  Unicode, sym, ap, subst, some_inj,
}
use burnban.Prelude.Int.{ℤ}
use burnban.Policy.Types.{Mode, Rule}
use burnban.Policy.Engine.{WindowKey}
use burnban.Policy.Validate.{
  Windows, Window, in_bounds, window_duration, window_limits, Progress, limit_group, request_bounds,
  token_bounds, dollar_bounds, of_window, of_dollar, rule_header, rule_has_effect, validate_rule,
}

-- Every duration of the map is from one second through 366 days.
abbrev pub AreBounded : Windows → Type 0
AreBounded ws = All (λ (w : WindowKey × ℤ). in_bounds w.1 ≡ true) ws

module _ (u : Unicode) (parse_duration : String → Option ℤ) where
  window_duration_facts :
      (seen : List String) (bounds : Bool) (w : Window) (d : ℤ)
      → window_duration u parse_duration seen bounds w ≡ some d
      → (bounds ≡ true) × (in_bounds d ≡ true)
  unfolding window_duration
  window_duration_facts seen bounds w d h =
      let (g, r) = guard-some _ _ d h in
      let (named, _) = and_true _ _ g in
      let (_, b) = and_true _ _ named in
      let (x, _, k) = chain-some (parse_duration w.window) _ d r in
      let (i, q) = guard-some (in_bounds x) (some x) d k in
      (b, subst (λ y. in_bounds y ≡ true) (some_inj q) i)

  module _ {A : Type 0} (rule_id kind : String) (bounds : A → Bool) (window : A → Window) where
    window_limits_facts :
        (seen : List String) (limits : List A) (ws ws' : Windows)
        → window_limits u parse_duration rule_id kind bounds window seen limits ws ≡ some ws'
        → All (λ l. bounds l ≡ true) limits × (AreBounded ws → AreBounded ws')
    unfolding window_limits
    window_limits_facts seen [] ws ws' h = (tt, subst AreBounded (some_inj h))
    window_limits_facts seen (l ∷ rest) ws ws' h =
        let (d, hd, hr) =
          chain-some (window_duration u parse_duration seen (bounds l) (window l)) _ ws' h in
        let (b, i) = window_duration_facts seen (bounds l) (window l) d hd in
        let (more, keeps) = window_limits_facts ((window l).id ∷ seen) rest _ ws' hr in
        ((b, more), λ a. keeps (i, a))

    limit_group_facts :
        (limits : List A) (p p' : Progress)
        → limit_group u parse_duration rule_id kind bounds window limits p ≡ some p'
        → All (λ l. bounds l ≡ true) limits
          × (p'.ids ≡ p.ids)
          × (AreBounded p.windows → AreBounded p'.windows)
    unfolding limit_group
    limit_group_facts limits p p' h =
        let (_, r) = guard-some _ _ p' h in
        let (ws, hw, q) =
          chain-some (window_limits u parse_duration rule_id kind bounds window [] limits p.windows)
            _ p' r in
        let (b, keeps) = window_limits_facts [] limits p.windows ws hw in
        (
          b,
          sym (ap (λ (t : Progress). t.ids) (some_inj q)),
          λ a. subst AreBounded (ap (λ (t : Progress). t.windows) (some_inj q)) (keeps a),
        )

  -- What a rule that passes has, and what it leaves.
  pub validate_rule_facts :
      (mode : Mode) (rule : Rule) (p p' : Progress)
      → validate_rule u parse_duration mode rule p ≡ some p'
      → (rule_header u mode p.ids rule ≡ true)
        × All (λ l. request_bounds l ≡ true) rule.limits.requests
        × All (λ l. token_bounds l ≡ true) rule.limits.tokens
        × All (λ l. dollar_bounds l ≡ true) rule.limits.dollars
        × (p'.ids ≡ rule.id ∷ p.ids)
        × (AreBounded p.windows → AreBounded p'.windows)
  unfolding validate_rule
  validate_rule_facts mode rule p p' h =
      let (header, h0) = guard-some _ _ p' h in
      let (p1, e1, h1) = chain-some _ _ p' h0 in
      let (p2, e2, h2) = chain-some _ _ p' h1 in
      let (p3, e3, h3) = chain-some _ _ p' h2 in
      let (_, q) = guard-some (rule_has_effect rule) _ p' h3 in
      let (r, _, k1) =
        limit_group_facts rule.id "requests" request_bounds of_window rule.limits.requests p p1
          e1 in
      let (t, _, k2) =
        limit_group_facts rule.id "tokens" token_bounds of_window rule.limits.tokens p1 p2 e2 in
      let (d, _, k3) =
        limit_group_facts rule.id "dollars" dollar_bounds of_dollar rule.limits.dollars p2 p3 e3 in
      (
        header,
        r,
        t,
        d,
        sym (ap (λ (t : Progress). t.ids) (some_inj q)),
        λ a. subst AreBounded (ap (λ (t : Progress). t.windows) (some_inj q)) (k3 (k2 (k1 a))),
      )
