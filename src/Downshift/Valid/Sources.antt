-- ===== src/Downshift/Valid/Sources.antt =====
-- internal/downshift/config.go: the rules of a valid configuration, and the decisions made from it.
use burnban.Prelude.{
  ◌≡◌, ◌≢◌, ◌⊎◌, inl, inr, String, Bool, true, false, not, ◌&&◌, none, some, List, [], ◌∷◌, any,
  All, str_eq, eq_iff, Option-cases, Bool-cases, and_true, guard-some, chain-some, some_inj,
  Unicode, refl, ap, sym, ◌∙◌, subst,
}
use burnban.Downshift.Config.{
  Endpoint, Rule, Config, Compiled, same_source, normalize_modalities, rule_ok, validate_rules,
  validate_config, rule_of, checks_of,
}
use burnban.Downshift.Decide.{downshift, Input, decide}
use burnban.Downshift.Valid.Choice.{decide-IsReady, decide_target}
use burnban.Downshift.Valid.Due.{clear_obstacle}
use burnban.Downshift.Valid.Compatible.{IsMet, CanServe, scope_matches_iff, eligible_iff}

abbrev pub IsApart : Endpoint → Endpoint → Type 0
IsApart a b = (a.route ≢ b.route) ⊎ (a.model ≢ b.model)

-- The target is another model of the source's family and dialect.
pub record IsEquivalent (rule : Rule) : Type 0 where
  pub family : rule.source.family ≡ rule.target.family
  pub dialect : rule.source.dialect ≡ rule.target.dialect
  pub apart : IsApart rule.source rule.target

negated : (b : Bool) → not b ≡ true → b ≡ false
negated true h = cc
negated false h = refl

IsApart-of :
    (a b : Endpoint) → (str_eq a.route b.route && str_eq a.model b.model) ≡ false → IsApart a b
IsApart-of a b h = elim (Bool-cases (str_eq a.route b.route)) [
  | inr e ↦ inl (λ q. cc (e, (eq_iff a.route b.route).1 q))
  | inl e ↦ inr (λ q. cc (rw (e, (eq_iff a.model b.model).1 q) at h))
]

new_source :
    (rule : Rule) (before : List Rule)
    → any (same_source rule.source) before ≡ false
    → All (λ (r : Rule). IsApart rule.source r.source) before
new_source rule [] h = tt
new_source rule (r ∷ before) h = elim (Bool-cases (same_source rule.source r)) [
  | inl e ↦ absurd (cc (rw e at h))
  | inr e ↦ (IsApart-of rule.source r.source e, new_source rule before (rw e at h))
]

rule_facts :
    (u : Unicode) (before : List Rule) (rule : Rule)
    → rule_ok u before rule ≡ true
    → IsEquivalent rule × All (λ (r : Rule). IsApart rule.source r.source) before
unfolding rule_ok
rule_facts u before rule h =
    let (h1, _) = and_true _ _ h in
    let (h2, new) = and_true _ _ h1 in
    let (h3, other) = and_true _ _ h2 in
    let (h4, dialect) = and_true _ _ h3 in
    let (_, family) = and_true _ _ h4 in
    (
      record {
        family = (eq_iff _ _).0 family;
        dialect = (eq_iff _ _).0 dialect;
        apart = IsApart-of rule.source rule.target (negated _ other);
      },
      new_source rule before (negated _ new),
    )

not_found :
    (rules : List Rule) (s : Endpoint)
    → All (λ (r : Rule). IsApart r.source s) rules
    → rule_of rules s.route s.model ≡ none
unfolding rule_of
not_found [] s h = refl
not_found (r ∷ rules) s (here, later) = elim here [
  | inl n ↦
      rw (rule_of, not_found rules s later)
        (elim (Bool-cases (str_eq s.route r.source.route)) [
          | inl e ↦ absurd (n (sym ((eq_iff _ _).0 e)))
          | inr e ↦ rw e refl
        ])
  | inr n ↦
      rw (rule_of, not_found rules s later)
        (elim (Bool-cases (str_eq s.model r.source.model)) [
          | inl e ↦ absurd (n (sym ((eq_iff _ _).0 e)))
          | inr e ↦ elim (Bool-cases (str_eq s.route r.source.route)) [
            | inl f ↦ rw (f, e) refl
            | inr f ↦ rw f refl
          ]
        ])
]

abbrev IsFound : List Rule → Rule → Type 0
IsFound rules r = rule_of rules r.source.route r.source.model ≡ some r

IsFound-later :
    (r : Rule) (rules xs : List Rule) → All (IsFound rules) xs → All (IsFound (r ∷ rules)) xs
unfolding rule_of
IsFound-later r rules [] h = tt
IsFound-later r rules (x ∷ xs) h = (rw (rule_of, h.0) refl, IsFound-later r rules xs h.1)

IsFound-here :
    (r : Rule) (rules : List Rule)
    → All (λ (x : Rule). IsApart x.source r.source) rules
    → IsFound (r ∷ rules) r
unfolding rule_of
IsFound-here r rules h =
    rw
      (
        rule_of,
        not_found rules r.source h,
        (eq_iff r.source.route r.source.route).1 refl,
        (eq_iff r.source.model r.source.model).1 refl,
      )
      refl

map_all :
    {A : Type 0} {P Q : A → Type 0} → ((a : A) → P a → Q a) → (xs : List A) → All P xs → All Q xs
map_all f [] p = tt
map_all f (x ∷ xs) p = (f x p.0, map_all f xs p.1)

abbrev AreNew : List Rule → List Rule → Type 0
AreNew before rules = All (λ (r : Rule). All (λ (b : Rule). IsApart r.source b.source) before) rules

abbrev AreSound : List Rule → List Rule → Type 0
AreSound before rules = All IsEquivalent rules × AreNew before rules × All (IsFound rules) rules

validate_rules_facts :
    (u : Unicode) (before rules out : List Rule)
    → validate_rules u before rules ≡ some out
    → AreSound before out
unfolding validate_rules
validate_rules_facts u before [] out h = subst (AreSound before) (some_inj h) (tt, tt, tt)
validate_rules_facts u before (rule ∷ rules) out h =
    let (ok, h0) = guard-some (rule_ok u before rule) _ out h in
    let (ms, _, h1) = chain-some (normalize_modalities rule.capabilities.modalities) _ out h0 in
    let (rest, hr, q) = chain-some (validate_rules u (rule ∷ before) rules) _ out h1 in
    let (same, new) = rule_facts u before rule ok in
    let (equivalent, apart, found) = validate_rules_facts u (rule ∷ before) rules rest hr in
    subst (AreSound before) (some_inj q) (
      (record { family = same.family; dialect = same.dialect; apart = same.apart }, equivalent),
      (new, map_all (λ _ a. a.1) rest apart),
      (IsFound-here _ rest (map_all (λ _ a. a.0) rest apart), IsFound-later _ rest rest found),
    )

-- In a valid configuration every target is another model of the source's family and dialect, and the
-- lookup by a rule's own source finds that rule: no rule hides another.
pub validate_config-IsFound :
    (u : Unicode) (cfg valid : Config)
    → validate_config u cfg ≡ some valid
    → All IsEquivalent valid.rules
      × All (λ (r : Rule). rule_of valid.rules r.source.route r.source.model ≡ some r) valid.rules
unfolding validate_config
validate_config-IsFound u cfg valid h =
    let (_, h0) = guard-some _ _ valid h in
    let (rules, hr, q) = chain-some (validate_rules u [] cfg.rules) _ valid h0 in
    let (equivalent, _, found) = validate_rules_facts u [] cfg.rules rules hr in
    subst (λ (c : Config). All IsEquivalent c.rules × All (IsFound c.rules) c.rules) (some_inj q)
      (equivalent, found)

found_all :
    (P : Rule → Type 0) (rules : List Rule) (route model : String) (rule : Rule)
    → All P rules
    → rule_of rules route model ≡ some rule
    → P rule × (route ≡ rule.source.route) × (model ≡ rule.source.model)
unfolding rule_of
found_all P [] route model rule a h = cc
found_all P (r ∷ rules) route model rule a h = elim (Option-cases (rule_of rules route model)) [
  | inr (x, e) ↦ found_all P rules route model rule a.1 (e ∙ (rw (rule_of, e) at h))
  | inl e ↦ elim (Bool-cases (str_eq route r.source.route && str_eq model r.source.model)) [
    | inr f ↦ cc (rw (rule_of, e, f) at h)
    | inl f ↦
        let q : r ≡ rule = some_inj (rw (rule_of, e, f) at h) in
        let (x, y) = and_true _ _ f in
        (
          subst P q a.0,
          (eq_iff route r.source.route).0 x ∙ ap (λ (t : Rule). t.source.route) q,
          (eq_iff model r.source.model).0 y ∙ ap (λ (t : Rule). t.source.model) q,
        )
  ]
]

-- A request that a valid configuration downshifts goes to the target of the rule for its own route and
-- model: another model of the same family and dialect, which can serve the request; and each label of
-- the rule's scope is the identity's own and authenticated.
pub downshift-IsEquivalent :
    (u : Unicode) (cfg : Config) (compiled : Compiled) (input : Input)
    → validate_config u cfg ≡ some compiled.config
    → (decide (some compiled) input).action ≡ downshift
    → (rule : Rule) × (input.route ≡ rule.source.route)
      × (input.model ≡ rule.source.model)
      × ((decide (some compiled) input).target_route ≡ rule.target.route)
      × ((decide (some compiled) input).target_model ≡ rule.target.model)
      × IsEquivalent rule
      × CanServe rule input.features
      × All IsMet (checks_of rule.scope input.identity)
downshift-IsEquivalent u cfg compiled input v h =
    let (rule, ready) = (decide-IsReady compiled input).0 h in
    let (equivalent, route, model) =
      found_all IsEquivalent compiled.config.rules input.route input.model rule
        (validate_config-IsFound u cfg compiled.config v).0 ready.found in
    let (target_route, target_model) = decide_target compiled input rule ready.found in
    let (_, _, _, scope, features) = clear_obstacle rule input ready.clear in
    (
      rule,
      route,
      model,
      target_route,
      target_model,
      equivalent,
      (eligible_iff rule input.features).0 features,
      (scope_matches_iff rule.scope input.identity).0 scope,
    )
