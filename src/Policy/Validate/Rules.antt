-- ===== src/Policy/Validate/Rules.antt =====
-- internal/policy/types.go, `validate`: the rules of a document that it accepts.
use burnban.Prelude.{
  ◌≡◌, ◌≢◌, String, Bool, true, false, not, ◌||◌, ◌⊎◌, inl, inr, Option, some, List, [], ◌∷◌, any,
  All, str_eq, eq_iff, is_empty, guard-some, chain-some, and_true, some_inj, Unicode, Bool-cases,
  refl, ap, subst, arith,
}
use burnban.Prelude.Int.{ℤ, pos, leb_ℤ, ◌≤ℤ◌, IsInt64}
use burnban.Policy.Types.{Mode, enforce, Document, Rule, WindowLimit, DollarLimit}
use burnban.Policy.Scope.{is_enforce, rule_mode}
use burnban.Policy.Engine.Evaluate.Limits.{HasBoundedLimits}
use burnban.Store.PolicyDecisions.Usage.{IsCount}
use burnban.Policy.Validate.{
  Windows, request_bounds, token_bounds, dollar_bounds, Progress, rule_header, cooperative_free,
  validate_rule, validate_rules, validate,
}
use burnban.Policy.Validate.Limits.{AreBounded, validate_rule_facts}

-- The limits hold int64 values, as the decoder leaves them.
pub record HasInt64Limits (rule : Rule) : Type 0 where
  pub requests : All (λ (l : WindowLimit). IsInt64 l.max) rule.limits.requests
  pub tokens : All (λ (l : WindowLimit). IsInt64 l.max) rule.limits.tokens

-- No selector of an enforcing rule is a label that the caller chooses.
pub record IsAuthentic (rule : Rule) : Type 0 where
  pub agent : rule.scope.agent ≡ []
  pub session : rule.scope.session ≡ []
  pub model_class : rule.scope.model_class ≡ []

abbrev pub IsAccepted : Mode → Rule → Type 0
IsAccepted mode rule =
    HasBoundedLimits rule
    × ((rule_mode mode rule ≢ enforce) ⊎ IsAuthentic rule)
    × (pos 0 ≤ℤ rule.limits.concurrency)

-- No two rules share an id, so that no two share counters.
abbrev pub HasDistinctIds : List Rule → Type 0
HasDistinctIds [] = Unit
HasDistinctIds (rule ∷ rules) =
    All (λ (later : Rule). later.id ≢ rule.id) rules × HasDistinctIds rules

zip_with :
    {A : Type 0} {P Q R : A → Type 0}
    → ((a : A) → P a → Q a → R a)
    → (xs : List A) → All P xs
    → All Q xs
    → All R xs
zip_with f [] p q = tt
zip_with f (x ∷ xs) p q = (f x p.0 q.0, zip_with f xs p.1 q.1)

request-IsCount : (l : WindowLimit) → request_bounds l ≡ true → IsInt64 l.max → IsCount l.max
request-IsCount l h k = ground arith

token-IsCount : (l : WindowLimit) → token_bounds l ≡ true → IsInt64 l.max → IsCount l.max
token-IsCount l h k = ground arith

dollar-IsCount : (l : DollarLimit) → dollar_bounds l ≡ true → IsCount l.max_micro_usd
dollar-IsCount l h = ground arith

map_all :
    {A : Type 0} {P Q : A → Type 0} → ((a : A) → P a → Q a) → (xs : List A) → All P xs → All Q xs
map_all f [] p = tt
map_all f (x ∷ xs) p = (f x p.0, map_all f xs p.1)

empty : (xs : List String) → is_empty xs ≡ true → xs ≡ []
empty [] h = refl
empty (x ∷ xs) h = cc

not-true : (b : Bool) → not b ≡ true → b ≡ false
not-true true h = cc
not-true false h = refl

or_true : (a b : Bool) → (not a || b) ≡ true → (a ≡ false) ⊎ (b ≡ true)
or_true true b h = inr h
or_true false b h = inl refl

authentic :
    (mode : Mode) (rule : Rule)
    → (not (is_enforce (rule_mode mode rule)) || cooperative_free rule) ≡ true
    → (rule_mode mode rule ≢ enforce) ⊎ IsAuthentic rule
unfolding cooperative_free
authentic mode rule h =
    elim (or_true (is_enforce (rule_mode mode rule)) (cooperative_free rule) h) [
      | inl e ↦ inl (λ q. cc (e, ap is_enforce q))
      | inr c ↦
          let (h1, _) = and_true _ _ c in
          let (h2, m) = and_true _ _ h1 in
          let (a, s) = and_true _ _ h2 in
          inr (record { agent = empty _ a; session = empty _ s; model_class = empty _ m })
    ]

nonneg : (c : ℤ) → leb_ℤ (pos 0) c ≡ true → pos 0 ≤ℤ c
nonneg c h = ground arith

header_facts :
    (u : Unicode) (mode : Mode) (ids : List String) (rule : Rule)
    → rule_header u mode ids rule ≡ true
    → (any (str_eq rule.id) ids ≡ false)
      × ((rule_mode mode rule ≢ enforce) ⊎ IsAuthentic rule)
      × (pos 0 ≤ℤ rule.limits.concurrency)
unfolding rule_header
header_facts u mode ids rule h =
    let (h1, _) = and_true _ _ h in
    let (h2, c) = and_true _ _ h1 in
    let (h3, _) = and_true _ _ h2 in
    let (h4, _) = and_true _ _ h3 in
    let (h5, a) = and_true _ _ h4 in
    let (h6, _) = and_true _ _ h5 in
    let (_, n) = and_true _ _ h6 in
    (not-true _ n, authentic mode rule a, nonneg rule.limits.concurrency c)

-- The ids of the rules that pass are new, and all differ.
fresh_ids :
    (id : String) (ids : List String)
    → any (str_eq id) ids ≡ false
    → All (λ (x : String). id ≢ x) ids
fresh_ids id [] h = tt
fresh_ids id (x ∷ ids) h = elim (Bool-cases (str_eq id x)) [
  | inl e ↦ absurd (cc (rw e at h))
  | inr e ↦ (λ q. cc (e, (eq_iff id x).1 q), fresh_ids id ids (rw e at h))
]

accepted :
    (u : Unicode) (parse_duration : String → Option ℤ) (mode : Mode) (rules : List Rule)
    (p p' : Progress)
    → All HasInt64Limits rules
    → validate_rules u parse_duration mode rules p ≡ some p'
    → All (IsAccepted mode) rules
      × All (λ (rule : Rule). All (λ (x : String). rule.id ≢ x) p.ids) rules
      × HasDistinctIds rules
      × (AreBounded p.windows → AreBounded p'.windows)
unfolding validate_rules
accepted u parse_duration mode [] p p' i h =
    (tt, tt, tt, subst AreBounded (ap (λ (t : Progress). t.windows) (some_inj h)))
accepted u parse_duration mode (rule ∷ rules) p p' i h =
    let (p1, e1, h1) = chain-some (validate_rule u parse_duration mode rule p) _ p' h in
    let (header, r, t, d, ids, keeps) = validate_rule_facts u parse_duration mode rule p p1 e1 in
    let (n, a, c) = header_facts u mode p.ids rule header in
    let (rest, new, distinct, later) = accepted u parse_duration mode rules p1 p' i.1 h1 in
    let apart =
      subst (λ xs. All (λ (rule : Rule). All (λ (x : String). rule.id ≢ x) xs) rules) ids new in
    (
      (
        (
          record {
            requests = zip_with request-IsCount _ r i.0.requests;
            tokens = zip_with token-IsCount _ t i.0.tokens;
            dollars = map_all dollar-IsCount _ d;
          },
          a,
          c,
        ),
        rest,
      ),
      (fresh_ids rule.id p.ids n, map_all (λ _ x. x.1) rules apart),
      (map_all (λ _ x. x.0) rules apart, distinct),
      λ b. later (keeps b),
    )

-- In an accepted document whose request and token limits are int64, the limits of each rule are counts
-- and its concurrency is not negative, an enforcing rule's scope names no agent, session or model class,
-- no two rules share an id, and every window is from one second through 366 days.
pub validate-IsAccepted :
    (u : Unicode) (parse_duration : String → Option ℤ) (doc : Document) (ws : Windows)
    → All HasInt64Limits doc.rules
    → validate u parse_duration doc ≡ some ws
    → All (IsAccepted doc.mode) doc.rules × HasDistinctIds doc.rules × AreBounded ws
unfolding validate
validate-IsAccepted u parse_duration doc ws i h =
    let (_, h0) = guard-some _ _ ws h in
    let (p, e, q) = chain-some (validate_rules u parse_duration doc.mode doc.rules _) _ ws h0 in
    let (rules, _, distinct, keeps) = accepted u parse_duration doc.mode doc.rules _ p i e in
    (rules, distinct, subst AreBounded (some_inj q) (keeps tt))
