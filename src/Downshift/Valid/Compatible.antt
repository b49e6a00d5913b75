-- ===== src/Downshift/Valid/Compatible.antt =====
-- internal/downshift/features.go and config.go: what it takes for a rule's target to serve a request.
use burnban.Prelude.{
  ◌≡◌, ◌↔◌, ◌⊎◌, inl, inr, String, Bool, true, false, not, ◌&&◌, ◌||◌, Option, none, some, List, [],
  ◌∷◌, any, All, str_eq, eq_iff, Option-cases, Bool-cases, and_true, refl, arith, if◌then◌else◌,
}
use burnban.Prelude.Int.{ℤ, ◌≤ℤ◌, ltb_ℤ}
use burnban.Downshift.Config.{
  Scope, Identity, Check, check_all, checks_of, scope_matches, is_empty_scope, Rule,
}
use burnban.Downshift.Features.{
  Features, incompatible, dialects_differ, no_output_bound, exceeds_source, exceeds_target,
  no_tools, no_structured_output, no_modality, missing_modality, eligible,
}

-- A wanted label is the identity's, and that one is authenticated.
abbrev pub IsMet : Check → Type 0
IsMet c = (c.want ≡ "") ⊎ ((c.want ≡ c.got) × (c.confidence ≡ "authenticated"))

check_all-IsMet : (cs : List Check) → check_all cs ≡ none → All IsMet cs
unfolding check_all
check_all-IsMet [] h = tt
check_all-IsMet (c ∷ cs) h = elim (Bool-cases (str_eq c.want "")) [
  | inl e ↦ (inl ((eq_iff c.want "").0 e), check_all-IsMet cs (rw (check_all, e) at h))
  | inr e ↦ elim (Bool-cases (str_eq c.confidence "authenticated")) [
    | inr a ↦ cc (rw (check_all, e, a) at h)
    | inl a ↦ elim (Bool-cases (str_eq c.want c.got)) [
      | inr g ↦ cc (rw (check_all, e, a, g) at h)
      | inl g ↦ (
        inr ((eq_iff c.want c.got).0 g, (eq_iff c.confidence "authenticated").0 a),
        check_all-IsMet cs (rw (check_all, e, a, g) at h),
      )
    ]
  ]
]

check_all-none : (cs : List Check) → All IsMet cs → check_all cs ≡ none
unfolding check_all
check_all-none [] m = refl
check_all-none (c ∷ cs) (inl e, m) = rw (check_all, (eq_iff c.want "").1 e) (check_all-none cs m)
check_all-none (c ∷ cs) (inr (g, a), m) = elim (Bool-cases (str_eq c.want "")) [
  | inl e ↦ rw (check_all, e) (check_all-none cs m)
  | inr e ↦
      rw (check_all, e, (eq_iff c.confidence "authenticated").1 a, (eq_iff c.want c.got).1 g)
        (check_all-none cs m)
]

unmet :
    (s : Scope) (identity : Identity) → is_empty_scope s ≡ true → All IsMet (checks_of s identity)
unfolding checks_of
unmet s identity h =
    let (h1, cost_center) = and_true _ _ h in
    let (h2, project) = and_true _ _ h1 in
    let (h3, service_account) = and_true _ _ h2 in
    let (tenant, principal) = and_true _ _ h3 in
    (
      inl ((eq_iff _ _).0 tenant),
      (
        inl ((eq_iff _ _).0 principal),
        (
          inl ((eq_iff _ _).0 service_account),
          (inl ((eq_iff _ _).0 project), (inl ((eq_iff _ _).0 cost_center), tt)),
        ),
      ),
    )

-- A scope matches an identity exactly where each label that it names is the identity's own, and is
-- authenticated there.
pub scope_matches_iff :
    (scope : Scope) (identity : Identity)
    → ((scope_matches scope identity ≡ none) ↔ All IsMet (checks_of scope identity))
unfolding scope_matches
scope_matches_iff scope identity = elim (Bool-cases (is_empty_scope scope)) [
  | inl e ↦ (λ _. unmet scope identity e, λ _. rw (scope_matches, e) refl)
  | inr e ↦ (
    λ h. check_all-IsMet (checks_of scope identity) (rw (scope_matches, e) at h),
    λ m. rw (scope_matches, e) (check_all-none (checks_of scope identity) m),
  )
]

module _ {A : Type 0} where
  -- The early returns of a function that returns an error or goes on.
  pass :
      (b : Bool) (r : A) (o : Option A)
      → (if b then some r else o) ≡ none
      → (b ≡ false) × (o ≡ none)
  pass true r o h = cc
  pass false r o h = (refl, h)

not-false : (b : Bool) → not b ≡ false → b ≡ true
not-false true h = refl
not-false false h = cc

-- What a request must be, and a rule must say, for its target to serve the request.
pub record CanServe (rule : Rule) (f : Features) : Type 0 where
  pub compatible : f.compatible ≡ true
  pub source_dialect : f.dialect ≡ rule.source.dialect
  pub target_dialect : f.dialect ≡ rule.target.dialect
  pub bounded : f.output_bound_present ≡ true
  pub source_context : f.context_upper_tokens ≤ℤ rule.source.context_tokens
  pub target_context : f.context_upper_tokens ≤ℤ rule.target.context_tokens
  pub tools : (f.uses_tools ≡ false) ⊎ (rule.capabilities.tools ≡ true)
  pub structured : (f.structured_output ≡ false) ⊎ (rule.capabilities.structured_output ≡ true)
  pub modalities : All (λ m. any (str_eq m) rule.capabilities.modalities ≡ true) f.modalities

no_missing :
    (allowed ms : List String)
    → missing_modality allowed ms ≡ none
    → All (λ m. any (str_eq m) allowed ≡ true) ms
unfolding missing_modality
no_missing allowed [] h = tt
no_missing allowed (m ∷ ms) h = elim (Bool-cases (any (str_eq m) allowed)) [
  | inl e ↦ (e, no_missing allowed ms (rw (missing_modality, e) at h))
  | inr e ↦ cc (rw (missing_modality, e) at h)
]

missing_none :
    (allowed ms : List String)
    → All (λ m. any (str_eq m) allowed ≡ true) ms
    → missing_modality allowed ms ≡ none
unfolding missing_modality
missing_none allowed [] h = refl
missing_none allowed (m ∷ ms) h = rw (missing_modality, h.0) (missing_none allowed ms h.1)

at_most : (a b : ℤ) → ltb_ℤ b a ≡ false → a ≤ℤ b
at_most a b h = ground arith

not_above : (a b : ℤ) → a ≤ℤ b → ltb_ℤ b a ≡ false
not_above a b h = ground arith

lacks : (a b : Bool) → (a && not b) ≡ false → (a ≡ false) ⊎ (b ≡ true)
lacks true true h = inr refl
lacks true false h = cc
lacks false b h = inl refl

has : (a b : Bool) → (a ≡ false) ⊎ (b ≡ true) → (a && not b) ≡ false
has true true h = refl
has true false (inl h) = cc
has true false (inr h) = cc
has false b h = refl

both_named : (a b : Bool) → (not a || not b) ≡ false → (a ≡ true) × (b ≡ true)
both_named true b h = (refl, not-false b h)
both_named false b h = cc

modality_none :
    (rule : Rule) (f : Features)
    → elim (missing_modality rule.capabilities.modalities f.modalities) [
      | none ↦ none
      | some m ↦ some (no_modality m)
    ]
      ≡ none
    → missing_modality rule.capabilities.modalities f.modalities ≡ none
modality_none rule f h =
    elim (Option-cases (missing_modality rule.capabilities.modalities f.modalities)) [
      | inl e ↦ e
      | inr (m, e) ↦ cc (rw e at h)
    ]

eligible_serves : (rule : Rule) (f : Features) → eligible rule f ≡ none → CanServe rule f
unfolding eligible
eligible_serves rule f h =
    let (c, h1) = pass _ (incompatible f.reason) _ h in
    let (d, h2) = pass _ dialects_differ _ h1 in
    let (b, h3) = pass _ no_output_bound _ h2 in
    let (s, h4) = pass _ exceeds_source _ h3 in
    let (t, h5) = pass _ exceeds_target _ h4 in
    let (u, h6) = pass _ no_tools _ h5 in
    let (o, h7) = pass _ no_structured_output _ h6 in
    let (ds, dt) = both_named _ _ d in
    record {
      compatible = not-false _ c;
      source_dialect = (eq_iff _ _).0 ds;
      target_dialect = (eq_iff _ _).0 dt;
      bounded = not-false _ b;
      source_context = at_most f.context_upper_tokens rule.source.context_tokens s;
      target_context = at_most f.context_upper_tokens rule.target.context_tokens t;
      tools = lacks _ _ u;
      structured = lacks _ _ o;
      modalities = no_missing _ _ (modality_none rule f h7);
    }

serves_eligible : (rule : Rule) (f : Features) → CanServe rule f → eligible rule f ≡ none
unfolding eligible
serves_eligible rule f s =
    rw
      (
        eligible,
        s.compatible,
        (eq_iff _ _).1 s.source_dialect,
        (eq_iff _ _).1 s.target_dialect,
        s.bounded,
        not_above f.context_upper_tokens rule.source.context_tokens s.source_context,
        not_above f.context_upper_tokens rule.target.context_tokens s.target_context,
        has f.uses_tools rule.capabilities.tools s.tools,
        has f.structured_output rule.capabilities.structured_output s.structured,
        missing_none rule.capabilities.modalities f.modalities s.modalities,
      )
      refl

-- A target is eligible exactly where it can serve the request.
pub eligible_iff : (rule : Rule) (f : Features) → ((eligible rule f ≡ none) ↔ CanServe rule f)
eligible_iff rule f = (eligible_serves rule f, serves_eligible rule f)
