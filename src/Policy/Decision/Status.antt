-- ===== src/Policy/Decision/Status.antt =====
-- The HTTP status of a denial, described by what the violations contain.
use burnban.Prelude.{
  ℕ, Bool, true, false, ◌||◌, ◌≡◌, Option, none, some, List, [], ◌∷◌, if◌then◌else◌, any, arith,
  refl, ◌==◌, ◌⊎◌,
}
use burnban.Policy.Decision.{
  Code, Violation, authenticated_identity_required, concurrency_limit, deny_match, dollar_limit,
  estimated_cost_unknown, max_estimated_call_cost, not_allowed, output_bound_required,
  request_limit, token_limit, status_from, status_for_violations,
}

-- Identity and access violations decide alone, the first of them before any other.
abbrev final_status : Code → Option ℕ
final_status authenticated_identity_required = some 401
final_status deny_match = some 403
final_status not_allowed = some 403
final_status _ = none

abbrev is_payment : Code → Bool
is_payment max_estimated_call_cost = true
is_payment estimated_cost_unknown = true
is_payment dollar_limit = true
is_payment _ = false

abbrev is_rate : Code → Bool
is_rate request_limit = true
is_rate token_limit = true
is_rate concurrency_limit = true
is_rate _ = false

abbrev pub first_final : List Violation → Option ℕ
first_final [] = none
first_final (v ∷ vs) =
    let later = first_final vs in elim (final_status v.code) [ some s ↦ some s | none ↦ later ]

abbrev any_payment : List Violation → Bool
any_payment = any (λ v. is_payment v.code)

abbrev any_rate : List Violation → Bool
any_rate = any (λ v. is_rate v.code)

-- 401 or 403, else 402 for a cost, else 429 for a limit, else 422.
abbrev pub expected_status : List Violation → ℕ
expected_status vs = elim (first_final vs) [
  | some s ↦ s
  | none ↦ if any_payment vs then 402 else if any_rate vs then 429 else 422
]

abbrev settled : ℕ → List Violation → ℕ
settled status vs = elim (first_final vs) [
  | some s ↦ s
  | none ↦ if any_payment vs || status == 402 then 402 else if any_rate vs then 429 else status
]

by_code :
    (c : Code) (v : Violation)
    → v.code ≡ c
    → (status : ℕ) (vs : List Violation)
    → ((st : ℕ) → (st ≡ 422) ⊎ (st ≡ 402) ⊎ (st ≡ 429) → status_from st vs ≡ settled st vs)
    → (status ≡ 422) ⊎ (status ≡ 402) ⊎ (status ≡ 429)
    → status_from status (v ∷ vs) ≡ settled status (v ∷ vs)
unfolding status_from
by_code authenticated_identity_required v e status vs ih h = ground arith
by_code deny_match v e status vs ih h = ground arith
by_code not_allowed v e status vs ih h = ground arith
by_code output_bound_required v e status vs ih h = ground (arith, ih status)
by_code _ v e status vs ih h = ground (arith, ih 402, ih 429)

status_from-eq-settled :
    (status : ℕ) (vs : List Violation)
    → (status ≡ 422) ⊎ (status ≡ 402) ⊎ (status ≡ 429)
    → status_from status vs ≡ settled status vs
unfolding status_from
status_from-eq-settled status [] h = ground arith
status_from-eq-settled status (v ∷ vs) h =
    by_code v.code v refl status vs (λ st. status_from-eq-settled st vs) h

-- The status of a denial is the 401 or 403 of its first identity or access violation; without one, 402
-- if it has a cost violation, else 429 if it has a request, token or concurrency one, else 422, in
-- whatever order these come.
pub status_for_violations-eq-expected :
    (vs : List Violation) → status_for_violations vs ≡ expected_status vs
unfolding status_for_violations
status_for_violations-eq-expected vs = ground (arith, status_from-eq-settled 422 vs)
