-- ===== src/Budget/Caps/Positive.antt =====
-- The caps that `checkLocked` enforces: what `parse_cap` and `subtract_expired_increase` let through.
use burnban.Prelude.{
  String, Bool, true, false, not, ◌&&◌, ◌≡◌, refl, Option, none, some, is_empty, codes,
  if◌then◌else◌, guard-some, chain-some, some_inj, and_true, Bool-cases, inl, inr, subst, ◌||◌,
}
use burnban.Float
use burnban.Float.{Float64}
use burnban.Budget.Caps.{zero_usd, parse_cap, above_zero, subtract_expired_increase}

set_if :
    (a b c : Bool) (v cap : Float64)
    → (if a || b then none else (if c then some none else some (some v))) ≡ some (some cap)
    → ((not a && not b && not c) ≡ true) × (v ≡ cap)
set_if true b c v cap h = cc
set_if false true c v cap h = cc
set_if false false true v cap h = cc
set_if false false false v cap h = (refl, cc)

parse_cap-above_zero :
    (parse_float : String → Option Float64) (text : String) (cap : Float64)
    → parse_cap parse_float text ≡ some (some cap)
    → above_zero cap ≡ true
unfolding parse_cap
parse_cap-above_zero parse_float text cap h = elim (Bool-cases (is_empty (codes text))) [
  | inl e ↦ cc (rw e at h)
  | inr e ↦
      let (v, found, k) = chain-some (parse_float text) _ (some cap) (rw e at h) in
      let (tests, same) = set_if _ _ _ v cap k in subst (λ x. above_zero x ≡ true) same tests
]

-- Every cap that is enforced is a finite number above zero: a local one as its setting is read, and an external one
-- also after the increases that have expired are taken off.
pub caps_above_zero :
    (parse_float : String → Option Float64) (text : String) (stored expired cap : Float64)
    → parse_cap parse_float text ≡ some (some stored)
    → subtract_expired_increase (some stored) expired ≡ some (some cap)
    → (above_zero stored ≡ true) × (above_zero cap ≡ true)
unfolding subtract_expired_increase
caps_above_zero parse_float text stored expired cap h k =
    let first = parse_cap-above_zero parse_float text stored h in
    elim (Bool-cases (Float.equal expired zero_usd)) [
      | inl e ↦
          let same = some_inj (some_inj (rw e at k)) in
          (first, subst (λ x. above_zero x ≡ true) same first)
      | inr e ↦
          let (tests, made) =
            guard-some (not (Float.lt stored expired) && above_zero (Float.sub stored expired))
              (some (some (Float.sub stored expired))) (some cap) (rw e at k) in
          (
            first,
            subst (λ x. above_zero x ≡ true) (some_inj (some_inj made)) (and_true _ _ tests).1,
          )
    ]
