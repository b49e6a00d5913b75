-- ===== src/Policy/Context.antt =====
-- internal/policy/types.go, the methods of `Context`: what the metadata bounds of a request's tokens
-- and cost.
pub mod Bounds
mod Tests
use burnban.Prelude.{
  ℕ, ◌+◌, ◌*◌, ◌≡◌, Bool, true, false, not, ◌||◌, ◌&&◌, Option, none, some, if◌then◌else◌, refl,
}
use burnban.Prelude.Int.{ℤ, pos, negsuc, ltb_ℤ, eqb_ℤ, max_ℤ, max_int64, add64, sub64}
use burnban.Float
use burnban.Float.{Float64, nan, inf, fin}
use burnban.Policy.Types.{Context, TokenKind, any_kind, input, output, total, other_kind}

unfoldable pub estimated_tokens : Context → ℤ
estimated_tokens c =
    let input = max_ℤ c.estimated_input (pos 0) in
    let output = if c.output_bound_present then max_ℤ c.output_bound (pos 0) else pos 0 in
    if ltb_ℤ (sub64 (pos max_int64) output) input then pos max_int64 else add64 input output

-- `EstimatedTokensForKind`: `none` is the result (0, false).
unfoldable pub estimated_tokens_for_kind : Context → TokenKind → Option ℤ
unfolding estimated_tokens
estimated_tokens_for_kind c input = some (max_ℤ c.estimated_input (pos 0))
estimated_tokens_for_kind c any_kind =
    if not c.output_bound_present then none else some (estimated_tokens c)
estimated_tokens_for_kind c total =
    if not c.output_bound_present then none else some (estimated_tokens c)
estimated_tokens_for_kind c output =
    if not c.output_bound_present then none else some (max_ℤ c.output_bound (pos 0))
estimated_tokens_for_kind c (other_kind k) = none

-- `float64(math.MaxInt64)`.
abbrev two_63 : ℕ
two_63 = 9223372036854775808

abbrev pub million : ℕ
million = 1000000

-- `float64(math.MaxInt64)/1_000_000`.
pub max_usd : Float64
unfolding Float.div_fin
max_usd = Float.div_fin (pos (two_63 * Float.one_in_units)) (pos (million * Float.one_in_units))

-- `math.Ceil(value * 1_000_000)` and the conversion, for a product that is not negative.
scaled : Float64 → Option ℤ
unfolding Float.ceil Float.to_int64 Float.lt
scaled (fin (pos n)) =
    let whole = Float.ceil n in
    if Float.lt (fin (pos (two_63 * Float.one_in_units))) (fin (pos (whole * Float.one_in_units)))
    then none
    else some (Float.to_int64 whole)
scaled _ = none

-- `MicroUSDFromUSD`: `none` is the result (0, false).
unfoldable pub micro_usd_from_usd : Float64 → Option ℤ
unfolding max_usd scaled Float.mul_fin Float.lt
micro_usd_from_usd nan = none
micro_usd_from_usd (inf s) = none
micro_usd_from_usd (fin x) =
    if Float.lt (fin x) (fin (pos 0)) || Float.lt max_usd (fin x)
    then none
    else scaled (Float.mul_fin x (pos (million * Float.one_in_units)))

-- `ConservativeCostMicroUSD`, from the minimum that the dollar estimate gives.
abbrev at_least : ℤ → Option ℤ → Option ℤ
at_least cost none = none
at_least cost (some minimum) =
    if eqb_ℤ cost (pos 0) then some minimum else if ltb_ℤ cost minimum then none else some cost

unfoldable pub conservative_cost_micro_usd : Context → Option ℤ
conservative_cost_micro_usd c =
    if not c.cost_known || ltb_ℤ c.estimated_cost_micro_usd (pos 0)
    then none
    else at_least c.estimated_cost_micro_usd (micro_usd_from_usd c.estimated_cost_usd)
