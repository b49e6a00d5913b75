-- ===== src/Pricing/Cost.antt =====
-- internal/pricing/pricing.go: what usage costs at a price.
use burnban.Prelude.{Bool, ◌&&◌, if◌then◌else◌}
use burnban.Prelude.Int.{ℤ, pos, ltb_ℤ, max_ℤ}
use burnban.Float
use burnban.Float.{Float64, of_int}
use burnban.Pricing.Types.{Price}

-- Token counts: full-price input and output, and what a cache read and wrote.
pub record Usage : Type 0 where
  pub input : ℤ
  pub output : ℤ
  pub cache_read : ℤ
  pub cache_write : ℤ

-- `max(n, 0)` of each.
unfoldable pub at_least_zero : Usage → Usage
at_least_zero u = record {
  input = max_ℤ u.input (pos 0);
  output = max_ℤ u.output (pos 0);
  cache_read = max_ℤ u.cache_read (pos 0);
  cache_write = max_ℤ u.cache_write (pos 0);
}

unfoldable pub base_cost : Price → Usage → Float64 → Float64 → Float64
unfolding Float.add Float.mul Float.div Float.of_int64 of_int
base_cost p u input_mult output_mult =
    let rate = Float.mul (Float.of_int64 u.input) p.input_per_mtok in
    let read = Float.mul (Float.of_int64 u.cache_read) p.input_per_mtok in
    let write = Float.mul (Float.of_int64 u.cache_write) p.input_per_mtok in
    Float.div
      (Float.add
        (Float.add
          (Float.add (Float.mul rate input_mult)
            (Float.mul (Float.mul (Float.of_int64 u.output) p.output_per_mtok) output_mult))
          (Float.mul (Float.mul read p.cache_read_mult) input_mult))
        (Float.mul (Float.mul write p.cache_write_mult) input_mult))
      (of_int 1_000_000)

unfoldable pub total_input : Usage → Float64
unfolding Float.add Float.of_int64
total_input u =
    Float.add (Float.add (Float.of_int64 u.input) (Float.of_int64 u.cache_read))
      (Float.of_int64 u.cache_write)

unfoldable pub is_long : Price → Float64 → Bool
unfolding Float.lt Float.of_int64
is_long p total =
    ltb_ℤ (pos 0) p.long_context_threshold
    && Float.lt (Float.of_int64 p.long_context_threshold) total

-- A multiplier of the long context, where it is set.
unfoldable pub long_mult : Bool → Float64 → Float64
unfolding Float.lt of_int
long_mult long mult = if long && Float.lt (of_int 0) mult then mult else of_int 1

unfoldable pub cost : Price → Usage → Float64
unfolding at_least_zero base_cost total_input is_long long_mult
cost p usage =
    let u = at_least_zero usage in
    let long = is_long p (total_input u) in
    base_cost p u (long_mult long p.long_input_mult) (long_mult long p.long_output_mult)

-- `if mult <= 0 { mult = 1 }`.
unfoldable pub or_full : Float64 → Float64
unfolding Float.le of_int
or_full mult = if Float.le mult (of_int 0) then of_int 1 else mult

unfoldable pub with_cache_tiers : Price → Price
unfolding or_full
with_cache_tiers p = record p {
  cache_read_mult = or_full p.cache_read_mult;
  cache_write_mult = or_full p.cache_write_mult;
}

unfoldable pub reprice : Price → Usage → Float64
unfolding with_cache_tiers at_least_zero base_cost of_int
reprice p usage = base_cost (with_cache_tiers p) (at_least_zero usage) (of_int 1) (of_int 1)

unfoldable pub reprice_request : Price → Usage → Float64
unfolding with_cache_tiers cost
reprice_request p usage = cost (with_cache_tiers p) usage
