-- ===== src/Downshift/TargetCost.antt =====
-- internal/downshift/simulate.go: what a past request would have cost on the target.
use burnban.Prelude.{
  String, Bool, not, ◌&&◌, ◌||◌, Option, none, some, str_eq, guard, chain, if◌then◌else◌,
}
use burnban.Prelude.Int.{ℤ, pos, ◌+ℤ◌, ◌-ℤ◌, leb_ℤ, ltb_ℤ, max_ℤ, max_int64}
use burnban.Float
use burnban.Float.{Float64, of_int}
use burnban.Pricing.Types.{Go}
use burnban.Pricing.Cost.{cost}
use burnban.Pricing.Resolve.{Resolution}
use burnban.Downshift.History.{Row}

unfoldable pub invalid_cost : Float64 → Bool
unfolding Float.lt Float.is_nan Float.is_inf of_int
invalid_cost value =
    Float.lt value (of_int 0)
    || Float.lt (of_int 1_000_000_000_000) value
    || Float.is_nan value
    || Float.is_inf value

abbrev pub valid_cost : Float64 → Option Float64
valid_cost c = guard (not (invalid_cost c)) (some c)

-- No count is negative, and the sum of the input is an int64.
unfoldable pub usage_ok : Row → Bool
unfolding ◌-ℤ◌ ◌+ℤ◌
usage_ok row =
    leb_ℤ (pos 0) row.usage.input
    && leb_ℤ (pos 0) row.usage.output
    && leb_ℤ (pos 0) row.usage.cache_read
    && leb_ℤ (pos 0) row.usage.cache_write
    && leb_ℤ (pos 0) row.cache_write_1h_tokens
    && leb_ℤ row.usage.input (pos max_int64 -ℤ row.usage.cache_read)
    && leb_ℤ (row.usage.input +ℤ row.usage.cache_read) (pos max_int64 -ℤ row.usage.cache_write)

abbrev pub min_ℤ : ℤ → ℤ → ℤ
min_ℤ a b = if leb_ℤ a b then a else b

module _ (go : Go) where
  unfoldable pub standard_tier : String → Bool
  standard_tier tier =
      let t = go.to_lower (go.trim_space tier) in
      str_eq t "" || str_eq t "default" || str_eq t "standard" || str_eq t "standard_only"

  -- The surcharge of tokens that a cache keeps for an hour.
  unfoldable pub hour_cost : Resolution → Row → Float64 → Float64
  unfolding ◌+ℤ◌ Float.add Float.sub Float.mul Float.div Float.of_int64 Float.lt of_int
  hour_cost resolved row base =
      let one_hour =
        min_ℤ (max_ℤ row.cache_write_1h_tokens (pos 0)) (max_ℤ row.usage.cache_write (pos 0)) in
      let total = row.usage.input +ℤ row.usage.cache_read +ℤ row.usage.cache_write in
      let p = resolved.price in
      let multiplier =
        if ltb_ℤ (pos 0) p.long_context_threshold
          && ltb_ℤ p.long_context_threshold total
          && Float.lt (of_int 0) p.long_input_mult
        then p.long_input_mult
        else of_int 1 in
      if ltb_ℤ (pos 0) one_hour
      then Float.add base (
          Float.div
            (Float.mul
              (Float.mul (Float.mul (Float.of_int64 one_hour) p.input_per_mtok)
                (Float.sub (of_int 2) p.cache_write_mult))
              multiplier)
            (of_int 1_000_000))
      else base

  unfoldable pub region_cost : Resolution → Row → Float64 → Option Float64
  unfolding Float.mul Float.of_ratio
  region_cost resolved row base =
      let geo = go.to_lower (go.trim_space row.inference_geo) in
      if resolved.covers_region || str_eq geo "" || str_eq geo "global"
      then some base
      else if str_eq geo "us"
      then some (Float.mul base (Float.of_ratio 11 10))
      else none

  unfoldable pub historical_target_cost : Resolution → Row → Option Float64
  unfolding usage_ok standard_tier hour_cost region_cost invalid_cost cost
  historical_target_cost resolved row =
      guard (usage_ok row && (resolved.covers_tier || standard_tier row.service_tier)) (
        chain (region_cost resolved row (hour_cost resolved row (cost resolved.price row.usage)))
          valid_cost)
