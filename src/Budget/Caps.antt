-- ===== src/Budget/Caps.antt =====
-- internal/budget/budget.go: the caps of the calendar windows, as `checkLocked` reads them from the
-- settings. `parse_float` is `strconv.ParseFloat`. Every error is `none`; its text is left out.
pub mod Positive
use burnban.Prelude.{
  String, Bool, true, false, not, ◌&&◌, ◌||◌, Option, none, some, List, [], ◌∷◌, codes, str_eq, leb,
  is_empty, any, length, guard, chain, Unicode, is_trimmed, byte_len, if◌then◌else◌, ◌==◌, ℕ,
}
use burnban.Prelude.Int.{ℤ, leb_ℤ}
use burnban.Float
use burnban.Float.{Float64, of_int}

pub data Window : Type 0 where
  daily weekly monthly : Window

abbrev pub windows : List Window
windows = daily ∷ weekly ∷ monthly ∷ []

abbrev pub zero_usd : Float64
zero_usd = Float.fin (ℤ.pos 0)

-- `parseCap`: `some none` where the cap is unset, and a cap that is not above zero counts as unset.
unfoldable pub parse_cap : (String → Option Float64) → String → Option (Option Float64)
unfolding Float.le Float.is_nan Float.is_inf
parse_cap parse_float text =
    if is_empty (codes text)
    then some none
    else (chain (parse_float text) λ v.
        if Float.is_nan v || Float.is_inf v
        then none
        else if Float.le v zero_usd
        then some none
        else some (some v))

-- An entry of the decoded schedule of temporary increases. `valid_until` is `none` where its text is
-- not the RFC 3339 print of the time it names.
pub record ExternalException : Type 0 where
  pub request_id : String
  pub window : Option Window
  pub amount_usd : Float64
  pub valid_until : Option ℤ

unfoldable pub exception_ok : Unicode → ExternalException → Bool
unfolding Float.is_nan Float.is_inf Float.le Float.lt Float.of_int
exception_ok u item =
    is_trimmed u (codes item.request_id)
    && not (is_empty (codes item.request_id))
    && leb (byte_len (codes item.request_id)) 100
    && not (Float.is_nan item.amount_usd)
    && not (Float.is_inf item.amount_usd)
    && not (Float.le item.amount_usd zero_usd)
    && not (Float.lt (of_int 1_000_000_000) item.amount_usd)

pub record Increases : Type 0 where
  pub daily_usd : Float64
  pub weekly_usd : Float64
  pub monthly_usd : Float64

abbrev pub of_window : Window → Increases → Float64
of_window daily out = out.daily_usd
of_window weekly out = out.weekly_usd
of_window monthly out = out.monthly_usd

abbrev pub with_window : Window → Float64 → Increases → Increases
with_window daily v out = record out { daily_usd = v }
with_window weekly v out = record out { weekly_usd = v }
with_window monthly v out = record out { monthly_usd = v }

abbrev pub no_increases : Increases
no_increases = record { daily_usd = zero_usd; weekly_usd = zero_usd; monthly_usd = zero_usd }

-- The total of a window with one more expired increase; above 1e12 it is refused.
unfoldable pub add_expired : Window → Float64 → Increases → Option Increases
unfolding Float.add Float.is_inf Float.lt Float.of_int
add_expired window amount out =
    let next = Float.add (of_window window out) amount in
    guard (not (Float.is_inf next) && not (Float.lt (of_int 1_000_000_000_000) next))
      (some (with_window window next out))

-- The loop of `expiredExternalIncreases`, after the requests `seen`.
unfoldable pub expired_from :
    Unicode → ℤ → List String → Increases → List ExternalException → Option Increases
unfolding exception_ok add_expired
expired_from u now seen out [] = some out
expired_from u now seen out (item ∷ rest) = chain item.window λ window.
    guard (exception_ok u item && not (any (str_eq item.request_id) seen)) (
      chain item.valid_until λ until.
        if leb_ℤ until now
        then (chain (add_expired window item.amount_usd out)
            λ next. expired_from u now (item.request_id ∷ seen) next rest)
        else expired_from u now (item.request_id ∷ seen) out rest)

-- `exceptions` is the decoded schedule: `none` where its JSON or its version is refused, and the empty list where there is none.
unfoldable pub expired_external_increases :
    Unicode → ℤ → Option (List ExternalException) → Option Increases
unfolding expired_from
expired_external_increases u now exceptions =
    chain exceptions
      λ items. guard (leb (length items) 1000) (expired_from u now [] no_increases items)

abbrev pub above_zero : Float64 → Bool
above_zero v = not (Float.is_nan v) && not (Float.is_inf v) && not (Float.le v zero_usd)

unfoldable pub subtract_expired_increase : Option Float64 → Float64 → Option (Option Float64)
unfolding Float.equal Float.lt Float.sub Float.is_nan Float.is_inf Float.le
subtract_expired_increase external expired =
    if Float.equal expired zero_usd
    then some external
    else (chain external λ cap.
        guard (not (Float.lt cap expired) && above_zero (Float.sub cap expired))
          (some (some (Float.sub cap expired))))
