-- ===== src/Budget/Positions.antt =====
-- internal/budget/budget.go, `capPosition` and the data of `Guard`, and the denial of a position in
-- `checkLocked`. Amounts are float64 dollars. The texts of the denials are
-- left out; `fuse_crossed` is what `tripFuseLocked` answers, whose write of the trip to the settings is
-- left out too.
use burnban.Prelude.{
  ℕ, String, Bool, true, false, not, ◌&&◌, Option, none, some, List, [], ◌∷◌, str_eq, if◌then◌else◌,
  Unicode,
}
use burnban.Prelude.Int.{ℤ, pos, ltb_ℤ}
use burnban.Float
use burnban.Float.{Float64}
use burnban.Budget.Caps.{Window, zero_usd, ExternalException}

pub data Source : Type 0 where
  local external fuse agent : Source

pub record CapPosition : Type 0 where
  pub source : Source
  pub cap : Float64
  pub spent : Float64
  pub reserved : Float64
  pub unsafe : ℤ

pub record BudgetUsage : Type 0 where
  pub spent_usd : Float64
  pub requests : ℤ
  pub enforcement_gaps : ℤ

pub record FuseRule : Type 0 where
  pub start : ℤ
  pub cap_usd : Float64

-- The request-count fuse: the start of its window and its limit.
pub record Fanout : Type 0 where
  pub start : ℤ
  pub limit : ℤ

-- The fuse on the same slot of past days. Its limit, from the median of those, may fail to be read.
pub record Baseline : Type 0 where
  pub start : ℤ
  pub limit : Option Float64

-- The settings and the calendar at one instant. `none` in the fuse's fields is a setting that cannot be
-- parsed.
pub record Settings : Type 0 where
  pub ban_active : String
  pub external_ban_active : String
  pub override_local : Bool
  pub exceptions : Option (List ExternalException)
  pub trip_until : Option (Option ℤ)
  pub fuses : Option (List FuseRule)
  pub baseline : Option (Option Baseline)
  pub fanout : Option (Option Fanout)
  pub local_cap : Window → String
  pub external_cap : Window → String
  pub agent_cap : String
  pub local_start : Window → ℤ
  pub external_start : Window → ℤ
  pub day_start : ℤ

-- The calls of other code: the parsing of a number, the Unicode tables, and the usage since a time, of
-- everyone (the empty name) or of an agent. `none` is an error.
pub record Calls : Type 0 where
  pub parse_float : String → Option Float64
  pub unicode : Unicode
  pub usage_since : ℤ → String → Option BudgetUsage

pub record Guard : Type 0 where
  pub reserved_usd : Float64
  pub reserved_by_agent : List (String × Float64)
  pub in_flight : ℕ

pub data Denial : Type 0 where
  banned external_ban tripped metering_gap external_cap_reached cap_reached inflight_headroom
        fuse_crossed agent_cap_reached unpriced_request request_exceeds_remaining :
      Denial

pub data Check : Type 0 where
  failed : Check
  denied : Denial → Check
  passed : List CapPosition → Check

unfoldable pub remaining : CapPosition → Float64
unfolding Float.sub
remaining p = Float.sub (Float.sub p.cap p.spent) p.reserved

unfoldable pub reserved_for : String → List (String × Float64) → Float64
reserved_for name [] = zero_usd
reserved_for name ((a, v) ∷ rest) =
    let later = reserved_for name rest in if str_eq a name then v else later

abbrev pub is_fuse : Source → Bool
is_fuse fuse = true
is_fuse s = false

-- The denial of a position that its durable spend has reached.
abbrev pub reached : Source → Denial
reached local = cap_reached
reached external = external_cap_reached
reached s = agent_cap_reached

-- The denial of a position that only work in flight has filled. A fuse trips on both.
abbrev pub filled : Source → Denial
filled fuse = fuse_crossed
filled s = inflight_headroom

unfoldable pub verdict : CapPosition → Option Denial
unfolding Float.le Float.add
verdict p =
    if ltb_ℤ (pos 0) p.unsafe
    then some metering_gap
    else if not (is_fuse p.source) && Float.le p.cap p.spent
    then some (reached p.source)
    else if Float.le p.cap (Float.add p.spent p.reserved)
    then some (filled p.source)
    else none

-- The first denial of two.
abbrev pub or_denial : Option Denial → Option Denial → Option Denial
or_denial none later = later
or_denial (some d) later = some d

unfoldable pub first_denial : List CapPosition → Option Denial
unfolding verdict
first_denial [] = none
first_denial (p ∷ rest) = or_denial (verdict p) (first_denial rest)
