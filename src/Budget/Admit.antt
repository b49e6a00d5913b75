-- ===== src/Budget/Admit.antt =====
-- internal/budget/budget.go, `Guard.Admit`, and `Release` and `Settle` of a reservation.
pub mod Granted
pub mod Respected
pub mod Trace
use burnban.Prelude.{
  ℕ, zero, suc, ◌+◌, ◌-◌, String, Bool, true, false, not, ◌&&◌, ◌||◌, Option, none, some, List, [],
  ◌∷◌, ◌++◌, map, str_eq, is_empty, codes, chain, if◌then◌else◌, Unicode,
}
use burnban.Prelude.Int.{negsuc, ℤ, pos, ◌+ℤ◌, ltb_ℤ, leb_ℤ, eqb_ℤ}
use burnban.Float
use burnban.Float.{Float64}
use burnban.Budget.Caps.{
  Window, windows, zero_usd, parse_cap, Increases, of_window, ExternalException,
  expired_external_increases, subtract_expired_increase,
}
use burnban.Budget.Positions.{
  Baseline, BudgetUsage, Calls, CapPosition, Check, Denial, Fanout, FuseRule, Guard, Settings,
  Source, agent, agent_cap_reached, banned, cap_reached, denied, external, external_ban,
  external_cap_reached, failed, filled, first_denial, fuse, fuse_crossed, inflight_headroom,
  is_fuse, local, metering_gap, or_denial, passed, reached, remaining, request_exceeds_remaining,
  reserved_for, tripped, unpriced_request, verdict,
}
use burnban.Budget.Check.{
  CapCheck, agent_checks, all_checks, baseline_position, check_caps, check_locked, check_of,
  denied_or, fanout_crossed, fuse_check, in_force, judge, or_failed, position_of, positions_of,
  read_checks, window_checks,
}

-- `USD`, `Priced` and `Bounded` of an estimate.
pub record AdmissionEstimate : Type 0 where
  pub usd : Float64
  pub priced : Bool
  pub bounded : Bool

pub record Reservation : Type 0 where
  pub agent : String
  pub amount : Float64
  pub cap_active : Bool
  pub done : Bool

-- 1e-12, to the nearest unit.
abbrev pub slack : Float64
slack = Float.div_fin (pos 1) (pos 1_000_000_000_000)

unfoldable pub crosses : Float64 → CapPosition → Bool
unfolding Float.lt Float.add Float.div_fin remaining
crosses amount p = Float.lt (Float.add (remaining p) slack) amount

unfoldable pub first_crossed : Float64 → List CapPosition → Option CapPosition
unfolding crosses
first_crossed amount [] = none
first_crossed amount (p ∷ rest) =
    let later = first_crossed amount rest in if crosses amount p then some p else later

unfoldable pub max_from : Float64 → List CapPosition → Float64
unfolding Float.max remaining
max_from out [] = out
max_from out (p ∷ rest) = max_from (Float.max out (remaining p)) rest

unfoldable pub max_remaining : List CapPosition → Float64
unfolding max_from Float.max
max_remaining positions = Float.max zero_usd (max_from zero_usd positions)

unfoldable pub set_reserved : String → Float64 → List (String × Float64) → List (String × Float64)
set_reserved name v [] = (name, v) ∷ []
set_reserved name v ((a, w) ∷ rest) =
    if str_eq a name then (name, v) ∷ rest else (a, w) ∷ set_reserved name v rest

unfoldable pub delete_reserved : String → List (String × Float64) → List (String × Float64)
delete_reserved name [] = []
delete_reserved name ((a, w) ∷ rest) =
    let others = delete_reserved name rest in if str_eq a name then others else (a, w) ∷ others

pub data Admission : Type 0 where
  refused : Admission
  turned_away : Denial → Admission
  admitted : Guard → Reservation → Admission

-- The last steps of `Admit`: the amount is reserved, in all and for the agent.
unfoldable pub reserve : Guard → String → Float64 → Bool → Admission
unfolding Float.add reserved_for set_reserved
reserve g name amount active =
    admitted
      (record {
        reserved_usd = Float.add g.reserved_usd amount;
        reserved_by_agent =
            if is_empty (codes name)
            then g.reserved_by_agent
            else set_reserved name (Float.add (reserved_for name g.reserved_by_agent) amount)
                g.reserved_by_agent;
        in_flight = suc g.in_flight;
      })
      (record { agent = name; amount = amount; cap_active = active; done = false })

-- The refusal of a bounded request by the position that it crosses.
abbrev pub exceeds : CapPosition → Denial
exceeds p = if is_fuse p.source then fuse_crossed else request_exceeds_remaining

abbrev pub fits_or : Option CapPosition → Admission → Admission
fits_or none next = next
fits_or (some p) next = turned_away (exceeds p)

-- `Admit` behind the check, with the positions that are active.
unfoldable pub admit_with : Guard → String → AdmissionEstimate → List CapPosition → Admission
unfolding first_crossed max_remaining reserve
admit_with g name estimate positions =
    if is_empty positions
    then reserve g name zero_usd false
    else if not estimate.priced
    then turned_away unpriced_request
    else if estimate.bounded
    then fits_or (first_crossed estimate.usd positions) (reserve g name estimate.usd true)
    else reserve g name (max_remaining positions) true

abbrev pub admit_checked : Guard → String → AdmissionEstimate → Check → Admission
admit_checked g name estimate failed = refused
admit_checked g name estimate (denied d) = turned_away d
admit_checked g name estimate (passed positions) = admit_with g name estimate positions

unfoldable pub admit : Calls → Settings → Guard → ℤ → String → AdmissionEstimate → Admission
unfolding check_locked admit_with Float.is_nan Float.is_inf Float.lt
admit calls s g now name estimate =
    if Float.is_nan estimate.usd || Float.is_inf estimate.usd || Float.lt estimate.usd zero_usd
    then refused
    else admit_checked g name estimate (check_locked calls s g now name)

unfoldable pub release_agent : Reservation → List (String × Float64) → List (String × Float64)
unfolding Float.max Float.sub Float.equal reserved_for set_reserved delete_reserved
release_agent r m =
    let left = Float.max zero_usd (Float.sub (reserved_for r.agent m) r.amount) in
    if is_empty (codes r.agent)
    then m
    else if Float.equal left zero_usd
    then delete_reserved r.agent m
    else set_reserved r.agent left m

-- The guard without the reserved amount, and with one call less in flight.
unfoldable pub released : Guard → Reservation → Guard
unfolding Float.max Float.sub release_agent
released g r = record {
  reserved_usd = Float.max zero_usd (Float.sub g.reserved_usd r.amount);
  reserved_by_agent = release_agent r g.reserved_by_agent;
  in_flight = g.in_flight - 1;
}

unfoldable pub release_locked : Guard → Reservation → Guard × Reservation
unfolding released
release_locked g r = if r.done then (g, r) else (released g r, record r { done = true })

-- The request that a reservation is settled with.
pub record Settled : Type 0 where
  pub agent : String
  pub ts : ℤ
  pub cost_usd : Float64

-- `time.Time{}`: the first second of the year 1, in nanoseconds before 1970.
abbrev pub zero_time : ℤ
zero_time = negsuc 62_135_596_799_999_999_999

abbrev pub settled_ok : Reservation → Settled → Bool
settled_ok r request =
    str_eq request.agent r.agent
    && not (eqb_ℤ request.ts zero_time)
    && not (Float.is_nan request.cost_usd)
    && not (Float.is_inf request.cost_usd)
    && not (Float.lt request.cost_usd zero_usd)

-- `Settle`, where the ledger's insert succeeds or not. The flag is false for an error, and then the
-- reservation is held on.
unfoldable pub settle : Guard → Reservation → Settled → Bool → Bool × Guard × Reservation
unfolding release_locked Float.is_nan Float.is_inf Float.lt
settle g r request inserted =
    if not (settled_ok r request)
    then (false, g, r)
    else if r.done
    then (true, g, r)
    else if inserted
    then (true, (release_locked g r).0, (release_locked g r).1)
    else (false, g, r)
