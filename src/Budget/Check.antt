-- ===== src/Budget/Check.antt =====
-- internal/budget/budget.go, `Guard.checkLocked`. What a window has used is the ledger's answer: the
-- cache of warm windows in front of it and the parsing of the fuse's settings (fuse.go) are left out.
pub mod Enforced
use burnban.Prelude.{
  ℕ, zero, suc, ◌+◌, ◌-◌, String, Bool, true, false, not, ◌&&◌, ◌||◌, Option, none, some, List, [],
  ◌∷◌, ◌++◌, map, str_eq, is_empty, codes, chain, if◌then◌else◌, Unicode,
}
use burnban.Prelude.Int.{add64, ℤ, pos, ◌+ℤ◌, ltb_ℤ, leb_ℤ, eqb_ℤ}
use burnban.Float
use burnban.Float.{Float64}
use burnban.Budget.Caps.{
  Window, windows, zero_usd, parse_cap, Increases, of_window, ExternalException,
  expired_external_increases, subtract_expired_increase,
}
use burnban.Budget.Positions.{
  Baseline, BudgetUsage, Calls, CapPosition, Check, Denial, Fanout, FuseRule, Guard, Settings,
  Source, agent, agent_cap_reached, banned, cap_reached, denied, external, external_ban,
  external_cap_reached, failed, filled, first_denial, fuse, fuse_crossed, inflight_headroom,
  is_fuse, local, metering_gap, or_denial, passed, reached, remaining, request_exceeds_remaining,
  reserved_for, tripped, unpriced_request, verdict,
}

-- A set cap, with the start of its window.
pub record CapCheck : Type 0 where
  pub source : Source
  pub cap : Float64
  pub start : ℤ

abbrev pub check_of : Source → ℤ → Option Float64 → List CapCheck
check_of source start none = []
check_of source start (some cap) = record { source = source; cap = cap; start = start } ∷ []

-- The local and then the external cap of a window. A local cap counts for nothing under an override.
unfoldable pub window_checks : Calls → Settings → Increases → Window → Option (List CapCheck)
unfolding parse_cap subtract_expired_increase
window_checks calls s expired w = chain (parse_cap calls.parse_float (s.local_cap w)) λ own.
    chain (parse_cap calls.parse_float (s.external_cap w)) λ outer.
      chain (subtract_expired_increase outer (of_window w expired)) λ effective. some (
        check_of local (s.local_start w) (if s.override_local then none else own)
        ++ check_of external (s.external_start w) effective)

unfoldable pub all_checks : Calls → Settings → Increases → List Window → Option (List CapCheck)
unfolding window_checks
all_checks calls s expired [] = some []
all_checks calls s expired (w ∷ rest) =
    chain (window_checks calls s expired w)
      λ checks. chain (all_checks calls s expired rest) λ more. some (checks ++ more)

abbrev pub fuse_check : FuseRule → CapCheck
fuse_check rule = record { source = fuse; cap = rule.cap_usd; start = rule.start }

-- The agent's own daily cap.
unfoldable pub agent_checks : Calls → Settings → String → Option (List CapCheck)
unfolding parse_cap
agent_checks calls s name =
    if is_empty (codes name) || s.override_local
    then some []
    else (chain (parse_cap calls.parse_float s.agent_cap)
        λ cap. some (check_of agent s.day_start cap))

abbrev pub position_of : Source → Float64 → Float64 → BudgetUsage → CapPosition
position_of source cap reserved usage = record {
  source = source;
  cap = cap;
  spent = usage.spent_usd;
  reserved = reserved;
  unsafe = usage.enforcement_gaps;
}

unfoldable pub positions_of : Calls → Float64 → String → List CapCheck → Option (List CapPosition)
positions_of calls reserved name [] = some []
positions_of calls reserved name (c ∷ rest) = chain (calls.usage_since c.start name) λ usage.
    chain (positions_of calls reserved name rest)
      λ more. some (position_of c.source c.cap reserved usage ∷ more)

-- The baseline's position: the outer `none` is an error of the ledger, the inner one of the limit.
unfoldable pub baseline_position :
    Calls → Float64 → Option Baseline → Option (Option (List CapPosition))
baseline_position calls reserved none = some (some [])
baseline_position calls reserved (some b) =
    chain (calls.usage_since b.start "")
      λ usage. some (chain b.limit λ cap. some (position_of fuse cap reserved usage ∷ []))

-- Whether the requests of the window and those in flight have reached the fanout's limit.
unfoldable pub fanout_crossed : Calls → Guard → Option Fanout → Option Bool
unfolding add64
fanout_crossed calls g none = some false
fanout_crossed calls g (some f) =
    chain (calls.usage_since f.start "")
      λ usage. some (leb_ℤ f.limit (add64 usage.requests (pos g.in_flight)))

abbrev pub denied_or : Option Denial → Check → Check
denied_or none next = next
denied_or (some d) next = denied d

abbrev pub or_failed : {A : Type 0} → Option A → (A → Check) → Check
or_failed none next = failed
or_failed (some a) next = next a

-- The global positions in order, then the baseline, the fanout, and the agent's own cap.
abbrev pub judge : List CapPosition → Option (List CapPosition) → Bool → List CapPosition → Check
judge global base crossed own = denied_or (first_denial global) (
    or_failed base λ slot. denied_or (first_denial slot) (
      if crossed
      then denied fuse_crossed
      else denied_or (first_denial own) (passed (global ++ slot ++ own))))

-- The checks that the settings name: caps and rolling fuses, and the agent's.
unfoldable pub read_checks :
    Calls → Settings → String → Increases → Option (List CapCheck × List CapCheck)
unfolding all_checks agent_checks
read_checks calls s name expired = chain s.fuses λ fuses.
    chain (all_checks calls s expired windows)
      λ caps. chain (agent_checks calls s name) λ own. some (caps ++ map fuse_check fuses, own)

-- The part of `checkLocked` behind the bans and the trip.
unfoldable pub check_caps : Calls → Settings → Guard → String → Increases → Check
unfolding read_checks positions_of baseline_position fanout_crossed first_denial reserved_for
check_caps calls s g name expired = or_failed (read_checks calls s name expired) λ checks.
    or_failed s.baseline λ baseline. or_failed s.fanout λ fanout.
      or_failed (positions_of calls g.reserved_usd "" checks.0) λ global.
        or_failed (baseline_position calls g.reserved_usd baseline) λ base.
          or_failed (fanout_crossed calls g fanout) λ crossed.
            or_failed (positions_of calls (reserved_for name g.reserved_by_agent) name checks.1)
              λ own. judge global base crossed own

abbrev pub in_force : ℤ → Option ℤ → Bool
in_force now none = false
in_force now (some until) = ltb_ℤ now until

unfoldable pub check_locked : Calls → Settings → Guard → ℤ → String → Check
unfolding expired_external_increases check_caps
check_locked calls s g now name =
    or_failed (expired_external_increases calls.unicode now s.exceptions) λ expired.
      if str_eq s.ban_active "1"
      then denied banned
      else if str_eq s.external_ban_active "1"
      then denied external_ban
      else (or_failed s.trip_until
          λ trip. if in_force now trip then denied tripped else check_caps calls s g name expired)
