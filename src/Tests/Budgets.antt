-- ===== src/Tests/Budgets.antt =====
-- Requests under a daily cap of ten dollars, a local one and an external one.
use burnban.Prelude.{
  ℕ, ◌*◌, ◌≡◌, refl, String, true, false, Option, none, some, [], ◌∷◌, str_eq, if◌then◌else◌,
}
use burnban.Prelude.Int.{ℤ, pos}
use burnban.Float
use burnban.Float.{Float64, of_int}
use burnban.Budget.Caps.{
  Window, daily, zero_usd, parse_cap, no_increases, of_window, above_zero,
  expired_external_increases, subtract_expired_increase,
}
use burnban.Budget.Caps.Positive.{caps_above_zero}
use burnban.Budget.Positions.{Calls, Settings, Guard, BudgetUsage, local, external}
use burnban.Budget.Admit.{
  Reservation, AdmissionEstimate, Admission, admitted, admit, release_locked, settle, Settled,
}
use burnban.Budget.Check.{position_of, in_force}
use burnban.Budget.Check.Enforced.{IsOpen}
use burnban.Budget.Admit.Respected.{Fits, admit_local_cap, admit_external_cap, admit_no_ban}
use burnban.Budget.Admit.Trace.{
  Reached, new_guard, count_open, Reached-in_flight, release_locked_once,
}
use burnban.Tests.Data.{ascii}

abbrev dollars : ℕ → Float64
dollars n = Float.fin (pos (n * Float.one_in_units))

abbrev used : BudgetUsage
used = record { spent_usd = dollars 3; requests = pos 1; enforcement_gaps = pos 0 }

abbrev calls : Calls
calls = record {
  parse_float = λ s. if str_eq s "10" then some (dollars 10) else none;
  unicode = ascii;
  usage_since = λ t name. some used;
}

abbrev daily_ten : Window → String
daily_ten daily = "10"
daily_ten w = ""

abbrev settings : Settings
settings = record {
  ban_active = "";
  external_ban_active = "";
  override_local = false;
  exceptions = some [];
  trip_until = some none;
  fuses = some [];
  baseline = some none;
  fanout = some none;
  local_cap = daily_ten;
  external_cap = daily_ten;
  agent_cap = "";
  local_start = λ w. pos 100;
  external_start = λ w. pos 90;
  day_start = pos 100;
}

abbrev two_dollars : AdmissionEstimate
two_dollars = record { usd = dollars 2; priced = true; bounded = true }

abbrev after : Guard
after = record { reserved_usd = dollars 2; reserved_by_agent = []; in_flight = 1 }

abbrev reservation : Reservation
reservation = record { agent = ""; amount = dollars 2; cap_active = true; done = false }

granted : admit calls settings new_guard (pos 200) "" two_dollars ≡ admitted after reservation
unfolding admit
granted = refl

ten : parse_cap calls.parse_float "10" ≡ some (some (dollars 10))
unfolding parse_cap
ten = refl

admit_local_cap_example :
    (usage : BudgetUsage) × (some used ≡ some usage)
    × IsOpen (position_of local (dollars 10) zero_usd usage)
    × Fits two_dollars reservation (position_of local (dollars 10) zero_usd usage)
admit_local_cap_example =
    admit_local_cap calls settings new_guard (pos 200) "" two_dollars after reservation daily
      (dollars 10) ten refl granted

nothing_expired : expired_external_increases ascii (pos 200) (some []) ≡ some no_increases
unfolding expired_external_increases
nothing_expired = refl

same_cap :
    subtract_expired_increase (some (dollars 10)) (of_window daily no_increases)
    ≡ some (some (dollars 10))
unfolding subtract_expired_increase
same_cap = refl

admit_external_cap_example :
    (usage : BudgetUsage) × (some used ≡ some usage)
    × IsOpen (position_of external (dollars 10) zero_usd usage)
    × Fits two_dollars reservation (position_of external (dollars 10) zero_usd usage)
admit_external_cap_example =
    admit_external_cap calls settings new_guard (pos 200) "" two_dollars after reservation daily
      (some (dollars 10)) (dollars 10) no_increases ten nothing_expired same_cap granted

admitted_without_ban :
    (str_eq settings.ban_active "1" ≡ false)
    × (str_eq settings.external_ban_active "1" ≡ false)
    × (trip : Option ℤ) × (some none ≡ some trip)
    × (in_force (pos 200) trip ≡ false)
admitted_without_ban =
    admit_no_ban calls settings new_guard (pos 200) "" two_dollars after reservation granted

ten_dollars_above_zero : (above_zero (dollars 10) ≡ true) × (above_zero (dollars 10) ≡ true)
ten_dollars_above_zero =
    caps_above_zero calls.parse_float "10" (dollars 10) zero_usd (dollars 10) ten same_cap

abbrev closed : Guard × Reservation
closed = release_locked after reservation

reached : Reached closed.0 (closed.1 ∷ [])
reached =
    Reached.releases after reservation [] [] refl
      (Reached.admits new_guard calls settings (pos 200) "" two_dollars Reached.start granted)

Reached-in_flight_example : closed.0.in_flight ≡ count_open (closed.1 ∷ [])
Reached-in_flight_example = Reached-in_flight closed.0 (closed.1 ∷ []) reached

abbrev paid : Settled
paid = record { agent = ""; ts = pos 300; cost_usd = dollars 1 }

paid_is_released_once :
    (closed.1.done ≡ true)
    × (release_locked after closed.1 ≡ (after, closed.1))
    × ((settle after closed.1 paid true).1 ≡ after)
    × ((settle after closed.1 paid true).2 ≡ closed.1)
paid_is_released_once = release_locked_once after after reservation paid true

-- A cap of 0.21 dollars, 0.05 of them spent, and calls that have no bound.
abbrev cents : ℕ → Float64
cents n = Float.div_fin (pos (n * Float.one_in_units)) (pos (100 * Float.one_in_units))

abbrev tight_calls : Calls
tight_calls = record {
  parse_float = λ s. some (cents 21);
  unicode = ascii;
  usage_since =
      λ t name. some (record { spent_usd = cents 5; requests = pos 1; enforcement_gaps = pos 0 });
}

abbrev tight : Settings
tight = record settings { external_cap = λ w. "" }

abbrev unbounded : AdmissionEstimate
unbounded = record { usd = zero_usd; priced = true; bounded = false }

abbrev guard_of : Admission → Option Guard
guard_of (admitted g r) = some g
guard_of a = none

abbrev flight : Option Guard → ℕ
flight none = 0
flight (some g) = g.in_flight

abbrev twice : Option Guard → Option Guard
twice none = none
twice (some g) = guard_of (admit tight_calls tight g (pos 200) "" unbounded)

-- A second one is admitted while the first, which has reserved all that remains, is in flight.
both_in_flight :
    flight (twice (guard_of (admit tight_calls tight new_guard (pos 200) "" unbounded))) ≡ 2
unfolding admit
both_in_flight = refl
