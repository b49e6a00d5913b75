-- ===== src/Budget/Admit/Respected.antt =====
-- The caps that a granted request respects, one theorem for each kind of cap.
use mathlib.Core.List.Memᴰ
use burnban.Prelude.{
  String, Bool, true, false, ◌≡◌, refl, sym, ap, ◌∙◌, ◌⊎◌, inl, inr, subst, Option, none, some,
  List, [], ◌∷◌, ◌++◌, Memᴰ, map, is_empty, if◌then◌else◌, chain-some, some_inj, All-at, str_eq,
}
use burnban.Prelude.Int.{ℤ}
use burnban.Float
use burnban.Float.{Float64}
use burnban.Budget.Caps.{
  Window, daily, weekly, monthly, windows, parse_cap, Increases, of_window,
  expired_external_increases, subtract_expired_increase,
}
use burnban.Budget.Positions.{local, external, Calls, Settings, Guard, CapPosition, BudgetUsage}
use burnban.Budget.Admit.{
  Reservation, AdmissionEstimate, Admission, admitted, crosses, first_crossed, reserve, admit,
}
use burnban.Budget.Check.{
  CapCheck, check_of, window_checks, all_checks, position_of, fuse_check, read_checks, in_force,
  agent_checks,
}
use burnban.Budget.Admit.Granted.{IsGranted, admit-IsGranted}
use burnban.Budget.Check.Enforced.{
  IsOpen, IsPassed, check_locked-IsPassed, positions_of-Mem, Mem-left, Mem-right,
}

Mem-windows : (w : Window) → Memᴰ w windows
Mem-windows daily = Memᴰ.head refl
Mem-windows weekly = Memᴰ.tail (Memᴰ.head refl)
Mem-windows monthly = Memᴰ.tail (Memᴰ.tail (Memᴰ.head refl))

module _ (calls : Calls) (s : Settings) (expired : Increases) where
  all_checks-Mem :
      (ws : List Window) (cs : List CapCheck) (w : Window)
      → all_checks calls s expired ws ≡ some cs
      → Memᴰ w ws
      → (ks : List CapCheck) × (window_checks calls s expired w ≡ some ks)
        × ((c : CapCheck) → Memᴰ c ks → Memᴰ c cs)
  unfolding all_checks
  all_checks-Mem [] cs w h m = absurd (Memᴰ.not-nil m)
  all_checks-Mem (v ∷ ws) cs w h m =
      let (ks, k, h1) = chain-some (window_checks calls s expired v) _ cs h in
      let (more, rest, made) = chain-some (all_checks calls s expired ws) _ cs h1 in
      elim (Memᴰ.cases_cons m) [
        | inl e ↦ (ks, rw e k, λ c d. subst (Memᴰ c) (some_inj made) (Mem-left c ks more d))
        | inr d ↦
            let (js, j, found) = all_checks-Mem ws more w rest d in
            (js, j, λ c n. subst (Memᴰ c) (some_inj made) (Mem-right c ks more (found c n)))
      ]

  local_check :
      (w : Window) (ks : List CapCheck) (cap : Float64)
      → window_checks calls s expired w ≡ some ks
      → parse_cap calls.parse_float (s.local_cap w) ≡ some (some cap)
      → s.override_local ≡ false
      → Memᴰ (record { source = local; cap = cap; start = s.local_start w }) ks
  unfolding window_checks
  local_check w ks cap h p o =
      let (own, a, h1) = chain-some (parse_cap calls.parse_float (s.local_cap w)) _ ks h in
      let (outer, b, h2) = chain-some (parse_cap calls.parse_float (s.external_cap w)) _ ks h1 in
      let (effective, c, made) =
        chain-some (subtract_expired_increase outer (of_window w expired)) _ ks h2 in
      let same = some_inj (sym p ∙ a) in
      subst (Memᴰ _) (some_inj made) (rw (o, ← same) (Memᴰ.head refl))

  external_check :
      (w : Window) (ks : List CapCheck) (stored : Option Float64) (cap : Float64)
      → window_checks calls s expired w ≡ some ks
      → parse_cap calls.parse_float (s.external_cap w) ≡ some stored
      → subtract_expired_increase stored (of_window w expired) ≡ some (some cap)
      → Memᴰ (record { source = external; cap = cap; start = s.external_start w }) ks
  unfolding window_checks
  external_check w ks stored cap h p q =
      let (own, a, h1) = chain-some (parse_cap calls.parse_float (s.local_cap w)) _ ks h in
      let made = rw (p, q) at h1 in
      subst (Memᴰ _) (some_inj made) (
        Mem-right _ (check_of local (s.local_start w) (if s.override_local then none else own)) _
          (Memᴰ.head refl))

-- The position of a check of the calendar's caps is among those that a granted request was granted on.
module _ (calls : Calls) (s : Settings) (g : Guard) (now : ℤ) (name : String)
    (ps : List CapPosition) (passing : IsPassed calls s g now name ps) where
  cap_position :
      (w : Window) (c : CapCheck)
      → ((ks : List CapCheck) → window_checks calls s passing.expired w ≡ some ks → Memᴰ c ks)
      → (usage : BudgetUsage) × (calls.usage_since c.start "" ≡ some usage)
        × Memᴰ (position_of c.source c.cap g.reserved_usd usage) ps
        × IsOpen (position_of c.source c.cap g.reserved_usd usage)
  unfolding read_checks
  cap_position w c among =
      let (fuses, f, h1) = chain-some s.fuses _ passing.checks passing.checks_read in
      let (caps, k, h2) =
        chain-some (all_checks calls s passing.expired windows) _ passing.checks h1 in
      let (own, o, made) = chain-some (agent_checks calls s name) _ passing.checks h2 in
      let (ks, found, within) =
        all_checks-Mem calls s passing.expired windows caps w k (Mem-windows w) in
      let here =
        subst (λ x. Memᴰ c x.0) (some_inj made)
          (Mem-left c caps (map fuse_check fuses) (within c (among ks found))) in
      let (usage, u, m) =
        positions_of-Mem calls g.reserved_usd "" passing.checks.0 passing.global c
          passing.global_read here in
      (
        usage,
        u,
        subst (Memᴰ _) (sym passing.positions) (
            Mem-left _ (passing.global ++ passing.slot) passing.own
              (Mem-left _ passing.global passing.slot m)),
        All-at IsOpen _ passing.global passing.open_global m,
      )

first_crossed-none :
    (amount : Float64) (ps : List CapPosition) (p : CapPosition)
    → first_crossed amount ps ≡ none
    → Memᴰ p ps
    → crosses amount p ≡ false
unfolding first_crossed
first_crossed-none amount [] p h m = absurd (Memᴰ.not-nil m)
first_crossed-none amount (q ∷ ps) p h m =
    let (front, rest) = uncrossed (crosses amount q) q (first_crossed amount ps) h in
    elim (Memᴰ.cases_cons m) [ inl e ↦ rw e front | inr d ↦ first_crossed-none amount ps p rest d ]
  where
    uncrossed :
        (b : Bool) (x : CapPosition) (o : Option CapPosition)
        → (if b then some x else o) ≡ none
        → (b ≡ false) × (o ≡ none)
    uncrossed true x o h = cc
    uncrossed false x o h = (refl, h)

not_empty : (p : CapPosition) (ps : List CapPosition) → Memᴰ p ps → ¬ (is_empty ps ≡ true)
not_empty p [] m = absurd (Memᴰ.not-nil m)
not_empty p (q ∷ ps) m = λ h. cc

amount_of : Admission → Float64
amount_of (admitted g r) = r.amount
amount_of a = Float.nan

-- The request fits the position: it is priced, and its bound, which is what is reserved, does not cross
-- what remains there, unless it has no bound.
abbrev pub Fits : AdmissionEstimate → Reservation → CapPosition → Type 0
Fits estimate r p =
    (estimate.priced ≡ true)
    × ((estimate.bounded ≡ false) ⊎ ((r.amount ≡ estimate.usd) × (crosses r.amount p ≡ false)))

IsGranted-Fits :
    (g after : Guard) (name : String) (estimate : AdmissionEstimate) (r : Reservation)
    (ps : List CapPosition) (p : CapPosition)
    → IsGranted g after name estimate r ps
    → Memᴰ p ps
    → Fits estimate r p
unfolding reserve amount_of
IsGranted-Fits g after name estimate r ps p granted m =
    let same = sym (ap amount_of granted.made) in
    elim granted.fits [
      | inl e ↦ absurd (not_empty p ps m e)
      | inr (priced, inl free) ↦ (priced, inl free)
      | inr (priced, inr (exact, free)) ↦ (
        priced,
        inr (same ∙ exact, rw (same, exact) (first_crossed-none estimate.usd ps p free m)),
      )
    ]

-- A granted request under a set local cap that is not overridden, of whichever window: the ledger answers
-- for the window, no request in it has a metering gap, neither its spend nor its spend with what is reserved has reached the
-- cap, and the request is priced and, if it is bounded, does not cross what remains.
pub admit_local_cap :
    (calls : Calls) (s : Settings) (g : Guard) (now : ℤ) (name : String)
    (estimate : AdmissionEstimate) (after : Guard) (r : Reservation) (w : Window) (cap : Float64)
    → parse_cap calls.parse_float (s.local_cap w) ≡ some (some cap)
    → s.override_local ≡ false
    → admit calls s g now name estimate ≡ admitted after r
    → (usage : BudgetUsage) × (calls.usage_since (s.local_start w) "" ≡ some usage)
      × IsOpen (position_of local cap g.reserved_usd usage)
      × Fits estimate r (position_of local cap g.reserved_usd usage)
admit_local_cap calls s g now name estimate after r w cap set on h =
    let (ps, check, granted) = admit-IsGranted calls s g now name estimate after r h in
    let passing = check_locked-IsPassed calls s g now name ps check in
    let (usage, u, m, room) =
      cap_position calls s g now name ps passing w
        (record { source = local; cap = cap; start = s.local_start w })
        (λ ks k. local_check calls s passing.expired w ks cap k set on) in
    (usage, u, room, IsGranted-Fits g after name estimate r ps _ granted m)

-- A granted request under an external cap of whichever window, less the increases that have expired: as for a local cap, and
-- an override of the local caps changes nothing.
pub admit_external_cap :
    (calls : Calls) (s : Settings) (g : Guard) (now : ℤ) (name : String)
    (estimate : AdmissionEstimate) (after : Guard) (r : Reservation) (w : Window)
    (stored : Option Float64) (cap : Float64) (expired : Increases)
    → parse_cap calls.parse_float (s.external_cap w) ≡ some stored
    → expired_external_increases calls.unicode now s.exceptions ≡ some expired
    → subtract_expired_increase stored (of_window w expired) ≡ some (some cap)
    → admit calls s g now name estimate ≡ admitted after r
    → (usage : BudgetUsage) × (calls.usage_since (s.external_start w) "" ≡ some usage)
      × IsOpen (position_of external cap g.reserved_usd usage)
      × Fits estimate r (position_of external cap g.reserved_usd usage)
admit_external_cap calls s g now name estimate after r w stored cap expired set increases less h =
    let (ps, check, granted) = admit-IsGranted calls s g now name estimate after r h in
    let passing = check_locked-IsPassed calls s g now name ps check in
    let same = some_inj (sym passing.expired_read ∙ increases) in
    let less' = ap (λ x. subtract_expired_increase stored (of_window w x)) same ∙ less in
    let (usage, u, m, room) =
      cap_position calls s g now name ps passing w
        (record { source = external; cap = cap; start = s.external_start w })
        (λ ks k. external_check calls s passing.expired w ks stored cap k set less') in
    (usage, u, room, IsGranted-Fits g after name estimate r ps _ granted m)

-- A request is granted only where neither burn ban is set and the fuse's last trip, if there is one, is over.
pub admit_no_ban :
    (calls : Calls) (s : Settings) (g : Guard) (now : ℤ) (name : String)
    (estimate : AdmissionEstimate) (after : Guard) (r : Reservation)
    → admit calls s g now name estimate ≡ admitted after r
    → (str_eq s.ban_active "1" ≡ false)
      × (str_eq s.external_ban_active "1" ≡ false)
      × (trip : Option ℤ) × (s.trip_until ≡ some trip)
      × (in_force now trip ≡ false)
admit_no_ban calls s g now name estimate after r h =
    let (ps, check, granted) = admit-IsGranted calls s g now name estimate after r h in
    let passing = check_locked-IsPassed calls s g now name ps check in
    (passing.no_ban, passing.no_external_ban, passing.trip, passing.trip_read, passing.no_trip)
