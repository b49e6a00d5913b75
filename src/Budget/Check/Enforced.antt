-- ===== src/Budget/Check/Enforced.antt =====
-- What a request that `Admit` grants says of the bans, the fuse's trip and the caps.
use mathlib.Core.List.Memᴰ
use burnban.Prelude.{
  String, Bool, true, false, not, ◌&&◌, ◌≡◌, refl, sym, ap, ◌⊎◌, inl, inr, subst, Option, none,
  some, List, [], ◌∷◌, ◌++◌, Memᴰ, if◌then◌else◌, chain-some, some_inj, All, str_eq, arith,
}
use burnban.Prelude.Int.{ℤ, pos, ltb_ℤ}
use burnban.Float
use burnban.Float.{Float64}
use burnban.Budget.Caps.{Increases, expired_external_increases}
use burnban.Budget.Positions.{
  is_fuse, Calls, Settings, Guard, Check, denied, passed, CapPosition, BudgetUsage, Denial, verdict,
  or_denial, first_denial, reserved_for,
}
use burnban.Budget.Check.{
  CapCheck, position_of, positions_of, baseline_position, fanout_crossed, denied_or, or_failed,
  read_checks, check_caps, in_force, check_locked,
}

or_failed-passed :
    {A : Type 0} (o : Option A) (f : A → Check) (ps : List CapPosition)
    → or_failed o f ≡ passed ps
    → (a : A) × (o ≡ some a) × (f a ≡ passed ps)
or_failed-passed none f ps h = cc
or_failed-passed (some a) f ps h = (a, refl, h)

denied_or-passed :
    (o : Option Denial) (next : Check) (ps : List CapPosition)
    → denied_or o next ≡ passed ps
    → (o ≡ none) × (next ≡ passed ps)
denied_or-passed none next ps h = (refl, h)
denied_or-passed (some d) next ps h = cc

denied-passed :
    (b : Bool) (d : Denial) (c : Check) (ps : List CapPosition)
    → (if b then denied d else c) ≡ passed ps
    → (b ≡ false) × (c ≡ passed ps)
denied-passed true d c ps h = cc
denied-passed false d c ps h = (refl, h)

or_denial-none : (a b : Option Denial) → or_denial a b ≡ none → (a ≡ none) × (b ≡ none)
or_denial-none none b h = (refl, h)
or_denial-none (some d) b h = cc

first_denial-cons :
    (p : CapPosition) (ps : List CapPosition)
    → first_denial (p ∷ ps) ≡ none
    → (verdict p ≡ none) × (first_denial ps ≡ none)
unfolding first_denial
first_denial-cons p ps h = or_denial-none (verdict p) (first_denial ps) h

-- The position has no metering gap, and neither its spend nor its spend with the reserved amounts has
-- reached the cap.
pub record IsOpen (p : CapPosition) : Type 0 where
  pub no_gap : ltb_ℤ (pos 0) p.unsafe ≡ false
  pub not_spent : (is_fuse p.source ≡ true) ⊎ (Float.le p.cap p.spent ≡ false)
  pub not_filled : Float.le p.cap (Float.add p.spent p.reserved) ≡ false

three_tests :
    (a b c : Bool) (x y z : Denial)
    → (if a then some x else (if b then some y else (if c then some z else none))) ≡ none
    → (a ≡ false) × (b ≡ false) × (c ≡ false)
three_tests a b c x y z h = ground arith

not_both : (a b : Bool) → (not a && b) ≡ false → (a ≡ true) ⊎ (b ≡ false)
not_both true b h = inl refl
not_both false b h = inr h

verdict-IsOpen : (p : CapPosition) → verdict p ≡ none → IsOpen p
unfolding verdict
verdict-IsOpen p h =
    let (a, b, c) = three_tests _ _ _ _ _ _ h in
    record { no_gap = a; not_spent = not_both (is_fuse p.source) _ b; not_filled = c }

first_denial-All : (ps : List CapPosition) → first_denial ps ≡ none → All IsOpen ps
first_denial-All [] h = tt
first_denial-All (p ∷ ps) h =
    let (v, rest) = first_denial-cons p ps h in (verdict-IsOpen p v, first_denial-All ps rest)

pub Mem-left : {A : Type 0} (a : A) (xs ys : List A) → Memᴰ a xs → Memᴰ a (xs ++ ys)
Mem-left a [] ys m = absurd (Memᴰ.not-nil m)
Mem-left a (x ∷ xs) ys m = elim (Memᴰ.cases_cons m) [
  | inl e ↦ Memᴰ.head e
  | inr d ↦ Memᴰ.tail (Mem-left a xs ys d)
]

pub Mem-right : {A : Type 0} (a : A) (xs ys : List A) → Memᴰ a ys → Memᴰ a (xs ++ ys)
Mem-right a [] ys m = m
Mem-right a (x ∷ xs) ys m = Memᴰ.tail (Mem-right a xs ys m)

-- Every check becomes a position, with the usage that the ledger answers.
pub positions_of-Mem :
    (calls : Calls) (reserved : Float64) (name : String) (cs : List CapCheck)
    (ps : List CapPosition) (c : CapCheck)
    → positions_of calls reserved name cs ≡ some ps
    → Memᴰ c cs
    → (usage : BudgetUsage) × (calls.usage_since c.start name ≡ some usage)
      × Memᴰ (position_of c.source c.cap reserved usage) ps
unfolding positions_of
positions_of-Mem calls reserved name [] ps c h m = absurd (Memᴰ.not-nil m)
positions_of-Mem calls reserved name (k ∷ cs) ps c h m =
    let (usage, u, h1) = chain-some (calls.usage_since k.start name) _ ps h in
    let (more, rest, made) = chain-some (positions_of calls reserved name cs) _ ps h1 in
    elim (Memᴰ.cases_cons m) [
      | inl e ↦ (
        usage,
        rw e u,
        subst (Memᴰ _) (some_inj made)
            (Memᴰ.head (ap (λ x. position_of x.source x.cap reserved usage) e)),
      )
      | inr d ↦
          let (used, v, found) = positions_of-Mem calls reserved name cs more c rest d in
          (used, v, subst (Memᴰ _) (some_inj made) (Memᴰ.tail found))
    ]

-- What a check that passes has found out on its way.
pub record IsPassed (calls : Calls) (s : Settings) (g : Guard) (now : ℤ) (name : String)
    (ps : List CapPosition) : Type 0 where
  pub no_ban : str_eq s.ban_active "1" ≡ false
  pub no_external_ban : str_eq s.external_ban_active "1" ≡ false
  pub trip : Option ℤ
  pub trip_read : s.trip_until ≡ some trip
  pub no_trip : in_force now trip ≡ false
  pub expired : Increases
  pub expired_read : expired_external_increases calls.unicode now s.exceptions ≡ some expired
  pub checks : List CapCheck × List CapCheck
  pub checks_read : read_checks calls s name expired ≡ some checks
  pub global : List CapPosition
  pub slot : List CapPosition
  pub own : List CapPosition
  pub global_read : positions_of calls g.reserved_usd "" checks.0 ≡ some global
  pub own_read : positions_of calls (reserved_for name g.reserved_by_agent) name checks.1 ≡ some own
  pub positions : ps ≡ global ++ slot ++ own
  pub open_global : All IsOpen global
  pub open_slot : All IsOpen slot
  pub open_own : All IsOpen own

passed_inj : (xs ys : List CapPosition) → passed xs ≡ passed ys → xs ≡ ys
passed_inj xs ys h = cc

pub check_locked-IsPassed :
    (calls : Calls) (s : Settings) (g : Guard) (now : ℤ) (name : String) (ps : List CapPosition)
    → check_locked calls s g now name ≡ passed ps
    → IsPassed calls s g now name ps
unfolding check_locked check_caps
check_locked-IsPassed calls s g now name ps h =
    let (expired, e, h1) =
      or_failed-passed (expired_external_increases calls.unicode now s.exceptions) _ ps h in
    let (ban, h2) = denied-passed (str_eq s.ban_active "1") _ _ ps h1 in
    let (external_ban, h3) = denied-passed (str_eq s.external_ban_active "1") _ _ ps h2 in
    let (trip, t, h4) = or_failed-passed s.trip_until _ ps h3 in
    let (over, h5) = denied-passed (in_force now trip) _ _ ps h4 in
    let (checks, c, h6) = or_failed-passed (read_checks calls s name expired) _ ps h5 in
    let (baseline, b, h7) = or_failed-passed s.baseline _ ps h6 in
    let (fanout, f, h8) = or_failed-passed s.fanout _ ps h7 in
    let (global, gl, h9) =
      or_failed-passed (positions_of calls g.reserved_usd "" checks.0) _ ps h8 in
    let (base, ba, h10) =
      or_failed-passed (baseline_position calls g.reserved_usd baseline) _ ps h9 in
    let (crossed, cr, h11) = or_failed-passed (fanout_crossed calls g fanout) _ ps h10 in
    let (own, ow, h12) =
      or_failed-passed (positions_of calls (reserved_for name g.reserved_by_agent) name checks.1) _
        ps h11 in
    let (open_global, h13) = denied_or-passed (first_denial global) _ ps h12 in
    let (slot, sl, h14) = or_failed-passed base _ ps h13 in
    let (open_slot, h15) = denied_or-passed (first_denial slot) _ ps h14 in
    let (under, h16) = denied-passed crossed _ _ ps h15 in
    let (open_own, h17) = denied_or-passed (first_denial own) _ ps h16 in
    record {
      no_ban = ban;
      no_external_ban = external_ban;
      trip = trip;
      trip_read = t;
      no_trip = over;
      expired = expired;
      expired_read = e;
      checks = checks;
      checks_read = c;
      global = global;
      slot = slot;
      own = own;
      global_read = gl;
      own_read = ow;
      positions = sym (passed_inj _ ps h17);
      open_global = first_denial-All global open_global;
      open_slot = first_denial-All slot open_slot;
      open_own = first_denial-All own open_own;
    }
