-- ===== src/Budget/Admit/Trace.antt =====
-- Reservations over any sequence of admissions, releases and settlements of one `Guard`.
use burnban.Prelude.{
  ℕ, suc, ◌+◌, ◌-◌, String, Bool, true, false, not, ◌≡◌, refl, sym, ap, ◌∙◌, inl, inr, subst, List,
  [], ◌∷◌, ◌++◌, if◌then◌else◌, Bool-cases, arith,
}
use burnban.Prelude.Int.{ℤ}
use burnban.Float.{Float64}
use burnban.Budget.Caps.{zero_usd}
use burnban.Budget.Positions.{Calls, Settings, Guard}
use burnban.Budget.Admit.{
  Reservation, AdmissionEstimate, Admission, admitted, reserve, admit, released, release_locked,
  Settled, settled_ok, settle,
}
use burnban.Budget.Admit.Granted.{admit-IsGranted}

abbrev pub count_open : List Reservation → ℕ
count_open [] = 0
count_open (r ∷ rs) = if r.done then count_open rs else suc (count_open rs)

-- A guard before its first call.
abbrev pub new_guard : Guard
new_guard = record { reserved_usd = zero_usd; reserved_by_agent = []; in_flight = 0 }

-- The guards and reservations that calls lead to: an admission, a release or a settlement of any
-- reservation, in any order.
pub data Reached : Guard → List Reservation → Type 0 where
  start : Reached new_guard []
  admits :
      {after : Guard} {rs : List Reservation} {r : Reservation} (g : Guard) (calls : Calls)
      (s : Settings) (now : ℤ) (name : String) (estimate : AdmissionEstimate)
      → Reached g rs
      → admit calls s g now name estimate ≡ admitted after r
      → Reached after (r ∷ rs)
  releases :
      {rs : List Reservation} (g : Guard) (r : Reservation) (xs ys : List Reservation)
      → rs ≡ xs ++ (r ∷ ys)
      → Reached g rs
      → Reached (release_locked g r).0 (xs ++ ((release_locked g r).1 ∷ ys))
  settles :
      {rs : List Reservation} (g : Guard) (r : Reservation) (request : Settled) (inserted : Bool)
      (xs ys : List Reservation)
      → rs ≡ xs ++ (r ∷ ys)
      → Reached g rs
      → Reached (settle g r request inserted).1 (xs ++ ((settle g r request inserted).2 ∷ ys))

flight_of : Admission → ℕ
flight_of (admitted g r) = g.in_flight
flight_of a = 0

done_of : Admission → Bool
done_of (admitted g r) = r.done
done_of a = true

reserve-admitted :
    (g after : Guard) (name : String) (amount : Float64) (active : Bool) (r : Reservation)
    → reserve g name amount active ≡ admitted after r
    → (suc g.in_flight ≡ after.in_flight) × (false ≡ r.done)
unfolding reserve flight_of done_of
reserve-admitted g after name amount active r h = (ap flight_of h, ap done_of h)

count_middle :
    (xs ys : List Reservation) (r : Reservation)
    → count_open (xs ++ (r ∷ ys)) ≡ count_open xs + count_open (r ∷ ys)
count_middle [] ys r = omega arith
count_middle (x ∷ xs) ys r = ground (arith, count_middle xs ys r)

release_done : (g : Guard) (r : Reservation) → r.done ≡ true → release_locked g r ≡ (g, r)
unfolding release_locked
release_done g r h = rw h refl

release_open :
    (g : Guard) (r : Reservation)
    → r.done ≡ false
    → release_locked g r ≡ (released g r, record r { done = true })
unfolding release_locked
release_open g r h = rw h refl

-- The calls in flight are the open reservations, where `out` stands between `xs` and `ys`.
abbrev pub IsCounted : List Reservation → List Reservation → Guard × Reservation → Type 0
IsCounted xs ys out = out.0.in_flight ≡ count_open (xs ++ (out.1 ∷ ys))

released-IsCounted :
    (g : Guard) (r : Reservation) (xs ys : List Reservation)
    → r.done ≡ false
    → IsCounted xs ys (g, r)
    → IsCounted xs ys (released g r, record r { done = true })
unfolding released
released-IsCounted g r xs ys e h =
    rw (count_middle xs ys (record r { done = true }))
      (one_less g.in_flight (count_open xs) (count_open ys) (h ∙ count_middle xs ys r ∙ rw e refl))
  where
    one_less : (n a b : ℕ) → n ≡ a + suc b → n - 1 ≡ a + b
    one_less n a b k = omega arith

release_locked-IsCounted :
    (g : Guard) (r : Reservation) (xs ys : List Reservation)
    → IsCounted xs ys (g, r)
    → IsCounted xs ys (release_locked g r)
release_locked-IsCounted g r xs ys h = elim (Bool-cases r.done) [
  | inl e ↦ subst (IsCounted xs ys) (sym (release_done g r e)) h
  | inr e ↦ subst (IsCounted xs ys) (sym (release_open g r e)) (released-IsCounted g r xs ys e h)
]

settle-IsCounted :
    (g : Guard) (r : Reservation) (request : Settled) (inserted : Bool) (xs ys : List Reservation)
    → IsCounted xs ys (g, r)
    → let out = settle g r request inserted in IsCounted xs ys (out.1, out.2)
unfolding settle
settle-IsCounted g r request inserted xs ys h = cases (not (settled_ok r request)) r.done inserted
  where
    cases :
        (a b c : Bool)
        → let out : Bool × Guard × Reservation =
            if a
            then (false, g, r)
            else if b
            then (true, g, r)
            else if c
            then (true, (release_locked g r).0, (release_locked g r).1)
            else (false, g, r) in
          IsCounted xs ys (out.1, out.2)
    cases true b c = h
    cases false true c = h
    cases false false true = release_locked-IsCounted g r xs ys h
    cases false false false = h

closed_done : (g : Guard) (r : Reservation) → (release_locked g r).1.done ≡ true
closed_done g r = elim (Bool-cases r.done) [
  | inl e ↦ subst (λ x. x.1.done ≡ true) (sym (release_done g r e)) e
  | inr e ↦ subst (λ x. x.1.done ≡ true) (sym (release_open g r e)) refl
]

settle_done :
    (g : Guard) (r : Reservation) (request : Settled) (inserted : Bool)
    → r.done ≡ true
    → let out = settle g r request inserted in ◌≡◌ {A = Guard × Reservation} (out.1, out.2) (g, r)
unfolding settle
settle_done g r request inserted h = cases (not (settled_ok r request)) r.done inserted h
  where
    cases :
        (a b c : Bool)
        → b ≡ true
        → let out : Bool × Guard × Reservation =
            if a
            then (false, g, r)
            else if b
            then (true, g, r)
            else if c
            then (true, (release_locked g r).0, (release_locked g r).1)
            else (false, g, r) in
          ◌≡◌ {A = Guard × Reservation} (out.1, out.2) (g, r)
    cases true b c k = refl
    cases false true c k = refl
    cases false false c k = cc

-- After any sequence of admissions, releases and settlements the guard's calls in flight are exactly the
-- reservations that are not done: none is counted twice, and none is lost.
pub Reached-in_flight :
    (g : Guard) (rs : List Reservation) → Reached g rs → g.in_flight ≡ count_open rs
Reached-in_flight g rs start = refl
Reached-in_flight after (r ∷ rs) (admits g calls s now name estimate before h) =
    let (ps, check, granted) = admit-IsGranted calls s g now name estimate after r h in
    let (one_more, fresh) =
      reserve-admitted g after name granted.amount granted.active r granted.made in
    rw (← one_more, ← fresh) (ap suc (Reached-in_flight g rs before))
Reached-in_flight _ _ (releases {rs} g r xs ys e before) =
    release_locked-IsCounted g r xs ys (Reached-in_flight g rs before ∙ ap count_open e)
Reached-in_flight _ _ (settles {rs} g r request inserted xs ys e before) =
    settle-IsCounted g r request inserted xs ys (Reached-in_flight g rs before ∙ ap count_open e)

-- A second release, or a settlement after a release, changes neither the guard nor the reservation.
pub release_locked_once :
    (g later : Guard) (r : Reservation) (request : Settled) (inserted : Bool)
    → let closed = (release_locked g r).1 in
      (closed.done ≡ true)
      × (release_locked later closed ≡ (later, closed))
      × ((settle later closed request inserted).1 ≡ later)
      × ((settle later closed request inserted).2 ≡ closed)
release_locked_once g later r request inserted =
    let closed = (release_locked g r).1 in
    let d = closed_done g r in
    (
      d,
      release_done later closed d,
      ap (λ x. x.0) (settle_done later closed request inserted d),
      ap (λ x. x.1) (settle_done later closed request inserted d),
    )
