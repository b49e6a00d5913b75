-- ===== src/Budget/Admit/Granted.antt =====
-- What an admission of `Guard.Admit` says of the caps.
use burnban.Prelude.{
  String, Bool, true, false, not, ◌≡◌, refl, ◌⊎◌, inl, inr, Option, none, some, List, [], ◌∷◌,
  is_empty, if◌then◌else◌, Bool-cases,
}
use burnban.Prelude.Int.{ℤ}
use burnban.Float.{Float64}
use burnban.Budget.Caps.{zero_usd}
use burnban.Budget.Positions.{
  Calls, Settings, Guard, Check, failed, denied, passed, CapPosition, Denial,
}
use burnban.Budget.Admit.{
  Reservation, AdmissionEstimate, Admission, refused, turned_away, admitted, first_crossed,
  max_remaining, reserve, fits_or, admit_with, admit_checked, admit,
}
use burnban.Budget.Check.{check_locked}

-- What a granted request was granted on: the positions that passed the check, and its amount.
pub record IsGranted (g after : Guard) (name : String) (estimate : AdmissionEstimate)
    (r : Reservation) (positions : List CapPosition) : Type 0 where
  pub amount : Float64
  pub active : Bool
  pub made : reserve g name amount active ≡ admitted after r
  pub fits :
      (is_empty positions ≡ true)
      ⊎ ((estimate.priced ≡ true)
          × ((estimate.bounded ≡ false)
              ⊎ ((amount ≡ estimate.usd) × (first_crossed estimate.usd positions ≡ none))))

turned-admitted :
    (b : Bool) (d : Denial) (o : Admission) (g : Guard) (r : Reservation)
    → (if b then turned_away d else o) ≡ admitted g r
    → (b ≡ false) × (o ≡ admitted g r)
turned-admitted true d o g r h = cc
turned-admitted false d o g r h = (refl, h)

refused-admitted :
    (b : Bool) (o : Admission) (g : Guard) (r : Reservation)
    → (if b then refused else o) ≡ admitted g r
    → (b ≡ false) × (o ≡ admitted g r)
refused-admitted true o g r h = cc
refused-admitted false o g r h = (refl, h)

fits-admitted :
    (c : Option CapPosition) (o : Admission) (g : Guard) (r : Reservation)
    → fits_or c o ≡ admitted g r
    → (c ≡ none) × (o ≡ admitted g r)
fits-admitted none o g r h = (refl, h)
fits-admitted (some p) o g r h = cc

not-false : (b : Bool) → not b ≡ false → b ≡ true
not-false true h = refl
not-false false h = cc

admit_with-IsGranted :
    (g after : Guard) (name : String) (estimate : AdmissionEstimate) (r : Reservation)
    (positions : List CapPosition)
    → admit_with g name estimate positions ≡ admitted after r
    → IsGranted g after name estimate r positions
unfolding admit_with
admit_with-IsGranted g after name estimate r [] h = record {
  amount = zero_usd;
  active = false;
  made = h;
  fits = inl refl;
}
admit_with-IsGranted g after name estimate r (p ∷ ps) h =
    let (unpriced, h1) = turned-admitted (not estimate.priced) _ _ after r h in
    elim (Bool-cases estimate.bounded) [
      | inl e ↦
          let (fit, made) =
            fits-admitted (first_crossed estimate.usd (p ∷ ps)) _ after r (rw e at h1) in
          record {
            amount = estimate.usd;
            active = true;
            made = made;
            fits = inr (not-false _ unpriced, inr (refl, fit));
          }
      | inr e ↦ record {
        amount = max_remaining (p ∷ ps);
        active = true;
        made = rw e at h1;
        fits = inr (not-false _ unpriced, inl e);
      }
    ]

checked-IsGranted :
    (g after : Guard) (name : String) (estimate : AdmissionEstimate) (r : Reservation) (c : Check)
    → admit_checked g name estimate c ≡ admitted after r
    → (positions : List CapPosition) × (c ≡ passed positions)
      × IsGranted g after name estimate r positions
checked-IsGranted g after name estimate r failed h = cc
checked-IsGranted g after name estimate r (denied d) h = cc
checked-IsGranted g after name estimate r (passed ps) h =
    (ps, refl, admit_with-IsGranted g after name estimate r ps h)

pub admit-IsGranted :
    (calls : Calls) (s : Settings) (g : Guard) (now : ℤ) (name : String)
    (estimate : AdmissionEstimate) (after : Guard) (r : Reservation)
    → admit calls s g now name estimate ≡ admitted after r
    → (positions : List CapPosition) × (check_locked calls s g now name ≡ passed positions)
      × IsGranted g after name estimate r positions
unfolding admit
admit-IsGranted calls s g now name estimate after r h =
    checked-IsGranted g after name estimate r (check_locked calls s g now name)
      (refused-admitted _ _ after r h).1
