-- ===== src/Policy/Engine/Reservation/Lifecycle.antt =====
-- internal/policy/engine.go, the life of a reservation: the order in which Commit, Cancel and Release may be called.
use burnban.Prelude.{◌≡◌, Bool, true, none, some, Option-cases, refl, ap, ◌⊎◌, inl, inr}
use burnban.Policy.Engine.Evaluate.{closed}
use burnban.Policy.Engine.Prepare.{ReservationState, prepared, committed, finished}
use burnban.Policy.Engine.Reservation.{
  World, close, persist_locked, settle, commit_from, commit_prepared, commit, cancel_from, cancel,
  release_from, release, stamped,
}
use burnban.Store.PolicyDecisions.{insert_policy_decision}

State-cases : (s : ReservationState) → (s ≡ prepared) ⊎ ((s ≡ committed) ⊎ (s ≡ finished))
State-cases prepared = inl refl
State-cases committed = inr (inl refl)
State-cases finished = inr (inr refl)

-- A closed reservation stays as it is, whatever is called.
abbrev pub IsClosed : World → Type 0
IsClosed w =
    (w.reservation.state ≡ finished)
    × (release w ≡ w)
    × ((answers : Bool) → (cancel answers w ≡ (w, none)) × (commit answers w ≡ (w, some closed)))

IsClosed-when_finished : (w : World) → w.reservation.state ≡ finished → IsClosed w
unfolding release cancel commit
IsClosed-when_finished w h = (
  h,
  ap (λ s. release_from s w) h,
  λ answers. (ap (λ s. cancel_from s answers w) h, ap (λ s. commit_from s answers w) h),
)

release_from-state :
    (s : ReservationState) (w : World)
    → w.reservation.state ≡ s
    → (release_from s w).reservation.state ≡ finished
unfolding release_from close
release_from-state prepared w h = refl
release_from-state committed w h = refl
release_from-state finished w h = h

-- Once released, a reservation is closed: a second release and a cancel do nothing, and a commit is
-- refused, so that what was given back is never given back again nor counted.
pub release-IsClosed : (w : World) → IsClosed (release w)
unfolding release
release-IsClosed w =
    IsClosed-when_finished (release w) (release_from-state w.reservation.state w refl)

-- A successful commit leaves the reservation committed, and a failed one closed.
commit_from-state :
    (s : ReservationState) (answers : Bool) (w : World)
    → w.reservation.state ≡ s
    → (((commit_from s answers w).1 ≡ none)
        × ((commit_from s answers w).0.reservation.state ≡ committed))
      ⊎ ((commit_from s answers w).0.reservation.state ≡ finished)
unfolding commit_from commit_prepared settle close persist_locked
commit_from-state committed answers w h = inl (refl, h)
commit_from-state finished answers w h = inr h
commit_from-state prepared answers w h =
    elim (Option-cases (insert_policy_decision answers w.ledger (stamped true w.reservation))) [
      | inl e ↦ rw (commit_from, commit_prepared, persist_locked, e) (inr refl)
      | inr (x, e) ↦ rw (commit_from, commit_prepared, persist_locked, e) (inl (refl, refl))
    ]

-- After a commit that succeeds, a second commit and a cancel change nothing, so that a request is
-- written down once; after one that fails, the reservation is closed.
pub commit_once :
    (answers : Bool) (w : World)
    → let w' = (commit answers w).0 in
      (((commit answers w).1 ≡ none)
        × ((again : Bool) → (commit again w' ≡ (w', none)) × (cancel again w' ≡ (w', none))))
      ⊎ IsClosed w'
unfolding commit cancel
commit_once answers w = elim (commit_from-state w.reservation.state answers w refl) [
  | inl (ok, c) ↦
      let w' = (commit answers w).0 in
      inl (ok, λ again. (ap (λ s. commit_from s again w') c, ap (λ s. cancel_from s again w') c))
  | inr f ↦ inr (IsClosed-when_finished (commit answers w).0 f)
]
