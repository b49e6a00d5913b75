-- ===== src/Policy/Engine/Reservation.antt =====
-- internal/policy/engine.go, the methods of `Reservation`: Commit, Cancel and Release, and `Admit`.
-- Each gives the new reservation, engine and ledger, and whether it returned an error.
pub mod Lifecycle
pub mod Restore
pub mod Pending
pub mod Accounting
use burnban.Prelude.{
  ℕ, ◌-◌, String, Bool, true, false, not, ◌&&◌, Option, none, some, List, [], ◌∷◌, map,
  if◌then◌else◌,
}
use burnban.Prelude.Int.{ℤ, pos, leb_ℤ, sub64}
use burnban.Policy.Types.{Context}
use burnban.Policy.Decision.{Decision, denied}
use burnban.Policy.Engine.State.{RuleCounterKey, PendingUsage, Compiled, Engine, put, drop_id}
use burnban.Policy.Engine.Evaluate.{EngineError, persist, closed, Outcome, ok, err, ◌>>=◌}
use burnban.Policy.Engine.Prepare.{
  Row, Turn, ReservationState, Reservation, prepared, committed, finished, Prepared, no_policy,
  refused, reserved, prepare,
}
use burnban.Store.PolicyDecisions.{
  PolicyDecisionRule, PolicyDecisionRecord, Ledger, insert_policy_decision,
}

-- `releasePendingLocked`: an inner map that is left empty reads as a missing one.
unfoldable pub release_pending : ℕ → List RuleCounterKey → Engine → Engine
release_pending id [] e = e
release_pending id (key ∷ keys) e =
    release_pending id keys (record e { pending = put key (drop_id id (e.pending key)) e.pending })

-- `releaseConcurrencyLocked`: a count of one or less is deleted, and then reads as zero.
unfoldable pub release_concurrency : List RuleCounterKey → Engine → Engine
release_concurrency [] e = e
release_concurrency (key ∷ keys) e = release_concurrency keys (record e {
  in_flight =
      put key (if leb_ℤ (e.in_flight key) (pos 1) then pos 0 else sub64 (e.in_flight key) (pos 1))
        e.in_flight;
})

-- `persistLocked`: the record and its rows say whether the request was admitted.
unfoldable pub stamped : Bool → Reservation → PolicyDecisionRecord
stamped admitted r =
    let accept : PolicyDecisionRule → PolicyDecisionRule =
      λ rule. record rule { accepted = admitted } in
    let receipt = r.receipt in
    record receipt { admitted = admitted; rules = map accept receipt.rules }

abbrev pub with_id : Reservation → PolicyDecisionRecord → ℕ → Reservation
with_id r receipt id =
    let d = r.decision in record r { receipt = receipt; decision = record d { id = id } }

pub record World : Type 0 where
  pub reservation : Reservation
  pub engine : Engine
  pub ledger : Ledger

-- Both counters are given back and the reservation is closed.
unfoldable pub close : World → World
close w =
    let r = w.reservation in
    record w {
      reservation = record r { counter_keys = []; concurrency_keys = []; state = finished };
      engine =
          release_concurrency r.concurrency_keys
            (release_pending r.pending_id r.counter_keys w.engine);
    }

-- The write of `persistLocked`, with whether it failed.
unfoldable pub persist_locked : Bool → Bool → World → World × Bool
persist_locked answers admitted w =
    let r = w.reservation in
    let receipt = stamped admitted r in
    elim (insert_policy_decision answers w.ledger receipt) [
      | none ↦ (record w { reservation = record r { receipt = receipt } }, false)
      | some (id, db) ↦ (record w { reservation = with_id r receipt id; ledger = db }, true)
    ]

-- What a successful Commit leaves: the durable rows count from now on, so the pending ones go.
unfoldable pub settle : World → World
settle w =
    let r = w.reservation in
    record w {
      reservation = record r { counter_keys = []; state = committed };
      engine = release_pending r.pending_id r.counter_keys w.engine;
    }

unfoldable pub commit_prepared : Bool → World → World × Option EngineError
commit_prepared answers w =
    let (w', written) = persist_locked answers true w in
    if written then (settle w', none) else (close w', some persist)

unfoldable pub commit_from : ReservationState → Bool → World → World × Option EngineError
unfolding commit_prepared
commit_from prepared answers w = commit_prepared answers w
commit_from committed answers w = (w, none)
commit_from finished answers w = (w, some closed)

unfoldable pub commit : Bool → World → World × Option EngineError
unfolding commit_from
commit answers w = commit_from w.reservation.state answers w

unfoldable pub cancel_prepared : Bool → World → World × Option EngineError
cancel_prepared answers w =
    let (w', written) = persist_locked answers false w in
    (close w', if written then none else some persist)

unfoldable pub cancel_from : ReservationState → Bool → World → World × Option EngineError
unfolding cancel_prepared
cancel_from prepared answers w = cancel_prepared answers w
cancel_from committed answers w = (w, none)
cancel_from finished answers w = (w, none)

unfoldable pub cancel : Bool → World → World × Option EngineError
unfolding cancel_from
cancel answers w = cancel_from w.reservation.state answers w

-- `Release` gives back what the state still holds: a committed reservation has no pending rows.
unfoldable pub release_from : ReservationState → World → World
release_from finished w = w
release_from prepared w = close w
release_from committed w =
    let r = w.reservation in
    record w {
      reservation = record r { concurrency_keys = []; state = finished };
      engine = release_concurrency r.concurrency_keys w.engine;
    }

unfoldable pub release : World → World
unfolding release_from
release w = release_from w.reservation.state w

admit_reserved : Bool → Prepared → Engine → Ledger → Turn
admit_reserved answers no_policy e db = (ok no_policy, e, db)
admit_reserved answers (refused d) e db = (ok (refused d), e, db)
admit_reserved answers (reserved r) e db =
    let (w, failure) = commit answers (record { reservation = r; engine = e; ledger = db }) in
    (elim failure [ some x ↦ err x | none ↦ ok (reserved w.reservation) ], w.engine, w.ledger)

-- `Admit`: Prepare and Commit in one call.
unfoldable pub admit :
    Bool → Bool → (String → Option Compiled) → Row → ℤ → Context → Engine → Ledger → Turn
unfolding admit_reserved
admit answers commits parse row now context e db =
    let (r, e', db') = prepare answers parse row now context e db in
    elim r [ err x ↦ (err x, e', db') | ok p ↦ admit_reserved commits p e' db' ]
