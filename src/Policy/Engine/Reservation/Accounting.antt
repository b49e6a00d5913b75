-- ===== src/Policy/Engine/Reservation/Accounting.antt =====
-- internal/policy/engine.go: the engine's counters over the whole life of a reservation.
use burnban.Prelude.{
  ℕ, ◌+◌, ◌≤◌, ◌≡◌, String, Bool, true, false, List, [], ◌∷◌, Option-cases, inl, inr, length, refl,
  sym, ap, ◌∙◌, subst,
}
use burnban.Prelude.Int.{ℤ, pos, max_int64}
use burnban.Policy.Types.{Context}
use burnban.Policy.Decision.{RuleDecision}
use burnban.Policy.Engine.State.{RuleCounterKey, Compiled, Engine, drop_id}
use burnban.Policy.Engine.Evaluate.{IndexedRule}
use burnban.Policy.Engine.Prepare.{
  prepared, Reservation, reserve, fresh, numbered, granted, decide, record_of,
}
use burnban.Policy.Engine.Reservation.{
  World, close, persist_locked, settle, commit_from, commit_prepared, commit, cancel_from,
  cancel_prepared, cancel, release_from, release, release_pending, release_concurrency, stamped,
}
use burnban.Policy.Engine.Reservation.Restore.{in_flight_restored}
use burnban.Policy.Engine.Reservation.Pending.{pending_restored}
use burnban.Store.PolicyDecisions.{Ledger, insert_policy_decision}

pending_apart :
    (id : ℕ) (keys : List RuleCounterKey) (e : Engine)
    → (release_pending id keys e).in_flight ≡ e.in_flight
unfolding release_pending
pending_apart id [] e = refl
pending_apart id (key ∷ keys) e = pending_apart id keys _

in_flight_apart :
    (keys : List RuleCounterKey) (e : Engine) → (release_concurrency keys e).pending ≡ e.pending
unfolding release_concurrency
in_flight_apart [] e = refl
in_flight_apart (key ∷ keys) e = in_flight_apart keys _

reserve-state :
    (namespace : String) (now : ℤ) (context : Context) (rules : List IndexedRule) (e : Engine)
    (r : Reservation)
    → (reserve namespace now context rules e r).1.state ≡ r.state
unfolding reserve
reserve-state namespace now context [] e r = refl
reserve-state namespace now context (indexed ∷ rules) e r =
    reserve-state namespace now context rules _ _

-- The engine once both counters are given back.
abbrev freed : World → Engine
freed w =
    release_concurrency w.reservation.concurrency_keys
      (release_pending w.reservation.pending_id w.reservation.counter_keys w.engine)

module _ (w : World) (h : w.reservation.state ≡ prepared) where
  released : (release w).engine ≡ freed w
  unfolding release release_from close
  released = ap (λ s. (release_from s w).engine) h

  cancelled : (answers : Bool) → (cancel answers w).0.engine ≡ freed w
  unfolding cancel cancel_from cancel_prepared persist_locked close
  cancelled answers =
      ap (λ s. (cancel_from s answers w).0.engine) h
      ∙ elim (Option-cases
          (insert_policy_decision answers w.ledger (stamped false w.reservation))) [
            | inl e ↦ rw (cancel_from, cancel_prepared, persist_locked, e) refl
            | inr (x, e) ↦ rw (cancel_from, cancel_prepared, persist_locked, e) refl
          ]

  committed_then_released : (answers : Bool) → (release (commit answers w).0).engine ≡ freed w
  unfolding commit commit_from commit_prepared persist_locked settle close release release_from
  committed_then_released answers =
      ap (λ s. (release (commit_from s answers w).0).engine) h
      ∙ elim (Option-cases (insert_policy_decision answers w.ledger (stamped true w.reservation))) [
        | inl e ↦ rw (commit_from, commit_prepared, persist_locked, e) refl
        | inr (x, e) ↦ rw (commit_from, commit_prepared, persist_locked, e) refl
      ]

-- What the engine has for a key, as it was in `e` with the count `n`.
abbrev pub IsRestored : RuleCounterKey → ℕ → Engine → Engine → Type 0
IsRestored k n e e' = (e'.in_flight k ≡ pos n) × (e'.pending k ≡ e.pending k)

-- However a granted reservation ends, by a release, by a cancel, or by a commit and a release, and
-- whether or not the database answers, the engine counts for each key as it did before: the requests
-- in flight are the same, and so is the pending usage. The count, raised by
-- one for each rule, is still an int64, and the reservation's number is not in use under the key.
pub granted-IsRestored :
    (now : ℤ) (context : Context) (compiled : Compiled) (rules : List IndexedRule)
    (ds : List RuleDecision) (e : Engine) (db : Ledger) (answers : Bool) (k : RuleCounterKey)
    (n : ℕ)
    → e.in_flight k ≡ pos n
    → n + length rules ≤ max_int64
    → drop_id (numbered e).next_pending (e.pending k) ≡ e.pending k
    → let (e', r) = granted now context compiled rules ds e in
      let w : World = record { reservation = r; engine = e'; ledger = db } in
      IsRestored k n e (release w).engine
      × IsRestored k n e (cancel answers w).0.engine
      × IsRestored k n e (release (commit answers w).0).engine
granted-IsRestored now context compiled rules ds e db answers k n h b f =
    let (e', r) = granted now context compiled rules ds e in
    let w : World = record { reservation = r; engine = e'; ledger = db } in
    let namespace = compiled.document.metadata.namespace in
    let start =
      fresh e (decide compiled context rules ds)
        (record_of now context rules (decide compiled context rules ds)) in
    let state = reserve-state namespace now context rules (numbered e) start in
    let back : IsRestored k n e (freed w) = (
      in_flight_restored namespace now context k rules (numbered e) _ start n refl h b
          (pending_apart _ _ _),
      ap (λ t. t k) (in_flight_apart _ _)
          ∙ pending_restored namespace now context k rules (numbered e) start refl f,
    ) in
    (
      subst (IsRestored k n e) (sym (released w state)) back,
      subst (IsRestored k n e) (sym (cancelled w state answers)) back,
      subst (IsRestored k n e) (sym (committed_then_released w state answers)) back,
    )
