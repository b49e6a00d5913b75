-- ===== src/Policy/Engine/Reservation/Pending.antt =====
-- internal/policy/engine.go: the pending usage that a reservation adds, and gives back.
use burnban.Prelude.{
  ℕ, ◌≡◌, String, Bool, true, false, List, [], ◌∷◌, ◌++◌, Bool-cases, inl, inr, refl, ap, ◌∙◌, any,
  if◌then◌else◌, ◌==◌, arith,
}
use burnban.Prelude.Int.{ℤ}
use burnban.Policy.Types.{Context}
use burnban.Policy.Engine.State.{RuleCounterKey, PendingUsage, Engine, key_eq, put, drop_id}
use burnban.Policy.Engine.Evaluate.{IndexedRule}
use burnban.Policy.Engine.Prepare.{Reservation, reserve, usage_of}
use burnban.Policy.Engine.Reservation.{release_pending}
use burnban.Policy.Engine.Reservation.Restore.{
  key_for, keys_where, counts_usage, same_key, reserve_keys,
}

abbrev Rows : Type 0
Rows = List (ℕ × PendingUsage)

drop_id-twice : (id : ℕ) (xs : Rows) → drop_id id (drop_id id xs) ≡ drop_id id xs
unfolding drop_id
drop_id-twice id [] = refl
drop_id-twice id ((n, v) ∷ xs) = elim (Bool-cases (n == id)) [
  | inr e ↦ rw (drop_id, e, drop_id, e) (ap (λ t. (n, v) ∷ t) (drop_id-twice id xs))
  | inl e ↦ rw (drop_id, e) (drop_id-twice id xs)
]

drop_id-own :
    (id : ℕ) (usage : PendingUsage) (xs : Rows) → drop_id id ((id, usage) ∷ xs) ≡ drop_id id xs
unfolding drop_id
drop_id-own id usage xs = rw (drop_id, same id) refl
  where
    same : (n : ℕ) → (n == n) ≡ true
    same n = ground arith

abbrev listed : RuleCounterKey → List RuleCounterKey → Bool
listed k keys = any (λ key. key_eq key k) keys

-- Once a key is listed, the rows of the number are gone from it; the rest of the map is as before.
release_pending_at :
    (id : ℕ) (k : RuleCounterKey) (keys : List RuleCounterKey) (e : Engine)
    → (release_pending id keys e).pending k
      ≡ (if listed k keys then drop_id id (e.pending k) else e.pending k)
unfolding release_pending put
release_pending_at id k [] e = refl
release_pending_at id k (key ∷ keys) e = elim (Bool-cases (key_eq key k)) [
  | inr x ↦ release_pending_at id k keys _ ∙ rw x refl
  | inl x ↦
      release_pending_at id k keys _
      ∙ rw (x, same_key key k x)
          (elim (Bool-cases (listed k keys)) [
            | inl y ↦ rw y (drop_id-twice id (e.pending k))
            | inr y ↦ rw y refl
          ])
]

module _ (id : ℕ) (usage : PendingUsage) (m : RuleCounterKey → Rows) (key k : RuleCounterKey) where
  added :
      (p : Bool)
      → drop_id id ((if p then put key ((id, usage) ∷ m key) m else m) k) ≡ drop_id id (m k)
  unfolding put
  added false = refl
  added true = elim (Bool-cases (key_eq key k)) [
    | inl x ↦ rw x (drop_id-own id usage (m key) ∙ ap (λ t. drop_id id (m t)) (same_key key k x))
    | inr x ↦ rw x refl
  ]

  unlisted :
      (p : Bool) (ys : List RuleCounterKey)
      → listed k (if p then key ∷ ys else ys) ≡ false
      → ((if p then put key ((id, usage) ∷ m key) m else m) k ≡ m k) × (listed k ys ≡ false)
  unfolding put
  unlisted false ys h = (refl, h)
  unlisted true ys h = elim (Bool-cases (key_eq key k)) [
    | inl x ↦ absurd (cc (rw x at h))
    | inr x ↦ (rw x refl, rw x at h)
  ]

module _ (namespace : String) (now : ℤ) (context : Context) (k : RuleCounterKey) where
  reserve_drop :
      (rules : List IndexedRule) (e : Engine) (r : Reservation)
      → drop_id r.pending_id ((reserve namespace now context rules e r).0.pending k)
        ≡ drop_id r.pending_id (e.pending k)
  unfolding reserve
  reserve_drop [] e r = refl
  reserve_drop (indexed ∷ rules) e r =
      reserve_drop rules _ _
      ∙ added r.pending_id (usage_of now context) e.pending (key_for namespace indexed) k
          (counts_usage indexed)

  reserve_unlisted :
      (rules : List IndexedRule) (e : Engine) (r : Reservation)
      → listed k (keys_where counts_usage namespace rules) ≡ false
      → (reserve namespace now context rules e r).0.pending k ≡ e.pending k
  unfolding reserve
  reserve_unlisted [] e r h = refl
  reserve_unlisted (indexed ∷ rules) e r h =
      let (here, later) =
        unlisted r.pending_id (usage_of now context) e.pending (key_for namespace indexed) k
          (counts_usage indexed) (keys_where counts_usage namespace rules) h in
      reserve_unlisted rules _ _ later ∙ here

  -- Giving the number back leaves the pending usage of every other number.
  pub pending_restored :
      (rules : List IndexedRule) (e : Engine) (r : Reservation)
      → r.counter_keys ≡ []
      → drop_id r.pending_id (e.pending k) ≡ e.pending k
      → let (e', r') = reserve namespace now context rules e r in
        (release_pending r'.pending_id r'.counter_keys e').pending k ≡ e.pending k
  pending_restored rules e r none fresh =
      let (e', r') = reserve namespace now context rules e r in
      let keys = keys_where counts_usage namespace rules in
      let (_, c, i) = reserve_keys namespace now context rules e r in
      ap (λ t. (release_pending t r'.counter_keys e').pending k) i
      ∙ (ap (λ t. (release_pending r.pending_id t e').pending k) (c ∙ ap (λ t. t ++ keys) none)
          ∙ (release_pending_at r.pending_id k keys e' ∙ elim (Bool-cases (listed k keys)) [
            | inl x ↦ rw x (reserve_drop rules e r ∙ fresh)
            | inr x ↦ rw x (reserve_unlisted rules e r x)
          ]))
