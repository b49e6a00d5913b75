-- ===== src/Policy/Engine/Reservation/Restore.antt =====
-- internal/policy/engine.go: what a reservation takes from the counts of requests in flight, and gives back.
use burnban.Prelude.{
  ℕ, ◌+◌, ◌-◌, ◌≤◌, ◌≡◌, String, Bool, true, false, ◌&&◌, List, [], ◌∷◌, ◌++◌, Bool-cases, inl, inr,
  length, refl, sym, ap, ◌∙◌, arith, eq_iff, and_true, if◌then◌else◌, str_eq,
}
use burnban.Prelude.Int.{ℤ, pos, leb_ℤ, add64, sub64, wrap64, ◌+ℤ◌, ◌-ℤ◌, max_int64}
use burnban.Policy.Types.{Context}
use burnban.Policy.Engine.State.{RuleCounterKey, Engine, key_eq, put, rule_has_counters}
use burnban.Policy.Engine.Evaluate.{IndexedRule}
use burnban.Policy.Engine.Prepare.{Reservation, has_concurrency, reserve}
use burnban.Policy.Engine.Reservation.{release_concurrency}

-- How often a key is listed.
abbrev pub occurrences : RuleCounterKey → List RuleCounterKey → ℕ
occurrences k [] = 0
occurrences k (key ∷ keys) = (if key_eq key k then 1 else 0) + occurrences k keys

abbrev pub key_for : String → IndexedRule → RuleCounterKey
key_for namespace indexed = record { namespace = namespace; rule_id = indexed.rule.id }

abbrev pub keys_where : (IndexedRule → Bool) → String → List IndexedRule → List RuleCounterKey
keys_where p namespace [] = []
keys_where p namespace (indexed ∷ rules) =
    let rest = keys_where p namespace rules in
    if p indexed then key_for namespace indexed ∷ rest else rest

abbrev pub limits_concurrency : IndexedRule → Bool
limits_concurrency indexed = has_concurrency indexed.rule

abbrev pub counts_usage : IndexedRule → Bool
counts_usage indexed = rule_has_counters indexed.rule

pub same_key : (a b : RuleCounterKey) → key_eq a b ≡ true → a ≡ b
unfolding key_eq
same_key a b h =
    let (x, y) = and_true (str_eq a.namespace b.namespace) (str_eq a.rule_id b.rule_id) h in
    cc ((eq_iff a.namespace b.namespace).0 x, (eq_iff a.rule_id b.rule_id).0 y)

append_one : {A : Type 0} (xs : List A) (x : A) (ys : List A) → (xs ++ x ∷ []) ++ ys ≡ xs ++ x ∷ ys
append_one [] x ys = refl
append_one (z ∷ xs) x ys = ap (λ t. z ∷ t) (append_one xs x ys)

append_end : {A : Type 0} (xs : List A) → xs ++ [] ≡ xs
append_end [] = refl
append_end (x ∷ xs) = ap (λ t. x ∷ t) (append_end xs)

keys_step :
    (p : Bool) (xs : List RuleCounterKey) (key : RuleCounterKey) (ys : List RuleCounterKey)
    → (if p then xs ++ key ∷ [] else xs) ++ ys ≡ xs ++ (if p then key ∷ ys else ys)
keys_step true xs key ys = append_one xs key ys
keys_step false xs key ys = refl

-- The reservation lists the keys that it counts under.
pub reserve_keys :
    (namespace : String) (now : ℤ) (context : Context) (rules : List IndexedRule) (e : Engine)
    (r : Reservation)
    → let r' = (reserve namespace now context rules e r).1 in
      (r'.concurrency_keys ≡ r.concurrency_keys ++ keys_where limits_concurrency namespace rules)
      × (r'.counter_keys ≡ r.counter_keys ++ keys_where counts_usage namespace rules)
      × (r'.pending_id ≡ r.pending_id)
unfolding reserve
reserve_keys namespace now context [] e r = (sym (append_end _), sym (append_end _), refl)
reserve_keys namespace now context (indexed ∷ rules) e r =
    let (c, u, i) = reserve_keys namespace now context rules _ _ in
    let key = key_for namespace indexed in
    (
      c
          ∙ keys_step (limits_concurrency indexed) r.concurrency_keys key
              (keys_where limits_concurrency namespace rules),
      u
          ∙ keys_step (counts_usage indexed) r.counter_keys key
              (keys_where counts_usage namespace rules),
      i,
    )

plus_one : (n : ℕ) → n + 1 ≤ max_int64 → add64 (pos n) (pos 1) ≡ pos (n + 1)
unfolding add64 wrap64 ◌+ℤ◌
plus_one n h = ground arith

minus_one :
    (n : ℕ)
    → n ≤ max_int64
    → (if leb_ℤ (pos n) (pos 1) then pos 0 else sub64 (pos n) (pos 1)) ≡ pos (n - 1)
unfolding sub64 wrap64 ◌-ℤ◌
minus_one n h = ground arith

abbrev bit : Bool → ℕ
bit true = 1
bit false = 0

raised :
    (m : RuleCounterKey → ℤ) (key k : RuleCounterKey) (n : ℕ) (p : Bool)
    → m k ≡ pos n
    → n + 1 ≤ max_int64
    → (if p then put key (add64 (m key) (pos 1)) m else m) k ≡ pos (n + bit (p && key_eq key k))
unfolding put
raised m key k n false h b = h ∙ ap pos (omega arith)
raised m key k n true h b = elim (Bool-cases (key_eq key k)) [
  | inl x ↦ rw x (
      ap (λ t. add64 (m t) (pos 1)) (same_key key k x)
      ∙ (ap (λ t. add64 t (pos 1)) h ∙ plus_one n b))
  | inr x ↦ rw x (h ∙ ap pos (omega arith))
]

occurrences_step :
    (k key : RuleCounterKey) (p : Bool) (ys : List RuleCounterKey)
    → occurrences k (if p then key ∷ ys else ys) ≡ bit (p && key_eq key k) + occurrences k ys
occurrences_step k key false ys = omega arith
occurrences_step k key true ys = elim (Bool-cases (key_eq key k)) [
  | inl x ↦ rw x refl
  | inr x ↦ rw x refl
]

at_most_one : (b : Bool) → bit b ≤ 1
at_most_one true = omega arith
at_most_one false = omega arith

-- The count in flight of a key after the rules have been gone through.
reserve_in_flight :
    (namespace : String) (now : ℤ) (context : Context) (k : RuleCounterKey)
    (rules : List IndexedRule) (e : Engine) (r : Reservation) (n : ℕ)
    → e.in_flight k ≡ pos n
    → n + length rules ≤ max_int64
    → (reserve namespace now context rules e r).0.in_flight k
      ≡ pos (n + occurrences k (keys_where limits_concurrency namespace rules))
unfolding reserve
reserve_in_flight namespace now context k [] e r n h b = h ∙ ap pos (omega arith)
reserve_in_flight namespace now context k (indexed ∷ rules) e r n h b =
    let key = key_for namespace indexed in
    let p = limits_concurrency indexed in
    let one = at_most_one (p && key_eq key k) in
    reserve_in_flight namespace now context k rules _ _ (n + bit (p && key_eq key k))
      (raised e.in_flight key k n p h (omega (arith, b))) (omega (arith, one, b))
    ∙ ap pos
        (omega (arith, occurrences_step k key p (keys_where limits_concurrency namespace rules)))

lowered :
    (m : RuleCounterKey → ℤ) (key k : RuleCounterKey) (n : ℕ)
    → m k ≡ pos n
    → n ≤ max_int64
    → put key (if leb_ℤ (m key) (pos 1) then pos 0 else sub64 (m key) (pos 1)) m k
      ≡ pos (n - bit (key_eq key k))
unfolding put
lowered m key k n h b = elim (Bool-cases (key_eq key k)) [
  | inl x ↦ rw x (
      ap (λ t. if leb_ℤ t (pos 1) then pos 0 else sub64 t (pos 1)) (ap m (same_key key k x) ∙ h)
      ∙ minus_one n b)
  | inr x ↦ rw x (h ∙ ap pos (omega arith))
]

release_in_flight :
    (k : RuleCounterKey) (keys : List RuleCounterKey) (e : Engine) (n : ℕ)
    → e.in_flight k ≡ pos n
    → n ≤ max_int64
    → (release_concurrency keys e).in_flight k ≡ pos (n - occurrences k keys)
unfolding release_concurrency
release_in_flight k [] e n h b = h ∙ ap pos (omega arith)
release_in_flight k (key ∷ keys) e n h b =
    release_in_flight k keys _ (n - bit (key_eq key k)) (lowered e.in_flight key k n h b)
      (omega (arith, b))
    ∙ ap pos (omega (arith, occurrences_step k key true keys))

few :
    (p : IndexedRule → Bool) (namespace : String) (k : RuleCounterKey) (rules : List IndexedRule)
    → occurrences k (keys_where p namespace rules) ≤ length rules
few p namespace k [] = omega arith
few p namespace k (indexed ∷ rules) =
    let key = key_for namespace indexed in
    omega (
      arith,
      few p namespace k rules,
      at_most_one (p indexed && key_eq key k),
      occurrences_step k key (p indexed) (keys_where p namespace rules),
    )

-- Giving the keys back restores the count.
pub in_flight_restored :
    (namespace : String) (now : ℤ) (context : Context) (k : RuleCounterKey)
    (rules : List IndexedRule) (e e1 : Engine) (r : Reservation) (n : ℕ)
    → r.concurrency_keys ≡ []
    → e.in_flight k ≡ pos n
    → n + length rules ≤ max_int64
    → e1.in_flight ≡ (reserve namespace now context rules e r).0.in_flight
    → (release_concurrency
          (reserve namespace now context rules e r).1.concurrency_keys
          e1).in_flight
        k
      ≡ pos n
in_flight_restored namespace now context k rules e e1 r n none h b q =
    let keys = keys_where limits_concurrency namespace rules in
    let (c, _, _) = reserve_keys namespace now context rules e r in
    ap (λ t. (release_concurrency t e1).in_flight k) (c ∙ ap (λ t. t ++ keys) none)
    ∙ (release_in_flight k keys e1 (n + occurrences k keys)
          (ap (λ t. t k) q ∙ reserve_in_flight namespace now context k rules e r n h b)
          (omega (arith, few limits_concurrency namespace k rules, b))
        ∙ ap pos (omega arith))
