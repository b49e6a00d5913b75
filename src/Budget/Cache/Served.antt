-- ===== src/Budget/Cache/Served.antt =====
-- internal/budget/budget.go: one attempt of cachedUsagesLocked.
use burnban.Prelude.{
  ◌%◌, true, not, ◌&&◌, ◌||◌, List, [], ◌∷◌, map, ◌==◌, any, all, All, Bool-cases, ◌≡◌, ◌⊎◌, inl,
  inr, refl, sym, ◌∙◌, subst, arith,
}
use burnban.Float.{Float64}
use burnban.Budget.Positions.{BudgetUsage}
use burnban.Budget.Cache.{
  LedgerRow, World, Key, Entries, Cache, Attempt, Result, refused, retry, served, key_eq, answer,
  invalidate, find_entry, is_some, loaded, publish, usage_ok, or_no_usage, current, attempt,
}
use burnban.Budget.Cache.Entries.{
  key_eq_self, All-loaded, All-publish, or_no_usage-All, publish-covers, publish-rest,
}
use burnban.Budget.Cache.Coherent.{
  Agrees, Belongs, IsCoherent, Exact, IsWitness, answer-Agrees, unmoved, current-All,
}

-- Where an entry may come from while a check is under way: it was there before, or it is asked for.
abbrev pub IsKnown : List Key → Cache → Key × BudgetUsage → Type 0
IsKnown requests c e = Belongs c e.0 ⊎ (any (key_eq e.0) requests ≡ true)

-- A cache that has served the requests from one stable revision of the table.
pub record IsServed (requests : List Key) (c : Cache) (us : List BudgetUsage) (w : World)
    : Type 0 where
  pub even : w.revision % 2 ≡ 0
  pub same : c.revision ≡ w.revision
  pub agrees : All (Agrees w.rows) c.entries
  pub known : All (IsKnown requests c) c.entries
  pub exact : Exact w.rows requests us

abbrev pub Outcome : List Key → Attempt → Result → Type 0
Outcome requests a (refused c) = IsCoherent c a.first
Outcome requests a (retry c) = IsCoherent c a.second
Outcome requests a (served c us) =
    (a.second.revision ≡ a.first.revision) × IsServed requests c us a.first

invalidate-IsCoherent : (w : World) → IsCoherent (invalidate w.revision) w
unfolding invalidate
invalidate-IsCoherent w = record { stable = inr refl; agrees = inr (refl, tt); belongs = tt }

current-IsCoherent : (c : Cache) (w : World) → IsCoherent c w → IsCoherent (current w.revision c) w
unfolding current
current-IsCoherent c w h = elim (Bool-cases (c.is_warm && c.revision == w.revision)) [
  | inl t ↦ rw (current, t) h
  | inr f ↦ rw (current, f) (invalidate-IsCoherent w)
]

current-revision : (c : Cache) (w : World) → (current w.revision c).revision ≡ w.revision
unfolding current invalidate
current-revision c w = elim (Bool-cases (c.is_warm && c.revision == w.revision)) [
  | inl t ↦ rw (current, t) (ground (arith, t))
  | inr f ↦ rw (current, f) refl
]

All-of : {P : Key → Type 0} → ((k : Key) → P k) → (ks : List Key) → All P ks
All-of f [] = tt
All-of f (k ∷ ks) = (f k, All-of f ks)

any-weaken :
    (k : Key) (j : Key) (ks : List Key) → any (key_eq k) ks ≡ true → any (key_eq k) (j ∷ ks) ≡ true
any-weaken k j ks h = ground arith

All-each :
    {A : Type 0} {P Q : A → Type 0} → ((a : A) → P a → Q a) → (xs : List A) → All P xs → All Q xs
All-each f [] h = tt
All-each f (x ∷ xs) h = (f x h.0, All-each f xs h.1)

All-requested : (requests : List Key) → All (λ k. any (key_eq k) requests ≡ true) requests
All-requested [] = tt
All-requested (k ∷ ks) =
    (rw (key_eq_self k) refl, All-each (λ j. any-weaken j k ks) ks (All-requested ks))

IsKnown-same :
    (requests : List Key) (c d : Cache)
    → d.active_global ≡ c.active_global
    → d.agent_day ≡ c.agent_day
    → (e : Key × BudgetUsage) → IsKnown requests c e
    → IsKnown requests d e
IsKnown-same requests c d p q e (inr r) = inr r
IsKnown-same requests c d p q e (inl (inl (a, b))) = inl (inl (a, rw p b))
IsKnown-same requests c d p q e (inl (inr (a, b, f))) = inl (inr (a, b ∙ sym q, rw q f))

Exact-map :
    (rows : List LedgerRow) (es : Entries) (ks : List Key)
    → All (Agrees rows) es
    → All (λ k. is_some (find_entry k es) ≡ true) ks
    → Exact rows ks (map (λ k. or_no_usage (find_entry k es)) ks)
Exact-map rows es [] h f = tt
Exact-map rows es (k ∷ ks) h f =
    (or_no_usage-All (Agrees rows) k es h f.0, Exact-map rows es ks h f.1)

module _ (total : List Float64 → Float64) where
  publish-IsServed :
      (requests : List Key) (a : Attempt) (c : Cache)
      → IsCoherent c a.first
      → IsWitness a
      → a.first.revision % 2 ≡ 0
      → a.second.revision ≡ a.first.revision
      → let c' = current a.first.revision c in
        let new = loaded (λ k. answer total (a.at_query k).rows k) requests c'.entries in
        let c'' = publish requests new c' in
        IsServed requests c'' (map (λ k. or_no_usage (find_entry k c''.entries)) requests) a.first
  publish-IsServed requests a c h w even q =
      let c' = current a.first.revision c in
      let ask = λ (k : Key). answer total (a.at_query k).rows k in
      let new = loaded ask requests c'.entries in
      let c'' = publish requests new c' in
      let rest = publish-rest requests new c' in
      let true_answer : (k : Key) → Agrees a.first.rows (k, ask k) = λ k.
        subst (λ (x : World). Agrees a.first.rows (k, answer total x.rows k))
          (sym (unmoved total a w even q k)) (answer-Agrees total a.first.rows k) in
      let agrees =
        All-publish (Agrees a.first.rows) requests new c'
          (All-loaded (Agrees a.first.rows) ask requests c'.entries (All-of true_answer requests))
          (current-All total c a.first h) in
      let known =
        All-publish (IsKnown requests c') requests new c'
          (All-loaded (IsKnown requests c') ask requests c'.entries
            (All-each (λ k r. inr r) requests (All-requested requests)))
          (All-each (λ e b. inl b) c'.entries (current-IsCoherent c a.first h).belongs) in
      let found : All (λ k. is_some (find_entry k c''.entries) ≡ true) requests =
        All-each (λ k r. publish-covers ask k requests c' r) requests (All-requested requests) in
      record {
        even = even;
        same = rest.0 ∙ current-revision c a.first;
        agrees = agrees;
        known = All-each (IsKnown-same requests c' c'' rest.1 rest.2) c''.entries known;
        exact = Exact-map a.first.rows c''.entries requests agrees found;
      }

  pub attempt-Outcome :
      (requests : List Key) (a : Attempt) (c : Cache)
      → IsCoherent c a.first
      → IsWitness a
      → Outcome requests a (attempt total requests a c)
  unfolding attempt
  attempt-Outcome requests a c h w =
      let c' = current a.first.revision c in
      let new = loaded (λ k. answer total (a.at_query k).rows k) requests c'.entries in
      elim (Bool-cases (a.first.revision % 2 == 0)) [
        | inr odd ↦ rw (attempt, odd) h
        | inl even ↦ elim (Bool-cases (a.fails || not (all (λ e. usage_ok e.1) new))) [
          | inl fails ↦ rw (attempt, even, fails) (current-IsCoherent c a.first h)
          | inr fine ↦ elim (Bool-cases (a.second.revision == a.first.revision)) [
            | inr moved ↦ rw (attempt, even, fine, moved) (invalidate-IsCoherent a.second)
            | inl still ↦
                rw (attempt, even, fine, still)
                  (
                    ground (arith, still),
                    publish-IsServed requests a c h w (ground (arith, even))
                        (ground (arith, still)),
                  )
          ]
        ]
      ]
