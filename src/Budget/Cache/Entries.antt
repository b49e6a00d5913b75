-- ===== src/Budget/Cache/Entries.antt =====
-- internal/budget/budget.go: the entries of the cache.
use burnban.Prelude.{
  ◌+◌, Bool, true, false, not, ◌||◌, some, List, [], ◌∷◌, ◌++◌, ◌==◌, ltb, length, any, All, keep,
  some_inj, str_eq, eq_iff, Bool-cases, Option-cases, and_true, ◌≡◌, inl, inr, refl, sym, ap, ◌∙◌,
  subst, arith,
}
use burnban.Prelude.Int.{ℤ, eqb_ℤ}
use burnban.Budget.Positions.{BudgetUsage}
use burnban.Budget.Cache.{
  Key, Entries, Cache, key_eq, find_entry, is_some, loaded, of_agent, bounded, publish, or_no_usage,
  max_agent_entries,
}

eqb_ℤ-eq : (a b : ℤ) → eqb_ℤ a b ≡ true → a ≡ b
eqb_ℤ-eq a b h = ground arith

pub key_eq-eq : (a b : Key) → key_eq a b ≡ true → a ≡ b
unfolding key_eq
key_eq-eq a b h =
    let (s, n) = and_true (eqb_ℤ a.start b.start) (str_eq a.agent b.agent) h in
    λ i. record { start = eqb_ℤ-eq a.start b.start s i; agent = (eq_iff a.agent b.agent).0 n i }

pub key_eq_self : (k : Key) → key_eq k k ≡ true
unfolding key_eq
key_eq_self k = ground (arith, eq_iff k.agent k.agent)

pub All-keep_with :
    {P Q : Key × BudgetUsage → Type 0} (p : Key × BudgetUsage → Bool)
    → ((e : Key × BudgetUsage) → P e → p e ≡ true → Q e)
    → (es : Entries) → All P es
    → All Q (keep p es)
All-keep_with p f [] h = tt
All-keep_with p f (e ∷ es) h = elim (Bool-cases (p e)) [
  | inl t ↦ rw (keep, t) (f e h.0 t, All-keep_with p f es h.1)
  | inr x ↦ rw (keep, x) (All-keep_with p f es h.1)
]

module _ (P : Key × BudgetUsage → Type 0) where
  pub All-keep : (p : Key × BudgetUsage → Bool) (es : Entries) → All P es → All P (keep p es)
  All-keep p [] h = tt
  All-keep p (e ∷ es) h = ground (arith, All-keep p es h.1)

  pub All-append : (es fs : Entries) → All P es → All P fs → All P (es ++ fs)
  All-append [] fs h k = k
  All-append (e ∷ es) fs h k = (h.0, All-append es fs h.1 k)

  pub All-loaded :
      (ask : Key → BudgetUsage) (ks : List Key) (es : Entries)
      → All (λ k. P (k, ask k)) ks
      → All P (loaded ask ks es)
  unfolding loaded
  All-loaded ask [] es h = tt
  All-loaded ask (k ∷ ks) es h = elim (Bool-cases (is_some (find_entry k es))) [
    | inl t ↦ rw (loaded, t) (All-loaded ask ks es h.1)
    | inr f ↦ rw (loaded, f) (h.0, All-loaded ask ks ((k, ask k) ∷ es) h.1)
  ]

  All-bounded : (ks : List Key) (c : Cache) → All P c.entries → All P (bounded ks c).entries
  unfolding bounded
  All-bounded ks c h = elim (Bool-cases (ltb max_agent_entries c.agent_entries)) [
    | inl t ↦ rw (bounded, t) (All-keep _ c.entries h)
    | inr f ↦ rw (bounded, f) h
  ]

  pub All-publish :
      (ks : List Key) (new : Entries) (c : Cache)
      → All P new
      → All P c.entries
      → All P (publish ks new c).entries
  unfolding publish
  All-publish ks new c h k =
      let both = All-append new c.entries h k in
      elim (Bool-cases (length (keep of_agent new) == 0)) [
        | inl t ↦ rw (publish, t) both
        | inr f ↦ rw (publish, f) (All-bounded ks _ both)
      ]

  find_entry-All :
      (k : Key) (u : BudgetUsage) (es : Entries) → All P es → find_entry k es ≡ some u → P (k, u)
  unfolding find_entry
  find_entry-All k u [] h f = cc
  find_entry-All k u ((j, v) ∷ es) h f = elim (Bool-cases (key_eq k j)) [
    | inr t ↦ find_entry-All k u es h.1 (rw (find_entry, t) at f)
    | inl t ↦
        let e : v ≡ u = some_inj (rw (find_entry, t) at f) in
        subst (λ x. P (x, u)) (sym (key_eq-eq k j t)) (subst (λ x. P (j, x)) e h.0)
  ]

  -- What is found, where something is.
  pub or_no_usage-All :
      (k : Key) (es : Entries)
      → All P es
      → is_some (find_entry k es) ≡ true
      → P (k, or_no_usage (find_entry k es))
  or_no_usage-All k es h t = elim (Option-cases (find_entry k es)) [
    | inl e ↦ cc (t, ap is_some e)
    | inr (u, e) ↦ rw e (find_entry-All k u es h e)
  ]

is_some-append :
    (k : Key) (es fs : Entries)
    → is_some (find_entry k (es ++ fs)) ≡ (is_some (find_entry k es) || is_some (find_entry k fs))
unfolding find_entry
is_some-append k [] fs = refl
is_some-append k ((j, u) ∷ es) fs = ground (arith, is_some-append k es fs)

is_some-cons :
    (k j : Key) (u : BudgetUsage) (es : Entries)
    → is_some (find_entry k ((j, u) ∷ es)) ≡ (key_eq k j || is_some (find_entry k es))
unfolding find_entry
is_some-cons k j u es = ground arith

loaded_old :
    (ask : Key → BudgetUsage) (j : Key) (ks : List Key) (es : Entries)
    → is_some (find_entry j es) ≡ true
    → loaded ask (j ∷ ks) es ≡ loaded ask ks es
unfolding loaded
loaded_old ask j ks es t = rw (loaded, t) refl

loaded_new :
    (ask : Key → BudgetUsage) (j : Key) (ks : List Key) (es : Entries)
    → is_some (find_entry j es) ≡ false
    → loaded ask (j ∷ ks) es ≡ (j, ask j) ∷ loaded ask ks ((j, ask j) ∷ es)
unfolding loaded
loaded_new ask j ks es f = rw (loaded, f) refl

covers :
    (ask : Key → BudgetUsage) (k : Key) (ks : List Key) (es : Entries)
    → (any (key_eq k) ks || is_some (find_entry k es)) ≡ true
    → is_some (find_entry k (loaded ask ks es ++ es)) ≡ true
unfolding loaded
covers ask k [] es h = h
covers ask k (j ∷ ks) es h = elim (Bool-cases (is_some (find_entry j es))) [
  | inl t ↦
      let ih = covers ask k ks es in
      let there : key_eq k j ≡ true → is_some (find_entry k es) ≡ true =
        λ q. subst (λ x. is_some (find_entry x es) ≡ true) (sym (key_eq-eq k j q)) t in
      subst (λ l. is_some (find_entry k (l ++ es)) ≡ true) (sym (loaded_old ask j ks es t))
        (ih (known (key_eq k j) (any (key_eq k) ks) (is_some (find_entry k es)) there h))
  | inr f ↦
      let L = loaded ask ks ((j, ask j) ∷ es) in
      let ih = covers ask k ks ((j, ask j) ∷ es) in
      subst (λ l. is_some (find_entry k (l ++ es)) ≡ true) (sym (loaded_new ask j ks es f))
        (is_some-cons k j (ask j) (L ++ es)
          ∙ ap (λ b. key_eq k j || b) (is_some-append k L es)
          ∙ moved (key_eq k j) (is_some (find_entry k L)) (is_some (find_entry k es)) (
              sym (ap (λ b. is_some (find_entry k L) || b) (is_some-cons k j (ask j) es))
              ∙ sym (is_some-append k L ((j, ask j) ∷ es))
              ∙ ih (
                  ap (λ b. any (key_eq k) ks || b) (is_some-cons k j (ask j) es)
                  ∙ regrouped (key_eq k j) (any (key_eq k) ks) (is_some (find_entry k es)) h)))
]
  where
    known : (a b c : Bool) → (a ≡ true → c ≡ true) → (a || b || c) ≡ true → (b || c) ≡ true
    known true b c f h = ground (arith, f refl)
    known false b c f h = h

    moved : (a b c : Bool) → (b || (a || c)) ≡ true → (a || (b || c)) ≡ true
    moved a b c h = ground arith

    regrouped : (a b c : Bool) → (a || b || c) ≡ true → (b || (a || c)) ≡ true
    regrouped a b c h = ground arith

-- Every key that is asked for is there afterwards.
pub loaded-covers :
    (ask : Key → BudgetUsage) (k : Key) (ks : List Key) (es : Entries)
    → any (key_eq k) ks ≡ true
    → is_some (find_entry k (loaded ask ks es ++ es)) ≡ true
loaded-covers ask k ks es h = covers ask k ks es (ground arith)

-- An entry that is kept is found as before.
pub is_some-keep :
    (p : Key × BudgetUsage → Bool) (k : Key) (es : Entries)
    → ((u : BudgetUsage) → p (k, u) ≡ true)
    → is_some (find_entry k es) ≡ true
    → is_some (find_entry k (keep p es)) ≡ true
unfolding find_entry
is_some-keep p k [] q h = h
is_some-keep p k ((j, u) ∷ es) q h = elim (Bool-cases (key_eq k j)) [
  | inl t ↦
      let kept : p (j, u) ≡ true = subst (λ x. p (x, u) ≡ true) (key_eq-eq k j t) (q u) in
      rw (kept, keep, t) refl
  | inr f ↦
      let ih = is_some-keep p k es q in
      elim (Bool-cases (p (j, u))) [
        | inl x ↦ rw (x, keep, f) (ih (rw f at h))
        | inr x ↦ rw (x, keep) (ih (rw f at h))
      ]
]

-- What was asked for is found in the cache that is published.
pub publish-covers :
    (ask : Key → BudgetUsage) (k : Key) (ks : List Key) (c : Cache)
    → any (key_eq k) ks ≡ true
    → is_some (find_entry k (publish ks (loaded ask ks c.entries) c).entries) ≡ true
unfolding publish bounded
publish-covers ask k ks c h =
    let found = loaded-covers ask k ks c.entries h in
    let new = loaded ask ks c.entries in
    elim (Bool-cases (length (keep of_agent new) == 0)) [
      | inl t ↦ rw (publish, t) found
      | inr f ↦
          elim (Bool-cases (ltb max_agent_entries (c.agent_entries + length (keep of_agent new)))) [
            | inr g ↦ rw (publish, f, bounded, g) found
            | inl g ↦
                rw (publish, f, bounded, g)
                  (is_some-keep (λ e. not (of_agent e) || any (key_eq e.0) ks) k (new ++ c.entries)
                    (λ u. kept (of_agent (k, u)) (any (key_eq k) ks) h) found)
          ]
    ]
  where
    kept : (a b : Bool) → b ≡ true → (not a || b) ≡ true
    kept a b q = ground arith

-- Publishing changes the entries and their count only.
pub publish-rest :
    (ks : List Key) (new : Entries) (c : Cache)
    → ((publish ks new c).revision ≡ c.revision)
      × ((publish ks new c).active_global ≡ c.active_global)
      × ((publish ks new c).agent_day ≡ c.agent_day)
unfolding publish bounded
publish-rest ks new c =
    let added = length (keep of_agent new) in
    elim (Bool-cases (added == 0)) [
      | inl t ↦ rw (publish, t) (refl, refl, refl)
      | inr f ↦ elim (Bool-cases (ltb max_agent_entries (c.agent_entries + added))) [
        | inl g ↦ rw (publish, f, bounded, g) (refl, refl, refl)
        | inr g ↦ rw (publish, f, bounded, g) (refl, refl, refl)
      ]
    ]
