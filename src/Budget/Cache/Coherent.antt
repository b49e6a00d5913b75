-- ===== src/Budget/Cache/Coherent.antt =====
-- internal/budget/budget.go: a cache that agrees with the ledger.
use burnban.Prelude.{
  ◌%◌, ◌<◌, true, false, ◌&&◌, List, [], ◌∷◌, ◌==◌, ==_iff, length, any, All, keep, str_eq,
  Bool-cases, ◌≡◌, ◌⊎◌, inl, inr, refl, sym, ap, ◌∙◌, subst, arith,
}
use burnban.Prelude.Int.{pos, eqb_ℤ}
use burnban.Float.{Float64}
use burnban.Budget.Positions.{BudgetUsage}
use burnban.Budget.Cache.{
  cold, LedgerRow, World, Key, Cache, Attempt, applies, count_unsafe, answer, invalidate, current,
}
use burnban.Budget.Cache.Worlds.{Evolves, Evolves-le, Evolves-still}

-- The counts of an entry are those of the ledger's rows. An agent's entry counts only its gaps.
abbrev pub Agrees : List LedgerRow → Key × BudgetUsage → Type 0
Agrees rows e =
    (e.1.enforcement_gaps ≡ pos (count_unsafe (keep (applies e.0) rows)))
    × ((str_eq e.0.agent "" ≡ false) ⊎ (e.1.requests ≡ pos (length (keep (applies e.0) rows))))

-- A window is among the active ones, and an agent's day is the cache's, which is set.
abbrev pub Belongs : Cache → Key → Type 0
Belongs c k =
    ((str_eq k.agent "" ≡ true) × (any (eqb_ℤ k.start) c.active_global ≡ true))
    ⊎ ((str_eq k.agent "" ≡ false) × (k.start ≡ c.agent_day) × (eqb_ℤ c.agent_day (pos 0) ≡ false))

pub record IsCoherent (c : Cache) (w : World) : Type 0 where
  pub stable : (c.revision % 2 ≡ 0) ⊎ (c.entries ≡ [])
  pub agrees :
      (c.revision < w.revision) ⊎ ((c.revision ≡ w.revision) × All (Agrees w.rows) c.entries)
  pub belongs : All (λ e. Belongs c e.0) c.entries

cold-IsCoherent : (w : World) → IsCoherent cold w
cold-IsCoherent w = record {
  stable = inr refl;
  agrees = elim (Bool-cases (w.revision == 0)) [
    | inl t ↦ inr (ground (arith, t), tt)
    | inr f ↦ inl (ground (arith, f))
  ];
  belongs = tt;
}

-- Coherence outlives what other goroutines do.
pub IsCoherent-Evolves : {c : Cache} {w v : World} → IsCoherent c w → Evolves w v → IsCoherent c v
IsCoherent-Evolves {c} {w} {v} h e = record {
  stable = h.stable;
  belongs = h.belongs;
  agrees = later h.agrees;
}
  where
    later :
        (c.revision < w.revision) ⊎ ((c.revision ≡ w.revision) × All (Agrees w.rows) c.entries)
        → (c.revision < v.revision) ⊎ ((c.revision ≡ v.revision) × All (Agrees v.rows) c.entries)
    later (inl l) = inl (omega (arith, Evolves-le e))
    later (inr (q, a)) = elim (Bool-cases (v.revision == w.revision)) [
      | inr f ↦ inl (ground (arith, Evolves-le e))
      | inl t ↦ elim h.stable [
        | inl even ↦
            let same : v ≡ w = Evolves-still e (omega arith) ((==_iff v.revision w.revision).0 t) in
            inr (
              q ∙ ap (λ (x : World). x.revision) (sym same),
              subst (λ (x : World). All (Agrees x.rows) c.entries) (sym same) a,
            )
        | inr empty ↦ inr (ground arith, subst (All (Agrees v.rows)) (sym empty) tt)
      ]
    ]

-- The usages that a call returns are those of the ledger's rows.
abbrev pub Exact : List LedgerRow → List Key → List BudgetUsage → Type 0
Exact rows [] [] = Unit {0}
Exact rows [] (u ∷ us) = ⊥
Exact rows (k ∷ ks) [] = ⊥
Exact rows (k ∷ ks) (u ∷ us) = Agrees rows (k, u) × Exact rows ks us

-- What an attempt sees, while other goroutines change the table.
pub record IsWitness (a : Attempt) : Type 0 where
  pub before : (k : Key) → Evolves a.first (a.at_query k)
  pub after : (k : Key) → Evolves (a.at_query k) a.second

module _ (total : List Float64 → Float64) where
  pub answer-Agrees : (rows : List LedgerRow) (k : Key) → Agrees rows (k, answer total rows k)
  unfolding answer
  answer-Agrees rows k = elim (Bool-cases (str_eq k.agent "")) [
    | inl t ↦ (refl, inr (rw (answer, t) refl))
    | inr f ↦ (refl, inl f)
  ]

  -- Where both readings give one even revision, every query saw the first world.
  pub unmoved :
      (a : Attempt)
      → IsWitness a
      → a.first.revision % 2 ≡ 0
      → a.second.revision ≡ a.first.revision
      → (k : Key) → a.at_query k ≡ a.first
  unmoved a w e q k =
      Evolves-still (w.before k) e (omega (arith, Evolves-le (w.before k), Evolves-le (w.after k)))

  -- The cache of an even revision holds nothing that the ledger would not answer.
  pub current-All :
      (c : Cache) (w : World) → IsCoherent c w → All (Agrees w.rows) (current w.revision c).entries
  unfolding current invalidate
  current-All c w h = elim (Bool-cases (c.is_warm && c.revision == w.revision)) [
    | inr f ↦ rw (current, f) tt
    | inl t ↦ elim h.agrees [
      | inl l ↦ absurd (ground (arith, t, l))
      | inr (q, a) ↦ rw (current, t) a
    ]
  ]
