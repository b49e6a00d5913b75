-- ===== src/Budget/Cache/Reconciled.antt =====
-- internal/budget/budget.go: reconcileUsageCacheLocked.
use burnban.Prelude.{
  ◌%◌, ◌<◌, String, Bool, true, false, not, ◌&&◌, ◌||◌, List, [], ◌∷◌, ◌++◌, map, any, All, str_eq,
  Bool-cases, and_true, if◌then◌else◌, ◌≡◌, ◌⊎◌, inl, inr, refl, sym, ap, ◌∙◌, arith,
}
use burnban.Prelude.Int.{ℤ, pos, eqb_ℤ}
use burnban.Budget.Positions.{BudgetUsage}
use burnban.Budget.Cache.{World, Key, Cache, key_eq, of_agent, reconcile, requests_of}
use burnban.Budget.Cache.Entries.{key_eq-eq, All-keep, All-keep_with}
use burnban.Budget.Cache.Coherent.{Agrees, Belongs, IsCoherent}
use burnban.Budget.Cache.Served.{IsKnown}

any-append : (p : Key → Bool) (xs ys : List Key) → any p (xs ++ ys) ≡ (any p xs || any p ys)
any-append p [] ys = refl
any-append p (x ∷ xs) ys = ground (arith, any-append p xs ys)

any-global :
    (k : Key) (global : List ℤ)
    → any (key_eq k) (map (λ t. record { start = t; agent = "" }) global)
      ≡ (str_eq k.agent "" && any (eqb_ℤ k.start) global)
unfolding key_eq
any-global k [] = ground arith
any-global k (t ∷ ts) = ground (arith, any-global k ts)

eqb-≡ : (a b : ℤ) → eqb_ℤ a b ≡ true → a ≡ b
eqb-≡ a b h = ground arith

module _ (global : List ℤ) (agent : String) (cap_set : Bool) (day : ℤ) where
  -- Where an entry belongs once the windows and the day are those of this check.
  abbrev BelongsNow : Key → Type 0
  BelongsNow k =
      ((str_eq k.agent "" ≡ true) × (any (eqb_ℤ k.start) global ≡ true))
      ⊎ ((str_eq k.agent "" ≡ false) × (k.start ≡ day) × (eqb_ℤ day (pos 0) ≡ false))

  agent-BelongsNow :
      (k : Key)
      → eqb_ℤ day (pos 0) ≡ false
      → (cap_set && str_eq agent "") ≡ false
      → any (key_eq k) (if cap_set then record { start = day; agent = agent } ∷ [] else []) ≡ true
      → BelongsNow k
  agent-BelongsNow k d named h = elim (Bool-cases cap_set) [
    | inr f ↦ cc (rw f at h)
    | inl t ↦
        let one : (key_eq k (record { start = day; agent = agent }) || false) ≡ true = rw t at h in
        let e : k ≡ record { start = day; agent = agent } = key_eq-eq k _ (ground arith) in
        let n : str_eq agent "" ≡ false = rw t at named in
        inr (rw e n, ap (λ (x : Key). x.start) e, d)
  ]

  requests-Belongs :
      (k : Key)
      → eqb_ℤ day (pos 0) ≡ false
      → (cap_set && str_eq agent "") ≡ false
      → any (key_eq k) (requests_of global agent cap_set day) ≡ true
      → BelongsNow k
  unfolding requests_of
  requests-Belongs k d named h =
      let agents = if cap_set then record { start = day; agent = agent } ∷ [] else [] in
      let split : ((str_eq k.agent "" && any (eqb_ℤ k.start) global) || any (key_eq k) agents)
          ≡ true =
        ap (λ b. b || any (key_eq k) agents) (sym (any-global k global))
        ∙ sym (any-append (key_eq k) (map (λ t. record { start = t; agent = "" }) global) agents)
        ∙ h in
      elim (Bool-cases (str_eq k.agent "" && any (eqb_ℤ k.start) global)) [
        | inl t ↦ inl (and_true (str_eq k.agent "") (any (eqb_ℤ k.start) global) t)
        | inr f ↦ agent-BelongsNow k d named (rw f at split)
      ]

  reconcile-Belongs :
      (c : Cache)
      → eqb_ℤ day (pos 0) ≡ false
      → (cap_set && str_eq agent "") ≡ false
      → All (IsKnown (requests_of global agent cap_set day) c) c.entries
      → All
          (λ e. Belongs (reconcile global agent cap_set day c) e.0)
          (reconcile global agent cap_set day c).entries
  unfolding reconcile
  reconcile-Belongs c d named h =
      let stale : Key × BudgetUsage → Bool = λ e.
        str_eq e.0.agent ""
        && any (eqb_ℤ e.0.start) c.active_global
        && not (any (eqb_ℤ e.0.start) global) in
      let rolled = not (eqb_ℤ c.agent_day (pos 0)) && not (eqb_ℤ c.agent_day day) in
      let passes : Key × BudgetUsage → Bool =
        λ e. not (stale e) && not (rolled && (of_agent e && not (eqb_ℤ e.0.start day))) in
      let pointwise : (e : Key × BudgetUsage)
          → IsKnown (requests_of global agent cap_set day) c e
          → passes e ≡ true
          → BelongsNow e.0 =
        λ e k p. elim k [
          | inr r ↦ requests-Belongs e.0 d named r
          | inl (inl (g, act)) ↦ inl (g, ground (arith, p))
          | inl (inr (g, s, nz)) ↦ inr (
            g,
            elim (Bool-cases (eqb_ℤ c.agent_day day)) [
              | inl t ↦ s ∙ eqb-≡ c.agent_day day t
              | inr f ↦ eqb-≡ e.0.start day (ground (arith, p, g, nz, f))
            ],
            d,
          )
        ] in
      let live = All-keep_with passes pointwise c.entries h in
      elim (Bool-cases (not (str_eq agent "") && not cap_set)) [
        | inl t ↦ rw t (All-keep (λ e. BelongsNow e.0) _ _ live)
        | inr f ↦ rw f live
      ]

  reconcile-All :
      (P : Key × BudgetUsage → Type 0) (c : Cache)
      → All P c.entries
      → All P (reconcile global agent cap_set day c).entries
  unfolding reconcile
  reconcile-All P c h = elim (Bool-cases (not (str_eq agent "") && not cap_set)) [
    | inl t ↦ rw t (All-keep P _ _ (All-keep P _ c.entries h))
    | inr f ↦ rw f (All-keep P _ c.entries h)
  ]

  reconcile-empty :
      (c : Cache) → c.entries ≡ [] → (reconcile global agent cap_set day c).entries ≡ []
  unfolding reconcile
  reconcile-empty c h = elim (Bool-cases (not (str_eq agent "") && not cap_set)) [
    | inl t ↦ rw (t, h) refl
    | inr f ↦ rw (f, h) refl
  ]

  pub reconcile-revision :
      (c : Cache) → (reconcile global agent cap_set day c).revision ≡ c.revision
  unfolding reconcile
  reconcile-revision c = refl

  pub reconcile-IsCoherent :
      (c : Cache) (w : World)
      → eqb_ℤ day (pos 0) ≡ false
      → (cap_set && str_eq agent "") ≡ false
      → (c.revision % 2 ≡ 0) ⊎ (c.entries ≡ [])
      → (c.revision < w.revision) ⊎ ((c.revision ≡ w.revision) × All (Agrees w.rows) c.entries)
      → All (IsKnown (requests_of global agent cap_set day) c) c.entries
      → IsCoherent (reconcile global agent cap_set day c) w
  reconcile-IsCoherent c w d named stable agrees known =
      let q = reconcile-revision c in
      record {
        stable = elim stable [
          | inl even ↦ inl (rw q even)
          | inr none_left ↦ inr (reconcile-empty c none_left)
        ];
        agrees = elim agrees [
          | inl l ↦ inl (rw q l)
          | inr (e, a) ↦ inr (q ∙ e, reconcile-All (Agrees w.rows) c a)
        ];
        belongs = reconcile-Belongs c d named known;
      }
