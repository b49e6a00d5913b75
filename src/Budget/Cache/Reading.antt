-- ===== src/Budget/Cache/Reading.antt =====
-- internal/budget/budget.go: the reading of usages by checkLocked.
use burnban.Prelude.{
  ◌∙◌, Memᴰ, ◌%◌, String, Bool, false, ◌&&◌, List, [], ◌∷◌, is_empty, All, str_eq, ◌≡◌, ◌⊎◌, inl,
  inr, refl, ap,
}
use burnban.Prelude.Int.{ℤ, pos, eqb_ℤ}
use burnban.Float.{Float64}
use burnban.Budget.Positions.{BudgetUsage}
use burnban.Budget.Cache.{
  World, Key, Entries, Cache, Attempt, Result, refused, retry, served, attempts, reconcile,
  requests_of, map_served, read_usages,
}
use burnban.Budget.Cache.Coherent.{Belongs, IsCoherent, Exact}
use burnban.Budget.Cache.Served.{IsKnown}
use burnban.Budget.Cache.Attempts.{Sees, Final, IsReadCoherent, attempts-Final}
use burnban.Budget.Cache.Reconciled.{reconcile-IsCoherent, reconcile-revision}

-- What a reading hands out: the attempt whose first and last readings agree on an even revision, which
-- the cache has; the cache and the usages are those of the rows of that moment.
pub record IsExact (requests : List Key) (c : Cache) (us : List BudgetUsage) (a : Attempt)
    : Type 0 where
  pub even : a.first.revision % 2 ≡ 0
  pub unmoved : a.second.revision ≡ a.first.revision
  pub revision : c.revision ≡ a.first.revision
  pub coherent : IsCoherent c a.first
  pub exact : Exact a.first.rows requests us

-- What a reading leaves. Where nothing is asked for, the table is not read.
abbrev pub Good : List Key → World → List Attempt → Result → Type 0
Good requests w tries (refused c) = IsReadCoherent w tries c
Good requests w tries (retry c) = ⊥
Good requests w tries (served c us) =
    ((requests ≡ []) × (us ≡ []) × IsCoherent c w)
    ⊎ ((a : Attempt) × Memᴰ a tries × IsExact requests c us a)

List-cases : (ks : List Key) → (ks ≡ []) ⊎ ((k : Key) × (js : List Key) × (ks ≡ k ∷ js))
List-cases [] = inl refl
List-cases (k ∷ ks) = inr (k, ks, refl)

All-inl :
    (requests : List Key) (c : Cache) (es : Entries)
    → All (λ e. Belongs c e.0) es
    → All (IsKnown requests c) es
All-inl requests c [] h = tt
All-inl requests c (e ∷ es) h = (inl h.0, All-inl requests c es h.1)

module _ (global : List ℤ) (agent : String) (cap_set : Bool) (day : ℤ) where
  module _ (total : List Float64 → Float64) (tries : List Attempt) where
    Final-Good :
        (r : Result) (w : World)
        → eqb_ℤ day (pos 0) ≡ false
        → (cap_set && str_eq agent "") ≡ false
        → Final (requests_of global agent cap_set day) w tries r
        → Good
            (requests_of global agent cap_set day)
            w
            tries
            (map_served (reconcile global agent cap_set day) r)
    Final-Good (refused c) w d named h = h
    Final-Good (retry c) w d named h = h
    Final-Good (served c us) w d named (a, m, h) =
        let t = h.state in
        let q = reconcile-revision global agent cap_set day c in
        inr (
          a,
          m,
          record {
            even = t.even;
            unmoved = h.unmoved;
            revision = q ∙ t.same;
            coherent =
                reconcile-IsCoherent global agent cap_set day c a.first d named
                  (inl (rw t.same t.even)) (inr (t.same, t.agrees)) t.known;
            exact = t.exact;
          },
        )

    -- Where the cache is coherent with the request table, what a reading serves comes from one of its
    -- attempts: one whose first and last readings gave the same even revision. The usages count the
    -- rows of that moment exactly: the requests and the gaps of each window, and the gaps of the agent's
    -- day; and the cache has that revision and agrees with those rows. Where the reading is refused, or
    -- nothing is asked for, the cache is coherent with the table as the call or an attempt found it. It
    -- is so whatever other goroutines do to the table, provided an agent has a cap only with a name and
    -- the day does not start at the epoch.
    pub read_usages-Good :
        (c : Cache) (w : World)
        → IsCoherent c w
        → Sees w tries
        → eqb_ℤ day (pos 0) ≡ false
        → (cap_set && str_eq agent "") ≡ false
        → Good
            (requests_of global agent cap_set day)
            w
            tries
            (read_usages total global agent cap_set day tries c)
    unfolding read_usages
    read_usages-Good c w h s d named =
        let requests = requests_of global agent cap_set day in
        elim (List-cases requests) [
          | inl e ↦
              let known = All-inl requests c c.entries h.belongs in
              rw (read_usages, e)
                (inl (
                  refl,
                  refl,
                  reconcile-IsCoherent global agent cap_set day c w d named h.stable h.agrees known,
                ))
          | inr (k, ks, e) ↦
              let f : is_empty requests ≡ false = ap is_empty e in
              rw (read_usages, f)
                (Final-Good (attempts total requests tries c) w d named
                  (attempts-Final total requests tries c w h s))
        ]
