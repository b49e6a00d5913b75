-- ===== src/Budget/Cache/Attempts.antt =====
-- internal/budget/budget.go: the attempts of cachedUsagesLocked, one after another.
use burnban.Prelude.{List, [], ◌∷◌, Memᴰ, ◌≡◌, ◌⊎◌, inl, inr, refl}
use burnban.Budget.Positions.{BudgetUsage}
use burnban.Float.{Float64}
use burnban.Budget.Cache.{
  World, Key, Cache, Attempt, Result, refused, retry, served, attempt, attempts,
}
use burnban.Budget.Cache.Worlds.{Evolves}
use burnban.Budget.Cache.Coherent.{IsCoherent, IsCoherent-Evolves, IsWitness}
use burnban.Budget.Cache.Served.{IsServed, Outcome, attempt-Outcome}

-- The attempts follow one another, while other goroutines change the table.
abbrev pub Sees : World → List Attempt → Type 0
Sees w [] = Unit {0}
Sees w (a ∷ rest) = Evolves w a.first × IsWitness a × Sees a.second rest

-- A cache that an attempt served: nothing moved between its two readings of the revision, which the
-- cache has, and the cache and the usages agree with the rows of that moment.
pub record ServedBy (requests : List Key) (c : Cache) (us : List BudgetUsage) (a : Attempt)
    : Type 0 where
  pub unmoved : a.second.revision ≡ a.first.revision
  pub state : IsServed requests c us a.first

-- The cache agrees with the table as the call found it, or as an attempt read it first or last.
abbrev pub IsReadCoherent : World → List Attempt → Cache → Type 0
IsReadCoherent w tries c =
    IsCoherent c w ⊎ ((a : Attempt) × Memᴰ a tries × (IsCoherent c a.first ⊎ IsCoherent c a.second))

abbrev pub Final : List Key → World → List Attempt → Result → Type 0
Final requests w tries (refused c) = IsReadCoherent w tries c
Final requests w tries (retry c) = ⊥
Final requests w tries (served c us) = (a : Attempt) × Memᴰ a tries × ServedBy requests c us a

Final-later :
    (requests : List Key) (w : World) (a : Attempt) (rest : List Attempt) (r : Result)
    → Final requests a.second rest r
    → Final requests w (a ∷ rest) r
Final-later requests w a rest (refused c) (inl h) = inr (a, Memᴰ.head refl, inr h)
Final-later requests w a rest (refused c) (inr (b, m, h)) = inr (b, Memᴰ.tail m, h)
Final-later requests w a rest (retry c) h = h
Final-later requests w a rest (served c us) (b, m, h) = (b, Memᴰ.tail m, h)

module _ (total : List Float64 → Float64) where
  Outcome-Final :
      (requests : List Key) (w : World) (a : Attempt) (r : Result) (rest : List Attempt)
      → Outcome requests a r
      → ((c : Cache)
          → IsCoherent c a.second
          → Final requests a.second rest (attempts total requests rest c))
      → Final requests w (a ∷ rest) (elim r [
        | refused c' ↦ refused c'
        | served c' usages ↦ served c' usages
        | retry c' ↦ attempts total requests rest c'
      ])
  Outcome-Final requests w a (refused c) rest h next_one = inr (a, Memᴰ.head refl, inl h)
  Outcome-Final requests w a (served c us) rest (q, h) next_one =
      (a, Memᴰ.head refl, record { unmoved = q; state = h })
  Outcome-Final requests w a (retry c) rest h next_one =
      Final-later requests w a rest (attempts total requests rest c) (next_one c h)

  pub attempts-Final :
      (requests : List Key) (tries : List Attempt) (c : Cache) (w : World)
      → IsCoherent c w
      → Sees w tries
      → Final requests w tries (attempts total requests tries c)
  unfolding attempts
  attempts-Final requests [] c w h s = inl h
  attempts-Final requests (a ∷ rest) c w h (e, seen, later) =
      Outcome-Final requests w a (attempt total requests a c) rest
        (attempt-Outcome total requests a c (IsCoherent-Evolves h e) seen)
        (λ c' h'. attempts-Final requests rest c' a.second h' later)
