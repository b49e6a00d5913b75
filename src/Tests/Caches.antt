-- ===== src/Tests/Caches.antt =====
-- One request in the table, a cached window that counts it, and a second request that arrives.
use burnban.Prelude.{ℕ, ◌*◌, ◌≡◌, refl, inl, inr, true, false, List, [], ◌∷◌, arith}
use burnban.Prelude.Int.{pos}
use burnban.Float
use burnban.Float.{Float64}
use burnban.Budget.Positions.{BudgetUsage}
use burnban.Budget.Cache.{
  LedgerRow, World, Cache, Attempt, applies, requests_of, read_usages, bumped, settle_cache,
}
use burnban.Budget.Cache.Worlds.{begins, commits, ends, Evolves, here, next, inserted}
use burnban.Budget.Cache.Coherent.{IsCoherent}
use burnban.Budget.Cache.Attempts.{Sees}
use burnban.Budget.Cache.Reading.{Good, read_usages-Good}
use burnban.Budget.Cache.Settled.{settle_cache-IsCoherent}

abbrev dollars : ℕ → Float64
dollars n = Float.fin (pos (n * Float.one_in_units))

abbrev sum : List Float64 → Float64
sum [] = Float.fin (pos 0)
sum (x ∷ xs) = Float.add x (sum xs)

abbrev first_row : LedgerRow
first_row = record { ts = pos 120; agent = "ann"; cost_usd = dollars 3; is_unsafe = false }

abbrev second_row : LedgerRow
second_row = record { ts = pos 150; agent = "ann"; cost_usd = dollars 2; is_unsafe = true }

abbrev table : World
table = record { revision = 4; rows = first_row ∷ [] }

abbrev writing : World
writing = record { revision = 5; rows = first_row ∷ [] }

abbrev grown : World
grown = record { revision = 6; rows = second_row ∷ first_row ∷ [] }

abbrev used : BudgetUsage
used = record { spent_usd = dollars 3; enforcement_gaps = pos 0; requests = pos 1 }

abbrev warm : Cache
warm = record {
  revision = 4;
  is_warm = true;
  entries = (record { start = pos 100; agent = "" }, used) ∷ [];
  active_global = pos 100 ∷ [];
  agent_day = pos 100;
  agent_entries = 0;
}

warm-IsCoherent : IsCoherent warm table
unfolding applies
warm-IsCoherent = record {
  stable = inl refl;
  agrees = inr (refl, ((refl, inr refl), tt));
  belongs = (inl (refl, refl), tt);
}

abbrev moving : Attempt
moving = record { first = table; at_query = λ k. table; second = writing; fails = false }

abbrev still : Attempt
still = record { first = grown; at_query = λ k. grown; second = grown; fails = false }

grows : Evolves writing grown
grows = next (next here (commits (second_row ∷ first_row ∷ []) refl)) (ends refl)

seen : Sees table (moving ∷ still ∷ [])
seen = (
  here,
  record { before = λ k. here; after = λ k. next here (begins refl) },
  (grows, record { before = λ k. here; after = λ k. here }, tt),
)

-- The second attempt serves the table that the first saw change.
read_usages-Good_example :
    Good
      (requests_of (pos 100 ∷ []) "ann" true (pos 100))
      table
      (moving ∷ still ∷ [])
      (read_usages sum (pos 100 ∷ []) "ann" true (pos 100) (moving ∷ still ∷ []) warm)
read_usages-Good_example =
    read_usages-Good (pos 100 ∷ []) "ann" true (pos 100) sum (moving ∷ still ∷ []) warm table
      warm-IsCoherent seen refl refl

settle_cache-IsCoherent_example :
    IsCoherent
      (settle_cache 4 6 (record { start = pos 100; agent = "ann" }) second_row warm)
      (inserted second_row table)
settle_cache-IsCoherent_example =
    settle_cache-IsCoherent warm (record { start = pos 100; agent = "ann" }) second_row
      warm-IsCoherent here refl here (omega arith) refl (inl refl)

-- The cached window counts the second request and its gap.
settled_entry :
    (settle_cache 4 6 (record { start = pos 100; agent = "ann" }) second_row warm).entries
    ≡ (record { start = pos 100; agent = "" }, bumped second_row used) ∷ []
unfolding settle_cache
settled_entry = refl
