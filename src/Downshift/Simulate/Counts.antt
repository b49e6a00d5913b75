-- ===== src/Downshift/Simulate/Counts.antt =====
-- internal/downshift/simulate.go: what the counters of a replay mean.
use burnban.Prelude.{
  ℕ, ◌+◌, ◌^◌, ◌≤◌, ◌<◌, String, List, [], ◌∷◌, length, str_eq, Bool-cases, ◌≡◌, inl, inr, refl,
  map, arith,
}
use burnban.Pricing.Types.{Table, Go}
use burnban.Downshift.Config.{Compiled}
use burnban.Downshift.History.{Row, Decoders}
use burnban.Downshift.Simulate.{
  SimulationReport, new_report, Outcome, unmatched, indeterminate, ineligible, counted, tick,
  tick_reason, tally, outcome, add, add_all,
}

-- How many outcomes pass a test.
abbrev pub number : (Outcome → ℕ) → List Outcome → ℕ
number f [] = 0
number f (o ∷ rest) = f o + number f rest

abbrev pub one_if_counted : Outcome → ℕ
one_if_counted (counted c) = 1
one_if_counted _ = 0

abbrev pub one_if_ineligible : Outcome → ℕ
one_if_ineligible (ineligible r) = 1
one_if_ineligible _ = 0

abbrev pub one_if_indeterminate : Outcome → ℕ
one_if_indeterminate (indeterminate r) = 1
one_if_indeterminate _ = 0

abbrev pub sum_reasons : List (String × ℕ) → ℕ
sum_reasons [] = 0
sum_reasons ((r, n) ∷ rest) = n + sum_reasons rest

tick_exact : (n : ℕ) → n + 1 < 2 ^ 64 → tick n ≡ n + 1
tick_exact n h = omega arith

sum-tick_reason :
    (reason : String) (l : List (String × ℕ))
    → sum_reasons l + 1 < 2 ^ 64
    → sum_reasons (tick_reason reason l) ≡ sum_reasons l + 1
unfolding tick_reason
sum-tick_reason reason [] h = refl
sum-tick_reason reason ((r, n) ∷ rest) h = elim (Bool-cases (str_eq reason r)) [
  | inl e ↦ rw e (omega (arith, tick_exact n (omega arith)))
  | inr e ↦ rw e (omega (arith, sum-tick_reason reason rest (omega arith)))
]

-- Every row that a rule matches is of one of the three kinds, and every reason was given by a row.
pub record IsBalanced (r : SimulationReport) : Type 0 where
  pub parts :
      r.matched_requests ≡ r.eligible_requests + r.ineligible_requests + r.indeterminate_requests
  pub reasons : sum_reasons r.reasons ≡ r.ineligible_requests + r.indeterminate_requests
  pub within : r.matched_requests ≤ r.total_requests

-- A report after more outcomes.
pub record Adds (r r' : SimulationReport) (outs : List Outcome) : Type 0 where
  pub total : r'.total_requests ≡ r.total_requests + length outs
  pub eligible : r'.eligible_requests ≡ r.eligible_requests + number one_if_counted outs
  pub ineligible : r'.ineligible_requests ≡ r.ineligible_requests + number one_if_ineligible outs
  pub indeterminate :
      r'.indeterminate_requests ≡ r.indeterminate_requests + number one_if_indeterminate outs

tally-IsBalanced :
    (r : SimulationReport) (row : Row) (o : Outcome)
    → IsBalanced r
    → r.total_requests + 1 < 2 ^ 64
    → IsBalanced (tally r row o)
unfolding tally
tally-IsBalanced r row unmatched b h = record {
  parts = b.parts;
  reasons = b.reasons;
  within = omega (arith, b.within);
}
tally-IsBalanced r row (indeterminate reason) b h = record {
  parts = omega (arith, b.within, b.parts);
  reasons = omega (
    arith,
    b.within,
    b.parts,
    b.reasons,
    sum-tick_reason reason r.reasons (omega (arith, b.reasons, b.parts, b.within)),
  );
  within = omega (arith, b.within);
}
tally-IsBalanced r row (ineligible reason) b h = record {
  parts = omega (arith, b.within, b.parts);
  reasons = omega (
    arith,
    b.within,
    b.parts,
    b.reasons,
    sum-tick_reason reason r.reasons (omega (arith, b.reasons, b.parts, b.within)),
  );
  within = omega (arith, b.within);
}
tally-IsBalanced r row (counted c) b h = record {
  parts = omega (arith, b.within, b.parts);
  reasons = b.reasons;
  within = omega (arith, b.within);
}

tally-Adds :
    (r : SimulationReport) (row : Row) (o : Outcome)
    → IsBalanced r
    → r.total_requests + 1 < 2 ^ 64
    → Adds r (tally r row o) (o ∷ [])
unfolding tally
tally-Adds r row unmatched b h = record {
  total = omega arith;
  eligible = omega arith;
  ineligible = omega arith;
  indeterminate = omega arith;
}
tally-Adds r row (indeterminate reason) b h = record {
  total = omega arith;
  eligible = omega arith;
  ineligible = omega arith;
  indeterminate = omega (arith, b.within, b.parts);
}
tally-Adds r row (ineligible reason) b h = record {
  total = omega arith;
  eligible = omega arith;
  ineligible = omega (arith, b.within, b.parts);
  indeterminate = omega arith;
}
tally-Adds r row (counted c) b h = record {
  total = omega arith;
  eligible = omega (arith, b.within, b.parts);
  ineligible = omega arith;
  indeterminate = omega arith;
}

Adds-cons :
    (r s t : SimulationReport) (o : Outcome) (outs : List Outcome)
    → Adds r s (o ∷ [])
    → Adds s t outs
    → Adds r t (o ∷ outs)
Adds-cons r s t o outs h k = record {
  total = omega (arith, h.total, k.total);
  eligible = omega (arith, h.eligible, k.eligible);
  ineligible = omega (arith, h.ineligible, k.ineligible);
  indeterminate = omega (arith, h.indeterminate, k.indeterminate);
}

module _ (go : Go) (decode : Decoders) (compiled : Compiled) (prices : Table) where
  add_all-from :
      (r : SimulationReport) (rows : List Row)
      → IsBalanced r
      → r.total_requests + length rows < 2 ^ 64
      → IsBalanced (add_all go decode compiled prices r rows)
        × Adds r
            (add_all go decode compiled prices r rows)
            (map (outcome go decode compiled prices) rows)
  unfolding add_all add
  add_all-from r [] b h = (
    b,
    record {
      total = omega arith;
      eligible = omega arith;
      ineligible = omega arith;
      indeterminate = omega arith;
    },
  )
  add_all-from r (row ∷ rows) b h =
      let o = outcome go decode compiled prices row in
      let small : r.total_requests + 1 < 2 ^ 64 = omega arith in
      let s = tally r row o in
      let step = tally-Adds r row o b small in
      let (b', rest) =
        add_all-from s rows (tally-IsBalanced r row o b small) (omega (arith, step.total)) in
      (b', Adds-cons r s _ o _ step rest)

  -- A replay of fewer than 2^63 rows counts each row once: the total is the number of rows, each counter
  -- is the number of rows with that outcome, the matched rows are exactly those of the three kinds, and
  -- the reasons add up to the rows that are left out.
  pub add_all_counts :
      (rows : List Row)
      → length rows < 2 ^ 63
      → IsBalanced (add_all go decode compiled prices new_report rows)
        × Adds new_report
            (add_all go decode compiled prices new_report rows)
            (map (outcome go decode compiled prices) rows)
  unfolding new_report
  add_all_counts rows h =
      add_all-from new_report rows (record { parts = refl; reasons = refl; within = omega arith })
        (omega arith)
