-- ===== src/Lib.antt =====
-- burnban: a gateway that meters calls to language models and holds them to policies and budgets. This
-- library models its admission control and shows what that guarantees.
--
-- The parts and how they interact. A request reaches the proxy, which makes its metadata and asks the
-- policy engine (internal/policy/engine.go) to prepare it. The engine refreshes the active policy from
-- the store, finds the rules that apply (internal/policy/types.go), reads the durable counters of each
-- rule (internal/store/policy.go), adds what it holds in reserve in memory, and either denies the
-- request, which it writes down, or reserves its usage. The proxy then commits, cancels or releases the
-- reservation. Under budget pressure internal/downshift replaces the model of a request by an
-- equivalent that the operator has listed. The budget guard (internal/budget) stands beside the policy
-- engine: it admits a request against dollar caps and holds a reservation until the call is settled.
-- The prices that both the replay of past requests and the meter use come from internal/pricing.
-- Invoices of providers are read by internal/reconcile and kept by internal/store/reconciliation.go.
--
-- Which file models which part:
--   Prelude     shared names and lemmas: Boolean tests, lists, texts, early returns (guard, chain),
--               integers with int64 wrap-around, stable sorting, Go's Unicode tables as a parameter
--   Float       float64: IEEE 754 binary64 on a grid of 2^-1074, rounded to nearest, ties to even
--   Policy      internal/policy. Types: the document and the request. Wildcard: wildcardMatch.
--               Counters: saturatedAdd. Context: token and cost estimates. Scope: which rules apply.
--               Decision: violations and HTTP status. Engine: the state (State), the limits
--               (Evaluate), Prepare, and Commit, Cancel, Release and Admit (Reservation).
--               Validate: the checks of a document. Replay: the 128-bit sums of the simulation.
--   Store       internal/store/policy.go: InsertPolicyDecision and PolicyRuleUsageSince
--               (PolicyDecisions); internal/store/reconciliation.go: ImportInvoice (Reconciliation)
--   Pricing     internal/pricing. Lookup: lookupWithKey. Contracts: contractMatches and
--               validateContracts. Validate: the checks of models and metadata. Load: the overrides.
--               Resolve: Table.Resolve. Cost: Cost and Reprice.
--   Downshift   internal/downshift: Config, Features (Eligible), Decide, Runtime (Active), and the
--               replay of past requests, Simulate, with History (the recorded rows) and TargetCost
--   Reconcile   internal/reconcile/invoice.go. Money: amounts as texts, CheckedAdd, SpreadsheetText.
--               Line: parseLine. Mapping: resolveMapping and ImportIdentity. Invoice: ParseCSV,
--               ParseJSON and ValidateInvoice.
--   Budget      internal/budget/budget.go. Caps: parseCap and the increases that have expired.
--               Positions and Check: checkLocked. Admit: Admit, Release and Settle. Cache: the warm windows
--               in front of the ledger, and the sequence lock of internal/store/store.go.
--   Optimize    internal/optimize. FixedPoint: the checked products of recommend.go. Score: the quality
--               scores of quality.go.
--   Tests       the development at concrete inputs
--
-- State is passed on explicitly: the engine is a record whose maps are functions from a key, the
-- ledger a record of the two tables. A mutex of the engine serialises its methods, so a sequence of
-- calls is a sequence of functions. Times are nanoseconds, and whole seconds in the budget's cache, as
-- the table stores them. A string of which the code tests only membership in a fixed set is a data type
-- with a case for the rest. Sorting is insertion sort, which is stable, as is the sort it stands for;
-- importedInvoiceMatches sorts by ids that no two lines share.
--
-- Fuel: wildcardMatch's loop takes one step for each rune and one for each fall back to the last star;
-- `enough` gives (v + 1) (p + 1) + p + 1 steps.
--
-- The models of a price table are a list of entries, of which a lookup finds the first with its name;
-- a loop over the map visits them in any order, and the results are shown not to hang on it. The
-- counters of a replay are numbers modulo 2^64.
--
-- A time is an integer without a bound, where the code has an int64 of nanoseconds, and the calls in
-- flight and the revision of the request table are natural numbers: no process reaches their ends.
--
-- A print of a number has fuel for twenty digits, which a 64-bit number does not exceed.
--
-- Parameters: `Go`, `Digests` and `Calls` hold the library's calls of the invoices, the prices and the
-- budgets: the parsing and printing of times and numbers, upper and lower case, hashes, and what the
-- ledger answers. `parse` and `Decoders` are the decoding of JSON, `row` what the database returns for
-- the active policy, `answers` and `commits` whether a query or a write succeeds, `parse_duration` is
-- time.ParseDuration, and Unicode is the tables of Go's unicode package.
--
-- The budget's cache stands beside a table that other goroutines change between any two readings: each
-- attempt of cachedUsagesLocked sees its own states of the table, which follow one another by steps of
-- the sequence lock. Its attempts are a list, of which the code makes three. Spend is
-- not compared: a settlement adds to a rounded sum in another order than the database does.
--
-- Not modelled: JSON, SQL, HTTP and the command line; the texts of errors and explanations; the
-- cache of the budget's baseline and the settings and the trip of its fuse; the recommendations, the
-- report of Reconcile, and the meter.
pub mod Prelude
pub mod Float
pub mod Policy
pub mod Store
pub mod Pricing
pub mod Downshift
pub mod Reconcile
pub mod Budget
pub mod Optimize
pub mod Tests
