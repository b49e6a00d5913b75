-- ===== src/Budget/Cache.antt =====
-- internal/budget/budget.go: the cache of warm windows in front of the ledger, and the sequence lock of
-- internal/store/store.go by which it is kept.
use burnban.Prelude.{
  ℕ, zero, suc, ◌+◌, ◌-◌, ◌%◌, String, Bool, true, false, not, ◌&&◌, ◌||◌, Option, none, some, List,
  [], ◌∷◌, ◌++◌, map, ◌==◌, ltb, length, any, all, keep, is_empty, str_eq, if◌then◌else◌,
}
use burnban.Prelude.Int.{ℤ, pos, add64, eqb_ℤ, ltb_ℤ}
use burnban.Float
use burnban.Float.{Float64}
use burnban.Budget.Positions.{BudgetUsage}
pub mod Worlds
pub mod Entries
pub mod Coherent
pub mod Served
pub mod Attempts
pub mod Reconciled
pub mod Reading
pub mod Settled

-- The columns of a request that a budget reads. Times are whole seconds, as they are stored.
pub record LedgerRow : Type 0 where
  pub ts : ℤ
  pub agent : String
  pub cost_usd : Float64
  pub is_unsafe : Bool

-- The request table with the sequence lock: an even revision is a stable snapshot. It is a uint64,
-- which no process lives long enough to wrap.
pub record World : Type 0 where
  pub revision : ℕ
  pub rows : List LedgerRow

-- `usageCacheKey`; an empty agent means all of them.
pub record Key : Type 0 where
  pub start : ℤ
  pub agent : String

unfoldable pub key_eq : Key → Key → Bool
key_eq a b = eqb_ℤ a.start b.start && str_eq a.agent b.agent

-- `WHERE ts >= ?`, and `AND agent = ?` where the key has one.
unfoldable pub applies : Key → LedgerRow → Bool
applies k row = not (ltb_ℤ row.ts k.start) && (str_eq k.agent "" || str_eq k.agent row.agent)

abbrev pub count_unsafe : List LedgerRow → ℕ
count_unsafe [] = 0
count_unsafe (row ∷ rows) = (if row.is_unsafe then 1 else 0) + count_unsafe rows

-- `BudgetUsageSinceMulti` and, for an agent, `BudgetUsageSinceForAgent`, which counts no requests;
-- `total` is SQLite's SUM.
unfoldable pub answer : (List Float64 → Float64) → List LedgerRow → Key → BudgetUsage
unfolding applies
answer total rows k =
    let since = keep (applies k) rows in
    record {
      spent_usd = total (map (λ r. r.cost_usd) since);
      enforcement_gaps = pos (count_unsafe since);
      requests = if str_eq k.agent "" then pos (length since) else pos 0;
    }

abbrev pub Entries : Type 0
Entries = List (Key × BudgetUsage)

pub record Cache : Type 0 where
  pub revision : ℕ
  pub is_warm : Bool  -- the map is not nil
  pub entries : Entries
  pub active_global : List ℤ
  pub agent_day : ℤ
  pub agent_entries : ℕ

abbrev pub cold : Cache
cold = record {
  revision = 0;
  is_warm = false;
  entries = [];
  active_global = [];
  agent_day = pos 0;
  agent_entries = 0;
}

-- `invalidateUsageCacheLocked`.
unfoldable pub invalidate : ℕ → Cache
invalidate revision = record {
  revision = revision;
  is_warm = true;
  entries = [];
  active_global = [];
  agent_day = pos 0;
  agent_entries = 0;
}

unfoldable pub find_entry : Key → Entries → Option BudgetUsage
unfolding key_eq
find_entry k [] = none
find_entry k ((j, u) ∷ rest) = let later = find_entry k rest in if key_eq k j then some u else later

abbrev pub is_some : Option BudgetUsage → Bool
is_some none = false
is_some (some u) = true

-- What the ledger answers for the keys that are not there yet, each once.
unfoldable pub loaded : (Key → BudgetUsage) → List Key → Entries → Entries
unfolding find_entry
loaded ask [] entries = []
loaded ask (k ∷ rest) entries = elim (is_some (find_entry k entries)) [
  | true ↦ loaded ask rest entries
  | false ↦ (k, ask k) ∷ loaded ask rest ((k, ask k) ∷ entries)
]

abbrev pub of_agent : Key × BudgetUsage → Bool
of_agent e = not (str_eq e.0.agent "")

abbrev pub max_agent_entries : ℕ
max_agent_entries = 4096

-- `boundAgentUsageCacheLocked`, once an agent was added.
unfoldable pub bounded : List Key → Cache → Cache
unfolding key_eq
bounded requests c =
    let kept = keep (λ e. not (of_agent e) || any (key_eq e.0) requests) c.entries in
    if ltb max_agent_entries c.agent_entries
    then record c { entries = kept; agent_entries = length (keep of_agent kept) }
    else c

unfoldable pub publish : List Key → Entries → Cache → Cache
unfolding bounded
publish requests new c =
    let added = length (keep of_agent new) in
    let c' = record c { entries = new ++ c.entries; agent_entries = c.agent_entries + added } in
    if added == 0 then c' else bounded requests c'

abbrev pub no_usage : BudgetUsage
no_usage = record { spent_usd = Float.fin (pos 0); enforcement_gaps = pos 0; requests = pos 0 }

abbrev pub or_no_usage : Option BudgetUsage → BudgetUsage
or_no_usage none = no_usage
or_no_usage (some u) = u

-- What one attempt sees: the world at the first reading of the revision, at each query and at the second
-- reading, and whether a query fails.
pub record Attempt : Type 0 where
  pub first : World
  pub at_query : Key → World
  pub second : World
  pub fails : Bool

pub data Result : Type 0 where
  refused : Cache → Result
  retry : Cache → Result
  served : Cache → List BudgetUsage → Result

-- `validateFuseUsages`; counts are never negative.
unfoldable pub usage_ok : BudgetUsage → Bool
unfolding Float.is_nan Float.is_inf Float.lt
usage_ok u = not (
    Float.is_nan u.spent_usd
    || Float.is_inf u.spent_usd
    || Float.lt u.spent_usd (Float.fin (pos 0)))

unfoldable pub current : ℕ → Cache → Cache
unfolding invalidate
current revision c = if c.is_warm && c.revision == revision then c else invalidate revision

module _ (total : List Float64 → Float64) where
  unfoldable pub attempt : List Key → Attempt → Cache → Result
  unfolding current answer loaded usage_ok publish
  attempt requests a c =
      let c' = current a.first.revision c in
      let new = loaded (λ k. answer total (a.at_query k).rows k) requests c'.entries in
      let c'' = publish requests new c' in
      if not (a.first.revision % 2 == 0)
      then refused c
      else if a.fails || not (all (λ e. usage_ok e.1) new)
      then refused c'
      else if not (a.second.revision == a.first.revision)
      then retry (invalidate a.second.revision)
      else served c'' (map (λ k. or_no_usage (find_entry k c''.entries)) requests)

  -- `cachedUsagesLocked`, which makes three attempts; no request at all leaves the cache alone.
  unfoldable pub attempts : List Key → List Attempt → Cache → Result
  unfolding attempt
  attempts requests [] c = refused c
  attempts requests (a ∷ rest) c = elim (attempt requests a c) [
    | refused c' ↦ refused c'
    | served c' usages ↦ served c' usages
    | retry c' ↦ attempts requests rest c'
  ]

-- `reconcileUsageCacheLocked`.
unfoldable pub reconcile : List ℤ → String → Bool → ℤ → Cache → Cache
unfolding key_eq
reconcile global agent cap_set day c =
    let stale = λ (e : Key × BudgetUsage).
      str_eq e.0.agent ""
      && any (eqb_ℤ e.0.start) c.active_global
      && not (any (eqb_ℤ e.0.start) global) in
    let other_day = λ (e : Key × BudgetUsage). of_agent e && not (eqb_ℤ e.0.start day) in
    let rolled = not (eqb_ℤ c.agent_day (pos 0)) && not (eqb_ℤ c.agent_day day) in
    let live = keep (λ e. not (stale e) && not (rolled && other_day e)) c.entries in
    let own = λ (e : Key × BudgetUsage). key_eq e.0 (record { start = day; agent = agent }) in
    let count = if rolled then length (keep of_agent live) else c.agent_entries in
    let dropped = not (str_eq agent "") && not cap_set in
    record c {
      entries = if dropped then keep (λ e. not (own e)) live else live;
      active_global = global;
      agent_day = day;
      agent_entries = if dropped && any own live then count - 1 else count;
    }

-- The request that a settlement adds to an entry.
unfoldable pub bumped : LedgerRow → BudgetUsage → BudgetUsage
unfolding Float.add add64
bumped row u = record {
  spent_usd = Float.add u.spent_usd row.cost_usd;
  requests = add64 u.requests (pos 1);
  enforcement_gaps = if row.is_unsafe then add64 u.enforcement_gaps (pos 1) else u.enforcement_gaps;
}

-- The entries that a settlement visits: the active windows, and the agent's day at its admission.
unfoldable pub is_visited : Cache → Key → Key → Bool
unfolding key_eq
is_visited c own k =
    str_eq k.agent "" && any (eqb_ℤ k.start) c.active_global
    || not (str_eq own.agent "") && key_eq k own

-- `addSettledUsageLocked` on each entry that is visited.
unfoldable pub add_settled : Cache → Key → LedgerRow → Entries → Entries
unfolding is_visited applies bumped
add_settled c own row [] = []
add_settled c own row ((k, u) ∷ rest) =
    (k, if is_visited c own k && applies k row then bumped row u else u)
    ∷ add_settled c own row rest

-- The cache's part of `Settle`, from the revisions before and after the insert.
unfoldable pub settle_cache : ℕ → ℕ → Key → LedgerRow → Cache → Cache
unfolding add_settled invalidate
settle_cache before after own row c =
    if c.is_warm && before % 2 == 0 && c.revision == before && after == before + 2
    then record c { revision = after; entries = add_settled c own row c.entries }
    else invalidate after

-- The usages that `checkLocked` asks for: its windows, and the agent's day where it has a cap.
unfoldable pub requests_of : List ℤ → String → Bool → ℤ → List Key
requests_of global agent cap_set day =
    map (λ t. record { start = t; agent = "" }) global
    ++ (if cap_set then record { start = day; agent = agent } ∷ [] else [])

abbrev pub map_served : (Cache → Cache) → Result → Result
map_served f (refused c) = refused c
map_served f (retry c) = retry c
map_served f (served c usages) = served (f c) usages

-- What `checkLocked` does to the cache: it reads, and reconciles unless the reading failed.
unfoldable pub read_usages :
    (List Float64 → Float64) → List ℤ → String → Bool → ℤ → List Attempt → Cache → Result
unfolding requests_of reconcile attempts
read_usages total global agent cap_set day tries c =
    let requests = requests_of global agent cap_set day in
    let result = if is_empty requests then served c [] else attempts total requests tries c in
    map_served (reconcile global agent cap_set day) result
