-- ===== src/Policy/Engine/State.antt =====
-- The engine's counters for admitted work: the requests in flight, and what is reserved until the
-- durable counters hold it.
use burnban.Prelude.{
  ℕ, ◌+◌, ◌%◌, String, Bool, true, false, not, ◌&&◌, ◌||◌, Option, List, [], ◌∷◌, if◌then◌else◌,
  str_eq, is_empty, ◌==◌,
}
use burnban.Prelude.Int.{ℤ, pos, negsuc, pos_part, ltb_ℤ, ◌-ℤ◌, sub_ℕ}
use burnban.Policy.Types.{WindowType, rolling, Document, Rule}
use burnban.Policy.Counters.{saturated_add}

pub record RuleCounterKey : Type 0 where
  pub namespace : String
  pub rule_id : String

unfoldable pub key_eq : RuleCounterKey → RuleCounterKey → Bool
key_eq a b = str_eq a.namespace b.namespace && str_eq a.rule_id b.rule_id

pub record PendingUsage : Type 0 where
  pub ts : ℤ
  pub requests : ℤ
  pub input_tokens : ℤ
  pub output_tokens : ℤ
  pub total_tokens : ℤ
  pub cost_micro_usd : ℤ

pub record WindowKey : Type 0 where
  pub rule_id : String
  pub dimension : String
  pub limit_id : String

unfoldable pub window_key_eq : WindowKey → WindowKey → Bool
window_key_eq a b =
    str_eq a.rule_id b.rule_id && str_eq a.dimension b.dimension && str_eq a.limit_id b.limit_id

-- A compiled policy; the canonical bytes are left out.
pub record Compiled : Type 0 where
  pub document : Document
  pub digest : String
  pub windows : List (WindowKey × ℤ)

-- `windows[key]`: zero where the map has no such key.
unfoldable pub window_of : List (WindowKey × ℤ) → WindowKey → ℤ
unfolding window_key_eq
window_of [] key = pos 0
window_of ((k, d) ∷ ws) key =
    let later = window_of ws key in elim (window_key_eq k key) [ true ↦ d | false ↦ later ]

-- A missing key of `in_flight` reads as zero, one of `pending` as the empty map.
pub record Engine : Type 0 where
  pub active : Option Compiled
  pub active_id : ℕ
  pub in_flight : RuleCounterKey → ℤ
  pub pending : RuleCounterKey → List (ℕ × PendingUsage)
  pub next_pending : ℕ

-- Go's `%`, which takes the sign of the dividend.
unfoldable pub remainder : ℤ → ℕ → ℤ
remainder (pos n) d = pos (n % d)
remainder (negsuc n) d = sub_ℕ 0 ((n + 1) % d)

abbrev pub is_rolling : WindowType → Bool
is_rolling rolling = true
is_rolling _ = false

-- `windowStart`, on Unix nanoseconds.
unfoldable pub window_start : ℤ → ℤ → WindowType → ℤ
unfolding remainder
window_start now duration kind =
    if is_rolling kind then now -ℤ duration else now -ℤ remainder now (pos_part duration)

abbrev pub no_pending : PendingUsage
no_pending = record {
  ts = pos 0;
  requests = pos 0;
  input_tokens = pos 0;
  output_tokens = pos 0;
  total_tokens = pos 0;
  cost_micro_usd = pos 0;
}

abbrev pub add_pending : PendingUsage → PendingUsage → PendingUsage
add_pending out usage = record out {
  requests = saturated_add out.requests usage.requests;
  input_tokens = saturated_add out.input_tokens usage.input_tokens;
  output_tokens = saturated_add out.output_tokens usage.output_tokens;
  total_tokens = saturated_add out.total_tokens usage.total_tokens;
  cost_micro_usd = saturated_add out.cost_micro_usd usage.cost_micro_usd;
}

unfoldable pub pending_from : ℤ → PendingUsage → List (ℕ × PendingUsage) → PendingUsage
pending_from cutoff out [] = out
pending_from cutoff out ((_, usage) ∷ rest) =
    pending_from cutoff (if ltb_ℤ usage.ts cutoff then out else add_pending out usage) rest

unfoldable pub pending_since : Engine → RuleCounterKey → ℤ → PendingUsage
unfolding pending_from
pending_since e key cutoff = pending_from cutoff no_pending (e.pending key)

unfoldable pub rule_has_counters : Rule → Bool
rule_has_counters rule =
    not (is_empty rule.limits.requests)
    || not (is_empty rule.limits.tokens)
    || not (is_empty rule.limits.dollars)

-- `m[key] = v` and reads of it.
unfoldable pub put {ℓ} :
    {V : Type ℓ} → RuleCounterKey → V → (RuleCounterKey → V) → RuleCounterKey → V
put key v m k = if key_eq key k then v else m k

-- `delete(m, id)`.
unfoldable pub drop_id {ℓ} : {V : Type ℓ} → ℕ → List (ℕ × V) → List (ℕ × V)
drop_id id [] = []
drop_id id ((n, v) ∷ rest) =
    let later = drop_id id rest in if n == id then later else (n, v) ∷ later
