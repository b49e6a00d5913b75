-- ===== src/Policy/Engine/Prepare.antt =====
-- internal/policy/engine.go, `refreshLocked` and `Prepare`: judge a request by the active policy, and
-- reserve what it may use.
pub mod Guards
pub mod Denials
pub mod Admissions
use burnban.Prelude.{
  ℕ, ◌+◌, ◌%◌, String, Bool, true, false, not, ◌&&◌, ◌||◌, Option, none, some, List, [], ◌∷◌, ◌++◌,
  if◌then◌else◌, is_empty, str_eq, ◌==◌, any,
}
use burnban.Prelude.Int.{ℤ, pos, ltb_ℤ, max_ℤ, add64, eqb_ℤ, int64_range}
use burnban.Float
use burnban.Float.{Float64, fin}
use burnban.Policy.Types.{Mode, output, total, Rule, Document, Context}
use burnban.Policy.Context.{
  estimated_tokens, estimated_tokens_for_kind, conservative_cost_micro_usd,
}
use burnban.Policy.Decision.{
  Verdict, allow, deny, RuleDecision, Decision, denied, enforced_violations, status_for_violations,
  decision_confidence,
}
use burnban.Policy.Engine.State.{
  RuleCounterKey, PendingUsage, Compiled, Engine, rule_has_counters, put,
}
use burnban.Policy.Engine.Evaluate.{
  EngineError, cost_not_finite, negative_estimate, cost_not_representable, load_active_policy,
  active_policy_invalid, active_policy_mismatch, load_usage, persist, Outcome, ok, err, ◌>>=◌,
  IndexedRule, applicable_rules, UsageReader, evaluate,
}
use burnban.Store.PolicyDecisions.{
  PolicyDecisionRule, PolicyDecisionRecord, Ledger, insert_policy_decision, policy_rule_usage_since,
}

-- `store.PolicyDocumentRecord`, the columns that `refreshLocked` reads.
pub record ActiveDocument : Type 0 where
  pub id : ℕ
  pub namespace : String
  pub revision : ℤ
  pub digest : String
  pub document_json : String

-- Another process may have changed the active policy. `parse` is `Parse`; the row is `none` for a
-- database error and `some none` where no policy is active.
abbrev pub Row : Type 0
Row = Option (Option ActiveDocument)

abbrev same_active : Engine → ActiveDocument → Bool
same_active e r = elim e.active [
  | none ↦ false
  | some c ↦ e.active_id == r.id && str_eq c.digest r.digest
]

abbrev agrees : Compiled → ActiveDocument → Bool
agrees c r =
    str_eq c.digest r.digest
    && eqb_ℤ c.document.metadata.revision r.revision
    && str_eq c.document.metadata.namespace r.namespace

install : Engine → ActiveDocument → Option Compiled → Outcome Engine
install e r none = err active_policy_invalid
install e r (some c) =
    if agrees c r
    then ok (record e { active = some c; active_id = r.id })
    else err active_policy_mismatch

unfoldable pub refresh_locked : (String → Option Compiled) → Row → Engine → Outcome Engine
unfolding install
refresh_locked parse none e = err load_active_policy
refresh_locked parse (some none) e = ok (record e { active = none; active_id = 0 })
refresh_locked parse (some (some r)) e =
    if same_active e r then ok e else install e r (parse r.document_json)

-- `state`: 0 prepared, 1 committed, 2 released or cancelled.
pub data ReservationState : Type 0 where
  prepared committed finished : ReservationState

pub record Reservation : Type 0 where
  pub decision : Decision
  pub receipt : PolicyDecisionRecord
  pub concurrency_keys : List RuleCounterKey
  pub counter_keys : List RuleCounterKey
  pub pending_id : ℕ
  pub state : ReservationState

-- What `Prepare` hands back besides an error: nothing, a denial, or a reservation.
pub data Prepared : Type 0 where
  no_policy : Prepared
  refused : Decision → Prepared
  reserved : Reservation → Prepared

-- `boundedCounterValue`, and the value of a pair whose flag is false.
abbrev pub or_zero : Option ℤ → ℤ
or_zero none = pos 0
or_zero (some v) = v

abbrev pub counted : List IndexedRule → String → Bool
counted rules id = any (λ (r : IndexedRule). str_eq r.rule.id id && rule_has_counters r.rule) rules

-- The rows that the durable counters will hold, one for each rule with a window limit.
unfoldable pub rule_rows :
    Verdict → Context → List IndexedRule → List RuleDecision → List PolicyDecisionRule
rule_rows outcome context rules [] = []
rule_rows outcome context rules (d ∷ ds) =
    (if counted rules d.rule_id
      then record {
        rule_id = d.rule_id;
        accepted = elim outcome [ allow ↦ true | deny ↦ false ];
        estimated_tokens = estimated_tokens context;
        estimated_input_tokens = max_ℤ context.estimated_input (pos 0);
        estimated_output_tokens = or_zero (estimated_tokens_for_kind context output);
        estimated_total_tokens = or_zero (estimated_tokens_for_kind context total);
        estimated_cost_micro_usd = or_zero (conservative_cost_micro_usd context);
      }
        ∷ []
      else [])
    ++ rule_rows outcome context rules ds

unfoldable pub usage_of : ℤ → Context → PendingUsage
usage_of now context = record {
  ts = now;
  requests = pos 1;
  input_tokens = max_ℤ context.estimated_input (pos 0);
  output_tokens = or_zero (estimated_tokens_for_kind context output);
  total_tokens = or_zero (estimated_tokens_for_kind context total);
  cost_micro_usd = or_zero (conservative_cost_micro_usd context);
}

abbrev pub has_concurrency : Rule → Bool
has_concurrency rule = not (eqb_ℤ rule.limits.concurrency (pos 0))

-- The last loop of `Prepare`, rule by rule.
unfoldable pub reserve :
    String → ℤ → Context → List IndexedRule → Engine → Reservation → Engine × Reservation
reserve namespace now context [] e r = (e, r)
reserve namespace now context (indexed ∷ rules) e r =
    let rule = indexed.rule in
    let key : RuleCounterKey = record { namespace = namespace; rule_id = rule.id } in
    let counters = rule_has_counters rule in
    let concurrency = has_concurrency rule in
    reserve namespace now context rules
      (record e {
        pending =
            if counters
            then put key ((r.pending_id, usage_of now context) ∷ e.pending key) e.pending
            else e.pending;
        in_flight =
            if concurrency
            then put key (add64 (e.in_flight key) (pos 1)) e.in_flight
            else e.in_flight;
      })
      (record r {
        counter_keys = if counters then r.counter_keys ++ key ∷ [] else r.counter_keys;
        concurrency_keys =
            if concurrency then r.concurrency_keys ++ key ∷ [] else r.concurrency_keys;
      })

unfoldable pub decide : Compiled → Context → List IndexedRule → List RuleDecision → Decision
decide compiled context rules ds =
    let enforced = enforced_violations ds in
    let document = compiled.document in
    record {
      id = 0;
      policy_name = document.metadata.name;
      policy_namespace = document.metadata.namespace;
      policy_revision = document.metadata.revision;
      policy_digest = compiled.digest;
      mode = document.mode;
      outcome = if is_empty enforced then allow else deny;
      http_status = if is_empty enforced then 0 else status_for_violations enforced;
      confidence = decision_confidence context;
      window_accounting = any (λ (r : IndexedRule). rule_has_counters r.rule) rules;
      rules = ds;
    }

unfoldable pub record_of : ℤ → Context → List IndexedRule → Decision → PolicyDecisionRecord
record_of now context rules d = record {
  ts = now;
  policy_digest = d.policy_digest;
  policy_revision = d.policy_revision;
  policy_name = d.policy_name;
  policy_namespace = d.policy_namespace;
  denied = denied d;
  admitted = false;
  http_status = d.http_status;
  rules = rule_rows d.outcome context rules d.rules;
}

-- What a call returns, and the state that it leaves.
abbrev pub Turn : Type 0
Turn = Outcome Prepared × Engine × Ledger

-- The reservation before its keys are listed, and the engine that has given out its number.
abbrev pub fresh : Engine → Decision → PolicyDecisionRecord → Reservation
fresh e d receipt = record {
  decision = d;
  receipt = receipt;
  concurrency_keys = [];
  counter_keys = [];
  pending_id = (e.next_pending + 1) % int64_range;
  state = prepared;
}

abbrev pub numbered : Engine → Engine
numbered e = record e { next_pending = (e.next_pending + 1) % int64_range }

abbrev pub granted :
    ℤ → Context → Compiled → List IndexedRule → List RuleDecision → Engine → Engine × Reservation
granted now context compiled rules ds e =
    let d = decide compiled context rules ds in
    reserve compiled.document.metadata.namespace now context rules (numbered e)
      (fresh e d (record_of now context rules d))

-- A denial is written down at once; an allowed request is reserved and written by `Commit`.
unfoldable pub conclude :
    Bool → ℤ → Context → Compiled → List IndexedRule → List RuleDecision → Engine → Ledger → Turn
conclude answers now context compiled rules ds e db =
    let d = decide compiled context rules ds in
    let (e', r) = granted now context compiled rules ds e in
    if denied d
    then elim (insert_policy_decision answers db (record_of now context rules d)) [
      | none ↦ (err persist, e, db)
      | some (id, db') ↦ (ok (refused (record d { id = id })), e, db')
    ]
    else (ok (reserved r), e', db)

-- The reads of `PolicyRuleUsageSince`.
abbrev pub reader : Bool → Ledger → Compiled → UsageReader
reader answers db compiled rule_id since =
    if answers
    then some (policy_rule_usage_since db compiled.document.metadata.namespace rule_id since)
    else none

unfoldable pub judge : Bool → ℤ → Context → Option Compiled → Engine → Ledger → Turn
judge answers now context none e db = (ok no_policy, e, db)
judge answers now context (some compiled) e db =
    let rules = applicable_rules compiled.document context in
    if context.cost_known
      && elim (conservative_cost_micro_usd context) [ none ↦ true | some _ ↦ false ]
    then (err cost_not_representable, e, db)
    else elim (evaluate e compiled (reader answers db compiled) now context rules) [
      | err x ↦ (err x, e, db)
      | ok ds ↦ conclude answers now context compiled rules ds e db
    ]

-- `Prepare`: the guards, the refresh, and the judgement.
unfoldable pub prepare :
    Bool → (String → Option Compiled) → Row → ℤ → Context → Engine → Ledger → Turn
unfolding Float.is_nan Float.is_inf Float.lt
prepare answers parse row now context e db =
    if Float.is_nan context.estimated_cost_usd || Float.is_inf context.estimated_cost_usd
    then (err cost_not_finite, e, db)
    else if ltb_ℤ context.estimated_input (pos 0)
        || ltb_ℤ context.output_bound (pos 0)
        || Float.lt context.estimated_cost_usd (fin (pos 0))
    then (err negative_estimate, e, db)
    else elim (refresh_locked parse row e) [
      | err x ↦ (err x, e, db)
      | ok e' ↦ judge answers now context e'.active e' db
    ]
