-- ===== src/Policy/Validate.antt =====
-- internal/policy/types.go, `validate` and what it calls: whether a decoded policy document is accepted,
-- and the window durations of an accepted one. Every refusal is `none`; its text is left out.
-- `parse_duration` is `time.ParseDuration`, in nanoseconds.
pub mod Limits
pub mod Rules
use burnban.Prelude.{
  ℕ, ◌+◌, ◌*◌, String, Bool, true, false, not, ◌&&◌, ◌||◌, Option, none, some, List, [], ◌∷◌, ◌==◌,
  leb, ltb, is_empty, any, all, length, codes, str_eq, guard, chain, Unicode, byte_len,
}
use burnban.Prelude.Int.{ℤ, pos, leb_ℤ, ltb_ℤ, eqb_ℤ}
use burnban.Float
use burnban.Float.{Float64, of_int, fin}
use burnban.Policy.Types.{
  Mode, unset, observe, warn, enforce, other_mode, TokenKind, any_kind, input, output, total,
  other_kind, WindowType, rolling, fixed, other_type, Dimension, AccessList, Scope, WindowLimit,
  DollarLimit, Rule, Document,
}
use burnban.Policy.Scope.{dimensions, scope_selectors, match_access, rule_mode, is_enforce}
use burnban.Policy.Decision.{access_dimensions}
use burnban.Policy.Engine.{WindowKey}

abbrev pub Windows : Type 0
Windows = List (WindowKey × ℤ)

unfoldable pub valid_mode : Mode → Bool
valid_mode observe = true
valid_mode warn = true
valid_mode enforce = true
valid_mode unset = false
valid_mode (other_mode m) = false

unfoldable pub validate_label : Unicode → String → Bool
validate_label u value =
    not (all u.is_space (codes value))
    && leb (byte_len (codes value)) 256
    && leb (length (codes value)) 128
    && not (any u.is_unsafe (codes value))

-- The loop of `validateSelectors`, after the selectors `seen`.
unfoldable pub selectors_from : Unicode → List String → List String → Bool
selectors_from u seen [] = true
selectors_from u seen (selector ∷ rest) =
    (is_empty (codes selector) || validate_label u selector)
    && leb (byte_len (codes selector)) 512
    && not (any (str_eq selector) seen)
    && selectors_from u (selector ∷ seen) rest

unfoldable pub validate_selectors : Unicode → List String → Bool
unfolding selectors_from
validate_selectors u selectors = leb (length selectors) 64 && selectors_from u [] selectors

abbrev pub restricts : AccessList → Bool
restricts access = not (is_empty access.allow) || not (is_empty access.deny)

unfoldable pub rule_has_effect : Rule → Bool
rule_has_effect rule =
    any (λ d. restricts (match_access rule.match d)) access_dimensions
    || not (is_empty rule.limits.requests)
    || not (is_empty rule.limits.tokens)
    || not (is_empty rule.limits.dollars)
    || not (eqb_ℤ rule.limits.concurrency (pos 0))
    || elim rule.limits.max_estimated_call_cost_usd [ none ↦ false | some _ ↦ true ]
    || rule.limits.require_output_bound

-- A cooperative label does not select an enforcing rule, and none is restricted by one.
unfoldable pub cooperative_free : Rule → Bool
cooperative_free rule =
    is_empty rule.scope.agent
    && is_empty rule.scope.session
    && is_empty rule.scope.model_class
    && not (restricts (match_access rule.match Dimension.model_class))

-- The tests of a rule that come before its window limits.
unfoldable pub rule_header : Unicode → Mode → List String → Rule → Bool
unfolding Float.lt of_int
rule_header u mode ids rule =
    validate_label u rule.id
    && not (any (str_eq rule.id) ids)
    && elim rule.mode [ unset ↦ true | m ↦ valid_mode m ]
    && (not (is_enforce (rule_mode mode rule)) || cooperative_free rule)
    && all (λ d. validate_selectors u (scope_selectors rule.scope d)) dimensions
    && all
        (λ d.
          validate_selectors u (match_access rule.match d).allow
          && validate_selectors u (match_access rule.match d).deny)
        access_dimensions
    && leb_ℤ (pos 0) rule.limits.concurrency
    && elim rule.limits.max_estimated_call_cost_usd [
      | none ↦ true
      | some cost ↦ not (Float.lt cost (fin (pos 0)) || Float.lt (of_int 1000000000000) cost)
    ]

-- What a limit of either kind has, but for its bounds.
pub record Window : Type 0 where
  pub id : String
  pub window : String
  pub window_type : WindowType

abbrev pub known_type : WindowType → Bool
known_type rolling = true
known_type fixed = true
known_type (other_type t) = false

abbrev pub second : ℕ
second = 1000000000

-- `duration < time.Second || duration > 366*24*time.Hour`, negated.
abbrev pub in_bounds : ℤ → Bool
in_bounds d = leb_ℤ (pos second) d && leb_ℤ d (pos (366 * 24 * 3600 * second))

-- The duration of a limit that passes `bounds`, its own tests.
unfoldable pub window_duration :
    Unicode → (String → Option ℤ) → List String → Bool → Window → Option ℤ
window_duration u parse_duration seen bounds limit =
    guard
      (validate_label u limit.id
        && not (any (str_eq limit.id) seen)
        && bounds
        && known_type limit.window_type)
      (chain (parse_duration limit.window) (λ d. guard (in_bounds d) (some d)))

-- The loop over the limits of one kind: `limitIDs` has the kind before each id, so a list for each kind.
unfoldable pub window_limits {ℓ} :
    {A : Type ℓ}
    → Unicode
    → (String → Option ℤ)
    → String
    → String
    → (A → Bool)
    → (A → Window)
    → List String
    → List A
    → Windows
    → Option Windows
window_limits u parse_duration rule_id kind bounds window seen [] ws = some ws
window_limits u parse_duration rule_id kind bounds window seen (limit ∷ rest) ws =
    let key : WindowKey = record {
      rule_id = rule_id;
      dimension = kind;
      limit_id = (window limit).id;
    } in
    chain (window_duration u parse_duration seen (bounds limit) (window limit)) (λ d.
      window_limits u parse_duration rule_id kind bounds window ((window limit).id ∷ seen) rest
        ((key, d) ∷ ws))

abbrev pub request_bounds : WindowLimit → Bool
request_bounds limit = leb_ℤ (pos 1) limit.max && elim limit.kind [ any_kind ↦ true | _ ↦ false ]

abbrev pub token_bounds : WindowLimit → Bool
token_bounds limit = leb_ℤ (pos 1) limit.max && elim limit.kind [ other_kind k ↦ false | _ ↦ true ]

abbrev pub dollar_bounds : DollarLimit → Bool
dollar_bounds limit =
    leb_ℤ (pos 1) limit.max_micro_usd && leb_ℤ limit.max_micro_usd (pos 1000000000000000000)

abbrev pub of_window : WindowLimit → Window
of_window limit = record { id = limit.id; window = limit.window; window_type = limit.window_type }

abbrev pub of_dollar : DollarLimit → Window
of_dollar limit = record { id = limit.id; window = limit.window; window_type = limit.window_type }

-- What the loop over the rules has built.
pub record Progress : Type 0 where
  pub windows : Windows
  pub ids : List String
  pub total_limits : ℕ

-- `maxWindowLimitsPerKind` and `maxWindowLimitsPerDoc`.
unfoldable pub limit_group {ℓ} :
    {A : Type ℓ}
    → Unicode
    → (String → Option ℤ)
    → String
    → String
    → (A → Bool)
    → (A → Window)
    → List A
    → Progress
    → Option Progress
unfolding window_limits
limit_group u parse_duration rule_id kind bounds window limits p =
    let total = p.total_limits + length limits in
    guard (leb (length limits) 64 && leb total 256) (
      chain (window_limits u parse_duration rule_id kind bounds window [] limits p.windows)
        (λ ws. some (record p { windows = ws; total_limits = total })))

unfoldable pub validate_rule :
    Unicode → (String → Option ℤ) → Mode → Rule → Progress → Option Progress
unfolding limit_group rule_header
validate_rule u parse_duration mode rule p = guard (rule_header u mode p.ids rule) (
    chain
      (limit_group u parse_duration rule.id "requests" request_bounds of_window rule.limits.requests
        p)
      (λ p1.
        chain
          (limit_group u parse_duration rule.id "tokens" token_bounds of_window rule.limits.tokens
            p1)
          (λ p2.
            chain
              (limit_group u parse_duration rule.id "dollars" dollar_bounds of_dollar
                rule.limits.dollars p2)
              (λ p3. guard (rule_has_effect rule) (some (record p3 { ids = rule.id ∷ p.ids }))))))

unfoldable pub validate_rules :
    Unicode → (String → Option ℤ) → Mode → List Rule → Progress → Option Progress
validate_rules u parse_duration mode [] p = some p
validate_rules u parse_duration mode (rule ∷ rules) p =
    chain (validate_rule u parse_duration mode rule p) (validate_rules u parse_duration mode rules)

unfoldable pub document_header : Unicode → Document → Bool
document_header u doc =
    str_eq doc.api_version "burnban.dev/v2"
    && str_eq doc.kind "PolicySet"
    && validate_label u doc.metadata.name
    && validate_label u doc.metadata.namespace
    && leb_ℤ (pos 1) doc.metadata.revision
    && valid_mode doc.mode
    && not (is_empty doc.rules)
    && leb (length doc.rules) 256

unfoldable pub validate : Unicode → (String → Option ℤ) → Document → Option Windows
unfolding validate_rules document_header
validate u parse_duration doc = guard (document_header u doc) (
    chain
      (validate_rules u parse_duration doc.mode doc.rules
        (record { windows = []; ids = []; total_limits = 0 }))
      (λ p. some p.windows))
