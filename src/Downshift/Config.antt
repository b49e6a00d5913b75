-- ===== src/Downshift/Config.antt =====
-- internal/downshift/config.go: the configuration, what makes it valid, and the match of a rule's scope
-- against an identity. A refusal is `none` or false; its text is left out, but for the scope match.
use burnban.Prelude.{
  is_trimmed, ℕ, String, Bool, true, false, not, ◌&&◌, ◌||◌, Option, none, some, List, [], ◌∷◌,
  ◌==◌, leb, is_empty, any, all, length, codes, str_eq, str_lt, guard, chain, Unicode, byte_len,
  if◌then◌else◌,
}
use burnban.Prelude.Int.{ℤ, pos, leb_ℤ}
use burnban.Prelude.Sort.{sort_by}
use burnban.Float
use burnban.Float.{Float64, of_int}

pub data Mode : Type 0 where
  observe warn_then_downshift : Mode
  other_mode : String → Mode

pub record Endpoint : Type 0 where
  pub route : String
  pub model : String
  pub family : String
  pub dialect : String
  pub context_tokens : ℤ

pub record Scope : Type 0 where
  pub tenant : String
  pub principal : String
  pub service_account : String
  pub project : String
  pub cost_center : String

pub record Capabilities : Type 0 where
  pub tools : Bool
  pub structured_output : Bool
  pub modalities : List String

pub record Rule : Type 0 where
  pub id : String
  pub source : Endpoint
  pub target : Endpoint
  pub scope : Scope
  pub capabilities : Capabilities

pub record Config : Type 0 where
  pub api_version : String
  pub revision : ℤ
  pub mode : Mode
  pub warn_at_pct : Float64
  pub downshift_at_pct : Float64
  pub downshift_on_denial : Bool
  pub rules : List Rule

-- The canonical bytes are left out, and the map by source is read off the rules.
pub record Compiled : Type 0 where
  pub config : Config
  pub digest : String

pub record Identity : Type 0 where
  pub tenant : String
  pub principal : String
  pub service_account : String
  pub project : String
  pub cost_center : String
  pub confidence : String
  pub team_confidence : String
  pub user_confidence : String
  pub project_confidence : String

abbrev pub alphanumeric : ℕ → Bool
alphanumeric c = (leb 97 c && leb c 122) || (leb 48 c && leb c 57)

abbrev pub identifier_rest : ℕ → Bool
identifier_rest c = alphanumeric c || c == 46 || c == 95 || c == 45

-- `^[a-z0-9][a-z0-9._-]{0,63}$`.
abbrev pub matches_identifier : List ℕ → Bool
matches_identifier [] = false
matches_identifier (c ∷ rest) = alphanumeric c && all identifier_rest rest && leb (length rest) 63

unfoldable pub safe_config_label : Unicode → String → ℕ → Bool
safe_config_label u value max_bytes =
    not (is_empty (codes value))
    && leb (byte_len (codes value)) max_bytes
    && is_trimmed u (codes value)
    && not (any u.is_forbidden (codes value))

-- The runes of "/:?#".
abbrev pub is_separator : ℕ → Bool
is_separator c = c == 47 || c == 58 || c == 63 || c == 35

abbrev pub known_dialect : String → Bool
known_dialect d = str_eq d "openai" || str_eq d "anthropic" || str_eq d "gemini"

unfoldable pub validate_endpoint : Unicode → Endpoint → Bool
validate_endpoint u endpoint =
    matches_identifier (codes endpoint.route)
    && safe_config_label u endpoint.model 256
    && not (str_eq endpoint.dialect "gemini" && any is_separator (codes endpoint.model))
    && matches_identifier (codes endpoint.family)
    && known_dialect endpoint.dialect
    && leb_ℤ (pos 1) endpoint.context_tokens
    && leb_ℤ endpoint.context_tokens (pos 100000000)

abbrev pub optional_label : Unicode → String → Bool
optional_label u value = is_empty (codes value) || safe_config_label u value 256

unfoldable pub validate_scope : Unicode → Scope → Bool
validate_scope u scope =
    all (optional_label u) (
      scope.tenant ∷ scope.principal ∷ scope.service_account ∷ scope.project ∷ scope.cost_center
      ∷ [])
    && not (not (is_empty (codes scope.principal)) && not (is_empty (codes scope.service_account)))

abbrev pub known_modality : String → Bool
known_modality value = str_eq value "text" || str_eq value "image" || str_eq value "audio"

unfoldable pub modalities_from : List String → List String → Bool
modalities_from seen [] = true
modalities_from seen (value ∷ rest) =
    known_modality value && not (any (str_eq value) seen) && modalities_from (value ∷ seen) rest

-- The sorted set of the values, which are all different.
unfoldable pub normalize_modalities : List String → Option (List String)
unfolding modalities_from
normalize_modalities values =
    guard (not (is_empty values) && leb (length values) 3)
      (guard (modalities_from [] values) (some (sort_by str_lt values)))

unfoldable pub finite_pct : Float64 → Bool
unfolding Float.le of_int Float.is_nan Float.is_inf
finite_pct value =
    Float.le (of_int 1) value
    && Float.le value (of_int 100)
    && not (Float.is_nan value)
    && not (Float.is_inf value)

abbrev pub same_source : Endpoint → Rule → Bool
same_source source rule =
    str_eq source.route rule.source.route && str_eq source.model rule.source.model

-- The tests of one rule, after the rules `before`.
unfoldable pub rule_ok : Unicode → List Rule → Rule → Bool
rule_ok u before rule =
    matches_identifier (codes rule.id)
    && not (any (λ (r : Rule). str_eq rule.id r.id) before)
    && validate_endpoint u rule.source
    && validate_endpoint u rule.target
    && str_eq rule.source.family rule.target.family
    && str_eq rule.source.dialect rule.target.dialect
    && not
        (str_eq rule.source.route rule.target.route && str_eq rule.source.model rule.target.model)
    && not (any (same_source rule.source) before)
    && validate_scope u rule.scope

-- The rules with their modalities sorted, as `validateConfig` leaves them.
unfoldable pub validate_rules : Unicode → List Rule → List Rule → Option (List Rule)
validate_rules u before [] = some []
validate_rules u before (rule ∷ rules) =
    let c = rule.capabilities in
    guard (rule_ok u before rule) (
      chain (normalize_modalities rule.capabilities.modalities) (λ modalities.
        chain (validate_rules u (rule ∷ before) rules) (λ rest.
          some (record rule { capabilities = record c { modalities = modalities } } ∷ rest))))

abbrev pub known_mode : Mode → Bool
known_mode observe = true
known_mode warn_then_downshift = true
known_mode (other_mode m) = false

unfoldable pub config_header : Config → Bool
unfolding Float.lt
config_header cfg =
    str_eq cfg.api_version "burnban.downshift/v1"
    && leb_ℤ (pos 1) cfg.revision
    && known_mode cfg.mode
    && (finite_pct cfg.warn_at_pct && finite_pct cfg.downshift_at_pct)
    && not (Float.lt cfg.downshift_at_pct cfg.warn_at_pct)
    && not (is_empty cfg.rules)
    && leb (length cfg.rules) 1024

unfoldable pub validate_config : Unicode → Config → Option Config
unfolding validate_rules
validate_config u cfg =
    guard (config_header cfg)
      (chain (validate_rules u [] cfg.rules) (λ rules. some (record cfg { rules = rules })))

-- `Compiled.Rule`: the map by `sourceKey` keeps the last rule of a source. No route or model of a rule
-- has the byte 0, which separates the two in a key.
unfoldable pub rule_of : List Rule → String → String → Option Rule
rule_of [] route model = none
rule_of (rule ∷ rules) route model = elim (rule_of rules route model) [
  | some r ↦ some r
  | none ↦
      if str_eq route rule.source.route && str_eq model rule.source.model then some rule else none
]

pub record Check : Type 0 where
  pub name : String
  pub want : String
  pub got : String
  pub confidence : String

unfoldable pub checks_of : Scope → Identity → List Check
checks_of scope identity =
    record {
      name = "tenant";
      want = scope.tenant;
      got = identity.tenant;
      confidence = identity.confidence;
    }
    ∷ record {
      name = "principal";
      want = scope.principal;
      got = identity.principal;
      confidence = identity.user_confidence;
    }
    ∷ record {
      name = "service_account";
      want = scope.service_account;
      got = identity.service_account;
      confidence = identity.user_confidence;
    }
    ∷ record {
      name = "project";
      want = scope.project;
      got = identity.project;
      confidence = identity.project_confidence;
    }
    ∷ record {
      name = "cost_center";
      want = scope.cost_center;
      got = identity.cost_center;
      confidence = identity.team_confidence;
    }
    ∷ []

-- Why a scope does not match.
pub data Mismatch : Type 0 where
  requires_authenticated : String → Mismatch
  does_not_match : String → Mismatch

unfoldable pub check_all : List Check → Option Mismatch
check_all [] = none
check_all (check ∷ rest) =
    let later = check_all rest in
    if str_eq check.want ""
    then later
    else if not (str_eq check.confidence "authenticated")
    then some (requires_authenticated check.name)
    else if not (str_eq check.want check.got)
    then some (does_not_match check.name)
    else later

abbrev pub is_empty_scope : Scope → Bool
is_empty_scope s =
    str_eq s.tenant ""
    && str_eq s.principal ""
    && str_eq s.service_account ""
    && str_eq s.project ""
    && str_eq s.cost_center ""

-- `none` where the scope matches.
unfoldable pub scope_matches : Scope → Identity → Option Mismatch
unfolding check_all checks_of
scope_matches scope identity =
    if is_empty_scope scope then none else check_all (checks_of scope identity)
