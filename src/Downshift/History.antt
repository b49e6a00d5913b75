-- ===== src/Downshift/History.antt =====
-- internal/downshift/simulate.go: the recorded requests that the replay reads.
use burnban.Prelude.{
  String, Bool, not, ◌&&◌, ◌||◌, Option, none, some, [], leb, length, byte_len, codes, str_eq,
  guard, chain, if◌then◌else◌,
}
use burnban.Prelude.Int.{ℤ, pos, leb_ℤ}
use burnban.Float.{Float64}
use burnban.Pricing.Cost.{Usage}
use burnban.Downshift.Config.{Identity, modalities_from}
use burnban.Downshift.Features.{Features}

-- The columns of a request that the replay reads; `policy_context` is the JSON of the policy's
-- context, where the request has a policy.
pub record Row : Type 0 where
  pub ts : ℤ
  pub provider : String
  pub model : String
  pub requested_provider : String
  pub requested_model : String
  pub usage : Usage
  pub cache_write_1h_tokens : ℤ
  pub cost_usd : Float64
  pub pricing_state : String
  pub fee_unpriced : Bool
  pub service_tier : String
  pub inference_geo : String
  pub identity_tenant : String
  pub principal : String
  pub service_account : String
  pub project : String
  pub cost_center : String
  pub identity_confidence : String
  pub policy_context : String
  pub downshift_action : String
  pub downshift_features : String

-- The three confidences that a policy's context holds.
pub record Confidences : Type 0 where
  pub team : String
  pub user : String
  pub project : String

-- `json.Unmarshal` into the two types.
pub record Decoders : Type 0 where
  pub features : String → Option Features
  pub confidences : String → Option Confidences

-- The operation of each dialect.
abbrev pub known_operation : Features → Bool
known_operation f =
    str_eq f.dialect "openai" && str_eq f.operation "chat_completions"
    || str_eq f.dialect "anthropic" && str_eq f.operation "messages"
    || str_eq f.dialect "gemini" && str_eq f.operation "generate_content"

unfoldable pub receipt_ok : Features → Bool
unfolding modalities_from
receipt_ok f =
    str_eq f.version "burnban.features/v1"
    && leb_ℤ (pos 0) f.context_upper_tokens
    && leb (length f.modalities) 3
    && known_operation f
    && modalities_from [] f.modalities

unfoldable pub parse_feature_receipt : Decoders → String → Option Features
unfolding receipt_ok
parse_feature_receipt decode raw =
    guard (not (str_eq raw "") && leb (byte_len (codes raw)) 4096)
      (chain (decode.features raw) (λ f. guard (receipt_ok f) (some f)))

abbrev pub no_confidences : Confidences
no_confidences = record { team = ""; user = ""; project = "" }

abbrev pub or_none : Option Confidences → Confidences
or_none none = no_confidences
or_none (some c) = c

unfoldable pub confidences_of : Decoders → Row → Confidences
confidences_of decode row =
    if not (str_eq row.policy_context "") && leb (byte_len (codes row.policy_context)) 65536
    then or_none (decode.confidences row.policy_context)
    else no_confidences

unfoldable pub identity_of : Decoders → Row → Identity
unfolding confidences_of
identity_of decode row =
    let c = confidences_of decode row in
    record {
      tenant = row.identity_tenant;
      principal = row.principal;
      service_account = row.service_account;
      project = row.project;
      cost_center = row.cost_center;
      confidence = row.identity_confidence;
      team_confidence = c.team;
      user_confidence = c.user;
      project_confidence = c.project;
    }
