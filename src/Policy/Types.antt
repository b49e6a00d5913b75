-- ===== src/Policy/Types.antt =====
-- internal/policy/types.go: the policy document and the request metadata that it is judged by. A
-- string of which the code only tests membership in a fixed set is a data type with a case for the rest.
use burnban.Prelude.{String, Bool, Option, List}
use burnban.Prelude.Int.{ℤ}
use burnban.Float.{Float64}

-- `unset` is the empty string.
pub data Mode : Type 0 where
  unset observe warn enforce : Mode
  other_mode : String → Mode

pub data TokenKind : Type 0 where
  any_kind input output total : TokenKind
  other_kind : String → TokenKind

pub data WindowType : Type 0 where
  rolling fixed : WindowType
  other_type : String → WindowType

pub data Confidence : Type 0 where
  absent authenticated self_reported unverified not_identity : Confidence
  other_confidence : String → Confidence

pub record Metadata : Type 0 where
  pub name : String
  pub namespace : String
  pub revision : ℤ

pub record Scope : Type 0 where
  pub organization : List String
  pub tenant : List String
  pub meter : List String
  pub device : List String
  pub team : List String
  pub cost_center : List String
  pub principal : List String
  pub service_account : List String
  pub user : List String
  pub project : List String
  pub environment : List String
  pub agent : List String
  pub session : List String
  pub provider : List String
  pub model : List String
  pub model_class : List String
  pub route : List String
  pub tier : List String
  pub service_tier : List String
  pub geo : List String
  pub inference_geo : List String

pub record AccessList : Type 0 where
  pub allow : List String
  pub deny : List String

pub record Match : Type 0 where
  pub provider : AccessList
  pub model : AccessList
  pub route : AccessList
  pub tier : AccessList
  pub geo : AccessList
  pub model_class : Option AccessList
  pub service_tier : Option AccessList
  pub inference_geo : Option AccessList

pub record WindowLimit : Type 0 where
  pub id : String
  pub max : ℤ
  pub window : String
  pub window_type : WindowType
  pub kind : TokenKind

pub record DollarLimit : Type 0 where
  pub id : String
  pub max_micro_usd : ℤ
  pub window : String
  pub window_type : WindowType

pub record Limits : Type 0 where
  pub requests : List WindowLimit
  pub tokens : List WindowLimit
  pub dollars : List DollarLimit
  pub concurrency : ℤ
  pub max_estimated_call_cost_usd : Option Float64
  pub require_output_bound : Bool

pub record Rule : Type 0 where
  pub id : String
  pub mode : Mode
  pub scope : Scope
  pub match : Match
  pub limits : Limits

pub record Document : Type 0 where
  pub api_version : String
  pub kind : String
  pub metadata : Metadata
  pub mode : Mode
  pub rules : List Rule

pub record Context : Type 0 where
  pub organization : String
  pub tenant : String
  pub meter : String
  pub device : String
  pub team : String
  pub cost_center : String
  pub principal : String
  pub service_account : String
  pub user : String
  pub project : String
  pub environment : String
  pub agent : String
  pub session : String
  pub provider : String
  pub model : String
  pub model_class : String
  pub route : String
  pub tier : String
  pub service_tier : String
  pub geo : String
  pub inference_geo : String
  pub estimated_input : ℤ
  pub output_bound : ℤ
  pub output_bound_present : Bool
  pub estimated_cost_usd : Float64
  pub estimated_cost_micro_usd : ℤ
  pub cost_known : Bool
  pub identity_confidence : Confidence
  pub organization_confidence : Confidence
  pub tenant_confidence : Confidence
  pub meter_confidence : Confidence
  pub device_confidence : Confidence
  pub team_confidence : Confidence
  pub cost_center_confidence : Confidence
  pub principal_confidence : Confidence
  pub service_account_confidence : Confidence
  pub user_confidence : Confidence
  pub project_confidence : Confidence
  pub environment_confidence : Confidence

-- The keys of the maps that `scopeSelectors`, `matchAccess` and `contextValues` build.
pub data Dimension : Type 0 where
  organization tenant meter device team cost_center principal service_account user : Dimension
  project environment agent session provider model model_class route tier : Dimension
  service_tier geo inference_geo : Dimension
