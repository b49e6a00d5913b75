-- ===== src/Tests/Data.antt =====
-- A small policy, requests, a ledger and a downshift configuration to run the code on.
use burnban.Prelude.{
  ◌*◌, ◌||◌, ◌&&◌, str_eq, if◌then◌else◌, true, false, Option, none, some, String, [], ◌∷◌, ltb,
  ◌==◌, Unicode,
}
use burnban.Prelude.Int.{ℤ, pos}
use burnban.Float
use burnban.Float.{fin}
use burnban.Policy.Types.{enforce, unset, any_kind, rolling, Scope, Match, Rule, Document, Context}
use burnban.Policy.Scope.{empty_context, no_access}
use burnban.Policy.Engine.{Compiled, Engine}
use burnban.Policy.Engine.Prepare.{ActiveDocument}
use burnban.Store.PolicyDecisions.{PolicyDecisionRule, Ledger}
use burnban.Downshift.Config
use burnban.Downshift.Config.{warn_then_downshift}
use burnban.Downshift.Features.{Features}
use burnban.Downshift.Decide.{Input}

-- ASCII's part of the Unicode tables.
abbrev pub ascii : Unicode
ascii = record {
  is_space = λ c. c == 32 || (ltb 8 c && ltb c 14);
  is_unsafe = λ c. ltb c 32 || c == 127;
  is_forbidden = λ c. ltb c 32 || c == 127;
}

-- `time.ParseDuration` on the one window that the policy names.
abbrev pub hours : String → Option ℤ
hours w = if str_eq w "1h" then some (pos (3600 * 1000000000)) else none

abbrev pub no_scope : Scope
no_scope = record {
  organization = [];
  tenant = [];
  meter = [];
  device = [];
  team = [];
  cost_center = [];
  principal = [];
  service_account = [];
  user = [];
  project = [];
  environment = [];
  agent = [];
  session = [];
  provider = [];
  model = [];
  model_class = [];
  route = [];
  tier = [];
  service_tier = [];
  geo = [];
  inference_geo = [];
}

abbrev pub no_match : Match
no_match = record {
  provider = no_access;
  model = no_access;
  route = no_access;
  tier = no_access;
  geo = no_access;
  model_class = none;
  service_tier = none;
  inference_geo = none;
}

-- Two requests an hour, and no request that is sent to another provider than openai.
abbrev pub hourly : Rule
hourly =
    let m = no_match in
    record {
      id = "hourly";
      mode = unset;
      scope = no_scope;
      match = record m { provider = record { allow = "open*" ∷ []; deny = [] } };
      limits = record {
        requests =
            record { id = "r"; max = pos 2; window = "1h"; window_type = rolling; kind = any_kind }
            ∷ [];
        tokens = [];
        dollars = [];
        concurrency = pos 3;
        max_estimated_call_cost_usd = none;
        require_output_bound = false;
      };
    }

abbrev pub team_rule : Rule
team_rule =
    let r = hourly in let s = no_scope in record r { scope = record s { team = "core" ∷ [] } }

abbrev pub policy : Document
policy = record {
  api_version = "burnban.dev/v2";
  kind = "PolicySet";
  metadata = record { name = "p"; namespace = "n"; revision = pos 1 };
  mode = enforce;
  rules = hourly ∷ [];
}

abbrev pub compiled : Compiled
compiled = record {
  document = policy;
  digest = "d";
  windows =
      (
        record { rule_id = "hourly"; dimension = "requests"; limit_id = "r" },
        pos (3600 * 1000000000),
      )
      ∷ [];
}

-- No request is in flight, and none is pending.
abbrev pub idle : Engine
idle = record {
  active = none;
  active_id = 0;
  in_flight = λ _. pos 0;
  pending = λ _. [];
  next_pending = 0;
}

abbrev pub row : ActiveDocument
row = record { id = 7; namespace = "n"; revision = pos 1; digest = "d"; document_json = "{}" }

-- A parser that knows the one document.
abbrev pub parse : String → Option Compiled
parse _ = some compiled

abbrev pub request : Context
request =
    let c = empty_context in
    record c { provider = "openai"; model = "gpt"; estimated_input = pos 10 }

abbrev pub foreign_request : Context
foreign_request =
    let c = empty_context in record c { provider = "other"; model = "m"; estimated_input = pos 10 }

abbrev pub counted_rule : PolicyDecisionRule
counted_rule = record {
  rule_id = "hourly";
  accepted = true;
  estimated_tokens = pos 10;
  estimated_input_tokens = pos 10;
  estimated_output_tokens = pos 0;
  estimated_total_tokens = pos 0;
  estimated_cost_micro_usd = pos 0;
}

-- One request was admitted.
abbrev pub ledger : Ledger
ledger = record {
  decisions = [];
  rows = record { decision_id = 1; ts = pos 5; namespace = "n"; rule = counted_rule } ∷ [];
  last_id = 1;
}

abbrev pub source : Config.Endpoint
source = record {
  route = "main";
  model = "large";
  family = "f";
  dialect = "openai";
  context_tokens = pos 1000;
}

abbrev pub target : Config.Endpoint
target = record {
  route = "main";
  model = "small";
  family = "f";
  dialect = "openai";
  context_tokens = pos 500;
}

abbrev pub smaller : Config.Rule
smaller = record {
  id = "smaller";
  source = source;
  target = target;
  scope = record {
    tenant = "t";
    principal = "";
    service_account = "";
    project = "";
    cost_center = "";
  };
  capabilities = record { tools = true; structured_output = false; modalities = "text" ∷ [] };
}

abbrev pub config : Config.Config
config = record {
  api_version = "burnban.downshift/v1";
  revision = pos 1;
  mode = warn_then_downshift;
  warn_at_pct = Float.of_int 50;
  downshift_at_pct = Float.of_int 80;
  downshift_on_denial = true;
  rules = smaller ∷ [];
}

abbrev pub downshifts : Config.Compiled
downshifts = record { config = config; digest = "c" }

abbrev pub someone : Config.Identity
someone = record {
  tenant = "t";
  principal = "p";
  service_account = "";
  project = "";
  cost_center = "";
  confidence = "authenticated";
  team_confidence = "";
  user_confidence = "";
  project_confidence = "";
}

abbrev pub features : Features
features = record {
  version = "1";
  dialect = "openai";
  operation = "chat";
  context_upper_tokens = pos 400;
  output_bound_present = true;
  uses_tools = true;
  structured_output = false;
  modalities = "text" ∷ [];
  compatible = true;
  reason = "";
}

abbrev pub busy : Input
busy = record {
  route = "main";
  model = "large";
  dialect = "openai";
  target_route_exists = true;
  target_dialect = "openai";
  identity = someone;
  features = features;
  budget_pct = Float.of_int 90;
  budget_denial = false;
}
