-- ===== src/Pricing/Types.antt =====
-- internal/pricing/pricing.go and layers.go: the price table.
use burnban.Prelude.{String, Bool, false, List, Unicode}
use burnban.Prelude.Int.{ℤ, pos}
use burnban.Float.{Float64, of_int}

pub record Price : Type 0 where
  pub input_per_mtok : Float64
  pub output_per_mtok : Float64
  pub cache_read_mult : Float64
  pub cache_write_mult : Float64
  pub long_context_threshold : ℤ
  pub long_input_mult : Float64
  pub long_output_mult : Float64
  pub free : Bool
  pub source : String
  pub effective_from : String
  pub valid_through : String
  pub verified_date : String

pub record Source : Type 0 where
  pub provider : String
  pub url : String
  pub verified_date : String

pub record Metadata : Type 0 where
  pub version : String
  pub effective_date : String
  pub verified_date : String
  pub sources : List Source

pub record ContractPrice : Type 0 where
  pub id : String
  pub provider : String
  pub model : String
  pub region : String
  pub service_tier : String
  pub effective_from : String
  pub valid_through : String
  pub price : Price

-- The map of models is a list of its entries, in the order in which a loop visits them.
abbrev pub Models : Type 0
Models = List (String × Price)

pub record Table : Type 0 where
  pub metadata : Metadata
  pub models : Models
  pub contracts : List ContractPrice
  pub override_models : List String

pub data CostSource : Type 0 where
  provider_final contract public_list unknown unmetered : CostSource

-- What the code calls: the tables of the unicode package; strings.EqualFold, TrimSpace and ToLower;
-- whether time.Parse reads a YYYY-MM-DD; whether url.Parse gives an http or https URL with a host and no
-- credentials, query or fragment; and the date of a time in UTC.
pub record Go : Type 0 where
  pub unicode : Unicode
  pub equal_fold : String → String → Bool
  pub trim_space : String → String
  pub to_lower : String → String
  pub is_date : String → Bool
  pub is_url : String → Bool
  pub format_date : ℤ → String

-- `Price{}`.
abbrev pub no_price : Price
unfolding of_int
no_price = record {
  input_per_mtok = of_int 0;
  output_per_mtok = of_int 0;
  cache_read_mult = of_int 0;
  cache_write_mult = of_int 0;
  long_context_threshold = pos 0;
  long_input_mult = of_int 0;
  long_output_mult = of_int 0;
  free = false;
  source = "";
  effective_from = "";
  valid_through = "";
  verified_date = "";
}
