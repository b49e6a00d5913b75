-- ===== src/Reconcile/Line.antt =====
-- internal/reconcile/invoice.go, `Line`, `validateText` and `parseLine`. Times are nanoseconds since
-- the zero time, January 1 of year 1.
pub mod Fits
use burnban.Prelude.{
  ℕ, String, Bool, true, false, not, ◌&&◌, ◌||◌, Option, none, some, codes, str_eq, leb, is_empty,
  any, guard, chain, Unicode, byte_len, List, if◌then◌else◌,
}
use burnban.Prelude.Int.{ℤ, pos, ltb_ℤ, eqb_ℤ}
use burnban.Reconcile.Money.{parse_money_micros, format_money_micros}

pub data LineType : Type 0 where
  usage delayed credit batch tax fee : LineType

pub record Line : Type 0 where
  pub line_id : String
  pub occurred_at : ℤ
  pub billed_micros : ℤ
  pub model : String
  pub service_tier : String
  pub region : String
  pub line_type : LineType
  pub reference_line_id : String
  pub description : String

-- What the logical columns of a row hold. The amount is given by its runes.
pub record Row : Type 0 where
  pub line_id : String
  pub occurred_at : String
  pub billed_usd : List ℕ
  pub model : String
  pub service_tier : String
  pub region : String
  pub line_type : String
  pub reference_line_id : String
  pub description : String

-- The library's calls: the Unicode tables, `strings.ToLower`, `time.Parse` of an RFC 3339 text, and
-- the print of a time by `TimestampFormat`.
pub record Go : Type 0 where
  pub unicode : Unicode
  pub to_lower : String → String
  pub parse_time : String → Option ℤ
  pub format_time : ℤ → String

abbrev pub max_field_bytes : ℕ
max_field_bytes = 16384

abbrev pub type_name : LineType → String
type_name usage = "usage"
type_name delayed = "delayed"
type_name credit = "credit"
type_name batch = "batch"
type_name tax = "tax"
type_name fee = "fee"

-- The empty text means usage; a text that names no type is refused.
unfoldable pub line_type_of : String → Option LineType
line_type_of text =
    if is_empty (codes text) || str_eq text "usage"
    then some usage
    else if str_eq text "delayed"
    then some delayed
    else if str_eq text "credit"
    then some credit
    else if str_eq text "batch"
    then some batch
    else if str_eq text "tax"
    then some tax
    else if str_eq text "fee"
    then some fee
    else none

unfoldable pub validate_text : Unicode → String → ℕ → Bool → Bool
validate_text u value max_bytes empty_ok =
    (empty_ok || not (is_empty (codes value)))
    && leb (byte_len (codes value)) max_bytes
    && leb (byte_len (codes value)) max_field_bytes
    && not (any u.is_unsafe (codes value))

-- The sign of an amount that goes with each type.
unfoldable pub amount_fits : LineType → ℤ → Bool
amount_fits usage billed = not (ltb_ℤ billed (pos 0))
amount_fits credit billed = ltb_ℤ billed (pos 0)
amount_fits _ billed = not (eqb_ℤ billed (pos 0))

unfoldable pub texts_ok : Unicode → Row → Bool
unfolding validate_text
texts_ok u row =
    validate_text u row.line_id 200 false
    && validate_text u row.model 200 true
    && validate_text u row.service_tier 200 true
    && validate_text u row.region 200 true
    && validate_text u row.reference_line_id 200 true
    && validate_text u row.description 2000 true

abbrev pub line_of : Row → ℤ → ℤ → LineType → Line
line_of row at billed type = record {
  line_id = row.line_id;
  occurred_at = at;
  billed_micros = billed;
  model = row.model;
  service_tier = row.service_tier;
  region = row.region;
  line_type = type;
  reference_line_id = row.reference_line_id;
  description = row.description;
}

-- The last steps of `parse_line`: the switch on the type, the reading of the type and of the amount.
abbrev pub checked : Row → ℤ → ℤ → LineType → Option Line
checked row at billed type = guard (amount_fits type billed) (some (line_of row at billed type))

abbrev pub typed : Go → Row → ℤ → ℤ → Option Line
typed go row at billed = chain (line_type_of (go.to_lower row.line_type)) (checked row at billed)

abbrev pub priced : Go → Row → ℤ → Option Line
priced go row at = chain (parse_money_micros go.unicode row.billed_usd) (typed go row at)

unfoldable pub parse_line : Go → Row → Option Line
unfolding texts_ok
parse_line go row =
    guard (texts_ok go.unicode row) (chain (go.parse_time row.occurred_at) (priced go row))

-- The row that `ValidateInvoice` builds from a line.
unfoldable pub row_of_line : Go → Line → Row
row_of_line go line = record {
  line_id = line.line_id;
  occurred_at = go.format_time line.occurred_at;
  billed_usd = format_money_micros line.billed_micros;
  model = line.model;
  service_tier = line.service_tier;
  region = line.region;
  line_type = type_name line.line_type;
  reference_line_id = line.reference_line_id;
  description = line.description;
}
