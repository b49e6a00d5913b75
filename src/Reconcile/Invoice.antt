-- ===== src/Reconcile/Invoice.antt =====
-- internal/reconcile/invoice.go: `ParseCSV`, `ParseJSON` and `ValidateInvoice`. Every error is `none` or
-- `false`; its text is left out. The CSV reader and the JSON decoder are the library's: their records
-- are arguments here.
pub mod Lines
pub mod Imported
use burnban.Prelude.{
  ℕ, zero, suc, ◌+◌, String, Bool, true, false, not, ◌&&◌, ◌||◌, Option, none, some, List, [], ◌∷◌,
  map, codes, str_eq, leb, is_empty, any, all, length, guard, chain, is_trimmed, byte_len,
  if◌then◌else◌,
}
use burnban.Prelude.Int.{ℤ, pos, eqb_ℤ}
use burnban.Reconcile.Line.{Line, Row, Go, max_field_bytes, validate_text, parse_line, row_of_line}
use burnban.Reconcile.Mapping.{
  Digests, Field, Format, Invoice, anthropic, billed_usd, bind_identity, canonical, description,
  field_name, fields, gemini, import_identity, is_hex, line_id, line_type, max_columns,
  max_import_rows, model, occurred_at, openai, other_format, overlaid, preset, provider_headers,
  reference_line_id, region, remap, resolve_mapping, service_tier, sources_ok, valid_sha256,
}

unfoldable pub validate_invoice_identity : Go → Invoice → Bool
validate_invoice_identity go invoice =
    validate_text go.unicode invoice.invoice_id 200 false
    && is_trimmed go.unicode (codes invoice.invoice_id)
    && validate_text go.unicode invoice.provider 100 false
    && is_trimmed go.unicode (codes invoice.provider)
    && str_eq invoice.provider (go.to_lower invoice.provider)
    && str_eq invoice.currency "USD"

-- The loop over the rows, after the lines whose ids are `seen`. `none` is a row that cannot be read.
unfoldable pub read_lines : Go → List String → List (Option Row) → Option (List Line)
read_lines go seen [] = some []
read_lines go seen (row ∷ rows) = chain row λ r. chain (parse_line go r) λ line.
    guard (not (any (str_eq line.line_id) seen))
      (chain (read_lines go (line.line_id ∷ seen) rows) λ lines. some (line ∷ lines))

-- The loop over the header, after the folded names `seen`.
unfoldable pub header_ok : Go → List String → List String → Bool
header_ok go seen [] = true
header_ok go seen (value ∷ rest) =
    validate_text go.unicode value 200 false
    && is_trimmed go.unicode (codes value)
    && not (any (str_eq (go.to_lower value)) seen)
    && header_ok go (go.to_lower value ∷ seen) rest

-- `index[name]`, for the folded names of a header from column `i` on.
unfoldable pub index_of : Go → String → ℕ → List String → Option ℕ
index_of go name i [] = none
index_of go name i (value ∷ rest) =
    let later = index_of go name (suc i) rest in
    if str_eq name (go.to_lower value) then some i else later

abbrev pub column : Go → (Field → String) → List String → Field → Option ℕ
column go mapping header f = index_of go (go.to_lower (mapping f)) 0 header

abbrev pub is_mapped : Option ℕ → Bool
is_mapped none = false
is_mapped (some i) = true

abbrev pub cell_at : ℕ → List String → String
cell_at i [] = ""
cell_at zero (value ∷ rest) = value
cell_at (suc i) (value ∷ rest) = cell_at i rest

-- `get(name)`: the empty text where the header has no such column.
abbrev pub cell : Option ℕ → List String → String
cell none record_ = ""
cell (some i) record_ = cell_at i record_

unfoldable pub row_of_record : Go → (Field → String) → List String → List String → Option Row
unfolding index_of
row_of_record go mapping header values =
    guard
      (leb (length values) (length header)
        && leb (length header) (length values)
        && all (λ v. leb (byte_len (codes v)) max_field_bytes) values)
      (some (record {
        line_id = cell (column go mapping header line_id) values;
        occurred_at = cell (column go mapping header occurred_at) values;
        billed_usd = codes (cell (column go mapping header billed_usd) values);
        model = cell (column go mapping header model) values;
        service_tier = cell (column go mapping header service_tier) values;
        region = cell (column go mapping header region) values;
        line_type = cell (column go mapping header line_type) values;
        reference_line_id = cell (column go mapping header reference_line_id) values;
        description = cell (column go mapping header description) values;
      }))

pub record CsvOptions : Type 0 where
  pub format : Format
  pub invoice_id : String
  pub provider : String
  pub currency : String
  pub mapping : List (String × String)

-- A record of the reader, or `none` for its error, as a row.
abbrev pub csv_row : Go → (Field → String) → List String → Option (List String) → Option Row
csv_row go mapping header r = chain r (row_of_record go mapping header)

abbrev pub with_lines : Invoice → List Line → Invoice
with_lines invoice lines = record invoice { lines = lines }

abbrev pub csv_invoice : Go → Digests → CsvOptions → String → (Field → String) → Invoice
csv_invoice go digests options digest mapping = record {
  schema = "burnban.invoice/v1";
  invoice_id = options.invoice_id;
  provider = go.to_lower options.provider;
  currency =
      let currency = digests.to_upper options.currency in
      if is_empty (codes currency) then "USD" else currency;
  source_format = options.format;
  content_hash = digest;
  lines = [];
  effective_mapping_hash = digests.mapping_hash mapping;
}

abbrev pub row_count_ok : List (Option Row) → Bool
row_count_ok rows = not (is_empty rows) && leb (length rows) max_import_rows

-- The lines of the rows, put in an invoice whose other fields are checked.
unfoldable pub fill : Go → Invoice → List (Option Row) → Option Invoice
unfolding validate_invoice_identity read_lines
fill go invoice rows = guard (validate_invoice_identity go invoice) (
    guard (row_count_ok rows)
      (chain (read_lines go [] rows) λ lines. some (with_lines invoice lines)))

unfoldable pub csv_header_ok : Go → List String → (Field → String) → Bool
unfolding header_ok index_of
csv_header_ok go header mapping =
    not (is_empty header)
    && leb (length header) max_columns
    && header_ok go [] header
    && is_mapped (column go mapping header line_id)
    && is_mapped (column go mapping header occurred_at)
    && is_mapped (column go mapping header billed_usd)

unfoldable pub parse_mapped :
    Go
    → Digests
    → CsvOptions
    → String
    → List String
    → List (Option (List String))
    → (Field → String)
    → Option Invoice
unfolding csv_header_ok row_of_record fill
parse_mapped go digests options digest header records mapping =
    guard (csv_header_ok go header mapping) (
      fill go (csv_invoice go digests options digest mapping)
        (map (csv_row go mapping header) records))

-- `digest` is that of the bytes; the texts of `header` and `records` are what the CSV reader gives.
unfoldable pub parse_csv :
    Go → Digests → CsvOptions → String → List String → List (Option (List String)) → Option Invoice
unfolding resolve_mapping parse_mapped
parse_csv go digests options digest header records =
    chain (resolve_mapping go options.format options.mapping)
      (parse_mapped go digests options digest header records)

-- The decoded JSON of an invoice.
pub record WireInvoice : Type 0 where
  pub schema : String
  pub invoice_id : String
  pub provider : String
  pub currency : String
  pub lines : List Row

unfoldable pub parse_json : Go → Digests → String → WireInvoice → Option Invoice
unfolding fill
parse_json go digests digest wire = guard (str_eq wire.schema "burnban.invoice/v1") (
    fill go
      (record {
        schema = wire.schema;
        invoice_id = wire.invoice_id;
        provider = go.to_lower wire.provider;
        currency = digests.to_upper wire.currency;
        source_format = canonical;
        content_hash = digest;
        lines = [];
        effective_mapping_hash = "";
      })
      (map some wire.lines))

-- The line's own row is accepted, with the line's time, which is not the zero time.
abbrev pub confirms : Line → Option Line → Bool
confirms line none = false
confirms line (some validated) =
    not (eqb_ℤ line.occurred_at (pos 0)) && eqb_ℤ line.occurred_at validated.occurred_at

-- The loop of `ValidateInvoice` over the lines, after those whose ids are `seen`.
unfoldable pub lines_ok : Go → List String → List Line → Bool
lines_ok go seen [] = true
lines_ok go seen (line ∷ rest) =
    confirms line (parse_line go (row_of_line go line))
    && not (any (str_eq line.line_id) seen)
    && lines_ok go (line.line_id ∷ seen) rest

abbrev pub is_given {ℓ} : {A : Type ℓ} → Option A → Bool
is_given none = false
is_given (some a) = true

unfoldable pub validate_invoice : Go → Digests → Invoice → Bool
unfolding validate_invoice_identity preset valid_sha256 import_identity lines_ok
validate_invoice go digests invoice =
    str_eq invoice.schema "burnban.invoice/v1"
    && validate_invoice_identity go invoice
    && is_given (preset invoice.source_format)
    && not (is_empty invoice.lines)
    && leb (length invoice.lines) max_import_rows
    && valid_sha256 invoice.content_hash
    && is_given (import_identity go digests invoice)
    && lines_ok go [] invoice.lines
