-- ===== src/Store/Reconciliation.antt =====
-- internal/store/reconciliation.go, `ImportInvoice` and `importedInvoiceMatches`: the three tables of
-- imported invoices. Times are nanoseconds. The transaction is a value: a failed call gives no tables.
pub mod Rows
pub mod Replay
pub mod Ledger
use burnban.Prelude.{
  ℕ, zero, suc, ◌+◌, String, Bool, true, false, not, ◌&&◌, ◌||◌, Option, none, some, List, [], ◌∷◌,
  ◌++◌, map, keep, codes, str_eq, ◌==◌, is_empty, length, chain, if◌then◌else◌,
}
use burnban.Prelude.Int.{ℤ, pos, eqb_ℤ}
use burnban.Prelude.Sort.{sort_by}
use burnban.Prelude.SortKeys.{by_key}
use burnban.Reconcile.Money.{checked_add}
use burnban.Reconcile.Line.{LineType, usage, delayed, credit, batch, tax, fee, Line, Go, type_name}
use burnban.Reconcile.Mapping.{Format, Invoice, Digests, import_identity}
use burnban.Reconcile.Invoice.{validate_invoice}

-- A row of invoice_imports.
pub record InvoiceImport : Type 0 where
  pub id : ℕ
  pub provider : String
  pub invoice_id : String
  pub currency : String
  pub source_format : Format
  pub content_sha256 : String
  pub import_identity_sha256 : String
  pub imported_at : ℤ
  pub row_count : ℕ
  pub billed_micros : ℤ

-- A row of invoice_lines or reconciliation_adjustments: the import's id, and the columns as a line.
abbrev pub LineRow : Type 0
LineRow = ℕ × Line

-- `last_id` is the last id of invoice_imports that SQLite gave out.
pub record InvoiceTables : Type 0 where
  pub imports : List InvoiceImport
  pub lines : List LineRow
  pub adjustments : List LineRow
  pub last_id : ℕ

pub record InvoiceImportResult : Type 0 where
  pub import_id : ℕ
  pub rows : ℕ
  pub replayed : Bool

pub data ImportError : Type 0 where
  invalid overflow invoice_conflict : ImportError

pub data Outcome : Type 0 where
  failed : ImportError → Outcome
  committed : InvoiceTables → InvoiceImportResult → Outcome

abbrev pub is_usage : Line → Bool
is_usage line = str_eq (type_name line.line_type) (type_name usage)

unfoldable pub total_billed : ℤ → List Line → Option ℤ
total_billed total [] = some total
total_billed total (line ∷ rest) =
    chain (checked_add total line.billed_micros) λ sum. total_billed sum rest

abbrev pub same_invoice : Invoice → InvoiceImport → Bool
same_invoice invoice row =
    str_eq row.provider invoice.provider && str_eq row.invoice_id invoice.invoice_id

unfoldable pub find_import : Invoice → List InvoiceImport → Option InvoiceImport
find_import invoice [] = none
find_import invoice (row ∷ rest) =
    let later = find_import invoice rest in if same_invoice invoice row then some row else later

-- The columns of invoice_lines: it has none for the reference, and its query gives the empty text.
abbrev pub usage_columns : Line → Line
usage_columns line = if is_usage line then record line { reference_line_id = "" } else line

abbrev pub rows_of : ℕ → List LineRow → List Line
rows_of id [] = []
rows_of id ((import, line) ∷ rest) =
    let more = rows_of id rest in if import == id then line ∷ more else more

abbrev pub line_key : Line → String
line_key line = line.line_id

abbrev pub type_eq : LineType → LineType → Bool
type_eq a b = str_eq (type_name a) (type_name b)

unfoldable pub same_line : Line → Line → Bool
same_line row line =
    str_eq row.line_id line.line_id
    && eqb_ℤ row.occurred_at line.occurred_at
    && eqb_ℤ row.billed_micros line.billed_micros
    && str_eq row.model line.model
    && str_eq row.service_tier line.service_tier
    && str_eq row.region line.region
    && type_eq row.line_type line.line_type
    && str_eq row.reference_line_id line.reference_line_id
    && str_eq row.description line.description

unfoldable pub match_rows : List Line → List Line → Bool
match_rows [] [] = true
match_rows [] (line ∷ lines) = false
match_rows (row ∷ rows) [] = false
match_rows (row ∷ rows) (line ∷ lines) = same_line row line && match_rows rows lines

unfoldable pub imported_invoice_matches : InvoiceTables → ℕ → Invoice → Bool
unfolding match_rows
imported_invoice_matches tables id invoice =
    match_rows
      (sort_by (by_key line_key) (rows_of id tables.lines ++ rows_of id tables.adjustments))
      (sort_by (by_key line_key) invoice.lines)

abbrev pub with_id : ℕ → List Line → List LineRow
with_id id lines = map (λ line. (id, line)) lines

abbrev pub import_row : InvoiceTables → Invoice → String → ℤ → ℤ → InvoiceImport
import_row tables invoice identity imported_at total = record {
  id = suc tables.last_id;
  provider = invoice.provider;
  invoice_id = invoice.invoice_id;
  currency = invoice.currency;
  source_format = invoice.source_format;
  content_sha256 = invoice.content_hash;
  import_identity_sha256 = identity;
  imported_at = imported_at;
  row_count = length invoice.lines;
  billed_micros = total;
}

-- The rows that the import writes.
abbrev pub inserted : InvoiceTables → Invoice → String → ℤ → ℤ → InvoiceTables
inserted tables invoice identity imported_at total =
    let id = suc tables.last_id in
    let columns = map usage_columns invoice.lines in
    record {
      imports = tables.imports ++ (import_row tables invoice identity imported_at total ∷ []);
      lines = tables.lines ++ with_id id (keep is_usage columns);
      adjustments = tables.adjustments ++ with_id id (keep (λ line. not (is_usage line)) columns);
      last_id = id;
    }

-- An import of the same provider and invoice id is there: it is a replay, or a conflict.
unfoldable pub replay : InvoiceTables → Invoice → String → InvoiceImport → Outcome
unfolding imported_invoice_matches
replay tables invoice identity existing =
    if str_eq existing.content_sha256 invoice.content_hash
      && (is_empty (codes existing.import_identity_sha256)
          || str_eq existing.import_identity_sha256 identity)
      && imported_invoice_matches tables existing.id invoice
    then committed tables
        (record { import_id = existing.id; rows = length invoice.lines; replayed = true })
    else failed invoice_conflict

unfoldable pub place : InvoiceTables → Invoice → String → ℤ → ℤ → Option InvoiceImport → Outcome
unfolding replay
place tables invoice identity imported_at total none =
    committed (inserted tables invoice identity imported_at total)
      (record { import_id = suc tables.last_id; rows = length invoice.lines; replayed = false })
place tables invoice identity imported_at total (some existing) =
    replay tables invoice identity existing

abbrev pub summed : InvoiceTables → Invoice → String → ℤ → Option ℤ → Outcome
summed tables invoice identity imported_at none = failed overflow
summed tables invoice identity imported_at (some total) =
    place tables invoice identity imported_at total (find_import invoice tables.imports)

abbrev pub identified : InvoiceTables → Invoice → ℤ → Option String → Outcome
identified tables invoice imported_at none = failed invalid
identified tables invoice imported_at (some identity) =
    summed tables invoice identity imported_at (total_billed (pos 0) invoice.lines)

unfoldable pub import_invoice : Go → Digests → InvoiceTables → Invoice → ℤ → Outcome
unfolding total_billed find_import place
import_invoice go digests tables invoice imported_at =
    if validate_invoice go digests invoice && not (eqb_ℤ imported_at (pos 0))
    then identified tables invoice imported_at (import_identity go digests invoice)
    else failed invalid
