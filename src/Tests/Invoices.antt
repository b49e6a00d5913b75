-- ===== src/Tests/Invoices.antt =====
-- An invoice of one usage line and one credit, read, imported, and imported again.
use burnban.Prelude.{
  ◌≡◌, refl, ◌⊎◌, ◌↔◌, String, true, false, Option, none, some, List, [], ◌∷◌, ◌++◌, codes, str_eq,
  any, length, if◌then◌else◌, all, arith,
}
use burnban.Prelude.Decimal
use burnban.Prelude.Int
use burnban.Prelude.Sort.{sort_by}
use burnban.Prelude.Int.{ℤ, pos, negsuc, ◌+ℤ◌, IsInt64, max_int64}
use burnban.Reconcile.Money.{
  parse_money_micros, format_money_micros, checked_add, starts_formula, spreadsheet_text,
}
use burnban.Reconcile.Money.Reads.{IsPlain, parse_money_micros-format_money_micros}
use burnban.Reconcile.Money.Accepted.{checked_add_exact}
use burnban.Reconcile.Money.Grammar.{IsSigned, parse_money_micros_iff}
use burnban.Reconcile.Money.Cells.{spreadsheet_text_inert}
use burnban.Reconcile.Line
use burnban.Reconcile.Line.{Line, LineType, Go, type_name}
use burnban.Reconcile.Mapping.{Format, Invoice, Digests, valid_sha256}
use burnban.Reconcile.Invoice.{CsvOptions, parse_csv, validate_invoice}
use burnban.Reconcile.Invoice.Lines.{IsStandard}
use burnban.Reconcile.Invoice.Imported.{parse_csv-validate_invoice}
use burnban.Store.Reconciliation.{
  InvoiceTables, InvoiceImport, LineRow, failed, committed, ImportError, import_invoice, inserted,
  same_line,
}
use burnban.Store.Reconciliation.Rows.{is_kept}
use burnban.Store.Reconciliation.Replay.{import_invoice_again}
use burnban.Store.Reconciliation.Ledger.{
  IsLedger, sum_billed, import_invoice-IsLedger, import_invoice_appends,
}
use burnban.Tests.Data.{ascii}

ascii-IsPlain : IsPlain ascii
ascii-IsPlain c h k = ground arith

roundtrip_example :
    parse_money_micros ascii (format_money_micros (negsuc 1_200_000)) ≡ some (negsuc 1_200_000)
roundtrip_example =
    parse_money_micros-format_money_micros ascii (negsuc 1_200_000) ascii-IsPlain (omega arith)
      (omega arith)

parse_money_micros_iff_example :
    (parse_money_micros ascii (codes "12.5") ≡ some (pos 12_500_000))
    ↔ IsSigned ascii (codes "12.5") (pos 12_500_000)
parse_money_micros_iff_example = parse_money_micros_iff ascii (codes "12.5") (pos 12_500_000)

reads : parse_money_micros ascii (codes "12.5") ≡ some (pos 12_500_000)
unfolding parse_money_micros Decimal.value Decimal.zeros
reads = refl

largest_plus_one :
    ((checked_add (pos max_int64) (pos 1) ≡ some (pos max_int64 +ℤ pos 1))
      × IsInt64 (pos max_int64 +ℤ pos 1))
    ⊎ ((checked_add (pos max_int64) (pos 1) ≡ none) × ¬ IsInt64 (pos max_int64 +ℤ pos 1))
largest_plus_one =
    checked_add_exact (pos max_int64) (pos 1) (omega arith, omega arith) (omega arith, omega arith)

spreadsheet_text_inert_example :
    (starts_formula ascii (spreadsheet_text ascii (codes " =1+1")) ≡ false)
    × (any ascii.is_unsafe (spreadsheet_text ascii (codes " =1+1")) ≡ false)
spreadsheet_text_inert_example = spreadsheet_text_inert ascii (codes " =1+1") refl refl refl

-- The library's calls, as far as the invoice needs them.
abbrev go : Go
go = record {
  unicode = ascii;
  to_lower = λ s. s;
  parse_time = λ s. if str_eq s "2026-01-02T00:00:00Z" then some (pos 5) else none;
  format_time = λ t. "2026-01-02T00:00:00Z";
}

abbrev hash : String
hash = "0123456789abcdef0123456789abcdef0123456789abcdef0123456789abcdef"

abbrev digests : Digests
digests = record { to_upper = λ s. s; mapping_hash = λ m. hash; identity_hash = λ a b. a }

abbrev options : CsvOptions
options = record {
  format = Format.openai;
  invoice_id = "inv-1";
  provider = "openai";
  currency = "";
  mapping = [];
}

abbrev header : List String
header = "id" ∷ "usage_start_time" ∷ "cost_usd" ∷ "type" ∷ []

abbrev csv_records : List (Option (List String))
csv_records =
    some ("b" ∷ "2026-01-02T00:00:00Z" ∷ "12.5" ∷ "" ∷ [])
    ∷ some ("a" ∷ "2026-01-02T00:00:00Z" ∷ "-0.25" ∷ "credit" ∷ [])
    ∷ []

abbrev line : String → ℤ → LineType → Line
line id billed type = record {
  line_id = id;
  occurred_at = pos 5;
  billed_micros = billed;
  model = "";
  service_tier = "";
  region = "";
  line_type = type;
  reference_line_id = "";
  description = "";
}

abbrev invoice : Invoice
invoice = record {
  schema = "burnban.invoice/v1";
  invoice_id = "inv-1";
  provider = "openai";
  currency = "USD";
  source_format = Format.openai;
  content_hash = hash;
  lines = line "b" (pos 12_500_000) LineType.usage ∷ line "a" (negsuc 249_999) LineType.credit ∷ [];
  effective_mapping_hash = hash;
}

parsed : parse_csv go digests options hash header csv_records ≡ some invoice
unfolding parse_csv Line.validate_text Line.parse_line parse_money_micros Decimal.value
    Decimal.zeros Line.line_type_of Line.amount_fits
parsed = refl

go-IsStandard : IsStandard go
go-IsStandard = record { plain = ascii-IsPlain; lower = λ t. refl }

valid_hash : valid_sha256 hash ≡ true
unfolding valid_sha256
valid_hash = refl

parse_csv-validate_invoice_example : validate_invoice go digests invoice ≡ true
parse_csv-validate_invoice_example =
    parse_csv-validate_invoice go digests options hash header csv_records invoice go-IsStandard
      (λ m. valid_hash) valid_hash parsed ((refl, refl), ((refl, refl), tt))

abbrev no_tables : InvoiceTables
no_tables = record { imports = []; lines = []; adjustments = []; last_id = 0 }

abbrev after_import : InvoiceTables
after_import = inserted no_tables invoice hash (pos 9) (pos 12_250_000)

imported :
    import_invoice go digests no_tables invoice (pos 9)
    ≡ committed after_import (record { import_id = 1; rows = 2; replayed = false })
unfolding import_invoice validate_invoice Line.validate_text Line.parse_line Line.row_of_line
    parse_money_micros format_money_micros Decimal.decimal Decimal.emit Decimal.padded Decimal.zeros
    Decimal.value Line.line_type_of Line.amount_fits checked_add Int.sub64 Int.wrap64 Int.◌-ℤ◌
    Int.add64 ◌+ℤ◌ sort_by valid_sha256 same_line
imported = refl

import_invoice_again_example : import_invoice go digests after_import invoice (pos 10) ≡ (
    if all is_kept invoice.lines
    then committed after_import (record { import_id = 1; rows = 2; replayed = true })
    else failed ImportError.invoice_conflict)
import_invoice_again_example =
    import_invoice_again go digests no_tables after_import invoice (pos 9) (pos 10)
      (record { import_id = 1; rows = 2; replayed = false })
      (record { lines_up = tt; adjustments_up = tt }) imported refl refl

import_invoice-IsLedger_example : IsLedger after_import
import_invoice-IsLedger_example =
    import_invoice-IsLedger go digests no_tables after_import invoice (pos 9)
      (record { import_id = 1; rows = 2; replayed = false })
      (record { stored = record { lines_up = tt; adjustments_up = tt }; unique = tt; given = tt })
      imported

import_invoice_appends_example :
    (row : InvoiceImport) × (new_lines : List LineRow) × (new_adjustments : List LineRow)
    × (after_import.imports ≡ no_tables.imports ++ (row ∷ []))
    × (after_import.lines ≡ no_tables.lines ++ new_lines)
    × (after_import.adjustments ≡ no_tables.adjustments ++ new_adjustments)
    × (row.id ≡ 1)
    × (row.row_count ≡ length invoice.lines)
    × (row.billed_micros ≡ sum_billed invoice.lines)
import_invoice_appends_example =
    import_invoice_appends go digests no_tables after_import invoice (pos 9)
      (record { import_id = 1; rows = 2; replayed = false })
      ((omega arith, omega arith), ((omega arith, omega arith), tt)) imported refl

-- An invoice of one usage line that carries a reference.
abbrev referring : Invoice
referring = record invoice {
  lines = record (line "b" (pos 12_500_000) LineType.usage) { reference_line_id = "a" } ∷ [];
}

-- Its second import is refused.
refused_replay :
    import_invoice go digests
      (inserted no_tables referring hash (pos 9) (pos 12_500_000))
      referring
      (pos 10)
    ≡ failed ImportError.invoice_conflict
unfolding import_invoice validate_invoice Line.validate_text Line.parse_line Line.row_of_line
    parse_money_micros format_money_micros Decimal.decimal Decimal.emit Decimal.padded Decimal.zeros
    Decimal.value Line.line_type_of Line.amount_fits checked_add Int.sub64 Int.wrap64 Int.◌-ℤ◌
    Int.add64 ◌+ℤ◌ sort_by valid_sha256 same_line
refused_replay = refl
