-- ===== src/Reconcile/Invoice/Imported.antt =====
-- Invoices that `parse_csv` gives, under `validate_invoice`.
use burnban.Prelude.{
  ℕ, String, true, false, ◌≡◌, refl, sym, subst, Option, some, List, [], ◌∷◌, All, length, str_eq,
  map, codes, is_empty, leb, guard-some, chain-some, some_inj, not-true, and_true, arith,
}
use burnban.Reconcile.Line.{Line, Row, Go}
use burnban.Reconcile.Mapping.{
  Field, Invoice, Format, Digests, preset, resolve_mapping, valid_sha256, import_identity,
  max_import_rows,
}
use burnban.Reconcile.Invoice.{
  CsvOptions, validate_invoice_identity, read_lines, with_lines, csv_row, csv_invoice, row_count_ok,
  fill, csv_header_ok, parse_mapped, parse_csv, lines_ok, is_given, validate_invoice,
}
use burnban.Reconcile.Invoice.Lines.{
  Distinct, IsStandard, HasTime, read_lines-AreValid, AreValid-lines_ok,
}

pub lines_ok-Distinct :
    (go : Go) (seen : List String) (lines : List Line)
    → lines_ok go seen lines ≡ true
    → Distinct seen lines
unfolding lines_ok
lines_ok-Distinct go seen [] h = tt
lines_ok-Distinct go seen (line ∷ rest) h =
    let (front, more) = and_true _ _ h in
    (not-true _ (and_true _ _ front).1, lines_ok-Distinct go (line.line_id ∷ seen) rest more)

fill-some :
    (go : Go) (base : Invoice) (rows : List (Option Row)) (invoice : Invoice)
    → fill go base rows ≡ some invoice
    → (lines : List Line) × (validate_invoice_identity go base ≡ true)
      × (row_count_ok rows ≡ true)
      × (read_lines go [] rows ≡ some lines)
      × (invoice ≡ with_lines base lines)
unfolding fill
fill-some go base rows invoice h =
    let (a, h1) = guard-some (validate_invoice_identity go base) _ invoice h in
    let (b, h2) = guard-some (row_count_ok rows) _ invoice h1 in
    let (lines, c, d) =
      chain-some (read_lines go [] rows) (λ lines. some (with_lines base lines)) invoice h2 in
    (lines, a, b, c, sym (some_inj d))

resolve-preset :
    (go : Go) (format : Format) (overlay : List (String × String)) (mapping : Field → String)
    → resolve_mapping go format overlay ≡ some mapping
    → is_given (preset format) ≡ true
unfolding resolve_mapping
resolve-preset go format overlay mapping h =
    let (base, e, h1) = chain-some (preset format) _ mapping h in rw e refl

filled : (s : List ℕ) → leb 64 (length s) ≡ true → is_empty s ≡ false
filled [] h = ground arith
filled (c ∷ s) h = refl

sha_filled : (s : String) → valid_sha256 s ≡ true → is_empty (codes s) ≡ false
unfolding valid_sha256
sha_filled s h = filled (codes s) (and_true _ _ (and_true _ _ h).0).0

identity_given :
    (go : Go) (digests : Digests) (invoice : Invoice)
    → valid_sha256 invoice.content_hash ≡ true
    → valid_sha256 invoice.effective_mapping_hash ≡ true
    → is_given (import_identity go digests invoice) ≡ true
unfolding import_identity
identity_given go digests invoice h k = rw (sha_filled _ k, h, k) refl

-- `n` rows, none of them cut.
row_count_lines :
    (rows : List (Option Row)) (lines : List Line)
    → row_count_ok rows ≡ true
    → length lines ≡ length rows
    → (is_empty lines ≡ false) × (leb (length lines) max_import_rows ≡ true)
row_count_lines [] lines h e = cc
row_count_lines (row ∷ rows) [] h e = absurd (omega arith)
row_count_lines (row ∷ rows) (line ∷ lines) h e = (refl, rw e h)

identity_with_lines :
    (go : Go) (base : Invoice) (lines : List Line)
    → validate_invoice_identity go (with_lines base lines) ≡ validate_invoice_identity go base
unfolding validate_invoice_identity
identity_with_lines go base lines = refl

filled_valid :
    (go : Go) (digests : Digests) (base : Invoice) (rows : List (Option Row)) (invoice : Invoice)
    → IsStandard go
    → str_eq base.schema "burnban.invoice/v1" ≡ true
    → is_given (preset base.source_format) ≡ true
    → valid_sha256 base.content_hash ≡ true
    → valid_sha256 base.effective_mapping_hash ≡ true
    → fill go base rows ≡ some invoice
    → All (HasTime go) invoice.lines
    → validate_invoice go digests invoice ≡ true
unfolding validate_invoice
filled_valid go digests base rows invoice std schema format hash mapping h times =
    let (lines, identity, count, parsed, made) = fill-some go base rows invoice h in
    let (valid, same) = read_lines-AreValid go [] rows lines parsed in
    let (some_line, few) = row_count_lines rows lines count same in
    let times' : All (HasTime go) lines = subst (λ i. All (HasTime go) i.lines) made times in
    rw
      (
        made,
        identity_given go digests (with_lines base lines) hash mapping,
        schema,
        identity_with_lines go base lines,
        identity,
        format,
        some_line,
        few,
        hash,
      )
      (AreValid-lines_ok go [] lines std times' valid)

-- An invoice that `parse_csv` accepts is one that `validate_invoice` accepts, so that an import never
-- refuses a parsed invoice for its form: where the library's calls do what they are documented to,
-- the digests are 64 hexadecimal digits, no line has the zero time, and each line's time is read back from its print.
pub parse_csv-validate_invoice :
    (go : Go) (digests : Digests) (options : CsvOptions) (digest : String) (header : List String)
    (records : List (Option (List String))) (invoice : Invoice)
    → IsStandard go
    → ((mapping : Field → String) → valid_sha256 (digests.mapping_hash mapping) ≡ true)
    → valid_sha256 digest ≡ true
    → parse_csv go digests options digest header records ≡ some invoice
    → All (HasTime go) invoice.lines
    → validate_invoice go digests invoice ≡ true
unfolding parse_csv parse_mapped
parse_csv-validate_invoice go digests options digest header records invoice std hashes hash h
      times =
    let (mapping, found, h1) =
      chain-some (resolve_mapping go options.format options.mapping)
        (parse_mapped go digests options digest header records) invoice h in
    let base = csv_invoice go digests options digest mapping in
    let rows = map (csv_row go mapping header) records in
    let (_, h2) = guard-some (csv_header_ok go header mapping) (fill go base rows) invoice h1 in
    filled_valid go digests base rows invoice std refl
      (resolve-preset go options.format options.mapping mapping found) hash (hashes mapping) h2
      times
