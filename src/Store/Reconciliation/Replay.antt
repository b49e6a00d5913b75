-- ===== src/Store/Reconciliation/Replay.antt =====
-- `import_invoice` called again with the same invoice, and what it leaves as it was.
use text.Mathlib.TextPositions.{eq_refl}
use burnban.Prelude.{
  suc, String, Bool, true, false, not, ◌&&◌, ◌||◌, ◌≡◌, refl, sym, ap, ◌∙◌, ◌⊎◌, inl, inr, Option,
  none, some, List, [], ◌∷◌, ◌++◌, all, length, codes, is_empty, and_true, if◌then◌else◌, arith,
}
use burnban.Prelude.Int.{ℤ, pos, eqb_ℤ}
use burnban.Reconcile.Line.{Go}
use burnban.Reconcile.Mapping.{Invoice, Digests, import_identity}
use burnban.Reconcile.Invoice.{validate_invoice}
use burnban.Reconcile.Invoice.Imported.{lines_ok-Distinct}
use burnban.Reconcile.Invoice.Lines.{Distinct}
use burnban.Store.Reconciliation.{
  InvoiceImport, InvoiceTables, InvoiceImportResult, ImportError, Outcome, failed, committed,
  total_billed, same_invoice, find_import, imported_invoice_matches, import_row, inserted, replay,
  place, summed, identified, import_invoice,
}
use burnban.Store.Reconciliation.Rows.{UpTo, rows_of_inserted, is_kept, matches_inserted}

-- The rows of lines belong to imports that have been given an id.
pub record AreStored (tables : InvoiceTables) : Type 0 where
  pub lines_up : UpTo tables.last_id tables.lines
  pub adjustments_up : UpTo tables.last_id tables.adjustments

find_import-append :
    (invoice : Invoice) (rows : List InvoiceImport) (row : InvoiceImport)
    → find_import invoice rows ≡ none
    → same_invoice invoice row ≡ true
    → find_import invoice (rows ++ (row ∷ [])) ≡ some row
unfolding find_import
find_import-append invoice [] row h e = ground arith
find_import-append invoice (r ∷ rows) row h e = ground (arith, find_import-append invoice rows row)

inserted_matches :
    (tables : InvoiceTables) (invoice : Invoice) (identity : String) (at total : ℤ)
    → AreStored tables
    → Distinct [] invoice.lines
    → imported_invoice_matches
        (inserted tables invoice identity at total)
        (suc tables.last_id)
        invoice
      ≡ all is_kept invoice.lines
unfolding imported_invoice_matches
inserted_matches tables invoice identity at total stored distinct =
    rw
      (
        rows_of_inserted tables.last_id tables.lines _ stored.lines_up,
        rows_of_inserted tables.last_id tables.adjustments _ stored.adjustments_up,
      )
      (matches_inserted [] invoice.lines distinct)

-- What holds where an import writes rows.
pub record IsFirst (go : Go) (digests : Digests) (tables : InvoiceTables) (invoice : Invoice)
    (at : ℤ) (after : InvoiceTables) (result : InvoiceImportResult) : Type 0 where
  pub identity : String
  pub total : ℤ
  pub accepted : validate_invoice go digests invoice ≡ true
  pub identified_as : import_identity go digests invoice ≡ some identity
  pub sum : total_billed (pos 0) invoice.lines ≡ some total
  pub is_new : find_import invoice tables.imports ≡ none
  pub tables_after : after ≡ inserted tables invoice identity at total
  pub id_given : result.import_id ≡ suc tables.last_id
  pub rows_counted : result.rows ≡ length invoice.lines

committed_inj :
    (t s : InvoiceTables) (a b : InvoiceImportResult)
    → committed t a ≡ committed s b
    → (t ≡ s) × (a ≡ b)
committed_inj t s a b h = (cc, cc)

replay_replayed :
    (tables after : InvoiceTables) (invoice : Invoice) (identity : String) (row : InvoiceImport)
    (result : InvoiceImportResult)
    → replay tables invoice identity row ≡ committed after result
    → (result.replayed ≡ true) × (after ≡ tables)
unfolding replay
replay_replayed tables after invoice identity row result h = ground arith

gate-committed :
    (b : Bool) (o : Outcome) (after : InvoiceTables) (result : InvoiceImportResult)
    → (if b then o else failed ImportError.invalid) ≡ committed after result
    → (b ≡ true) × (o ≡ committed after result)
gate-committed true o after result h = (refl, h)
gate-committed false o after result h = cc

module _ (tables : InvoiceTables) (invoice : Invoice) (at : ℤ) (after : InvoiceTables)
    (result : InvoiceImportResult) where
  identified-committed :
      (o : Option String)
      → identified tables invoice at o ≡ committed after result
      → (identity : String) × (o ≡ some identity)
        × (summed tables invoice identity at (total_billed (pos 0) invoice.lines)
            ≡ committed after result)
  identified-committed none h = cc
  identified-committed (some identity) h = (identity, refl, h)

  summed-committed :
      (identity : String) (o : Option ℤ)
      → summed tables invoice identity at o ≡ committed after result
      → (total : ℤ) × (o ≡ some total)
        × (place tables invoice identity at total (find_import invoice tables.imports)
            ≡ committed after result)
  summed-committed identity none h = cc
  summed-committed identity (some total) h = (total, refl, h)

  -- A call that commits either writes a new import or answers for one that is there.
  place-committed :
      (identity : String) (total : ℤ) (o : Option InvoiceImport)
      → place tables invoice identity at total o ≡ committed after result
      → ((o ≡ none)
          × (after ≡ inserted tables invoice identity at total)
          × (result.import_id ≡ suc tables.last_id)
          × (result.rows ≡ length invoice.lines)
          × (result.replayed ≡ false))
        ⊎ ((result.replayed ≡ true) × (after ≡ tables))
  unfolding place
  place-committed identity total none h =
      let (t, r) = committed_inj _ _ _ _ h in
      inl (
        refl,
        sym t,
        sym (ap (λ x. x.import_id) r),
        sym (ap (λ x. x.rows) r),
        sym (ap (λ x. x.replayed) r),
      )
  place-committed identity total (some row) h =
      inr (replay_replayed tables after invoice identity row result h)

pub import_invoice-IsFirst :
    (go : Go) (digests : Digests) (tables : InvoiceTables) (invoice : Invoice) (at : ℤ)
    (after : InvoiceTables) (result : InvoiceImportResult)
    → import_invoice go digests tables invoice at ≡ committed after result
    → IsFirst go digests tables invoice at after result
      ⊎ ((result.replayed ≡ true) × (after ≡ tables))
unfolding import_invoice
import_invoice-IsFirst go digests tables invoice at after result h =
    let (gate, h1) =
      gate-committed (validate_invoice go digests invoice && not (eqb_ℤ at (pos 0))) _ after result
        h in
    let (identity, i, h2) =
      identified-committed tables invoice at after result (import_identity go digests invoice) h1 in
    let (total, t, h3) =
      summed-committed tables invoice at after result identity (total_billed (pos 0) invoice.lines)
        h2 in
    elim (place-committed tables invoice at after result identity total
      (find_import invoice tables.imports) h3) [
        | inl (f, written, id, count, _) ↦ inl (record {
          identity = identity;
          total = total;
          accepted = (and_true _ _ gate).0;
          identified_as = i;
          sum = t;
          is_new = f;
          tables_after = written;
          id_given = id;
          rows_counted = count;
        })
        | inr r ↦ inr r
      ]

-- The call that follows a first import, written out.
again_found :
    (go : Go) (digests : Digests) (tables : InvoiceTables) (invoice : Invoice) (at : ℤ)
    (identity : String) (total : ℤ) (row : InvoiceImport)
    → validate_invoice go digests invoice ≡ true
    → eqb_ℤ at (pos 0) ≡ false
    → import_identity go digests invoice ≡ some identity
    → total_billed (pos 0) invoice.lines ≡ some total
    → find_import invoice tables.imports ≡ some row
    → import_invoice go digests tables invoice at ≡ replay tables invoice identity row
unfolding import_invoice place
again_found go digests tables invoice at identity total row v z i t f = rw (v, z, i, t, f) refl

accepted-Distinct :
    (go : Go) (digests : Digests) (invoice : Invoice)
    → validate_invoice go digests invoice ≡ true
    → Distinct [] invoice.lines
unfolding validate_invoice
accepted-Distinct go digests invoice h = lines_ok-Distinct go [] invoice.lines (and_true _ _ h).1

or_true : (b : Bool) → (b || true) ≡ true
or_true true = refl
or_true false = refl

replay-inserted :
    (tables : InvoiceTables) (invoice : Invoice) (identity : String) (at total : ℤ)
    (row : InvoiceImport)
    → AreStored tables
    → Distinct [] invoice.lines
    → row.content_sha256 ≡ invoice.content_hash
    → row.import_identity_sha256 ≡ identity
    → row.id ≡ suc tables.last_id
    → let after = inserted tables invoice identity at total in
      replay after invoice identity row ≡ (
        if all is_kept invoice.lines
        then committed after (record {
          import_id = suc tables.last_id;
          rows = length invoice.lines;
          replayed = true;
        })
        else failed ImportError.invoice_conflict)
unfolding replay
replay-inserted tables invoice identity at total row stored distinct content same id =
    rw
      (
        content,
        same,
        id,
        eq_refl invoice.content_hash,
        eq_refl identity,
        or_true (is_empty (codes identity)),
        inserted_matches tables invoice identity at total stored distinct,
      )
      refl

pub true_not_false : ¬ (true ≡ false)
true_not_false h = cc

same_self :
    (invoice : Invoice) (row : InvoiceImport)
    → row.provider ≡ invoice.provider
    → row.invoice_id ≡ invoice.invoice_id
    → same_invoice invoice row ≡ true
same_self invoice row p i = rw (p, i, eq_refl invoice.provider, eq_refl invoice.invoice_id) refl

-- The import of an invoice, once it has been imported, answers with the first id and leaves the tables as they are
-- if every usage line has an empty reference_line_id; if one has not, it is refused as a conflict.
pub import_invoice_again :
    (go : Go) (digests : Digests) (tables after : InvoiceTables) (invoice : Invoice) (at later : ℤ)
    (result : InvoiceImportResult)
    → AreStored tables
    → import_invoice go digests tables invoice at ≡ committed after result
    → result.replayed ≡ false
    → eqb_ℤ later (pos 0) ≡ false
    → import_invoice go digests after invoice later ≡ (
        if all is_kept invoice.lines
        then committed after
            (record { import_id = result.import_id; rows = result.rows; replayed = true })
        else failed ImportError.invoice_conflict)
import_invoice_again go digests tables after invoice at later result stored h new z =
    elim (import_invoice-IsFirst go digests tables invoice at after result h) [
      | inr (r, _) ↦ absurd (true_not_false (sym r ∙ new))
      | inl first ↦
          let distinct = accepted-Distinct go digests invoice first.accepted in
          let row = import_row tables invoice first.identity at first.total in
          rw (first.tables_after, first.id_given, first.rows_counted)
            (again_found go digests (inserted tables invoice first.identity at first.total) invoice
                later first.identity first.total row first.accepted z first.identified_as first.sum
                (find_import-append invoice tables.imports row first.is_new
                  (same_self invoice row refl refl))
              ∙ replay-inserted tables invoice first.identity at first.total row stored distinct
                  refl refl refl)
    ]
