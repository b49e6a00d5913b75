-- ===== src/Store/Reconciliation/Ledger.antt =====
-- The tables of imported invoices after any call of `import_invoice`.
use burnban.Prelude.{
  ℕ, suc, ◌≤◌, String, Bool, false, ◌&&◌, ◌≡◌, refl, sym, ap, ◌∙◌, inl, inr, subst, none, some,
  List, [], ◌∷◌, ◌++◌, All, length, str_eq, chain-some, some_inj, arith,
}
use burnban.Prelude.Int.{ℤ, pos, ◌+ℤ◌, IsInt64, +ℤ_assoc, +ℤ_zero, zero_+ℤ}
use burnban.Reconcile.Money.{checked_add}
use burnban.Reconcile.Money.Accepted.{checked_add_exact}
use burnban.Reconcile.Line.{Line, Go}
use burnban.Reconcile.Mapping.{Invoice, Digests}
use burnban.Store.Reconciliation.{
  LineRow, InvoiceImport, InvoiceTables, InvoiceImportResult, committed, total_billed, same_invoice,
  find_import, import_row, inserted, with_id, import_invoice,
}
use burnban.Store.Reconciliation.Rows.{UpTo}
use burnban.Store.Reconciliation.Replay.{AreStored, true_not_false, import_invoice-IsFirst}

-- One import of each provider's invoice id.
abbrev pub same_import : InvoiceImport → InvoiceImport → Bool
same_import a b = str_eq a.provider b.provider && str_eq a.invoice_id b.invoice_id

abbrev pub AreUnique : List InvoiceImport → Type 0
AreUnique [] = Unit
AreUnique (a ∷ rows) = All (λ b. same_import a b ≡ false) rows × AreUnique rows

pub record IsLedger (tables : InvoiceTables) : Type 0 where
  pub stored : AreStored tables
  pub unique : AreUnique tables.imports
  pub given : All (λ row. row.id ≤ tables.last_id) tables.imports

All-weaken :
    {A : Type 0} (P Q : A → Type 0) (xs : List A) → ((x : A) → P x → Q x) → All P xs → All Q xs
All-weaken P Q [] f h = tt
All-weaken P Q (x ∷ xs) f h = (f x h.0, All-weaken P Q xs f h.1)

All-append : {A : Type 0} (P : A → Type 0) (xs ys : List A) → All P xs → All P ys → All P (xs ++ ys)
All-append P [] ys h k = k
All-append P (x ∷ xs) ys h k = (h.0, All-append P xs ys h.1 k)

UpTo-with_id : (n : ℕ) (lines : List Line) → UpTo n (with_id n lines)
UpTo-with_id n [] = tt
UpTo-with_id n (line ∷ lines) = (omega arith, UpTo-with_id n lines)

UpTo-more :
    (n : ℕ) (rows : List LineRow) (lines : List Line)
    → UpTo n rows
    → UpTo (suc n) (rows ++ with_id (suc n) lines)
UpTo-more n rows lines h =
    All-append (λ row. row.0 ≤ suc n) rows (with_id (suc n) lines)
      (All-weaken (λ row. row.0 ≤ n) (λ row. row.0 ≤ suc n) rows (λ row k. omega arith) h)
      (UpTo-with_id (suc n) lines)

find_import-cons :
    (invoice : Invoice) (a : InvoiceImport) (rows : List InvoiceImport)
    → find_import invoice (a ∷ rows) ≡ none
    → (same_invoice invoice a ≡ false) × (find_import invoice rows ≡ none)
unfolding find_import
find_import-cons invoice a rows h = ground arith

find_import-none :
    (invoice : Invoice) (rows : List InvoiceImport) (row : InvoiceImport)
    → find_import invoice rows ≡ none
    → row.provider ≡ invoice.provider
    → row.invoice_id ≡ invoice.invoice_id
    → All (λ a. same_import a row ≡ false) rows
find_import-none invoice [] row h p i = tt
find_import-none invoice (a ∷ rows) row h p i =
    let (e, rest) = find_import-cons invoice a rows h in
    (rw (p, i) e, find_import-none invoice rows row rest p i)

AreUnique-append :
    (rows : List InvoiceImport) (row : InvoiceImport)
    → AreUnique rows
    → All (λ a. same_import a row ≡ false) rows
    → AreUnique (rows ++ (row ∷ []))
AreUnique-append [] row h k = (tt, tt)
AreUnique-append (a ∷ rows) row h k = (
  All-append (λ b. same_import a b ≡ false) rows (row ∷ []) h.0 (k.0, tt),
  AreUnique-append rows row h.1 k.1,
)

inserted-IsLedger :
    (tables : InvoiceTables) (invoice : Invoice) (identity : String) (at total : ℤ)
    → IsLedger tables
    → find_import invoice tables.imports ≡ none
    → IsLedger (inserted tables invoice identity at total)
inserted-IsLedger tables invoice identity at total l f =
    let row = import_row tables invoice identity at total in
    record {
      stored = record {
        lines_up = UpTo-more tables.last_id tables.lines _ l.stored.lines_up;
        adjustments_up = UpTo-more tables.last_id tables.adjustments _ l.stored.adjustments_up;
      };
      unique =
          AreUnique-append tables.imports row l.unique
            (find_import-none invoice tables.imports row f refl refl);
      given =
          All-append (λ r. r.id ≤ suc tables.last_id) tables.imports (row ∷ [])
            (All-weaken (λ r. r.id ≤ tables.last_id) (λ r. r.id ≤ suc tables.last_id) tables.imports
              (λ r k. omega arith) l.given)
            (omega arith, tt);
    }

-- The tables hold one import of each provider's invoice id, no row of an id that has not been given
-- out, and a committed call keeps it so.
pub import_invoice-IsLedger :
    (go : Go) (digests : Digests) (tables after : InvoiceTables) (invoice : Invoice) (at : ℤ)
    (result : InvoiceImportResult)
    → IsLedger tables
    → import_invoice go digests tables invoice at ≡ committed after result
    → IsLedger after
import_invoice-IsLedger go digests tables after invoice at result l h =
    elim (import_invoice-IsFirst go digests tables invoice at after result h) [
      | inr (_, same) ↦ subst IsLedger (sym same) l
      | inl first ↦
          subst IsLedger (sym first.tables_after)
            (inserted-IsLedger tables invoice first.identity at first.total l first.is_new)
    ]

abbrev pub sum_billed : List Line → ℤ
sum_billed [] = pos 0
sum_billed (line ∷ rest) = line.billed_micros +ℤ sum_billed rest

none_not_some : {a : ℤ} → ¬ (none ≡ some a)
none_not_some h = cc

total_billed_exact :
    (acc total : ℤ) (lines : List Line)
    → IsInt64 acc
    → All (λ line. IsInt64 line.billed_micros) lines
    → total_billed acc lines ≡ some total
    → total ≡ acc +ℤ sum_billed lines
unfolding total_billed
total_billed_exact acc total [] k a h = sym (some_inj h) ∙ sym (+ℤ_zero acc)
total_billed_exact acc total (line ∷ rest) k a h =
    let (sum, c, h1) =
      chain-some (checked_add acc line.billed_micros) (λ s. total_billed s rest) total h in
    elim (checked_add_exact acc line.billed_micros k a.0) [
      | inr (n, _) ↦ absurd (none_not_some (sym n ∙ c))
      | inl (e, i) ↦
          let same = some_inj (sym c ∙ e) in
          total_billed_exact sum total rest (subst IsInt64 (sym same) i) a.1 h1
          ∙ ap (λ s. s +ℤ sum_billed rest) same
          ∙ +ℤ_assoc acc line.billed_micros (sum_billed rest)
    ]

-- An import that is not a replay appends one row, which counts the invoice's lines and holds their exact
-- sum, credits included, and keeps every row of the tables that was there.
pub import_invoice_appends :
    (go : Go) (digests : Digests) (tables after : InvoiceTables) (invoice : Invoice) (at : ℤ)
    (result : InvoiceImportResult)
    → All (λ line. IsInt64 line.billed_micros) invoice.lines
    → import_invoice go digests tables invoice at ≡ committed after result
    → result.replayed ≡ false
    → (row : InvoiceImport) × (new_lines : List LineRow) × (new_adjustments : List LineRow)
      × (after.imports ≡ tables.imports ++ (row ∷ []))
      × (after.lines ≡ tables.lines ++ new_lines)
      × (after.adjustments ≡ tables.adjustments ++ new_adjustments)
      × (row.id ≡ result.import_id)
      × (row.row_count ≡ length invoice.lines)
      × (row.billed_micros ≡ sum_billed invoice.lines)
import_invoice_appends go digests tables after invoice at result a h new =
    elim (import_invoice-IsFirst go digests tables invoice at after result h) [
      | inr (r, _) ↦ absurd (true_not_false (sym r ∙ new))
      | inl first ↦ (
        import_row tables invoice first.identity at first.total,
        _,
        _,
        ap (λ t. t.imports) first.tables_after,
        ap (λ t. t.lines) first.tables_after,
        ap (λ t. t.adjustments) first.tables_after,
        sym first.id_given,
        refl,
        total_billed_exact (pos 0) first.total invoice.lines (omega arith, omega arith) a first.sum
            ∙ zero_+ℤ (sum_billed invoice.lines),
      )
    ]
