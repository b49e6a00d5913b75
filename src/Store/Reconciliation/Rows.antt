-- ===== src/Store/Reconciliation/Rows.antt =====
-- The rows that `importedInvoiceMatches` reads, of an invoice that has been imported.
use text.Mathlib.TextPositions.{eq_refl}
use burnban.Prelude.{
  ℕ, suc, ◌≤◌, String, Bool, true, false, not, ◌&&◌, ◌||◌, ◌≡◌, refl, sym, subst, if◌then◌else◌,
  inl, inr, List, [], ◌∷◌, ◌++◌, Memᴰ, map, keep, any, all, All, str_eq, str_lt, eq_iff, Bool-cases,
  arith,
}
use mathlib.Core.List.Memᴰ
use burnban.Prelude.Int.{ℤ, eqb_ℤ}
use burnban.Prelude.Sort.{sort_by}
use burnban.Prelude.SortKeys.{
  by_key, Differ, AllDiffer, AllDiffer-map, sort_by-keep, sort_by-map, all-sort_by,
}
use burnban.Prelude.TextOrder.{str_lt_total}
use burnban.Reconcile.Line.{Line}
use burnban.Reconcile.Invoice.Lines.{Distinct}
use burnban.Store.Reconciliation.{
  LineRow, is_usage, usage_columns, rows_of, line_key, same_line, match_rows, with_id,
}

rows_of-append :
    (id : ℕ) (xs ys : List LineRow) → rows_of id (xs ++ ys) ≡ rows_of id xs ++ rows_of id ys
rows_of-append id [] ys = refl
rows_of-append id ((i, line) ∷ xs) ys = ground (arith, rows_of-append id xs ys)

rows_of-with_id : (id : ℕ) (lines : List Line) → rows_of id (with_id id lines) ≡ lines
rows_of-with_id id [] = refl
rows_of-with_id id (line ∷ lines) = ground (arith, rows_of-with_id id lines)

-- Every row belongs to an import up to the last id.
abbrev pub UpTo : ℕ → List LineRow → Type 0
UpTo n rows = All (λ row. row.0 ≤ n) rows

rows_of_new : (n : ℕ) (rows : List LineRow) → UpTo n rows → rows_of (suc n) rows ≡ []
rows_of_new n [] h = refl
rows_of_new n ((i, line) ∷ rows) h = ground (arith, rows_of_new n rows h.1)

pub rows_of_inserted :
    (n : ℕ) (rows : List LineRow) (lines : List Line)
    → UpTo n rows
    → rows_of (suc n) (rows ++ with_id (suc n) lines) ≡ lines
rows_of_inserted n rows lines h =
    rw
      (
        rows_of-append (suc n) rows (with_id (suc n) lines),
        rows_of_new n rows h,
        rows_of-with_id (suc n) lines,
      )
      refl

-- Whether the columns of the tables hold all of the line: a usage line must have no reference.
pub is_kept : Line → Bool
is_kept line = not (is_usage line) || str_eq "" line.reference_line_id

eqb_refl : (a : ℤ) → eqb_ℤ a a ≡ true
eqb_refl a = ground arith

-- `same_line-usage_columns`, by the test.
abbrev pub IsSameLine : Bool → Line → Type 0
IsSameLine b line =
    same_line (if b then record line { reference_line_id = "" } else line) line
    ≡ (not b || str_eq "" line.reference_line_id)

and_true_id : (b : Bool) → (b && true) ≡ b
and_true_id true = refl
and_true_id false = refl

usage_same : (line : Line) → IsSameLine true line
unfolding same_line
usage_same line = simp (eq_refl, eqb_refl) (and_true_id (str_eq "" line.reference_line_id))

other_same : (line : Line) → IsSameLine false line
unfolding same_line
other_same line = simp (eq_refl, eqb_refl)

same_line-usage_columns : (line : Line) → same_line (usage_columns line) line ≡ is_kept line
unfolding same_line is_kept
same_line-usage_columns line = elim (Bool-cases (is_usage line)) [
  | inl e ↦ subst (λ b. IsSameLine b line) (sym e) (usage_same line)
  | inr e ↦ subst (λ b. IsSameLine b line) (sym e) (other_same line)
]

match_rows-map :
    (lines : List Line) → match_rows (map usage_columns lines) lines ≡ all is_kept lines
unfolding match_rows
match_rows-map [] = refl
match_rows-map (line ∷ lines) = rw (same_line-usage_columns line, match_rows-map lines) refl

any-false :
    (p : String → Bool) (v : String) (xs : List String) → any p xs ≡ false → Memᴰ v xs → p v ≡ false
any-false p v [] h m = absurd (Memᴰ.not-nil m)
any-false p v (x ∷ xs) h m = elim (Memᴰ.cases_cons m) [
  | inl e ↦ rw e (ground arith)
  | inr d ↦ any-false p v xs (ground arith) d
]

not_equal : (s t : String) → str_eq s t ≡ false → ¬ (s ≡ t)
not_equal s t h e = ground (arith, eq_iff s t)

Differ-of : (x y : Line) → str_eq x.line_id y.line_id ≡ false → Differ line_key x y
Differ-of x y h = elim (Bool-cases (str_lt x.line_id y.line_id)) [
  | inl e ↦ inl e
  | inr e ↦ elim (Bool-cases (str_lt y.line_id x.line_id)) [
    | inl d ↦ inr d
    | inr d ↦ absurd (not_equal _ _ h (str_lt_total _ _ e d))
  ]
]

Distinct-others :
    (seen : List String) (lines : List Line) (x : Line)
    → Distinct seen lines
    → Memᴰ x.line_id seen
    → All (λ y. Differ line_key y x) lines
Distinct-others seen [] x h m = tt
Distinct-others seen (y ∷ lines) x h m = (
  Differ-of y x (any-false (str_eq y.line_id) x.line_id seen h.0 m),
  Distinct-others (y.line_id ∷ seen) lines x h.1 (Memᴰ.tail m),
)

pub Distinct-AllDiffer :
    (seen : List String) (lines : List Line) → Distinct seen lines → AllDiffer line_key lines
Distinct-AllDiffer seen [] h = tt
Distinct-AllDiffer seen (x ∷ lines) h = (
  Distinct-others (x.line_id ∷ seen) lines x h.1 (Memᴰ.head refl),
  Distinct-AllDiffer (x.line_id ∷ seen) lines h.1,
)

usage_key : (line : Line) → line_key (usage_columns line) ≡ line_key line
usage_key line = ground arith

-- The rows that an import wrote are the invoice's lines again just if none has lost its reference.
pub matches_inserted :
    (seen : List String) (lines : List Line)
    → Distinct seen lines
    → match_rows
        (sort_by (by_key line_key) (
          keep is_usage (map usage_columns lines)
          ++ keep (λ line. not (is_usage line)) (map usage_columns lines)))
        (sort_by (by_key line_key) lines)
      ≡ all is_kept lines
matches_inserted seen lines h =
    rw
      (
        sort_by-keep line_key is_usage (map usage_columns lines) (
            AllDiffer-map line_key usage_columns usage_key lines (Distinct-AllDiffer seen lines h)),
        sort_by-map line_key usage_columns usage_key lines,
        match_rows-map (sort_by (by_key line_key) lines),
      )
      (all-sort_by line_key is_kept lines)
