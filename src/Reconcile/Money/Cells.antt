-- ===== src/Reconcile/Money/Cells.antt =====
-- internal/reconcile/invoice.go, `SpreadsheetText`: what the cells that it writes can hold.
use burnban.Prelude.{ℕ, false, ◌≡◌, refl, List, [], ◌∷◌, any, Unicode, Bool-cases, inl, inr, arith}
use burnban.Reconcile.Money.{first_visible, clean, starts_formula, spreadsheet_text}

any_unsafe-clean :
    (u : Unicode) (s : List ℕ) → u.is_unsafe b' ' ≡ false → any u.is_unsafe (clean u s) ≡ false
unfolding clean
any_unsafe-clean u [] h = refl
any_unsafe-clean u (c ∷ s) h = elim (Bool-cases (u.is_unsafe c)) [
  | inl e ↦ rw (e, h) (any_unsafe-clean u s h)
  | inr e ↦ rw (e, e) (any_unsafe-clean u s h)
]

starts_formula-quote :
    (u : Unicode) (s : List ℕ) → u.is_space b'\'' ≡ false → starts_formula u (b'\'' ∷ s) ≡ false
unfolding starts_formula first_visible
starts_formula-quote u s h = rw (starts_formula, first_visible, h) refl

-- Where the quote is no space, and neither it nor the blank is unsafe, no written cell holds an
-- unsafe rune or has `=`, `+`, `-` or `@` as its first rune that is not a space.
pub spreadsheet_text_inert :
    (u : Unicode) (s : List ℕ)
    → u.is_unsafe b' ' ≡ false
    → u.is_unsafe b'\'' ≡ false
    → u.is_space b'\'' ≡ false
    → (starts_formula u (spreadsheet_text u s) ≡ false)
      × (any u.is_unsafe (spreadsheet_text u s) ≡ false)
unfolding spreadsheet_text
spreadsheet_text_inert u s blank quote mark = elim (Bool-cases (starts_formula u (clean u s))) [
  | inl e ↦
      rw (e, starts_formula-quote u (clean u s) mark, quote) (refl, any_unsafe-clean u s blank)
  | inr e ↦ rw e (e, any_unsafe-clean u s blank)
]

-- A text without unsafe runes that is no formula is written as it is.
pub clean_id : (u : Unicode) (s : List ℕ) → any u.is_unsafe s ≡ false → clean u s ≡ s
unfolding clean
clean_id u [] h = refl
clean_id u (c ∷ s) h = ground (arith, clean_id u s)
