-- ===== src/Reconcile/Line/Fits.antt =====
-- What `parse_line` makes of an accepted row, and the row that is built from a line.
use burnban.Prelude.{
  ℕ, zero, suc, Bool, true, ◌≡◌, ◌≤◌, List, refl, sym, subst, some, Unicode, guard-some, chain-some,
  some_inj, arith,
}
use burnban.Prelude.Int.{ℤ, pos_part, neg_part}
use burnban.Reconcile.Money.{max_money_micros, with_sign, parse_money_micros}
use burnban.Reconcile.Money.Accepted.{parse_money_micros-IsMoney}
use burnban.Reconcile.Money.Reads.{IsPlain, parse_money_micros-format_money_micros}
use burnban.Reconcile.Line.{
  LineType, Line, Row, Go, type_name, line_type_of, texts_ok, amount_fits, checked, typed, priced,
  parse_line, row_of_line,
}

-- The amount and the texts of a line are within their bounds.
pub record LineFits (go : Go) (line : Line) : Type 0 where
  pub signed : amount_fits line.line_type line.billed_micros ≡ true
  pub below : pos_part line.billed_micros ≤ max_money_micros
  pub above : neg_part line.billed_micros ≤ max_money_micros
  pub texts : texts_ok go.unicode (row_of_line go line) ≡ true

with_sign_bounds :
    (b : Bool) (n m : ℕ) → n ≤ m → (pos_part (with_sign b n) ≤ m) × (neg_part (with_sign b n) ≤ m)
unfolding with_sign
with_sign_bounds b zero m h = omega arith
with_sign_bounds b (suc n) m h = ground arith

money_bounds :
    (u : Unicode) (s : List ℕ) (v : ℤ)
    → parse_money_micros u s ≡ some v
    → (pos_part v ≤ max_money_micros) × (neg_part v ≤ max_money_micros)
money_bounds u s v h =
    let r = (parse_money_micros-IsMoney u s v).0 h in
    subst (λ w. (pos_part w ≤ max_money_micros) × (neg_part w ≤ max_money_micros)) (sym r.is_value)
      (with_sign_bounds r.negative r.magnitude max_money_micros r.reads.in_range)

pub parse_line-LineFits :
    (go : Go) (row : Row) (line : Line) → parse_line go row ≡ some line → LineFits go line
unfolding parse_line row_of_line
parse_line-LineFits go row line h =
    let (texts, h1) = guard-some (texts_ok go.unicode row) _ line h in
    let (at, time, h2) = chain-some (go.parse_time row.occurred_at) (priced go row) line h1 in
    let (billed, money, h3) =
      chain-some (parse_money_micros go.unicode row.billed_usd) (typed go row at) line h2 in
    let (type, named, h4) =
      chain-some (line_type_of (go.to_lower row.line_type)) (checked row at billed) line h3 in
    let (fits, made) = guard-some (amount_fits type billed) _ line h4 in
    let (below, above) = money_bounds go.unicode row.billed_usd billed money in
    subst (LineFits go) (some_inj made)
      (record { signed = fits; below = below; above = above; texts = texts })

names_type : (t : LineType) → line_type_of (type_name t) ≡ some t
unfolding line_type_of
names_type LineType.usage = refl
names_type LineType.delayed = refl
names_type LineType.credit = refl
names_type LineType.batch = refl
names_type LineType.tax = refl
names_type LineType.fee = refl

-- A line that fits is what `parse_line` makes of its own row, if the printed time is read back.
pub parse_line-row_of_line :
    (go : Go) (line : Line)
    → IsPlain go.unicode
    → ((t : LineType) → go.to_lower (type_name t) ≡ type_name t)
    → go.parse_time (go.format_time line.occurred_at) ≡ some line.occurred_at
    → LineFits go line
    → parse_line go (row_of_line go line) ≡ some line
unfolding parse_line row_of_line
parse_line-row_of_line go line plain lower time fits =
    rw
      (
        fits.texts,
        time,
        parse_money_micros-format_money_micros go.unicode line.billed_micros plain fits.below
            fits.above,
        lower line.line_type,
        names_type line.line_type,
        fits.signed,
      )
      refl
