-- ===== src/Reconcile/Invoice/Lines.antt =====
-- The lines of an accepted invoice, by whichever way it came in.
use burnban.Prelude.{
  suc, String, true, false, ◌≡◌, refl, ap, subst, Option, some, List, [], ◌∷◌, All, any, length,
  str_eq, guard-some, chain-some, some_inj, not-true, arith,
}
use burnban.Prelude.Int.{ℤ, pos, eqb_ℤ}
use burnban.Reconcile.Line.{LineType, Line, Row, Go, type_name, parse_line}
use burnban.Reconcile.Line.Fits.{LineFits, parse_line-LineFits, parse_line-row_of_line}
use burnban.Reconcile.Money.Reads.{IsPlain}
use burnban.Reconcile.Invoice.{read_lines, lines_ok}

-- No two lines share an id, and none has one of the ids `seen`.
abbrev pub Distinct : List String → List Line → Type 0
Distinct seen [] = Unit
Distinct seen (line ∷ rest) =
    (any (str_eq line.line_id) seen ≡ false) × Distinct (line.line_id ∷ seen) rest

pub record AreValid (go : Go) (seen : List String) (lines : List Line) : Type 0 where
  pub fit : All (LineFits go) lines
  pub distinct : Distinct seen lines

pub read_lines-AreValid :
    (go : Go) (seen : List String) (rows : List (Option Row)) (lines : List Line)
    → read_lines go seen rows ≡ some lines
    → AreValid go seen lines × (length lines ≡ length rows)
unfolding read_lines
read_lines-AreValid go seen [] lines h =
    subst (λ ls. AreValid go seen ls × (length ls ≡ 0)) {x = []} (some_inj h)
      (record { fit = tt; distinct = tt }, refl)
read_lines-AreValid go seen (row ∷ rows) lines h =
    let (r, given, h1) = chain-some row _ lines h in
    let (line, parsed, h2) = chain-some (parse_line go r) _ lines h1 in
    let (fresh, h3) = guard-some _ _ lines h2 in
    let (more, rest, made) = chain-some (read_lines go (line.line_id ∷ seen) rows) _ lines h3 in
    let (valid, same) = read_lines-AreValid go (line.line_id ∷ seen) rows more rest in
    subst (λ ls. AreValid go seen ls × (length ls ≡ suc (length rows))) {x = line ∷ more}
      (some_inj made)
      (
        record {
          fit = (parse_line-LineFits go r line parsed, valid.fit);
          distinct = (not-true _ fresh, valid.distinct);
        },
        ap suc same,
      )

-- The library's calls do what they are documented to: printable ASCII is no space, and the types'
-- names are in lower case.
pub record IsStandard (go : Go) : Type 0 where
  pub plain : IsPlain go.unicode
  pub lower : (t : LineType) → go.to_lower (type_name t) ≡ type_name t

-- The time of a line is not the zero time, and its print is read back.
abbrev pub HasTime : Go → Line → Type 0
HasTime go line =
    (go.parse_time (go.format_time line.occurred_at) ≡ some line.occurred_at)
    × (eqb_ℤ line.occurred_at (pos 0) ≡ false)

eqb_refl : (a : ℤ) → eqb_ℤ a a ≡ true
eqb_refl a = ground arith

pub AreValid-lines_ok :
    (go : Go) (seen : List String) (lines : List Line)
    → IsStandard go
    → All (HasTime go) lines
    → AreValid go seen lines
    → lines_ok go seen lines ≡ true
unfolding lines_ok
AreValid-lines_ok go seen [] std times v = refl
AreValid-lines_ok go seen (line ∷ rest) std times v =
    let again = parse_line-row_of_line go line std.plain std.lower times.0.0 v.fit.0 in
    rw (again, times.0.1, eqb_refl line.occurred_at, v.distinct.0)
      (AreValid-lines_ok go (line.line_id ∷ seen) rest std times.1
        (record { fit = v.fit.1; distinct = v.distinct.1 }))
