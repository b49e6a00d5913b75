-- ===== src/Reconcile/Money.antt =====
-- internal/reconcile/invoice.go, `ParseMoneyMicros`, `FormatMoneyMicros`, `CheckedAdd` and
-- `SpreadsheetText`. A text is the list of its runes; amounts are int64 in millionths of a dollar.
pub mod Reads
pub mod Accepted
pub mod Grammar
pub mod Cells
use burnban.Prelude.{
  ℕ, zero, suc, ◌+◌, ◌-◌, ◌*◌, ◌/◌, ◌%◌, ◌≤◌, ◌≡◌, refl, Bool, true, false, not, ◌&&◌, ◌||◌, Option,
  none, some, List, [], ◌∷◌, ◌++◌, ◌==◌, leb, ltb, if◌then◌else◌, is_empty, all, any, length, guard,
  chain, Unicode, is_trimmed,
}
use burnban.Prelude.Int.{ℤ, pos, negsuc, ◌+ℤ◌, ◌-ℤ◌, sub_ℕ, ltb_ℤ, add64, sub64, max_int64}
use burnban.Prelude.Decimal.{is_digit, value, zeros, decimal, padded}

abbrev pub max_money_micros : ℕ
max_money_micros = 1_000_000_000_000_000

-- `strings.Count`, and the two parts of `strings.SplitN(value, sep, 2)`.
unfoldable pub count : ℕ → List ℕ → ℕ
count sep [] = 0
count sep (c ∷ s) = let rest = count sep s in if c == sep then suc rest else rest

unfoldable pub before : ℕ → List ℕ → List ℕ
before sep [] = []
before sep (c ∷ s) = let rest = before sep s in if c == sep then [] else c ∷ rest

unfoldable pub after : ℕ → List ℕ → List ℕ
after sep [] = []
after sep (c ∷ s) = let rest = after sep s in if c == sep then s else rest

-- `strconv.ParseInt(digits, 10, 64)`.
abbrev pub parse_int64 : List ℕ → Option ℕ
parse_int64 digits = if leb (value digits 0) max_int64 then some (value digits 0) else none

-- The sign, and the text after it.
unfoldable pub split_sign : List ℕ → Option (Bool × List ℕ)
split_sign [] = none
split_sign (c ∷ s) =
    if c == b'-' then some (true, s) else if c == b'+' then none else some (false, c ∷ s)

unfoldable pub combine : ℕ → ℕ → Option ℕ
combine whole frac = guard (leb whole (max_money_micros / 1_000_000)) (
    guard (leb whole ((max_money_micros - frac) / 1_000_000))
      (guard (leb (whole * 1_000_000 + frac) max_money_micros) (some (whole * 1_000_000 + frac))))

-- The fraction is filled with zeros up to six digits.
abbrev pub fraction : List ℕ → ℕ
fraction digits = value (digits ++ zeros (6 - length digits)) 0

unfoldable pub parse_unsigned : List ℕ → Option ℕ
unfolding count before after combine
parse_unsigned s = guard (not (is_empty s) && leb (count b'.' s) 1) (
    guard (not (is_empty (before b'.' s))) (
      guard (all is_digit (before b'.' s) && all is_digit (after b'.' s)) (
        guard (leb (length (after b'.' s)) 6)
          (chain (parse_int64 (before b'.' s)) λ whole. combine whole (fraction (after b'.' s))))))

unfoldable pub with_sign : Bool → ℕ → ℤ
with_sign negative zero = pos 0
with_sign negative (suc n) = if negative then negsuc n else pos (suc n)

unfoldable pub parse_money_micros : Unicode → List ℕ → Option ℤ
unfolding split_sign parse_unsigned with_sign
parse_money_micros u s =
    guard (not (is_empty s) && is_trimmed u s)
      (chain (split_sign s) λ parts. chain (parse_unsigned parts.1) λ n. some (with_sign parts.0 n))

-- `/` and `%` of int64 truncate towards zero; %d and %06d of an int64.
unfoldable pub quotient : ℤ → ℕ → ℤ
quotient (pos n) d = pos (n / d)
quotient (negsuc n) d = sub_ℕ 0 (suc n / d)

unfoldable pub remainder : ℤ → ℕ → ℤ
remainder (pos n) d = pos (n % d)
remainder (negsuc n) d = sub_ℕ 0 (suc n % d)

unfoldable pub print_int : ℤ → List ℕ
print_int (pos n) = decimal n
print_int (negsuc n) = b'-' ∷ decimal (suc n)

unfoldable pub print_padded : ℕ → ℤ → List ℕ
print_padded w (pos n) = padded w n
print_padded w (negsuc n) = b'-' ∷ padded (w - 1) (suc n)

unfoldable pub print_amount : ℤ → List ℕ
unfolding quotient remainder print_int print_padded
print_amount v = print_int (quotient v 1_000_000) ++ (b'.' ∷ print_padded 6 (remainder v 1_000_000))

unfoldable pub format_money_micros : ℤ → List ℕ
unfolding print_amount
format_money_micros v =
    if ltb_ℤ v (pos 0) then b'-' ∷ print_amount (sub64 (pos 0) v) else print_amount v

unfoldable pub checked_add : ℤ → ℤ → Option ℤ
checked_add a b =
    if (ltb_ℤ (pos 0) b && ltb_ℤ (sub64 (pos max_int64) b) a)
      || (ltb_ℤ b (pos 0) && ltb_ℤ a (sub64 (negsuc max_int64) b))
    then none
    else some (add64 a b)

-- The first rune that is not a space, if there is one.
unfoldable pub first_visible : Unicode → List ℕ → Option ℕ
first_visible u [] = none
first_visible u (c ∷ s) = let rest = first_visible u s in if u.is_space c then rest else some c

abbrev pub is_formula_char : ℕ → Bool
is_formula_char c = c == b'=' || c == b'+' || c == b'-' || c == b'@'

unfoldable pub clean : Unicode → List ℕ → List ℕ
clean u [] = []
clean u (c ∷ s) = (if u.is_unsafe c then b' ' else c) ∷ clean u s

unfoldable pub starts_formula : Unicode → List ℕ → Bool
unfolding first_visible
starts_formula u s = elim (first_visible u s) [ none ↦ false | some c ↦ is_formula_char c ]

unfoldable pub spreadsheet_text : Unicode → List ℕ → List ℕ
unfolding clean starts_formula
spreadsheet_text u s = if starts_formula u (clean u s) then b'\'' ∷ clean u s else clean u s
