-- ===== src/Optimize/Score.antt =====
-- internal/optimize/quality.go, `ParseScorePPM` and `FormatScorePPM`: scores from 0 to 1 in millionths.
-- A text is the list of its runes.
pub mod RoundTrip
use burnban.Prelude.{
  ℕ, zero, suc, ◌+◌, ◌-◌, ◌≤◌, ◌<◌, ◌≡◌, refl, ap, sym, ◌∙◌, Bool, true, false, not, ◌&&◌, ◌||◌,
  Option, none, some, List, [], ◌∷◌, ◌++◌, ◌==◌, leb, ltb, if◌then◌else◌, is_empty, all, length,
  guard, codes, Unicode, is_trimmed, last_of, Bool-cases, inl, inr, arith,
}
use burnban.Prelude.Int.{ℤ, pos, negsuc}
use burnban.Prelude.Decimal.{
  is_digit, value, zeros, padded, pow10, value-padded, all_digits-padded, length-padded,
}
use burnban.Reconcile.Money.{count, before, after}

abbrev pub is_sign : List ℕ → Bool
is_sign [] = false
is_sign (c ∷ s) = c == b'+' || c == b'-'

abbrev pub is_just : ℕ → List ℕ → Bool
is_just c [] = false
is_just c (d ∷ s) = c == d && is_empty s

-- `strings.TrimRight(s, "0")`.
unfoldable pub trim_zeros : List ℕ → List ℕ
trim_zeros [] = []
trim_zeros (c ∷ s) = let rest = trim_zeros s in if c == b'0' && is_empty rest then [] else c ∷ rest

-- The digits behind the point, filled up to six.
abbrev pub parse_fraction : Bool → List ℕ → Option ℕ
parse_fraction is_one s = guard (not (is_empty s) && leb (length s) 6 && all is_digit s) (
    guard (not is_one || all (λ c. c == b'0') s)
      (some (if is_one then 1_000_000 else value (s ++ zeros (6 - length s)) 0)))

unfoldable pub parse_score_ppm : Unicode → List ℕ → Option ℕ
unfolding count before after
parse_score_ppm u s = guard (not (is_empty s) && is_trimmed u s && not (is_sign s)) (
    guard (leb (count b'.' s) 1 && (is_just b'0' (before b'.' s) || is_just b'1' (before b'.' s))) (
      if count b'.' s == 0
      then some (if is_just b'0' s then 0 else 1_000_000)
      else parse_fraction (is_just b'1' (before b'.' s)) (after b'.' s)))

unfoldable pub format_score_ppm : ℤ → List ℕ
unfolding trim_zeros padded
format_score_ppm (negsuc n) = codes "invalid"
format_score_ppm (pos n) =
    if ltb 1_000_000 n
    then codes "invalid"
    else if n == 0
    then b'0' ∷ []
    else if n == 1_000_000
    then b'1' ∷ []
    else b'0' ∷ b'.' ∷ trim_zeros (padded 6 n)
