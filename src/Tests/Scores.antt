-- ===== src/Tests/Scores.antt =====
-- Scores and fixed-point products at concrete values.
use burnban.Prelude.{◌*◌, ◌≤◌, ◌<◌, ◌≡◌, ◌⊎◌, ℕ, refl, some, none, arith}
use burnban.Prelude.Int.{pos, max_int64}
use burnban.Optimize.FixedPoint.{IsCeil, multiply_divide_ceil, round_up, multiply_divide_ceil_exact}
use burnban.Optimize.Score.{parse_score_ppm, format_score_ppm}
use burnban.Optimize.Score.RoundTrip.{parse_score_ppm-format_score_ppm}
use burnban.Reconcile.Money.Reads.{IsPlain}
use burnban.Tests.Data.{ascii}

plain : IsPlain ascii
plain c h k = ground arith

parse_score_ppm-format_score_ppm_example :
    parse_score_ppm ascii (format_score_ppm (pos 907_500)) ≡ some 907_500
parse_score_ppm-format_score_ppm_example =
    parse_score_ppm-format_score_ppm ascii 907_500 plain (omega arith)

multiply_divide_ceil_exact_example :
    ((q : ℕ) × (multiply_divide_ceil (pos 10) 1_000 3 ≡ some q)
      × IsCeil (10 * 1_000) 3 q
      × (q ≤ max_int64))
    ⊎ ((multiply_divide_ceil (pos 10) 1_000 3 ≡ none) × (max_int64 * 3 < 10 * 1_000))
multiply_divide_ceil_exact_example = multiply_divide_ceil_exact 10 1_000 3 (omega arith)

third : multiply_divide_ceil (pos 10) 1_000 3 ≡ some 3_334
unfolding multiply_divide_ceil
third = refl

next_cent : round_up (pos 12_345) (pos 10_000) ≡ some 20_000
unfolding round_up
next_cent = refl
