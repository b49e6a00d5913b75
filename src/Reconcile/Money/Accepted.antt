-- ===== src/Reconcile/Money/Accepted.antt =====
-- What an accepted amount is, and the sums of amounts.
use burnban.Prelude.{
  ℕ, ◌+◌, ◌*◌, ◌≤◌, ◌≡◌, ◌⊎◌, refl, ◌∙◌, Bool, true, false, none, some, List, [], ◌∷◌, is_empty,
  all, length, guard-some, chain-some, and_true, some_inj, not-true, leb→le, le→leb, subst, ap, sym,
  ◌↔◌, Unicode, is_trimmed, arith,
}
use burnban.Prelude.Int.{ℤ, pos, negsuc, ◌+ℤ◌, ◌-ℤ◌, IsInt64, add64, sub64, wrap64, max_int64}
use burnban.Prelude.Decimal.{is_digit, value}
use burnban.Reconcile.Money.{
  max_money_micros, count, before, after, parse_int64, split_sign, combine, fraction,
  parse_unsigned, with_sign, parse_money_micros, checked_add,
}

-- `s` is digits with at most six more behind a point, and `n` is its value in millionths.
pub record IsAmount (s : List ℕ) (n : ℕ) : Type 0 where
  pub one_point : count b'.' s ≤ 1
  pub has_whole : is_empty (before b'.' s) ≡ false
  pub digits_whole : all is_digit (before b'.' s) ≡ true
  pub digits_fraction : all is_digit (after b'.' s) ≡ true
  pub six : length (after b'.' s) ≤ 6
  pub amount : n ≡ value (before b'.' s) 0 * 1_000_000 + fraction (after b'.' s)
  pub in_range : n ≤ max_money_micros

combine-some :
    (whole frac n : ℕ)
    → combine whole frac ≡ some n
    → (n ≡ whole * 1_000_000 + frac) × (n ≤ max_money_micros)
unfolding combine
combine-some whole frac n h = ground arith

combine_fits :
    (whole frac : ℕ)
    → whole * 1_000_000 + frac ≤ max_money_micros
    → combine whole frac ≡ some (whole * 1_000_000 + frac)
unfolding combine
combine_fits whole frac h = ground arith

parse_int64-some : (s : List ℕ) (n : ℕ) → parse_int64 s ≡ some n → n ≡ value s 0
parse_int64-some s n h = ground arith

parse_int64_fits : (s : List ℕ) → value s 0 ≤ max_int64 → parse_int64 s ≡ some (value s 0)
parse_int64_fits s h = ground arith

parse_unsigned-IsAmount : (s : List ℕ) (n : ℕ) → parse_unsigned s ≡ some n → IsAmount s n
unfolding parse_unsigned
parse_unsigned-IsAmount s n h =
    let (a, h1) = guard-some _ _ _ h in
    let (b, h2) = guard-some _ _ _ h1 in
    let (c, h3) = guard-some _ _ _ h2 in
    let (d, h4) = guard-some _ _ _ h3 in
    let (whole, e, h5) = chain-some _ _ _ h4 in
    let (sum, fits) = combine-some whole (fraction (after b'.' s)) n h5 in
    let (digits, more) = and_true _ _ c in
    record {
      one_point = leb→le _ _ (and_true _ _ a).1;
      has_whole = not-true _ b;
      digits_whole = digits;
      digits_fraction = more;
      six = leb→le _ _ d;
      amount = rw (← parse_int64-some (before b'.' s) whole e) sum;
      in_range = fits;
    }

before_nil : (s : List ℕ) → is_empty (before b'.' s) ≡ false → is_empty s ≡ false
unfolding before
before_nil [] h = h
before_nil (c ∷ s) h = refl

IsAmount-parse_unsigned : (s : List ℕ) (n : ℕ) → IsAmount s n → parse_unsigned s ≡ some n
unfolding parse_unsigned
IsAmount-parse_unsigned s n r =
    let fits = subst (λ m. m ≤ max_money_micros) r.amount r.in_range in
    rw
      (
        before_nil s r.has_whole,
        le→leb _ _ r.one_point,
        r.has_whole,
        r.digits_whole,
        r.digits_fraction,
        le→leb _ _ r.six,
        parse_int64_fits (before b'.' s) (omega arith),
      )
      (combine_fits _ _ fits ∙ ap some (sym r.amount))

-- A trimmed text that is, after at most one minus sign, an amount of at most a billion dollars.
pub record IsMoney (u : Unicode) (s : List ℕ) (v : ℤ) : Type 0 where
  pub negative : Bool
  pub rest : List ℕ
  pub magnitude : ℕ
  pub no_space : is_trimmed u s ≡ true
  pub sign : split_sign s ≡ some (negative, rest)
  pub reads : IsAmount rest magnitude
  pub is_value : v ≡ with_sign negative magnitude

split_sign_filled : (s : List ℕ) (p : Bool × List ℕ) → split_sign s ≡ some p → is_empty s ≡ false
unfolding split_sign
split_sign_filled [] p h = cc
split_sign_filled (c ∷ s) p h = refl

IsMoney-parse : (u : Unicode) (s : List ℕ) (v : ℤ) → IsMoney u s v → parse_money_micros u s ≡ some v
unfolding parse_money_micros
IsMoney-parse u s v r =
    rw
      (
        split_sign_filled s _ r.sign,
        r.no_space,
        r.sign,
        IsAmount-parse_unsigned r.rest r.magnitude r.reads,
      )
      (ap some (sym r.is_value))

-- What an accepted text is to the helpers of the parser.
pub parse_money_micros-IsMoney :
    (u : Unicode) (s : List ℕ) (v : ℤ) → (parse_money_micros u s ≡ some v) ↔ IsMoney u s v
unfolding parse_money_micros
parse_money_micros-IsMoney u s v = (
  λ h.
      let (a, h1) = guard-some _ _ _ h in
      let (p, b, h2) = chain-some _ _ _ h1 in
      let (n, c, d) = chain-some _ _ _ h2 in
      record {
        negative = p.0;
        rest = p.1;
        magnitude = n;
        no_space = (and_true _ _ a).1;
        sign = b;
        reads = parse_unsigned-IsAmount p.1 n c;
        is_value = sym (some_inj d);
      },
  IsMoney-parse u s v,
)

-- A sum is refused exactly where it is no int64, and is exact otherwise.
pub checked_add_exact :
    (a b : ℤ)
    → IsInt64 a
    → IsInt64 b
    → ((checked_add a b ≡ some (a +ℤ b)) × IsInt64 (a +ℤ b))
      ⊎ ((checked_add a b ≡ none) × ¬ IsInt64 (a +ℤ b))
unfolding checked_add add64 sub64 wrap64 ◌+ℤ◌ ◌-ℤ◌
checked_add_exact (pos a) (pos b) h k = ground arith
checked_add_exact (pos a) (negsuc b) h k = ground arith
checked_add_exact (negsuc a) (pos b) h k = ground arith
checked_add_exact (negsuc a) (negsuc b) h k = ground arith
