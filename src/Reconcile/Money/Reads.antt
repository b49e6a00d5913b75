-- ===== src/Reconcile/Money/Reads.antt =====
-- What `parse_money_micros` reads: its own print, and the amounts of the texts that it accepts.
use burnban.Prelude.{
  ℕ, zero, suc, ◌+◌, ◌*◌, ◌/◌, ◌%◌, ◌≤◌, ◌<◌, ◌≡◌, refl, Bool, true, false, ◌&&◌, some, List, [],
  ◌∷◌, ◌++◌, leb, is_empty, all, length, Unicode, is_trimmed, last_of, and_true, subst, arith,
}
use burnban.Prelude.Int.{ℤ, pos, negsuc, ◌-ℤ◌, sub64, wrap64, max_int64, pos_part, neg_part}
use burnban.Prelude.Decimal.{
  is_digit, value, decimal, padded, value-decimal, all_digits-decimal, length-decimal_pos,
  length-padded, value_more, value-padded, all_digits-padded,
}
use burnban.Reconcile.Money.{
  max_money_micros, count, before, after, parse_int64, split_sign, combine, fraction,
  parse_unsigned, with_sign, parse_money_micros, quotient, remainder, print_int, print_padded,
  print_amount, format_money_micros,
}

pub count_digits : (s t : List ℕ) → all is_digit s ≡ true → count b'.' (s ++ t) ≡ count b'.' t
unfolding count
count_digits [] t h = refl
count_digits (c ∷ s) t h = ground (arith, count_digits s t)

pub before_dot : (s t : List ℕ) → all is_digit s ≡ true → before b'.' (s ++ (b'.' ∷ t)) ≡ s
unfolding before
before_dot [] t h = refl
before_dot (c ∷ s) t h = ground (arith, before_dot s t)

pub after_dot : (s t : List ℕ) → all is_digit s ≡ true → after b'.' (s ++ (b'.' ∷ t)) ≡ t
unfolding after
after_dot [] t h = refl
after_dot (c ∷ s) t h = ground (arith, after_dot s t)

pub count_none : (s : List ℕ) → all is_digit s ≡ true → count b'.' s ≡ 0
unfolding count
count_none [] h = refl
count_none (c ∷ s) h = ground (arith, count_none s)

combine_fits :
    (whole frac : ℕ)
    → whole * 1_000_000 + frac ≤ max_money_micros
    → combine whole frac ≡ some (whole * 1_000_000 + frac)
unfolding combine
combine_fits whole frac h = ground arith

fraction_six : (t : List ℕ) → length t ≡ 6 → fraction t ≡ value t 0
fraction_six t h = rw h (omega (arith, value_more 0 0 t))

parse_int64_fits : (s : List ℕ) → value s 0 ≤ max_int64 → parse_int64 s ≡ some (value s 0)
parse_int64_fits s h = ground arith

negated : (n : ℕ) → n < max_int64 → sub64 (pos 0) (negsuc n) ≡ pos (suc n)
unfolding sub64 wrap64 ◌-ℤ◌
negated n h = ground arith

-- Digits, a point and six digits are read as the number of millionths.
parse_six :
    (c : ℕ) (s t : List ℕ)
    → all is_digit (c ∷ s) ≡ true
    → all is_digit t ≡ true
    → length t ≡ 6
    → value (c ∷ s) 0 * 1_000_000 + value t 0 ≤ max_money_micros
    → parse_unsigned (c ∷ s ++ (b'.' ∷ t)) ≡ some (value (c ∷ s) 0 * 1_000_000 + value t 0)
unfolding parse_unsigned count
parse_six c s t hs ht lt fits =
    rw
      (
        count_digits (c ∷ s) (b'.' ∷ t) hs,
        before_dot (c ∷ s) t hs,
        after_dot (c ∷ s) t hs,
        hs,
        ht,
        count_none t ht,
        fraction_six t lt,
        lt,
        parse_int64_fits (c ∷ s) (omega arith),
      )
      (combine_fits _ _ fits)

-- No printable ASCII rune is a space.
abbrev pub IsPlain : Unicode → Type 0
IsPlain u = (c : ℕ) → 33 ≤ c → c ≤ 126 → u.is_space c ≡ false

is_printable : ℕ → Bool
is_printable c = leb 33 c && leb c 126

last_visible :
    (u : Unicode) (c : ℕ) (s : List ℕ)
    → IsPlain u
    → all is_printable (c ∷ s) ≡ true
    → u.is_space (last_of c s) ≡ false
unfolding is_printable
last_visible u c [] p h = ground (arith, p c)
last_visible u c (d ∷ s) p h = last_visible u d s p (ground arith)

printable_trimmed :
    (u : Unicode) (s : List ℕ) → IsPlain u → all is_printable s ≡ true → is_trimmed u s ≡ true
unfolding is_printable
printable_trimmed u [] p h = refl
printable_trimmed u (c ∷ s) p h = ground (arith, p c, last_visible u c s p h)

printable_digits :
    (s t : List ℕ)
    → all is_digit s ≡ true
    → all is_printable t ≡ true
    → all is_printable (s ++ t) ≡ true
unfolding is_printable
printable_digits [] t h k = k
printable_digits (c ∷ s) t h k = ground (arith, printable_digits s t)

digits_printable : (s : List ℕ) → all is_digit s ≡ true → all is_printable s ≡ true
unfolding is_printable
digits_printable [] h = refl
digits_printable (c ∷ s) h = ground (arith, digits_printable s)

printable_amount :
    (s t : List ℕ)
    → all is_digit s ≡ true
    → all is_digit t ≡ true
    → all is_printable (s ++ (b'.' ∷ t)) ≡ true
unfolding is_printable
printable_amount s t hs ht = printable_digits s (b'.' ∷ t) hs (digits_printable t ht)

pub split_sign-digit :
    (c : ℕ) (s : List ℕ) → is_digit c ≡ true → split_sign (c ∷ s) ≡ some (false, c ∷ s)
unfolding split_sign
split_sign-digit c s h = ground arith

read_signed :
    (u : Unicode) (s rest : List ℕ) (negative : Bool) (n : ℕ)
    → is_empty s ≡ false
    → is_trimmed u s ≡ true
    → split_sign s ≡ some (negative, rest)
    → parse_unsigned rest ≡ some n
    → parse_money_micros u s ≡ some (with_sign negative n)
unfolding parse_money_micros
read_signed u s rest negative n e t h k = rw (e, t, h, k) refl

read_amount :
    (u : Unicode) (s t : List ℕ)
    → IsPlain u
    → all is_digit s ≡ true
    → all is_digit t ≡ true
    → 0 < length s
    → length t ≡ 6
    → value s 0 * 1_000_000 + value t 0 ≤ max_money_micros
    → (parse_money_micros u (s ++ (b'.' ∷ t))
        ≡ some (with_sign false (value s 0 * 1_000_000 + value t 0)))
      × (parse_money_micros u (b'-' ∷ s ++ (b'.' ∷ t))
          ≡ some (with_sign true (value s 0 * 1_000_000 + value t 0)))
unfolding split_sign is_printable
read_amount u [] t p hs ht ps lt fits = absurd (omega arith)
read_amount u (c ∷ s) t p hs ht ps lt fits =
    let plain = printable_amount (c ∷ s) t hs ht in
    let body = parse_six c s t hs ht lt fits in
    let sign = split_sign-digit c (s ++ (b'.' ∷ t)) (and_true _ _ hs).0 in
    (
      read_signed u (c ∷ s ++ (b'.' ∷ t)) _ false _ refl
          (printable_trimmed u (c ∷ s ++ (b'.' ∷ t)) p plain) sign body,
      read_signed u (b'-' ∷ c ∷ s ++ (b'.' ∷ t)) _ true _ refl
          (printable_trimmed u (b'-' ∷ c ∷ s ++ (b'.' ∷ t)) p plain) refl body,
    )

-- What `print_amount` writes for an amount that is not negative is read back, also behind a sign.
read_print :
    (u : Unicode) (n : ℕ)
    → IsPlain u
    → n ≤ max_money_micros
    → (parse_money_micros u (print_amount (pos n)) ≡ some (with_sign false n))
      × (parse_money_micros u (b'-' ∷ print_amount (pos n)) ≡ some (with_sign true n))
unfolding print_amount quotient remainder print_int print_padded
read_print u n p h =
    let low = n % 1_000_000 in
    let high = n / 1_000_000 in
    let whole = value-decimal high (omega arith) in
    let frac = value-padded 6 low (omega arith) in
    let split : high * 1_000_000 + low ≡ n = omega arith in
    let sum : value (decimal high) 0 * 1_000_000 + value (padded 6 low) 0 ≡ n =
      rw (whole, frac) split in
    subst
      (λ m.
        (parse_money_micros u (print_amount (pos n)) ≡ some (with_sign false m))
        × (parse_money_micros u (b'-' ∷ print_amount (pos n)) ≡ some (with_sign true m)))
      sum
      (read_amount u (decimal high) (padded 6 low) p (all_digits-decimal high)
        (all_digits-padded 6 low) (length-decimal_pos high) (length-padded 5 low (omega arith))
        (rw sum h))

format_pos : (n : ℕ) → format_money_micros (pos n) ≡ print_amount (pos n)
unfolding format_money_micros
format_pos n = ground arith

format_neg :
    (n : ℕ) → n < max_int64 → format_money_micros (negsuc n) ≡ b'-' ∷ print_amount (pos (suc n))
unfolding format_money_micros
format_neg n h = rw (negated n h) ground arith

-- An amount within a billion dollars, of either sign, is read back from its print, where no
-- printable ASCII rune is a space.
pub parse_money_micros-format_money_micros :
    (u : Unicode) (v : ℤ)
    → IsPlain u
    → pos_part v ≤ max_money_micros
    → neg_part v ≤ max_money_micros
    → parse_money_micros u (format_money_micros v) ≡ some v
unfolding with_sign
parse_money_micros-format_money_micros u (pos zero) p h k = rw (format_pos 0) (read_print u 0 p h).0
parse_money_micros-format_money_micros u (pos (suc n)) p h k =
    rw (format_pos (suc n)) (read_print u (suc n) p h).0
parse_money_micros-format_money_micros u (negsuc n) p h k =
    rw (format_neg n (omega arith)) (read_print u (suc n) p k).1
