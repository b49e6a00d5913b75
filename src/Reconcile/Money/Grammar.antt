-- ===== src/Reconcile/Money/Grammar.antt =====
-- internal/reconcile/invoice.go, `ParseMoneyMicros`: the texts of amounts and what they stand for.
use burnban.Prelude.{
  ℕ, zero, suc, ◌+◌, ◌-◌, ◌*◌, ◌≤◌, ◌≡◌, ◌≢◌, ◌⊎◌, inl, inr, refl, ◌∙◌, Bool, true, false, some,
  List, [], ◌∷◌, ◌++◌, is_empty, ◌==◌, ==_iff, all, All, length, and_true, Bool-cases, subst, ap,
  sym, ◌↔◌, some_inj, Unicode, is_trimmed, arith,
}
use burnban.Prelude.Int.{ℤ, pos, negsuc}
use burnban.Prelude.Decimal.{is_digit, value, pow10, value_more}
use burnban.Reconcile.Money.{
  count, before, after, split_sign, fraction, with_sign, parse_money_micros,
}
use burnban.Reconcile.Money.Accepted.{IsAmount, IsMoney, parse_money_micros-IsMoney}
use burnban.Reconcile.Money.Reads.{
  count_digits, before_dot, after_dot, count_none, split_sign-digit,
}

abbrev pub IsDigit : ℕ → Type 0
IsDigit c = (48 ≤ c) × (c ≤ 57)

-- The number that the digits stand for: each counts its power of ten.
abbrev pub number : List ℕ → ℕ
number [] = 0
number (c ∷ s) = (c - 48) * pow10 (length s) + number s

abbrev pub opposite : ℕ → ℤ
opposite zero = pos 0
opposite (suc n) = negsuc n

-- One digit or more, and then nothing, or a point and at most six digits: an amount of millionths, which
-- is at most a billion dollars.
pub record IsDecimal (s : List ℕ) (n : ℕ) : Type 0 where
  pub whole : List ℕ
  pub decimals : List ℕ
  pub text : ((s ≡ whole) × (decimals ≡ [])) ⊎ (s ≡ whole ++ (b'.' ∷ decimals))
  pub has_whole : whole ≢ []
  pub digits : All IsDigit whole
  pub digits_after : All IsDigit decimals
  pub six : length decimals ≤ 6
  pub amount : n ≡ number whole * 1_000_000 + number decimals * pow10 (6 - length decimals)
  pub in_range : n ≤ 1_000_000_000 * 1_000_000

-- Such a text, or one behind a minus sign, without spaces at its ends.
pub record IsSigned (u : Unicode) (s : List ℕ) (v : ℤ) : Type 0 where
  pub rest : List ℕ
  pub magnitude : ℕ
  pub no_space : is_trimmed u s ≡ true
  pub reads : IsDecimal rest magnitude
  pub sign : ((s ≡ rest) × (v ≡ pos magnitude)) ⊎ ((s ≡ b'-' ∷ rest) × (v ≡ opposite magnitude))

digits-All : (s : List ℕ) → all is_digit s ≡ true → All IsDigit s
digits-All [] h = tt
digits-All (c ∷ s) h = ((ground arith, ground arith), digits-All s (and_true (is_digit c) _ h).1)

All-digits : (s : List ℕ) → All IsDigit s → all is_digit s ≡ true
All-digits [] h = refl
All-digits (c ∷ s) h = ground (arith, h.0, All-digits s h.1)

value_from : (s : List ℕ) (n : ℕ) → value s n ≡ n * pow10 (length s) + number s
unfolding value
value_from [] n = omega arith
value_from (c ∷ s) n = grind (arith, value_from s (n * 10 + (c - 48)))

value_number : (s : List ℕ) → value s 0 ≡ number s
value_number s = omega (arith, value_from s 0)

fraction-number : (s : List ℕ) → fraction s ≡ number s * pow10 (6 - length s)
fraction-number s =
    value_more (6 - length s) 0 s ∙ ap (λ n. n * pow10 (6 - length s)) (value_number s)

-- A text is what stands before its first point and, if it has one, what stands after.
parts :
    (s : List ℕ)
    → ((s ≡ before b'.' s) × (after b'.' s ≡ [])) ⊎ (s ≡ before b'.' s ++ (b'.' ∷ after b'.' s))
unfolding before after
parts [] = inl (refl, refl)
parts (c ∷ s) = elim (Bool-cases (c == b'.')) [
  | inl t ↦ inr (rw (before, after, t) (ap (λ x. x ∷ s) ((==_iff c b'.').0 t)))
  | inr f ↦ elim (parts s) [
    | inl (x, y) ↦ inl (rw (before, after, f) (ap (λ t. c ∷ t) x, y))
    | inr x ↦ inr (rw (before, after, f) (ap (λ t. c ∷ t) x))
  ]
]

IsAmount-IsDecimal : (s : List ℕ) (n : ℕ) → IsAmount s n → IsDecimal s n
IsAmount-IsDecimal s n r = record {
  whole = before b'.' s;
  decimals = after b'.' s;
  text = parts s;
  has_whole = λ e. cc (r.has_whole, ap (is_empty) e);
  digits = digits-All _ r.digits_whole;
  digits_after = digits-All _ r.digits_fraction;
  six = r.six;
  amount =
      r.amount
      ∙ ap (λ m. m * 1_000_000 + fraction (after b'.' s)) (value_number (before b'.' s))
      ∙ ap (λ m. number (before b'.' s) * 1_000_000 + m) (fraction-number (after b'.' s));
  in_range = r.in_range;
}

before_all : (s : List ℕ) → all is_digit s ≡ true → before b'.' s ≡ s
unfolding before
before_all [] h = refl
before_all (c ∷ s) h = ground (arith, before_all s)

after_all : (s : List ℕ) → all is_digit s ≡ true → after b'.' s ≡ []
unfolding after
after_all [] h = refl
after_all (c ∷ s) h = ground (arith, after_all s)

filled : (s : List ℕ) → s ≢ [] → is_empty s ≡ false
filled [] h = absurd (h refl)
filled (c ∷ s) h = refl

-- What the three helpers of the parser make of the text of a decimal.
split :
    (s whole decimals : List ℕ)
    → ((s ≡ whole) × (decimals ≡ [])) ⊎ (s ≡ whole ++ (b'.' ∷ decimals))
    → all is_digit whole ≡ true
    → all is_digit decimals ≡ true
    → (before b'.' s ≡ whole) × (after b'.' s ≡ decimals) × (count b'.' s ≤ 1)
unfolding count
split s whole decimals (inl (x, y)) h k =
    rw x (before_all whole h, after_all whole h ∙ sym y, omega (arith, count_none whole h))
split s whole decimals (inr x) h k = rw x (
  before_dot whole decimals h,
  after_dot whole decimals h,
  subst (λ m. m ≤ 1) (sym (count_digits whole (b'.' ∷ decimals) h))
      (omega (arith, count_none decimals k)),
)

IsDecimal-IsAmount : (s : List ℕ) (n : ℕ) → IsDecimal s n → IsAmount s n
IsDecimal-IsAmount s n r =
    let h = All-digits r.whole r.digits in
    let k = All-digits r.decimals r.digits_after in
    let (b, a, one) = split s r.whole r.decimals r.text h k in
    record {
      one_point = one;
      has_whole = rw b (filled r.whole r.has_whole);
      digits_whole = rw b h;
      digits_fraction = rw a k;
      six = rw a r.six;
      amount =
          r.amount
          ∙ ap (λ m. number r.whole * 1_000_000 + m) (sym (fraction-number r.decimals))
          ∙ ap (λ m. m * 1_000_000 + fraction r.decimals) (sym (value_number r.whole))
          ∙ ap (λ t. value t 0 * 1_000_000 + fraction r.decimals) (sym b)
          ∙ ap (λ t. value (before b'.' s) 0 * 1_000_000 + fraction t) (sym a);
      in_range = r.in_range;
    }

split_sign-parts :
    (s rest : List ℕ) (negative : Bool)
    → split_sign s ≡ some (negative, rest)
    → ((negative ≡ false) × (s ≡ rest)) ⊎ ((negative ≡ true) × (s ≡ b'-' ∷ rest))
unfolding split_sign
split_sign-parts [] rest negative h = cc
split_sign-parts (c ∷ s) rest negative h = elim (Bool-cases (c == b'-')) [
  | inl t ↦
      let e = some_inj (rw (split_sign, t) at h) in
      inr (
        sym (ap (λ (p : Bool × List ℕ). p.0) e),
        ap (λ x. x ∷ s) ((==_iff c b'-').0 t) ∙ ap (λ (p : Bool × List ℕ). b'-' ∷ p.1) e,
      )
  | inr f ↦ elim (Bool-cases (c == b'+')) [
    | inl t ↦ cc (rw (split_sign, f, t) at h)
    | inr g ↦
        let e = some_inj (rw (split_sign, f, g) at h) in
        inl (sym (ap (λ (p : Bool × List ℕ). p.0) e), ap (λ (p : Bool × List ℕ). p.1) e)
  ]
]

first_digit :
    (s whole decimals : List ℕ)
    → ((s ≡ whole) × (decimals ≡ [])) ⊎ (s ≡ whole ++ (b'.' ∷ decimals))
    → whole ≢ []
    → All IsDigit whole
    → split_sign s ≡ some (false, s)
first_digit s [] decimals t n d = absurd (n refl)
first_digit s (c ∷ whole) decimals (inl (x, y)) n d =
    rw x (split_sign-digit c whole (and_true _ _ (All-digits (c ∷ whole) d)).0)
first_digit s (c ∷ whole) decimals (inr x) n d =
    rw x
      (split_sign-digit c (whole ++ (b'.' ∷ decimals)) (and_true _ _ (All-digits (c ∷ whole) d)).0)

with_sign_pos : (n : ℕ) → with_sign false n ≡ pos n
unfolding with_sign
with_sign_pos zero = refl
with_sign_pos (suc n) = refl

with_sign-opposite : (n : ℕ) → with_sign true n ≡ opposite n
unfolding with_sign
with_sign-opposite zero = refl
with_sign-opposite (suc n) = refl

IsMoney-IsSigned : (u : Unicode) (s : List ℕ) (v : ℤ) → IsMoney u s v → IsSigned u s v
IsMoney-IsSigned u s v r = record {
  rest = r.rest;
  magnitude = r.magnitude;
  no_space = r.no_space;
  reads = IsAmount-IsDecimal r.rest r.magnitude r.reads;
  sign = elim (split_sign-parts s r.rest r.negative r.sign) [
    | inl (b, e) ↦
        inl (e, r.is_value ∙ ap (λ x. with_sign x r.magnitude) b ∙ with_sign_pos r.magnitude)
    | inr (b, e) ↦
        inr (e, r.is_value ∙ ap (λ x. with_sign x r.magnitude) b ∙ with_sign-opposite r.magnitude)
  ];
}

IsSigned-IsMoney : (u : Unicode) (s : List ℕ) (v : ℤ) → IsSigned u s v → IsMoney u s v
unfolding split_sign
IsSigned-IsMoney u s v r =
    let d = r.reads in
    let amount = IsDecimal-IsAmount r.rest r.magnitude d in
    elim r.sign [
      | inl (e, q) ↦ record {
        negative = false;
        rest = r.rest;
        magnitude = r.magnitude;
        no_space = r.no_space;
        sign = rw e (first_digit r.rest d.whole d.decimals d.text d.has_whole d.digits);
        reads = amount;
        is_value = q ∙ sym (with_sign_pos r.magnitude);
      }
      | inr (e, q) ↦ record {
        negative = true;
        rest = r.rest;
        magnitude = r.magnitude;
        no_space = r.no_space;
        sign = rw e refl;
        reads = amount;
        is_value = q ∙ sym (with_sign-opposite r.magnitude);
      }
    ]

-- The texts that are accepted are the decimals with at most six digits behind a point, alone or behind a
-- minus sign and without spaces at their ends, up to a billion dollars. Each is read as the number of
-- millionths that its digits, by their powers of ten, stand for.
pub parse_money_micros_iff :
    (u : Unicode) (s : List ℕ) (v : ℤ) → (parse_money_micros u s ≡ some v) ↔ IsSigned u s v
parse_money_micros_iff u s v = (
  λ h. IsMoney-IsSigned u s v ((parse_money_micros-IsMoney u s v).0 h),
  λ r. (parse_money_micros-IsMoney u s v).1 (IsSigned-IsMoney u s v r),
)
