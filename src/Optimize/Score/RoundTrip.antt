-- ===== src/Optimize/Score/RoundTrip.antt =====
-- internal/optimize/quality.go: `parse_score_ppm` on the prints of `format_score_ppm`.
use burnban.Prelude.{
  ℕ, zero, suc, ◌-◌, ◌≤◌, ◌<◌, ◌≡◌, refl, ap, sym, ◌∙◌, subst, true, false, ◌&&◌, some, List, [],
  ◌∷◌, ◌++◌, ◌==◌, if◌then◌else◌, is_empty, all, ==_iff, le→leb, length, Unicode, last_of,
  Bool-cases, inl, inr, arith,
}
use burnban.Prelude.Int.{pos}
use burnban.Prelude.Decimal.{
  is_digit, value, zeros, padded, value-padded, value_more, all_digits-padded, length-padded,
}
use burnban.Reconcile.Money.{count, before, after}
use burnban.Reconcile.Money.Reads.{IsPlain}
use burnban.Optimize.Score.{trim_zeros, parse_score_ppm, format_score_ppm}

-- `s` is `t` with zeros behind it.
record Trimmed (s t : List ℕ) : Type 0 where
  refilled : t ++ zeros (length s - length t) ≡ s
  shorter : length t ≤ length s

minus_zero : (n : ℕ) → n - 0 ≡ n
minus_zero n = omega arith

suc_minus : (n m : ℕ) → suc n - suc m ≡ n - m
suc_minus n m = omega arith

zeros-Trimmed : (s : List ℕ) → Trimmed s [] → Trimmed (b'0' ∷ s) []
unfolding zeros
zeros-Trimmed s r = record {
  refilled =
      rw minus_zero (ap (λ x. b'0' ∷ x) (ap zeros (sym (minus_zero (length s))) ∙ r.refilled));
  shorter = omega arith;
}

cons-Trimmed : (c : ℕ) (s t : List ℕ) → Trimmed s t → Trimmed (c ∷ s) (c ∷ t)
cons-Trimmed c s t r = record {
  refilled = rw suc_minus (ap (λ x. c ∷ x) r.refilled);
  shorter = omega (arith, r.shorter);
}

if-Trimmed :
    (c : ℕ) (s t : List ℕ)
    → Trimmed s t
    → Trimmed (c ∷ s) (if c == b'0' && is_empty t then [] else c ∷ t)
if-Trimmed c s [] r = elim (Bool-cases (c == b'0')) [
  | inl e ↦ rw (e, (==_iff c b'0').0 e) (zeros-Trimmed s r)
  | inr e ↦ rw e (cons-Trimmed c s [] r)
]
if-Trimmed c s (x ∷ t) r = elim (Bool-cases (c == b'0')) [
  | inl e ↦ rw e (cons-Trimmed c s (x ∷ t) r)
  | inr e ↦ rw e (cons-Trimmed c s (x ∷ t) r)
]

-- What `trim_zeros` takes away is zeros at the end.
trim_zeros-Trimmed : (s : List ℕ) → Trimmed s (trim_zeros s)
unfolding trim_zeros zeros
trim_zeros-Trimmed [] = record { refilled = refl; shorter = omega arith }
trim_zeros-Trimmed (c ∷ s) = if-Trimmed c s (trim_zeros s) (trim_zeros-Trimmed s)

all_digits-trim_zeros : (s : List ℕ) → all is_digit s ≡ true → all is_digit (trim_zeros s) ≡ true
unfolding trim_zeros
all_digits-trim_zeros [] h = refl
all_digits-trim_zeros (c ∷ s) h = ground (arith, all_digits-trim_zeros s)

count_digits : (s : List ℕ) → all is_digit s ≡ true → count b'.' s ≡ 0
unfolding count
count_digits [] h = refl
count_digits (c ∷ s) h = ground (arith, count_digits s)

last_digit :
    (u : Unicode) (c : ℕ) (s : List ℕ)
    → IsPlain u
    → all is_digit s ≡ true
    → 33 ≤ c
    → c ≤ 126
    → u.is_space (last_of c s) ≡ false
last_digit u c [] p h lo hi = p c lo hi
last_digit u c (d ∷ s) p h lo hi = last_digit u d s p (ground arith) (ground arith) (ground arith)

-- `0.` and one to six digits are read as the digits, filled up to six.
read_fraction :
    (u : Unicode) (s : List ℕ)
    → IsPlain u
    → all is_digit s ≡ true
    → is_empty s ≡ false
    → length s ≤ 6
    → parse_score_ppm u (b'0' ∷ b'.' ∷ s) ≡ some (value (s ++ zeros (6 - length s)) 0)
unfolding parse_score_ppm count before after
read_fraction u s p h filled short =
    rw
      (
        p b'0' (omega arith) (omega arith),
        last_digit u b'.' s p h (omega arith) (omega arith),
        count_digits s h,
        h,
        filled,
        le→leb _ _ short,
      )
      refl

-- The digits of a fraction without the zeros at their end, filled up again.
refilled_value :
    (n : ℕ)
    → n < 1_000_000
    → let s = trim_zeros (padded 6 n) in (value (s ++ zeros (6 - length s)) 0 ≡ n) × (length s ≤ 6)
refilled_value n h =
    let six = length-padded 5 n (omega arith) in
    let t = trim_zeros-Trimmed (padded 6 n) in
    (
      subst
          (λ m.
            value (trim_zeros (padded 6 n) ++ zeros (m - length (trim_zeros (padded 6 n)))) 0 ≡ n)
          six (ap (λ x. value x 0) t.refilled ∙ value-padded 6 n (omega arith)),
      subst (λ m. length (trim_zeros (padded 6 n)) ≤ m) six t.shorter,
    )

zero_value : (k n : ℕ) → 0 < n → ¬ (value ([] ++ zeros k) 0 ≡ n)
unfolding value
zero_value k n h e = omega (arith, value_more k 0 [])

not_all_zeros : (s : List ℕ) (n k : ℕ) → 0 < n → value (s ++ zeros k) 0 ≡ n → is_empty s ≡ false
not_all_zeros [] n k h e = absurd (zero_value k n h e)
not_all_zeros (c ∷ s) n k h e = refl

format_fraction :
    (n : ℕ)
    → 0 < n
    → n < 1_000_000
    → format_score_ppm (pos n) ≡ b'0' ∷ b'.' ∷ trim_zeros (padded 6 n)
unfolding format_score_ppm
format_fraction n h k = ground arith

whole_scores :
    (u : Unicode)
    → IsPlain u
    → (parse_score_ppm u (format_score_ppm (pos 0)) ≡ some 0)
      × (parse_score_ppm u (format_score_ppm (pos 1_000_000)) ≡ some 1_000_000)
unfolding parse_score_ppm format_score_ppm count before after
whole_scores u p =
    (rw (p b'0' (omega arith) (omega arith)) refl, rw (p b'1' (omega arith) (omega arith)) refl)

-- Every score from 0 to 1, in millionths, is read back from its print, where no printable ASCII rune
-- is a space.
pub parse_score_ppm-format_score_ppm :
    (u : Unicode) (n : ℕ)
    → IsPlain u
    → n ≤ 1_000_000
    → parse_score_ppm u (format_score_ppm (pos n)) ≡ some n
parse_score_ppm-format_score_ppm u zero p h = (whole_scores u p).0
parse_score_ppm-format_score_ppm u (suc m) p h = elim (Bool-cases (suc m == 1_000_000)) [
  | inl e ↦
      subst (λ k. parse_score_ppm u (format_score_ppm (pos k)) ≡ some k)
        (sym ((==_iff (suc m) 1_000_000).0 e)) (whole_scores u p).1
  | inr e ↦
      let below : suc m < 1_000_000 = ground arith in
      let s = trim_zeros (padded 6 (suc m)) in
      let (same, short) = refilled_value (suc m) below in
      let digits = all_digits-trim_zeros (padded 6 (suc m)) (all_digits-padded 6 (suc m)) in
      let filled = not_all_zeros s (suc m) (6 - length s) (omega arith) same in
      rw (format_fraction (suc m) (omega arith) below)
        (read_fraction u s p digits filled short ∙ ap some same)
]
