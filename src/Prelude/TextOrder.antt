-- ===== src/Prelude/TextOrder.antt =====
-- Laws of the order of texts.
use Prim.Native.Nat.{ℕ, Ordering, compare as compare_ℕ}
use Prim.Native.Char.{Char, code}
use Prim.Native.String.compare
use Prim.Native.String.{String, [], ◌∷◌, then}
use mathlib.Core.Path.{◌≡◌, refl, sym, ap, ◌∙◌}
use mathlib.Core.Bool.{Bool, true, false, ◌&&◌, ◌||◌}
use native.Mathlib.Omega.{arith}
use text.Mathlib.Text.{is_lt}
use text.Mathlib.TextEquality.{codes_equal}
use burnban.Prelude.Tests.{ltb, ◌==◌}
use burnban.Prelude.Text.{str_lt}

is_lt-then :
    (m n : ℕ) (o : Ordering) → is_lt (then (compare_ℕ m n) o) ≡ (ltb m n || (m == n) && is_lt o)
is_lt-then m n o = ground arith

lt_cons :
    (c d : Char) (s t : String)
    → str_lt (c ∷ s) (d ∷ t) ≡ (ltb (code c) (code d) || (code c == code d) && str_lt s t)
lt_cons c d s t = ap is_lt (compare.cons-cons c d s t) ∙ is_lt-then (code c) (code d) _

lt_nil : (s : String) → str_lt s [] ≡ false
lt_nil [] = ap is_lt compare.nil-nil
lt_nil (c ∷ s) = ap is_lt (compare.cons-nil c s)

nil_lt : (c : Char) (s : String) → str_lt [] (c ∷ s) ≡ true
nil_lt c s = ap is_lt (compare.nil-cons c s)

pub str_lt_trans : (s t r : String) → str_lt s t ≡ true → str_lt t r ≡ true → str_lt s r ≡ true
str_lt_trans s t [] h k = cc (lt_nil t)
str_lt_trans s [] (e ∷ r) h k = cc (lt_nil s)
str_lt_trans [] (d ∷ t) (e ∷ r) h k = nil_lt e r
str_lt_trans (c ∷ s) (d ∷ t) (e ∷ r) h k =
    ground (arith, lt_cons c d s t, lt_cons d e t r, lt_cons c e s r, str_lt_trans s t r)

pub str_lt_asym : (s t : String) → str_lt s t ≡ true → str_lt t s ≡ false
str_lt_asym s [] h = cc (lt_nil s)
str_lt_asym [] (d ∷ t) h = lt_nil (d ∷ t)
str_lt_asym (c ∷ s) (d ∷ t) h = ground (arith, lt_cons c d s t, lt_cons d c t s, str_lt_asym s t)

-- Neither of two numbers with tails is before the other only where the numbers are equal.
both_same :
    (m n : ℕ) (p q : Bool)
    → (ltb m n || (m == n) && p) ≡ false
    → (ltb n m || (n == m) && q) ≡ false
    → (compare_ℕ m n ≡ Ordering.eq) × (p ≡ false) × (q ≡ false)
both_same m n p q h k = ground arith

pub str_lt_total : (s t : String) → str_lt s t ≡ false → str_lt t s ≡ false → s ≡ t
str_lt_total [] [] h k = refl
str_lt_total [] (d ∷ t) h k = cc (nil_lt d t)
str_lt_total (c ∷ s) [] h k = cc (nil_lt c s)
str_lt_total (c ∷ s) (d ∷ t) h k =
    let (e, p, q) =
      both_same (code c) (code d) (str_lt s t) (str_lt t s) (sym (lt_cons c d s t) ∙ h)
        (sym (lt_cons d c t s) ∙ k) in
    λ i. codes_equal c d e i ∷ str_lt_total s t p q i
