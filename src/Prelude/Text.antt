-- ===== src/Prelude/Text.antt =====
-- Texts: Go strings that hold valid UTF-8. They are compared as wholes, and `codes` gives their
-- runes.
use Prim.Native.Nat.{ℕ}
use Prim.Native.Char.{code}
use Prim.Native.String.{String, compare}
use mathlib.Core.Bool.{Bool}
use mathlib.Core.List.{List, [], ◌∷◌}
use text.Mathlib.Text.{is_lt}

-- `[]rune(s)`.
abbrev pub codes : String → List ℕ
codes String.[] = []
codes (String.◌∷◌ c s) = code c ∷ codes s

-- `s < t`: the order by bytes is the order by code points.
abbrev pub str_lt : String → String → Bool
str_lt s t = is_lt (compare s t)
