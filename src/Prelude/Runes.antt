-- ===== src/Prelude/Runes.antt =====
-- The Unicode tables of Go's standard library, as a parameter, and the sizes of texts.
use burnban.Prelude.Tests.{ltb, if◌then◌else◌}
use Prim.Native.Nat.{ℕ, ◌+◌}
use mathlib.Core.Bool.{Bool, true, not, ◌&&◌}
use mathlib.Core.List.{List, [], ◌∷◌}

-- `unicode.IsSpace`; `IsControl` with Cf, Co and Cs; `IsControl` with Bidi_Control.
pub record Unicode : Type 0 where
  pub is_space : ℕ → Bool
  pub is_unsafe : ℕ → Bool
  pub is_forbidden : ℕ → Bool

-- The bytes of a rune in UTF-8.
abbrev pub rune_len : ℕ → ℕ
rune_len c = if ltb c 128 then 1 else if ltb c 2048 then 2 else if ltb c 65536 then 3 else 4

-- `len(s)`.
abbrev pub byte_len : List ℕ → ℕ
byte_len [] = 0
byte_len (c ∷ s) = rune_len c + byte_len s

abbrev pub last_of : ℕ → List ℕ → ℕ
last_of c [] = c
last_of c (d ∷ rest) = last_of d rest

-- `strings.TrimSpace(value) == value`.
abbrev pub is_trimmed : Unicode → List ℕ → Bool
is_trimmed u [] = true
is_trimmed u (c ∷ rest) = not (u.is_space c) && not (u.is_space (last_of c rest))
