-- ===== src/Pricing/Lookup.antt =====
-- internal/pricing: the lookup of a model's public price, by its exact name and then by the longest name
-- that it extends with a version.
use burnban.Prelude.{
  ℕ, String, Bool, true, false, ◌&&◌, ◌||◌, Option, none, some, List, [], ◌∷◌, ◌==◌, ltb, leb,
  codes, str_eq, byte_len, if◌then◌else◌,
}
use burnban.Pricing.Types.{Price, Models, Table, no_price}
pub mod Prefixes
pub mod Longest

-- `t.Models[key]`.
unfoldable pub find : String → Models → Option Price
find key [] = none
find key ((k, p) ∷ rest) = let later = find key rest in if str_eq key k then some p else later

-- `strings.HasPrefix(s, prefix)` and `s[len(prefix):]`: `none` where it is no prefix.
unfoldable pub after : List ℕ → List ℕ → Option (List ℕ)
after [] s = some s
after (c ∷ prefix) [] = none
after (c ∷ prefix) (d ∷ s) = let rest = after prefix s in if c == d then rest else none

-- The runes of "-.@:".
abbrev pub is_tag : ℕ → Bool
is_tag c = c == 45 || c == 46 || c == 64 || c == 58

-- A byte beyond ASCII is neither a tag nor a digit.
unfoldable pub version_suffix : List ℕ → Bool
version_suffix (c ∷ d ∷ rest) = is_tag c && (leb 48 d && leb d 57)
version_suffix _ = false

-- `strings.HasPrefix(model, key) && versionSuffix(model[len(key):])`.
unfoldable pub extends : List ℕ → List ℕ → Bool
unfolding after version_suffix
extends model key = elim (after key model) [ none ↦ false | some rest ↦ version_suffix rest ]

abbrev pub better : String → String → String → Bool
better model best key =
    extends (codes model) (codes key) && ltb (byte_len (codes best)) (byte_len (codes key))

unfoldable pub best_key : String → String → Models → String
best_key model best [] = best
best_key model best ((key, p) ∷ rest) =
    best_key model (if better model best key then key else best) rest

abbrev pub or_zero : Option Price → Price
or_zero none = no_price
or_zero (some p) = p

unfoldable pub lookup_longest : String → Models → String → Option (Price × String)
lookup_longest best models model =
    if str_eq best "" then none else some (or_zero (find best models), best)

unfoldable pub lookup_with_key : Models → String → Option (Price × String)
unfolding find best_key lookup_longest extends
lookup_with_key models model = elim (find model models) [
  | some p ↦ some (p, model)
  | none ↦ lookup_longest (best_key model "" models) models model
]

-- `Table.Lookup`.
unfoldable pub lookup : Table → String → Option Price
unfolding lookup_with_key
lookup t model = elim (lookup_with_key t.models model) [ none ↦ none | some (p, key) ↦ some p ]
