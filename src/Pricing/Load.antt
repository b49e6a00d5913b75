-- ===== src/Pricing/Load.antt =====
-- internal/pricing/pricing.go, `Load`: the embedded table under the user's overrides.
use burnban.Prelude.{
  String, Bool, true, false, not, ◌&&◌, ◌||◌, Option, none, some, List, [], ◌∷◌, ◌++◌, map,
  is_empty, str_eq, str_lt, guard, chain, if◌then◌else◌,
}
use burnban.Prelude.Sort.{sort_by}
use burnban.Pricing.Types.{Price, Models, Table, Go}
use burnban.Pricing.Validate.{validate_metadata, validate_models}
use burnban.Pricing.Contracts.{validate_contracts}
pub mod Loaded

-- What reading and decoding ~/.burnban/pricing.json gives; `none` where the JSON is refused.
pub data OverrideFile : Type 0 where
  missing unreadable : OverrideFile
  contents : Option Table → OverrideFile

-- `t.Models[key] = p`.
unfoldable pub put : String → Price → Models → Models
put key p [] = (key, p) ∷ []
put key p ((k, q) ∷ rest) =
    let later = put key p rest in if str_eq key k then (key, p) ∷ rest else (k, q) ∷ later

unfoldable pub put_all : Models → Models → Models
unfolding put
put_all [] models = models
put_all ((key, p) ∷ rest) models = put_all rest (put key p models)

unfoldable pub overlaid : Table → Table → Table
unfolding put_all
overlaid t overlay = record t {
  models = put_all overlay.models t.models;
  contracts = t.contracts ++ overlay.contracts;
  override_models = sort_by str_lt (t.override_models ++ map (λ e. e.0) overlay.models);
}

module _ (go : Go) where
  unfoldable pub overlay_ok : Table → Bool
  unfolding validate_metadata validate_models validate_contracts
  overlay_ok overlay =
      not (is_empty overlay.models && is_empty overlay.contracts)
      && validate_metadata go overlay.metadata false
      && ((is_empty overlay.models || validate_models go overlay.models)
          && validate_contracts go overlay.contracts)

  unfoldable pub with_overrides : Table → OverrideFile → Option Table
  unfolding overlay_ok overlaid
  with_overrides t missing = some t
  with_overrides t unreadable = none
  with_overrides t (contents none) = none
  with_overrides t (contents (some overlay)) =
      guard (overlay_ok overlay) (some (overlaid t overlay))

  abbrev pub embedded_ok : Table → Bool
  embedded_ok t = validate_metadata go t.metadata true && validate_models go t.models

  -- The embedded table as decoded, whether the home directory is known, and the file there.
  unfoldable pub load : Option Table → Bool → OverrideFile → Option Table
  unfolding with_overrides validate_metadata validate_models
  load embedded home file =
      chain embedded (λ t. guard (embedded_ok t) (if home then with_overrides t file else some t))
