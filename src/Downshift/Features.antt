-- ===== src/Downshift/Features.antt =====
-- internal/downshift/features.go: the summary of a request, and whether a rule's target can serve it.
use burnban.Prelude.{
  String, Bool, not, ◌&&◌, ◌||◌, Option, none, some, List, [], ◌∷◌, any, str_eq, if◌then◌else◌,
}
use burnban.Prelude.Int.{ℤ, ltb_ℤ}
use burnban.Downshift.Config.{Rule}

pub record Features : Type 0 where
  pub version : String
  pub dialect : String
  pub operation : String
  pub context_upper_tokens : ℤ
  pub output_bound_present : Bool
  pub uses_tools : Bool
  pub structured_output : Bool
  pub modalities : List String
  pub compatible : Bool
  pub reason : String

-- Why a target is not eligible.
pub data Refusal : Type 0 where
  incompatible : String → Refusal
  dialects_differ no_output_bound exceeds_source exceeds_target no_tools no_structured_output :
      Refusal
  no_modality : String → Refusal

unfoldable pub missing_modality : List String → List String → Option String
missing_modality allowed [] = none
missing_modality allowed (modality ∷ rest) =
    let later = missing_modality allowed rest in
    if any (str_eq modality) allowed then later else some modality

-- `none` where the target can serve the request.
unfoldable pub eligible : Rule → Features → Option Refusal
unfolding missing_modality
eligible rule features =
    if not features.compatible
    then some (incompatible features.reason)
    else if not (str_eq features.dialect rule.source.dialect)
        || not (str_eq features.dialect rule.target.dialect)
    then some dialects_differ
    else if not features.output_bound_present
    then some no_output_bound
    else if ltb_ℤ rule.source.context_tokens features.context_upper_tokens
    then some exceeds_source
    else if ltb_ℤ rule.target.context_tokens features.context_upper_tokens
    then some exceeds_target
    else if features.uses_tools && not rule.capabilities.tools
    then some no_tools
    else if features.structured_output && not rule.capabilities.structured_output
    then some no_structured_output
    else elim (missing_modality rule.capabilities.modalities features.modalities) [
      | none ↦ none
      | some m ↦ some (no_modality m)
    ]
