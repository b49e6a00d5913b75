-- ===== src/Reconcile/Mapping.antt =====
-- internal/reconcile/invoice.go: the presets of the CSV columns, `resolveMapping`, and the identity of
-- an import. `to_lower` and the digests are the library's.
use burnban.Prelude.{
  ℕ, String, Bool, true, false, not, ◌&&◌, ◌||◌, Option, none, some, List, [], ◌∷◌, codes, str_eq,
  leb, is_empty, any, all, length, guard, chain, is_trimmed, if◌then◌else◌,
}
use burnban.Reconcile.Line.{Line, Go, validate_text}

pub data Format : Type 0 where
  canonical openai anthropic gemini : Format
  other_format : String → Format

-- The logical columns.
pub data Field : Type 0 where
  line_id occurred_at billed_usd model service_tier region line_type reference_line_id description :
      Field

pub record Invoice : Type 0 where
  pub schema : String
  pub invoice_id : String
  pub provider : String
  pub currency : String
  pub source_format : Format
  pub content_hash : String
  pub lines : List Line
  pub effective_mapping_hash : String

-- `strings.ToUpper`, the digest of a mapping, and the digest that binds two digests.
pub record Digests : Type 0 where
  pub to_upper : String → String
  pub mapping_hash : (Field → String) → String
  pub identity_hash : String → String → String

abbrev pub max_import_rows : ℕ
max_import_rows = 100_000

abbrev pub max_columns : ℕ
max_columns = 64

abbrev pub field_name : Field → String
field_name line_id = "line_id"
field_name occurred_at = "occurred_at"
field_name billed_usd = "billed_usd"
field_name model = "model"
field_name service_tier = "service_tier"
field_name region = "region"
field_name line_type = "line_type"
field_name reference_line_id = "reference_line_id"
field_name description = "description"

-- `logicalFieldOrder`.
abbrev pub fields : List Field
fields =
    line_id ∷ occurred_at ∷ billed_usd ∷ model ∷ service_tier ∷ region ∷ line_type
    ∷ reference_line_id ∷ description ∷ []

field_in : String → List Field → Option Field
field_in name [] = none
field_in name (f ∷ fs) =
    let rest = field_in name fs in if str_eq name (field_name f) then some f else rest

-- The provider's headers; `region_header` is the one that differs between providers.
abbrev pub provider_headers : String → Field → String
provider_headers region_header line_id = "id"
provider_headers region_header occurred_at = "usage_start_time"
provider_headers region_header billed_usd = "cost_usd"
provider_headers region_header region = region_header
provider_headers region_header line_type = "type"
provider_headers region_header reference_line_id = "reference_id"
provider_headers region_header f = field_name f

unfoldable pub preset : Format → Option (Field → String)
preset canonical = some field_name
preset openai = some (provider_headers "region")
preset anthropic = some (provider_headers "inference_geo")
preset gemini = some (provider_headers "location")
preset (other_format f) = none

-- `mapping[logical] = source`.
abbrev pub remap : Field → String → (Field → String) → Field → String
remap f source mapping g = if str_eq (field_name f) (field_name g) then source else mapping g

unfoldable pub overlaid : (Field → String) → List (String × String) → Option (Field → String)
unfolding field_in
overlaid mapping [] = some mapping
overlaid mapping ((logical, source) ∷ rest) =
    chain (field_in logical fields) λ f. overlaid (remap f source mapping) rest

-- The loop over `logicalFieldOrder`, after the folded headers `used`.
unfoldable pub sources_ok : Go → (Field → String) → List String → List Field → Bool
sources_ok go mapping used [] = true
sources_ok go mapping used (f ∷ fs) =
    not (is_empty (codes (mapping f)))
    && is_trimmed go.unicode (codes (mapping f))
    && validate_text go.unicode (mapping f) 200 false
    && not (any (str_eq (go.to_lower (mapping f))) used)
    && sources_ok go mapping (go.to_lower (mapping f) ∷ used) fs

unfoldable pub resolve_mapping : Go → Format → List (String × String) → Option (Field → String)
unfolding preset overlaid sources_ok
resolve_mapping go format overlay = chain (preset format) λ base.
    chain (overlaid base overlay) λ mapping. guard (sources_ok go mapping [] fields) (some mapping)

abbrev pub is_hex : ℕ → Bool
is_hex c = (leb b'0' c && leb c b'9') || (leb b'a' c && leb c b'f')

-- A lower-case hexadecimal text of 64 digits.
unfoldable pub valid_sha256 : String → Bool
valid_sha256 text =
    leb 64 (length (codes text)) && leb (length (codes text)) 64 && all is_hex (codes text)

abbrev pub bind_identity : Digests → String → String → Option String
bind_identity digests content mapping =
    guard (valid_sha256 content)
      (guard (valid_sha256 mapping) (some (digests.identity_hash content mapping)))

unfoldable pub import_identity : Go → Digests → Invoice → Option String
unfolding resolve_mapping
import_identity go digests invoice =
    if is_empty (codes invoice.effective_mapping_hash)
    then (chain (resolve_mapping go invoice.source_format [])
        λ mapping. bind_identity digests invoice.content_hash (digests.mapping_hash mapping))
    else bind_identity digests invoice.content_hash invoice.effective_mapping_hash
