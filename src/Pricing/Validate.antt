-- ===== src/Pricing/Validate.antt =====
-- internal/pricing/pricing.go: the checks of a price file. A refusal is false; its text is left out.
use burnban.Prelude.{
  ℕ, String, Bool, not, ◌&&◌, ◌||◌, [], ◌∷◌, leb, all, any, codes, is_empty, byte_len, length,
  is_trimmed, str_eq, str_lt, if◌then◌else◌,
}
use burnban.Prelude.Int.{pos, leb_ℤ, ltb_ℤ, eqb_ℤ}
use burnban.Float
use burnban.Float.{Float64, of_int}
use burnban.Pricing.Types.{Price, Source, Metadata, Models, Go}

-- A finite number that is not below zero.
unfoldable pub is_rate : Float64 → Bool
unfolding Float.is_nan Float.is_inf Float.lt of_int
is_rate v = not (Float.is_nan v || Float.is_inf v || Float.lt v (of_int 0))

unfoldable pub is_zero : Float64 → Bool
unfolding Float.equal of_int
is_zero v = Float.equal v (of_int 0)

unfoldable pub above_zero : Float64 → Bool
unfolding Float.le of_int
above_zero v = not (Float.le v (of_int 0))

-- A free model has no rates; any other has both.
unfoldable pub rates_ok : Price → Bool
unfolding is_zero above_zero
rates_ok p =
    if p.free
    then is_zero p.input_per_mtok
      && is_zero p.output_per_mtok
      && is_zero p.cache_read_mult
      && is_zero p.cache_write_mult
      && eqb_ℤ p.long_context_threshold (pos 0)
      && is_zero p.long_input_mult
      && is_zero p.long_output_mult
    else above_zero p.input_per_mtok && above_zero p.output_per_mtok

unfoldable pub long_context_ok : Price → Bool
unfolding above_zero
long_context_ok p =
    leb_ℤ (pos 0) p.long_context_threshold
    && (not (ltb_ℤ (pos 0) p.long_context_threshold)
        || above_zero p.long_input_mult && above_zero p.long_output_mult)

-- Where one of the four is set, the first, the second and the last are.
unfoldable pub provenance_ok : Price → Bool
provenance_ok p =
    (str_eq p.source ""
        && str_eq p.effective_from ""
        && str_eq p.valid_through ""
        && str_eq p.verified_date ""
      || not (str_eq p.source "" || str_eq p.effective_from "" || str_eq p.verified_date ""))
    && (str_eq p.verified_date "" || not (str_lt p.verified_date p.effective_from))
    && (str_eq p.valid_through "" || not (str_lt p.valid_through p.effective_from))

abbrev pub is_visible : ℕ → Bool
is_visible r = leb 33 r && leb r 126

module _ (go : Go) where
  unfoldable pub validate_pricing_label : String → ℕ → Bool
  validate_pricing_label value max_bytes =
      not (is_empty (codes value))
      && leb (byte_len (codes value)) max_bytes
      && is_trimmed go.unicode (codes value)
      && not (any go.unicode.is_unsafe (codes value))

  unfoldable pub validate_source_url : String → Bool
  validate_source_url raw =
      not (is_empty (codes raw))
      && leb (byte_len (codes raw)) 2048
      && all is_visible (codes raw)
      && go.is_url raw

  abbrev pub optional_date : String → Bool
  optional_date value = str_eq value "" || go.is_date value

  unfoldable pub price_ok : Price → Bool
  unfolding validate_source_url is_rate rates_ok long_context_ok provenance_ok
  price_ok p =
      all is_rate (
        p.input_per_mtok ∷ p.output_per_mtok ∷ p.cache_read_mult ∷ p.cache_write_mult
        ∷ p.long_input_mult ∷ p.long_output_mult ∷ [])
      && rates_ok p
      && long_context_ok p
      && (str_eq p.source "" || validate_source_url p.source)
      && all optional_date (p.effective_from ∷ p.valid_through ∷ p.verified_date ∷ [])
      && provenance_ok p

  unfoldable pub model_ok : String × Price → Bool
  unfolding validate_pricing_label price_ok
  model_ok (name, p) = validate_pricing_label name 256 && price_ok p

  unfoldable pub validate_models : Models → Bool
  unfolding model_ok
  validate_models models = not (is_empty models) && all model_ok models

  abbrev pub source_ok : Source → Bool
  source_ok s =
      validate_pricing_label s.provider 128
      && validate_source_url s.url
      && go.is_date s.verified_date

  unfoldable pub metadata_ok : Metadata → Bool
  unfolding validate_pricing_label validate_source_url
  metadata_ok m =
      not (
        str_eq m.version ""
        || str_eq m.effective_date ""
        || str_eq m.verified_date ""
        || is_empty m.sources)
      && validate_pricing_label m.version 128
      && leb (length m.sources) 256
      && go.is_date m.effective_date
      && go.is_date m.verified_date
      && not (str_lt m.verified_date m.effective_date)
      && all source_ok m.sources

  -- Metadata that is not required may be empty as a whole.
  unfoldable pub validate_metadata : Metadata → Bool → Bool
  unfolding metadata_ok
  validate_metadata m required =
      str_eq m.version ""
        && str_eq m.effective_date ""
        && str_eq m.verified_date ""
        && is_empty m.sources
        && not required
      || metadata_ok m
