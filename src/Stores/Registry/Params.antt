-- ===== src/Stores/Registry/Params.antt =====
-- blockchain_cluster/internal/registry/chain_config.go: the thresholds of a chain.
use blockchain_clustering.Base.{String, Option, none, some}
use blockchain_clustering.Base.Int.{ℤ, pos}
use blockchain_clustering.Base.Decimal.{parse_int}
use blockchain_clustering.Base.Float.{Float64, float}
use blockchain_clustering.Base.Json.{
  RawMessage, Fields, absent, fields_of, float_pointer, int_pointer, string_pointer,
}
use blockchain_clustering.Domain.{PreprocessingParams}

module _ {A B : Type 0} where
  infixl 5 ◌>>=◌
  abbrev ◌>>=◌ : Option A → (A → Option B) → Option B
  none >>= f = none
  some a >>= f = f a

pub record Overrides (F : Type 0) : Type 0 where
  pub hub_threshold : Option F
  pub hub_degree_saturation : Option F
  pub dust_threshold : Option String
  pub coinjoin_confidence : Option F
  pub dust_exclusion_confidence : Option F
  pub equal_output_min : Option ℤ
  pub collab_input_min : Option ℤ
  pub collab_output_min : Option ℤ

module _ {ℓ} {A : Type ℓ} where
  -- `if o != nil { d = *o }`
  abbrev pub override : A → Option A → A
  override d none = d
  override d (some a) = a

abbrev pub default_dust_threshold : ℤ
default_dust_threshold = pos 546

abbrev pub dust_override : Option String → Option ℤ
dust_override none = some default_dust_threshold
dust_override (some s) = parse_int s

module _ {F : Type 0} ⦃fl : Float64 F⦄ where
  abbrev pub default_preprocessing_params : PreprocessingParams F
  default_preprocessing_params = record {
    hub_threshold = fl.decimal 5 1;
    hub_degree_saturation = float 50;
    dust_threshold = default_dust_threshold;
    coinjoin_confidence = fl.decimal 8 1;
    dust_exclusion_confidence = fl.decimal 8 1;
    equal_output_min = pos 3;
    collab_input_min = pos 3;
    collab_output_min = pos 3;
  }

  -- Every field of the struct must decode.
  unfoldable pub overrides_of : Fields → Option (Overrides F)
  overrides_of fs = do
    hub_threshold ← float_pointer "hub_threshold" fs
    hub_degree_saturation ← float_pointer "hub_degree_saturation" fs
    dust_threshold ← string_pointer "dust_threshold" fs
    coinjoin_confidence ← float_pointer "coinjoin_confidence" fs
    dust_exclusion_confidence ← float_pointer "dust_exclusion_confidence" fs
    equal_output_min ← int_pointer 63 "equal_output_min" fs
    collab_input_min ← int_pointer 63 "collab_input_min" fs
    collab_output_min ← int_pointer 63 "collab_output_min" fs
    some (record {
      hub_threshold = hub_threshold;
      hub_degree_saturation = hub_degree_saturation;
      dust_threshold = dust_threshold;
      coinjoin_confidence = coinjoin_confidence;
      dust_exclusion_confidence = dust_exclusion_confidence;
      equal_output_min = equal_output_min;
      collab_input_min = collab_input_min;
      collab_output_min = collab_output_min;
    })

  abbrev pub with_overrides : Overrides F → ℤ → PreprocessingParams F
  with_overrides o dust =
      let d = default_preprocessing_params in
      record {
        hub_threshold = override d.hub_threshold o.hub_threshold;
        hub_degree_saturation = override d.hub_degree_saturation o.hub_degree_saturation;
        dust_threshold = dust;
        coinjoin_confidence = override d.coinjoin_confidence o.coinjoin_confidence;
        dust_exclusion_confidence =
            override d.dust_exclusion_confidence o.dust_exclusion_confidence;
        equal_output_min = override d.equal_output_min o.equal_output_min;
        collab_input_min = override d.collab_input_min o.collab_input_min;
        collab_output_min = override d.collab_output_min o.collab_output_min;
      }

  -- `none` is an error.
  unfoldable pub resolve_params : RawMessage → Option (PreprocessingParams F)
  unfolding overrides_of
  resolve_params absent = some default_preprocessing_params
  resolve_params raw = do
    fs ← fields_of raw
    overrides ← overrides_of fs
    dust ← dust_override overrides.dust_threshold
    some (with_overrides overrides dust)
