-- ===== src/Fingerprint/Identity.antt =====
-- Which series share a fingerprint.
use take_home_assignments.Prelude.{◌^◌, ◌<◌, ◌≡◌, sym, ap, ◌∙◌, ◌↔◌, arith}
use take_home_assignments.Prelude.Int.{ℤ, pos, negsuc, unsigned}
use take_home_assignments.Dict.Canonical.{SameEntries}
use take_home_assignments.Series.{SeriesMetadata}
use take_home_assignments.Fingerprint.{Xxhash, fingerprint_series}
use take_home_assignments.Fingerprint.Encoding.{encode_series, fingerprint_series-encode}
use take_home_assignments.Fingerprint.Injective.{
  IsShort, little_endian_inj, encode_string_inj, encode_bool_inj,
}
use take_home_assignments.Fingerprint.Maps.{IsMap, encode_map_inj, encode_map-eq}

-- An `int32`.
abbrev pub IsInt32 : ℤ → Type 0
IsInt32 (pos n) = n < 2 ^ 31
IsInt32 (negsuc n) = n < 2 ^ 31

-- The ranges of the Go types of the fields.
pub record IsSeries (s : SeriesMetadata) : Type 0 where
  pub metric_type : IsShort s.metric_type
  pub resource_attributes : IsMap s.resource_attributes
  pub resource_schema_url : IsShort s.resource_schema_url
  pub scope_name : IsShort s.scope_name
  pub scope_version : IsShort s.scope_version
  pub scope_attributes : IsMap s.scope_attributes
  pub scope_dropped_attr_count : s.scope_dropped_attr_count < 2 ^ 32
  pub scope_schema_url : IsShort s.scope_schema_url
  pub service_name : IsShort s.service_name
  pub metric_name : IsShort s.metric_name
  pub metric_description : IsShort s.metric_description
  pub metric_unit : IsShort s.metric_unit
  pub attributes : IsMap s.attributes
  pub aggregation_temporality : IsInt32 s.aggregation_temporality

-- Two rows describe one series: all fields but the fingerprint agree, maps by their entries.
pub record SameSeries (s t : SeriesMetadata) : Type 0 where
  pub metric_type : s.metric_type ≡ t.metric_type
  pub resource_attributes : SameEntries s.resource_attributes t.resource_attributes
  pub resource_schema_url : s.resource_schema_url ≡ t.resource_schema_url
  pub scope_name : s.scope_name ≡ t.scope_name
  pub scope_version : s.scope_version ≡ t.scope_version
  pub scope_attributes : SameEntries s.scope_attributes t.scope_attributes
  pub scope_dropped_attr_count : s.scope_dropped_attr_count ≡ t.scope_dropped_attr_count
  pub scope_schema_url : s.scope_schema_url ≡ t.scope_schema_url
  pub service_name : s.service_name ≡ t.service_name
  pub metric_name : s.metric_name ≡ t.metric_name
  pub metric_description : s.metric_description ≡ t.metric_description
  pub metric_unit : s.metric_unit ≡ t.metric_unit
  pub attributes : SameEntries s.attributes t.attributes
  pub aggregation_temporality : s.aggregation_temporality ≡ t.aggregation_temporality
  pub is_monotonic : s.is_monotonic ≡ t.is_monotonic

unsigned_inj : (a b : ℤ) → IsInt32 a → IsInt32 b → unsigned 32 a ≡ unsigned 32 b → a ≡ b
unsigned_inj (pos a) (pos b) ha hb e = ap pos (omega arith)
unsigned_inj (pos a) (negsuc b) ha hb e = absurd (omega arith)
unsigned_inj (negsuc a) (pos b) ha hb e = absurd (omega arith)
unsigned_inj (negsuc a) (negsuc b) ha hb e = ap negsuc (omega arith)

unsigned-lt : (a : ℤ) → IsInt32 a → unsigned 32 a < 2 ^ 32
unsigned-lt (pos a) h = omega arith
unsigned-lt (negsuc a) h = omega arith

module _ (s t : SeriesMetadata) (hs : IsSeries s) (ht : IsSeries t) where
  -- The encoding tells every two series apart.
  pub encode_series_inj : encode_series s ≡ encode_series t → SameSeries s t
  unfolding encode_series
  encode_series_inj e =
      let (e₁, r₁) = encode_string_inj _ _ _ _ hs.metric_type ht.metric_type e in
      let (e₂, r₂) = encode_string_inj _ _ _ _ hs.service_name ht.service_name r₁ in
      let (e₃, r₃) = encode_map_inj _ _ _ _ hs.resource_attributes ht.resource_attributes r₂ in
      let (e₄, r₄) = encode_string_inj _ _ _ _ hs.resource_schema_url ht.resource_schema_url r₃ in
      let (e₅, r₅) = encode_string_inj _ _ _ _ hs.scope_name ht.scope_name r₄ in
      let (e₆, r₆) = encode_string_inj _ _ _ _ hs.scope_version ht.scope_version r₅ in
      let (e₇, r₇) = encode_map_inj _ _ _ _ hs.scope_attributes ht.scope_attributes r₆ in
      let (e₈, r₈) =
        little_endian_inj 4 _ _ _ _ hs.scope_dropped_attr_count ht.scope_dropped_attr_count r₇ in
      let (e₉, r₉) = encode_string_inj _ _ _ _ hs.scope_schema_url ht.scope_schema_url r₈ in
      let (f₀, q₀) = encode_string_inj _ _ _ _ hs.metric_name ht.metric_name r₉ in
      let (f₁, q₁) = encode_string_inj _ _ _ _ hs.metric_description ht.metric_description q₀ in
      let (f₂, q₂) = encode_string_inj _ _ _ _ hs.metric_unit ht.metric_unit q₁ in
      let (f₃, q₃) = encode_map_inj _ _ _ _ hs.attributes ht.attributes q₂ in
      let (f₄, q₄) =
        little_endian_inj 4 _ _ _ _ (unsigned-lt _ hs.aggregation_temporality)
          (unsigned-lt _ ht.aggregation_temporality) q₃ in
      record {
        metric_type = e₁;
        resource_attributes = e₃;
        resource_schema_url = e₄;
        scope_name = e₅;
        scope_version = e₆;
        scope_attributes = e₇;
        scope_dropped_attr_count = e₈;
        scope_schema_url = e₉;
        service_name = e₂;
        metric_name = f₀;
        metric_description = f₁;
        metric_unit = f₂;
        attributes = f₃;
        aggregation_temporality =
            unsigned_inj _ _ hs.aggregation_temporality ht.aggregation_temporality f₄;
        is_monotonic = encode_bool_inj _ _ q₄;
      }

  pub encode_series-eq : SameSeries s t → encode_series s ≡ encode_series t
  unfolding encode_series
  encode_series-eq h = cc (
    encode_map-eq _ _ hs.resource_attributes ht.resource_attributes h.resource_attributes,
    encode_map-eq _ _ hs.scope_attributes ht.scope_attributes h.scope_attributes,
    encode_map-eq _ _ hs.attributes ht.attributes h.attributes,
    h.metric_type,
    h.resource_schema_url,
    h.scope_name,
    h.scope_version,
    h.scope_dropped_attr_count,
    h.scope_schema_url,
    h.service_name,
    h.metric_name,
    h.metric_description,
    h.metric_unit,
    h.aggregation_temporality,
    h.is_monotonic,
  )

  module _ (x : Xxhash) where
    open x use {new, write, sum64}

    -- Two records within the ranges of the Go types that agree on every field of a series, its maps
    -- as maps, have one fingerprint, whatever the order of their entries.
    pub fingerprint_series_stable : SameSeries s t → fingerprint_series x s ≡ fingerprint_series x t
    fingerprint_series_stable h =
        fingerprint_series-encode x s
        ∙ ap (λ bs. sum64 (write new bs)) (encode_series-eq h)
        ∙ sym (fingerprint_series-encode x t)

    -- Two records within the ranges of the Go types, on whose encodings the hash does not collide,
    -- have one fingerprint exactly if they agree on every field of a series, their maps as maps.
    pub fingerprint_series_identity :
        (sum64 (write new (encode_series s)) ≡ sum64 (write new (encode_series t))
          → encode_series s ≡ encode_series t)
        → (fingerprint_series x s ≡ fingerprint_series x t) ↔ SameSeries s t
    fingerprint_series_identity no_collision = (
      λ e.
          encode_series_inj (
            no_collision (sym (fingerprint_series-encode x s) ∙ e ∙ fingerprint_series-encode x t)),
      fingerprint_series_stable,
    )
