-- ===== src/Fingerprint/Abstract.antt =====
-- Series without their representation: the order of the entries in a map does not count.
use take_home_assignments.Prelude.{◌≡◌, ◌↔◌, ap, ℕ, List}
use take_home_assignments.Series.{SeriesMetadata}
use take_home_assignments.Fingerprint.{Xxhash, fingerprint_series}
use take_home_assignments.Fingerprint.Encoding.{encode_series, fingerprint_series-encode}
use take_home_assignments.Fingerprint.Identity.{
  IsSeries, SameSeries, encode_series-eq, encode_series_inj,
}
use mathlib.Core.Quot
use mathlib.Core.Quot.{Quot, Quot-set}

-- A record of a series within the ranges of the Go types.
abbrev pub GoSeries : Type 0
GoSeries = (s : SeriesMetadata) × IsSeries s

-- A series: what records that describe the same series have in common.
abbrev pub Series : Type 0
Series = Quot (λ (s t : GoSeries). SameSeries s.0 t.0)

pub bytes_set : IsSet (List ℕ)
bytes_set = hlevel

-- The bytes that are hashed for a series.
unfoldable pub encode : Series → List ℕ
encode = Quot.lift bytes_set (λ s. encode_series s.0) (λ s t h. encode_series-eq s.0 t.0 s.1 t.1 h)

encode_inj : (a b : Series) → encode a ≡ encode b → a ≡ b
unfolding encode
encode_inj =
    Quot.ind (λ a. hlevel Quot-set)
      (λ s.
        Quot.ind (λ b. hlevel Quot-set) (λ t e. Quot.sound (encode_series_inj s.0 t.0 s.1 t.1 e)))

-- The bytes that are hashed belong to the series and not to the record that describes it: two series
-- are equal exactly if their bytes are, and the fingerprint of every record of a series is the hash
-- of its bytes. Series are taken from records within the ranges of the Go types.
pub encode_identity :
    (x : Xxhash) (a b : Series) (s : GoSeries)
    → ((encode a ≡ encode b) ↔ (a ≡ b))
      × (fingerprint_series x s.0 ≡ x.sum64 (x.write x.new (encode (Quot.mk s))))
unfolding encode
encode_identity x a b s = ((encode_inj a b, ap encode), fingerprint_series-encode x s.0)
