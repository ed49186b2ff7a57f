-- ===== src/Fingerprint.antt =====
-- `fingerprintSeries` and its helpers (metrics_mapper.go), over a streaming 64-bit hash.
pub mod Encoding
pub mod Injective
pub mod Maps
pub mod Identity
pub mod Abstract
use take_home_assignments.Prelude.{
  ℕ, zero, suc, ◌/◌, ◌%◌, ◌^◌, ◌≡◌, Bool, List, [], ◌∷◌, ◌++◌, length, if◌then◌else◌,
}
use take_home_assignments.Prelude.Int.{unsigned}
use take_home_assignments.Text.{Str, sort_strings}
use take_home_assignments.Dict.{Dict, get, keys}
use take_home_assignments.Series.{SeriesMetadata}

-- The package github.com/cespare/xxhash: a digest takes bytes in pieces, and two writes are one
-- write of the joined bytes.
pub record Xxhash : Type 1 where
  pub Digest : Type 0
  pub new : Digest
  pub write : Digest → List ℕ → Digest
  pub sum64 : Digest → ℕ
  pub write-write : (d : Digest) (a b : List ℕ) → write (write d a) b ≡ write d (a ++ b)

-- The `w` low bytes of a number, lowest first: `binary.LittleEndian.PutUint64` for w = 8 and
-- `PutUint32` for w = 4.
unfoldable pub little_endian : ℕ → ℕ → List ℕ
little_endian zero n = []
little_endian (suc w) n = (n % 256) ∷ little_endian w (n / 256)

module _ (x : Xxhash) where
  open x use {Digest, new, write, sum64}

  unfoldable pub hash_string : Digest → Str → Digest
  hash_string digest value =
      let digest = write digest (little_endian 8 (length value)) in write digest value

  -- the loop of `hashMap` over the sorted keys
  unfoldable pub hash_entries : Digest → Dict → List Str → Digest
  hash_entries digest m [] = digest
  hash_entries digest m (key ∷ rest) =
      hash_entries (hash_string (hash_string digest key) (get key m)) m rest

  unfoldable pub hash_map : Digest → Dict → Digest
  hash_map digest m =
      hash_entries (write digest (little_endian 8 (length m))) m (sort_strings (keys m))

  unfoldable pub hash_uint32 : Digest → ℕ → Digest
  hash_uint32 digest value = write digest (little_endian 4 value)

  unfoldable pub hash_bool : Digest → Bool → Digest
  hash_bool digest value = write digest ((if value then 1 else 0) ∷ [])

  unfoldable pub fingerprint_series : SeriesMetadata → ℕ
  fingerprint_series s =
      let digest = new in
      let digest = hash_string digest s.metric_type in
      let digest = hash_string digest s.service_name in
      let digest = hash_map digest s.resource_attributes in
      let digest = hash_string digest s.resource_schema_url in
      let digest = hash_string digest s.scope_name in
      let digest = hash_string digest s.scope_version in
      let digest = hash_map digest s.scope_attributes in
      let digest = hash_uint32 digest s.scope_dropped_attr_count in
      let digest = hash_string digest s.scope_schema_url in
      let digest = hash_string digest s.metric_name in
      let digest = hash_string digest s.metric_description in
      let digest = hash_string digest s.metric_unit in
      let digest = hash_map digest s.attributes in
      let digest = hash_uint32 digest (unsigned 32 s.aggregation_temporality) in
      let digest = hash_bool digest s.is_monotonic in sum64 digest
