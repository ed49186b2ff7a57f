-- ===== src/Fingerprint/Encoding.antt =====
-- What `fingerprintSeries` feeds to the hash, as one list of bytes.
use take_home_assignments.Prelude.{
  ℕ, ◌≡◌, ap, ◌∙◌, Bool, List, [], ◌∷◌, ◌++◌, length, if◌then◌else◌,
}
use take_home_assignments.Prelude.Int.{unsigned}
use take_home_assignments.Text.{Str, sort_strings}
use take_home_assignments.Dict.{Dict, get, keys}
use take_home_assignments.Dict.Canonical.{entries_at, canonical}
use take_home_assignments.Series.{SeriesMetadata}
use take_home_assignments.Fingerprint.{
  Xxhash, little_endian, hash_string, hash_entries, hash_map, hash_uint32, hash_bool,
  fingerprint_series,
}
use mathlib.Core.List.{append-nil, append_assoc}

unfoldable pub encode_string : Str → List ℕ
encode_string s = little_endian 8 (length s) ++ s

unfoldable pub encode_entries : Dict → List ℕ
encode_entries [] = []
encode_entries ((k, v) ∷ m) = encode_string k ++ (encode_string v ++ encode_entries m)

unfoldable pub encode_map : Dict → List ℕ
encode_map m = little_endian 8 (length m) ++ encode_entries (canonical m)

unfoldable pub encode_bool : Bool → List ℕ
encode_bool b = (if b then 1 else 0) ∷ []

-- The bytes of a series, field after field.
unfoldable pub encode_series : SeriesMetadata → List ℕ
encode_series s =
    encode_string s.metric_type
    ++ (encode_string s.service_name
        ++ (encode_map s.resource_attributes
            ++ (encode_string s.resource_schema_url
                ++ (encode_string s.scope_name
                    ++ (encode_string s.scope_version
                        ++ (encode_map s.scope_attributes
                            ++ (little_endian 4 s.scope_dropped_attr_count
                                ++ (encode_string s.scope_schema_url
                                    ++ (encode_string s.metric_name
                                        ++ (encode_string s.metric_description
                                            ++ (encode_string s.metric_unit
                                                ++ (encode_map s.attributes
                                                    ++ (little_endian 4
                                                          (unsigned 32 s.aggregation_temporality)
                                                        ++ encode_bool s.is_monotonic)))))))))))))

module _ (x : Xxhash) where
  open x use {Digest, new, write, sum64, write-write}

  hash_string-write : (d : Digest) (s : Str) → hash_string x d s ≡ write d (encode_string s)
  unfolding hash_string encode_string
  hash_string-write d s = write-write d (little_endian 8 (length s)) s

  hash_entries-write :
      (d : Digest) (a : List ℕ) (m : Dict) (ks : List Str)
      → hash_entries x (write d a) m ks ≡ write d (a ++ encode_entries (entries_at m ks))
  unfolding hash_entries encode_entries
  hash_entries-write d a m [] = rw append-nil
  hash_entries-write d a m (k ∷ ks) =
      simp (hash_string-write, write-write, append_assoc)
        (hash_entries-write d (a ++ (encode_string k ++ encode_string (get k m))) m ks
          ∙ ap (write d) (simp append_assoc))

  hash_map-write : (d : Digest) (m : Dict) → hash_map x d m ≡ write d (encode_map m)
  unfolding hash_map encode_map
  hash_map-write d m = hash_entries-write d (little_endian 8 (length m)) m (sort_strings (keys m))

  -- The fingerprint is the hash of the encoding, written in one piece.
  pub fingerprint_series-encode :
      (s : SeriesMetadata) → fingerprint_series x s ≡ sum64 (write new (encode_series s))
  unfolding fingerprint_series encode_series hash_uint32 hash_bool encode_bool
  fingerprint_series-encode s = simp (
    fingerprint_series, hash_uint32, hash_bool, hash_string-write, hash_map-write, write-write,
    append_assoc,
  )
