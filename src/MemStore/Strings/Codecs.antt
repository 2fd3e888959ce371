-- ===== src/MemStore/Strings/Codecs.antt =====
-- src/mem_store/strings.rs: the codecs of columns of strings, and what they decode.
use locust_db.Prelude.{
  ℕ, ◌+◌, ◌≤◌, ◌<◌, ◌≡◌, refl, ap, ◌∙◌, true, Option, some, none, List, [], ◌∷◌, ◌/◌, ◌%◌, map,
  replicate, length, length-append, take_all, arith,
}
use locust_db.Prelude.Int.{pos, pos_part}
use locust_db.Errors.{ok}
use locust_db.Stringpack.{Bytes}
use locust_db.Stringpack.PackedStrings.{from_iterator, into_vec}
use locust_db.Stringpack.PackedStrings.Roundtrip.{prefix, encode, encode_all, from_iterator_lem}
use locust_db.Stringpack.IndexedPackedStrings.Roundtrip.{Fits}
use locust_db.Engine.DataTypes.Types.{EncodingType, nullable, is_nullable, cast_to_basic}
use locust_db.Engine.Operators.DictLookup
use locust_db.Engine.Operators.DictLookup.Dictionary.{words, store, gather, execute_lem}
use locust_db.Engine.Operators.UnpackStrings.Batches.{execute-init}
use locust_db.MemStore.Codec.{
  lz4, has_property, is_summation_preserving_op, is_order_preserving_op,
  is_elementwise_decodable_op, arg_count,
}
use locust_db.MemStore.Codec.Metadata.{new, output_type}
use locust_db.MemStore.Codec.Decode.{decode_loop}
use locust_db.MemStore.Column.{DataSection, section_u8, section_u64}
use locust_db.MemStore.Column.Decoding.{
  Value, numbers, strings, nullable_strings, other, value_planner, lookup_value, unpacked,
  unpack_bytes, unpack_value,
}
use locust_db.MemStore.Column.Lz4.{is_ok, map-pos_part}
use locust_db.MemStore.Integers.{
  Width, width_8, width_16, width_32, encoding_of, is_some, null_section,
}
use locust_db.MemStore.Integers.Codecs.{null_types}
use locust_db.MemStore.Strings.{dictionary_codec, packed_codec, string_pack_codec, dict_codec}

pub dictionary_codec-new :
    (w : Width) (present : Option Bytes)
    → is_ok (
        new
          (dictionary_codec (encoding_of w) present)
          (encoding_of w ∷ EncodingType.u64 ∷ EncodingType.u8 ∷ null_types (is_some present)))
      ≡ true
unfolding dictionary_codec dict_codec new output_type has_property nullable is_nullable
    cast_to_basic is_summation_preserving_op is_order_preserving_op is_elementwise_decodable_op
    arg_count
dictionary_codec-new w present = ground arith

pub dictionary_codec-lz4-new :
    (w : Width) (present : Option Bytes) (n : ℕ)
    → is_ok (
        new
          (lz4 (encoding_of w) n ∷ dictionary_codec (encoding_of w) present)
          (EncodingType.u8 ∷ EncodingType.u64 ∷ EncodingType.u8 ∷ null_types (is_some present)))
      ≡ true
unfolding dictionary_codec dict_codec new output_type has_property nullable is_nullable
    cast_to_basic is_summation_preserving_op is_order_preserving_op is_elementwise_decodable_op
    arg_count
dictionary_codec-lz4-new w present n = ground arith

pub packed_codec-new :
    (present : Option Bytes)
    → is_ok (
        new
          (packed_codec string_pack_codec present)
          (EncodingType.u8 ∷ null_types (is_some present)))
      ≡ true
unfolding packed_codec string_pack_codec new output_type has_property nullable is_nullable
    cast_to_basic is_summation_preserving_op is_order_preserving_op is_elementwise_decodable_op
    arg_count
packed_codec-new present = ground arith

pub packed_codec-lz4-new :
    (present : Option Bytes) (n : ℕ)
    → is_ok (
        new
          (lz4 EncodingType.u8 n ∷ packed_codec string_pack_codec present)
          (EncodingType.u8 ∷ null_types (is_some present)))
      ≡ true
unfolding packed_codec string_pack_codec new output_type has_property nullable is_nullable
    cast_to_basic is_summation_preserving_op is_order_preserving_op is_elementwise_decodable_op
    arg_count
packed_codec-lz4-new present n = ground arith

-- The decoded column: its strings, and its null map.
abbrev pub texts : List Bytes → Option Bytes → Value
texts ss none = strings ss
texts ss (some present) = nullable_strings ss (map pos present)

-- The decoded column, if it has a dictionary whose indices are stored at this width: a null map is put
-- on the indices, which 16 and 32 bits do not allow.
abbrev pub looked_up : Width → List Bytes → Option Bytes → Value
looked_up width_8 ss present = texts ss present
looked_up w ss none = texts ss none
looked_up w ss (some present) = other

-- The strings at the indices, from the sections of a dictionary.
lookup-dictionary :
    (mapping ss : List Bytes) (indices : List ℕ)
    → Fits 0 mapping
    → gather mapping indices ≡ some ss
    → DictLookup.execute true
        (map pos_part (map pos (words mapping)))
        (map pos_part (map pos (store mapping)))
        (map pos_part (map pos indices))
        []
      ≡ some ss
lookup-dictionary mapping ss indices f h =
    rw (map-pos_part (words mapping), map-pos_part (store mapping), map-pos_part indices)
      (execute_lem true mapping indices [] f ∙ rw h refl)

length-encode_all : (ss : List Bytes) → length ss ≤ length (encode_all ss)
length-encode_all [] = omega arith
length-encode_all (s ∷ ss) = omega (
  arith,
  length-encode_all ss,
  length-append (encode s) (encode_all ss),
  length-append (prefix (length s)) s,
  length-append (replicate (length s / 255) 255) ((length s % 255) ∷ []),
)

unpack-packed :
    (ss : List Bytes)
    → unpack_value (numbers EncodingType.u8 (map pos (into_vec (from_iterator ss)))) ≡ strings ss
unfolding unpack_value
unpack-packed ss =
    let bytes = into_vec (from_iterator ss) in
    let n = length bytes + 1 in
    let packed : length bytes ≡ length (encode_all ss) =
      unfold into_vec in ap length (from_iterator_lem ss) in
    let many : length ss < n = omega (arith, length-encode_all ss, packed) in
    ap unpack_bytes (map-pos_part bytes)
    ∙ ap unpacked (execute-init (λ n. n) n n ss (omega arith) many)
    ∙ ap strings (take_all n ss (omega arith))

module _ (decompress : Bytes → EncodingType → ℕ → DataSection) (first : DataSection)
    (t : EncodingType) (name : Bytes) where
  pub dictionary_codec-decode_loop :
      (w : Width) (mapping ss : List Bytes) (indices : List ℕ) (present : Option Bytes)
      → Fits 0 mapping
      → gather mapping indices ≡ some ss
      → decode_loop
          (value_planner decompress (
            first
            ∷ section_u64 (words mapping)
            ∷ section_u8 (store mapping)
            ∷ null_section present))
          name
          (t ∷ EncodingType.u64 ∷ EncodingType.u8 ∷ null_types (is_some present))
          (dictionary_codec (encoding_of w) present)
          (numbers (encoding_of w) (map pos indices) ∷ [])
        ≡ ok (looked_up w ss present ∷ [])
  unfolding dictionary_codec dict_codec decode_loop value_planner lookup_value
  dictionary_codec-decode_loop width_8 mapping ss indices none f h =
      rw (lookup-dictionary mapping ss indices f h) refl
  dictionary_codec-decode_loop width_16 mapping ss indices none f h =
      rw (lookup-dictionary mapping ss indices f h) refl
  dictionary_codec-decode_loop width_32 mapping ss indices none f h =
      rw (lookup-dictionary mapping ss indices f h) refl
  dictionary_codec-decode_loop width_8 mapping ss indices (some present) f h =
      rw (lookup-dictionary mapping ss indices f h) refl
  dictionary_codec-decode_loop width_16 mapping ss indices (some present) f h = refl
  dictionary_codec-decode_loop width_32 mapping ss indices (some present) f h = refl

  pub packed_codec-decode_loop :
      (ss : List Bytes) (present : Option Bytes)
      → decode_loop
          (value_planner decompress (first ∷ null_section present))
          name
          (t ∷ null_types (is_some present))
          (packed_codec string_pack_codec present)
          (numbers EncodingType.u8 (map pos (into_vec (from_iterator ss))) ∷ [])
        ≡ ok (texts ss present ∷ [])
  unfolding packed_codec string_pack_codec decode_loop value_planner
  packed_codec-decode_loop ss none = rw (unpack-packed ss) refl
  packed_codec-decode_loop ss (some present) = rw (unpack-packed ss) refl
