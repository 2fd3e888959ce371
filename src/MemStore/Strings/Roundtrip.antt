-- ===== src/MemStore/Strings/Roundtrip.antt =====
-- src/mem_store/strings.rs: decoding a column of strings, against the strings it was built from.
use locust_db.Prelude.{
  refl, ℕ, ◌/◌, ◌^◌, ◌≤◌, ◌<◌, ◌≡◌, Bool, true, false, Bool-cases, inl, inr, Option, some, none,
  Option-cases, List, [], ◌∷◌, length, All-imp, arith, leb,
}
use locust_db.Prelude.Int.{pos, wrap_i64}
use locust_db.Prelude.Sort.{sort_by, count-sort_by, length-sort_by}
use locust_db.Errors.{◌>>=◌}
use locust_db.Stringpack.{Bytes}
use locust_db.Stringpack.PackedStrings.{from_iterator, into_vec}
use locust_db.Stringpack.IndexedPackedStrings.{into_parts}
use locust_db.Stringpack.IndexedPackedStrings.Roundtrip.{iter-push_all}
use locust_db.Engine.DataTypes.Types.{EncodingType}
use locust_db.Engine.Operators.DictLookup.{bytes_eq}
use locust_db.Engine.Operators.DictLookup.Dictionary.{words, store}
use locust_db.MemStore.Column.{
  DataSection, section_u8, section_u64, len, encoding_type, new_column, lz4_encode_section,
  lz4_encode,
}
use locust_db.MemStore.Column.Build.{nonempty, Yields, build_column}
use locust_db.MemStore.Integers.{
  width_8, width_16, max_value, into_section, encoding_of, null_section,
}
use locust_db.MemStore.Integers.Codecs.{
  null_types_lem, encoding_type-into_section, section_value-into_section,
}
use locust_db.MemStore.Integers.Roundtrip.{lz4_encode_section-into_section, width-is_integer}
use locust_db.MemStore.Column.Decoding.{Value}
use locust_db.MemStore.Strings.{
  unique_loop, bytes_lt, index_width, dictionary_codec, packed_codec, string_pack_codec, dict_codec,
  packs_hex, packed_column, dictionary_column, fast_build_string_column,
}
use locust_db.MemStore.Strings.Dictionary.{occurrences-unique_loop, dictionary-Indices}
use locust_db.MemStore.Strings.Sizes.{IsShort, total, mapping-Fits}
use locust_db.MemStore.Strings.Codecs.{
  dictionary_codec-new, dictionary_codec-lz4-new, packed_codec-new, packed_codec-lz4-new, texts,
  looked_up, dictionary_codec-decode_loop, packed_codec-decode_loop,
}

index_width_lem : (n : ℕ) → n < 2 ^ 32 → n ≤ max_value (index_width n)
unfolding index_width
index_width_lem n h = elim (Bool-cases (leb n (max_value width_8))) [
  | inl e ↦ rw e (ground arith)
  | inr e ↦ elim (Bool-cases (leb n (max_value width_16))) [
    | inl f ↦ rw (e, f) (ground arith)
    | inr f ↦ rw (e, f) (ground arith)
  ]
]

dictionary_codec-nonempty :
    (t : EncodingType) (present : Option Bytes) → nonempty (dictionary_codec t present) ≡ true
unfolding dictionary_codec dict_codec
dictionary_codec-nonempty t present = ground arith

packed_codec-nonempty :
    (present : Option Bytes) → nonempty (packed_codec string_pack_codec present) ≡ true
unfolding packed_codec string_pack_codec
packed_codec-nonempty present = ground arith

-- The decoded column, of these unique strings if it has a dictionary.
abbrev pub found : Option (List Bytes) → List Bytes → Option Bytes → Value
found none ss present = texts ss present
found (some unique) ss present = looked_up (index_width (length unique)) ss present

pub found-none :
    (unique : Option (List Bytes)) (ss : List Bytes) → found unique ss none ≡ texts ss none
found-none none ss = refl
found-none (some unique) ss = ground arith

module _ (enable_lz4 : Bool) (compress : DataSection → Bytes)
    (decompress : Bytes → EncodingType → ℕ → DataSection)
    (hl : (section : DataSection)
      → decompress (compress section) (encoding_type section) (len section) ≡ section) where
  packed-Yields :
      (name : Bytes) (strings : List Bytes) (l : ℕ) (present : Option Bytes)
      → Yields enable_lz4 compress decompress
          (new_column name l none
              (packed_codec string_pack_codec present)
              (section_u8 (into_vec (from_iterator strings)) ∷ null_section present)
            >>= λ column. lz4_encode enable_lz4 compress column)
          (texts strings present)
          l
  unfolding encoding_type
  packed-Yields name strings l present =
      let section = section_u8 (into_vec (from_iterator strings)) in
      let types = null_types_lem present in
      let worth : (worth_it : Bool) × (lz4_encode_section enable_lz4 compress section
            ≡ (section_u8 (compress section), worth_it)) =
        lz4_encode_section-into_section enable_lz4 compress width_8
          (into_vec (from_iterator strings)) in
      build_column enable_lz4 compress decompress name l none
        (packed_codec string_pack_codec present) section (null_section present)
        (texts strings present) worth.0 (packed_codec-nonempty present)
        (rw types (packed_codec-new present))
        (rw types (packed_codec-lz4-new present (len section))) worth.1 refl (hl section)
        (λ first t name.
          rw types (packed_codec-decode_loop decompress first t name strings present))

  dictionary-Yields :
      (name : Bytes) (strings unique : List Bytes) (limit : ℕ) (present : Option Bytes)
      → unique_loop strings [] limit ≡ some unique
      → IsShort strings
      → total strings < 2 ^ 40
      → length strings < 2 ^ 32
      → Yields enable_lz4 compress decompress
          (dictionary_column name strings unique (length strings) present >>= λ column.
            lz4_encode enable_lz4 compress column)
          (looked_up (index_width (length unique)) strings present)
          (length strings)
  unfolding dictionary_column into_parts encoding_type
  dictionary-Yields name strings unique limit present h short bytes rows =
      let mapping = sort_by bytes_lt unique in
      let w = index_width (length unique) in
      let (fits, fewer) = mapping-Fits strings limit unique h short bytes in
      let size : length mapping ≤ max_value w =
        omega
          (arith, length-sort_by bytes_lt unique, index_width_lem (length unique) (omega arith)) in
      let ix = dictionary-Indices w mapping strings size (
        All-imp _ _ strings
          (λ s m. omega (arith, m, count-sort_by bytes_lt (λ t. bytes_eq t s) unique))
          (occurrences-unique_loop strings [] limit unique h)) in
      let section = into_section w ix.indices in
      let rest = section_u64 (words mapping) ∷ section_u8 (store mapping) ∷ null_section present in
      let types = null_types_lem present in
      let first_type = encoding_type-into_section w ix.indices in
      let worth = lz4_encode_section-into_section enable_lz4 compress w ix.indices in
      let built =
        build_column enable_lz4 compress decompress name (length strings)
          (some (pos 0, wrap_i64 (pos (length unique)))) (dictionary_codec (encoding_of w) present)
          section rest (looked_up w strings present) worth.0
          (dictionary_codec-nonempty (encoding_of w) present)
          (rw (first_type, types) (dictionary_codec-new w present))
          (rw (first_type, types) (dictionary_codec-lz4-new w present (len section))) worth.1
          (rw first_type (width-is_integer w)) (hl section)
          (λ first t name.
            rw (types, section_value-into_section w ix.indices)
              (dictionary_codec-decode_loop decompress first t name w mapping strings ix.indices
                present fits ix.back)) in
      let iterated = (iter-push_all mapping fits).0 in rw (iterated, ix.run) built

  module _ (decode_hex : Bytes → Option Bytes) where
    -- With any compressor of sections that a decompressor undoes, strings of less than 2^24 bytes,
    -- fewer than 2^32 and together less than 2^40 bytes, that are not packed as hex, make a column
    -- without a panic, packed or with a dictionary, and its codec decodes it to the strings and the
    -- null map that it was built from; except that a column with both a null map and a dictionary
    -- whose indices take 16 or 32 bits, of more than 255 strings, does not decode.
    pub fast_build_string_column-decode_column :
        (name : Bytes) (strings : List Bytes) (lhex uhex : Bool) (total_bytes : ℕ)
        (present : Option Bytes)
        → packs_hex lhex uhex total_bytes (length strings) ≡ false
        → IsShort strings
        → total strings < 2 ^ 40
        → length strings < 2 ^ 32
        → Yields enable_lz4 compress decompress
            (fast_build_string_column enable_lz4 compress decode_hex name strings
              (length strings)
              lhex
              uhex
              total_bytes
              present)
            (found (unique_loop strings [] (length strings / 2)) strings present)
            (length strings)
    unfolding fast_build_string_column packed_column
    fast_build_string_column-decode_column name strings lhex uhex total_bytes present hex short
          bytes rows =
        elim (Option-cases (unique_loop strings [] (length strings / 2))) [
          | inl e ↦ rw (e, hex) (packed-Yields name strings (length strings) present)
          | inr (unique, e) ↦ rw e (
              dictionary-Yields name strings unique (length strings / 2) present e short bytes rows)
        ]
