-- ===== src/MemStore/Strings.antt =====
-- src/mem_store/strings.rs: choosing how to store a column of strings. The hash set is the list of
-- its elements, the hash map of the dictionary the list of its insertions, newest first. The hex
-- crate is a parameter: the bytes that it decodes from a string, if it is one of hex digits.
pub mod Dictionary
pub mod Sizes
pub mod Codecs
pub mod Roundtrip
use locust_db.Prelude.{
  ℕ, ◌+◌, ◌*◌, ◌/◌, ◌%◌, ◌^◌, Bool, true, false, ◌&&◌, ◌||◌, Option, none, some, List, [], ◌∷◌,
  ◌++◌, length, leb, ltb, ◌==◌, if◌then◌else◌,
}
use locust_db.Prelude.Sort.{sort_by}
use locust_db.Prelude.Int.{pos, wrap_i64}
use locust_db.Errors.{Result, ok, panic, unwrap, ◌>>=◌}
use locust_db.Stringpack.{Bytes}
use locust_db.Stringpack.PackedStrings
use locust_db.Stringpack.PackedBytes
use locust_db.Stringpack.IndexedPackedStrings.{
  IndexedPackedStrings, default, push_all, iter, into_parts,
}
use locust_db.Engine.DataTypes.Types.{EncodingType}
use locust_db.Engine.Operators.DictLookup.{bytes_eq}
use locust_db.MemStore.Codec.{
  CodecOp, nullable_op, push_data_section, dict_lookup, unpack_strings, unhexpack_strings,
}
use locust_db.MemStore.Column.{DataSection, section_u8, section_u64, Column, new_column, lz4_encode}
use locust_db.MemStore.Integers.{
  Width, width_8, width_16, width_32, max_value, into_section, encoding_of, null_section,
}

-- `HashSet::insert`
unfoldable pub insert_set : Bytes → List Bytes → List Bytes
unfolding bytes_eq
insert_set s [] = s ∷ []
insert_set s (t ∷ ts) = let rest = insert_set s ts in if bytes_eq t s then t ∷ ts else t ∷ rest

-- The distinct strings, or none when there are `limit` of them, and the column is packed.
unfoldable pub unique_loop : (strings unique : List Bytes) (limit : ℕ) → Option (List Bytes)
unfolding insert_set
unique_loop [] unique limit = some unique
unique_loop (s ∷ strings) unique limit =
    let rest = unique_loop strings (insert_set s unique) limit in
    if length (insert_set s unique) == limit then none else rest

-- `<` of strings
unfoldable pub bytes_lt : Bytes → Bytes → Bool
bytes_lt [] [] = false
bytes_lt [] (y ∷ ys) = true
bytes_lt (x ∷ xs) [] = false
bytes_lt (x ∷ xs) (y ∷ ys) = ltb x y || (x == y && bytes_lt xs ys)

-- `u8`, `u16` or `u32`
unfoldable pub index_width : (dict_size : ℕ) → Width
index_width dict_size =
    if leb dict_size (max_value width_8)
    then width_8
    else if leb dict_size (max_value width_16)
    then width_16
    else width_32

-- `dictionary.insert(s, i as u8)` for each string, numbered from `i`.
unfoldable pub build_dictionary :
    (w : Width) (mapping : List Bytes) (i : ℕ) → List (Bytes × ℕ) → List (Bytes × ℕ)
build_dictionary w [] i dictionary = dictionary
build_dictionary w (s ∷ mapping) i dictionary =
    build_dictionary w mapping (i + 1) ((s, i % (max_value w + 1)) ∷ dictionary)

unfoldable pub find : List (Bytes × ℕ) → Bytes → Option ℕ
unfolding bytes_eq
find [] s = none
find ((t, i) ∷ dictionary) s = if bytes_eq t s then some i else find dictionary s

-- `strings.map(|s| dictionary[s]).collect()`
unfoldable pub encode_strings : List (Bytes × ℕ) → (strings : List Bytes) → Result (List ℕ)
unfolding find
encode_strings dictionary [] = ok []
encode_strings dictionary (s ∷ strings) = do
  i ← unwrap (find dictionary s)
  indices ← encode_strings dictionary strings
  ok (i ∷ indices)

unfoldable pub dict_codec : EncodingType → List CodecOp
dict_codec index_type = push_data_section 1 ∷ push_data_section 2 ∷ dict_lookup index_type ∷ []

unfoldable pub string_pack_codec : List CodecOp
string_pack_codec = unpack_strings ∷ []

-- With a null map, the indices are assembled with it before they are looked up.
unfoldable pub dictionary_codec : EncodingType → (present : Option Bytes) → List CodecOp
unfolding dict_codec
dictionary_codec index_type none = dict_codec index_type
dictionary_codec index_type (some present) =
    push_data_section 3 ∷ nullable_op ∷ dict_codec index_type

unfoldable pub packed_codec : List CodecOp → (present : Option Bytes) → List CodecOp
packed_codec codec none = codec
packed_codec codec (some present) = codec ++ push_data_section 1 ∷ nullable_op ∷ []

-- `hex::decode(s).unwrap()` of every string
unfoldable pub decode_all :
    (decode_hex : Bytes → Option Bytes) → (strings : List Bytes) → Result (List Bytes)
decode_all decode_hex [] = ok []
decode_all decode_hex (s ∷ strings) = do
  bytes ← unwrap (decode_hex s)
  rest ← decode_all decode_hex strings
  ok (bytes ∷ rest)

-- `(lhex || uhex) && total_bytes / len > 5`
unfoldable pub packs_hex : (lhex uhex : Bool) (total_bytes len : ℕ) → Bool
packs_hex lhex uhex total_bytes len = (lhex || uhex) && ltb 5 (total_bytes / len)

unfoldable pub packed_column :
    (decode_hex : Bytes → Option Bytes) (name : Bytes) (strings : List Bytes) (len : ℕ)
    (lhex uhex : Bool) (total_bytes : ℕ) (present : Option Bytes)
    → Result Column
unfolding packs_hex decode_all packed_codec new_column string_pack_codec PackedStrings.into_vec
    PackedStrings.from_iterator PackedBytes.from_iterator
packed_column decode_hex name strings len lhex uhex total_bytes present =
    if packs_hex lhex uhex total_bytes len
    then (do
      decoded ← decode_all decode_hex strings
      new_column name len none (packed_codec (unhexpack_strings uhex total_bytes ∷ []) present)
          (section_u8 (PackedBytes.from_iterator decoded).bytes ∷ null_section present))
    else new_column name len none (packed_codec string_pack_codec present) (
        section_u8 (PackedStrings.into_vec (PackedStrings.from_iterator strings))
        ∷ null_section present)

unfoldable pub dictionary_column :
    (name : Bytes) (strings unique : List Bytes) (len : ℕ) (present : Option Bytes) → Result Column
unfolding sort_by bytes_lt push_all iter into_parts index_width build_dictionary encode_strings
    dictionary_codec new_column wrap_i64
dictionary_column name strings unique len present =
    let dict_size = length unique in
    let w = index_width dict_size in
    let packed_mapping = push_all default (sort_by bytes_lt unique) in
    let (dictionary_indices, dictionary_data) = into_parts packed_mapping in
    unwrap (iter packed_mapping) >>= λ mapping.
    encode_strings (build_dictionary w mapping 0 []) strings >>= λ indices.
    new_column name len (some (pos 0, wrap_i64 (pos dict_size)))
      (dictionary_codec (encoding_of w) present)
      (into_section w indices
        ∷ section_u64 dictionary_indices
        ∷ section_u8 dictionary_data
        ∷ null_section present)

module _ (enable_lz4 : Bool) (compress : DataSection → Bytes)
    (decode_hex : Bytes → Option Bytes) where
  unfoldable pub fast_build_string_column :
      (name : Bytes) (strings : List Bytes) (len : ℕ) (lhex uhex : Bool) (total_bytes : ℕ)
      (present : Option Bytes)
      → Result Column
  unfolding unique_loop packed_column dictionary_column lz4_encode
  fast_build_string_column name strings len lhex uhex total_bytes present =
      let column : Result Column = elim (unique_loop strings [] (len / 2)) [
        | none ↦ packed_column decode_hex name strings len lhex uhex total_bytes present
        | some unique ↦ dictionary_column name strings unique len present
      ] in
      column >>= λ column. lz4_encode enable_lz4 compress column
