-- ===== src/MemStore/RawCol/Finalize.antt =====
-- src/mem_store/raw_col.rs: what a column in memory becomes, on each of its four paths.
use locust_db.Prelude.{
  [], ◌/◌, ℕ, ◌≡◌, refl, ap, ap₂, ◌∙◌, Bool, true, false, inl, inr, Bool-cases, Option, none, List,
  map, length, length-map, All, arith, if◌then◌else◌,
}
use locust_db.Prelude.Int.{ℤ}
use locust_db.Errors.{ok, unwrap, ◌>>=◌}
use locust_db.Stringpack.{Bytes}
use locust_db.Stringpack.IndexedPackedStrings
use locust_db.Stringpack.IndexedPackedStrings.Roundtrip.{iter-push_all}
use locust_db.Engine.DataTypes.Types.{EncodingType}
use locust_db.MemStore.Codec.Metadata.{identity}
use locust_db.MemStore.Codec.Decode.{decode}
use locust_db.MemStore.Column.{DataSection, len, encoding_type, null_column}
use locust_db.MemStore.Column.Decoding.{
  Value, numbers, strings, floats, nulls, other, decode_column,
}
use locust_db.MemStore.Column.Build.{Yields}
use locust_db.MemStore.ColumnBuilder
use locust_db.MemStore.ColumnBuilder.Bounds.{finalize-push_all}
use locust_db.MemStore.ColumnBuilder.StringCol
use locust_db.MemStore.ColumnBuilder.FloatCol
use locust_db.MemStore.Floats.Roundtrip.{is_compressed, new_boxed-Yields}
use locust_db.MemStore.Strings.{packs_hex, unique_loop, fast_build_string_column}
use locust_db.MemStore.Strings.Sizes.{total, IsShort-Fits}
use locust_db.MemStore.Strings.Roundtrip.{found-none, fast_build_string_column-decode_column}
use locust_db.MemStore.Integers.Codecs.{decoded_as-none, stored_type}
use locust_db.Ingest.RawCol.{RawVal, MixedCol, ColType}
use locust_db.Ingest.RawCol.Typed.{Covers, IsTyped}
use locust_db.MemStore.RawCol.{push_ints, push_floats, text_of, push_texts, finalize}
use locust_db.MemStore.RawCol.Builders.{
  Stores, int_of, float_of, IsNumber, push_ints_lem, push_floats_lem, push_texts-Counted, plus_zero,
  map-map, map-int_of,
}

module _ (int_to_float : ℤ → ℕ) (float_to_string : ℕ → Bytes) where
  -- What a column shows when it is read: as strings if it holds one, else as floats if it holds one,
  -- else as integers, and a null in it as the default of these.
  abbrev pub shown : MixedCol → Value
  shown col =
      if col.types.contains_string
      then strings (map (text_of float_to_string) col.values)
      else if col.types.contains_float
      then floats (map (float_of int_to_float) col.values)
      else if col.types.contains_int
      then numbers EncodingType.i64 (map (λ v. ColumnBuilder.unwrap_or_zero (int_of v)) col.values)
      else nulls (length col.values)

  module _ (enable_lz4 : Bool) (compress : DataSection → Bytes)
      (decompress : Bytes → EncodingType → ℕ → DataSection)
      (hl : (section : DataSection)
        → decompress (compress section) (encoding_type section) (len section) ≡ section)
      (decode_hex : Bytes → Option Bytes) where
    texts-Yields :
        (values : List RawVal) (name : Bytes)
        → Stores (map (text_of float_to_string) values)
        → Yields enable_lz4 compress decompress
            (StringCol.finalize enable_lz4 compress decode_hex
              (push_texts float_to_string values StringCol.default)
              name
              none)
            (strings (map (text_of float_to_string) values))
            (length values)
    unfolding StringCol.finalize
    texts-Yields values name h =
        let ss = map (text_of float_to_string) values in
        let counted = push_texts-Counted float_to_string values StringCol.default in
        let (iterated, rows) =
          iter-push_all ss (IsShort-Fits 0 ss h.short (omega (arith, h.bytes))) in
        let builder = push_texts float_to_string values StringCol.default in
        let bytes : builder.string_bytes ≡ total ss = counted.bytes ∙ plus_zero (total ss) in
        let not_hex : packs_hex builder.lhex builder.uhex builder.string_bytes (length ss) ≡ false =
          rw (counted.lower, counted.upper, bytes) h.not_hex in
        let built =
          fast_build_string_column-decode_column enable_lz4 compress decompress hl decode_hex name
            ss builder.lhex builder.uhex builder.string_bytes none not_hex h.short h.bytes h.rows in
        let (column, e, decoded, l) = built in
        (
          column,
          ap₂
                (λ it n. unwrap it >>= λ strings.
                  fast_build_string_column enable_lz4 compress decode_hex name strings n
                    builder.lhex builder.uhex builder.string_bytes none)
                (ap IndexedPackedStrings.iter counted.packed ∙ iterated)
                (ap IndexedPackedStrings.len counted.packed ∙ rows)
              ∙ e,
          decoded ∙ ap ok (found-none (unique_loop ss [] (length ss / 2)) ss),
          l ∙ length-map (text_of float_to_string) values,
        )

    floats-Yields :
        (types : ColType) (values : List RawVal) (name : Bytes)
        → types.contains_string ≡ false
        → All (Covers types) values
        → is_compressed enable_lz4 compress (map (float_of int_to_float) values) ≡ false
        → Yields enable_lz4 compress decompress
            (push_floats int_to_float values FloatCol.default >>= λ builder.
              FloatCol.finalize enable_lz4 compress builder name none)
            (floats (map (float_of int_to_float) values))
            (length values)
    unfolding FloatCol.finalize
    floats-Yields types values name h c plain =
        let fs = map (float_of int_to_float) values in
        let (column, e, decoded, rows) = new_boxed-Yields enable_lz4 compress decompress name fs in
        (
          column,
          rw (push_floats_lem int_to_float types values FloatCol.default h c) e,
          decoded ∙ ap (λ compressed. ok (if compressed then other else floats fs)) plain,
          rows ∙ length-map (float_of int_to_float) values,
        )

    ints-Yields :
        (types : ColType) (values : List RawVal) (name : Bytes)
        → types.contains_string ≡ false
        → types.contains_float ≡ false
        → All (Covers types) values
        → All IsNumber values
        → Yields enable_lz4 compress decompress
            (push_ints values ColumnBuilder.default >>= λ builder.
              ColumnBuilder.finalize enable_lz4 compress builder name none)
            (numbers EncodingType.i64 (map (λ v. ColumnBuilder.unwrap_or_zero (int_of v)) values))
            (length values)
    ints-Yields types values name h k c i64 =
        let elems = map int_of values in
        let (column, e, decoded, rows) =
          finalize-push_all enable_lz4 compress decompress hl elems name none
            (map-int_of values i64) in
        (
          column,
          rw (push_ints_lem types values ColumnBuilder.default h k c) e,
          decoded
              ∙ ap ok (decoded_as-none (stored_type _) _ (map ColumnBuilder.unwrap_or_zero elems))
              ∙ ap (λ xs. ok (numbers EncodingType.i64 xs)) (map-map _ int_of values),
          rows ∙ length-map int_of values,
        )

    -- With any compressor of sections that a decompressor undoes, finalizing a column whose flags
    -- cover its values, and whose integers are i64, does not panic: it makes a column of as many
    -- rows. Decoded, that is the values as strings if the column has met one (provided that these
    -- strings fit the packed formats and are not packed as hex), else as floats if it has met one
    -- (provided that lz4 does not compress them), else as integers with 0 for null, else nulls.
    pub finalize-decode_column :
        (col : MixedCol) (name : Bytes)
        → IsTyped col
        → All IsNumber col.values
        → (col.types.contains_string ≡ true → Stores (map (text_of float_to_string) col.values))
        → (col.types.contains_string ≡ false
            → col.types.contains_float ≡ true
            → is_compressed enable_lz4 compress (map (float_of int_to_float) col.values) ≡ false)
        → Yields enable_lz4 compress decompress
            (finalize enable_lz4 compress decode_hex int_to_float float_to_string col name)
            (shown col)
            (length col.values)
    unfolding finalize null_column decode_column identity decode
    finalize-decode_column col name typed i64 stores plain =
        elim (Bool-cases col.types.contains_string) [
          | inl s ↦ rw s (texts-Yields col.values name (stores s))
          | inr s ↦ elim (Bool-cases col.types.contains_float) [
            | inl f ↦ rw (s, f) (floats-Yields col.types col.values name s typed (plain s f))
            | inr f ↦ elim (Bool-cases col.types.contains_int) [
              | inl i ↦ rw (s, f, i) (ints-Yields col.types col.values name s f typed i64)
              | inr i ↦ rw (s, f, i) (null_column name (length col.values), refl, refl, refl)
            ]
          ]
        ]
