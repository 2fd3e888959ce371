-- ===== src/Tests/Columns.antt =====
-- Runs of src/mem_store: codecs, columns of integers and their builder.
use locust_db.Prelude.{
  ℕ, ◌≤◌, ◌≡◌, refl, true, false, Option, none, some, List, [], ◌∷◌, ◌++◌, arith,
}
use locust_db.Prelude.Int.{ℤ, pos, negsuc}
use locust_db.Errors.{ok}
use locust_db.Engine.DataTypes.Types.{EncodingType, BasicType, cast_to_basic, is_nullable}
use locust_db.Engine.Operators.DeltaDecode
use locust_db.Engine.Operators.DeltaDecode.{DeltaDecode}
use locust_db.Engine.Operators.DeltaDecode.Batches.{execute-streaming}
use locust_db.MemStore.Codec.{
  CodecOp, add, lz4, push_data_section, dict_lookup, is_elementwise_decodable_op, has_property,
  ensure_property, arg_count, is_summation_preserving_op, is_order_preserving_op,
}
use locust_db.MemStore.Codec.Metadata.{Codec}
use locust_db.MemStore.Codec.Decode.{decode, ensure_fixed_width}
use locust_db.MemStore.Codec.FixedWidth.{ensure_fixed_width-decode}
use locust_db.MemStore.Column.{section_u8, Column}
use locust_db.MemStore.Column.Decoding.{
  Value, numbers, nullable_numbers, value_planner, decode_column,
}
use locust_db.MemStore.Integers.{choose_width, interval, new_boxed}
use locust_db.MemStore.Integers.Fits.{Within}
use locust_db.MemStore.Integers.Roundtrip.{new_boxed-decode_column}
use locust_db.MemStore.ColumnBuilder.{push, default, push_all, finalize}
use locust_db.MemStore.ColumnBuilder.Bounds.{finalize-push_all}
use locust_db.Tests.Compression.{compress, decompress, decompress-compress, IsI64-small}

-- The codec of the unit test of `ensure_property`.
abbrev test_codec : List CodecOp
test_codec =
    lz4 EncodingType.u16 20
    ∷ push_data_section 1
    ∷ lz4 EncodingType.u64 1
    ∷ push_data_section 2
    ∷ lz4 EncodingType.u8 3
    ∷ dict_lookup EncodingType.u16
    ∷ []

test_ensure_property :
    ensure_property test_codec is_elementwise_decodable_op
    ≡ ok (
      lz4 EncodingType.u16 20 ∷ [],
      push_data_section 1
          ∷ lz4 EncodingType.u64 1
          ∷ push_data_section 2
          ∷ lz4 EncodingType.u8 3
          ∷ dict_lookup EncodingType.u16
          ∷ [],
    )
unfolding ensure_property is_elementwise_decodable_op arg_count
test_ensure_property = refl

-- An elementwise decodable codec comes back in reverse.
reversed :
    ensure_property
      (push_data_section 1 ∷ push_data_section 2 ∷ dict_lookup EncodingType.u8 ∷ [])
      is_elementwise_decodable_op
    ≡ ok ([], dict_lookup EncodingType.u8 ∷ push_data_section 2 ∷ push_data_section 1 ∷ [])
unfolding ensure_property is_elementwise_decodable_op arg_count
reversed = refl

execute-streaming_example :
    ((DeltaDecode.execute true
          (pos 1 ∷ pos 2 ∷ [])
          (record { decoded = []; previous = pos 5 })).decoded
        ++ (DeltaDecode.execute true (negsuc 0 ∷ []) (
            DeltaDecode.execute true
              (pos 1 ∷ pos 2 ∷ [])
              (record { decoded = []; previous = pos 5 }))).decoded
      ≡ (DeltaDecode.execute true
          (pos 1 ∷ pos 2 ∷ negsuc 0 ∷ [])
          (record { decoded = []; previous = pos 5 })).decoded)
    × ((DeltaDecode.execute true (negsuc 0 ∷ []) (
          DeltaDecode.execute true
            (pos 1 ∷ pos 2 ∷ [])
            (record { decoded = []; previous = pos 5 }))).previous
        ≡ (DeltaDecode.execute true
            (pos 1 ∷ pos 2 ∷ negsuc 0 ∷ [])
            (record { decoded = []; previous = pos 5 })).previous)
execute-streaming_example =
    execute-streaming (pos 1 ∷ pos 2 ∷ []) (negsuc 0 ∷ [])
      (record { decoded = []; previous = pos 5 })

abbrev elems : List (Option ℤ)
elems = some (pos 100) ∷ none ∷ some (pos 103) ∷ []

-- With nulls, of which the builder's 0 is the least value: 8 bits.
finalize-push_all_example :
    (column : Column) × (finalize true compress (push_all default elems) (99 ∷ []) (some (5 ∷ []))
      ≡ ok column)
    × (decode_column decompress column
        ≡ ok (nullable_numbers EncodingType.i64 (pos 100 ∷ pos 0 ∷ pos 103 ∷ []) (pos 5 ∷ [])))
    × (column.len ≡ 3)
unfolding push_all push choose_width interval
finalize-push_all_example =
    finalize-push_all true compress decompress decompress-compress elems (99 ∷ []) (some (5 ∷ [])) (
      IsI64-small 100 (omega arith),
      (IsI64-small 0 (omega arith), (IsI64-small 103 (omega arith), tt)),
    )

within : (n : ℕ) → 1000 ≤ n → n ≤ 1003 → Within (pos 1000) (pos 1003) (pos n)
within n h k = record {
  i64 = IsI64-small n (omega arith);
  at_least = omega arith;
  at_most = omega arith;
}

new_boxed-decode_column_example :
    (column : Column) × (new_boxed true compress
        (99 ∷ [])
        (pos 1000 ∷ pos 1003 ∷ [])
        (pos 1000)
        (pos 1003)
        true
        none
      ≡ ok column)
    × (decode_column decompress column ≡ ok (numbers EncodingType.i64 (pos 1000 ∷ pos 1003 ∷ [])))
    × (column.len ≡ 2)
unfolding choose_width interval
new_boxed-decode_column_example =
    new_boxed-decode_column true compress decompress decompress-compress (99 ∷ [])
      (pos 1000 ∷ pos 1003 ∷ []) (pos 1000) (pos 1003) true none (IsI64-small 1000 (omega arith))
      (IsI64-small 1003 (omega arith))
      (within 1000 (omega arith) (omega arith), (within 1003 (omega arith) (omega arith), tt))

-- 16-bit numbers behind lz4, with an offset.
abbrev compressed : Codec
compressed = record {
  ops = lz4 EncodingType.u16 2 ∷ add EncodingType.u16 (pos 100) ∷ [];
  column_name = 99 ∷ [];
  section_types = EncodingType.u8 ∷ [];
  decoded_type = BasicType.integer;
  is_summation_preserving = false;
  is_order_preserving = false;
  is_fixed_width = false;
}

abbrev offset_codec : Codec
offset_codec = record {
  ops = add EncodingType.u16 (pos 100) ∷ [];
  column_name = 99 ∷ [];
  section_types = EncodingType.u8 ∷ [];
  decoded_type = BasicType.integer;
  is_summation_preserving = false;
  is_order_preserving = true;
  is_fixed_width = true;
}

abbrev plan : Value
plan = numbers EncodingType.u8 (pos 7 ∷ pos 9 ∷ [])

abbrev unpacked : Value
unpacked = numbers EncodingType.u16 (pos 7 ∷ pos 9 ∷ [])

not_fixed_width : has_property compressed.ops is_elementwise_decodable_op ≡ ok false
unfolding has_property is_elementwise_decodable_op arg_count
not_fixed_width = refl

fixed_width :
    ensure_fixed_width (value_planner decompress (section_u8 (7 ∷ 9 ∷ []) ∷ [])) compressed plan
    ≡ ok (offset_codec, unpacked)
unfolding ensure_fixed_width is_elementwise_decodable_op is_summation_preserving_op
    is_order_preserving_op arg_count value_planner cast_to_basic is_nullable
fixed_width = refl

ensure_fixed_width-decode_example :
    decode (value_planner decompress (section_u8 (7 ∷ 9 ∷ []) ∷ [])) offset_codec unpacked
    ≡ decode (value_planner decompress (section_u8 (7 ∷ 9 ∷ []) ∷ [])) compressed plan
ensure_fixed_width-decode_example =
    ensure_fixed_width-decode (value_planner decompress (section_u8 (7 ∷ 9 ∷ []) ∷ [])) compressed
      plan offset_codec unpacked not_fixed_width fixed_width
