-- ===== src/MemStore/Integers/Codecs.antt =====
-- src/mem_store/integers.rs: the codecs of columns of integers.
use locust_db.Prelude.{
  ℕ, ◌≡◌, refl, Bool, true, false, ◌||◌, Option, none, some, List, [], ◌∷◌, map, All, arith,
}
use locust_db.Prelude.Int.{ℤ, pos, IsI64}
use locust_db.Errors.{ok}
use locust_db.Stringpack.{Bytes}
use locust_db.Engine.DataTypes.Types.{EncodingType, nullable, is_nullable, cast_to_basic}
use locust_db.Engine.Operators.DeltaDecode
use locust_db.MemStore.Codec.{
  lz4, has_property, is_summation_preserving_op, is_order_preserving_op,
  is_elementwise_decodable_op, arg_count,
}
use locust_db.MemStore.Codec.Metadata.{new, output_type}
use locust_db.MemStore.Codec.Decode.{decode_loop}
use locust_db.MemStore.Column.{DataSection, encoding_type}
use locust_db.MemStore.Column.Decoding.{
  Value, numbers, nullable_numbers, other, section_value, value_planner, add_scalar, add_values,
  delta_value,
}
use locust_db.MemStore.Column.Lz4.{is_ok}
use locust_db.MemStore.Column.Build.{nonempty}
use locust_db.MemStore.Integers.Stored.{execute-delta_encode_values}
use locust_db.MemStore.Integers.{
  into_section, delta_encode_values, Width, encoding_of, int_codec, i64_codec, is_some,
  null_section,
}

abbrev pub null_types : Bool → List EncodingType
null_types true = EncodingType.u8 ∷ []
null_types false = []

pub int_codec-new :
    (w : Width) (offset : ℤ) (no_offset delta_encode null : Bool)
    → is_ok (new (int_codec w offset no_offset delta_encode null) (encoding_of w ∷ null_types null))
      ≡ true
unfolding int_codec new output_type has_property nullable is_nullable cast_to_basic
    is_summation_preserving_op is_order_preserving_op is_elementwise_decodable_op arg_count
int_codec-new w offset no_offset delta_encode null = ground arith

pub int_codec-lz4-new :
    (w : Width) (offset : ℤ) (no_offset delta_encode null : Bool) (n : ℕ)
    → is_ok (
        new
          (lz4 (encoding_of w) n ∷ int_codec w offset no_offset delta_encode null)
          (EncodingType.u8 ∷ null_types null))
      ≡ true
unfolding int_codec new output_type has_property nullable is_nullable cast_to_basic
    is_summation_preserving_op is_order_preserving_op is_elementwise_decodable_op arg_count
int_codec-lz4-new w offset no_offset delta_encode null n = ground arith

pub i64_codec-new :
    (delta_encode null : Bool)
    → (delta_encode || null) ≡ true
    → is_ok (new (i64_codec delta_encode null) (EncodingType.i64 ∷ null_types null)) ≡ true
unfolding i64_codec new output_type has_property nullable is_nullable cast_to_basic
    is_summation_preserving_op is_order_preserving_op is_elementwise_decodable_op arg_count
i64_codec-new delta_encode null h = ground arith

pub i64_codec-lz4-new :
    (delta_encode null : Bool) (n : ℕ)
    → is_ok (
        new
          (lz4 EncodingType.i64 n ∷ i64_codec delta_encode null)
          (EncodingType.u8 ∷ null_types null))
      ≡ true
unfolding i64_codec new output_type has_property nullable is_nullable cast_to_basic
    is_summation_preserving_op is_order_preserving_op is_elementwise_decodable_op arg_count
i64_codec-lz4-new delta_encode null n = ground arith

-- The decoded column: its values, and its null map.
abbrev pub restored : List ℤ → Option Bytes → Value
restored values none = numbers EncodingType.i64 values
restored values (some present) = nullable_numbers EncodingType.i64 values (map pos present)

-- The type of the numbers that a column stores.
abbrev pub stored_type : Option (Width × ℤ) → EncodingType
stored_type none = EncodingType.i64
stored_type (some (w, offset)) = encoding_of w

-- The decoded column, if its numbers are stored as `t`: without deltas the null map is put on the
-- numbers as they are stored, which 16 and 32 bits do not allow.
abbrev pub decoded_as : EncodingType → (delta_encode : Bool) → List ℤ → Option Bytes → Value
decoded_as EncodingType.u16 false values (some present) = other
decoded_as EncodingType.u32 false values (some present) = other
decoded_as t delta_encode values null = restored values null

pub decoded_as-none :
    (t : EncodingType) (delta_encode : Bool) (values : List ℤ)
    → decoded_as t delta_encode values none ≡ numbers EncodingType.i64 values
decoded_as-none t delta_encode values = ground arith

abbrev pub decode_deltas : List ℤ → List ℤ
decode_deltas xs = (DeltaDecode.execute true xs (record { decoded = []; previous = pos 0 })).decoded

-- What the codec of a column makes of the stored numbers.
abbrev pub offset_added : Bool → ℤ → List ℤ → List ℤ
offset_added true offset xs = xs
offset_added false offset xs = add_scalar xs offset

abbrev pub undone : Bool → List ℤ → List ℤ
undone true xs = decode_deltas xs
undone false xs = xs

module _ (decompress : Bytes → EncodingType → ℕ → DataSection) (first : DataSection)
    (t : EncodingType) (name : Bytes) where
  pub int_codec-decode_loop :
      (w : Width) (offset : ℤ) (no_offset delta_encode : Bool) (null : Option Bytes) (xs : List ℤ)
      → decode_loop
          (value_planner decompress (first ∷ null_section null))
          name
          (t ∷ null_types (is_some null))
          (int_codec w offset no_offset delta_encode (is_some null))
          (numbers (encoding_of w) xs ∷ [])
        ≡ ok (
            decoded_as
              (encoding_of w)
              delta_encode
              (undone delta_encode (offset_added no_offset offset xs))
              null
            ∷ [])
  unfolding int_codec decode_loop value_planner add_values delta_value
  int_codec-decode_loop w offset no_offset delta_encode null xs = ground arith

  pub i64_codec-decode_loop :
      (delta_encode : Bool) (null : Option Bytes) (xs : List ℤ)
      → decode_loop
          (value_planner decompress (first ∷ null_section null))
          name
          (t ∷ null_types (is_some null))
          (i64_codec delta_encode (is_some null))
          (numbers EncodingType.i64 xs ∷ [])
        ≡ ok (restored (undone delta_encode xs) null ∷ [])
  unfolding i64_codec decode_loop value_planner add_values delta_value
  i64_codec-decode_loop delta_encode null xs = ground arith

pub null_types_lem :
    (null : Option Bytes) → map encoding_type (null_section null) ≡ null_types (is_some null)
unfolding encoding_type
null_types_lem none = refl
null_types_lem (some present) = refl

pub int_codec-nonempty :
    (w : Width) (offset : ℤ) (no_offset delta_encode null : Bool)
    → nonempty (int_codec w offset no_offset delta_encode null) ≡ true
unfolding int_codec
int_codec-nonempty w offset no_offset delta_encode null = ground arith

pub undone_lem :
    (delta_encode : Bool) (values : List ℤ) (min max : ℤ)
    → All IsI64 values
    → undone delta_encode (delta_encode_values delta_encode values min max).0 ≡ values
unfolding delta_encode_values
undone_lem true values min max h = execute-delta_encode_values values min max h
undone_lem false [] min max h = refl
undone_lem false (v ∷ values) min max h = refl

pub encoding_type-into_section :
    (w : Width) (xs : List ℕ) → encoding_type (into_section w xs) ≡ encoding_of w
unfolding encoding_type
encoding_type-into_section w xs = ground arith

pub section_value-into_section :
    (w : Width) (xs : List ℕ)
    → section_value (into_section w xs) ≡ numbers (encoding_of w) (map pos xs)
section_value-into_section w xs = ground arith

pub i64_codec-nonempty :
    (delta_encode null : Bool)
    → (delta_encode || null) ≡ true
    → nonempty (i64_codec delta_encode null) ≡ true
unfolding i64_codec
i64_codec-nonempty delta_encode null h = ground arith
