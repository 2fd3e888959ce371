-- ===== src/MemStore/Codec/Metadata.antt =====
-- src/mem_store/codec.rs: `Codec`, a program with what is known of the column it decodes.
use locust_db.Prelude.{
  ℕ, Bool, true, Option, none, some, List, [], ◌∷◌, set, get_elem?, if◌then◌else◌,
}
use locust_db.Prelude.Int.{ℤ, ◌-ℤ◌}
use locust_db.Errors.{Result, ok, panic, unwrap, ◌>>=◌}
use locust_db.Stringpack.{Bytes}
use locust_db.Engine.DataTypes.Types.{
  EncodingType, BasicType, is_nullable, nullable, cast_to_basic, to_encoded,
}
use locust_db.MemStore.Codec.{
  CodecOp, nullable_op, add, to_i64, push_data_section, dict_lookup, lz4, unpack_strings,
  unhexpack_strings, unknown, has_property, is_summation_preserving_op, is_order_preserving_op,
  is_elementwise_decodable_op,
}

pub record Codec : Type 0 where
  pub ops : List CodecOp
  pub column_name : Bytes
  pub section_types : List EncodingType
  pub decoded_type : BasicType
  pub is_summation_preserving : Bool
  pub is_order_preserving : Bool
  pub is_fixed_width : Bool

-- "COLUMN_UNSPECIFIED"
abbrev pub column_unspecified : Bytes
column_unspecified =
    67 ∷ 79 ∷ 76 ∷ 85 ∷ 77 ∷ 78 ∷ 95 ∷ 85 ∷ 78 ∷ 83 ∷ 80 ∷ 69 ∷ 67 ∷ 73 ∷ 70 ∷ 73 ∷ 69 ∷ 68 ∷ []

-- `type_stack.pop()` and `type_stack.pop().unwrap()`, of a vector held with its end first
abbrev pub pop_type : List EncodingType → List EncodingType
pop_type [] = []
pop_type (t ∷ ts) = ts

abbrev pub last_type : List EncodingType → Result EncodingType
last_type [] = panic
last_type (t ∷ ts) = ok t

unfoldable pub output_type_step :
    CodecOp → (section_types type_stack : List EncodingType) → Result (List EncodingType)
output_type_step nullable_op sections ts = do
  t ← last_type (pop_type ts)
  u ← nullable t
  ok (u ∷ pop_type (pop_type ts))
output_type_step (dict_lookup _) sections ts = do
  t ← last_type (pop_type (pop_type ts))
  ok (
      (if is_nullable t then EncodingType.nullable_str else EncodingType.str)
      ∷ pop_type (pop_type (pop_type ts)))
output_type_step (lz4 t _) sections ts = ok (t ∷ ts)
output_type_step unpack_strings sections ts = ok (EncodingType.str ∷ ts)
output_type_step (unhexpack_strings _ _) sections ts = ok (EncodingType.str ∷ ts)
output_type_step (push_data_section i) sections ts = do
  t ← unwrap (get_elem? sections i)
  ok (t ∷ ts)
output_type_step unknown sections ts = panic
-- `Add`, `Delta` and `ToI64`
output_type_step _ sections ts = do
  t ← last_type ts
  ok ((if is_nullable t then EncodingType.nullable_i64 else EncodingType.i64) ∷ pop_type ts)

unfoldable pub output_type_loop :
    List CodecOp → (section_types type_stack : List EncodingType) → Result BasicType
unfolding output_type_step
output_type_loop [] sections ts = last_type ts >>= cast_to_basic
output_type_loop (op ∷ ops) sections ts =
    output_type_step op sections ts >>= λ ts. output_type_loop ops sections ts

unfoldable pub output_type : List CodecOp → (section_types : List EncodingType) → Result BasicType
unfolding output_type_loop
output_type ops sections = do
  t ← unwrap (get_elem? sections 0)
  output_type_loop ops sections (t ∷ [])

unfoldable pub new : List CodecOp → List EncodingType → Result Codec
unfolding output_type has_property
new ops section_types = do
  decoded_type ← output_type ops section_types
  summation ← has_property ops is_summation_preserving_op
  order ← has_property ops is_order_preserving_op
  fixed_width ← has_property ops is_elementwise_decodable_op
  ok record {
    ops = ops;
    column_name = column_unspecified;
    section_types = section_types;
    decoded_type = decoded_type;
    is_summation_preserving = summation;
    is_order_preserving = order;
    is_fixed_width = fixed_width;
  }

unfoldable pub identity : BasicType → Codec
identity t = record {
  ops = [];
  column_name = column_unspecified;
  section_types = to_encoded t ∷ [];
  decoded_type = t;
  is_summation_preserving = true;
  is_order_preserving = true;
  is_fixed_width = true;
}

unfoldable pub integer_offset : EncodingType → ℤ → Result Codec
unfolding new
integer_offset t offset = new (add t offset ∷ []) (t ∷ [])

unfoldable pub integer_cast : EncodingType → Result Codec
unfolding new
integer_cast t = new (to_i64 t ∷ []) (t ∷ [])

unfoldable pub opaque : EncodingType → BasicType → (summation order fixed_width : Bool) → Codec
opaque encoding_type decoded_type summation order fixed_width = record {
  ops = unknown ∷ [];
  column_name = column_unspecified;
  section_types = encoding_type ∷ [];
  decoded_type = decoded_type;
  is_summation_preserving = summation;
  is_order_preserving = order;
  is_fixed_width = fixed_width;
}

unfoldable pub with_lz4 : Codec → (decoded_length : ℕ) → Result Codec
unfolding new
with_lz4 codec decoded_length = do
  t ← unwrap (get_elem? codec.section_types 0)
  wrapped ← new (lz4 t decoded_length ∷ codec.ops) (set codec.section_types 0 EncodingType.u8)
  ok (record wrapped { column_name = codec.column_name })

-- The loop: the ops that are no `LZ4`, and the type of the last one that is.
unfoldable pub strip_lz4 : List CodecOp → Option EncodingType → List CodecOp × Option EncodingType
strip_lz4 [] decoded = ([], decoded)
strip_lz4 (lz4 t _ ∷ ops) decoded = strip_lz4 ops (some t)
strip_lz4 (op ∷ ops) decoded = let rest = strip_lz4 ops decoded in (op ∷ rest.0, rest.1)

unfoldable pub without_lz4 : Codec → Result Codec
unfolding new identity strip_lz4
without_lz4 codec =
    let (ops, decoded) = strip_lz4 codec.ops none in
    let sections : List EncodingType = elim decoded [
      | none ↦ codec.section_types
      | some t ↦ set codec.section_types 0 t
    ] in
    elim ops [
      | [] ↦ ok (record (identity codec.decoded_type) { column_name = codec.column_name })
      | op ∷ rest ↦ new (op ∷ rest) sections >>= λ stripped.
          ok (record stripped { column_name = codec.column_name })
    ]

unfoldable pub encode_int : Codec → ℤ → Result ℤ
unfolding ◌-ℤ◌
encode_int codec x = elim codec.ops [
  | add _ y ∷ [] ↦ ok (x -ℤ y)
  | to_i64 _ ∷ [] ↦ ok x
  | _ ↦ panic
]
