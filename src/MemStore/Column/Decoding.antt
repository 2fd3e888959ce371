-- ===== src/MemStore/Column/Decoding.antt =====
-- Running the plan that a codec makes, on the sections of a column: the planner's calls, answered by
-- what the operators they plan compute.
use locust_db.Prelude.{
  if◌then◌else◌, Bool, false, ℕ, ◌+◌, true, Option, none, some, length, List, [], ◌∷◌, map,
  get_elem?,
}
use locust_db.Prelude.Int.{ℤ, pos, pos_part, ◌+ℤ◌, wrap_i64}
use locust_db.Errors.{Result, ok, panic}
use locust_db.Stringpack.{Bytes}
use locust_db.Engine.DataTypes.Types.{EncodingType}
use locust_db.Engine.Operators.DeltaDecode
use locust_db.Engine.Operators.DictLookup
use locust_db.Engine.Operators.UnpackStrings
use locust_db.MemStore.Codec.Decode.{Planner, decode}
use locust_db.MemStore.Column.{
  DataSection, section_u8, section_u16, section_u32, section_u64, section_i64, section_f64,
  section_null, Column,
}

-- The contents of a buffer of numbers, strings or floats; `other` is all else, and what a plan leaves
-- that the executor refuses to run.
pub data Value : Type 0 where
  numbers : EncodingType → List ℤ → Value
  nullable_numbers : EncodingType → List ℤ → (present : List ℤ) → Value
  strings : List Bytes → Value
  nullable_strings : List Bytes → (present : List ℤ) → Value
  floats : List ℕ → Value
  nulls : ℕ → Value
  scalar : ℤ → Value
  other : Value

-- A section, as the buffer that `ReadColumnData` fills.
abbrev pub section_value : DataSection → Value
section_value (section_u8 x) = numbers EncodingType.u8 (map pos x)
section_value (section_u16 x) = numbers EncodingType.u16 (map pos x)
section_value (section_u32 x) = numbers EncodingType.u32 (map pos x)
section_value (section_u64 x) = numbers EncodingType.u64 (map pos x)
section_value (section_i64 x) = numbers EncodingType.i64 x
section_value (section_f64 x) = floats x
section_value (section_null n) = nulls n

-- `Addition::perform` with a scalar (src/engine/operators/numeric_operators.rs)
unfoldable pub add_scalar : List ℤ → ℤ → List ℤ
unfolding ◌+ℤ◌ wrap_i64
add_scalar [] x = []
add_scalar (v ∷ values) x = wrap_i64 (v +ℤ x) ∷ add_scalar values x

unfoldable pub add_values : Value → Value → Value
unfolding add_scalar
add_values (numbers t xs) (scalar x) = numbers EncodingType.i64 (add_scalar xs x)
add_values (nullable_numbers t xs present) (scalar x) =
    nullable_numbers EncodingType.i64 (add_scalar xs x) present
add_values _ _ = other

-- `DeltaDecode`, as planned, with `previous: 0`
unfoldable pub delta_value : Value → Value
unfolding DeltaDecode.execute
delta_value (numbers t xs) =
    numbers EncodingType.i64
      (DeltaDecode.execute true xs (record { decoded = []; previous = pos 0 })).decoded
delta_value _ = other

-- The cast of unsigned numbers of at most 32 bits to i64 keeps them.
abbrev cast_value : Value → EncodingType → Value
cast_value (numbers t xs) u = numbers u xs
cast_value (nullable_numbers t xs present) u = nullable_numbers u xs present
cast_value _ u = other

abbrev as_u8_value : Value → Result Value
as_u8_value (numbers EncodingType.u8 xs) = ok (numbers EncodingType.u8 xs)
as_u8_value _ = panic

abbrev as_u64_value : Value → Result Value
as_u64_value (numbers EncodingType.u64 xs) = ok (numbers EncodingType.u64 xs)
as_u64_value _ = panic

-- `AssembleNullable` is made for bytes, i64 and strings, and is a fatal error for all else.
abbrev nullable_value : Value → Value → Value
nullable_value (numbers EncodingType.u8 xs) (numbers u present) =
    nullable_numbers EncodingType.u8 xs present
nullable_value (numbers EncodingType.i64 xs) (numbers u present) =
    nullable_numbers EncodingType.i64 xs present
nullable_value (strings ss) (numbers u present) = nullable_strings ss present
nullable_value _ _ = other

abbrev strings_value : Option (List Bytes) → Value
strings_value none = other
strings_value (some ss) = strings ss

-- The planner looks up nullable indices as plain ones, and then assembles the null map.
abbrev with_present : Value → List ℤ → Value
with_present (strings ss) present = nullable_strings ss present
with_present _ present = other

abbrev lookup_numbers : List ℤ → List ℤ → List ℤ → Value
lookup_numbers indices dict_indices dict_data = strings_value (
    DictLookup.execute true (map pos_part dict_indices) (map pos_part dict_data)
      (map pos_part indices) [])

unfoldable pub lookup_value : Value → Value → Value → Value
unfolding DictLookup.execute
lookup_value (numbers t xs) (numbers u dict_indices) (numbers v dict_data) =
    lookup_numbers xs dict_indices dict_data
lookup_value (nullable_numbers t xs present) (numbers u dict_indices) (numbers v dict_data) =
    with_present (lookup_numbers xs dict_indices dict_data) present
lookup_value _ _ _ = other

abbrev pub unpacked : Option UnpackStrings.UnpackStrings → Value
unpacked none = other
unpacked (some op) = strings op.decoded

-- A vector, and fuel, for as many strings as there are bytes: each takes at least one. The vector
-- never grows.
abbrev pub unpack_bytes : Bytes → Value
unpack_bytes bytes = unpacked (
    UnpackStrings.execute (λ n. n) (length bytes + 1) (UnpackStrings.init (length bytes + 1) bytes))

unfoldable pub unpack_value : Value → Value
unfolding UnpackStrings.execute UnpackStrings.init
unpack_value (numbers t bytes) = unpack_bytes (map pos_part bytes)
unpack_value _ = other

abbrev pub section_at : List DataSection → ℕ → Value
section_at sections i = elim (get_elem? sections i) [
  | none ↦ other
  | some section ↦ section_value section
]

-- `LZ4Decode` is made for integers only.
abbrev pub is_integer : EncodingType → Bool
is_integer EncodingType.u8 = true
is_integer EncodingType.u16 = true
is_integer EncodingType.u32 = true
is_integer EncodingType.u64 = true
is_integer EncodingType.i64 = true
is_integer _ = false

module _ (decompress : Bytes → EncodingType → ℕ → DataSection) where
  abbrev lz4_value : Value → ℕ → EncodingType → Value
  lz4_value (numbers t xs) n u =
      if is_integer u then section_value (decompress (map pos_part xs) u n) else other
  lz4_value _ n u = other

  unfoldable pub value_planner : List DataSection → Planner Value
  unfolding add_values delta_value lookup_value unpack_value
  value_planner sections = record {
    as_u8 = as_u8_value;
    as_u64 = as_u64_value;
    assemble_nullable = nullable_value;
    scalar_i64 = scalar;
    add_plan = add_values;
    delta_decode = delta_value;
    cast = cast_value;
    column_section = λ name i t. section_at sections i;
    lookup = lookup_value;
    lz4_decode = lz4_value;
    unpack = unpack_value;
    unhexpack = λ v upper total_bytes. other;
  }

  -- A whole column, from its section 0.
  unfoldable pub decode_column : Column → Result Value
  unfolding value_planner decode
  decode_column column =
      decode (value_planner column.sections) column.codec (section_at column.sections 0)
