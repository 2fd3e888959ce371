-- ===== src/MemStore/Integers.antt =====
-- src/mem_store/integers.rs: choosing how to store a column of integers. The i64 arithmetic wraps.
pub mod Codecs
pub mod Fits
pub mod Stored
pub mod Roundtrip
use locust_db.Prelude.{
  ℕ, ◌+◌, ◌-◌, ◌%◌, ◌^◌, Bool, true, false, ◌&&◌, Option, none, some, List, [], ◌∷◌, ◌++◌, map,
  length, leb, if◌then◌else◌,
}
use locust_db.Prelude.Int.{ℤ, pos, negsuc, pos_part, neg_part, ◌-ℤ◌, ltb_ℤ, leb_ℤ, eq_ℤ, wrap_i64}
use locust_db.Errors.{Result, ok, err, panic, unwrap, ◌>>=◌}
use locust_db.Stringpack.{Bytes}
use locust_db.Engine.DataTypes.Types.{EncodingType}
use locust_db.MemStore.Codec.{CodecOp, nullable_op, add, delta, to_i64, push_data_section}
use locust_db.MemStore.Column.{
  DataSection, section_u8, section_u16, section_u32, section_i64, Column, new_column, lz4_encode,
}

-- The differences, with the least and the greatest element of what is stored.
unfoldable pub delta_encode_loop : (previous : ℤ) (values : List ℤ) (min max : ℤ) → List ℤ × ℤ × ℤ
unfolding ◌-ℤ◌ wrap_i64
delta_encode_loop previous [] min max = ([], min, max)
delta_encode_loop previous (tmp ∷ values) min max =
    let curr = wrap_i64 (tmp -ℤ previous) in
    let max' = if ltb_ℤ max curr then curr else max in
    let min' = if ltb_ℤ curr min then curr else min in
    let (rest, least, greatest) = delta_encode_loop tmp values min' max' in
    (curr ∷ rest, least, greatest)

-- `if delta_encode && !values.is_empty()`
unfoldable pub delta_encode_values : Bool → List ℤ → (min max : ℤ) → List ℤ × ℤ × ℤ
unfolding delta_encode_loop
delta_encode_values delta_encode [] min max = ([], min, max)
delta_encode_values false (v ∷ values) min max = (v ∷ values, min, max)
delta_encode_values true (v ∷ values) min max =
    let (rest, least, greatest) = delta_encode_loop v values v v in (v ∷ rest, least, greatest)

-- `a as u64`
abbrev pub as_u64 : ℤ → ℕ
as_u64 a = (pos_part a + (2 ^ 64 - neg_part a)) % 2 ^ 64

unfoldable pub interval : (min max : ℤ) → ℕ
unfolding ◌-ℤ◌ wrap_i64
interval min max =
    if ltb_ℤ min (pos 0) && ltb_ℤ (pos 0) max
    then (as_u64 max + as_u64 (wrap_i64 (pos 0 -ℤ min))) % 2 ^ 64
    else as_u64 (wrap_i64 (max -ℤ min))

-- The types that `create_col` is called at.
pub data Width : Type 0 where
  width_8 width_16 width_32 : Width

abbrev pub max_value : Width → ℕ
max_value width_8 = 2 ^ 8 - 1
max_value width_16 = 2 ^ 16 - 1
max_value width_32 = 2 ^ 32 - 1

abbrev pub into_section : Width → List ℕ → DataSection
into_section width_8 values = section_u8 values
into_section width_16 values = section_u16 values
into_section width_32 values = section_u32 values

abbrev pub encoding_of : Width → EncodingType
encoding_of width_8 = EncodingType.u8
encoding_of width_16 = EncodingType.u16
encoding_of width_32 = EncodingType.u32

-- `encode`; `T::from` fails out of range, which is `unreachable!`
unfoldable pub encode : Width → (values : List ℤ) (offset : ℤ) → Result (List ℕ)
unfolding ◌-ℤ◌ wrap_i64
encode w [] offset = ok []
encode w (v ∷ values) offset = elim (wrap_i64 (v -ℤ offset)) [
  | negsuc _ ↦ panic
  | pos n ↦
      let rest = encode w values offset in
      if leb n (max_value w) then (rest >>= λ encoded. ok (n ∷ encoded)) else panic
]

-- `match (offset == 0, delta_encode)`, with and without a null map
unfoldable pub int_codec : Width → (offset : ℤ) (no_offset delta_encode null : Bool) → List CodecOp
int_codec w offset true true true = delta (encoding_of w) ∷ push_data_section 1 ∷ nullable_op ∷ []
int_codec w offset true false true = push_data_section 1 ∷ nullable_op ∷ to_i64 (encoding_of w) ∷ []
int_codec w offset false true true =
    add (encoding_of w) offset ∷ delta EncodingType.i64 ∷ push_data_section 1 ∷ nullable_op ∷ []
int_codec w offset false false true =
    push_data_section 1 ∷ nullable_op ∷ add (encoding_of w) offset ∷ []
int_codec w offset true true false = delta (encoding_of w) ∷ []
int_codec w offset true false false = to_i64 (encoding_of w) ∷ []
int_codec w offset false true false = add (encoding_of w) offset ∷ delta EncodingType.i64 ∷ []
int_codec w offset false false false = add (encoding_of w) offset ∷ []

abbrev pub is_some : Option Bytes → Bool
is_some none = false
is_some (some present) = true

-- The section of the null map, behind the values.
abbrev pub null_section : Option Bytes → List DataSection
null_section none = []
null_section (some present) = section_u8 present ∷ []

unfoldable pub create_col :
    Width
    → (name : Bytes) (values : List ℤ) (offset min max : ℤ) (delta_encode : Bool)
      (null_map : Option Bytes)
    → Result Column
unfolding encode int_codec new_column ◌-ℤ◌ wrap_i64
create_col w name values offset min max delta_encode null_map = do
  values ← encode w values offset
  new_column name (length values) (some (wrap_i64 (min -ℤ offset), wrap_i64 (max -ℤ offset)))
      (int_codec w offset (eq_ℤ offset (pos 0)) delta_encode (is_some null_map))
      (into_section w values ∷ null_section null_map)

-- The columns of i64 that `new_boxed` builds itself.
unfoldable pub i64_codec : (delta_encode null : Bool) → List CodecOp
i64_codec true true = delta EncodingType.i64 ∷ push_data_section 1 ∷ nullable_op ∷ []
i64_codec false true = push_data_section 1 ∷ nullable_op ∷ []
i64_codec true false = delta EncodingType.i64 ∷ []
i64_codec false false = []

-- The chain of tests: the width and the offset of the column, or none for i64.
unfoldable pub choose_width : (min max : ℤ) → Option (Width × ℤ)
unfolding interval
choose_width min max =
    if leb_ℤ (pos 0) min && leb_ℤ max (pos (2 ^ 8 - 1))
    then some (width_8, pos 0)
    else if leb (interval min max) (2 ^ 8 - 1)
    then some (width_8, min)
    else if leb_ℤ (pos 0) min && leb_ℤ max (pos (2 ^ 16 - 1))
    then some (width_16, pos 0)
    else if leb (interval min max) (2 ^ 16 - 1)
    then some (width_16, min)
    else if leb_ℤ (pos 0) min && leb_ℤ max (pos (2 ^ 32 - 1))
    then some (width_32, pos 0)
    else if leb (interval min max) (2 ^ 32 - 1)
    then some (width_32, min)
    else none

module _ (enable_lz4 : Bool) (compress : DataSection → Bytes) where
  unfoldable pub new_boxed :
      (name : Bytes) (values : List ℤ) (min max : ℤ) (delta_encode : Bool) (null : Option Bytes)
      → Result Column
  unfolding delta_encode_values choose_width create_col i64_codec new_column lz4_encode
  new_boxed name values min0 max0 delta_encode null =
      let (stored, min, max) = delta_encode_values delta_encode values min0 max0 in
      let column : Result Column = elim (choose_width min max) [
        | some (w, offset) ↦ create_col w name stored offset min0 max0 delta_encode null
        | none ↦
            new_column name (length stored) (some (min0, max0))
              (i64_codec delta_encode (is_some null)) (section_i64 stored ∷ null_section null)
      ] in
      column >>= λ column. lz4_encode enable_lz4 compress column
