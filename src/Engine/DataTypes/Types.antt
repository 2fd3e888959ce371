-- ===== src/Engine/DataTypes/Types.antt =====
-- src/engine/data_types/types.rs: how a column is stored, and what it decodes to.
use locust_db.Prelude.{ℕ, Bool, true, false}
use locust_db.Errors.{Result, ok, panic}

pub data EncodingType : Type 0 where
  str opt_str i64 u8 u16 u32 u64 f64 : EncodingType
  nullable_str nullable_i64 nullable_u8 nullable_u16 nullable_u32 nullable_u64 nullable_f64 :
      EncodingType
  usize val null : EncodingType
  scalar_i64 scalar_str scalar_string const_val : EncodingType
  byte_slices : ℕ → EncodingType
  val_rows premerge merge_op : EncodingType

pub data BasicType : Type 0 where
  string integer float nullable_string nullable_integer nullable_float any none boolean : BasicType

unfoldable pub cast_to_basic : EncodingType → Result BasicType
cast_to_basic str = ok string
cast_to_basic i64 = ok integer
cast_to_basic f64 = ok float
cast_to_basic nullable_str = ok nullable_string
cast_to_basic nullable_i64 = ok nullable_integer
cast_to_basic nullable_f64 = ok nullable_float
cast_to_basic val = ok any
cast_to_basic null = ok none
cast_to_basic _ = panic

unfoldable pub nullable : EncodingType → Result EncodingType
nullable str = ok nullable_str
nullable i64 = ok nullable_i64
nullable u8 = ok nullable_u8
nullable u16 = ok nullable_u16
nullable u32 = ok nullable_u32
nullable u64 = ok nullable_u64
nullable opt_str = ok nullable_str
nullable nullable_str = ok nullable_str
nullable nullable_i64 = ok nullable_i64
nullable nullable_u8 = ok nullable_u8
nullable nullable_u16 = ok nullable_u16
nullable nullable_u32 = ok nullable_u32
nullable nullable_u64 = ok nullable_u64
nullable val = ok val
nullable _ = panic

unfoldable pub nullable_fused : EncodingType → Result EncodingType
nullable_fused nullable_str = ok opt_str
nullable_fused nullable_i64 = ok i64
nullable_fused _ = panic

unfoldable pub is_nullable : EncodingType → Bool
is_nullable nullable_str = true
is_nullable nullable_i64 = true
is_nullable nullable_u8 = true
is_nullable nullable_u16 = true
is_nullable nullable_u32 = true
is_nullable nullable_u64 = true
is_nullable _ = false

unfoldable pub non_nullable : EncodingType → EncodingType
non_nullable nullable_str = str
non_nullable nullable_i64 = i64
non_nullable nullable_u8 = u8
non_nullable nullable_u16 = u16
non_nullable nullable_u32 = u32
non_nullable nullable_u64 = u64
non_nullable opt_str = str
non_nullable t = t

unfoldable pub to_encoded : BasicType → EncodingType
to_encoded string = str
to_encoded integer = i64
to_encoded float = f64
to_encoded nullable_string = nullable_str
to_encoded nullable_integer = nullable_i64
to_encoded nullable_float = nullable_f64
to_encoded any = val
to_encoded none = null
to_encoded boolean = u8
