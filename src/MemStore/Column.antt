-- ===== src/MemStore/Column.antt =====
-- src/mem_store/column.rs: a column, as data sections and the codec that decodes them. The lz4
-- crate (src/mem_store/lz4.rs) is a parameter: the bytes that it compresses a section to.
pub mod Build
pub mod Decoding
pub mod Lz4
use locust_db.Prelude.{
  ℕ, ◌*◌, Bool, true, false, Option, none, some, List, [], ◌∷◌, map, set, get_elem?, length, ltb,
  if◌then◌else◌,
}
use locust_db.Prelude.Int.{ℤ}
use locust_db.Errors.{Result, ok, err, panic, unwrap, ◌>>=◌}
use locust_db.Stringpack.{Bytes}
use locust_db.Engine.DataTypes.Types.{EncodingType, BasicType, cast_to_basic}
use locust_db.MemStore.Codec.{CodecOp}
use locust_db.MemStore.Codec.Metadata.{Codec, new, identity, with_lz4, without_lz4}

-- An f64 is its 64 bits.
pub data DataSection : Type 0 where
  section_u8 section_u16 section_u32 section_u64 : List ℕ → DataSection
  section_i64 : List ℤ → DataSection
  section_f64 : List ℕ → DataSection
  section_null : ℕ → DataSection

unfoldable pub len : DataSection → ℕ
len (section_u8 x) = length x
len (section_u16 x) = length x
len (section_u32 x) = length x
len (section_u64 x) = length x
len (section_i64 x) = length x
len (section_f64 x) = length x
len (section_null n) = n

unfoldable pub encoding_type : DataSection → EncodingType
encoding_type (section_u8 x) = EncodingType.u8
encoding_type (section_u16 x) = EncodingType.u16
encoding_type (section_u32 x) = EncodingType.u32
encoding_type (section_u64 x) = EncodingType.u64
encoding_type (section_i64 x) = EncodingType.i64
encoding_type (section_f64 x) = EncodingType.f64
encoding_type (section_null n) = EncodingType.null

pub record Column : Type 0 where
  pub name : Bytes
  pub len : ℕ
  pub range : Option (ℤ × ℤ)
  pub codec : Codec
  pub sections : List DataSection

-- `match codec.is_empty()`
unfoldable pub column_codec : List CodecOp → List DataSection → Result Codec
unfolding new identity encoding_type
column_codec [] sections = do
  first ← unwrap (get_elem? sections 0)
  decoded ← cast_to_basic (encoding_type first)
  ok (identity decoded)
column_codec (op ∷ ops) sections = new (op ∷ ops) (map encoding_type sections)

unfoldable pub new_column :
    (name : Bytes) (len : ℕ) (range : Option (ℤ × ℤ)) (codec : List CodecOp)
    (sections : List DataSection)
    → Result Column
unfolding column_codec
new_column name len range codec sections = do
  codec ← column_codec codec sections
  ok record {
    name = name;
    len = len;
    range = range;
    codec = record codec { column_name = name };
    sections = sections;
  }

unfoldable pub null_column : (name : Bytes) (len : ℕ) → Column
unfolding identity
null_column name len = record {
  name = name;
  len = len;
  range = none;
  codec = identity BasicType.none;
  sections = section_null len ∷ [];
}

-- The bytes of one element, by which `lz4_encode` tells whether it is worth it.
abbrev element_size : DataSection → ℕ
element_size (section_u8 x) = 1
element_size (section_u16 x) = 2
element_size (section_u32 x) = 4
element_size _ = 8

module _ (enable_lz4 : Bool) (compress : DataSection → Bytes) where
  unfoldable pub lz4_encode_section : DataSection → DataSection × Bool
  unfolding len
  lz4_encode_section (section_null n) = (section_null n, false)
  lz4_encode_section section =
      let encoded = compress section in
      (section_u8 encoded, ltb (length encoded * 100) (len section * element_size section * 90))

  unfoldable pub lz4_encode : Column → Result Column
  unfolding lz4_encode_section with_lz4 len
  lz4_encode column =
      if enable_lz4
      then (do
        first ← unwrap (get_elem? column.sections 0)
        let (encoded, worth_it) = lz4_encode_section first in
            if worth_it
            then (with_lz4 column.codec (len first) >>= λ codec.
                ok (record column { codec = codec; sections = set column.sections 0 encoded }))
            else ok column)
      else ok column
