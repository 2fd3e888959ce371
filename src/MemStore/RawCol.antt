-- ===== src/MemStore/RawCol.antt =====
-- src/mem_store/raw_col.rs: making a compressed column of a column in memory. The conversion of an
-- i64 to f64 and the decimal form of an f64 are parameters: there are no floats here.
pub mod Builders
pub mod Finalize
pub mod Columns
pub mod Rows
use locust_db.Prelude.{
  ℕ, ◌+◌, Bool, true, false, Option, none, some, List, [], ◌∷◌, length, if◌then◌else◌,
}
use locust_db.Prelude.Int.{ℤ, pos, negsuc}
use locust_db.Prelude.Decimal.{decimal}
use locust_db.Errors.{Result, ok, panic, ◌>>=◌}
use locust_db.Stringpack.{Bytes}
use locust_db.MemStore.Column.{DataSection, Column, null_column}
use locust_db.MemStore.ColumnBuilder
use locust_db.MemStore.ColumnBuilder.StringCol
use locust_db.MemStore.ColumnBuilder.FloatCol
use locust_db.Ingest.RawCol.{RawVal, int, float, str, null, MixedCol}

-- `i.to_string()`
unfoldable pub int_to_string : ℤ → Bytes
unfolding decimal
int_to_string (pos n) = decimal n
int_to_string (negsuc n) = b'-' ∷ decimal (n + 1)

-- What the loop of the column of integers pushes.
unfoldable pub int_elem : RawVal → Result (Option ℤ)
int_elem (str _) = panic
int_elem (int i) = ok (some i)
int_elem null = ok none
int_elem (float _) = panic

unfoldable pub push_ints :
    List RawVal → ColumnBuilder.IntColBuilder → Result ColumnBuilder.IntColBuilder
unfolding int_elem ColumnBuilder.push
push_ints [] builder = ok builder
push_ints (v ∷ values) builder =
    int_elem v >>= λ elem. push_ints values (ColumnBuilder.push builder elem)

module _ (int_to_float : ℤ → ℕ) where
  -- What the loop of the column of floats pushes.
  unfoldable pub float_elem : RawVal → Result (Option ℕ)
  float_elem (str _) = panic
  float_elem (int i) = ok (some (int_to_float i))
  float_elem null = ok none
  float_elem (float f) = ok (some f)

  unfoldable pub push_floats :
      List RawVal → FloatCol.FloatColBuilder → Result FloatCol.FloatColBuilder
  unfolding float_elem FloatCol.push
  push_floats [] builder = ok builder
  push_floats (v ∷ values) builder =
      float_elem v >>= λ elem. push_floats values (FloatCol.push builder elem)

module _ (float_to_string : ℕ → Bytes) where
  -- What the loop of the column of strings pushes.
  unfoldable pub text_of : RawVal → Bytes
  unfolding int_to_string
  text_of (str s) = s
  text_of (int i) = int_to_string i
  text_of null = []
  text_of (float f) = float_to_string f

  unfoldable pub push_texts : List RawVal → StringCol.StringColBuilder → StringCol.StringColBuilder
  unfolding text_of StringCol.push
  push_texts [] builder = builder
  push_texts (v ∷ values) builder = push_texts values (StringCol.push builder (text_of v))

module _ (enable_lz4 : Bool) (compress : DataSection → Bytes) (decode_hex : Bytes → Option Bytes)
    (int_to_float : ℤ → ℕ) (float_to_string : ℕ → Bytes) where
  unfoldable pub finalize : MixedCol → (name : Bytes) → Result Column
  unfolding push_texts push_floats push_ints StringCol.finalize FloatCol.finalize
      ColumnBuilder.finalize null_column
  finalize col name =
      if col.types.contains_string
      then StringCol.finalize enable_lz4 compress decode_hex
          (push_texts float_to_string col.values StringCol.default) name none
      else if col.types.contains_float
      then (push_floats int_to_float col.values FloatCol.default >>= λ builder.
          FloatCol.finalize enable_lz4 compress builder name none)
      else if col.types.contains_int
      then (push_ints col.values ColumnBuilder.default >>= λ builder.
          ColumnBuilder.finalize enable_lz4 compress builder name none)
      else ok (null_column name (length col.values))
