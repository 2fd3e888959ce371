-- ===== src/MemStore/Floats.antt =====
-- src/mem_store/floats.rs: columns of floats, which are not encoded.
pub mod Roundtrip
use locust_db.Prelude.{ℕ, Bool, Option, none, some, List, [], ◌∷◌, length}
use locust_db.Errors.{Result, ◌>>=◌}
use locust_db.Stringpack.{Bytes}
use locust_db.MemStore.Codec.{CodecOp, nullable_op, push_data_section}
use locust_db.MemStore.Column.{DataSection, section_f64, Column, new_column, lz4_encode}
use locust_db.MemStore.Integers.{null_section}

unfoldable pub float_codec : (null : Option Bytes) → List CodecOp
float_codec none = []
float_codec (some present) = push_data_section 1 ∷ nullable_op ∷ []

module _ (enable_lz4 : Bool) (compress : DataSection → Bytes) where
  unfoldable pub new_boxed : (name : Bytes) (values : List ℕ) (null : Option Bytes) → Result Column
  unfolding float_codec new_column lz4_encode
  new_boxed name values null =
      new_column name (length values) none (float_codec null)
        (section_f64 values ∷ null_section null)
      >>= λ column. lz4_encode enable_lz4 compress column
