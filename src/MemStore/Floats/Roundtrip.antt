-- ===== src/MemStore/Floats/Roundtrip.antt =====
-- src/mem_store/floats.rs: decoding a column of floats, against the values it was built from.
use locust_db.Prelude.{
  ◌&&◌, if◌then◌else◌, inl, inr, Bool-cases, some, ℕ, ◌≡◌, refl, Bool, none, List, length,
}
use locust_db.Errors.{panic}
use locust_db.Stringpack.{Bytes}
use locust_db.Engine.DataTypes.Types.{
  EncodingType, nullable, is_nullable, cast_to_basic, to_encoded,
}
use locust_db.MemStore.Codec.{
  has_property, is_summation_preserving_op, is_order_preserving_op, is_elementwise_decodable_op,
  arg_count,
}
use locust_db.MemStore.Codec.Metadata.{new, with_lz4, output_type, identity}
use locust_db.MemStore.Codec.Decode.{decode_loop, decode_ops, decode}
use locust_db.MemStore.Column.{
  DataSection, section_f64, len, encoding_type, new_column, lz4_encode_section, lz4_encode,
}
use locust_db.MemStore.Column.Decoding.{floats, other, value_planner, decode_column}
use locust_db.MemStore.Column.Build.{Yields}
use locust_db.MemStore.Floats.{float_codec, new_boxed}

-- Whether `lz4_encode` replaces the floats by their compressed bytes.
abbrev pub is_compressed : (enable_lz4 : Bool) → (DataSection → Bytes) → List ℕ → Bool
unfolding lz4_encode_section
is_compressed enable_lz4 compress values =
    enable_lz4 && (lz4_encode_section enable_lz4 compress (section_f64 values)).1

module _ (enable_lz4 : Bool) (compress : DataSection → Bytes)
    (decompress : Bytes → EncodingType → ℕ → DataSection) where
  pub new_boxed-Yields :
      (name : Bytes) (values : List ℕ)
      → Yields enable_lz4 compress decompress
          (new_boxed enable_lz4 compress name values none)
          (if is_compressed enable_lz4 compress values then other else floats values)
          (length values)
  unfolding new_boxed float_codec new_column lz4_encode lz4_encode_section with_lz4 new output_type
      has_property nullable is_nullable cast_to_basic is_summation_preserving_op
      is_order_preserving_op is_elementwise_decodable_op arg_count identity to_encoded len
      encoding_type decode_column decode decode_ops decode_loop value_planner
  new_boxed-Yields name values = elim (Bool-cases enable_lz4) [
    | inr off ↦ rw off (_, refl, refl, refl)
    | inl on ↦ elim (Bool-cases (lz4_encode_section enable_lz4 compress (section_f64 values)).1) [
      | inr keep ↦ rw (on, keep) (_, refl, refl, refl)
      | inl worth ↦ rw (on, worth) (_, refl, refl, refl)
    ]
  ]

  new_boxed-panic :
      (name : Bytes) (values : List ℕ) (present : Bytes)
      → new_boxed enable_lz4 compress name values (some present) ≡ panic
  unfolding new_boxed float_codec encoding_type new_column new output_type nullable
  new_boxed-panic name values present = refl

  -- A column of floats without a null map is built, of as many rows, and decodes to the values that
  -- it was built from, if lz4 is not enabled or does not make it smaller; a compressed one does not
  -- decode. With a null map, its construction panics.
  pub new_boxed-decode_floats :
      (name : Bytes) (values : List ℕ)
      → Yields enable_lz4 compress decompress
          (new_boxed enable_lz4 compress name values none)
          (if is_compressed enable_lz4 compress values then other else floats values)
          (length values)
        × ((present : Bytes) → new_boxed enable_lz4 compress name values (some present) ≡ panic)
  new_boxed-decode_floats name values = (new_boxed-Yields name values, new_boxed-panic name values)
