-- ===== src/MemStore/Column/Build.antt =====
-- src/mem_store/column.rs: columns that are made and then compressed, and what they decode to.
use locust_db.Prelude.{ℕ, ◌≡◌, refl, sym, ◌∙◌, Bool, true, false, Option, List, [], ◌∷◌, map}
use locust_db.Prelude.Int.{ℤ}
use locust_db.Errors.{Result, ok, ◌>>=◌}
use locust_db.Stringpack.{Bytes}
use locust_db.Engine.DataTypes.Types.{EncodingType}
use locust_db.MemStore.Codec.{CodecOp, lz4}
use locust_db.MemStore.Codec.Metadata.{new}
use locust_db.MemStore.Codec.Decode.{decode_loop}
use locust_db.MemStore.Codec.FixedWidth.{new_inv}
use locust_db.MemStore.Column.{
  DataSection, section_u8, len, encoding_type, Column, new_column, lz4_encode_section, lz4_encode,
}
use locust_db.MemStore.Column.Decoding.{
  Value, section_value, is_integer, value_planner, decode_column,
}
use locust_db.MemStore.Column.Lz4.{is_ok, is_ok_inv, lz4_encode-decode_column}

abbrev pub nonempty : List CodecOp → Bool
nonempty [] = false
nonempty (op ∷ ops) = true

pub new_column_lem :
    (name : Bytes) (l : ℕ) (range : Option (ℤ × ℤ)) (ops : List CodecOp) (section : DataSection)
    (rest : List DataSection)
    → nonempty ops ≡ true
    → is_ok (new ops (encoding_type section ∷ map encoding_type rest)) ≡ true
    → (column : Column) × (new_column name l range ops (section ∷ rest) ≡ ok column)
      × (column.sections ≡ section ∷ rest)
      × (column.codec.section_types ≡ encoding_type section ∷ map encoding_type rest)
      × (column.codec.ops ≡ ops)
      × (column.len ≡ l)
unfolding new_column
new_column_lem name l range [] section rest h k = cc
new_column_lem name l range (op ∷ ops) section rest h k =
    let (codec, run) =
      is_ok_inv (new (op ∷ ops) (encoding_type section ∷ map encoding_type rest)) k in
    let (e, f) = new_inv (op ∷ ops) (encoding_type section ∷ map encoding_type rest) codec run in
    (
      record {
        name = name;
        len = l;
        range = range;
        codec = record codec { column_name = name };
        sections = section ∷ rest;
      },
      rw run refl,
      refl,
      sym f,
      sym e,
      refl,
    )

module _ (enable_lz4 : Bool) (compress : DataSection → Bytes)
    (decompress : Bytes → EncodingType → ℕ → DataSection) where
  -- A column that decodes to `value`, of `rows` rows.
  abbrev pub Yields : Result Column → Value → ℕ → Type 0
  Yields r value rows =
      (column : Column) × (r ≡ ok column)
      × (decode_column decompress column ≡ ok value)
      × (column.len ≡ rows)

  -- `Column::new`, then `lz4_encode`.
  pub build_column :
      (name : Bytes) (l : ℕ) (range : Option (ℤ × ℤ)) (ops : List CodecOp) (section : DataSection)
      (rest : List DataSection) (value : Value) (worth_it : Bool)
      → nonempty ops ≡ true
      → is_ok (new ops (encoding_type section ∷ map encoding_type rest)) ≡ true
      → is_ok (
          new
            (lz4 (encoding_type section) (len section) ∷ ops)
            (EncodingType.u8 ∷ map encoding_type rest))
        ≡ true
      → lz4_encode_section enable_lz4 compress section ≡ (section_u8 (compress section), worth_it)
      → is_integer (encoding_type section) ≡ true
      → decompress (compress section) (encoding_type section) (len section) ≡ section
      → ((first : DataSection) (t : EncodingType) (name : Bytes)
          → decode_loop
              (value_planner decompress (first ∷ rest))
              name
              (t ∷ map encoding_type rest)
              ops
              (section_value section ∷ [])
            ≡ ok (value ∷ []))
      → Yields
          (new_column name l range ops (section ∷ rest) >>= λ column.
            lz4_encode enable_lz4 compress column)
          value
          l
  build_column name l range ops section rest value worth_it hn hnew hlz4 hw int hl run =
      let (column, e, es, et, eo, el) = new_column_lem name l range ops section rest hn hnew in
      let (encoded, f, decoded, rows) =
        lz4_encode-decode_column enable_lz4 compress decompress section rest column value worth_it
          es et hw int hl (rw eo hlz4) (λ first t. rw eo (run first t column.codec.column_name)) in
      (encoded, rw e f, decoded, rows ∙ el)
