-- ===== src/MemStore/Integers/Roundtrip.antt =====
-- Decoding a column of integers, against the values that it was built from.
use locust_db.Prelude.{
  arith, ℕ, ◌≡◌, refl, ap, subst, sym, ◌∙◌, Bool, true, false, ◌||◌, inl, inr, Bool-cases, Option,
  none, some, Option-cases, List, [], ◌∷◌, map, length, length-map, suc, All, All-imp,
}
use locust_db.Prelude.Int.{ℤ, pos, ◌-ℤ◌, wrap_i64, eq_ℤ, eq_ℤ_iff, IsI64}
use locust_db.Errors.{ok, ◌>>=◌}
use locust_db.Stringpack.{Bytes}
use locust_db.Engine.DataTypes.Types.{EncodingType, BasicType, cast_to_basic, to_encoded}
use locust_db.MemStore.Codec.{CodecOp, lz4}
use locust_db.MemStore.Codec.Metadata.{new, identity}
use locust_db.MemStore.Codec.Decode.{decode_loop}
use locust_db.MemStore.Column.{
  DataSection, section_u8, section_i64, len, encoding_type, Column, new_column, lz4_encode_section,
  lz4_encode,
}
use locust_db.MemStore.Column.Decoding.{
  Value, numbers, section_value, is_integer, add_scalar, value_planner, decode_column,
}
use locust_db.MemStore.Column.Lz4.{is_ok, lz4_encode-decode_column}
use locust_db.MemStore.Column.Build.{nonempty, Yields, build_column}
use locust_db.MemStore.Integers.{
  Width, width_8, width_16, width_32, into_section, max_value, encoding_of, int_codec, i64_codec,
  is_some, null_section, delta_encode_loop, delta_encode_values, create_col, choose_width,
  new_boxed,
}
use locust_db.MemStore.Integers.Fits.{Within, Stores, choose_width-Stores, encode_lem}
use locust_db.MemStore.Integers.Stored.{delta_encode_values-Within}
use locust_db.MemStore.Integers.Codecs.{
  null_types, null_types_lem, int_codec-new, int_codec-lz4-new, int_codec-nonempty,
  i64_codec-nonempty, i64_codec-new, i64_codec-lz4-new, restored, decoded_as, stored_type, undone,
  undone_lem, offset_added, int_codec-decode_loop, i64_codec-decode_loop,
  encoding_type-into_section, section_value-into_section,
}

length-add_scalar : (xs : List ℤ) (x : ℤ) → length (add_scalar xs x) ≡ length xs
unfolding add_scalar
length-add_scalar [] x = refl
length-add_scalar (v ∷ xs) x = ap suc (length-add_scalar xs x)

-- The offset is added unless it is 0, and then nothing is missing.
offset_added_lem :
    (offset : ℤ) (xs stored : List ℤ)
    → add_scalar xs offset ≡ stored
    → (offset ≡ pos 0 → xs ≡ stored)
    → offset_added (eq_ℤ offset (pos 0)) offset xs ≡ stored
offset_added_lem offset xs stored back plain = elim (Bool-cases (eq_ℤ offset (pos 0))) [
  | inl t ↦ rw t (plain ((eq_ℤ_iff offset (pos 0)).0 t))
  | inr t ↦ rw t back
]

pub lz4_encode_section-into_section :
    (enable_lz4 : Bool) (compress : DataSection → Bytes) (w : Width) (xs : List ℕ)
    → (worth_it : Bool) × (lz4_encode_section enable_lz4 compress (into_section w xs)
        ≡ (section_u8 (compress (into_section w xs)), worth_it))
unfolding lz4_encode_section
lz4_encode_section-into_section enable_lz4 compress width_8 xs = (_, refl)
lz4_encode_section-into_section enable_lz4 compress width_16 xs = (_, refl)
lz4_encode_section-into_section enable_lz4 compress width_32 xs = (_, refl)

length-delta_encode_loop :
    (previous : ℤ) (values : List ℤ) (min max : ℤ)
    → length (delta_encode_loop previous values min max).0 ≡ length values
unfolding delta_encode_loop
length-delta_encode_loop previous [] min max = refl
length-delta_encode_loop previous (v ∷ values) min max =
    ap suc (length-delta_encode_loop v values _ _)

pub length-delta_encode_values :
    (delta_encode : Bool) (values : List ℤ) (min max : ℤ)
    → length (delta_encode_values delta_encode values min max).0 ≡ length values
unfolding delta_encode_values
length-delta_encode_values delta_encode [] min max = refl
length-delta_encode_values false (v ∷ values) min max = refl
length-delta_encode_values true (v ∷ values) min max =
    ap suc (length-delta_encode_loop v values v v)

pub width-is_integer : (w : Width) → is_integer (encoding_of w) ≡ true
width-is_integer w = ground arith

with_deltas :
    (t : EncodingType) (values : List ℤ) (null : Option Bytes)
    → decoded_as t true values null ≡ restored values null
with_deltas t values null = ground arith

-- Without delta encoding, the width is chosen by the given bounds.
decoded_as_bounds :
    (delta_encode : Bool) (values : List ℤ) (min max : ℤ) (null : Option Bytes)
    → (let (stored, least, greatest) = delta_encode_values delta_encode values min max in
        decoded_as (stored_type (choose_width least greatest)) delta_encode values null)
      ≡ decoded_as (stored_type (choose_width min max)) delta_encode values null
unfolding delta_encode_values
decoded_as_bounds delta_encode [] min max null = refl
decoded_as_bounds false (v ∷ values) min max null = refl
decoded_as_bounds true (v ∷ values) min max null =
    with_deltas (stored_type _) (v ∷ values) null
    ∙ sym (with_deltas (stored_type (choose_width min max)) (v ∷ values) null)

module _ (enable_lz4 : Bool) (compress : DataSection → Bytes)
    (decompress : Bytes → EncodingType → ℕ → DataSection) where
  build :
      (name : Bytes) (l : ℕ) (range : Option (ℤ × ℤ)) (ops : List CodecOp) (section : DataSection)
      (null : Option Bytes) (value : Value) (worth_it : Bool)
      → nonempty ops ≡ true
      → is_ok (new ops (encoding_type section ∷ null_types (is_some null))) ≡ true
      → is_ok (
          new
            (lz4 (encoding_type section) (len section) ∷ ops)
            (EncodingType.u8 ∷ null_types (is_some null)))
        ≡ true
      → lz4_encode_section enable_lz4 compress section ≡ (section_u8 (compress section), worth_it)
      → is_integer (encoding_type section) ≡ true
      → decompress (compress section) (encoding_type section) (len section) ≡ section
      → ((first : DataSection) (t : EncodingType) (name : Bytes)
          → decode_loop
              (value_planner decompress (first ∷ null_section null))
              name
              (t ∷ null_types (is_some null))
              ops
              (section_value section ∷ [])
            ≡ ok (value ∷ []))
      → Yields enable_lz4 compress decompress
          (new_column name l range ops (section ∷ null_section null) >>= λ column.
            lz4_encode enable_lz4 compress column)
          value
          l
  build name l range ops section null value worth_it hn hnew hlz4 hw int hl run =
      let types = sym (null_types_lem null) in
      build_column enable_lz4 compress decompress name l range ops section (null_section null) value
        worth_it hn (subst (λ ts. is_ok (new ops (encoding_type section ∷ ts)) ≡ true) types hnew)
        (rw (sym types) hlz4) hw int hl (λ first t name. rw (sym types) (run first t name))

  create_col-decode_column :
      (w : Width) (name : Bytes) (stored values : List ℤ) (offset min max : ℤ) (delta_encode : Bool)
      (null : Option Bytes)
      → ((section : DataSection)
          → decompress (compress section) (encoding_type section) (len section) ≡ section)
      → All (Stores (max_value w) offset) stored
      → undone delta_encode stored ≡ values
      → Yields enable_lz4 compress decompress
          (create_col w name stored offset min max delta_encode null >>= λ column.
            lz4_encode enable_lz4 compress column)
          (decoded_as (encoding_of w) delta_encode values null)
          (length stored)
  unfolding create_col
  create_col-decode_column w name stored values offset min max delta_encode null hl fits undo =
      let (encoded, run, back, plain) = encode_lem w offset stored fits in
      let zero = eq_ℤ offset (pos 0) in
      let section = into_section w encoded in
      let t = encoding_type-into_section w encoded in
      let rows : length encoded ≡ length stored =
        sym (length-add_scalar (map pos encoded) offset ∙ length-map pos encoded)
        ∙ ap length back in
      let added : offset_added zero offset (map pos encoded) ≡ stored =
        offset_added_lem offset (map pos encoded) stored back plain in
      let (worth_it, hw) = lz4_encode_section-into_section enable_lz4 compress w encoded in
      let (column, e, decoded, l) =
        build name (length encoded) (some (wrap_i64 (min -ℤ offset), wrap_i64 (max -ℤ offset)))
          (int_codec w offset zero delta_encode (is_some null)) section null
          (decoded_as (encoding_of w) delta_encode values null) worth_it
          (int_codec-nonempty w offset zero delta_encode (is_some null))
          (rw t (int_codec-new w offset zero delta_encode (is_some null)))
          (rw t (int_codec-lz4-new w offset zero delta_encode (is_some null) (len section))) hw
          (rw t (width-is_integer w)) (hl section)
          (λ first u name.
            ap
              (λ v.
                decode_loop (value_planner decompress (first ∷ null_section null)) name
                  (u ∷ null_types (is_some null))
                  (int_codec w offset zero delta_encode (is_some null)) (v ∷ []))
              (section_value-into_section w encoded)
            ∙ int_codec-decode_loop decompress first u name w offset zero delta_encode null
                (map pos encoded)
            ∙ ap (λ xs. ok (decoded_as (encoding_of w) delta_encode xs null ∷ []))
                (ap (undone delta_encode) added ∙ undo)) in
      (column, rw run e, decoded, l ∙ rows)

  plain_i64-decode_column :
      (name : Bytes) (values : List ℤ) (range : Option (ℤ × ℤ))
      → ((section : DataSection)
          → decompress (compress section) (encoding_type section) (len section) ≡ section)
      → Yields enable_lz4 compress decompress
          (new_column name (length values) range (i64_codec false false) (section_i64 values ∷ [])
            >>= λ column. lz4_encode enable_lz4 compress column)
          (numbers EncodingType.i64 values)
          (length values)
  unfolding encoding_type new_column identity cast_to_basic lz4_encode_section i64_codec to_encoded
      len decode_loop
  plain_i64-decode_column name values range hl =
      lz4_encode-decode_column enable_lz4 compress decompress (section_i64 values) []
        (record {
          name = name;
          len = length values;
          range = range;
          codec = record (identity BasicType.integer) { column_name = name };
          sections = section_i64 values ∷ [];
        })
        (numbers EncodingType.i64 values) _ refl refl refl refl (hl (section_i64 values))
        (i64_codec-lz4-new false false (length values)) (λ first t. refl)

  i64-decode_column :
      (name : Bytes) (stored values : List ℤ) (range : Option (ℤ × ℤ)) (delta_encode : Bool)
      (null : Option Bytes)
      → ((section : DataSection)
          → decompress (compress section) (encoding_type section) (len section) ≡ section)
      → (delta_encode || is_some null) ≡ true
      → undone delta_encode stored ≡ values
      → Yields enable_lz4 compress decompress
          (new_column name
              (length stored)
              range
              (i64_codec delta_encode (is_some null))
              (section_i64 stored ∷ null_section null)
            >>= λ column. lz4_encode enable_lz4 compress column)
          (restored values null)
          (length stored)
  unfolding encoding_type lz4_encode_section
  i64-decode_column name stored values range delta_encode null hl some_codec undo =
      build name (length stored) range (i64_codec delta_encode (is_some null)) (section_i64 stored)
        null (restored values null) _ (i64_codec-nonempty delta_encode (is_some null) some_codec)
        (i64_codec-new delta_encode (is_some null) some_codec)
        (i64_codec-lz4-new delta_encode (is_some null) (len (section_i64 stored))) refl refl
        (hl (section_i64 stored))
        (λ first t name.
          i64_codec-decode_loop decompress first t name delta_encode null stored
          ∙ ap (λ xs. ok (restored xs null ∷ [])) undo)

  any_i64-decode_column :
      (name : Bytes) (stored values : List ℤ) (range : Option (ℤ × ℤ)) (delta_encode : Bool)
      (null : Option Bytes)
      → ((section : DataSection)
          → decompress (compress section) (encoding_type section) (len section) ≡ section)
      → undone delta_encode stored ≡ values
      → Yields enable_lz4 compress decompress
          (new_column name
              (length stored)
              range
              (i64_codec delta_encode (is_some null))
              (section_i64 stored ∷ null_section null)
            >>= λ column. lz4_encode enable_lz4 compress column)
          (restored values null)
          (length stored)
  any_i64-decode_column name stored values range true null hl undo =
      i64-decode_column name stored values range true null hl refl undo
  any_i64-decode_column name stored values range false (some present) hl undo =
      i64-decode_column name stored values range false (some present) hl refl undo
  any_i64-decode_column name stored values range false none hl undo =
      rw (sym undo) (plain_i64-decode_column name stored range hl)

  -- With any compressor of sections that a decompressor undoes, lz4 enabled or not: from values of
  -- i64 and bounds of theirs, with or without delta encoding and a null map, `new_boxed` builds a
  -- column, at whichever width and offset it chooses; it has as many rows as values, and decoding it
  -- gives the values, and the null map. The exception is a null map without delta encoding where the
  -- bounds make it choose 16 or 32 bits: that column does not decode.
  pub new_boxed-decode_column :
      ((section : DataSection)
        → decompress (compress section) (encoding_type section) (len section) ≡ section)
      → (name : Bytes) (values : List ℤ) (min max : ℤ) (delta_encode : Bool) (null : Option Bytes)
      → IsI64 min
      → IsI64 max
      → All (Within min max) values
      → (column : Column) × (new_boxed enable_lz4 compress name values min max delta_encode null
          ≡ ok column)
        × (decode_column decompress column
            ≡ ok (decoded_as (stored_type (choose_width min max)) delta_encode values null))
        × (column.len ≡ length values)
  unfolding new_boxed
  new_boxed-decode_column hl name values min max delta_encode null hmin hmax h =
      let result = delta_encode_values delta_encode values min max in
      let (within, least, greatest) =
        delta_encode_values-Within delta_encode values min max hmin hmax h in
      let undo =
        undone_lem delta_encode values min max
          (All-imp (Within min max) IsI64 values (λ v w. w.i64) h) in
      rw
        (
          sym (length-delta_encode_values delta_encode values min max),
          sym (decoded_as_bounds delta_encode values min max null),
        )
        (elim (Option-cases (choose_width result.1 result.2)) [
          | inl e ↦ rw e (
              any_i64-decode_column name result.0 values (some (min, max)) delta_encode null hl
                undo)
          | inr (chosen, e) ↦ rw e (
              create_col-decode_column chosen.0 name result.0 values chosen.1 min max delta_encode
                null hl
                (All-imp (Within result.1 result.2) (Stores (max_value chosen.0) chosen.1) result.0
                  (λ v w. choose_width-Stores result.1 result.2 v chosen least greatest w e) within)
                undo)
        ])
