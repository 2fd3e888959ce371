-- ===== src/MemStore/Column/Lz4.antt =====
-- Decoding a column before and after its first section is compressed.
use locust_db.Prelude.{
  ℕ, ◌≡◌, refl, ap, ap₂, sym, ◌∙◌, Bool, true, false, inl, inr, Bool-cases, List, [], ◌∷◌, map, set,
}
use locust_db.Prelude.Int.{pos, pos_part}
use locust_db.Errors.{Result, ok, err, panic, ◌>>=◌}
use locust_db.Stringpack.{Bytes}
use locust_db.Engine.DataTypes.Types.{EncodingType}
use locust_db.MemStore.Codec.{CodecOp, lz4}
use locust_db.MemStore.Codec.Metadata.{Codec, new, with_lz4}
use locust_db.MemStore.Codec.Decode.{decode_loop, decode_ops, decode, single}
use locust_db.MemStore.Codec.FixedWidth.{new_inv}
use locust_db.MemStore.Column.{
  DataSection, section_u8, len, encoding_type, Column, lz4_encode_section, lz4_encode,
}
use locust_db.MemStore.Column.Decoding.{
  Value, section_value, is_integer, value_planner, section_at, decode_column,
}

abbrev pub is_ok {ℓ} : {A : Type ℓ} → Result A → Bool
is_ok (ok a) = true
is_ok _ = false

pub is_ok_inv {ℓ} : {A : Type ℓ} (r : Result A) → is_ok r ≡ true → (a : A) × (r ≡ ok a)
is_ok_inv (ok a) h = (a, refl)
is_ok_inv (err e) h = cc
is_ok_inv panic h = cc

pub map-pos_part : (xs : List ℕ) → map pos_part (map pos xs) ≡ xs
map-pos_part [] = refl
map-pos_part (x ∷ xs) = ap (◌∷◌ x) (map-pos_part xs)

with_lz4_lem :
    (section : DataSection) (rest : List DataSection) (codec : Codec)
    → codec.section_types ≡ encoding_type section ∷ map encoding_type rest
    → is_ok (
        new
          (lz4 (encoding_type section) (len section) ∷ codec.ops)
          (EncodingType.u8 ∷ map encoding_type rest))
      ≡ true
    → (wrapped : Codec) × (with_lz4 codec (len section) ≡ ok wrapped)
      × (lz4 (encoding_type section) (len section) ∷ codec.ops ≡ wrapped.ops)
      × (EncodingType.u8 ∷ map encoding_type rest ≡ wrapped.section_types)
      × (codec.column_name ≡ wrapped.column_name)
unfolding with_lz4
with_lz4_lem section rest codec et en =
    let (wrapped, run) =
      is_ok_inv
        (new (lz4 (encoding_type section) (len section) ∷ codec.ops)
          (EncodingType.u8 ∷ map encoding_type rest))
        en in
    let (ops, types) =
      new_inv (lz4 (encoding_type section) (len section) ∷ codec.ops)
        (EncodingType.u8 ∷ map encoding_type rest) wrapped run in
    (record wrapped { column_name = codec.column_name }, rw (et, run) refl, ops, types, refl)

module _ (enable_lz4 : Bool) (compress : DataSection → Bytes)
    (decompress : Bytes → EncodingType → ℕ → DataSection) where
  -- The column, with its first section `section`, that `codec` decodes to `value`.
  abbrev pub Decodes : DataSection → List DataSection → Bytes → Codec → Value → Type 0
  Decodes section rest name codec value =
      (first : DataSection) (t : EncodingType)
      → decode_loop (value_planner decompress (first ∷ rest)) name (t ∷ map encoding_type rest)
          codec.ops (section_value section ∷ [])
        ≡ ok (value ∷ [])

  decode_by :
      (column : Column) (sections : List DataSection) (types : List EncodingType)
      (ops : List CodecOp) (value : Value)
      → column.sections ≡ sections
      → column.codec.section_types ≡ types
      → column.codec.ops ≡ ops
      → decode_loop
          (value_planner decompress sections)
          column.codec.column_name
          types
          ops
          (section_at sections 0 ∷ [])
        ≡ ok (value ∷ [])
      → decode_column decompress column ≡ ok value
  unfolding decode_column decode decode_ops
  decode_by column sections types ops value es et eo run =
      ap₂
        (λ sections (codec : List EncodingType × List CodecOp).
          decode_loop (value_planner decompress sections) column.codec.column_name codec.0 codec.1
            (section_at sections 0 ∷ [])
          >>= λ stack. single stack)
        es (ap₂ (λ types ops. (types, ops)) et eo)
      ∙ ap (λ stack. stack >>= λ stack. single stack) run

  decode_compressed :
      (section : DataSection) (rest : List DataSection) (name : Bytes) (codec : Codec)
      (value : Value)
      → is_integer (encoding_type section) ≡ true
      → decompress (compress section) (encoding_type section) (len section) ≡ section
      → Decodes section rest name codec value
      → decode_loop
          (value_planner decompress (section_u8 (compress section) ∷ rest))
          name
          (EncodingType.u8 ∷ map encoding_type rest)
          (lz4 (encoding_type section) (len section) ∷ codec.ops)
          (section_value (section_u8 (compress section)) ∷ [])
        ≡ ok (value ∷ [])
  unfolding decode_loop value_planner
  decode_compressed section rest name codec value int el run = rw int (
      ap
        (λ s.
          decode_loop (value_planner decompress (section_u8 (compress section) ∷ rest)) name
            (EncodingType.u8 ∷ map encoding_type rest) codec.ops (section_value s ∷ []))
        (ap (λ bytes. decompress bytes (encoding_type section) (len section))
            (map-pos_part (compress section))
          ∙ el)
      ∙ run (section_u8 (compress section)) EncodingType.u8)

  pub lz4_encode-decode_column :
      (section : DataSection) (rest : List DataSection) (column : Column) (value : Value)
      (worth_it : Bool)
      → column.sections ≡ section ∷ rest
      → column.codec.section_types ≡ encoding_type section ∷ map encoding_type rest
      → lz4_encode_section enable_lz4 compress section ≡ (section_u8 (compress section), worth_it)
      → is_integer (encoding_type section) ≡ true
      → decompress (compress section) (encoding_type section) (len section) ≡ section
      → is_ok (
          new
            (lz4 (encoding_type section) (len section) ∷ column.codec.ops)
            (EncodingType.u8 ∷ map encoding_type rest))
        ≡ true
      → Decodes section rest column.codec.column_name column.codec value
      → (encoded : Column) × (lz4_encode enable_lz4 compress column ≡ ok encoded)
        × (decode_column decompress encoded ≡ ok value)
        × (encoded.len ≡ column.len)
  unfolding lz4_encode
  lz4_encode-decode_column section rest column value worth_it es et ew int el en run =
      elim (Bool-cases enable_lz4) [
        | inr off ↦ (
          column,
          rw off refl,
          decode_by column (section ∷ rest) (encoding_type section ∷ map encoding_type rest)
              column.codec.ops value es et refl (run section (encoding_type section)),
          refl,
        )
        | inl on ↦ elim (Bool-cases worth_it) [
          | inr not_worth ↦ (
            column,
            rw (on, es, ew, not_worth) refl,
            decode_by column (section ∷ rest) (encoding_type section ∷ map encoding_type rest)
                column.codec.ops value es et refl (run section (encoding_type section)),
            refl,
          )
          | inl worth ↦
              let (wrapped, e, ops, types, names) = with_lz4_lem section rest column.codec et en in
              (
                record column {
                  codec = wrapped;
                  sections = set column.sections 0 (section_u8 (compress section));
                },
                rw (on, es, ew, worth, e) refl,
                decode_by
                    (record column {
                      codec = wrapped;
                      sections = set column.sections 0 (section_u8 (compress section));
                    })
                    (section_u8 (compress section) ∷ rest)
                    (EncodingType.u8 ∷ map encoding_type rest)
                    (lz4 (encoding_type section) (len section) ∷ column.codec.ops) value
                    (ap (λ sections. set sections 0 (section_u8 (compress section))) es) (sym types)
                    (sym ops)
                    (ap
                        (λ name.
                          decode_loop
                            (value_planner decompress (section_u8 (compress section) ∷ rest)) name
                            (EncodingType.u8 ∷ map encoding_type rest)
                            (lz4 (encoding_type section) (len section) ∷ column.codec.ops)
                            (section_value (section_u8 (compress section)) ∷ []))
                        (sym names)
                      ∙ decode_compressed section rest column.codec.column_name column.codec value
                          int el run),
                refl,
              )
        ]
      ]
