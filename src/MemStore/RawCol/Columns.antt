-- ===== src/MemStore/RawCol/Columns.antt =====
-- src/mem_store: every way to make a column keeps the number of rows.
use locust_db.Prelude.{
  ℕ, ◌+◌, ◌≡◌, sym, ap, ◌∙◌, Bool, inl, inr, Bool-cases, Option, none, some, Option-cases, List, [],
  ◌∷◌, length, length-append, get_elem?, arith, suc, leb, if◌then◌else◌, ◌/◌,
}
use locust_db.Prelude.Int.{ℤ, pos, negsuc, ◌-ℤ◌, wrap_i64, eq_ℤ}
use locust_db.Errors.{Result, ok, panic, unwrap, ◌>>=◌, ok-injective, bind_inv}
use locust_db.Stringpack.{Bytes}
use locust_db.Stringpack.IndexedPackedStrings
use locust_db.Stringpack.PackedStrings
use locust_db.Stringpack.PackedBytes
use locust_db.Prelude.Sort.{sort_by}
use locust_db.MemStore.Codec.{CodecOp, unhexpack_strings}
use locust_db.MemStore.Codec.Metadata.{with_lz4}
use locust_db.MemStore.Column.{
  DataSection, section_i64, section_u8, section_u64, section_f64, Column, column_codec, new_column,
  len, lz4_encode_section, lz4_encode,
}
use locust_db.MemStore.Integers
use locust_db.MemStore.Integers.{
  encoding_of, Width, max_value, encode, int_codec, into_section, create_col, choose_width,
  i64_codec, is_some, null_section,
}
use locust_db.MemStore.Integers.Roundtrip.{length-delta_encode_values}
use locust_db.MemStore.Floats
use locust_db.MemStore.Strings.{
  unique_loop, decode_all, packs_hex, packed_column, dictionary_column, fast_build_string_column,
  build_dictionary, encode_strings, index_width, bytes_lt, dictionary_codec, packed_codec,
  string_pack_codec,
}
use locust_db.MemStore.ColumnBuilder.StringCol
use locust_db.Ingest.RawCol.{RawVal}
use locust_db.MemStore.RawCol.{text_of, push_texts}

pub plus_zero : (n : ℕ) → 0 + n ≡ n
plus_zero n = omega arith

-- When this yields a column, it has so many rows.
abbrev pub HasRows : Result Column → ℕ → Type 0
HasRows r n = (c : Column) → r ≡ ok c → c.len ≡ n

new_column-HasRows :
    (name : Bytes) (l : ℕ) (range : Option (ℤ × ℤ)) (codec : List CodecOp)
    (sections : List DataSection)
    → HasRows (new_column name l range codec sections) l
unfolding new_column
new_column-HasRows name l range codec sections c h =
    let (made, _, e) = bind_inv (column_codec codec sections) _ c h in
    ap (λ c. c.len) (sym (ok-injective e))

-- One round of `encode`, on the difference `a`.
encode_round : Width → (a : ℤ) → Result (List ℕ) → Result (List ℕ)
encode_round w a rest = elim a [
  | negsuc _ ↦ panic
  | pos n ↦ if leb n (max_value w) then (rest >>= λ encoded. ok (n ∷ encoded)) else panic
]

encode_round_length :
    (w : Width) (a : ℤ) (rest : Result (List ℕ)) (stored : List ℕ) (l : ℕ)
    → encode_round w a rest ≡ ok stored
    → ((xs : List ℕ) → rest ≡ ok xs → length xs ≡ l)
    → length stored ≡ suc l
unfolding encode_round
encode_round_length w (negsuc n) rest stored l h k = cc
encode_round_length w (pos n) rest stored l h k = elim (Bool-cases (leb n (max_value w))) [
  | inl t ↦
      let (xs, f, g) = bind_inv rest (λ xs. ok (n ∷ xs)) stored (rw t at h) in
      ap length (sym (ok-injective g)) ∙ ap suc (k xs f)
  | inr t ↦ let q : panic ≡ ok stored = rw t at h in cc
]

encode_length :
    (w : Width) (values : List ℤ) (offset : ℤ) (stored : List ℕ)
    → encode w values offset ≡ ok stored
    → length stored ≡ length values
unfolding encode encode_round
encode_length w [] offset stored h = ap length (sym (ok-injective h))
encode_length w (v ∷ values) offset stored h =
    encode_round_length w (wrap_i64 (v -ℤ offset)) (encode w values offset) stored (length values) h
      (encode_length w values offset)

module _ (enable_lz4 : Bool) (compress : DataSection → Bytes) where
  lz4_encode-HasRows :
      (column : Column) → HasRows (lz4_encode enable_lz4 compress column) column.len
  unfolding lz4_encode
  lz4_encode-HasRows column c h = elim (Bool-cases enable_lz4) [
    | inr off ↦ ap (λ c. c.len) (sym (ok-injective (rw off at h)))
    | inl on ↦
        let (first, _, e) = bind_inv (unwrap (get_elem? column.sections 0)) _ c (rw on at h) in
        elim (Bool-cases (lz4_encode_section enable_lz4 compress first).1) [
          | inr f ↦ ap (λ c. c.len) (sym (ok-injective (rw f at e)))
          | inl t ↦
              let (codec, _, g) = bind_inv (with_lz4 column.codec (len first)) _ c (rw t at e) in
              ap (λ c. c.len) (sym (ok-injective g))
        ]
  ]

  -- What is made and then compressed.
  encoded-HasRows :
      (r : Result Column) (n : ℕ)
      → HasRows r n
      → HasRows (r >>= λ column. lz4_encode enable_lz4 compress column) n
  encoded-HasRows r n h c e =
      let (column, f, g) = bind_inv r _ c e in lz4_encode-HasRows column c g ∙ h column f

  create_col-HasRows :
      (w : Width) (name : Bytes) (values : List ℤ) (offset min max : ℤ) (delta_encode : Bool)
      (null_map : Option Bytes)
      → HasRows (create_col w name values offset min max delta_encode null_map) (length values)
  unfolding create_col
  create_col-HasRows w name values offset min max delta_encode null_map c h =
      let (stored, e, f) = bind_inv (encode w values offset) _ c h in
      new_column-HasRows name (length stored)
        (some (wrap_i64 (min -ℤ offset), wrap_i64 (max -ℤ offset)))
        (int_codec w offset (eq_ℤ offset (pos 0)) delta_encode (is_some null_map))
        (into_section w stored ∷ null_section null_map) c f
      ∙ encode_length w values offset stored e

  pub integers-HasRows :
      (name : Bytes) (values : List ℤ) (min max : ℤ) (delta_encode : Bool) (null : Option Bytes)
      → HasRows
          (Integers.new_boxed enable_lz4 compress name values min max delta_encode null)
          (length values)
  unfolding Integers.new_boxed
  integers-HasRows name values min0 max0 delta_encode null c h =
      let stored = Integers.delta_encode_values delta_encode values min0 max0 in
      let same = length-delta_encode_values delta_encode values min0 max0 in
      elim (Option-cases (choose_width stored.1 stored.2)) [
        | inl e ↦
            encoded-HasRows _ (length stored.0)
              (new_column-HasRows name (length stored.0) (some (min0, max0))
                (i64_codec delta_encode (is_some null)) (section_i64 stored.0 ∷ null_section null))
              c (rw e at h)
            ∙ same
        | inr ((w, offset), e) ↦
            encoded-HasRows _ (length stored.0)
              (create_col-HasRows w name stored.0 offset min0 max0 delta_encode null) c (rw e at h)
            ∙ same
      ]

  pub floats-HasRows :
      (name : Bytes) (values : List ℕ) (null : Option Bytes)
      → HasRows (Floats.new_boxed enable_lz4 compress name values null) (length values)
  unfolding Floats.new_boxed
  floats-HasRows name values null = encoded-HasRows _ (length values) (
      new_column-HasRows name (length values) none (Floats.float_codec null)
        (section_f64 values ∷ null_section null))

  module _ (decode_hex : Bytes → Option Bytes) where
    packed-HasRows :
        (name : Bytes) (strings : List Bytes) (l : ℕ) (lhex uhex : Bool) (total_bytes : ℕ)
        (present : Option Bytes)
        → HasRows (packed_column decode_hex name strings l lhex uhex total_bytes present) l
    unfolding packed_column
    packed-HasRows name strings l lhex uhex total_bytes present c h =
        elim (Bool-cases (packs_hex lhex uhex total_bytes l)) [
          | inl t ↦
              let (decoded, _, e) = bind_inv (decode_all decode_hex strings) _ c (rw t at h) in
              new_column-HasRows name l none
                (packed_codec (unhexpack_strings uhex total_bytes ∷ []) present)
                (section_u8 (PackedBytes.from_iterator decoded).bytes ∷ null_section present) c e
          | inr f ↦
              new_column-HasRows name l none (packed_codec string_pack_codec present)
                (section_u8 (PackedStrings.into_vec (PackedStrings.from_iterator strings))
                  ∷ null_section present)
                c (rw f at h)
        ]

    dictionary-HasRows :
        (name : Bytes) (strings unique : List Bytes) (l : ℕ) (present : Option Bytes)
        → HasRows (dictionary_column name strings unique l present) l
    unfolding dictionary_column
    dictionary-HasRows name strings unique l present c h =
        let w = index_width (length unique) in
        let packed =
          IndexedPackedStrings.push_all IndexedPackedStrings.default (sort_by bytes_lt unique) in
        let (dictionary_indices, dictionary_data) = IndexedPackedStrings.into_parts packed in
        let (mapping, _, e) = bind_inv (unwrap (IndexedPackedStrings.iter packed)) _ c h in
        let (indices, _, f) =
          bind_inv (encode_strings (build_dictionary w mapping 0 []) strings) _ c e in
        new_column-HasRows name l (some (pos 0, wrap_i64 (pos (length unique))))
          (dictionary_codec (encoding_of w) present)
          (into_section w indices
            ∷ section_u64 dictionary_indices
            ∷ section_u8 dictionary_data
            ∷ null_section present)
          c f

    pub strings-HasRows :
        (name : Bytes) (strings : List Bytes) (l : ℕ) (lhex uhex : Bool) (total_bytes : ℕ)
        (present : Option Bytes)
        → HasRows
            (fast_build_string_column enable_lz4 compress decode_hex name strings l lhex uhex
              total_bytes present)
            l
    unfolding fast_build_string_column
    strings-HasRows name strings l lhex uhex total_bytes present c h =
        elim (Option-cases (unique_loop strings [] (l / 2))) [
          | inl e ↦
              encoded-HasRows _ l (packed-HasRows name strings l lhex uhex total_bytes present) c
                (rw e at h)
          | inr (unique, e) ↦
              encoded-HasRows _ l (dictionary-HasRows name strings unique l present) c (rw e at h)
        ]

    pub len-push_texts :
        (float_to_string : ℕ → Bytes) (values : List RawVal) (builder : StringCol.StringColBuilder)
        → length (push_texts float_to_string values builder).values.words
          ≡ length builder.values.words + length values
    unfolding push_texts StringCol.push IndexedPackedStrings.push
    len-push_texts float_to_string [] builder = omega arith
    len-push_texts float_to_string (v ∷ values) builder =
        let s = text_of float_to_string v in
        omega (
          arith,
          len-push_texts float_to_string values (StringCol.push builder s),
          length-append builder.values.words (
              IndexedPackedStrings.pack_word (length builder.values.backing_store) (length s) ∷ []),
        )
