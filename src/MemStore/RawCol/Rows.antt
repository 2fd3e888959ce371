-- ===== src/MemStore/RawCol/Rows.antt =====
-- src/mem_store/raw_col.rs: a column that is made has as many rows as the column in memory.
use locust_db.Prelude.{
  ℕ, ◌+◌, ◌≡◌, sym, ap, ◌∙◌, Bool, inl, inr, Bool-cases, Option, none, List, [], ◌∷◌, length,
  length-append, arith,
}
use locust_db.Prelude.Int.{ℤ}
use locust_db.Errors.{ok, unwrap, ok-injective, bind_inv}
use locust_db.Stringpack.{Bytes}
use locust_db.Stringpack.IndexedPackedStrings
use locust_db.MemStore.Column.{DataSection, null_column}
use locust_db.MemStore.ColumnBuilder
use locust_db.MemStore.ColumnBuilder.StringCol
use locust_db.MemStore.ColumnBuilder.FloatCol
use locust_db.Ingest.RawCol.{RawVal, MixedCol}
use locust_db.Ingest.RawCol
use locust_db.MemStore.RawCol.{int_elem, push_ints, float_elem, push_floats, push_texts, finalize}
use locust_db.MemStore.RawCol.Columns.{
  plus_zero, HasRows, integers-HasRows, floats-HasRows, strings-HasRows, len-push_texts,
}

push_ints_length :
    (values : List RawVal) (builder made : ColumnBuilder.IntColBuilder)
    → push_ints values builder ≡ ok made
    → length made.values ≡ length builder.values + length values
unfolding push_ints ColumnBuilder.push
push_ints_length [] builder made h =
    let e = ap (λ (b : ColumnBuilder.IntColBuilder). length b.values) (ok-injective h) in
    omega arith
push_ints_length (v ∷ values) builder made h =
    let (elem, _, e) =
      bind_inv (int_elem v) (λ elem. push_ints values (ColumnBuilder.push builder elem)) made h in
    let rest = push_ints_length values (ColumnBuilder.push builder elem) made e in
    omega (arith, rest, length-append builder.values (ColumnBuilder.unwrap_or_zero elem ∷ []))

push_floats_length :
    (int_to_float : ℤ → ℕ) (values : List RawVal) (builder made : FloatCol.FloatColBuilder)
    → push_floats int_to_float values builder ≡ ok made
    → length made.values ≡ length builder.values + length values
unfolding push_floats FloatCol.push
push_floats_length int_to_float [] builder made h =
    let e = ap (λ (b : FloatCol.FloatColBuilder). length b.values) (ok-injective h) in omega arith
push_floats_length int_to_float (v ∷ values) builder made h =
    let (elem, _, e) =
      bind_inv (float_elem int_to_float v)
        (λ elem. push_floats int_to_float values (FloatCol.push builder elem)) made h in
    let rest = push_floats_length int_to_float values (FloatCol.push builder elem) made e in
    omega (arith, rest, length-append builder.values (FloatCol.unwrap_or_zero elem ∷ []))

module _ (enable_lz4 : Bool) (compress : DataSection → Bytes) (decode_hex : Bytes → Option Bytes)
    (int_to_float : ℤ → ℕ) (float_to_string : ℕ → Bytes) where
  pub finalize-HasRows :
      (col : MixedCol) (name : Bytes)
      → HasRows
          (finalize enable_lz4 compress decode_hex int_to_float float_to_string col name)
          (RawCol.len col)
  unfolding finalize StringCol.finalize FloatCol.finalize ColumnBuilder.finalize null_column
      RawCol.len IndexedPackedStrings.len
  finalize-HasRows col name c h = elim (Bool-cases col.types.contains_string) [
    | inl s ↦
        let builder = push_texts float_to_string col.values StringCol.default in
        let (strings, _, e) =
          bind_inv (unwrap (IndexedPackedStrings.iter builder.values)) _ c (rw s at h) in
        strings-HasRows enable_lz4 compress decode_hex name strings (length builder.values.words)
          builder.lhex builder.uhex builder.string_bytes none c e
        ∙ len-push_texts enable_lz4 compress decode_hex float_to_string col.values StringCol.default
        ∙ plus_zero (length col.values)
    | inr s ↦ elim (Bool-cases col.types.contains_float) [
      | inl f ↦
          let (builder, r, e) =
            bind_inv (push_floats int_to_float col.values FloatCol.default) _ c (rw (s, f) at h) in
          floats-HasRows enable_lz4 compress name builder.values none c e
          ∙ push_floats_length int_to_float col.values FloatCol.default builder r
          ∙ plus_zero (length col.values)
      | inr f ↦ elim (Bool-cases col.types.contains_int) [
        | inl i ↦
            let (builder, r, e) =
              bind_inv (push_ints col.values ColumnBuilder.default) _ c (rw (s, f, i) at h) in
            integers-HasRows enable_lz4 compress name builder.values builder.min builder.max _ none
              c e
            ∙ push_ints_length col.values ColumnBuilder.default builder r
            ∙ plus_zero (length col.values)
        | inr i ↦ ap (λ c. c.len) (sym (ok-injective (rw (s, f, i) at h)))
      ]
    ]
  ]
