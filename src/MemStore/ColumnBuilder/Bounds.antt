-- ===== src/MemStore/ColumnBuilder/Bounds.antt =====
-- The bounds that the builder keeps, and the column that it builds.
use locust_db.Prelude.{
  ℕ, ◌≡◌, ap, sym, ◌∙◌, Bool, inl, inr, Bool-cases, Option, List, [], ◌∷◌, ◌++◌, append_assoc,
  append-nil, map, length, length-map, All, All-append, All-imp, arith,
}
use locust_db.Prelude.Int.{ℤ, ◌≤ℤ◌, ltb_ℤ, IsI64}
use locust_db.Errors.{ok}
use locust_db.Stringpack.{Bytes}
use locust_db.Engine.DataTypes.Types.{EncodingType}
use locust_db.MemStore.Column.{DataSection, len, encoding_type, Column}
use locust_db.MemStore.Column.Decoding.{decode_column}
use locust_db.MemStore.Integers.Fits.{Within}
use locust_db.MemStore.Integers.Codecs.{decoded_as, stored_type}
use locust_db.MemStore.Integers.{choose_width}
use locust_db.MemStore.Integers.Roundtrip.{new_boxed-decode_column}
use locust_db.MemStore.ColumnBuilder.{
  IntColBuilder, default, min_ℤ, max_ℤ, unwrap_or_zero, push, push_all, delta_encoded, finalize,
}

-- `min` and `max` bound the values.
pub record IsValid (builder : IntColBuilder) : Type 0 where
  pub least : IsI64 builder.min
  pub greatest : IsI64 builder.max
  pub within : All (Within builder.min builder.max) builder.values

default-IsValid : IsValid default
default-IsValid = record {
  least = record { below = omega arith; above = omega arith };
  greatest = record { below = omega arith; above = omega arith };
  within = tt;
}

-- i64 or null
abbrev pub IsElem : Option ℤ → Type 0
IsElem elem = IsI64 (unwrap_or_zero elem)

min_ℤ_lem : (a b : ℤ) → IsI64 a → IsI64 b → (min_ℤ a b ≤ℤ a) × (min_ℤ a b ≤ℤ b) × IsI64 (min_ℤ a b)
min_ℤ_lem a b h k = elim (Bool-cases (ltb_ℤ b a)) [
  | inl t ↦ rw t (ground arith, ground arith, k)
  | inr t ↦ rw t (ground arith, ground arith, h)
]

max_ℤ_lem : (a b : ℤ) → IsI64 a → IsI64 b → (a ≤ℤ max_ℤ a b) × (b ≤ℤ max_ℤ a b) × IsI64 (max_ℤ a b)
max_ℤ_lem a b h k = elim (Bool-cases (ltb_ℤ b a)) [
  | inl t ↦ rw t (ground arith, ground arith, h)
  | inr t ↦ rw t (ground arith, ground arith, k)
]

widen : (min max low high v : ℤ) → low ≤ℤ min → max ≤ℤ high → Within min max v → Within low high v
widen min max low high v h k w = record {
  i64 = w.i64;
  at_least = ground (arith, w.at_least);
  at_most = ground (arith, w.at_most);
}

push-IsValid :
    (builder : IntColBuilder) (elem : Option ℤ)
    → IsElem elem
    → IsValid builder
    → IsValid (push builder elem)
unfolding push
push-IsValid builder elem i64 valid =
    let x = unwrap_or_zero elem in
    let (low, low_min, least) = min_ℤ_lem x builder.min i64 valid.least in
    let (high, high_max, greatest) = max_ℤ_lem x builder.max i64 valid.greatest in
    record {
      least = least;
      greatest = greatest;
      within =
          All-append _ builder.values (x ∷ [])
            (All-imp (Within builder.min builder.max)
              (Within (min_ℤ x builder.min) (max_ℤ x builder.max)) builder.values
              (λ v w. widen builder.min builder.max _ _ v low_min high_max w) valid.within)
            (record { i64 = i64; at_least = low; at_most = high }, tt);
    }

push_all-IsValid :
    (builder : IntColBuilder) (elems : List (Option ℤ))
    → All IsElem elems
    → IsValid builder
    → IsValid (push_all builder elems)
      × ((push_all builder elems).values ≡ builder.values ++ map unwrap_or_zero elems)
unfolding push_all
push_all-IsValid builder [] h valid = (valid, sym (append-nil builder.values))
push_all-IsValid builder (elem ∷ elems) h valid =
    let (next, values) =
      push_all-IsValid (push builder elem) elems h.1 (push-IsValid builder elem h.0 valid) in
    (
      next,
      values
          ∙ (unfold push in
              append_assoc builder.values (unwrap_or_zero elem ∷ []) (map unwrap_or_zero elems)),
    )

-- Elements that are i64 or null, pushed to a new builder: with any compressor that a decompressor
-- undoes, `finalize` builds a column of as many rows, whatever encoding the counts of the builder
-- make it choose, and the column decodes to the elements, with 0 for null, and the null map given;
-- except that with a null map, and no delta encoding, a column whose bounds make it take 16 or 32
-- bits does not decode.
pub finalize-push_all :
    (enable_lz4 : Bool) (compress : DataSection → Bytes)
    (decompress : Bytes → EncodingType → ℕ → DataSection)
    → ((section : DataSection)
        → decompress (compress section) (encoding_type section) (len section) ≡ section)
    → (elems : List (Option ℤ)) (name : Bytes) (present : Option Bytes) → All IsElem elems
    → (column : Column) × (finalize enable_lz4 compress (push_all default elems) name present
        ≡ ok column)
      × (let builder = push_all default elems in
          decode_column decompress column
          ≡ ok (
              decoded_as
                (stored_type (choose_width builder.min builder.max))
                (delta_encoded enable_lz4 builder)
                (map unwrap_or_zero elems)
                present))
      × (column.len ≡ length elems)
unfolding finalize
finalize-push_all enable_lz4 compress decompress hl elems name present h =
    let (valid, values) = push_all-IsValid default elems h default-IsValid in
    let builder = push_all default elems in
    let (column, e, decoded, rows) =
      new_boxed-decode_column enable_lz4 compress decompress hl name builder.values builder.min
        builder.max (delta_encoded enable_lz4 builder) present valid.least valid.greatest
        valid.within in
    (
      column,
      e,
      decoded
          ∙ ap
              (λ values. ok (
                decoded_as (stored_type (choose_width builder.min builder.max))
                  (delta_encoded enable_lz4 builder) values present))
              values,
      rows ∙ ap length values ∙ length-map unwrap_or_zero elems,
    )
