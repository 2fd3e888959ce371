-- ===== src/Ingest/Buffer/Growth.antt =====
-- src/ingest/buffer.rs: how the columns grow while columns are pushed.
use locust_db.Prelude.{
  ℕ, ◌≤◌, ◌≡◌, sym, ◌∙◌, ap, inl, inr, Bool-cases, Option, none, some, Option-cases, List, [], ◌∷◌,
  map, length-append, length-replicate, replicate, max, arith,
}
use locust_db.Stringpack.{Bytes}
use locust_db.Engine.Operators.DictLookup.{bytes_eq}
use locust_db.Engine.Operators.DictLookup.Dictionary.{bytes_eq_iff}
use locust_db.Ingest.RawCol.{
  RawVal, int, float, str, null, MixedCol, push, push_ints, push_floats, push_strings, push_nulls,
  with_nulls, len,
}
use locust_db.Ingest.Buffer.{
  InputColumn, ints, floats, strs, nulls, update, lookup, len_at, push_input, push_inputs, push_raw,
  push_raw_inputs,
}
use locust_db.Ingest.Buffer.Rows.{column_of, lookup-update_self, lookup-update_ne}

pub len-push_input : (c : InputColumn) (col : MixedCol) → len col ≤ len (push_input c col)
unfolding push_input push_ints push_floats push_strings push_nulls len
len-push_input (ints v) col = omega (arith, length-append col.values (map int v))
len-push_input (floats v) col = omega (arith, length-append col.values (map float v))
len-push_input (strs v) col = omega (arith, length-append col.values (map str v))
len-push_input (nulls c) col = omega (arith, length-append col.values (replicate c null))

pub len-push_raw : (values : List RawVal) (col : MixedCol) → len col ≤ len (push_raw values col)
unfolding push len
len-push_raw [] col = omega arith
len-push_raw (v ∷ values) col =
    omega (arith, len-push_raw values (push col v), length-append col.values (v ∷ []))

pub len-with_nulls : (n : ℕ) → len (with_nulls n) ≡ n
unfolding with_nulls push_nulls len
len-with_nulls n = length-replicate n null

-- Columns that have at least `count` values and at most `bound`.
pub record Between (count bound : ℕ) (cols : List (Bytes × MixedCol)) : Type 0 where
  pub between :
      (name : Bytes) (col : MixedCol)
      → lookup name cols ≡ some col
      → (count ≤ len col) × (len col ≤ bound)

len-column_of :
    (count bound : ℕ) (cols : List (Bytes × MixedCol)) (name : Bytes)
    → Between count bound cols
    → count ≤ len (column_of count (lookup name cols))
len-column_of count bound cols name h = elim (Option-cases (lookup name cols)) [
  | inl e ↦ rw e (omega (arith, len-with_nulls count))
  | inr (col, e) ↦ rw e (h.between name col e).0
]

abbrev found_len : Option MixedCol → ℕ
found_len none = 0
found_len (some col) = len col

pub len_at-some :
    (name : Bytes) (cols : List (Bytes × MixedCol)) (col : MixedCol)
    → lookup name cols ≡ some col
    → len_at name cols ≡ len col
unfolding len_at lookup
len_at-some name cols col e = ap found_len e

-- A column that grows is counted in the bound.
pub update-Between :
    (name : Bytes) (count bound : ℕ) (change : MixedCol → MixedCol) (cols : List (Bytes × MixedCol))
    → ((col : MixedCol) → len col ≤ len (change col))
    → Between count bound cols
    → Between count
        (max bound (len_at name (update name count change cols)))
        (update name count change cols)
      × (count ≤ len_at name (update name count change cols))
update-Between name count bound change cols grows h =
    let changed = change (column_of count (lookup name cols)) in
    let after = update name count change cols in
    let self = lookup-update_self name count change cols in
    let low : count ≤ len changed =
      omega (
        arith,
        len-column_of count bound cols name h,
        grows (column_of count (lookup name cols)),
      ) in
    let l = len_at-some name after changed self in
    (
      record {
        between = λ other col e. elim (Bool-cases (bytes_eq name other)) [
          | inl t ↦
              let same = (bytes_eq_iff name other).0 t in
              let found = len_at-some name after col (ap (λ n. lookup n after) same ∙ e) in
              (omega (arith, low, l, found), omega (arith, found))
          | inr t ↦
              let (least, most) =
                h.between other col (sym (lookup-update_ne name other count change cols t) ∙ e) in
              (least, omega (arith, most))
        ];
      },
      omega (arith, low, l),
    )

pub push_inputs-Between :
    (count : ℕ) (columns : List (Bytes × InputColumn)) (cols : List (Bytes × MixedCol)) (n : ℕ)
    → Between count n cols
    → Between count (push_inputs count columns cols n).1 (push_inputs count columns cols n).0
unfolding push_inputs
push_inputs-Between count [] cols n h = h
push_inputs-Between count ((name, c) ∷ columns) cols n h =
    push_inputs-Between count columns _ _
      (update-Between name count n (push_input c) cols (len-push_input c) h).0

pub push_raw_inputs-Between :
    (count : ℕ) (columns : List (Bytes × List RawVal)) (cols : List (Bytes × MixedCol)) (n : ℕ)
    → Between count n cols
    → Between count
        (push_raw_inputs count columns cols n).1
        (push_raw_inputs count columns cols n).0
unfolding push_raw_inputs
push_raw_inputs-Between count [] cols n h = h
push_raw_inputs-Between count ((name, values) ∷ columns) cols n h =
    push_raw_inputs-Between count columns _ _
      (update-Between name count n (push_raw values) cols (len-push_raw values) h).0
