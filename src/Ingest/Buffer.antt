-- ===== src/Ingest/Buffer.antt =====
-- src/ingest/buffer.rs: the rows that a table has not yet made a partition of. The hash map is an
-- association list; the order of its entries is left open by the code and not used.
pub mod Rows
pub mod Growth
pub mod Aligned
pub mod Pushed
use locust_db.Prelude.{
  ℕ, ◌+◌, ◌-◌, max, Bool, true, false, Option, none, some, List, [], ◌∷◌, ◌++◌, map, ltb,
  if◌then◌else◌,
}
use locust_db.Prelude.Int.{ℤ}
use locust_db.Stringpack.{Bytes}
use locust_db.Engine.Operators.DictLookup.{bytes_eq}
use locust_db.Ingest.RawCol.{
  RawVal, MixedCol, push, push_ints, push_floats, push_strings, push_nulls, with_nulls, len,
}

pub record Buffer : Type 0 where
  pub cols : List (Bytes × MixedCol)
  pub length : ℕ

abbrev pub empty : Buffer
empty = record { cols = []; length = 0 }

-- src/ingest/input_column.rs
pub data InputColumn : Type 0 where
  ints : List ℤ → InputColumn
  floats : List ℕ → InputColumn
  strs : List Bytes → InputColumn
  nulls : ℕ → InputColumn

-- `self.buffer.entry(name).or_insert_with(|| MixedCol::with_nulls(len))`, changed by `change`
unfoldable pub update :
    (name : Bytes) (count : ℕ) (change : MixedCol → MixedCol)
    → List (Bytes × MixedCol)
    → List (Bytes × MixedCol)
unfolding with_nulls bytes_eq
update name count change [] = (name, change (with_nulls count)) ∷ []
update name count change ((key, col) ∷ cols) =
    if bytes_eq key name
    then (key, change col) ∷ cols
    else (key, col) ∷ update name count change cols

unfoldable pub lookup : Bytes → List (Bytes × MixedCol) → Option MixedCol
unfolding bytes_eq
lookup name [] = none
lookup name ((key, col) ∷ cols) = if bytes_eq key name then some col else lookup name cols

-- The length of the column that `update` has changed.
abbrev pub len_at : Bytes → List (Bytes × MixedCol) → ℕ
unfolding lookup len
len_at name cols = elim (lookup name cols) [ none ↦ 0 | some col ↦ len col ]

unfoldable pub extend_col : (target_length : ℕ) → MixedCol → MixedCol
unfolding push_nulls len
extend_col target_length col =
    if ltb (len col) target_length then push_nulls col (target_length - len col) else col

-- `for buffered_col in self.buffer.values_mut()`
unfoldable pub extend_cols : (target_length : ℕ) → List (Bytes × MixedCol) → List (Bytes × MixedCol)
unfolding extend_col
extend_cols target_length [] = []
extend_cols target_length ((key, col) ∷ cols) =
    (key, extend_col target_length col) ∷ extend_cols target_length cols

unfoldable pub extend_to_largest : Buffer → Buffer
unfolding extend_cols
extend_to_largest buffer = record buffer { cols = extend_cols buffer.length buffer.cols }

-- The loop over the values of a row.
unfoldable pub push_values :
    (count : ℕ) → List (Bytes × RawVal) → List (Bytes × MixedCol) → List (Bytes × MixedCol)
unfolding update push
push_values count [] cols = cols
push_values count ((name, input_val) ∷ row) cols =
    push_values count row (update name count (λ col. push col input_val) cols)

unfoldable pub push_row : Buffer → List (Bytes × RawVal) → Buffer
unfolding push_values extend_to_largest
push_row buffer row =
    extend_to_largest
      (record { cols = push_values buffer.length row buffer.cols; length = buffer.length + 1 })

unfoldable pub push_input : InputColumn → MixedCol → MixedCol
unfolding push_ints push_floats push_strings push_nulls
push_input (ints v) col = push_ints col v
push_input (strs v) col = push_strings col v
push_input (floats v) col = push_floats col v
push_input (nulls c) col = push_nulls col c

-- The loop of `push_typed_cols`, with the greatest length so far.
unfoldable pub push_inputs :
    (count : ℕ)
    → List (Bytes × InputColumn)
    → List (Bytes × MixedCol)
    → (new_length : ℕ) → List (Bytes × MixedCol) × ℕ
unfolding update push_input lookup len
push_inputs count [] cols new_length = (cols, new_length)
push_inputs count ((name, input_col) ∷ columns) cols new_length =
    let cols' = update name count (push_input input_col) cols in
    push_inputs count columns cols' (max new_length (len_at name cols'))

unfoldable pub push_typed_cols : Buffer → List (Bytes × InputColumn) → Buffer
unfolding push_inputs extend_to_largest
push_typed_cols buffer columns =
    let (cols, new_length) = push_inputs buffer.length columns buffer.cols 0 in
    extend_to_largest (record { cols = cols; length = new_length })

abbrev pub push_raw : List RawVal → MixedCol → MixedCol
unfolding push
push_raw [] col = col
push_raw (v ∷ values) col = push_raw values (push col v)

-- The loop of `push_untyped_cols`.
unfoldable pub push_raw_inputs :
    (count : ℕ)
    → List (Bytes × List RawVal)
    → List (Bytes × MixedCol)
    → (new_length : ℕ) → List (Bytes × MixedCol) × ℕ
unfolding update push_raw lookup len
push_raw_inputs count [] cols new_length = (cols, new_length)
push_raw_inputs count ((name, input_vals) ∷ columns) cols new_length =
    let cols' = update name count (push_raw input_vals) cols in
    push_raw_inputs count columns cols' (max new_length (len_at name cols'))

unfoldable pub push_untyped_cols : Buffer → List (Bytes × List RawVal) → Buffer
unfolding push_raw_inputs extend_to_largest
push_untyped_cols buffer columns =
    let (cols, new_length) = push_raw_inputs buffer.length columns buffer.cols 0 in
    extend_to_largest (record { cols = cols; length = new_length })
