-- ===== src/Ingest/Buffer/Aligned.antt =====
-- src/ingest/buffer.rs: that every operation leaves the columns as long as the buffer has rows.
use locust_db.Prelude.{
  ℕ, ◌-◌, ◌≤◌, ◌≡◌, sym, subst, ◌∙◌, inl, inr, Bool-cases, Option, none, some, Option-cases, List,
  ◌∷◌, length, length-append, length-replicate, replicate, max, ltb, arith,
}
use locust_db.Stringpack.{Bytes}
use locust_db.Ingest.RawCol.{RawVal, null, MixedCol, push_nulls, len}
use locust_db.Ingest.Buffer.{
  Buffer, InputColumn, update, lookup, len_at, extend_col, push_input, push_inputs, push_typed_cols,
  push_raw, push_raw_inputs, push_untyped_cols, extend_to_largest,
}
use locust_db.Ingest.Buffer.Rows.{IsAligned, extend_found, lookup-extend_cols}
use locust_db.Ingest.Buffer.Growth.{
  len-push_input, len-push_raw, Between, update-Between, push_inputs-Between,
  push_raw_inputs-Between,
}

-- The bound of the first column of a request is the length of the longer.
first-Between :
    (count n : ℕ) (cols : List (Bytes × MixedCol))
    → count ≤ n
    → Between count (max count n) cols
    → Between count (max 0 n) cols
first-Between count n cols h k =
    let e : max count n ≡ max 0 n = omega arith in subst (λ b. Between count b cols) e k

IsAligned-Between :
    (buffer : Buffer) → IsAligned buffer → Between buffer.length buffer.length buffer.cols
IsAligned-Between buffer h = record {
  between =
      λ name col e. (omega (arith, h.aligned name col e), omega (arith, h.aligned name col e));
}

len-extend_col :
    (target : ℕ) (col : MixedCol) → len col ≤ target → len (extend_col target col) ≡ target
unfolding extend_col len push_nulls
len-extend_col target col h = elim (Bool-cases (ltb (length col.values) target)) [
  | inl t ↦
      let n = target - length col.values in
      rw t (omega (arith, h, length-append col.values (replicate n null), length-replicate n null))
  | inr t ↦ rw t (ground arith)
]

none_found :
    (n : ℕ) (o : Option MixedCol) (col : MixedCol) → o ≡ none → extend_found n o ≡ some col → ⊥
none_found n none col e f = cc
none_found n (some old) col e f = cc

some_found :
    (n : ℕ) (o : Option MixedCol) (old col : MixedCol)
    → o ≡ some old
    → extend_found n o ≡ some col
    → len (extend_col n old) ≡ n
    → len col ≡ n
some_found n none old col e f h = cc
some_found n (some o) old col e f h = cc

extend_to_largest-IsAligned :
    (count n : ℕ) (cols : List (Bytes × MixedCol))
    → Between count n cols
    → IsAligned (extend_to_largest (record { cols = cols; length = n }))
unfolding extend_to_largest
extend_to_largest-IsAligned count n cols h = record {
  aligned = λ name col e.
      let found = sym (lookup-extend_cols n cols name) ∙ e in
      elim (Option-cases (lookup name cols)) [
        | inl m ↦ absurd (none_found n (lookup name cols) col m found)
        | inr (old, m) ↦
            some_found n (lookup name cols) old col m found
              (len-extend_col n old (h.between name old m).1)
      ];
}

pub push_typed_cols-IsAligned :
    (buffer : Buffer) (column : Bytes × InputColumn) (columns : List (Bytes × InputColumn))
    → IsAligned buffer
    → IsAligned (push_typed_cols buffer (column ∷ columns))
unfolding push_typed_cols push_inputs
push_typed_cols-IsAligned buffer (name, c) columns h =
    let count = buffer.length in
    let cols = update name count (push_input c) buffer.cols in
    let (first, least) =
      update-Between name count count (push_input c) buffer.cols (len-push_input c)
        (IsAligned-Between buffer h) in
    extend_to_largest-IsAligned count (push_inputs count columns cols (max 0 (len_at name cols))).1
      (push_inputs count columns cols (max 0 (len_at name cols))).0
      (push_inputs-Between count columns cols (max 0 (len_at name cols))
        (first-Between count (len_at name cols) cols least first))

pub push_untyped_cols-IsAligned :
    (buffer : Buffer) (column : Bytes × List RawVal) (columns : List (Bytes × List RawVal))
    → IsAligned buffer
    → IsAligned (push_untyped_cols buffer (column ∷ columns))
unfolding push_untyped_cols push_raw_inputs
push_untyped_cols-IsAligned buffer (name, values) columns h =
    let count = buffer.length in
    let cols = update name count (push_raw values) buffer.cols in
    let (first, least) =
      update-Between name count count (push_raw values) buffer.cols (len-push_raw values)
        (IsAligned-Between buffer h) in
    extend_to_largest-IsAligned count
      (push_raw_inputs count columns cols (max 0 (len_at name cols))).1
      (push_raw_inputs count columns cols (max 0 (len_at name cols))).0
      (push_raw_inputs-Between count columns cols (max 0 (len_at name cols))
        (first-Between count (len_at name cols) cols least first))
