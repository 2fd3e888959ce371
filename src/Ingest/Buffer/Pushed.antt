-- ===== src/Ingest/Buffer/Pushed.antt =====
-- src/ingest/buffer.rs: how many rows a request of columns adds, whose names are the keys of a hash map.
use locust_db.Prelude.{
  ℕ, ◌+◌, ◌≡◌, refl, sym, subst, ap, ◌∙◌, Bool, true, false, ◌||◌, inl, inr, Bool-cases,
  Option-cases, some, List, [], ◌∷◌, map, length, length-map, length-append, length-replicate,
  replicate, max, arith,
}
use locust_db.Stringpack.{Bytes}
use locust_db.Engine.Operators.DictLookup.{bytes_eq}
use locust_db.Engine.Operators.DictLookup.Dictionary.{bytes_eq_iff}
use locust_db.Ingest.RawCol.{
  RawVal, int, float, str, null, MixedCol, push, push_ints, push_floats, push_strings, push_nulls,
  len,
}
use locust_db.Ingest.Buffer.{
  Buffer, InputColumn, ints, floats, strs, nulls, update, lookup, len_at, push_input, push_inputs,
  push_typed_cols, push_raw, push_raw_inputs, push_untyped_cols, extend_to_largest,
}
use locust_db.Ingest.Buffer.Rows.{IsAligned, column_of, lookup-update_self, lookup-update_ne}
use locust_db.Ingest.Buffer.Growth.{len_at-some, len-with_nulls}

module _ {ℓ} {A : Type ℓ} where
  abbrev pub has_name : Bytes → List (Bytes × A) → Bool
  has_name name [] = false
  has_name name ((key, c) ∷ columns) = bytes_eq key name || has_name name columns

  -- The columns of a hash map.
  abbrev pub HasDistinctKeys : List (Bytes × A) → Type 0
  HasDistinctKeys [] = Unit
  HasDistinctKeys ((key, c) ∷ columns) = (has_name key columns ≡ false) × HasDistinctKeys columns

  -- The length of the longest column.
  abbrev pub longest : (A → ℕ) → List (Bytes × A) → ℕ
  longest size [] = 0
  longest size ((key, c) ∷ columns) = max (size c) (longest size columns)

  -- The columns that are not yet pushed to have `count` values, if they are there.
  record Waiting (count : ℕ) (columns : List (Bytes × A)) (cols : List (Bytes × MixedCol))
      : Type 0 where
    waiting :
        (name : Bytes) (col : MixedCol)
        → has_name name columns ≡ true
        → lookup name cols ≡ some col
        → len col ≡ count

  Waiting-update :
      (count : ℕ) (key : Bytes) (c : A) (columns : List (Bytes × A)) (change : MixedCol → MixedCol)
      (cols : List (Bytes × MixedCol))
      → has_name key columns ≡ false
      → Waiting count ((key, c) ∷ columns) cols
      → Waiting count columns (update key count change cols)
  Waiting-update count key c columns change cols h w = record {
    waiting = λ name col named e. elim (Bool-cases (bytes_eq key name)) [
      | inl t ↦
          let same = (bytes_eq_iff key name).0 t in
          let absent : has_name name columns ≡ false =
            subst (λ k. has_name k columns ≡ false) same h in
          absurd (contradiction (sym named ∙ absent))
      | inr t ↦
          w.waiting name col (ground (arith, named))
            (sym (lookup-update_ne key name count change cols t) ∙ e)
    ];
  }
    where
      contradiction : true ≡ false → ⊥
      contradiction e = cc

  Waiting-IsAligned :
      (buffer : Buffer) (columns : List (Bytes × A))
      → IsAligned buffer
      → Waiting buffer.length columns buffer.cols
  Waiting-IsAligned buffer columns h = record { waiting = λ name col _ e. h.aligned name col e }

  len-updated :
      (count : ℕ) (key : Bytes) (c : A) (columns : List (Bytes × A)) (change : MixedCol → MixedCol)
      (size : ℕ) (cols : List (Bytes × MixedCol))
      → ((col : MixedCol) → len (change col) ≡ len col + size)
      → Waiting count ((key, c) ∷ columns) cols
      → len_at key (update key count change cols) ≡ count + size
  len-updated count key c columns change size cols grows w =
      let after = update key count change cols in
      let found = len_at-some key after _ (lookup-update_self key count change cols) in
      let self : bytes_eq key key ≡ true = (bytes_eq_iff key key).1 refl in
      found
      ∙ grows (column_of count (lookup key cols))
      ∙ ap (λ l. l + size)
          (elim (Option-cases (lookup key cols)) [
            | inl e ↦ rw e (len-with_nulls count)
            | inr (col, e) ↦ rw e (w.waiting key col (ground (arith, self)) e)
          ])

abbrev pub input_rows : InputColumn → ℕ
input_rows (ints v) = length v
input_rows (floats v) = length v
input_rows (strs v) = length v
input_rows (nulls c) = c

len-push_input_rows :
    (c : InputColumn) (col : MixedCol) → len (push_input c col) ≡ len col + input_rows c
unfolding push_input push_ints push_floats push_strings push_nulls len
len-push_input_rows (ints v) col =
    omega (arith, length-append col.values (map int v), length-map int v)
len-push_input_rows (floats v) col =
    omega (arith, length-append col.values (map float v), length-map float v)
len-push_input_rows (strs v) col =
    omega (arith, length-append col.values (map str v), length-map str v)
len-push_input_rows (nulls c) col =
    omega (arith, length-append col.values (replicate c null), length-replicate c null)

len-push_raw_rows :
    (values : List RawVal) (col : MixedCol) → len (push_raw values col) ≡ len col + length values
unfolding push len
len-push_raw_rows [] col = omega arith
len-push_raw_rows (v ∷ values) col =
    omega (arith, len-push_raw_rows values (push col v), length-append col.values (v ∷ []))

push_inputs-longest :
    (count : ℕ) (columns : List (Bytes × InputColumn)) (cols : List (Bytes × MixedCol)) (m k : ℕ)
    → HasDistinctKeys columns
    → Waiting count columns cols
    → (push_inputs count columns cols (max m (count + k))).1
      ≡ max m (count + max k (longest input_rows columns))
unfolding push_inputs
push_inputs-longest count [] cols m k h w = omega arith
push_inputs-longest count ((key, c) ∷ columns) cols m k h w =
    let after = update key count (push_input c) cols in
    let l =
      len-updated count key c columns (push_input c) (input_rows c) cols (len-push_input_rows c)
        w in
    let next : max (max m (count + k)) (len_at key after) ≡ max m (count + max k (input_rows c)) =
      omega (arith, l) in
    ap (λ n. (push_inputs count columns after n).1) next
    ∙ push_inputs-longest count columns after m (max k (input_rows c)) h.1
        (Waiting-update count key c columns (push_input c) cols h.0 w)
    ∙ omega arith

push_raw_inputs-longest :
    (count : ℕ) (columns : List (Bytes × List RawVal)) (cols : List (Bytes × MixedCol)) (m k : ℕ)
    → HasDistinctKeys columns
    → Waiting count columns cols
    → (push_raw_inputs count columns cols (max m (count + k))).1
      ≡ max m (count + max k (longest length columns))
unfolding push_raw_inputs
push_raw_inputs-longest count [] cols m k h w = omega arith
push_raw_inputs-longest count ((key, c) ∷ columns) cols m k h w =
    let after = update key count (push_raw c) cols in
    let l = len-updated count key c columns (push_raw c) (length c) cols (len-push_raw_rows c) w in
    let next : max (max m (count + k)) (len_at key after) ≡ max m (count + max k (length c)) =
      omega (arith, l) in
    ap (λ n. (push_raw_inputs count columns after n).1) next
    ∙ push_raw_inputs-longest count columns after m (max k (length c)) h.1
        (Waiting-update count key c columns (push_raw c) cols h.0 w)
    ∙ omega arith

pub push_typed_cols-longest :
    (buffer : Buffer) (column : Bytes × InputColumn) (columns : List (Bytes × InputColumn))
    → IsAligned buffer
    → HasDistinctKeys (column ∷ columns)
    → (push_typed_cols buffer (column ∷ columns)).length
      ≡ buffer.length + longest input_rows (column ∷ columns)
unfolding push_typed_cols push_inputs extend_to_largest
push_typed_cols-longest buffer (key, c) columns h d =
    let count = buffer.length in
    let w = Waiting-IsAligned buffer ((key, c) ∷ columns) h in
    let after = update key count (push_input c) buffer.cols in
    let l =
      len-updated count key c columns (push_input c) (input_rows c) buffer.cols
        (len-push_input_rows c) w in
    ap (λ n. (push_inputs count columns after (max 0 n)).1) l
    ∙ push_inputs-longest count columns after 0 (input_rows c) d.1
        (Waiting-update count key c columns (push_input c) buffer.cols d.0 w)
    ∙ omega arith

pub push_untyped_cols-longest :
    (buffer : Buffer) (column : Bytes × List RawVal) (columns : List (Bytes × List RawVal))
    → IsAligned buffer
    → HasDistinctKeys (column ∷ columns)
    → (push_untyped_cols buffer (column ∷ columns)).length
      ≡ buffer.length + longest length (column ∷ columns)
unfolding push_untyped_cols push_raw_inputs extend_to_largest
push_untyped_cols-longest buffer (key, c) columns h d =
    let count = buffer.length in
    let w = Waiting-IsAligned buffer ((key, c) ∷ columns) h in
    let after = update key count (push_raw c) buffer.cols in
    let l =
      len-updated count key c columns (push_raw c) (length c) buffer.cols (len-push_raw_rows c) w in
    ap (λ n. (push_raw_inputs count columns after (max 0 n)).1) l
    ∙ push_raw_inputs-longest count columns after 0 (length c) d.1
        (Waiting-update count key c columns (push_raw c) buffer.cols d.0 w)
    ∙ omega arith
