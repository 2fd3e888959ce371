-- ===== src/Ingest/Buffer/Rows.antt =====
-- Pushing rows to a buffer, column by column.
use locust_db.Prelude.{
  ℕ, zero, suc, ◌+◌, ◌-◌, ◌≡◌, refl, ap, subst, sym, ◌∙◌, Bool, true, false, ◌||◌, inl, inr,
  Bool-cases, Option, none, some, List, [], ◌∷◌, ◌++◌, ltb, length, length-append, length-replicate,
  replicate, if◌then◌else◌, arith,
}
use locust_db.Stringpack.{Bytes}
use locust_db.Engine.Operators.DictLookup.{bytes_eq}
use locust_db.Engine.Operators.DictLookup.Dictionary.{bytes_eq_iff}
use locust_db.Ingest.RawCol.{RawVal, null, MixedCol, push, push_nulls, with_nulls, len}
use locust_db.Ingest.Buffer.{
  Buffer, update, lookup, extend_to_largest, extend_col, extend_cols, push_values, push_row,
}

-- A row has a value of this name.
abbrev pub named : Bytes → List (Bytes × RawVal) → Bool
named name [] = false
named name ((key, v) ∷ row) = bytes_eq key name || named name row

-- No name twice.
abbrev pub HasDistinctNames : List (Bytes × RawVal) → Type 0
HasDistinctNames [] = Unit
HasDistinctNames ((key, v) ∷ row) = (named key row ≡ false) × HasDistinctNames row

-- The value of a row under a name, or null.
abbrev pub cell : Bytes → List (Bytes × RawVal) → RawVal
cell name [] = null
cell name ((key, v) ∷ row) = if bytes_eq key name then v else cell name row

-- A column that is missing stands for nulls.
abbrev pub values_of : ℕ → Option MixedCol → List RawVal
values_of count none = replicate count null
values_of count (some col) = col.values

abbrev pub values_at : Bytes → Buffer → List RawVal
values_at name buffer = values_of buffer.length (lookup name buffer.cols)

-- Every column has as many values as the buffer has rows.
pub record IsAligned (buffer : Buffer) : Type 0 where
  pub aligned :
      (name : Bytes) (col : MixedCol) → lookup name buffer.cols ≡ some col → len col ≡ buffer.length

abbrev pub column_of : ℕ → Option MixedCol → MixedCol
column_of count none = with_nulls count
column_of count (some col) = col

pub lookup-update_self :
    (name : Bytes) (count : ℕ) (f : MixedCol → MixedCol) (cols : List (Bytes × MixedCol))
    → lookup name (update name count f cols) ≡ some (f (column_of count (lookup name cols)))
unfolding lookup update
lookup-update_self name count f [] = rw ((bytes_eq_iff name name).1 refl) refl
lookup-update_self name count f ((key, col) ∷ cols) =
    ground (arith, lookup-update_self name count f cols)

pub lookup-update_ne :
    (name other : Bytes) (count : ℕ) (f : MixedCol → MixedCol) (cols : List (Bytes × MixedCol))
    → bytes_eq name other ≡ false
    → lookup other (update name count f cols) ≡ lookup other cols
unfolding lookup update
lookup-update_ne name other count f [] h = rw h refl
lookup-update_ne name other count f ((key, col) ∷ cols) h = elim (Bool-cases (bytes_eq key name)) [
  | inl t ↦
      let ne : bytes_eq key other ≡ false =
        subst (λ key. bytes_eq key other ≡ false) (sym ((bytes_eq_iff key name).0 t)) h in
      ground (arith, ne)
  | inr t ↦ ground (arith, lookup-update_ne name other count f cols h)
]

lookup-push_values :
    (count : ℕ) (row : List (Bytes × RawVal)) (cols : List (Bytes × MixedCol)) (name : Bytes)
    → HasDistinctNames row
    → lookup name (push_values count row cols) ≡ (
        if named name row
        then some (push (column_of count (lookup name cols)) (cell name row))
        else lookup name cols)
unfolding push_values
lookup-push_values count [] cols name h = refl
lookup-push_values count ((key, v) ∷ row) cols name h =
    let after = update key count (λ col. push col v) cols in
    let later = lookup-push_values count row after name h.1 in
    elim (Bool-cases (bytes_eq key name)) [
      | inl t ↦
          let same = (bytes_eq_iff key name).0 t in
          let absent : named name row ≡ false = subst (λ key. named key row ≡ false) same h.0 in
          let found : lookup name after ≡ some (push (column_of count (lookup name cols)) v) =
            subst (λ name. lookup name after ≡ some (push (column_of count (lookup name cols)) v))
              same (lookup-update_self key count (λ col. push col v) cols) in
          later ∙ rw (t, absent) found
      | inr t ↦
          let other = lookup-update_ne key name count (λ col. push col v) cols t in
          later ∙ rw (t, other) refl
    ]

abbrev pub extend_found : ℕ → Option MixedCol → Option MixedCol
extend_found target none = none
extend_found target (some col) = some (extend_col target col)

pub lookup-extend_cols :
    (target : ℕ) (cols : List (Bytes × MixedCol)) (name : Bytes)
    → lookup name (extend_cols target cols) ≡ extend_found target (lookup name cols)
unfolding lookup extend_cols
lookup-extend_cols target [] name = refl
lookup-extend_cols target ((key, col) ∷ cols) name =
    ground (arith, lookup-extend_cols target cols name)

push_nulls_values :
    (col : MixedCol) (n : ℕ) → (push_nulls col n).values ≡ col.values ++ replicate n null
unfolding push_nulls
push_nulls_values col n = refl

-- Up to one more row than there were.
extend_col_full :
    (count : ℕ) (col : MixedCol) → len col ≡ count + 1 → extend_col (count + 1) col ≡ col
unfolding extend_col
extend_col_full count col h =
    let full : ltb (len col) (count + 1) ≡ false = ground arith in rw full refl

extend_col_short :
    (count : ℕ) (col : MixedCol)
    → len col ≡ count
    → (extend_col (count + 1) col).values ≡ col.values ++ null ∷ []
unfolding extend_col push_nulls
extend_col_short count col h =
    let short : ltb (len col) (count + 1) ≡ true = ground arith in
    let one : count + 1 - len col ≡ 1 = omega arith in rw (short, one) refl

replicate_push : (n : ℕ) → replicate (n + 1) null ≡ replicate n null ++ null ∷ []
replicate_push n = ap (λ m. replicate m null) plus ∙ go n
  where
    plus : n + 1 ≡ suc n
    plus = omega arith

    go : (n : ℕ) → replicate (suc n) null ≡ replicate n null ++ null ∷ []
    go zero = refl
    go (suc n) = ap (◌∷◌ null) (go n)

len-values_of :
    (count : ℕ) (o : Option MixedCol)
    → ((col : MixedCol) → o ≡ some col → len col ≡ count)
    → length (values_of count o) ≡ count
unfolding len
len-values_of count none h = length-replicate count null
len-values_of count (some col) h = h col refl

len-of_values :
    (col : MixedCol) (n : ℕ) {values : List RawVal}
    → col.values ≡ values
    → length values ≡ n
    → len col ≡ n
unfolding len
len-of_values col n e h = ap length e ∙ h

-- What one more row makes of a column.
after_row : ℕ → Bool → RawVal → Option MixedCol → Option MixedCol
after_row count true v o = extend_found (count + 1) (some (push (column_of count o) v))
after_row count false v o = extend_found (count + 1) o

values_of-after_row :
    (count : ℕ) (has : Bool) (v : RawVal) (o : Option MixedCol)
    → ((col : MixedCol) → o ≡ some col → len col ≡ count)
    → (has ≡ false → v ≡ null)
    → values_of (count + 1) (after_row count has v o) ≡ values_of count o ++ v ∷ []
unfolding after_row push len with_nulls push_nulls
values_of-after_row count true v none h k =
    let nulls : List RawVal = replicate count null in
    ap (λ col. col.values)
      (extend_col_full count (push (with_nulls count) v)
        (omega (arith, length-append nulls (v ∷ []), length-replicate count null)))
values_of-after_row count true v (some col) h k =
    let rows = h col refl in
    ap (λ col. col.values)
      (extend_col_full count (push col v) (omega (arith, length-append col.values (v ∷ []))))
values_of-after_row count false v none h k =
    replicate_push count ∙ ap (λ v. replicate count null ++ v ∷ []) (sym (k refl))
values_of-after_row count false v (some col) h k =
    extend_col_short count col (h col refl) ∙ ap (λ v. col.values ++ v ∷ []) (sym (k refl))

after_row_lem :
    (count : ℕ) (has : Bool) (v : RawVal) (o : Option MixedCol)
    → extend_found (count + 1) (if has then some (push (column_of count o) v) else o)
      ≡ after_row count has v o
unfolding after_row
after_row_lem count true v o = refl
after_row_lem count false v o = refl

cell-absent :
    (name : Bytes) (row : List (Bytes × RawVal)) → named name row ≡ false → cell name row ≡ null
cell-absent name [] h = refl
cell-absent name ((key, v) ∷ row) h = ground (arith, cell-absent name row)

-- Pushing a row, of distinct names, to a buffer whose columns are as long as it has rows: the buffer
-- has one row more, its columns are again as long as that, and each column, those of the row, those
-- it leaves out and those that are new, has its former values (nulls for a new one) and then the
-- value of the row, or null.
pub push_row-values_at :
    (buffer : Buffer) (row : List (Bytes × RawVal))
    → IsAligned buffer
    → HasDistinctNames row
    → IsAligned (push_row buffer row)
      × ((push_row buffer row).length ≡ buffer.length + 1)
      × ((name : Bytes)
          → values_at name (push_row buffer row) ≡ values_at name buffer ++ cell name row ∷ [])
unfolding push_row extend_to_largest
push_row-values_at buffer row h distinct =
    let count = buffer.length in
    let found : (name : Bytes)
        → lookup name (push_row buffer row).cols
          ≡ after_row count (named name row) (cell name row) (lookup name buffer.cols) =
      λ name.
        lookup-extend_cols (count + 1) (push_values count row buffer.cols) name
        ∙ ap (extend_found (count + 1)) (lookup-push_values count row buffer.cols name distinct)
        ∙ after_row_lem count (named name row) (cell name row) (lookup name buffer.cols) in
    let values : (name : Bytes)
        → values_at name (push_row buffer row) ≡ values_at name buffer ++ cell name row ∷ [] =
      λ name.
        ap (values_of (count + 1)) (found name)
        ∙ values_of-after_row count (named name row) (cell name row) (lookup name buffer.cols)
            (h.aligned name) (cell-absent name row) in
    (
      record {
        aligned = λ name col e.
            len-of_values col (count + 1) (sym (ap (values_of (count + 1)) e) ∙ values name) (
              length-append (values_at name buffer) (cell name row ∷ [])
              ∙ ap (λ n. n + 1) (len-values_of count (lookup name buffer.cols) (h.aligned name)));
      },
      refl,
      values,
    )
