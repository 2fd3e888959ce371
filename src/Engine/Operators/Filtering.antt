-- ===== src/Engine/Operators/Filtering.antt =====
-- src/engine/operators/filter.rs, select.rs, compact.rs, nonzero_compact.rs, nonzero_indices.rs and
-- exists.rs: keeping some of the rows of a column. A vector that is streamed to is cleared first.
pub mod InPlace
pub mod Distinct
use locust_db.Prelude.{
  ℕ, zero, suc, ◌+◌, ◌-◌, Bool, true, false, ◌&&◌, Option, none, some, List, [], ◌∷◌, ◌++◌, ltb,
  leb, length, get_elem?, set, take, replicate, if◌then◌else◌,
}
use locust_db.Bitvec

module _ {ℓ} {T : Type ℓ} where
  -- `Filter::execute`, with the vector `filtered`
  unfoldable pub filter_loop : (values : List T) (filter : List ℕ) (filtered : List T) → List T
  filter_loop [] filter filtered = filtered
  filter_loop (d ∷ values) [] filtered = filtered
  filter_loop (d ∷ values) (select ∷ filter) filtered =
      filter_loop values filter (if ltb 0 select then filtered ++ d ∷ [] else filtered)

  unfoldable pub filter :
      (stream : Bool) (values : List T) (select : List ℕ) (filtered : List T) → List T
  unfolding filter_loop
  filter stream values select filtered = filter_loop values select (if stream then [] else filtered)

  -- `NullableFilter::execute` from row `i` on; `filter[i]` out of range panics.
  unfoldable pub nullable_filter_loop :
      (values : List T) (filter present : List ℕ) (i : ℕ) (filtered : List T) → Option (List T)
  nullable_filter_loop [] filter present i filtered = some filtered
  nullable_filter_loop (d ∷ values) [] present i filtered = none
  nullable_filter_loop (d ∷ values) (select ∷ filter) present i filtered =
      nullable_filter_loop values filter present (i + 1)
        (if ltb 0 select && Bitvec.is_set present i then filtered ++ d ∷ [] else filtered)

  unfoldable pub nullable_filter :
      (stream : Bool) (values : List T) (filter present : List ℕ) (filtered : List T)
      → Option (List T)
  unfolding nullable_filter_loop
  nullable_filter stream values filter present filtered =
      nullable_filter_loop values filter present 0 (if stream then [] else filtered)

  -- `Select::execute`; an index out of range panics.
  unfoldable pub select_loop :
      (values : List T) (indices : List ℕ) (output : List T) → Option (List T)
  select_loop values [] output = some output
  select_loop values (i ∷ indices) output = elim (get_elem? values i) [
    | none ↦ none
    | some d ↦ select_loop values indices (output ++ d ∷ [])
  ]

  unfoldable pub select :
      (stream : Bool) (values : List T) (indices : List ℕ) (output : List T) → Option (List T)
  unfolding select_loop
  select stream values indices output = select_loop values indices (if stream then [] else output)

  -- `data[j] = data[i]`, both in range
  abbrev pub copy : List T → (i j : ℕ) → List T
  copy values i j = elim (get_elem? values i) [ none ↦ values | some d ↦ set values j d ]

  -- `Compact::execute`: the loop over `select.iter().take(data.len())` from index `i` on, in place,
  -- and `truncate` behind it.
  unfoldable pub compact_loop : (values : List T) (select : List ℕ) (i j : ℕ) → List T
  compact_loop values [] i j = take j values
  compact_loop values (s ∷ select) i j =
      if ltb 0 s
      then compact_loop (copy values i j) select (i + 1) (j + 1)
      else compact_loop values select (i + 1) j

  unfoldable pub compact : (values : List T) (select : List ℕ) → List T
  unfolding compact_loop
  compact values select = compact_loop values (take (length values) select) 0 0

-- `NonzeroCompact::execute`: the loop over `i`, in as many rounds as there are rows.
unfoldable pub nonzero_compact_loop : (rounds : ℕ) (values : List ℕ) (i j : ℕ) → List ℕ
nonzero_compact_loop zero values i j = take j values
nonzero_compact_loop (suc rounds) values i j = elim (get_elem? values i) [
  | none ↦ take j values
  | some d ↦
      if ltb 0 d
      then nonzero_compact_loop rounds (copy values i j) (i + 1) (j + 1)
      else nonzero_compact_loop rounds values (i + 1) j
]

unfoldable pub nonzero_compact : List ℕ → List ℕ
unfolding nonzero_compact_loop
nonzero_compact values = nonzero_compact_loop (length values) values 0 0

-- `NonzeroIndices::execute` from index `index` on, for an output type up to `max_value`:
-- `U::from(index).unwrap()` panics above it.
unfoldable pub nonzero_indices_loop :
    (max_value : ℕ) (counts : List ℕ) (index : ℕ) (unique : List ℕ) → Option (List ℕ)
nonzero_indices_loop max_value [] index unique = some unique
nonzero_indices_loop max_value (n ∷ counts) index unique =
    let pushed = nonzero_indices_loop max_value counts (index + 1) (unique ++ index ∷ []) in
    let skipped = nonzero_indices_loop max_value counts (index + 1) unique in
    if ltb 0 n then (if leb index max_value then pushed else none) else skipped

unfoldable pub nonzero_indices : (max_value : ℕ) → List ℕ → Option (List ℕ)
unfolding nonzero_indices_loop
nonzero_indices max_value counts = nonzero_indices_loop max_value counts 0 []

-- `Exists::execute`: `exists[index] = 1` panics out of range.
unfoldable pub exists_loop : (values : List ℕ) (marks : List ℕ) → Option (List ℕ)
exists_loop [] marks = some marks
exists_loop (i ∷ values) marks =
    let rest = exists_loop values (set marks i 1) in if ltb i (length marks) then rest else none

unfoldable pub exists : (values : List ℕ) (max_index : ℕ) (marks : List ℕ) → Option (List ℕ)
unfolding exists_loop
exists values max_index marks = exists_loop values (
    if ltb (length marks) (max_index + 1)
    then marks ++ replicate (max_index + 1 - length marks) 0
    else marks)
