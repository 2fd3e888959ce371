-- ===== src/Engine/Operators/TopN.antt =====
-- src/engine/operators/top_n.rs: the indices of the first `n` rows of a column in the order of a
-- comparator, by a heap that holds the row that is the last of them at its root.
pub mod Heap
pub mod Replace
pub mod Fill
pub mod Best
use locust_db.Prelude.{
  ℕ, zero, suc, ◌+◌, ◌-◌, ◌*◌, min, Bool, true, false, ◌&&◌, ◌||◌, Option, none, some, List, [],
  ◌∷◌, ◌++◌, map, length, set, take, drop, ltb, leb, ◌==◌, if◌then◌else◌, Ord,
}
use locust_db.Prelude.Arrays.{get_or, range_from, zip}
use locust_db.Prelude.Sort.{sort_by}
use locust_db.Engine.Operators.Comparator.{Comparator}

-- The operator's own state, with the vectors `indices` and `keys` of the scratchpad. The capacity of
-- both is `n`.
pub record TopN {ℓ} (T : Type ℓ) : Type ℓ where
  pub n : ℕ
  pub last_index : ℕ
  pub indices : List ℕ
  pub keys : List T

abbrev pub init {ℓ} : {T : Type ℓ} → ℕ → TopN T
init n = record { n = n; last_index = 0; indices = []; keys = [] }

module _ {ℓ} {T : Type ℓ} (C : Comparator T) where
  -- `C::cmp(key, keys[left]) && (right >= keys.len() || C::cmp(keys[right], keys[left]))`
  abbrev pub left_next : List T → T → (node : ℕ) → Bool
  left_next keys key node =
      let left_child = get_or keys (2 * node + 1) key in
      C.cmp key left_child
      && (leb (length keys) (2 * node + 2) || C.cmp (get_or keys (2 * node + 2) key) left_child)

  abbrev pub right_next : List T → T → (node : ℕ) → Bool
  right_next keys key node =
      ltb (2 * node + 2) (length keys) && C.cmp key (get_or keys (2 * node + 2) key)

  -- The loop goes down the tree: as much fuel as there are keys is enough.
  unfoldable pub heap_loop :
      (fuel : ℕ) (keys : List T) (values : List ℕ) (key : T) (value node : ℕ) → List T × List ℕ
  heap_loop zero keys values key value node = (set keys node key, set values node value)
  heap_loop (suc fuel) keys values key value node = elim (ltb (2 * node + 1) (length keys)) [
    | false ↦ (set keys node key, set values node value)
    | true ↦ elim (left_next keys key node) [
      | true ↦
          heap_loop fuel (set keys node (get_or keys (2 * node + 1) key))
            (set values node (get_or values (2 * node + 1) value)) key value (2 * node + 1)
      | false ↦ elim (right_next keys key node) [
        | true ↦
            heap_loop fuel (set keys node (get_or keys (2 * node + 2) key))
              (set values node (get_or values (2 * node + 2) value)) key value (2 * node + 2)
        | false ↦ (set keys node key, set values node value)
      ]
    ]
  ]

  unfoldable pub heap_replace :
      (keys : List T) (values : List ℕ) (key : T) (value node : ℕ) → List T × List ℕ
  unfolding heap_loop
  heap_replace keys values key value node = heap_loop (length keys) keys values key value node

  -- `for (i, &key) in input.iter().enumerate()`, from `index` on; `keys[0]` of no keys panics.
  unfoldable pub replace_all :
      (keys : List T) (values : List ℕ) (index : ℕ) → List T → Option (List T × List ℕ)
  unfolding heap_replace
  replace_all keys values index [] = some (keys, values)
  replace_all [] values index (key ∷ input) = none
  replace_all (root ∷ keys) values index (key ∷ input) =
      let (keys', values') =
        if C.cmp key root
        then heap_replace (root ∷ keys) values key index 0
        else (root ∷ keys, values) in
      replace_all keys' values' (index + 1) input

module _ {ℓ} {T : Type ℓ} ⦃o : Ord T⦄ (C : Comparator T) where
  -- The order in which a full vector is sorted.
  abbrev pub sort_order : T → T → Bool
  sort_order a b = if C.is_less_than then o.lt b a else o.lt a b

  -- `indices` are sorted by the keys at them, while `keys` is not yet.
  unfoldable pub sort_full : TopN T → TopN T
  unfolding sort_by
  sort_full op = elim op.keys [
    | [] ↦ op
    | key ∷ keys ↦ record op {
      indices =
          sort_by (λ i j. sort_order (get_or (key ∷ keys) i key) (get_or (key ∷ keys) j key))
            op.indices;
      keys = sort_by sort_order (key ∷ keys);
    }
  ]

  -- The rows with which the vectors are filled up.
  unfoldable pub fill : TopN T → (count : ℕ) → List T → TopN T
  unfolding sort_full
  fill op count input =
      let filled = record op {
        indices = op.indices ++ range_from op.last_index count;
        keys = op.keys ++ take count input;
        last_index = op.last_index + count;
      } in
      if length filled.indices == op.n then sort_full filled else filled

  -- `execute`, behind the filling
  unfoldable pub execute_rest : TopN T → List T → Option (TopN T)
  unfolding replace_all
  execute_rest op input = elim (replace_all C op.keys op.indices op.last_index input) [
    | none ↦ none
    | some (keys, indices) ↦
        some
          (record op { keys = keys; indices = indices; last_index = op.last_index + length input })
  ]

  unfoldable pub execute : TopN T → List T → Option (TopN T)
  execute op input =
      if ltb (length op.indices) op.n
      then (let count = min (op.n - length op.indices) (length input) in
          execute_rest (fill op count input) (drop count input))
      else execute_rest op input

  -- `execute` on one batch after the other
  unfoldable pub execute_all : TopN T → List (List T) → Option (TopN T)
  execute_all op [] = some op
  execute_all op (batch ∷ batches) = elim (execute op batch) [
    | none ↦ none
    | some op' ↦ execute_all op' batches
  ]

  -- `finalize`: the indices, in the order of their keys
  unfoldable pub finalize : TopN T → List ℕ
  unfolding sort_by
  finalize op = elim op.keys [
    | [] ↦ []
    | key ∷ keys ↦
        map (λ i. get_or op.indices i 0)
          (sort_by (λ i j. sort_order (get_or (key ∷ keys) j key) (get_or (key ∷ keys) i key))
            (range_from 0 (length (key ∷ keys))))
  ]
