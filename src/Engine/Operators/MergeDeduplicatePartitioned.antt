-- ===== src/Engine/Operators/MergeDeduplicatePartitioned.antt =====
-- src/engine/operators/merge_deduplicate_partitioned.rs: merging the last group column of two
-- batches, within the groups of the columns before it. `i` and `j` stand for the suffixes that they
-- leave, `a` and `b` for `i_max - i` and `j_max - j`; an index out of range, which panics, is `none`.
pub mod PerGroup
use locust_db.Prelude.{
  ℕ, zero, suc, ◌+◌, ◌-◌, ◌%◌, ◌^◌, Bool, true, false, Option, none, some, List, [], ◌∷◌, ◌++◌, Ord,
}
use locust_db.Engine.Operators.MergeDeduplicate.{
  MergeOp, take_left, take_right, merge_right, is_last,
}
use locust_db.Engine.Operators.Partition.{Premerge}

-- The variables of the loops.
pub record Merging {ℓ} (T : Type ℓ) : Type ℓ where
  pub left_rest : List T
  pub right_rest : List T
  pub result : List T
  pub ops : List MergeOp

module _ {ℓ} {T : Type ℓ} ⦃o : Ord T⦄ where
  unfoldable pub group_loop :
      (rounds a b : ℕ) (last : Option T) (l r : List T) (result : List T) (ops : List MergeOp)
      → Option (Merging T)
  unfolding is_last
  group_loop zero a b last l r result ops =
      some (record { left_rest = l; right_rest = r; result = result; ops = ops })
  -- `j == j_max`
  group_loop (suc rounds) zero zero last l [] result ops = none
  group_loop (suc rounds) zero zero last l (y ∷ r) result ops =
      group_loop rounds zero zero (some y) l r (result ++ y ∷ []) (ops ++ take_right ∷ [])
  group_loop (suc rounds) (suc a) zero last [] r result ops = none
  group_loop (suc rounds) (suc a) zero last (x ∷ l) r result ops =
      group_loop rounds a zero (some x) l r (result ++ x ∷ []) (ops ++ take_left ∷ [])
  -- `j < j_max`
  group_loop (suc rounds) a (suc b) last l [] result ops = none
  group_loop (suc rounds) zero (suc b) last l (y ∷ r) result ops = elim (is_last last y) [
    | true ↦ group_loop rounds zero b last l r result (ops ++ merge_right ∷ [])
    | false ↦ group_loop rounds zero b (some y) l r (result ++ y ∷ []) (ops ++ take_right ∷ [])
  ]
  group_loop (suc rounds) (suc a) (suc b) last [] (y ∷ r) result ops = elim (is_last last y) [
    | true ↦ group_loop rounds (suc a) b last [] r result (ops ++ merge_right ∷ [])
    | false ↦ none
  ]
  group_loop (suc rounds) (suc a) (suc b) last (x ∷ l) (y ∷ r) result ops = elim (is_last last y) [
    | true ↦ group_loop rounds (suc a) b last (x ∷ l) r result (ops ++ merge_right ∷ [])
    | false ↦ elim (o.le x y) [
      | true ↦
          group_loop rounds a (suc b) (some x) l (y ∷ r) (result ++ x ∷ []) (ops ++ take_left ∷ [])
      | false ↦
          group_loop rounds (suc a) b (some y) (x ∷ l) r (result ++ y ∷ []) (ops ++ take_right ∷ [])
    ]
  ]

  -- The loop over the groups; the sum of two u32 wraps.
  unfoldable pub groups_loop :
      (partitioning : List Premerge) (l r : List T) (result : List T) (ops : List MergeOp)
      → Option (List T × List MergeOp)
  unfolding group_loop
  groups_loop [] l r result ops = some (result, ops)
  groups_loop (group ∷ partitioning) l r result ops =
      elim (group_loop ((group.left + group.right) % 2 ^ 32) group.left group.right none l r result
        ops) [
          | none ↦ none
          | some state ↦
              groups_loop partitioning state.left_rest state.right_rest state.result state.ops
        ]

  unfoldable pub merge_deduplicate_partitioned :
      (partitioning : List Premerge) (left right : List T) → Option (List T × List MergeOp)
  unfolding groups_loop
  merge_deduplicate_partitioned partitioning left right = groups_loop partitioning left right [] []
