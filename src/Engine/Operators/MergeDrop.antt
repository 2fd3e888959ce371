-- ===== src/Engine/Operators/MergeDrop.antt =====
-- src/engine/operators/merge_drop.rs: a further group column, by the ops of a deduplicating merge.
pub mod Columns
use locust_db.Prelude.{Option, none, some, List, [], ◌∷◌, ◌++◌}
use locust_db.Engine.Operators.MergeDeduplicate.{MergeOp, take_left, take_right, merge_right}

module _ {ℓ} {T : Type ℓ} where
  unfoldable pub drop_loop : (ops : List MergeOp) (l r : List T) → List T → Option (List T)
  drop_loop [] l r result = some result
  drop_loop (take_left ∷ ops) [] r result = none
  drop_loop (take_left ∷ ops) (x ∷ l) r result = drop_loop ops l r (result ++ x ∷ [])
  drop_loop (take_right ∷ ops) l [] result = none
  drop_loop (take_right ∷ ops) l (y ∷ r) result = drop_loop ops l r (result ++ y ∷ [])
  -- `j += 1` alone: past the end of `right` it stays past the end
  drop_loop (merge_right ∷ ops) l [] result = drop_loop ops l [] result
  drop_loop (merge_right ∷ ops) l (y ∷ r) result = drop_loop ops l r result

  unfoldable pub merge_drop : (ops : List MergeOp) (left right : List T) → Option (List T)
  unfolding drop_loop
  merge_drop ops left right = drop_loop ops left right []
