-- ===== src/Engine/Operators/MergeAggregate.antt =====
-- src/engine/operators/merge_aggregate.rs: the aggregates of two batches, by the ops of a
-- deduplicating merge of their group keys.
pub mod Combine
pub mod Union
pub mod Refines
pub mod Pointwise
use locust_db.Prelude.{◌-◌, List, [], ◌∷◌, ◌++◌, length, get_elem?, set}
use locust_db.Errors.{Result, ok, panic, unwrap, ◌>>=◌}
use locust_db.Engine.Operators.MergeDeduplicate.{MergeOp, take_left, take_right, merge_right}

-- src/engine/operators/aggregator.rs
pub data Aggregator : Type 0 where
  sum_i64 sum_f64 count max_i64 max_f64 min_i64 min_f64 : Aggregator

-- The trait of this file.
pub record Combinable {ℓ} (T : Type ℓ) : Type ℓ where
  pub combine : Aggregator → T → T → Result T

module _ {ℓ} {T : Type ℓ} ⦃c : Combinable T⦄ where
  unfoldable pub aggregate_loop :
      (ops : List MergeOp) (l r : List T) (aggregator : Aggregator) → List T → Result (List T)
  aggregate_loop [] l r aggregator result = ok result
  aggregate_loop (take_left ∷ ops) [] r aggregator result = panic
  aggregate_loop (take_left ∷ ops) (x ∷ l) r aggregator result =
      aggregate_loop ops l r aggregator (result ++ x ∷ [])
  aggregate_loop (take_right ∷ ops) l [] aggregator result = panic
  aggregate_loop (take_right ∷ ops) l (y ∷ r) aggregator result =
      aggregate_loop ops l r aggregator (result ++ y ∷ [])
  aggregate_loop (merge_right ∷ ops) l [] aggregator result = panic
  aggregate_loop (merge_right ∷ ops) l (y ∷ r) aggregator result = do
    last ← unwrap (get_elem? result (length result - 1))
    combined ← c.combine aggregator last y
    aggregate_loop ops l r aggregator (set result (length result - 1) combined)

  unfoldable pub merge_aggregate :
      (ops : List MergeOp) (left right : List T) → Aggregator → Result (List T)
  unfolding aggregate_loop
  merge_aggregate ops left right aggregator = aggregate_loop ops left right aggregator []
