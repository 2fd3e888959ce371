-- ===== src/Tests/Grouping.antt =====
-- Runs of the deduplicating merge of src/engine/operators and of what follows its ops.
use locust_db.Prelude.{◌≡◌, refl, ℕ, ◌==◌, some, List, [], ◌∷◌, map, length, nat_ord, arith}
use locust_db.Prelude.Int.{ℤ, pos, negsuc}
use locust_db.Errors.{ok, ◌>>=◌}
use locust_db.Engine.Operators.MergeDeduplicate.{
  merge_deduplicate, take_left, take_right, merge_right,
}
use locust_db.Engine.Operators.Comparator.{ElementType, cmp_less_than}
use locust_db.Engine.Operators.Partition.{Premerge, partition}
use locust_db.Engine.Operators.MergeDeduplicatePartitioned.{merge_deduplicate_partitioned}
use locust_db.Engine.Operators.MergeDeduplicatePartitioned.PerGroup.{
  per_group, merge_deduplicate_partitioned-per_group,
}
use locust_db.Engine.Operators.MergeDrop.{merge_drop}
use locust_db.Engine.Operators.MergeDrop.Columns.{merge_drop-merge_deduplicate}
use locust_db.Engine.Operators.MergeAggregate.{Aggregator, merge_aggregate}
use locust_db.Engine.Operators.MergeAggregate.Combine.{combine_i64, i64_combinable}
use locust_db.Engine.Operators.MergeAggregate.Union.{
  Groups, aggregates, IsStrict, union_keys, union,
}
use locust_db.Engine.Operators.MergeAggregate.Refines.{merge_aggregate-union}
use locust_db.Engine.Operators.MergeAggregate.Pointwise.{
  value_at, zip, Merged, merge_aggregate-value_at,
}

abbrev left : Groups ℕ ℤ
left = (1, pos 10) ∷ (4, negsuc 0) ∷ []

abbrev right : Groups ℕ ℤ
right = (2, pos 5) ∷ (4, pos 7) ∷ []

abbrev left_keys : List ℕ
left_keys = 1 ∷ 4 ∷ []

abbrev right_keys : List ℕ
right_keys = 2 ∷ 4 ∷ []

merged :
    merge_aggregate
      (merge_deduplicate left_keys right_keys).1
      (aggregates left)
      (aggregates right)
      Aggregator.sum_i64
    ≡ ok (pos 10 ∷ pos 5 ∷ pos 6 ∷ [])
unfolding merge_aggregate merge_deduplicate combine_i64
merged = refl

merge_aggregate-value_at_example :
    IsStrict (merge_deduplicate left_keys right_keys).0
    × (length (merge_deduplicate left_keys right_keys).0 ≡ 3)
    × Merged Aggregator.sum_i64
        (some (negsuc 0))
        (some (pos 7))
        (value_at 4 (zip (merge_deduplicate left_keys right_keys).0 (pos 10 ∷ pos 5 ∷ pos 6 ∷ [])))
merge_aggregate-value_at_example =
    merge_aggregate-value_at Aggregator.sum_i64 left right (pos 10 ∷ pos 5 ∷ pos 6 ∷ []) 4
      (ground arith) (ground arith) merged

merge_aggregate-union_example :
    ((merge_deduplicate left_keys right_keys).0 ≡ union_keys left_keys right_keys)
    × (merge_aggregate
          (merge_deduplicate left_keys right_keys).1
          (aggregates left)
          (aggregates right)
          Aggregator.sum_i64
        ≡ (union Aggregator.sum_i64 left right >>= λ rows. ok (aggregates rows)))
merge_aggregate-union_example =
    merge_aggregate-union Aggregator.sum_i64 left right (ground arith) (ground arith)

merge_drop-merge_deduplicate_example :
    merge_drop
      (merge_deduplicate left_keys right_keys).1
      (map (◌==◌ 4) left_keys)
      (map (◌==◌ 4) right_keys)
    ≡ some (map (◌==◌ 4) (merge_deduplicate left_keys right_keys).0)
merge_drop-merge_deduplicate_example = merge_drop-merge_deduplicate (◌==◌ 4) left_keys right_keys

-- `test_multipass_grouping` of src/engine/operators/subpartition.rs, with letters as numbers
abbrev left1 : List ℕ
left1 = 65 ∷ 65 ∷ 65 ∷ 67 ∷ 80 ∷ []

abbrev right1 : List ℕ
right1 = 65 ∷ 65 ∷ 66 ∷ 67 ∷ 88 ∷ 88 ∷ 90 ∷ []

abbrev groups : List Premerge
groups =
    record { left = 3; right = 2 }
    ∷ record { left = 0; right = 1 }
    ∷ record { left = 1; right = 1 }
    ∷ record { left = 1; right = 0 }
    ∷ record { left = 0; right = 2 }
    ∷ []

partitioned : partition (cmp_less_than ElementType.str) left1 right1 7 ≡ groups
unfolding partition
partitioned = refl

abbrev left2 : List ℕ
left2 = 1 ∷ 3 ∷ 7 ∷ 2 ∷ 1 ∷ []

abbrev right2 : List ℕ
right2 = 3 ∷ 5 ∷ 0 ∷ 2 ∷ 1 ∷ 2 ∷ 1 ∷ []

merging :
    merge_deduplicate_partitioned groups left2 right2
    ≡ some (
      1 ∷ 3 ∷ 5 ∷ 7 ∷ 0 ∷ 2 ∷ 1 ∷ 1 ∷ 2 ∷ [],
      take_left ∷ take_left ∷ merge_right ∷ take_right ∷ take_left ∷ take_right ∷ take_left
          ∷ merge_right ∷ take_left ∷ take_right ∷ take_right ∷ [],
    )
unfolding merge_deduplicate_partitioned
merging = refl

merge_deduplicate_partitioned-per_group_example :
    merge_deduplicate_partitioned groups left2 right2 ≡ some (per_group groups left2 right2)
merge_deduplicate_partitioned-per_group_example =
    merge_deduplicate_partitioned-per_group groups left2 right2 (ground arith)
