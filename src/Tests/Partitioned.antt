-- ===== src/Tests/Partitioned.antt =====
-- Runs of src/engine/operators/merge_partitioned.rs.
use locust_db.Prelude.{ℕ, ◌≡◌, refl, some, List, [], ◌∷◌, nat_ord, arith}
use locust_db.Engine.Operators.Comparator.{ElementType, cmp_less_than}
use locust_db.Engine.Operators.Partition.{Premerge}
use locust_db.Engine.Operators.MergeKeep.{merge_keep}
use locust_db.Engine.Operators.MergePartitioned.{merge_partitioned}
use locust_db.Engine.Operators.MergePartitioned.Replay.{merge_partitioned-merge_keep}

abbrev groups : List Premerge
groups = record { left = 2; right = 1 } ∷ record { left = 0; right = 1 } ∷ []

abbrev left : List ℕ
left = 4 ∷ 9 ∷ []

abbrev right : List ℕ
right = 5 ∷ 1 ∷ []

within_groups :
    merge_partitioned (cmp_less_than ElementType.u32) groups left right 10
    ≡ some (4 ∷ 5 ∷ 9 ∷ 1 ∷ [], 1 ∷ 0 ∷ 1 ∷ 0 ∷ [])
unfolding merge_partitioned
within_groups = refl

up_to_limit :
    merge_partitioned (cmp_less_than ElementType.u32) groups left right 2
    ≡ some (4 ∷ 5 ∷ [], 1 ∷ 0 ∷ [])
unfolding merge_partitioned
up_to_limit = refl

merge_partitioned-merge_keep_example :
    (merged : List ℕ) × (ops : List ℕ) × (merge_partitioned
        (cmp_less_than ElementType.u32)
        groups
        left
        right
        10
      ≡ some (merged, ops))
    × (merge_keep ops left right ≡ some merged)
merge_partitioned-merge_keep_example =
    merge_partitioned-merge_keep (cmp_less_than ElementType.u32) groups left right 10 (omega arith)
      (omega arith)
