-- ===== src/Tests/Filtering.antt =====
-- Runs of the filtering operators of src/engine/operators, and of partitioning.
use locust_db.Prelude.{◌≤◌, ◌≡◌, refl, ℕ, true, some, List, [], ◌∷◌, nat_ord, arith}
use locust_db.Engine.Operators.Comparator.{ElementType, cmp_less_than}
use locust_db.Engine.Operators.MergeAggregate.Union.{IsStrict}
use locust_db.Engine.Operators.Filtering.{filter, compact, nonzero_indices, exists}
use locust_db.Engine.Operators.Filtering.InPlace.{compact-filter}
use locust_db.Engine.Operators.Filtering.Distinct.{contains, nonzero_indices-exists}
use locust_db.Engine.Operators.Partition.{partition}
use locust_db.Engine.Operators.Partition.Groups.{AreGroups, lefts, rights, partition-AreGroups}

abbrev values : List ℕ
values = 7 ∷ 0 ∷ 9 ∷ 4 ∷ []

compacted : compact values (1 ∷ 0 ∷ 0 ∷ 2 ∷ 1 ∷ []) ≡ 7 ∷ 4 ∷ []
unfolding compact
compacted = refl

compact-filter_example :
    compact values (1 ∷ 0 ∷ 0 ∷ 2 ∷ 1 ∷ []) ≡ filter true values (1 ∷ 0 ∷ 0 ∷ 2 ∷ 1 ∷ []) (5 ∷ [])
compact-filter_example = compact-filter values (1 ∷ 0 ∷ 0 ∷ 2 ∷ 1 ∷ []) (5 ∷ [])

nonzero_indices-exists_example :
    (marks unique : List ℕ) × (exists values 9 [] ≡ some marks)
    × (nonzero_indices 255 marks ≡ some unique)
    × IsStrict unique
    × ((i : ℕ) → contains unique i ≡ contains values i)
nonzero_indices-exists_example = nonzero_indices-exists values 9 255 (ground arith) (omega arith)

abbrev left : List ℕ
left = 1 ∷ 1 ∷ 3 ∷ []

abbrev right : List ℕ
right = 1 ∷ 2 ∷ []

partition-AreGroups_example :
    AreGroups
      (cmp_less_than {T = ℕ} ElementType.u32).cmp_eq
      (partition (cmp_less_than ElementType.u32) left right 10)
      left
      right
    × (5 ≤ 10
        → (lefts (partition (cmp_less_than ElementType.u32) left right 10) ≡ 3)
          × (rights (partition (cmp_less_than ElementType.u32) left right 10) ≡ 2))
partition-AreGroups_example =
    partition-AreGroups (cmp_less_than ElementType.u32) left right 10 (omega arith)
