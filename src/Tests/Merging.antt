-- ===== src/Tests/Merging.antt =====
-- Runs of the merging operators of src/engine/operators.
use mathlib.Core.List.{Perm}
use locust_db.Prelude.{◌≡◌, refl, ℕ, some, List, [], ◌∷◌, ◌++◌, map, take, nat_ord, arith}
use locust_db.Bitvec
use locust_db.Engine.Operators.Comparator.{
  Comparator, ElementType, cmp_less_than, less_than-IsOrder, IsSorted,
}
use locust_db.Engine.Operators.Merge.{merge}
use locust_db.Engine.Operators.Merge.Interleave.{interleave, elems_of, ops_of, merge-interleave}
use locust_db.Engine.Operators.Merge.Order.{merge_lem}
use locust_db.Engine.Operators.MergeKeep.{merge_keep, merge_keep_nullable}
use locust_db.Engine.Operators.MergeKeep.Replay.{by_key, merge_keep-merge}
use locust_db.Engine.Operators.MergeKeep.Nullable.{Agrees, flags, merge_keep_nullable-merge_keep}

abbrev C : Comparator ℕ
C = cmp_less_than ElementType.u32

abbrev left : List ℕ
left = 1 ∷ 3 ∷ 3 ∷ []

abbrev right : List ℕ
right = 2 ∷ 3 ∷ 7 ∷ []

merged : merge C left right 5 ≡ (1 ∷ 2 ∷ 3 ∷ 3 ∷ 3 ∷ [], 1 ∷ 0 ∷ 0 ∷ 1 ∷ 1 ∷ [])
unfolding merge
merged = refl

merge-interleave_example :
    merge C left right 5
    ≡ (elems_of (take 5 (interleave C left right)), ops_of (take 5 (interleave C left right)))
merge-interleave_example = merge-interleave C left right 5

merge_lem_example :
    (all : List ℕ) × Perm all (left ++ right)
    × IsSorted C all
    × ((merge C left right 5).0 ≡ take 5 all)
merge_lem_example =
    merge_lem C (less_than-IsOrder ElementType.u32) left right 5 (ground arith) (ground arith)

abbrev key : ℕ × ℕ → ℕ
key row = row.0

abbrev val : ℕ × ℕ → ℕ
val row = row.1

abbrev left_rows : List (ℕ × ℕ)
left_rows = (1, 10) ∷ (3, 30) ∷ []

abbrev right_rows : List (ℕ × ℕ)
right_rows = (2, 20) ∷ (3, 31) ∷ []

merge_keep-merge_example :
    ((merge C (1 ∷ 3 ∷ []) (2 ∷ 3 ∷ []) 3).0
      ≡ map key (merge (by_key key C) left_rows right_rows 3).0)
    × (merge_keep (merge C (1 ∷ 3 ∷ []) (2 ∷ 3 ∷ []) 3).1 (10 ∷ 30 ∷ []) (20 ∷ 31 ∷ [])
        ≡ some (map val (merge (by_key key C) left_rows right_rows 3).0))
merge_keep-merge_example = merge_keep-merge C key val left_rows right_rows 3

abbrev nullable_left : List ℕ
nullable_left = 5 ∷ 6 ∷ []

abbrev nullable_right : List ℕ
nullable_right = 7 ∷ []

kept_nullable :
    merge_keep_nullable (1 ∷ 0 ∷ 1 ∷ []) nullable_left nullable_right (2 ∷ []) (1 ∷ [])
    ≡ some (5 ∷ 7 ∷ 6 ∷ [], 6 ∷ [])
unfolding merge_keep_nullable Bitvec.is_set Bitvec.set
kept_nullable = refl

merge_keep_nullable-merge_keep_example :
    Agrees
      (merge_keep (1 ∷ 0 ∷ 1 ∷ []) nullable_left nullable_right)
      (merge_keep
        (1 ∷ 0 ∷ 1 ∷ [])
        (flags (2 ∷ []) 0 nullable_left)
        (flags (1 ∷ []) 0 nullable_right))
      (merge_keep_nullable (1 ∷ 0 ∷ 1 ∷ []) nullable_left nullable_right (2 ∷ []) (1 ∷ []))
merge_keep_nullable-merge_keep_example =
    merge_keep_nullable-merge_keep (1 ∷ 0 ∷ 1 ∷ []) nullable_left nullable_right (2 ∷ []) (1 ∷ [])
