-- ===== src/Engine/Operators/MergeDeduplicate.antt =====
-- src/engine/operators/merge_deduplicate.rs: merging two columns of group keys into one without
-- duplicates. An index into a vector stands for the suffix that it leaves.
pub mod Steps
use locust_db.Prelude.{
  Bool, true, false, Option, none, some, List, [], ◌∷◌, ◌++◌, length, replicate, Ord, if◌then◌else◌,
}

-- src/engine/operators/merge_deduplicate.rs and its users take this type from
-- src/engine/data_types/data.rs
pub data MergeOp : Type 0 where
  take_left take_right merge_right : MergeOp

abbrev pub last? {ℓ} : {T : Type ℓ} → List T → Option T
last? [] = none
last? (x ∷ []) = some x
last? (x ∷ y ∷ xs) = last? (y ∷ xs)

module _ {ℓ} {T : Type ℓ} ⦃o : Ord T⦄ where
  -- `last == Some(&y)`
  unfoldable pub is_last : Option T → T → Bool
  is_last none y = false
  is_last (some x) y = o.eq x y

  -- `while i < left.len() && j < right.len()`, then the three statements behind it.
  unfoldable pub dedup_loop : (l r : List T) → List T → List MergeOp → List T × List MergeOp
  dedup_loop [] [] result ops = (result, ops)
  dedup_loop [] (y ∷ r) result ops = elim (is_last (last? result) y) [
    | true ↦ (result ++ r, ops ++ merge_right ∷ replicate (length r) take_right)
    | false ↦ (result ++ y ∷ r, ops ++ replicate (length (y ∷ r)) take_right)
  ]
  dedup_loop (x ∷ l) [] result ops = (result ++ x ∷ l, ops ++ replicate (length (x ∷ l)) take_left)
  dedup_loop (x ∷ l) (y ∷ r) result ops = elim (is_last (last? result) y) [
    | true ↦ dedup_loop (x ∷ l) r result (ops ++ merge_right ∷ [])
    | false ↦ elim (o.le x y) [
      | true ↦ dedup_loop l (y ∷ r) (result ++ x ∷ []) (ops ++ take_left ∷ [])
      | false ↦ dedup_loop (x ∷ l) r (result ++ y ∷ []) (ops ++ take_right ∷ [])
    ]
  ]

  unfoldable pub merge_deduplicate : (left right : List T) → List T × List MergeOp
  unfolding dedup_loop is_last
  merge_deduplicate left right = dedup_loop left right [] []
