-- ===== src/Engine/Operators/MergeKeep.antt =====
-- src/engine/operators/merge_keep.rs: merging a further column by the ops of `merge` or of
-- `merge_partitioned`. An index into a vector stands for the suffix that it leaves; an index past
-- the end, which panics, is `none`.
pub mod Replay
pub mod Nullable
use locust_db.Prelude.{
  ℕ, ◌+◌, Bool, true, false, Option, none, some, List, [], ◌∷◌, ◌++◌, ◌==◌, if◌then◌else◌,
}
use locust_db.Bitvec

-- `if from.is_set(k) { present.set(i + j); }`
abbrev pub copy_bit : (from : List ℕ) (k : ℕ) (present : List ℕ) (at : ℕ) → List ℕ
copy_bit from k present at = if Bitvec.is_set from k then Bitvec.set present at else present

module _ {ℓ} {T : Type ℓ} where
  unfoldable pub keep_loop : (ops : List ℕ) (l r : List T) → List T → Option (List T)
  keep_loop [] l r result = some result
  keep_loop (op ∷ ops) l r result = elim (op == 1) [
    | true ↦ elim l [ [] ↦ none | x ∷ l' ↦ keep_loop ops l' r (result ++ x ∷ []) ]
    | false ↦ elim r [ [] ↦ none | y ∷ r' ↦ keep_loop ops l r' (result ++ y ∷ []) ]
  ]

  unfoldable pub merge_keep : (ops : List ℕ) (left right : List T) → Option (List T)
  unfolding keep_loop
  merge_keep ops left right = keep_loop ops left right []

  unfoldable pub keep_nullable_loop :
      (ops : List ℕ) (l r : List T) (left_present right_present : List ℕ) (i j : ℕ)
      → List T
      → List ℕ
      → Option (List T × List ℕ)
  keep_nullable_loop [] l r lp rp i j result present = some (result, present)
  keep_nullable_loop (op ∷ ops) l r lp rp i j result present = elim (op == 1) [
    | true ↦ elim l [
      | [] ↦ none
      | x ∷ l' ↦
          keep_nullable_loop ops l' r lp rp (i + 1) j (result ++ x ∷ [])
            (copy_bit lp i present (i + j))
    ]
    | false ↦ elim r [
      | [] ↦ none
      | y ∷ r' ↦
          keep_nullable_loop ops l r' lp rp i (j + 1) (result ++ y ∷ [])
            (copy_bit rp j present (i + j))
    ]
  ]

  unfoldable pub merge_keep_nullable :
      (ops : List ℕ) (left right : List T) (left_present right_present : List ℕ)
      → Option (List T × List ℕ)
  unfolding keep_nullable_loop
  merge_keep_nullable ops left right lp rp = keep_nullable_loop ops left right lp rp 0 0 [] []
