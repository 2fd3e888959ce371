-- ===== src/Engine/Operators/Merge.antt =====
-- src/engine/operators/merge.rs: merging two sorted columns up to a limit. An index that only moves
-- forward through a vector stands beside the suffix that it leaves.
pub mod Interleave
pub mod Order
use locust_db.Prelude.{
  ℕ, ◌+◌, ◌-◌, min, Bool, true, false, List, [], ◌∷◌, ◌++◌, ltb, length, take, replicate,
}
use locust_db.Engine.Operators.Comparator.{Comparator}

-- The variables of the loop: `left[i..]`, `right[j..]`, the indices and the two vectors.
pub record MergeState {ℓ} (T : Type ℓ) : Type ℓ where
  pub left_rest : List T
  pub right_rest : List T
  pub i : ℕ
  pub j : ℕ
  pub result : List T
  pub ops : List ℕ

module _ {ℓ} {T : Type ℓ} where
  -- The two `for` loops over `left[i..min(left.len(), limit - j)]` and
  -- `right[j..min(right.len(), limit - i)]`, which push the elements and as many ops.
  unfoldable pub merge_rest : (left_len right_len limit : ℕ) → MergeState T → List T × List ℕ
  merge_rest left_len right_len limit s =
      let lefts = take (min left_len (limit - s.j) - s.i) s.left_rest in
      let rights = take (min right_len (limit - s.i) - s.j) s.right_rest in
      (
        s.result ++ lefts ++ rights,
        s.ops ++ replicate (length lefts) 1 ++ replicate (length rights) 0,
      )

module _ {ℓ} {T : Type ℓ} (C : Comparator T) where
  -- `while i < left.len() && j < right.len() && i + j < limit`
  unfoldable pub merge_while : (l r : List T) (limit i j : ℕ) → List T → List ℕ → MergeState T
  merge_while [] r limit i j result ops = record {
    left_rest = [];
    right_rest = r;
    i = i;
    j = j;
    result = result;
    ops = ops;
  }
  merge_while (x ∷ l) [] limit i j result ops = record {
    left_rest = x ∷ l;
    right_rest = [];
    i = i;
    j = j;
    result = result;
    ops = ops;
  }
  merge_while (x ∷ l) (y ∷ r) limit i j result ops = elim (ltb (i + j) limit) [
    | false ↦ record {
      left_rest = x ∷ l;
      right_rest = y ∷ r;
      i = i;
      j = j;
      result = result;
      ops = ops;
    }
    | true ↦ elim (C.cmp x y) [
      | true ↦ merge_while l (y ∷ r) limit (i + 1) j (result ++ x ∷ []) (ops ++ 1 ∷ [])
      | false ↦ merge_while (x ∷ l) r limit i (j + 1) (result ++ y ∷ []) (ops ++ 0 ∷ [])
    ]
  ]

  unfoldable pub merge : (left right : List T) (limit : ℕ) → List T × List ℕ
  unfolding merge_while merge_rest
  merge left right limit =
      merge_rest (length left) (length right) limit (merge_while left right limit 0 0 [] [])
