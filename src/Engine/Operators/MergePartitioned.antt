-- ===== src/Engine/Operators/MergePartitioned.antt =====
-- src/engine/operators/merge_partitioned.rs: merging a further sorting column of two batches within
-- the groups of the columns before it. `left_rest` and `right_rest` stand for the indices `i` and
-- `j`, `a` and `b` for `i_max - i` and `j_max - j`; an index out of range, which panics, is `none`.
pub mod Replay
use locust_db.Prelude.{
  ℕ, zero, suc, ◌+◌, ◌-◌, ◌%◌, ◌^◌, Bool, true, false, Option, none, some, List, [], ◌∷◌, ◌++◌,
  ◌==◌, if◌then◌else◌,
}
use locust_db.Engine.Operators.Comparator.{Comparator}
use locust_db.Engine.Operators.Partition.{Premerge}

pub record Merging {ℓ} (T : Type ℓ) : Type ℓ where
  pub left_rest : List T
  pub right_rest : List T
  -- `i + j`
  pub taken : ℕ
  pub result : List T
  pub take_left : List ℕ

module _ {ℓ} {T : Type ℓ} (C : Comparator T) where
  -- `j == j_max || (i < i_max && C::cmp_eq(left[i], right[j]))`
  unfoldable pub left_next : (a b : ℕ) (l r : List T) → Option Bool
  left_next a zero l r = some true
  left_next zero (suc b) l r = some false
  left_next (suc a) (suc b) [] r = none
  left_next (suc a) (suc b) (x ∷ l) [] = none
  left_next (suc a) (suc b) (x ∷ l) (y ∷ r) = some (C.cmp_eq x y)

  abbrev pub push_left : Merging T → T → List T → Merging T
  push_left s x l = record s {
    left_rest = l;
    taken = s.taken + 1;
    result = s.result ++ x ∷ [];
    take_left = s.take_left ++ 1 ∷ [];
  }

  abbrev pub push_right : Merging T → T → List T → Merging T
  push_right s y r = record s {
    right_rest = r;
    taken = s.taken + 1;
    result = s.result ++ y ∷ [];
    take_left = s.take_left ++ 0 ∷ [];
  }

  -- The loop within one group, and whether it broke out of both loops.
  unfoldable pub group_loop : (rounds a b limit : ℕ) → Merging T → Option (Bool × Merging T)
  unfolding left_next
  group_loop zero a b limit s = some (false, s)
  group_loop (suc rounds) a b limit s = elim (left_next a b s.left_rest s.right_rest) [
    | none ↦ none
    | some true ↦ elim s.left_rest [
      | [] ↦ none
      | x ∷ l ↦
          let rest = group_loop rounds (a - 1) b limit (push_left s x l) in
          if s.taken + 1 == limit then some (true, push_left s x l) else rest
    ]
    | some false ↦ elim s.right_rest [
      | [] ↦ none
      | y ∷ r ↦
          let rest = group_loop rounds a (b - 1) limit (push_right s y r) in
          if s.taken + 1 == limit then some (true, push_right s y r) else rest
    ]
  ]

  unfoldable pub groups_loop : List Premerge → (limit : ℕ) → Merging T → Option (Merging T)
  unfolding group_loop
  groups_loop [] limit s = some s
  groups_loop (group ∷ partitioning) limit s =
      elim (group_loop ((group.left + group.right) % 2 ^ 32) group.left group.right limit s) [
        | none ↦ none
        | some (true, s') ↦ some s'
        | some (false, s') ↦ groups_loop partitioning limit s'
      ]

  unfoldable pub merge_partitioned :
      List Premerge → (left right : List T) (limit : ℕ) → Option (List T × List ℕ)
  unfolding groups_loop
  merge_partitioned partitioning left right limit =
      elim (groups_loop partitioning limit
        (record { left_rest = left; right_rest = right; taken = 0; result = []; take_left = [] })) [
          | none ↦ none
          | some s ↦ some (s.result, s.take_left)
        ]
