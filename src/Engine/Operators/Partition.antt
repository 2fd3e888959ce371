-- ===== src/Engine/Operators/Partition.antt =====
-- src/engine/operators/partition.rs: cutting two sorted columns into groups of equal elements. An
-- index into a vector stands for the suffix that it leaves.
pub mod Groups
use locust_db.Prelude.{
  ℕ, zero, suc, ◌+◌, ◌-◌, ◌%◌, ◌^◌, max, min, List, [], ◌∷◌, length, ltb, Ord, if◌then◌else◌,
}
use locust_db.Engine.Operators.Comparator.{Comparator}

-- src/engine/data_types/vec_data.rs
pub record Premerge : Type 0 where
  pub left : ℕ
  pub right : ℕ

module _ {ℓ} {T : Type ℓ} ⦃o : Ord T⦄ where
  -- `while i < i_max && elem == left[i]`: the count, and the suffix behind
  unfoldable pub take_equal : T → List T → ℕ × List T
  take_equal elem [] = (0, [])
  take_equal elem (x ∷ xs) =
      let (count, rest) = take_equal elem xs in
      if o.eq elem x then (suc count, rest) else (0, x ∷ xs)

  -- The loops over what remains on one side.
  unfoldable pub remaining :
      ℕ → (side : ℕ → Premerge) → List T → (limit min_elems : ℕ) → List Premerge
  unfolding take_equal
  remaining zero side xs limit min_elems = []
  remaining (suc fuel) side [] limit min_elems = []
  remaining (suc fuel) side (x ∷ xs) limit min_elems =
      let (count, rest) = take_equal x (x ∷ xs) in
      let later = remaining fuel side rest limit ((min_elems + count % 2 ^ 32) % 2 ^ 32) in
      if ltb min_elems limit then side (count % 2 ^ 32) ∷ later else []

module _ {ℓ} {T : Type ℓ} ⦃o : Ord T⦄ (C : Comparator T) where
  -- The loop over both sides, then the two loops behind it; every round takes an element, so as much
  -- fuel as there are elements is enough.
  unfoldable pub partition_loop : ℕ → (l r : List T) → (limit min_elems : ℕ) → List Premerge
  unfolding take_equal remaining
  partition_loop zero l r limit min_elems = []
  partition_loop (suc fuel) [] r limit min_elems =
      remaining (suc fuel) (λ n. record { left = 0; right = n }) r limit min_elems
  partition_loop (suc fuel) (x ∷ l) [] limit min_elems =
      remaining (suc fuel) (λ n. record { left = n; right = 0 }) (x ∷ l) limit min_elems
  partition_loop (suc fuel) (x ∷ l) (y ∷ r) limit min_elems =
      let elem = if C.cmp_eq x y then x else y in
      let (lefts, l') = take_equal elem (x ∷ l) in
      let (rights, r') = take_equal elem (y ∷ r) in
      let later =
        partition_loop fuel l' r' limit
          ((min_elems + max (lefts % 2 ^ 32) (rights % 2 ^ 32)) % 2 ^ 32) in
      if ltb min_elems limit
      then record { left = lefts % 2 ^ 32; right = rights % 2 ^ 32 } ∷ later
      else []

  -- `limit` saturates at the greatest u32.
  unfoldable pub partition : (left right : List T) (limit : ℕ) → List Premerge
  unfolding partition_loop
  partition left right limit =
      partition_loop (length left + length right) left right (min limit (2 ^ 32 - 1)) 0
