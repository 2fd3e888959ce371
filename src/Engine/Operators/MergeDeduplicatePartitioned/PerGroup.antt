-- ===== src/Engine/Operators/MergeDeduplicatePartitioned/PerGroup.antt =====
-- Merging within groups (merge_deduplicate_partitioned.rs), against `merge_deduplicate` on each group.
use native.Mathlib.Nat.{mod-eq_of_lt}
use locust_db.Prelude.{
  ℕ, zero, suc, ◌+◌, ◌%◌, ◌^◌, ◌≤◌, ◌<◌, ◌≡◌, ap, ap₂, subst, sym, ◌∙◌, true, inl, inr, Bool-cases,
  Option, none, some, List, [], ◌∷◌, ◌++◌, append_assoc, append-nil, length, take, drop,
  length-take, take-append-drop, replicate, Ord, arith,
}
use locust_db.Engine.Operators.MergeDeduplicate.{
  MergeOp, take_left, take_right, merge_right, is_last, merge_deduplicate,
}
use locust_db.Engine.Operators.MergeDeduplicate.Steps.{steps, merge_deduplicate-steps}
use locust_db.Engine.Operators.MergeAggregate.Union.{IsStrict}
use locust_db.Engine.Operators.MergeAggregate.Refines.{Fresh, Fresh-Above}
use locust_db.Engine.Operators.Partition.{Premerge}
use locust_db.Engine.Operators.MergeDeduplicatePartitioned.{
  Merging, group_loop, groups_loop, merge_deduplicate_partitioned,
}

module _ {ℓ} {T : Type ℓ} ⦃o : Ord T⦄ where
  -- The state behind a group: its keys and ops are pushed, the rest of the columns is left.
  abbrev done :
      (l r result : List T) (ops : List MergeOp) (keys : List T) (more : List MergeOp)
      → Option (Merging T)
  done l r result ops keys more =
      some (record { left_rest = l; right_rest = r; result = result ++ keys; ops = ops ++ more })

  left_only :
      (n : ℕ) (tl l r : List T) (last : Option T) (result : List T) (ops : List MergeOp)
      → n ≡ length tl
      → group_loop n (length tl) zero last (tl ++ l) r result ops
        ≡ done l r result ops tl (replicate (length tl) take_left)
  unfolding group_loop
  left_only zero [] l r last result ops e = ground (arith, append-nil result, append-nil ops)
  left_only (suc n) [] l r last result ops e = absurd (omega arith)
  left_only zero (x ∷ tl) l r last result ops e = absurd (omega arith)
  left_only (suc n) (x ∷ tl) l r last result ops e =
      left_only n tl l r (some x) (result ++ x ∷ []) (ops ++ take_left ∷ []) (omega arith)
      ∙ ap₂
          (λ keys more. some (record { left_rest = l; right_rest = r; result = keys; ops = more }))
          (append_assoc result (x ∷ []) tl)
          (append_assoc ops (take_left ∷ []) (replicate (length tl) take_left))

  right_only :
      (n : ℕ) (tr l r : List T) (last : Option T) (result : List T) (ops : List MergeOp)
      → n ≡ length tr
      → IsStrict tr
      → Fresh last tr
      → group_loop n zero (length tr) last l (tr ++ r) result ops
        ≡ done l r result ops tr (replicate (length tr) take_right)
  unfolding group_loop
  right_only zero [] l r last result ops e s f = ground (arith, append-nil result, append-nil ops)
  right_only (suc n) [] l r last result ops e s f = absurd (omega arith)
  right_only zero (y ∷ tr) l r last result ops e s f = absurd (omega arith)
  right_only (suc n) (y ∷ tr) l r last result ops e s f =
      rw (f, group_loop)
        (right_only n tr l r (some y) (result ++ y ∷ []) (ops ++ take_right ∷ []) (omega arith) s.1
          (Fresh-Above y tr s.0))
      ∙ ap₂
          (λ keys more. some (record { left_rest = l; right_rest = r; result = keys; ops = more }))
          (append_assoc result (y ∷ []) tr)
          (append_assoc ops (take_right ∷ []) (replicate (length tr) take_right))

  is_last_inv : (last : Option T) (y : T) → is_last last y ≡ true → last ≡ some y
  unfolding is_last
  is_last_inv none y h = cc
  is_last_inv (some x) y h = ap some ((o.eq_iff x y).0 h)

  group_loop-steps :
      (n : ℕ) (tl tr l r : List T) (last : Option T) (result : List T) (ops : List MergeOp)
      → n ≡ length tl + length tr
      → IsStrict tr
      → group_loop n (length tl) (length tr) last (tl ++ l) (tr ++ r) result ops
        ≡ done l r result ops (steps last tl tr).0 (steps last tl tr).1
  unfolding group_loop steps
  group_loop-steps n [] [] l r last result ops e s =
      right_only n [] l r last result ops (omega arith) tt tt
  group_loop-steps zero [] (y ∷ tr) l r last result ops e s = absurd (omega arith)
  group_loop-steps (suc n) [] (y ∷ tr) l r last result ops e s =
      elim (Bool-cases (is_last last y)) [
        | inr f ↦ rw (f, steps) (right_only (suc n) (y ∷ tr) l r last result ops (omega arith) s f)
        | inl t ↦
            let fresh =
              subst (λ last. Fresh last tr) (sym (is_last_inv last y t)) (Fresh-Above y tr s.0) in
            rw (t, group_loop, steps)
              (right_only n tr l r last result (ops ++ merge_right ∷ []) (omega arith) s.1 fresh
                ∙ ap
                    (λ more.
                      some (record {
                        left_rest = l;
                        right_rest = r;
                        result = result ++ tr;
                        ops = more;
                      }))
                    (append_assoc ops (merge_right ∷ []) (replicate (length tr) take_right)))
      ]
  group_loop-steps n (x ∷ tl) [] l r last result ops e s =
      left_only n (x ∷ tl) l r last result ops (omega arith)
  group_loop-steps zero (x ∷ tl) (y ∷ tr) l r last result ops e s = absurd (omega arith)
  group_loop-steps (suc n) (x ∷ tl) (y ∷ tr) l r last result ops e s = ground (
    arith,
    group_loop-steps n (x ∷ tl) tr l r last result (ops ++ merge_right ∷ []) (omega arith) s.1,
    group_loop-steps n tl (y ∷ tr) l r (some x) (result ++ x ∷ []) (ops ++ take_left ∷ [])
        (omega arith) s,
    group_loop-steps n (x ∷ tl) tr l r (some y) (result ++ y ∷ []) (ops ++ take_right ∷ [])
        (omega arith) s.1,
    append_assoc ops (merge_right ∷ []) (steps last (x ∷ tl) tr).1,
    append_assoc ops (take_left ∷ []) (steps (some x) tl (y ∷ tr)).1,
    append_assoc ops (take_right ∷ []) (steps (some y) (x ∷ tl) tr).1,
    append_assoc result (x ∷ []) (steps (some x) tl (y ∷ tr)).0,
    append_assoc result (y ∷ []) (steps (some y) (x ∷ tl) tr).0,
  )

  -- The groups lie in the columns, and within a group the right column is sorted and has no
  -- duplicates.
  abbrev pub IsCut : List Premerge → (l r : List T) → Type 0
  IsCut [] l r = Unit
  IsCut (group ∷ groups) l r =
      (group.left ≤ length l)
      × (group.right ≤ length r)
      × (group.left + group.right < 2 ^ 32)
      × IsStrict (take group.right r)
      × IsCut groups (drop group.left l) (drop group.right r)

  -- Each group on its own.
  abbrev pub per_group : List Premerge → (l r : List T) → List T × List MergeOp
  per_group [] l r = ([], [])
  per_group (group ∷ groups) l r =
      let merged = merge_deduplicate (take group.left l) (take group.right r) in
      let rest = per_group groups (drop group.left l) (drop group.right r) in
      (merged.0 ++ rest.0, merged.1 ++ rest.1)

  one_group :
      (group : Premerge) (l r result : List T) (ops : List MergeOp)
      → group.left ≤ length l
      → group.right ≤ length r
      → group.left + group.right < 2 ^ 32
      → IsStrict (take group.right r)
      → group_loop ((group.left + group.right) % 2 ^ 32) group.left group.right none l r result ops
        ≡ done
            (drop group.left l)
            (drop group.right r)
            result
            ops
            (merge_deduplicate (take group.left l) (take group.right r)).0
            (merge_deduplicate (take group.left l) (take group.right r)).1
  one_group group l r result ops hl hr small s =
      let a : length (take group.left l) ≡ group.left = omega (arith, length-take group.left l) in
      let b : length (take group.right r) ≡ group.right =
        omega (arith, length-take group.right r) in
      let run =
        group_loop-steps (group.left + group.right) (take group.left l) (take group.right r)
          (drop group.left l) (drop group.right r) none result ops (omega arith) s in
      rw (mod-eq_of_lt small, merge_deduplicate-steps (take group.left l) (take group.right r))
        (ap₂ (λ a b. group_loop (group.left + group.right) a b none l r result ops) (sym a) (sym b)
          ∙ ap₂
              (λ l' r'.
                group_loop (group.left + group.right) (length (take group.left l))
                  (length (take group.right r)) none l' r' result ops)
              (sym (take-append-drop group.left l)) (sym (take-append-drop group.right r))
          ∙ run)

  groups_loop-per_group :
      (groups : List Premerge) (l r result : List T) (ops : List MergeOp)
      → IsCut groups l r
      → groups_loop groups l r result ops
        ≡ some (result ++ (per_group groups l r).0, ops ++ (per_group groups l r).1)
  unfolding groups_loop
  groups_loop-per_group [] l r result ops h = ground (arith, append-nil result, append-nil ops)
  groups_loop-per_group (group ∷ groups) l r result ops (hl, hr, small, s, h) =
      let merged = merge_deduplicate (take group.left l) (take group.right r) in
      let rest = per_group groups (drop group.left l) (drop group.right r) in
      rw (one_group group l r result ops hl hr small s, groups_loop)
        (groups_loop-per_group groups (drop group.left l) (drop group.right r) (result ++ merged.0)
            (ops ++ merged.1) h
          ∙ ap₂ (λ keys more. some (keys, more)) (append_assoc result merged.0 rest.0)
              (append_assoc ops merged.1 rest.1))

  -- On groups that lie in the columns, with sorted, distinct right keys within each group:
  -- `merge_deduplicate_partitioned` reads no element out of range and returns, group behind group,
  -- the keys and the ops that `merge_deduplicate` returns for the group alone.
  pub merge_deduplicate_partitioned-per_group :
      (partitioning : List Premerge) (left right : List T)
      → IsCut partitioning left right
      → merge_deduplicate_partitioned partitioning left right
        ≡ some (per_group partitioning left right)
  unfolding merge_deduplicate_partitioned
  merge_deduplicate_partitioned-per_group partitioning left right h =
      groups_loop-per_group partitioning left right [] [] h
