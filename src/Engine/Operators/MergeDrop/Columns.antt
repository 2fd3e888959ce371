-- ===== src/Engine/Operators/MergeDrop/Columns.antt =====
-- The ops of `merge_deduplicate`, replayed by `merge_drop` on a column that the keys determine.
use locust_db.Prelude.{
  ◌≡◌, ap, sym, ◌∙◌, inl, inr, Bool-cases, Option, none, some, List, [], ◌∷◌, ◌++◌, map,
  append_assoc, append-nil, length, replicate, Ord, arith,
}
use locust_db.Engine.Operators.MergeDeduplicate.{take_left, take_right, is_last, merge_deduplicate}
use locust_db.Engine.Operators.MergeDeduplicate.Steps.{steps, merge_deduplicate-steps}
use locust_db.Engine.Operators.MergeDrop.{drop_loop, merge_drop}

module _ {ℓ κ} {K : Type ℓ} {V : Type κ} (f : K → V) where
  drop_all_left :
      (l : List K) (r result : List V)
      → drop_loop (replicate (length l) take_left) (map f l) r result ≡ some (result ++ map f l)
  unfolding drop_loop
  drop_all_left [] r result = ap some (sym (append-nil result))
  drop_all_left (x ∷ l) r result =
      drop_all_left l r (result ++ f x ∷ []) ∙ ap some (append_assoc result (f x ∷ []) (map f l))

  drop_all_right :
      (r : List K) (l result : List V)
      → drop_loop (replicate (length r) take_right) l (map f r) result ≡ some (result ++ map f r)
  unfolding drop_loop
  drop_all_right [] l result = ap some (sym (append-nil result))
  drop_all_right (y ∷ r) l result =
      drop_all_right r l (result ++ f y ∷ []) ∙ ap some (append_assoc result (f y ∷ []) (map f r))

module _ {ℓ κ} {K : Type ℓ} {V : Type κ} ⦃o : Ord K⦄ (f : K → V) where
  drop_loop-steps :
      (last : Option K) (l r : List K) (result : List V)
      → drop_loop (steps last l r).1 (map f l) (map f r) result
        ≡ some (result ++ map f (steps last l r).0)
  unfolding drop_loop steps
  drop_loop-steps last [] [] result = ap some (sym (append-nil result))
  drop_loop-steps last [] (y ∷ r) result = elim (Bool-cases (is_last last y)) [
    | inl e ↦ rw (e, steps) (drop_all_right f r [] result)
    | inr e ↦ rw (e, steps) (drop_all_right f (y ∷ r) [] result)
  ]
  drop_loop-steps last (x ∷ l) [] result = drop_all_left f (x ∷ l) [] result
  drop_loop-steps last (x ∷ l) (y ∷ r) result = ground (
    arith,
    drop_loop-steps last (x ∷ l) r result,
    drop_loop-steps (some x) l (y ∷ r) (result ++ f x ∷ []),
    drop_loop-steps (some y) (x ∷ l) r (result ++ f y ∷ []),
    append_assoc result (f x ∷ []) (map f (steps (some x) l (y ∷ r)).0),
    append_assoc result (f y ∷ []) (map f (steps (some y) (x ∷ l) r).0),
  )

  -- For any two columns of keys, and a further column that is a function of the key: `merge_drop`,
  -- by the ops of `merge_deduplicate`, reads no element out of range and returns that function of
  -- the deduplicated keys.
  pub merge_drop-merge_deduplicate :
      (left right : List K)
      → merge_drop (merge_deduplicate left right).1 (map f left) (map f right)
        ≡ some (map f (merge_deduplicate left right).0)
  unfolding merge_drop
  merge_drop-merge_deduplicate left right =
      rw (merge_deduplicate-steps left right) (drop_loop-steps none left right [])
