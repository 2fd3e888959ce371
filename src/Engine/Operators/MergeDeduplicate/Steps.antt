-- ===== src/Engine/Operators/MergeDeduplicate/Steps.antt =====
-- `merge_deduplicate` without its accumulators: what each state of the loop still returns.
use locust_db.Prelude.{
  ◌≡◌, refl, true, false, Option, none, some, List, [], ◌∷◌, ◌++◌, append_assoc, append-nil, length,
  replicate, Ord, arith,
}
use locust_db.Engine.Operators.MergeDeduplicate.{
  MergeOp, take_left, take_right, merge_right, last?, is_last, dedup_loop, merge_deduplicate,
}

last?-append {ℓ} : {T : Type ℓ} (xs : List T) (x : T) → last? (xs ++ x ∷ []) ≡ some x
last?-append [] x = refl
last?-append (y ∷ []) x = refl
last?-append (y ∷ z ∷ xs) x = last?-append (z ∷ xs) x

-- What is still to come: keys, and ops.
abbrev pub Rest {ℓ} : Type ℓ → Type ℓ
Rest T = List T × List MergeOp

module _ {ℓ} {T : Type ℓ} where
  abbrev pub left_step : T → Rest T → Rest T
  left_step x rest = (x ∷ rest.0, take_left ∷ rest.1)

  abbrev pub right_step : T → Rest T → Rest T
  right_step y rest = (y ∷ rest.0, take_right ∷ rest.1)

  abbrev pub merge_step : Rest T → Rest T
  merge_step rest = (rest.0, merge_right ∷ rest.1)

  abbrev pub all_left : List T → Rest T
  all_left l = (l, replicate (length l) take_left)

  abbrev pub all_right : List T → Rest T
  all_right r = (r, replicate (length r) take_right)

  abbrev behind : List T → List MergeOp → Rest T → Rest T
  behind result ops rest = (result ++ rest.0, ops ++ rest.1)

module _ {ℓ} {T : Type ℓ} ⦃o : Ord T⦄ where
  unfoldable pub steps : Option T → (l r : List T) → Rest T
  steps last [] [] = ([], [])
  steps last [] (y ∷ r) = elim (is_last last y) [
    | true ↦ merge_step (all_right r)
    | false ↦ all_right (y ∷ r)
  ]
  steps last (x ∷ l) [] = all_left (x ∷ l)
  steps last (x ∷ l) (y ∷ r) = elim (is_last last y) [
    | true ↦ merge_step (steps last (x ∷ l) r)
    | false ↦ elim (o.le x y) [
      | true ↦ left_step x (steps (some x) l (y ∷ r))
      | false ↦ right_step y (steps (some y) (x ∷ l) r)
    ]
  ]

  dedup_loop_lem :
      (l r : List T) (last : Option T) (result : List T) (ops : List MergeOp)
      → last? result ≡ last
      → dedup_loop l r result ops ≡ behind result ops (steps last l r)
  unfolding dedup_loop steps
  dedup_loop_lem [] [] last result ops e = ground (arith, append-nil result, append-nil ops)
  dedup_loop_lem [] (y ∷ r) last result ops e = ground arith
  dedup_loop_lem (x ∷ l) [] last result ops e = refl
  dedup_loop_lem (x ∷ l) (y ∷ r) last result ops e = ground (
    arith,
    dedup_loop_lem (x ∷ l) r last result (ops ++ merge_right ∷ []) e,
    dedup_loop_lem l (y ∷ r) (some x) (result ++ x ∷ []) (ops ++ take_left ∷ [])
        (last?-append result x),
    dedup_loop_lem (x ∷ l) r (some y) (result ++ y ∷ []) (ops ++ take_right ∷ [])
        (last?-append result y),
    append_assoc ops (merge_right ∷ []) (steps last (x ∷ l) r).1,
    append_assoc ops (take_left ∷ []) (steps (some x) l (y ∷ r)).1,
    append_assoc ops (take_right ∷ []) (steps (some y) (x ∷ l) r).1,
    append_assoc result (x ∷ []) (steps (some x) l (y ∷ r)).0,
    append_assoc result (y ∷ []) (steps (some y) (x ∷ l) r).0,
  )

  pub merge_deduplicate-steps : (l r : List T) → merge_deduplicate l r ≡ steps none l r
  unfolding merge_deduplicate
  merge_deduplicate-steps l r = dedup_loop_lem l r none [] [] refl
