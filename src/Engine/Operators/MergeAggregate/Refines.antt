-- ===== src/Engine/Operators/MergeAggregate/Refines.antt =====
-- `merge_deduplicate` and `merge_aggregate`, against the union of sorted groups.
use mathlib.Core.Path.{fun_ext}
use locust_db.Prelude.{
  ◌≡◌, refl, ap, sym, ◌∙◌, true, false, inl, inr, Bool-cases, Option, none, some, List, [], ◌∷◌,
  ◌++◌, append_assoc, append-nil, length, length-push, get_elem?-append_length, set-append_length,
  suc, replicate, Ord, arith,
}
use locust_db.Errors.{Result, ok, err, panic, ◌>>=◌}
use locust_db.Engine.Operators.MergeDeduplicate.{
  MergeOp, take_left, take_right, merge_right, is_last, merge_deduplicate,
}
use locust_db.Engine.Operators.MergeDeduplicate.Steps.{
  left_step, right_step, merge_step, all_right, steps, merge_deduplicate-steps,
}
use locust_db.Engine.Operators.MergeAggregate.{
  Aggregator, Combinable, aggregate_loop, merge_aggregate,
}
use locust_db.Engine.Operators.MergeAggregate.Union.{
  Groups, keys, aggregates, cons_ok, Above, IsStrict, union_keys, union,
}

module _ {ℓ} {K : Type ℓ} ⦃o : Ord K⦄ where
  -- The loop has not yet to merge the head of the right side.
  abbrev pub Fresh : Option K → List K → Type 0
  Fresh last [] = Unit
  Fresh last (j ∷ r) = is_last last j ≡ false

  pub ne_of_lt : (k j : K) → o.lt k j ≡ true → o.eq k j ≡ false
  ne_of_lt k j h = elim (Bool-cases (o.eq k j)) [
    | inr e ↦ e
    | inl e ↦ ground (arith, (o.eq_iff k j).0 e, o.lt_irrefl k)
  ]

  pub not_gt_of_lt : (k j : K) → o.lt k j ≡ true → o.lt j k ≡ false
  not_gt_of_lt k j h = elim (Bool-cases (o.lt j k)) [
    | inr e ↦ e
    | inl e ↦ ground (arith, o.lt_trans k j k h e, o.lt_irrefl k)
  ]

  pub Fresh-Above : (k : K) (r : List K) → Above k r → Fresh (some k) r
  unfolding is_last
  Fresh-Above k [] h = tt
  Fresh-Above k (j ∷ r) h = ne_of_lt k j h.0

  steps_nil :
      (last : Option K) (j : K) (r : List K)
      → is_last last j ≡ false
      → steps last [] (j ∷ r) ≡ all_right (j ∷ r)
  unfolding steps
  steps_nil last j r f = ground arith

  pub steps_left :
      (last : Option K) (k j : K) (l r : List K)
      → is_last last j ≡ false
      → o.lt k j ≡ true
      → steps last (k ∷ l) (j ∷ r) ≡ left_step k (steps (some k) l (j ∷ r))
  unfolding steps
  steps_left last k j l r f h = ground (arith, o.le-eq k j, not_gt_of_lt k j h)

  pub steps_right :
      (last : Option K) (k j : K) (l r : List K)
      → is_last last j ≡ false
      → o.lt j k ≡ true
      → steps last (k ∷ l) (j ∷ r) ≡ right_step j (steps (some j) (k ∷ l) r)
  unfolding steps
  steps_right last k j l r f h = ground (arith, o.le-eq k j)

  steps_merge :
      (k : K) (l r : List K)
      → Above k r
      → steps (some k) l (k ∷ r) ≡ merge_step (steps (some k) l r)
  unfolding steps is_last
  steps_merge k [] [] h = ground (arith, (o.eq_iff k k).1 refl)
  steps_merge k [] (j ∷ r) h = ground (arith, (o.eq_iff k k).1 refl, ne_of_lt k j h.0)
  steps_merge k (x ∷ l) r h = ground (arith, (o.eq_iff k k).1 refl)

  pub Fresh-none : (r : List K) → Fresh none r
  unfolding is_last
  Fresh-none [] = tt
  Fresh-none (j ∷ r) = refl

  pub Fresh-of_lt : (k j : K) (r : List K) → o.lt k j ≡ true → Fresh (some k) (j ∷ r)
  unfolding is_last
  Fresh-of_lt k j r h = ne_of_lt k j h

  -- A key of both sides takes two rounds.
  pub steps_both :
      (last : Option K) (k j : K) (l r : List K)
      → is_last last j ≡ false
      → Above j r
      → k ≡ j
      → steps last (k ∷ l) (j ∷ r) ≡ left_step k (merge_step (steps (some k) l r))
  unfolding steps
  steps_both last k j l r f h e = ground (arith, o.le-eq k j, o.lt_irrefl k, steps_merge j l r h)

  pub keys_union :
      (l r : List K) (last : Option K)
      → IsStrict l
      → IsStrict r
      → Fresh last r
      → (steps last l r).0 ≡ union_keys l r
  unfolding steps union_keys
  keys_union [] [] last sl sr f = refl
  keys_union [] (j ∷ r) last sl sr f = ground arith
  keys_union (k ∷ l) [] last sl sr f = refl
  keys_union (k ∷ l) (j ∷ r) last sl sr f = elim (Bool-cases (o.lt k j)) [
    | inl lt ↦
        rw (steps_left last k j l r f lt)
          (ground (arith, keys_union l (j ∷ r) (some k) sl.1 sr (Fresh-of_lt k j r lt)))
    | inr nlt ↦ elim (Bool-cases (o.lt j k)) [
      | inl gt ↦
          rw (steps_right last k j l r f gt)
            (ground (arith, keys_union (k ∷ l) r (some j) sl sr.1 (Fresh-Above j r sr.0)))
      | inr ngt ↦
          let e = o.lt_connected k j nlt ngt in
          rw (steps_both last k j l r f sr.0 e)
            (ground (arith, keys_union l r (some k) sl.1 sr.1 (rw e (Fresh-Above j r sr.0))))
    ]
  ]

module _ {ℓ} {V : Type ℓ} ⦃c : Combinable V⦄ (aggregator : Aggregator) where
  aggregate_merge :
      (ops : List MergeOp) (l r : List V) (result : List V) (v w : V)
      → aggregate_loop (merge_right ∷ ops) l (w ∷ r) aggregator (result ++ v ∷ [])
        ≡ (c.combine aggregator v w >>= λ u. aggregate_loop ops l r aggregator (result ++ u ∷ []))
  unfolding aggregate_loop
  aggregate_merge ops l r result v w =
      simp (length-push, get_elem?-append_length, set-append_length)

  loop_left :
      (ops : List MergeOp) (x : V) (l r result : List V)
      → aggregate_loop (take_left ∷ ops) (x ∷ l) r aggregator result
        ≡ aggregate_loop ops l r aggregator (result ++ x ∷ [])
  unfolding aggregate_loop
  loop_left ops x l r result = refl

  loop_right :
      (ops : List MergeOp) (y : V) (l r result : List V)
      → aggregate_loop (take_right ∷ ops) l (y ∷ r) aggregator result
        ≡ aggregate_loop ops l r aggregator (result ++ y ∷ [])
  unfolding aggregate_loop
  loop_right ops y l r result = refl

  aggregate_all_left :
      (l r result : List V)
      → aggregate_loop (replicate (length l) take_left) l r aggregator result ≡ ok (result ++ l)
  unfolding aggregate_loop
  aggregate_all_left [] r result = ap ok (sym (append-nil result))
  aggregate_all_left (x ∷ l) r result =
      aggregate_all_left l r (result ++ x ∷ []) ∙ ap ok (append_assoc result (x ∷ []) l)

  aggregate_all_right :
      (l r result : List V)
      → aggregate_loop (replicate (length r) take_right) l r aggregator result ≡ ok (result ++ r)
  unfolding aggregate_loop
  aggregate_all_right l [] result = ap ok (sym (append-nil result))
  aggregate_all_right l (x ∷ r) result =
      aggregate_all_right l r (result ++ x ∷ []) ∙ ap ok (append_assoc result (x ∷ []) r)

pub length-keys {ℓ} :
    {K V : Type ℓ} (rows : Groups K V) → length (keys rows) ≡ length (aggregates rows)
length-keys [] = refl
length-keys ((k, v) ∷ rows) = ap suc (length-keys rows)

module _ {ℓ} {K V : Type ℓ} where
  -- What the loop returns, from the groups that are still to come.
  abbrev behind : List V → Result (Groups K V) → Result (List V)
  behind result rows = rows >>= λ rows. ok (result ++ aggregates rows)

  behind-cons_ok :
      (result : List V) (k : K) (v : V) (rest : Result (Groups K V))
      → behind (result ++ v ∷ []) rest ≡ behind result (cons_ok (k, v) rest)
  behind-cons_ok result k v (ok rows) = ap ok (append_assoc result (v ∷ []) (aggregates rows))
  behind-cons_ok result k v (err e) = refl
  behind-cons_ok result k v panic = refl

  behind-bind :
      (result : List V) (k : K) (u : Result V) (rest : Result (Groups K V))
      → (u >>= λ u. behind (result ++ u ∷ []) rest) ≡ behind result (u >>= λ u. cons_ok (k, u) rest)
  behind-bind result k (ok u) rest = behind-cons_ok result k u rest
  behind-bind result k (err e) rest = refl
  behind-bind result k panic rest = refl

module _ {ℓ} {K V : Type ℓ} ⦃o : Ord K⦄ ⦃c : Combinable V⦄ (aggregator : Aggregator) where
  pub union_left :
      (k j : K) (v w : V) (ls rs : Groups K V)
      → o.lt k j ≡ true
      → union aggregator ((k, v) ∷ ls) ((j, w) ∷ rs)
        ≡ cons_ok (k, v) (union aggregator ls ((j, w) ∷ rs))
  unfolding union
  union_left k j v w ls rs h = ground arith

  pub union_right :
      (k j : K) (v w : V) (ls rs : Groups K V)
      → o.lt k j ≡ false
      → o.lt j k ≡ true
      → union aggregator ((k, v) ∷ ls) ((j, w) ∷ rs)
        ≡ cons_ok (j, w) (union aggregator ((k, v) ∷ ls) rs)
  unfolding union
  union_right k j v w ls rs h g = ground arith

  pub union_both :
      (k j : K) (v w : V) (ls rs : Groups K V)
      → o.lt k j ≡ false
      → o.lt j k ≡ false
      → union aggregator ((k, v) ∷ ls) ((j, w) ∷ rs)
        ≡ (c.combine aggregator v w >>= λ u. cons_ok (k, u) (union aggregator ls rs))
  unfolding union
  union_both k j v w ls rs h g = ground arith

  aggregate_union :
      (ls rs : Groups K V) (last : Option K) (result : List V)
      → IsStrict (keys ls)
      → IsStrict (keys rs)
      → Fresh last (keys rs)
      → aggregate_loop
          (steps last (keys ls) (keys rs)).1
          (aggregates ls)
          (aggregates rs)
          aggregator
          result
        ≡ behind result (union aggregator ls rs)
  aggregate_union [] [] last result sl sr f =
      unfold steps union aggregate_loop in ap ok (sym (append-nil result))
  aggregate_union [] ((j, w) ∷ rs) last result sl sr f =
      ap (λ s. aggregate_loop s.1 [] (w ∷ aggregates rs) aggregator result)
        (steps_nil last j (keys rs) f)
      ∙ ap (λ n. aggregate_loop (replicate n take_right) [] (w ∷ aggregates rs) aggregator result)
          (ap suc (length-keys rs))
      ∙ aggregate_all_right aggregator [] (w ∷ aggregates rs) result
      ∙ (unfold union in refl)
  aggregate_union ((k, v) ∷ ls) [] last result sl sr f =
      unfold steps union in
      (ap (λ n. aggregate_loop (replicate n take_left) (v ∷ aggregates ls) [] aggregator result)
          (ap suc (length-keys ls))
        ∙ aggregate_all_left aggregator (v ∷ aggregates ls) [] result)
  aggregate_union ((k, v) ∷ ls) ((j, w) ∷ rs) last result sl sr f = elim (Bool-cases (o.lt k j)) [
    | inl lt ↦
        rw (steps_left last k j (keys ls) (keys rs) f lt, union_left k j v w ls rs lt)
          (loop_left aggregator (steps (some k) (keys ls) (j ∷ keys rs)).1 v (aggregates ls)
              (w ∷ aggregates rs) result
            ∙ aggregate_union ls ((j, w) ∷ rs) (some k) (result ++ v ∷ []) sl.1 sr
                (Fresh-of_lt k j (keys rs) lt)
            ∙ behind-cons_ok result k v (union aggregator ls ((j, w) ∷ rs)))
    | inr nlt ↦ elim (Bool-cases (o.lt j k)) [
      | inl gt ↦
          rw (steps_right last k j (keys ls) (keys rs) f gt, union_right k j v w ls rs nlt gt)
            (loop_right aggregator (steps (some j) (k ∷ keys ls) (keys rs)).1 w (v ∷ aggregates ls)
                (aggregates rs) result
              ∙ aggregate_union ((k, v) ∷ ls) rs (some j) (result ++ w ∷ []) sl sr.1
                  (Fresh-Above j (keys rs) sr.0)
              ∙ behind-cons_ok result j w (union aggregator ((k, v) ∷ ls) rs))
      | inr ngt ↦
          let e = o.lt_connected k j nlt ngt in
          let fresh : Fresh (some k) (keys rs) = rw e (Fresh-Above j (keys rs) sr.0) in
          rw (steps_both last k j (keys ls) (keys rs) f sr.0 e, union_both k j v w ls rs nlt ngt)
            (loop_left aggregator (merge_right ∷ (steps (some k) (keys ls) (keys rs)).1) v
                (aggregates ls) (w ∷ aggregates rs) result
              ∙ aggregate_merge aggregator (steps (some k) (keys ls) (keys rs)).1 (aggregates ls)
                  (aggregates rs) result v w
              ∙ ap (λ f. c.combine aggregator v w >>= f)
                  (fun_ext λ u. aggregate_union ls rs (some k) (result ++ u ∷ []) sl.1 sr.1 fresh)
              ∙ behind-bind result k (c.combine aggregator v w) (union aggregator ls rs))
    ]
  ]

  -- Two batches with sorted, distinct group keys: `merge_deduplicate` returns the sorted union of the
  -- keys, and `merge_aggregate`, by its ops, the aggregates of the union of the two maps, or the
  -- first error of combining.
  pub merge_aggregate-union :
      (left right : Groups K V)
      → IsStrict (keys left)
      → IsStrict (keys right)
      → ((merge_deduplicate (keys left) (keys right)).0 ≡ union_keys (keys left) (keys right))
        × (merge_aggregate
              (merge_deduplicate (keys left) (keys right)).1
              (aggregates left)
              (aggregates right)
              aggregator
            ≡ (union aggregator left right >>= λ rows. ok (aggregates rows)))
  unfolding merge_aggregate
  merge_aggregate-union left right sl sr = rw (merge_deduplicate-steps (keys left) (keys right)) (
    keys_union (keys left) (keys right) none sl sr (Fresh-none (keys right)),
    aggregate_union left right none [] sl sr (Fresh-none (keys right)),
  )
