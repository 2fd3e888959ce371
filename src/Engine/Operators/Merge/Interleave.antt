-- ===== src/Engine/Operators/Merge/Interleave.antt =====
-- `merge` against the plain interleaving of two lists.
use locust_db.Prelude.{
  ℕ, zero, suc, ◌+◌, ◌-◌, ◌≤◌, ◌<◌, min, ◌≡◌, refl, ap, sym, ◌∙◌, true, false, inl, inr, Bool-cases,
  List, [], ◌∷◌, ◌++◌, ltb, ltb→lt, length, take, take-nil, take_cong, replicate, append-nil,
  append_assoc, arith,
}
use locust_db.Engine.Operators.Comparator.{Comparator}
use locust_db.Engine.Operators.Merge.{merge_while, merge_rest, merge}

-- Rows of the merged column, each with its op: 1 from the left, 0 from the right.
abbrev pub tag {ℓ} : {T : Type ℓ} → ℕ → List T → List (ℕ × T)
tag op [] = []
tag op (x ∷ xs) = (op, x) ∷ tag op xs

abbrev pub ops_of {ℓ} : {T : Type ℓ} → List (ℕ × T) → List ℕ
ops_of [] = []
ops_of ((op, x) ∷ rows) = op ∷ ops_of rows

abbrev pub elems_of {ℓ} : {T : Type ℓ} → List (ℕ × T) → List T
elems_of [] = []
elems_of ((op, x) ∷ rows) = x ∷ elems_of rows

module _ {ℓ} {T : Type ℓ} where
  elems_of-tag : (op n : ℕ) (xs : List T) → elems_of (take n (tag op xs)) ≡ take n xs
  elems_of-tag op zero xs = refl
  elems_of-tag op (suc n) [] = refl
  elems_of-tag op (suc n) (x ∷ xs) = ap (◌∷◌ x) (elems_of-tag op n xs)

  ops_of-tag :
      (op n : ℕ) (xs : List T) → ops_of (take n (tag op xs)) ≡ replicate (length (take n xs)) op
  ops_of-tag op zero xs = refl
  ops_of-tag op (suc n) [] = refl
  ops_of-tag op (suc n) (x ∷ xs) = ap (◌∷◌ op) (ops_of-tag op n xs)

module _ {ℓ} {T : Type ℓ} (C : Comparator T) where
  unfoldable pub interleave : (l r : List T) → List (ℕ × T)
  interleave [] r = tag 0 r
  interleave (x ∷ l) [] = tag 1 (x ∷ l)
  interleave (x ∷ l) (y ∷ r) = elim (C.cmp x y) [
    | true ↦ (1, x) ∷ interleave l (y ∷ r)
    | false ↦ (0, y) ∷ interleave (x ∷ l) r
  ]

  -- The first `n` rows behind what was merged already.
  abbrev extend : List T → List ℕ → ℕ → List (ℕ × T) → List T × List ℕ
  extend result ops n rows = (result ++ elems_of (take n rows), ops ++ ops_of (take n rows))

  pub interleave_left :
      (x y : T) (l r : List T)
      → C.cmp x y ≡ true
      → interleave (x ∷ l) (y ∷ r) ≡ (1, x) ∷ interleave l (y ∷ r)
  unfolding interleave
  interleave_left x y l r c = ground arith

  pub interleave_right :
      (x y : T) (l r : List T)
      → C.cmp x y ≡ false
      → interleave (x ∷ l) (y ∷ r) ≡ (0, y) ∷ interleave (x ∷ l) r
  unfolding interleave
  interleave_right x y l r c = ground arith

  -- The rest of the left side alone, of the right side alone, or of neither at the limit.
  rest_right :
      (r : List T) (limit i j left_len right_len : ℕ) (result : List T) (ops : List ℕ)
      → right_len ≡ j + length r
      → i + j ≤ limit
      → merge_rest left_len right_len limit
          (record { left_rest = []; right_rest = r; i = i; j = j; result = result; ops = ops })
        ≡ extend result ops (limit - (i + j)) (tag 0 r)
  unfolding merge_rest
  rest_right r limit i j ll rl result ops q h = ground (
    arith,
    take-nil {A = T} (min ll (limit - j) - i),
    take_cong (min rl (limit - i) - j) (limit - (i + j)) r (omega arith),
    elems_of-tag 0 (limit - (i + j)) r,
    ops_of-tag 0 (limit - (i + j)) r,
    append-nil result,
    append-nil ops,
  )

  rest_left :
      (l : List T) (limit i j left_len right_len : ℕ) (result : List T) (ops : List ℕ)
      → left_len ≡ i + length l
      → i + j ≤ limit
      → merge_rest left_len right_len limit
          (record { left_rest = l; right_rest = []; i = i; j = j; result = result; ops = ops })
        ≡ extend result ops (limit - (i + j)) (tag 1 l)
  unfolding merge_rest
  rest_left l limit i j ll rl result ops q h = ground (
    arith,
    take-nil {A = T} (min rl (limit - i) - j),
    take_cong (min ll (limit - j) - i) (limit - (i + j)) l (omega arith),
    elems_of-tag 1 (limit - (i + j)) l,
    ops_of-tag 1 (limit - (i + j)) l,
    append-nil (result ++ take (limit - (i + j)) l),
    append-nil (ops ++ replicate (length (take (limit - (i + j)) l)) 1),
  )

  rest_none :
      (l r : List T) (limit i j left_len right_len : ℕ) (result : List T) (ops : List ℕ)
      → i + j ≡ limit
      → merge_rest left_len right_len limit
          (record { left_rest = l; right_rest = r; i = i; j = j; result = result; ops = ops })
        ≡ (result, ops)
  unfolding merge_rest
  rest_none l r limit i j ll rl result ops e = ground (
    arith,
    take_cong (min rl (limit - i) - j) 0 r (omega arith),
    take_cong (min ll (limit - j) - i) 0 l (omega arith),
    append-nil result,
    append-nil ops,
  )

  while_left :
      (x y : T) (l r : List T) (limit i j : ℕ) (result : List T) (ops : List ℕ)
      → i + j < limit
      → C.cmp x y ≡ true
      → merge_while C (x ∷ l) (y ∷ r) limit i j result ops
        ≡ merge_while C l (y ∷ r) limit (i + 1) j (result ++ x ∷ []) (ops ++ 1 ∷ [])
  unfolding merge_while
  while_left x y l r limit i j result ops h c = ground arith

  while_right :
      (x y : T) (l r : List T) (limit i j : ℕ) (result : List T) (ops : List ℕ)
      → i + j < limit
      → C.cmp x y ≡ false
      → merge_while C (x ∷ l) (y ∷ r) limit i j result ops
        ≡ merge_while C (x ∷ l) r limit i (j + 1) (result ++ y ∷ []) (ops ++ 0 ∷ [])
  unfolding merge_while
  while_right x y l r limit i j result ops h c = ground arith

  while_stop :
      (x y : T) (l r : List T) (limit i j : ℕ) (result : List T) (ops : List ℕ)
      → limit ≤ i + j
      → merge_while C (x ∷ l) (y ∷ r) limit i j result ops
        ≡ record { left_rest = x ∷ l; right_rest = y ∷ r; i = i; j = j; result = result; ops = ops }
  unfolding merge_while
  while_stop x y l r limit i j result ops h = ground arith

  extend_cons :
      (n limit k op : ℕ) (x : T) (rows : List (ℕ × T)) (result : List T) (ops : List ℕ)
      → k < limit
      → n ≡ limit - (k + 1)
      → extend (result ++ x ∷ []) (ops ++ op ∷ []) n rows
        ≡ extend result ops (limit - k) ((op, x) ∷ rows)
  extend_cons n limit k op x rows result ops h e =
      let m : limit - k ≡ suc n = omega arith in
      rw
        (
          m,
          append_assoc result (x ∷ []) (elems_of (take n rows)),
          append_assoc ops (op ∷ []) (ops_of (take n rows)),
        )
        refl

  merge_while_lem :
      (l r : List T) (limit i j left_len right_len : ℕ) (result : List T) (ops : List ℕ)
      → left_len ≡ i + length l
      → right_len ≡ j + length r
      → i + j ≤ limit
      → merge_rest left_len right_len limit (merge_while C l r limit i j result ops)
        ≡ extend result ops (limit - (i + j)) (interleave l r)
  merge_while_lem [] r limit i j ll rl result ops p q h =
      unfold merge_while interleave in rest_right r limit i j ll rl result ops q h
  merge_while_lem (x ∷ l) [] limit i j ll rl result ops p q h =
      unfold merge_while interleave in rest_left (x ∷ l) limit i j ll rl result ops p h
  merge_while_lem (x ∷ l) (y ∷ r) limit i j ll rl result ops p q h =
      elim (Bool-cases (ltb (i + j) limit)) [
        | inr full ↦
            ap (merge_rest ll rl limit) (while_stop x y l r limit i j result ops (ground arith))
            ∙ rest_none (x ∷ l) (y ∷ r) limit i j ll rl result ops (ground arith)
            ∙ (let z : limit - (i + j) ≡ 0 = ground arith in
                rw (z, append-nil result, append-nil ops) refl)
        | inl more ↦
            let room = ltb→lt _ _ more in
            elim (Bool-cases (C.cmp x y)) [
              | inl c ↦
                  ap (merge_rest ll rl limit) (while_left x y l r limit i j result ops room c)
                  ∙ merge_while_lem l (y ∷ r) limit (i + 1) j ll rl (result ++ x ∷ [])
                      (ops ++ 1 ∷ []) (omega arith) q (omega arith)
                  ∙ extend_cons _ limit (i + j) 1 x _ result ops room (omega arith)
                  ∙ ap (extend result ops (limit - (i + j))) (sym (interleave_left x y l r c))
              | inr c ↦
                  ap (merge_rest ll rl limit) (while_right x y l r limit i j result ops room c)
                  ∙ merge_while_lem (x ∷ l) r limit i (j + 1) ll rl (result ++ y ∷ [])
                      (ops ++ 0 ∷ []) p (omega arith) (omega arith)
                  ∙ extend_cons _ limit (i + j) 0 y _ result ops room (omega arith)
                  ∙ ap (extend result ops (limit - (i + j))) (sym (interleave_right x y l r c))
            ]
      ]

  -- `merge` returns the first `limit` rows of the interleaving, and their ops.
  pub merge-interleave :
      (left right : List T) (limit : ℕ)
      → merge C left right limit ≡ (
        elems_of (take limit (interleave left right)),
        ops_of (take limit (interleave left right)),
      )
  unfolding merge
  merge-interleave left right limit =
      merge_while_lem left right limit 0 0 _ _ [] [] (omega arith) (omega arith) (omega arith)
      ∙ ap (λ n. extend [] [] n (interleave left right)) (omega arith)
