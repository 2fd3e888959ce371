-- ===== src/Engine/Operators/Merge/Order.antt =====
-- `merge` of two sorted columns: order, and which elements are kept.
use mathlib.Core.List.{Perm, perm_middle}
use mathlib.Core.List.Perm
use locust_db.Prelude.{
  ℕ, zero, suc, ◌≡◌, refl, ap, ◌∙◌, inl, inr, Bool-cases, List, [], ◌∷◌, ◌++◌, take, append-nil,
}
use locust_db.Engine.Operators.Comparator.{
  Comparator, IsOrder, Below, IsSorted, cmp_eq_of_cmp, cmp_eq_of_not_cmp, Below-trans,
}
use locust_db.Engine.Operators.Merge.{merge}
use locust_db.Engine.Operators.Merge.Interleave.{
  tag, elems_of, interleave, interleave_left, interleave_right, merge-interleave,
}

elems_of-tag {ℓ} : {T : Type ℓ} (op : ℕ) (xs : List T) → elems_of (tag op xs) ≡ xs
elems_of-tag op [] = refl
elems_of-tag op (x ∷ xs) = ap (◌∷◌ x) (elems_of-tag op xs)

elems_of-take {ℓ} :
    {T : Type ℓ} (n : ℕ) (rows : List (ℕ × T)) → elems_of (take n rows) ≡ take n (elems_of rows)
elems_of-take zero rows = refl
elems_of-take (suc n) [] = refl
elems_of-take (suc n) ((op, x) ∷ rows) = ap (◌∷◌ x) (elems_of-take n rows)

module _ {ℓ} {T : Type ℓ} (C : Comparator T) where
  interleave-perm : (l r : List T) → Perm (elems_of (interleave C l r)) (l ++ r)
  unfolding interleave
  interleave-perm [] r = rw (elems_of-tag 0 r) Perm.rfl
  interleave-perm (x ∷ l) [] = rw (elems_of-tag 1 l, append-nil l) Perm.rfl
  interleave-perm (x ∷ l) (y ∷ r) = elim (Bool-cases (C.cmp x y)) [
    | inl c ↦ rw (interleave_left C x y l r c) (Perm.cons x (interleave-perm l (y ∷ r)))
    | inr c ↦
        let kept = Perm.cons y (interleave-perm (x ∷ l) r) in
        rw (interleave_right C x y l r c) (Perm.trans kept (Perm.symm (perm_middle (x ∷ l) r)))
  ]

  interleave-Below :
      (a : T) (l r : List T) → Below C a l → Below C a r → Below C a (elems_of (interleave C l r))
  unfolding interleave
  interleave-Below a [] r h k = rw (elems_of-tag 0 r) k
  interleave-Below a (x ∷ l) [] h k = rw (elems_of-tag 1 l) h
  interleave-Below a (x ∷ l) (y ∷ r) h k = elim (Bool-cases (C.cmp x y)) [
    | inl c ↦ rw (interleave_left C x y l r c) (h.0, interleave-Below a l (y ∷ r) h.1 k)
    | inr c ↦ rw (interleave_right C x y l r c) (k.0, interleave-Below a (x ∷ l) r h k.1)
  ]

module _ {ℓ} {T : Type ℓ} (C : Comparator T) (law : IsOrder C) where
  interleave-IsSorted :
      (l r : List T) → IsSorted C l → IsSorted C r → IsSorted C (elems_of (interleave C l r))
  unfolding interleave
  interleave-IsSorted [] r h k = rw (elems_of-tag 0 r) k
  interleave-IsSorted (x ∷ l) [] h k = rw (elems_of-tag 1 l) h
  interleave-IsSorted (x ∷ l) (y ∷ r) h k = elim (Bool-cases (C.cmp x y)) [
    | inl c ↦
        let x_le_y = cmp_eq_of_cmp C law x y c in
        rw (interleave_left C x y l r c) (
          interleave-Below C x l (y ∷ r) h.0 (x_le_y, Below-trans C law x y r x_le_y k.0),
          interleave-IsSorted l (y ∷ r) h.1 k,
        )
    | inr c ↦
        let y_le_x = cmp_eq_of_not_cmp C law x y c in
        rw (interleave_right C x y l r c) (
          interleave-Below C y (x ∷ l) r (y_le_x, Below-trans C law y x l y_le_x h.0) k.0,
          interleave-IsSorted (x ∷ l) r h k.1,
        )
  ]

  -- Of two columns that are sorted by the comparator, `merge` returns the first `limit` elements
  -- of a sorted rearrangement of both columns together.
  pub merge_lem :
      (left right : List T) (limit : ℕ)
      → IsSorted C left
      → IsSorted C right
      → (all : List T) × Perm all (left ++ right)
        × IsSorted C all
        × ((merge C left right limit).0 ≡ take limit all)
  merge_lem left right limit h k = (
    elems_of (interleave C left right),
    interleave-perm C left right,
    interleave-IsSorted left right h k,
    ap (λ p. p.0) (merge-interleave C left right limit)
        ∙ elems_of-take limit (interleave C left right),
  )
