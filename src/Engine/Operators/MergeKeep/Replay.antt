-- ===== src/Engine/Operators/MergeKeep/Replay.antt =====
-- The ops of `merge`, replayed by `merge_keep` on other columns of the same rows.
use locust_db.Prelude.{
  ℕ, zero, suc, ◌≡◌, refl, ap, subst, sym, ◌∙◌, inl, inr, Bool-cases, some, List, [], ◌∷◌, ◌++◌,
  map, take, append_assoc, append-nil,
}
use locust_db.Engine.Operators.Comparator.{Comparator}
use locust_db.Engine.Operators.Merge.{merge}
use locust_db.Engine.Operators.Merge.Interleave.{
  tag, ops_of, elems_of, interleave, interleave_left, interleave_right, merge-interleave,
}
use locust_db.Engine.Operators.MergeKeep.{keep_loop, merge_keep}

-- A comparator of keys, on rows.
abbrev pub by_key {ℓ κ} : {R : Type ℓ} {K : Type κ} → (R → K) → Comparator K → Comparator R
by_key key C = record {
  cmp = λ a b. C.cmp (key a) (key b);
  cmp_eq = λ a b. C.cmp_eq (key a) (key b);
  is_less_than = C.is_less_than;
}

abbrev map_rows {ℓ κ} : {A : Type ℓ} {B : Type κ} → (A → B) → List (ℕ × A) → List (ℕ × B)
map_rows f [] = []
map_rows f ((op, x) ∷ xs) = (op, f x) ∷ map_rows f xs

module _ {ℓ κ} {A : Type ℓ} {B : Type κ} (f : A → B) where
  map_rows-tag : (op : ℕ) (xs : List A) → map_rows f (tag op xs) ≡ tag op (map f xs)
  map_rows-tag op [] = refl
  map_rows-tag op (x ∷ xs) = ap (◌∷◌ (op, f x)) (map_rows-tag op xs)

  elems_of-map_rows :
      (n : ℕ) (xs : List (ℕ × A)) → elems_of (take n (map_rows f xs)) ≡ map f (elems_of (take n xs))
  elems_of-map_rows zero xs = refl
  elems_of-map_rows (suc n) [] = refl
  elems_of-map_rows (suc n) ((op, x) ∷ xs) = ap (◌∷◌ (f x)) (elems_of-map_rows n xs)

  ops_of-map_rows :
      (n : ℕ) (xs : List (ℕ × A)) → ops_of (take n (map_rows f xs)) ≡ ops_of (take n xs)
  ops_of-map_rows zero xs = refl
  ops_of-map_rows (suc n) [] = refl
  ops_of-map_rows (suc n) ((op, x) ∷ xs) = ap (◌∷◌ op) (ops_of-map_rows n xs)

-- The interleaving of the keys is that of the rows, by their keys.
interleave-map {ℓ κ} :
    {R : Type ℓ} {K : Type κ} (C : Comparator K) (key : R → K) (ls rs : List R)
    → interleave C (map key ls) (map key rs) ≡ map_rows key (interleave (by_key key C) ls rs)
unfolding interleave
interleave-map C key [] rs = sym (map_rows-tag key 0 rs)
interleave-map C key (x ∷ ls) [] = sym (map_rows-tag key 1 (x ∷ ls))
interleave-map C key (x ∷ ls) (y ∷ rs) = elim (Bool-cases (C.cmp (key x) (key y))) [
  | inl c ↦
      interleave_left C (key x) (key y) _ _ c
      ∙ ap (◌∷◌ (1, key x)) (interleave-map C key ls (y ∷ rs))
      ∙ ap (map_rows key) (sym (interleave_left (by_key key C) x y ls rs c))
  | inr c ↦
      interleave_right C (key x) (key y) _ _ c
      ∙ ap (◌∷◌ (0, key y)) (interleave-map C key (x ∷ ls) rs)
      ∙ ap (map_rows key) (sym (interleave_right (by_key key C) x y ls rs c))
]

module _ {ℓ μ} {R : Type ℓ} {V : Type μ} (C : Comparator R) (val : R → V) where
  -- What the replay of the ops of these rows returns.
  abbrev Replays : List (ℕ × R) → List R → List R → List V → Type μ
  Replays rows ls rs result =
      keep_loop (ops_of rows) (map val ls) (map val rs) result
      ≡ some (result ++ map val (elems_of rows))

  replay_left :
      (x : R) (rows : List (ℕ × R)) (ls rs : List R) (result : List V)
      → Replays rows ls rs (result ++ val x ∷ [])
      → Replays ((1, x) ∷ rows) (x ∷ ls) rs result
  unfolding keep_loop
  replay_left x rows ls rs result h =
      h ∙ ap some (append_assoc result (val x ∷ []) (map val (elems_of rows)))

  replay_right :
      (y : R) (rows : List (ℕ × R)) (ls rs : List R) (result : List V)
      → Replays rows ls rs (result ++ val y ∷ [])
      → Replays ((0, y) ∷ rows) ls (y ∷ rs) result
  unfolding keep_loop
  replay_right y rows ls rs result h =
      h ∙ ap some (append_assoc result (val y ∷ []) (map val (elems_of rows)))

  replay_nil : (ls rs : List R) (result : List V) → Replays [] ls rs result
  unfolding keep_loop
  replay_nil ls rs result = ap some (sym (append-nil result))

  interleave-nil : (ls : List R) → interleave C ls [] ≡ tag 1 ls
  unfolding interleave
  interleave-nil [] = refl
  interleave-nil (x ∷ ls) = refl

  replay :
      (n : ℕ) (ls rs : List R) (result : List V)
      → Replays (take n (interleave C ls rs)) ls rs result
  unfolding interleave
  replay zero ls rs result = replay_nil ls rs result
  replay (suc n) [] [] result = replay_nil [] [] result
  replay (suc n) [] (y ∷ rs) result =
      replay_right y (take n (tag 0 rs)) [] rs result (replay n [] rs (result ++ val y ∷ []))
  replay (suc n) (x ∷ ls) [] result = replay_left x (take n (tag 1 ls)) ls [] result (
      subst (λ rows. Replays (take n rows) ls [] (result ++ val x ∷ [])) (interleave-nil ls)
        (replay n ls [] (result ++ val x ∷ [])))
  replay (suc n) (x ∷ ls) (y ∷ rs) result = elim (Bool-cases (C.cmp x y)) [
    | inl c ↦ rw (interleave_left C x y ls rs c) (
        replay_left x (take n (interleave C ls (y ∷ rs))) ls (y ∷ rs) result
          (replay n ls (y ∷ rs) (result ++ val x ∷ [])))
    | inr c ↦ rw (interleave_right C x y ls rs c) (
        replay_right y (take n (interleave C (x ∷ ls) rs)) (x ∷ ls) rs result
          (replay n (x ∷ ls) rs (result ++ val y ∷ [])))
  ]

-- Rows of two batches, merged by a key column: the merged rows, in one order, are what `merge`
-- returns for the keys and what `merge_keep` returns, by the ops of that `merge`, for any other
-- column of the rows. So the columns of the merged batch stay aligned, at every limit, and
-- `merge_keep` reads no element out of range.
pub merge_keep-merge {ℓ κ μ} :
    {R : Type ℓ} {K : Type κ} {V : Type μ} (C : Comparator K) (key : R → K) (val : R → V)
    (left right : List R) (limit : ℕ)
    → ((merge C (map key left) (map key right) limit).0
        ≡ map key (merge (by_key key C) left right limit).0)
      × (merge_keep (merge C (map key left) (map key right) limit).1 (map val left) (map val right)
          ≡ some (map val (merge (by_key key C) left right limit).0))
unfolding merge_keep
merge_keep-merge C key val left right limit =
    rw
      (
        merge-interleave C (map key left) (map key right) limit,
        merge-interleave (by_key key C) left right limit,
        interleave-map C key left right,
      )
      (
        elems_of-map_rows key limit (interleave (by_key key C) left right),
        ap (λ ops. keep_loop ops (map val left) (map val right) [])
              (ops_of-map_rows key limit (interleave (by_key key C) left right))
            ∙ replay (by_key key C) val limit left right [],
      )
