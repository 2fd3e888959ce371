-- ===== src/Prelude/Sort.antt =====
-- The standard library's sort, by a test of which element comes before which: equal elements keep
-- their order, one of the results that an unstable sort may have.
use Prim.Native.Nat.{ℕ, zero, suc, ◌+◌, ◌<◌}
use mathlib.Core.Path.{◌≡◌, refl, ap, ◌∙◌}
use mathlib.Core.Bool.{Bool, true, false}
use mathlib.Core.Logic.{inl, inr}
use mathlib.Core.List.{List, [], ◌∷◌, map}
use native.Mathlib.Omega.{arith}
use locust_db.Prelude.Tests.{if◌then◌else◌, Bool-cases}
use locust_db.Prelude.Lists.{All, length}
use locust_db.Prelude.Arrays.{count, sum, get_or}

module _ {ℓ} {A : Type ℓ} (before : A → A → Bool) where
  unfoldable pub insert : A → List A → List A
  insert x [] = x ∷ []
  insert x (y ∷ ys) = let rest = insert x ys in if before y x then y ∷ rest else x ∷ y ∷ ys

  unfoldable pub sort_by : List A → List A
  unfolding insert
  sort_by [] = []
  sort_by (x ∷ xs) = insert x (sort_by xs)

  count-insert :
      (p : A → Bool) (x : A) (ys : List A)
      → count p (insert x ys) ≡ (if p x then 1 else 0) + count p ys
  unfolding insert
  count-insert p x [] = refl
  count-insert p x (y ∷ ys) = elim (Bool-cases (before y x)) [
    | inl e ↦ rw e (omega (arith, count-insert p x ys))
    | inr e ↦ rw e refl
  ]

  pub count-sort_by : (p : A → Bool) (xs : List A) → count p (sort_by xs) ≡ count p xs
  unfolding sort_by
  count-sort_by p [] = refl
  count-sort_by p (x ∷ xs) = omega (arith, count-insert p x (sort_by xs), count-sort_by p xs)

  length-insert : (x : A) (ys : List A) → length (insert x ys) ≡ 1 + length ys
  unfolding insert
  length-insert x [] = omega arith
  length-insert x (y ∷ ys) = elim (Bool-cases (before y x)) [
    | inl e ↦ rw e (omega (arith, length-insert x ys))
    | inr e ↦ rw e (omega arith)
  ]

  pub length-sort_by : (xs : List A) → length (sort_by xs) ≡ length xs
  unfolding sort_by
  length-sort_by [] = refl
  length-sort_by (x ∷ xs) = omega (arith, length-insert x (sort_by xs), length-sort_by xs)

  sum-insert : (w : A → ℕ) (x : A) (ys : List A) → sum w (insert x ys) ≡ w x + sum w ys
  unfolding insert
  sum-insert w x [] = refl
  sum-insert w x (y ∷ ys) = elim (Bool-cases (before y x)) [
    | inl e ↦ rw e (omega (arith, sum-insert w x ys))
    | inr e ↦ rw e refl
  ]

  pub sum-sort_by : (w : A → ℕ) (xs : List A) → sum w (sort_by xs) ≡ sum w xs
  unfolding sort_by
  sum-sort_by w [] = refl
  sum-sort_by w (x ∷ xs) = omega (arith, sum-insert w x (sort_by xs), sum-sort_by w xs)

  -- No element comes before an earlier one.
  abbrev pub IsOrdered : List A → Type 0
  IsOrdered [] = Unit
  IsOrdered (x ∷ xs) = All (λ y. before y x ≡ false) xs × IsOrdered xs

  All-get :
      (x : A) (xs : List A) (j : ℕ) (d : A)
      → All (λ y. before y x ≡ false) xs
      → j < length xs
      → before (get_or xs j d) x ≡ false
  All-get x [] j d h q = absurd (omega arith)
  All-get x (y ∷ xs) zero d h q = h.0
  All-get x (y ∷ xs) (suc j) d h q = All-get x xs j d h.1 (omega arith)

  -- What `sort_by` needs of the test.
  pub record IsWeak : Type ℓ where
    pub asym : (a b : A) → before a b ≡ true → before b a ≡ false
    pub not_trans : (a b c : A) → before b a ≡ false → before c b ≡ false → before c a ≡ false

  module _ (law : IsWeak) where
    insert-All :
        (z x : A) (ys : List A)
        → before x z ≡ false
        → All (λ y. before y z ≡ false) ys
        → All (λ y. before y z ≡ false) (insert x ys)
    unfolding insert
    insert-All z x [] h k = (h, tt)
    insert-All z x (y ∷ ys) h k = elim (Bool-cases (before y x)) [
      | inl e ↦ rw e (k.0, insert-All z x ys h k.1)
      | inr e ↦ rw e (h, k)
    ]

    All-trans :
        (x y : A) (ys : List A)
        → before y x ≡ false
        → All (λ z. before z y ≡ false) ys
        → All (λ z. before z x ≡ false) ys
    All-trans x y [] h k = tt
    All-trans x y (z ∷ ys) h k = (law.not_trans x y z h k.0, All-trans x y ys h k.1)

    insert-IsOrdered : (x : A) (ys : List A) → IsOrdered ys → IsOrdered (insert x ys)
    unfolding insert
    insert-IsOrdered x [] h = (tt, tt)
    insert-IsOrdered x (y ∷ ys) h = elim (Bool-cases (before y x)) [
      | inl e ↦ rw e (insert-All y x ys (law.asym y x e) h.0, insert-IsOrdered x ys h.1)
      | inr e ↦ rw e ((e, All-trans x y ys e h.0), h)
    ]

    -- Of two indices, the element at the later one does not come before.
    pub IsOrdered-get :
        (xs : List A) (i j : ℕ) (d : A)
        → IsOrdered xs
        → i < j
        → j < length xs
        → before (get_or xs j d) (get_or xs i d) ≡ false
    IsOrdered-get [] i j d h p q = absurd (omega arith)
    IsOrdered-get (x ∷ xs) i zero d h p q = absurd (omega arith)
    IsOrdered-get (x ∷ xs) zero (suc j) d h p q = All-get x xs j d h.0 (omega arith)
    IsOrdered-get (x ∷ xs) (suc i) (suc j) d h p q =
        IsOrdered-get xs i j d h.1 (omega arith) (omega arith)

    pub sort_by-IsOrdered : (xs : List A) → IsOrdered (sort_by xs)
    unfolding sort_by
    sort_by-IsOrdered [] = tt
    sort_by-IsOrdered (x ∷ xs) = insert-IsOrdered x (sort_by xs) (sort_by-IsOrdered xs)

module _ {ℓ κ} {A : Type ℓ} (before : A → A → Bool) where
  insert-All_each :
      (P : A → Type κ) (x : A) (ys : List A) → P x → All P ys → All P (insert before x ys)
  unfolding insert
  insert-All_each P x [] h k = (h, tt)
  insert-All_each P x (y ∷ ys) h k = elim (Bool-cases (before y x)) [
    | inl e ↦ rw e (k.0, insert-All_each P x ys h k.1)
    | inr e ↦ rw e (h, k)
  ]

  pub sort_by-All : (P : A → Type κ) (xs : List A) → All P xs → All P (sort_by before xs)
  unfolding sort_by
  sort_by-All P [] h = tt
  sort_by-All P (x ∷ xs) h = insert-All_each P x (sort_by before xs) h.0 (sort_by-All P xs h.1)

-- Sorting keys, or what they are the keys of.
module _ {ℓ κ} {A : Type ℓ} {B : Type κ} (before : B → B → Bool) (key : A → B) where
  insert-map :
      (x : A) (ys : List A)
      → insert before (key x) (map key ys) ≡ map key (insert (λ i j. before (key i) (key j)) x ys)
  unfolding insert
  insert-map x [] = refl
  insert-map x (y ∷ ys) = elim (Bool-cases (before (key y) (key x))) [
    | inl e ↦ rw e (ap (◌∷◌ (key y)) (insert-map x ys))
    | inr e ↦ rw e refl
  ]

  pub sort_by-map :
      (xs : List A)
      → sort_by before (map key xs) ≡ map key (sort_by (λ i j. before (key i) (key j)) xs)
  unfolding sort_by
  sort_by-map [] = refl
  sort_by-map (x ∷ xs) =
      ap (insert before (key x)) (sort_by-map xs)
      ∙ insert-map x (sort_by (λ i j. before (key i) (key j)) xs)
