-- ===== src/Prelude/Arrays.antt =====
-- Vectors that are read and written at indices in range, with what they hold counted by a test.
use Prim.Native.Nat.{ℕ, zero, suc, ◌+◌, ◌<◌}
use mathlib.Core.Path.{◌≡◌, refl, ap, ap₂, sym, ◌∙◌}
use mathlib.Core.Bool.{Bool, false}
use mathlib.Core.List.{List, [], ◌∷◌, ◌++◌, map}
use native.Mathlib.Omega.{arith}
use locust_db.Prelude.Tests.{if◌then◌else◌, ◌==◌}
use locust_db.Prelude.Lists.{length, set}

abbrev pub one : Bool → ℕ
one b = if b then 1 else 0

module _ {ℓ} {A : Type ℓ} where
  -- `xs[i]`, for an index in range
  abbrev pub get_or : List A → ℕ → A → A
  get_or [] i d = d
  get_or (x ∷ xs) zero d = x
  get_or (x ∷ xs) (suc i) d = get_or xs i d

  pub get_or-set :
      (xs : List A) (i j : ℕ) (v d : A)
      → i < length xs
      → get_or (set xs i v) j d ≡ (if i == j then v else get_or xs j d)
  get_or-set [] i j v d h = absurd (omega arith)
  get_or-set (x ∷ xs) zero zero v d h = refl
  get_or-set (x ∷ xs) zero (suc j) v d h = ground arith
  get_or-set (x ∷ xs) (suc i) zero v d h = ground arith
  get_or-set (x ∷ xs) (suc i) (suc j) v d h = get_or-set xs i j v d (omega arith) ∙ ground arith

  pub get_or-cong : (xs : List A) (i : ℕ) (d e : A) → i < length xs → get_or xs i d ≡ get_or xs i e
  get_or-cong [] i d e h = absurd (omega arith)
  get_or-cong (x ∷ xs) zero d e h = refl
  get_or-cong (x ∷ xs) (suc i) d e h = get_or-cong xs i d e (omega arith)

  -- The sum of the weights.
  abbrev pub sum : (A → ℕ) → List A → ℕ
  sum w [] = 0
  sum w (x ∷ xs) = w x + sum w xs

  -- How many elements pass the test.
  abbrev pub count : (A → Bool) → List A → ℕ
  count p [] = 0
  count p (x ∷ xs) = (if p x then 1 else 0) + count p xs

  pub count-append : (p : A → Bool) (xs ys : List A) → count p (xs ++ ys) ≡ count p xs + count p ys
  count-append p [] ys = omega arith
  count-append p (x ∷ xs) ys = omega (arith, count-append p xs ys)

  pub count-set :
      (p : A → Bool) (xs : List A) (i : ℕ) (v d : A)
      → i < length xs
      → count p (set xs i v) + (if p (get_or xs i d) then 1 else 0)
        ≡ count p xs + (if p v then 1 else 0)
  count-set p [] i v d h = absurd (omega arith)
  count-set p (x ∷ xs) zero v d h = omega arith
  count-set p (x ∷ xs) (suc i) v d h = omega (arith, count-set p xs i v d)

-- `n, n + 1, ...`, `k` numbers
abbrev pub range_from : (n k : ℕ) → List ℕ
range_from n zero = []
range_from n (suc k) = n ∷ range_from (n + 1) k

module _ {ℓ κ} {A : Type ℓ} {B : Type κ} where
  abbrev pub zip : List A → List B → List (A × B)
  zip [] ys = []
  zip (x ∷ xs) [] = []
  zip (x ∷ xs) (y ∷ ys) = (x, y) ∷ zip xs ys

  pub zip-set :
      (xs : List A) (ys : List B) (i : ℕ) (x : A) (y : B)
      → zip (set xs i x) (set ys i y) ≡ set (zip xs ys) i (x, y)
  zip-set [] ys i x y = refl
  zip-set (a ∷ xs) [] zero x y = refl
  zip-set (a ∷ xs) [] (suc i) x y = refl
  zip-set (a ∷ xs) (b ∷ ys) zero x y = refl
  zip-set (a ∷ xs) (b ∷ ys) (suc i) x y = ap (◌∷◌ (a, b)) (zip-set xs ys i x y)

  pub get_or-zip :
      (xs : List A) (ys : List B) (i : ℕ) (d : A) (e : B)
      → i < length xs
      → i < length ys
      → get_or (zip xs ys) i (d, e) ≡ (get_or xs i d, get_or ys i e)
  get_or-zip [] ys i d e h k = absurd (omega arith)
  get_or-zip (a ∷ xs) [] i d e h k = absurd (omega arith)
  get_or-zip (a ∷ xs) (b ∷ ys) zero d e h k = refl
  get_or-zip (a ∷ xs) (b ∷ ys) (suc i) d e h k = get_or-zip xs ys i d e (omega arith) (omega arith)

  pub length-zip :
      (xs : List A) (ys : List B) → length xs ≡ length ys → length (zip xs ys) ≡ length xs
  length-zip [] ys h = refl
  length-zip (a ∷ xs) [] h = sym h
  length-zip (a ∷ xs) (b ∷ ys) h = ap suc (length-zip xs ys (omega arith))

  pub count-zip_append :
      (p : A × B → Bool) (xs xs' : List A) (ys ys' : List B)
      → length xs ≡ length ys
      → count p (zip (xs ++ xs') (ys ++ ys')) ≡ count p (zip xs ys) + count p (zip xs' ys')
  count-zip_append p [] xs' [] ys' h = omega arith
  count-zip_append p [] xs' (y ∷ ys) ys' h = absurd (omega arith)
  count-zip_append p (x ∷ xs) xs' [] ys' h = absurd (omega arith)
  count-zip_append p (x ∷ xs) xs' (y ∷ ys) ys' h =
      omega (arith, count-zip_append p xs xs' ys ys' (omega arith))

  pub count-map :
      (p : B → Bool) (f : A → B) (xs : List A) → count p (map f xs) ≡ count (λ x. p (f x)) xs
  count-map p f [] = refl
  count-map p f (x ∷ xs) = omega (arith, count-map p f xs)

  pub zip-map_self : (f : B → A) (ys : List B) → zip (map f ys) ys ≡ map (λ y. (f y, y)) ys
  zip-map_self f [] = refl
  zip-map_self f (y ∷ ys) = ap (◌∷◌ (f y, y)) (zip-map_self f ys)

module _ {ℓ} {A : Type ℓ} where
  pub count_zero_imp :
      (p q : A → Bool) (xs : List A)
      → ((x : A) → p x ≡ false → q x ≡ false)
      → count p xs ≡ 0
      → count q xs ≡ 0
  count_zero_imp p q [] f h = refl
  count_zero_imp p q (x ∷ xs) f h = ground (arith, f x, count_zero_imp p q xs f (omega arith))

  -- The elements, read one by one from `n` on.
  read_from :
      (n : ℕ) (xs ys : List A) (d : A)
      → ((i : ℕ) → i < length ys → get_or xs (n + i) d ≡ get_or ys i d)
      → map (λ i. get_or xs i d) (range_from n (length ys)) ≡ ys
  read_from n xs [] d h = refl
  read_from n xs (y ∷ ys) d h =
      let first = h 0 (omega arith) in
      let at_n : n + 0 ≡ n = omega arith in
      ap₂ ◌∷◌ (rw at_n at first) (
        read_from (n + 1) xs ys d
          (λ i k. let e : n + 1 + i ≡ n + suc i = omega arith in rw e (h (suc i) (omega arith))))

  pub read_all : (xs : List A) (d : A) → map (λ i. get_or xs i d) (range_from 0 (length xs)) ≡ xs
  read_all xs d = read_from 0 xs xs d (λ i h. let e : 0 + i ≡ i = omega arith in rw e refl)

pub length-range_from : (n k : ℕ) → length (range_from n k) ≡ k
length-range_from n zero = refl
length-range_from n (suc k) = ap suc (length-range_from (n + 1) k)

pub range_from-append : (n j k : ℕ) → range_from n j ++ range_from (n + j) k ≡ range_from n (j + k)
range_from-append n zero k =
    let e : n + 0 ≡ n = omega arith in let e' : 0 + k ≡ k = omega arith in rw (e, e') refl
range_from-append n (suc j) k =
    let e : n + suc j ≡ n + 1 + j = omega arith in
    let e' : suc j + k ≡ suc (j + k) = omega arith in
    rw (e, e') (ap (◌∷◌ n) (range_from-append (n + 1) j k))
