-- ===== src/Engine/Operators/Comparator.antt =====
-- src/engine/operators/comparator.rs: the orders that sorting and merging go by, as an interface,
-- and its two implementations over any ordered element type.
use locust_db.Prelude.{
  ◌≡◌, inl, inr, Bool, true, false, not, List, [], ◌∷◌, All, Ord, Bool-cases, arith,
}

pub record Comparator {ℓ} (T : Type ℓ) : Type ℓ where
  pub cmp : T → T → Bool
  pub cmp_eq : T → T → Bool
  pub is_less_than : Bool

-- The element types that implement the trait.
pub data ElementType : Type 0 where
  u8 u16 u32 u64 i64 f64 str opt_str : ElementType

-- `is_less_than` of the implementations for `CmpLessThan`.
unfoldable pub less_than_flag : ElementType → Bool
less_than_flag u64 = false
less_than_flag f64 = false
less_than_flag _ = true

module _ {ℓ} {T : Type ℓ} ⦃o : Ord T⦄ where
  abbrev pub cmp_less_than : ElementType → Comparator T
  cmp_less_than t = record { cmp = o.lt; cmp_eq = o.le; is_less_than = less_than_flag t }

  abbrev pub cmp_greater_than : ElementType → Comparator T
  cmp_greater_than t = record {
    cmp = λ left right. o.lt right left;
    cmp_eq = λ left right. o.le right left;
    is_less_than = false;
  }

-- What clients need of a comparator: `cmp` is a strict total order, `cmp_eq` its reflexive closure.
pub record IsOrder {ℓ} {T : Type ℓ} (C : Comparator T) : Type ℓ where
  pub cmp_eq-not : (a b : T) → C.cmp_eq a b ≡ not (C.cmp b a)
  pub irrefl : (a : T) → C.cmp a a ≡ false
  pub trans : (a b c : T) → C.cmp a b ≡ true → C.cmp b c ≡ true → C.cmp a c ≡ true
  pub connected : (a b : T) → C.cmp a b ≡ false → C.cmp b a ≡ false → a ≡ b

module _ {ℓ} {T : Type ℓ} ⦃o : Ord T⦄ where
  pub less_than-IsOrder : (t : ElementType) → IsOrder {T = T} (cmp_less_than t)
  less_than-IsOrder t = record {
    cmp_eq-not = o.le-eq;
    irrefl = o.lt_irrefl;
    trans = o.lt_trans;
    connected = o.lt_connected;
  }

  pub greater_than-IsOrder : (t : ElementType) → IsOrder {T = T} (cmp_greater_than t)
  greater_than-IsOrder t = record {
    cmp_eq-not = λ a b. o.le-eq b a;
    irrefl = o.lt_irrefl;
    trans = λ a b c h k. o.lt_trans c b a k h;
    connected = λ a b h k. o.lt_connected a b k h;
  }

module _ {ℓ} {T : Type ℓ} (C : Comparator T) where
  abbrev pub Below : T → List T → Type 0
  Below a xs = All (λ x. C.cmp_eq a x ≡ true) xs

  abbrev pub IsSorted : List T → Type 0
  IsSorted [] = Unit
  IsSorted (x ∷ xs) = Below x xs × IsSorted xs

module _ {ℓ} {T : Type ℓ} (C : Comparator T) (law : IsOrder C) where
  pub cmp_eq_refl : (a : T) → C.cmp_eq a a ≡ true
  cmp_eq_refl a = ground (arith, law.cmp_eq-not a a, law.irrefl a)

  pub cmp_eq_of_cmp : (a b : T) → C.cmp a b ≡ true → C.cmp_eq a b ≡ true
  cmp_eq_of_cmp a b h = elim (Bool-cases (C.cmp b a)) [
    | inl k ↦ ground (arith, law.trans a b a h k, law.irrefl a)
    | inr k ↦ ground (arith, law.cmp_eq-not a b)
  ]

  pub cmp_eq_of_not_cmp : (a b : T) → C.cmp a b ≡ false → C.cmp_eq b a ≡ true
  cmp_eq_of_not_cmp a b h = ground (arith, law.cmp_eq-not b a)

  pub cmp_eq_trans : (a b c : T) → C.cmp_eq a b ≡ true → C.cmp_eq b c ≡ true → C.cmp_eq a c ≡ true
  cmp_eq_trans a b c h k = elim (Bool-cases (C.cmp c a)) [
    | inr e ↦ ground (arith, law.cmp_eq-not a c)
    | inl e ↦ elim (Bool-cases (C.cmp a b)) [
      | inl f ↦ ground (arith, law.trans c a b e f, law.cmp_eq-not b c)
      | inr f ↦ ground (arith, law.cmp_eq-not a b, law.cmp_eq-not b c, law.connected a b f)
    ]
  ]

  pub Below-trans : (a b : T) (xs : List T) → C.cmp_eq a b ≡ true → Below C b xs → Below C a xs
  Below-trans a b [] h k = tt
  Below-trans a b (x ∷ xs) h k = (cmp_eq_trans a b x h k.0, Below-trans a b xs h k.1)
