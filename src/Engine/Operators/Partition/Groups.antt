-- ===== src/Engine/Operators/Partition/Groups.antt =====
-- What the groups that `partition` cuts hold.
use locust_db.Prelude.{
  ◌∙◌, ℕ, zero, suc, ◌+◌, ◌-◌, ◌%◌, ◌^◌, ◌≤◌, ◌<◌, max, min, ◌≡◌, refl, sym, Bool, true, false, inl,
  inr, Bool-cases, List, [], ◌∷◌, length, length-drop, take, drop, All, ltb, Ord, if◌then◌else◌,
  arith,
}
use native.Mathlib.Nat.{mod-eq_of_lt}
use locust_db.Engine.Operators.Comparator.{Comparator}
use locust_db.Engine.Operators.Partition.{
  Premerge, take_equal, remaining, partition_loop, partition,
}

module _ {ℓ} {T : Type ℓ} where
  -- The element that the next group is of: of the two heads, the one that the comparator takes; there
  -- is none of two empty columns.
  abbrev pub IsNext : (cmp_eq : T → T → Bool) → T → (l r : List T) → Type ℓ
  IsNext cmp_eq elem [] [] = elem ≡ elem → ⊥
  IsNext cmp_eq elem [] (y ∷ r) = elem ≡ y
  IsNext cmp_eq elem (x ∷ l) [] = elem ≡ x
  IsNext cmp_eq elem (x ∷ l) (y ∷ r) = elem ≡ (if cmp_eq x y then x else y)

  -- The column does not go on with this element.
  abbrev pub EndsBefore : T → List T → Type ℓ
  EndsBefore elem [] = Unit
  EndsBefore elem (x ∷ xs) = x ≡ elem → ⊥

  -- The first `n` elements are the whole run of elements equal to this one.
  abbrev pub IsRun : T → ℕ → List T → Type ℓ
  IsRun elem n xs = (n ≤ length xs) × All (λ x. x ≡ elem) (take n xs) × EndsBefore elem (drop n xs)

  -- Each group takes the run of the next element from the front of both columns.
  abbrev pub AreGroups : (cmp_eq : T → T → Bool) → List Premerge → (l r : List T) → Type ℓ
  AreGroups cmp_eq [] l r = Unit
  AreGroups cmp_eq (group ∷ groups) l r =
      ((elem : T) × IsNext cmp_eq elem l r × IsRun elem group.left l × IsRun elem group.right r)
      × AreGroups cmp_eq groups (drop group.left l) (drop group.right r)

abbrev pub lefts : List Premerge → ℕ
lefts [] = 0
lefts (group ∷ groups) = group.left + lefts groups

abbrev pub rights : List Premerge → ℕ
rights [] = 0
rights (group ∷ groups) = group.right + rights groups

contradiction : true ≡ false → ⊥
contradiction e = cc

module _ {ℓ} {T : Type ℓ} ⦃o : Ord T⦄ where
  take_equal_lem :
      (elem : T) (xs : List T)
      → ((take_equal elem xs).1 ≡ drop (take_equal elem xs).0 xs)
        × IsRun elem (take_equal elem xs).0 xs
  unfolding take_equal
  take_equal_lem elem [] = (refl, (omega arith, tt, tt))
  take_equal_lem elem (x ∷ xs) = elim (Bool-cases (o.eq elem x)) [
    | inl e ↦
        let (rest, run) = take_equal_lem elem xs in
        let (bound, same, ends) = run in
        rw (e, take_equal) (rest, (omega arith, (sym ((o.eq_iff elem x).0 e), same), ends))
    | inr e ↦
        rw (e, take_equal)
          (refl, (omega arith, tt, λ k. contradiction (sym ((o.eq_iff elem x).1 (sym k)) ∙ e)))
  ]

  -- The element that is looked for is at the front.
  take_equal_front : (x : T) (xs : List T) → 0 < (take_equal x (x ∷ xs)).0
  unfolding take_equal
  take_equal_front x xs = ground (arith, (o.eq_iff x x).1 refl)

  -- The groups are the runs, and if there is room for all elements they cover the columns.
  abbrev Cuts :
      (cmp_eq : T → T → Bool) → List Premerge → (l r : List T) → (limit min_elems : ℕ) → Type ℓ
  Cuts cmp_eq groups l r limit min_elems =
      AreGroups cmp_eq groups l r
      × (min_elems + length l + length r ≤ limit
          → (lefts groups ≡ length l) × (rights groups ≡ length r))

  cut_group :
      (cmp_eq : T → T → Bool) (group : Premerge) (groups : List Premerge) (l r : List T)
      (limit m next : ℕ) (elem : T)
      → IsNext cmp_eq elem l r
      → IsRun elem group.left l
      → IsRun elem group.right r
      → next ≤ m + group.left + group.right
      → Cuts cmp_eq groups (drop group.left l) (drop group.right r) limit next
      → Cuts cmp_eq (group ∷ groups) l r limit m
  cut_group cmp_eq group groups l r limit m next elem head hl hr step (later, covers) = (
    ((elem, head, hl, hr), later),
    λ room.
        let low = hl.0 in
        let low' = hr.0 in
        let (a, b) = covers (omega (arith, length-drop group.left l, length-drop group.right r)) in
        (omega (arith, length-drop group.left l), omega (arith, length-drop group.right r)),
  )

  remaining_left :
      (cmp_eq : T → T → Bool) (fuel : ℕ) (l : List T) (limit m : ℕ)
      → length l ≤ fuel
      → length l < 2 ^ 32
      → Cuts cmp_eq (remaining fuel (λ n. record { left = n; right = 0 }) l limit m) l [] limit m
  unfolding remaining
  remaining_left cmp_eq zero [] limit m f small = (tt, λ _. (refl, refl))
  remaining_left cmp_eq zero (x ∷ l) limit m f small = absurd (omega arith)
  remaining_left cmp_eq (suc fuel) [] limit m f small = (tt, λ _. (refl, refl))
  remaining_left cmp_eq (suc fuel) (x ∷ l) limit m f small = elim (Bool-cases (ltb m limit)) [
    | inr full ↦ rw (full, remaining) (tt, λ room. absurd (ground arith))
    | inl room ↦
        let n = (take_equal x (x ∷ l)).0 in
        let (rest, run) = take_equal_lem x (x ∷ l) in
        let bound = run.0 in
        let front = take_equal_front x l in
        let shorter = length-drop n (x ∷ l) in
        rw (room, mod-eq_of_lt {n = n} {m = 2 ^ 32} (omega arith), rest, remaining)
          (cut_group cmp_eq (record { left = n; right = 0 }) _ (x ∷ l) [] limit m ((m + n) % 2 ^ 32)
            x refl run (omega arith, tt, tt) (omega arith)
            (remaining_left cmp_eq fuel (drop n (x ∷ l)) limit ((m + n) % 2 ^ 32) (omega arith)
              (omega arith)))
  ]

  remaining_right :
      (cmp_eq : T → T → Bool) (fuel : ℕ) (r : List T) (limit m : ℕ)
      → length r ≤ fuel
      → length r < 2 ^ 32
      → Cuts cmp_eq (remaining fuel (λ n. record { left = 0; right = n }) r limit m) [] r limit m
  unfolding remaining
  remaining_right cmp_eq zero [] limit m f small = (tt, λ _. (refl, refl))
  remaining_right cmp_eq zero (y ∷ r) limit m f small = absurd (omega arith)
  remaining_right cmp_eq (suc fuel) [] limit m f small = (tt, λ _. (refl, refl))
  remaining_right cmp_eq (suc fuel) (y ∷ r) limit m f small = elim (Bool-cases (ltb m limit)) [
    | inr full ↦ rw (full, remaining) (tt, λ room. absurd (ground arith))
    | inl room ↦
        let n = (take_equal y (y ∷ r)).0 in
        let (rest, run) = take_equal_lem y (y ∷ r) in
        let bound = run.0 in
        let front = take_equal_front y r in
        let shorter = length-drop n (y ∷ r) in
        rw (room, mod-eq_of_lt {n = n} {m = 2 ^ 32} (omega arith), rest, remaining)
          (cut_group cmp_eq (record { left = 0; right = n }) _ [] (y ∷ r) limit m ((m + n) % 2 ^ 32)
            y refl (omega arith, tt, tt) run (omega arith)
            (remaining_right cmp_eq fuel (drop n (y ∷ r)) limit ((m + n) % 2 ^ 32) (omega arith)
              (omega arith)))
  ]

module _ {ℓ} {T : Type ℓ} ⦃o : Ord T⦄ (C : Comparator T) where
  -- One of the two heads is the element of the next group.
  some_taken :
      (x y : T) (l r : List T) (first : Bool)
      → 0
        < (take_equal (if first then x else y) (x ∷ l)).0
          + (take_equal (if first then x else y) (y ∷ r)).0
  some_taken x y l r true = let front = take_equal_front x l in omega arith
  some_taken x y l r false = let front = take_equal_front y r in omega arith

  partition_loop-Cuts :
      (fuel : ℕ) (l r : List T) (limit m : ℕ)
      → length l + length r ≤ fuel
      → length l + length r < 2 ^ 32
      → Cuts C.cmp_eq (partition_loop C fuel l r limit m) l r limit m
  unfolding partition_loop
  partition_loop-Cuts zero [] [] limit m f small = (tt, λ _. (refl, refl))
  partition_loop-Cuts zero [] (y ∷ r) limit m f small = absurd (omega arith)
  partition_loop-Cuts zero (x ∷ l) r limit m f small = absurd (omega arith)
  partition_loop-Cuts (suc fuel) [] r limit m f small =
      remaining_right C.cmp_eq (suc fuel) r limit m (omega arith) (omega arith)
  partition_loop-Cuts (suc fuel) (x ∷ l) [] limit m f small =
      remaining_left C.cmp_eq (suc fuel) (x ∷ l) limit m (omega arith) (omega arith)
  partition_loop-Cuts (suc fuel) (x ∷ l) (y ∷ r) limit m f small = elim (Bool-cases (ltb m limit)) [
    | inr full ↦ rw (full, partition_loop) (tt, λ room. absurd (ground arith))
    | inl room ↦
        let elem = if C.cmp_eq x y then x else y in
        let a = (take_equal elem (x ∷ l)).0 in
        let b = (take_equal elem (y ∷ r)).0 in
        let (rest_l, run_l) = take_equal_lem elem (x ∷ l) in
        let (rest_r, run_r) = take_equal_lem elem (y ∷ r) in
        let bound_l = run_l.0 in
        let bound_r = run_r.0 in
        let front = some_taken x y l r (C.cmp_eq x y) in
        let shorter_l = length-drop a (x ∷ l) in
        let shorter_r = length-drop b (y ∷ r) in
        let next = (m + max a b) % 2 ^ 32 in
        rw
          (
            room,
            mod-eq_of_lt {n = a} {m = 2 ^ 32} (omega arith),
            mod-eq_of_lt {n = b} {m = 2 ^ 32} (omega arith),
            rest_l,
            rest_r,
            partition_loop,
          )
          (cut_group C.cmp_eq (record { left = a; right = b }) _ (x ∷ l) (y ∷ r) limit m next elem
            refl run_l run_r (omega arith)
            (partition_loop-Cuts fuel (drop a (x ∷ l)) (drop b (y ∷ r)) limit next (omega arith)
              (omega arith)))
  ]

  -- Of two columns with less than 2^32 elements together: each group that `partition` returns is the
  -- whole run, on both sides, of elements equal to the head that the comparator takes first, or to the
  -- head that is left, and the next group follows behind it; and if the limit is at least the number
  -- of all elements the groups cover both columns.
  pub partition-AreGroups :
      (left right : List T) (limit : ℕ)
      → length left + length right < 2 ^ 32
      → AreGroups C.cmp_eq (partition C left right limit) left right
        × (length left + length right ≤ limit
            → (lefts (partition C left right limit) ≡ length left)
              × (rights (partition C left right limit) ≡ length right))
  unfolding partition
  partition-AreGroups left right limit small =
      let (groups, covers) =
        partition_loop-Cuts (length left + length right) left right (min limit (2 ^ 32 - 1)) 0
          (omega arith) small in
      (groups, λ room. covers (omega arith))
