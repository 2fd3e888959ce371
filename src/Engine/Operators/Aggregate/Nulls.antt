-- ===== src/Engine/Operators/Aggregate/Nulls.antt =====
-- src/engine/operators/aggregate.rs: the operators on nullable columns, against the others.
use locust_db.Prelude.{
  ℕ, ◌+◌, ◌≡◌, refl, ap, Bool, false, ◌||◌, inl, inr, Bool-cases, Option-cases, List, [], ◌∷◌,
  length, set, get_elem?, if◌then◌else◌, arith,
}
use locust_db.Prelude.Int.{ℤ}
use locust_db.Errors.{◌>>=◌}
use locust_db.Bitvec.{is_set}
use locust_db.Engine.Operators.Aggregate.{
  Aggregator, CheckedAggregator, resize, aggregate, execute, aggregate_nullable, execute_nullable,
  aggregate_checked, execute_checked, aggregate_checked_nullable, execute_checked_nullable, finish,
}

-- The rows, numbered from `i`, that are not null.
abbrev pub present_rows {ℓ} : {A : Type ℓ} → List ℕ → ℕ → List A → List A
present_rows present i [] = []
present_rows present i (x ∷ xs) =
    if is_set present i
    then x ∷ present_rows present (i + 1) xs
    else present_rows present (i + 1) xs

module _ {ℓ κ} {T : Type ℓ} {Acc : Type κ} where
  aggregate_nullable_lem :
      (a : Aggregator T Acc) (present : List ℕ) (i : ℕ) (grouping : List ℕ) (nums : List T)
      (accs : List Acc)
      → length grouping ≡ length nums
      → aggregate_nullable a present i grouping nums accs
        ≡ aggregate a (present_rows present i grouping) (present_rows present i nums) accs
  unfolding aggregate_nullable aggregate
  aggregate_nullable_lem a present i [] [] accs h = refl
  aggregate_nullable_lem a present i [] (n ∷ nums) accs h = absurd (omega arith)
  aggregate_nullable_lem a present i (g ∷ grouping) [] accs h = absurd (omega arith)
  aggregate_nullable_lem a present i (g ∷ grouping) (n ∷ nums) accs h =
      elim (Bool-cases (is_set present i)) [
        | inr f ↦ rw f (aggregate_nullable_lem a present (i + 1) grouping nums accs (omega arith))
        | inl t ↦ rw t (elim (Option-cases (get_elem? accs g)) [
          | inl e ↦ rw (e, aggregate) refl
          | inr (acc, e) ↦
              rw (e, aggregate)
                (aggregate_nullable_lem a present (i + 1) grouping nums
                  (set accs g (a.accumulate acc n)) (omega arith))
        ])
      ]

  aggregate_checked_nullable_lem :
      (a : CheckedAggregator T Acc) (present : List ℕ) (i : ℕ) (grouping : List ℕ) (nums : List T)
      (accs : List Acc) (any_overflow : Bool)
      → length grouping ≡ length nums
      → aggregate_checked_nullable a present i grouping nums accs any_overflow
        ≡ aggregate_checked a
            (present_rows present i grouping)
            (present_rows present i nums)
            accs
            any_overflow
  unfolding aggregate_checked_nullable aggregate_checked
  aggregate_checked_nullable_lem a present i [] [] accs any_overflow h = refl
  aggregate_checked_nullable_lem a present i [] (n ∷ nums) accs any_overflow h =
      absurd (omega arith)
  aggregate_checked_nullable_lem a present i (g ∷ grouping) [] accs any_overflow h =
      absurd (omega arith)
  aggregate_checked_nullable_lem a present i (g ∷ grouping) (n ∷ nums) accs any_overflow h =
      elim (Bool-cases (is_set present i)) [
        | inr f ↦ rw f (
            aggregate_checked_nullable_lem a present (i + 1) grouping nums accs any_overflow
              (omega arith))
        | inl t ↦ rw t (elim (Option-cases (get_elem? accs g)) [
          | inl e ↦ rw (e, aggregate_checked) refl
          | inr (acc, e) ↦
              rw (e, aggregate_checked)
                (aggregate_checked_nullable_lem a present (i + 1) grouping nums
                  (set accs g (a.accumulate_checked acc n).0)
                  (any_overflow || (a.accumulate_checked acc n).1) (omega arith))
        ])
      ]

  -- On as many group indices as values, the operators on nullable columns, unchecked and checked,
  -- return what the others return on the rows that are not null, errors and panics included.
  pub execute_nullable-present_rows :
      (a : CheckedAggregator T Acc) (max_index : ℤ) (grouping : List ℕ) (nums : List T)
      (present : List ℕ) (accs : List Acc)
      → length grouping ≡ length nums
      → (execute_nullable a.plain max_index grouping nums present accs
          ≡ execute a.plain max_index
              (present_rows present 0 grouping)
              (present_rows present 0 nums)
              accs)
        × (execute_checked_nullable a max_index grouping nums present accs
            ≡ execute_checked a max_index
                (present_rows present 0 grouping)
                (present_rows present 0 nums)
                accs)
  unfolding execute_nullable execute execute_checked_nullable execute_checked
  execute_nullable-present_rows a max_index grouping nums present accs h =
      let resized = resize a.plain.unit max_index accs in
      (
        aggregate_nullable_lem a.plain present 0 grouping nums resized h,
        ap (λ r. r >>= finish)
            (aggregate_checked_nullable_lem a present 0 grouping nums resized false h),
      )
