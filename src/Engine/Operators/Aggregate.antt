-- ===== src/Engine/Operators/Aggregate.antt =====
-- src/engine/operators/aggregate.rs: aggregating a column into one accumulator for each group. The
-- aggregators on f64 are left out. In a release build, `+` on i64 and on u32 wraps.
pub mod Groups
pub mod Sums
pub mod Nulls
use locust_db.Prelude.{
  ℕ, ◌+◌, ◌-◌, ◌%◌, ◌^◌, Bool, true, false, ◌||◌, not, Option, none, some, List, [], ◌∷◌, ◌++◌,
  length, set, get_elem?, replicate, ltb, if◌then◌else◌,
}
use locust_db.Prelude.Int.{ℤ, pos, negsuc, ◌+ℤ◌, ltb_ℤ, is_i64, wrap_i64}
use locust_db.Errors.{Result, ok, err, panic, overflow, ◌>>=◌}
use locust_db.Bitvec.{is_set}
use locust_db.MemStore.Integers.{as_u64}

pub record Aggregator {ℓ κ} (T : Type ℓ) (Acc : Type κ) : Type (ℓ ⊔ κ) where
  pub unit : Acc
  pub accumulate : Acc → T → Acc
  pub combine : Acc → Acc → Acc

-- The two checked functions return whether they overflowed.
pub record CheckedAggregator {ℓ κ} (T : Type ℓ) (Acc : Type κ) : Type (ℓ ⊔ κ) where
  pub plain : Aggregator T Acc
  pub accumulate_checked : Acc → T → Acc × Bool
  pub combine_checked : Acc → Acc → Acc × Bool

-- `overflowing_add`
unfoldable pub overflowing_add : ℤ → ℤ → ℤ × Bool
unfolding ◌+ℤ◌ wrap_i64
overflowing_add a b = (wrap_i64 (a +ℤ b), not (is_i64 (a +ℤ b)))

unfoldable pub sum_i64 : Aggregator ℤ ℤ
unfolding ◌+ℤ◌ wrap_i64
sum_i64 = record {
  unit = pos 0;
  accumulate = λ accumulator value. wrap_i64 (accumulator +ℤ value);
  combine = λ accumulator1 accumulator2. wrap_i64 (accumulator1 +ℤ accumulator2);
}

unfoldable pub checked_sum_i64 : CheckedAggregator ℤ ℤ
unfolding sum_i64 overflowing_add
checked_sum_i64 = record {
  plain = sum_i64;
  accumulate_checked = overflowing_add;
  combine_checked = overflowing_add;
}

unfoldable pub count {ℓ} : {V : Type ℓ} → Aggregator V ℕ
count = record {
  unit = 0;
  accumulate = λ accumulator _. (accumulator + 1) % 2 ^ 32;
  combine = λ accumulator1 accumulator2. (accumulator1 + accumulator2) % 2 ^ 32;
}

-- `std::cmp::max` and `std::cmp::min`
abbrev pub max_ℤ : ℤ → ℤ → ℤ
max_ℤ a b = if ltb_ℤ b a then a else b

abbrev pub min_ℤ : ℤ → ℤ → ℤ
min_ℤ a b = if ltb_ℤ b a then b else a

unfoldable pub max_i64 : Aggregator ℤ ℤ
max_i64 = record { unit = negsuc (2 ^ 63 - 1); accumulate = max_ℤ; combine = max_ℤ }

unfoldable pub min_i64 : Aggregator ℤ ℤ
min_i64 = record { unit = pos (2 ^ 63 - 1); accumulate = min_ℤ; combine = min_ℤ }

-- `if len > accumulators.len() { accumulators.resize(len, A::unit()); }`
unfoldable pub resize {ℓ} : {Acc : Type ℓ} → Acc → (max_index : ℤ) → List Acc → List Acc
resize unit max_index accumulators =
    let len = (as_u64 max_index + 1) % 2 ^ 64 in
    if ltb (length accumulators) len
    then accumulators ++ replicate (len - length accumulators) unit
    else accumulators

module _ {ℓ κ} {T : Type ℓ} {Acc : Type κ} (a : Aggregator T Acc) where
  -- The loop over the rows, zipped.
  unfoldable pub aggregate : (grouping : List ℕ) (nums : List T) → List Acc → Result (List Acc)
  aggregate [] nums accumulators = ok accumulators
  aggregate (i ∷ grouping) [] accumulators = ok accumulators
  aggregate (i ∷ grouping) (n ∷ nums) accumulators = elim (get_elem? accumulators i) [
    | none ↦ panic
    | some acc ↦ aggregate grouping nums (set accumulators i (a.accumulate acc n))
  ]

  -- `Aggregate::execute`
  unfoldable pub execute :
      (max_index : ℤ) (grouping : List ℕ) (nums : List T) → List Acc → Result (List Acc)
  unfolding aggregate resize
  execute max_index grouping nums accumulators =
      aggregate grouping nums (resize a.unit max_index accumulators)

  -- The loop of `AggregateNullable` from row `i`, with what is left of the vectors there.
  unfoldable pub aggregate_nullable :
      (present : List ℕ) (i : ℕ) (grouping : List ℕ) (nums : List T) → List Acc → Result (List Acc)
  unfolding is_set
  aggregate_nullable present i grouping [] accumulators = ok accumulators
  aggregate_nullable present i [] (n ∷ nums) accumulators =
      let rest = aggregate_nullable present (i + 1) [] nums accumulators in
      if is_set present i then panic else rest
  aggregate_nullable present i (g ∷ grouping) (n ∷ nums) accumulators =
      let skipped = aggregate_nullable present (i + 1) grouping nums accumulators in
      let taken : Result (List Acc) = elim (get_elem? accumulators g) [
        | none ↦ panic
        | some acc ↦
            aggregate_nullable present (i + 1) grouping nums
              (set accumulators g (a.accumulate acc n))
      ] in
      if is_set present i then taken else skipped

  -- `AggregateNullable::execute`
  unfoldable pub execute_nullable :
      (max_index : ℤ) (grouping : List ℕ) (nums : List T) (present : List ℕ)
      → List Acc
      → Result (List Acc)
  unfolding aggregate_nullable resize
  execute_nullable max_index grouping nums present accumulators =
      aggregate_nullable present 0 grouping nums (resize a.unit max_index accumulators)

-- `if any_overflow { Err(QueryError::Overflow) } else { Ok(()) }`
abbrev pub finish {ℓ} : {A : Type ℓ} → A × Bool → Result A
finish (a, any_overflow) = if any_overflow then err overflow else ok a

module _ {ℓ κ} {T : Type ℓ} {Acc : Type κ} (a : CheckedAggregator T Acc) where
  unfoldable pub aggregate_checked :
      (grouping : List ℕ) (nums : List T)
      → List Acc
      → (any_overflow : Bool) → Result (List Acc × Bool)
  aggregate_checked [] nums accumulators any_overflow = ok (accumulators, any_overflow)
  aggregate_checked (i ∷ grouping) [] accumulators any_overflow = ok (accumulators, any_overflow)
  aggregate_checked (i ∷ grouping) (n ∷ nums) accumulators any_overflow =
      elim (get_elem? accumulators i) [
        | none ↦ panic
        | some acc ↦
            let (result, overflowed) = a.accumulate_checked acc n in
            aggregate_checked grouping nums (set accumulators i result) (any_overflow || overflowed)
      ]

  -- `CheckedAggregate::execute`
  unfoldable pub execute_checked :
      (max_index : ℤ) (grouping : List ℕ) (nums : List T) → List Acc → Result (List Acc)
  unfolding aggregate_checked resize
  execute_checked max_index grouping nums accumulators =
      aggregate_checked grouping nums (resize a.plain.unit max_index accumulators) false >>= finish

  unfoldable pub aggregate_checked_nullable :
      (present : List ℕ) (i : ℕ) (grouping : List ℕ) (nums : List T)
      → List Acc
      → (any_overflow : Bool) → Result (List Acc × Bool)
  unfolding is_set
  aggregate_checked_nullable present i grouping [] accumulators any_overflow =
      ok (accumulators, any_overflow)
  aggregate_checked_nullable present i [] (n ∷ nums) accumulators any_overflow =
      let rest = aggregate_checked_nullable present (i + 1) [] nums accumulators any_overflow in
      if is_set present i then panic else rest
  aggregate_checked_nullable present i (g ∷ grouping) (n ∷ nums) accumulators any_overflow =
      let skipped =
        aggregate_checked_nullable present (i + 1) grouping nums accumulators any_overflow in
      let taken : Result (List Acc × Bool) = elim (get_elem? accumulators g) [
        | none ↦ panic
        | some acc ↦
            let (result, overflowed) = a.accumulate_checked acc n in
            aggregate_checked_nullable present (i + 1) grouping nums (set accumulators g result)
              (any_overflow || overflowed)
      ] in
      if is_set present i then taken else skipped

  -- `CheckedAggregateNullable::execute`
  unfoldable pub execute_checked_nullable :
      (max_index : ℤ) (grouping : List ℕ) (nums : List T) (present : List ℕ)
      → List Acc
      → Result (List Acc)
  unfolding aggregate_checked_nullable resize
  execute_checked_nullable max_index grouping nums present accumulators =
      aggregate_checked_nullable present 0 grouping nums
        (resize a.plain.unit max_index accumulators) false
      >>= finish
