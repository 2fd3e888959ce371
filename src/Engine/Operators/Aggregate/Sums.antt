-- ===== src/Engine/Operators/Aggregate/Sums.antt =====
-- src/engine/operators/aggregate.rs: checked sums, against sums of unbounded integers.
use locust_db.Prelude.{
  ℕ, ◌<◌, ◌≡◌, refl, sym, ap, ap₂, ◌∙◌, Bool, true, false, ◌&&◌, ◌||◌, not, inl, inr, Bool-cases,
  some, List, [], ◌∷◌, length, length-set, set, get_elem?, All, All-imp, arith,
}
use locust_db.Prelude.Int.{ℤ, pos, ◌+ℤ◌, is_i64, IsI64, wrap_i64_self}
use locust_db.Prelude.Arrays.{get_or}
use locust_db.Errors.{ok, err, overflow, ◌>>=◌}
use locust_db.Engine.Operators.Aggregate.{
  Aggregator, CheckedAggregator, sum_i64, checked_sum_i64, overflowing_add, resize, aggregate,
  aggregate_checked, execute_checked, finish,
}
use locust_db.Engine.Operators.Aggregate.Groups.{
  Accumulates, aggregate-Accumulates, get_elem?-get_or,
}

-- Sums of integers without bounds.
abbrev pub exact_sum : Aggregator ℤ ℤ
exact_sum = record { unit = pos 0; accumulate = ◌+ℤ◌; combine = ◌+ℤ◌ }

-- Every sum of a group, after each row, is an i64.
pub stays_i64 : (grouping : List ℕ) (nums accs : List ℤ) → Bool
stays_i64 [] nums accs = true
stays_i64 (i ∷ grouping) [] accs = true
stays_i64 (i ∷ grouping) (n ∷ nums) accs =
    is_i64 (get_or accs i (pos 0) +ℤ n)
    && stays_i64 grouping nums (set accs i (get_or accs i (pos 0) +ℤ n))

false-true : false ≡ true → ⊥
false-true h = cc

is_i64-IsI64 : (a : ℤ) → is_i64 a ≡ true → IsI64 a
is_i64-IsI64 a h = record { below = ground arith; above = ground arith }

abbrev InRange : List ℕ → List ℤ → Type 0
InRange grouping accs = All (λ i. i < length accs) grouping

InRange-set :
    (grouping : List ℕ) (accs : List ℤ) (i : ℕ) (v : ℤ)
    → InRange grouping accs
    → InRange grouping (set accs i v)
InRange-set grouping accs i v h =
    All-imp _ _ grouping (λ j k. omega (arith, length-set accs i v, k)) h

aggregate_checked-cons :
    (a : CheckedAggregator ℤ ℤ) (i : ℕ) (grouping : List ℕ) (n : ℤ) (nums accs : List ℤ)
    (any_overflow : Bool) (acc : ℤ)
    → get_elem? accs i ≡ some acc
    → aggregate_checked a (i ∷ grouping) (n ∷ nums) accs any_overflow
      ≡ aggregate_checked a grouping nums
          (set accs i (a.accumulate_checked acc n).0)
          (any_overflow || (a.accumulate_checked acc n).1)
unfolding aggregate_checked
aggregate_checked-cons a i grouping n nums accs any_overflow acc h = rw (h, aggregate_checked) refl

checked-cons :
    (i : ℕ) (grouping : List ℕ) (n : ℤ) (nums accs : List ℤ) (any_overflow : Bool)
    → i < length accs
    → aggregate_checked checked_sum_i64 (i ∷ grouping) (n ∷ nums) accs any_overflow
      ≡ aggregate_checked checked_sum_i64 grouping nums
          (set accs i (overflowing_add (get_or accs i (pos 0)) n).0)
          (any_overflow || (overflowing_add (get_or accs i (pos 0)) n).1)
unfolding checked_sum_i64
checked-cons i grouping n nums accs any_overflow h =
    aggregate_checked-cons checked_sum_i64 i grouping n nums accs any_overflow
      (get_or accs i (pos 0)) (get_elem?-get_or accs i (pos 0) h)

-- Once a row has overflowed, that is what the loop returns.
overflowed :
    (grouping : List ℕ) (nums accs : List ℤ)
    → InRange grouping accs
    → (result : List ℤ) × (aggregate_checked checked_sum_i64 grouping nums accs true
        ≡ ok (result, true))
unfolding aggregate_checked
overflowed [] nums accs h = (accs, refl)
overflowed (i ∷ grouping) [] accs h = (accs, refl)
overflowed (i ∷ grouping) (n ∷ nums) accs h =
    let sum = (overflowing_add (get_or accs i (pos 0)) n).0 in
    let (result, run) =
      overflowed grouping nums (set accs i sum) (InRange-set grouping accs i sum h.1) in
    (result, checked-cons i grouping n nums accs true h.0 ∙ run)

exact-cons :
    (i : ℕ) (grouping : List ℕ) (n : ℤ) (nums accs : List ℤ)
    → i < length accs
    → aggregate exact_sum (i ∷ grouping) (n ∷ nums) accs
      ≡ aggregate exact_sum grouping nums (set accs i (get_or accs i (pos 0) +ℤ n))
unfolding aggregate
exact-cons i grouping n nums accs h = rw (get_elem?-get_or accs i (pos 0) h, aggregate) refl

overflowing_add-fits : (a b : ℤ) → is_i64 (a +ℤ b) ≡ true → overflowing_add a b ≡ (a +ℤ b, false)
unfolding overflowing_add
overflowing_add-fits a b h =
    ap₂ (λ v o. (v, o)) (wrap_i64_self (a +ℤ b) (is_i64-IsI64 (a +ℤ b) h)) (ap not h)

overflowing_add-overflows : (a b : ℤ) → is_i64 (a +ℤ b) ≡ false → (overflowing_add a b).1 ≡ true
unfolding overflowing_add
overflowing_add-overflows a b h = ap not h

checked-exact :
    (grouping : List ℕ) (nums accs : List ℤ)
    → InRange grouping accs
    → (stays_i64 grouping nums accs ≡ true
        → aggregate_checked checked_sum_i64 grouping nums accs false
          ≡ (aggregate exact_sum grouping nums accs >>= λ result. ok (result, false)))
      × (stays_i64 grouping nums accs ≡ false
          → (result : List ℤ) × (aggregate_checked checked_sum_i64 grouping nums accs false
              ≡ ok (result, true)))
unfolding aggregate_checked aggregate stays_i64
checked-exact [] nums accs h = (λ e. refl, λ e. cc)
checked-exact (i ∷ grouping) [] accs h = (λ e. refl, λ e. cc)
checked-exact (i ∷ grouping) (n ∷ nums) accs h =
    let acc = get_or accs i (pos 0) in
    elim (Bool-cases (is_i64 (acc +ℤ n))) [
      | inl t ↦
          let add = overflowing_add-fits acc n t in
          let (fits, not_fits) =
            checked-exact grouping nums (set accs i (acc +ℤ n))
              (InRange-set grouping accs i (acc +ℤ n) h.1) in
          let step : aggregate_checked checked_sum_i64 (i ∷ grouping) (n ∷ nums) accs false
              ≡ aggregate_checked checked_sum_i64 grouping nums (set accs i (acc +ℤ n)) false =
            checked-cons i grouping n nums accs false h.0
            ∙ ap
                (λ (r : ℤ × Bool).
                  aggregate_checked checked_sum_i64 grouping nums (set accs i r.0) (false || r.1))
                add in
          (
            λ e.
                step
                ∙ fits (rw t at e)
                ∙ ap (λ r. r >>= λ result. ok (result, false))
                    (sym (exact-cons i grouping n nums accs h.0)),
            λ e. let (result, run) = not_fits (rw t at e) in (result, step ∙ run),
          )
      | inr f ↦
          let sum = (overflowing_add acc n).0 in
          (
            λ e. absurd (false-true (rw f at e)),
            λ e.
                let (result, run) =
                  overflowed grouping nums (set accs i sum) (InRange-set grouping accs i sum h.1) in
                (
                  result,
                  checked-cons i grouping n nums accs false h.0
                      ∙ ap
                          (λ o.
                            aggregate_checked checked_sum_i64 grouping nums (set accs i sum)
                              (false || o))
                          (overflowing_add-overflows acc n f)
                      ∙ run,
                ),
          )
    ]

-- `CheckedAggregate` with `SumI64`, if every group index is below the number of accumulators: when
-- the sum of every group stays an i64 after each row, it returns the exact sum of each group,
-- starting from what its accumulator held; otherwise it returns the error Overflow.
pub execute_checked-sums :
    (max_index : ℤ) (grouping : List ℕ) (nums accs : List ℤ)
    → All (λ i. i < length (resize (pos 0) max_index accs)) grouping
    → (stays_i64 grouping nums (resize (pos 0) max_index accs) ≡ true
        → Accumulates exact_sum
            (length (resize (pos 0) max_index accs))
            grouping
            nums
            (resize (pos 0) max_index accs)
            (execute_checked checked_sum_i64 max_index grouping nums accs))
      × (stays_i64 grouping nums (resize (pos 0) max_index accs) ≡ false
          → execute_checked checked_sum_i64 max_index grouping nums accs ≡ err overflow)
unfolding execute_checked checked_sum_i64 sum_i64
execute_checked-sums max_index grouping nums accs h =
    let resized = resize (pos 0) max_index accs in
    let (fits, not_fits) = checked-exact grouping nums resized h in
    (
      λ e.
          let summed = aggregate-Accumulates exact_sum grouping nums resized h in
          record {
            result = summed.result;
            run =
                ap (λ r. r >>= finish)
                  (fits e ∙ ap (λ r. r >>= λ result. ok (result, false)) summed.run);
            groups = summed.groups;
            each = summed.each;
          },
      λ e. let (result, run) = not_fits e in ap (λ r. r >>= finish) run,
    )
