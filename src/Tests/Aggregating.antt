-- ===== src/Tests/Aggregating.antt =====
-- Runs of src/engine/operators/aggregate.rs.
use locust_db.Prelude.{◌≡◌, ◌<◌, ℕ, refl, true, false, List, [], ◌∷◌, length, All, arith}
use locust_db.Prelude.Int.{ℤ, pos, negsuc}
use locust_db.Errors.{ok, err, overflow}
use locust_db.Engine.Operators.Aggregate.{
  checked_sum_i64, max_i64, resize, execute, execute_nullable, execute_checked,
  execute_checked_nullable,
}
use locust_db.Engine.Operators.Aggregate.Groups.{Accumulates, execute-Accumulates}
use locust_db.Engine.Operators.Aggregate.Sums.{exact_sum, stays_i64, execute_checked-sums}
use locust_db.Engine.Operators.Aggregate.Nulls.{present_rows, execute_nullable-present_rows}

abbrev grouping : List ℕ
grouping = 1 ∷ 0 ∷ 1 ∷ []

abbrev nums : List ℤ
nums = pos 5 ∷ negsuc 2 ∷ pos 7 ∷ []

-- Two groups, of which the first had a sum already.
summed :
    execute_checked checked_sum_i64 (pos 1) grouping nums (pos 10 ∷ []) ≡ ok (pos 7 ∷ pos 12 ∷ [])
unfolding execute_checked checked_sum_i64
summed = refl

overflows :
    execute_checked checked_sum_i64 (pos 0) (0 ∷ []) (pos 1 ∷ []) (pos 9223372036854775807 ∷ [])
    ≡ err overflow
unfolding execute_checked checked_sum_i64
overflows = refl

-- The second row is null.
greatest :
    execute_nullable max_i64 (pos 1) grouping nums (5 ∷ []) []
    ≡ ok (negsuc 9223372036854775807 ∷ pos 7 ∷ [])
unfolding execute_nullable max_i64
greatest = refl

in_range : All (λ i. i < length (resize (pos 0) (pos 1) (pos 10 ∷ []))) grouping
unfolding resize
in_range = (omega arith, (omega arith, (omega arith, tt)))

in_range_max : All (λ i. i < 2) grouping
in_range_max = (omega arith, (omega arith, (omega arith, tt)))

execute_checked-sums_example :
    (stays_i64 grouping nums (resize (pos 0) (pos 1) (pos 10 ∷ [])) ≡ true
      → Accumulates exact_sum
          (length (resize (pos 0) (pos 1) (pos 10 ∷ [])))
          grouping
          nums
          (resize (pos 0) (pos 1) (pos 10 ∷ []))
          (execute_checked checked_sum_i64 (pos 1) grouping nums (pos 10 ∷ [])))
    × (stays_i64 grouping nums (resize (pos 0) (pos 1) (pos 10 ∷ [])) ≡ false
        → execute_checked checked_sum_i64 (pos 1) grouping nums (pos 10 ∷ []) ≡ err overflow)
execute_checked-sums_example = execute_checked-sums (pos 1) grouping nums (pos 10 ∷ []) in_range

execute-Accumulates_example :
    Accumulates max_i64 2 grouping nums
      (pos 10 ∷ [])
      (execute max_i64 (pos 1) grouping nums (pos 10 ∷ []))
execute-Accumulates_example =
    execute-Accumulates max_i64 (pos 1) grouping nums (pos 10 ∷ []) in_range_max

execute_nullable-present_rows_example :
    (execute_nullable checked_sum_i64.plain (pos 1) grouping nums (5 ∷ []) []
      ≡ execute checked_sum_i64.plain
          (pos 1)
          (present_rows (5 ∷ []) 0 grouping)
          (present_rows (5 ∷ []) 0 nums)
          [])
    × (execute_checked_nullable checked_sum_i64 (pos 1) grouping nums (5 ∷ []) []
        ≡ execute_checked checked_sum_i64
            (pos 1)
            (present_rows (5 ∷ []) 0 grouping)
            (present_rows (5 ∷ []) 0 nums)
            [])
execute_nullable-present_rows_example =
    execute_nullable-present_rows checked_sum_i64 (pos 1) grouping nums (5 ∷ []) [] refl
