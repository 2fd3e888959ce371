-- ===== src/Engine/Operators/MergeAggregate/Combine.antt =====
-- src/engine/operators/merge_aggregate.rs: `combine` on i64. `checked_add` is `none` outside i64; the
-- plain sum of counts wraps.
use locust_db.Prelude.{if◌then◌else◌}
use locust_db.Prelude.Int.{wrap_i64, ℤ, ◌+ℤ◌, ltb_ℤ, is_i64}
use locust_db.Errors.{Result, ok, err, overflow, fatal_error}
use locust_db.Engine.Operators.MergeAggregate.{
  Aggregator, sum_i64, sum_f64, count, max_i64, max_f64, min_i64, min_f64, Combinable,
}

unfoldable pub checked_add : ℤ → ℤ → Result ℤ
unfolding ◌+ℤ◌
checked_add a b = if is_i64 (a +ℤ b) then ok (a +ℤ b) else err overflow

unfoldable pub combine_i64 : Aggregator → ℤ → ℤ → Result ℤ
unfolding checked_add wrap_i64 ◌+ℤ◌
combine_i64 sum_i64 a b = checked_add a b
combine_i64 count a b = ok (wrap_i64 (a +ℤ b))
combine_i64 max_i64 a b = ok (if ltb_ℤ b a then a else b)
combine_i64 min_i64 a b = ok (if ltb_ℤ b a then b else a)
combine_i64 sum_f64 a b = err fatal_error
combine_i64 max_f64 a b = err fatal_error
combine_i64 min_f64 a b = err fatal_error

instance abbrev pub i64_combinable : Combinable ℤ
i64_combinable = record { combine = combine_i64 }
