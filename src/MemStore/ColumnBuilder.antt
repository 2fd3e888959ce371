-- ===== src/MemStore/ColumnBuilder.antt =====
-- src/mem_store/column_builder.rs: the builder of columns of integers.
pub mod Bounds
pub mod StringCol
pub mod FloatCol
use locust_db.Prelude.{
  ℕ, ◌+◌, ◌*◌, ◌-◌, ◌^◌, Bool, true, false, ◌&&◌, Option, none, some, List, [], ◌∷◌, ◌++◌, length,
  ltb, if◌then◌else◌,
}
use locust_db.Prelude.Int.{ℤ, pos, negsuc, ◌-ℤ◌, ltb_ℤ, is_i64}
use locust_db.Errors.{Result}
use locust_db.Stringpack.{Bytes}
use locust_db.MemStore.Column.{DataSection, Column}
use locust_db.MemStore.Integers.{new_boxed}

pub record IntColBuilder : Type 0 where
  pub values : List ℤ
  pub min : ℤ
  pub max : ℤ
  pub increasing : ℕ
  pub allow_delta_encode : Bool
  pub last : ℤ

-- `i64::MAX` and `i64::MIN`
abbrev pub i64_max : ℤ
i64_max = pos (2 ^ 63 - 1)

abbrev pub i64_min : ℤ
i64_min = negsuc (2 ^ 63 - 1)

abbrev pub default : IntColBuilder
default = record {
  values = [];
  min = i64_max;
  max = i64_min;
  increasing = 0;
  allow_delta_encode = true;
  last = i64_min;
}

abbrev pub unwrap_or_zero : Option ℤ → ℤ
unwrap_or_zero none = pos 0
unwrap_or_zero (some x) = x

-- `cmp::min` and `cmp::max`
abbrev pub min_ℤ : ℤ → ℤ → ℤ
min_ℤ a b = if ltb_ℤ b a then b else a

abbrev pub max_ℤ : ℤ → ℤ → ℤ
max_ℤ a b = if ltb_ℤ b a then a else b

-- `checked_sub` is none outside i64
unfoldable pub push : IntColBuilder → Option ℤ → IntColBuilder
unfolding ◌-ℤ◌
push builder elem =
    let elem = unwrap_or_zero elem in
    record builder {
      min = min_ℤ elem builder.min;
      max = max_ℤ elem builder.max;
      increasing = if ltb_ℤ builder.last elem then builder.increasing + 1 else builder.increasing;
      allow_delta_encode =
          if ltb_ℤ builder.last elem
          then builder.allow_delta_encode
          else if is_i64 (elem -ℤ builder.last)
          then builder.allow_delta_encode
          else false;
      last = elem;
      values = builder.values ++ elem ∷ [];
    }

-- A loop of `push`, as `MixedCol::finalize` makes it.
unfoldable pub push_all : IntColBuilder → List (Option ℤ) → IntColBuilder
unfolding push
push_all builder [] = builder
push_all builder (elem ∷ elems) = push_all (push builder elem) elems

-- Whether `finalize` encodes differences.
abbrev pub delta_encoded : Bool → IntColBuilder → Bool
delta_encoded enable_lz4 builder =
    builder.allow_delta_encode
    && (ltb (length builder.values * 9) (builder.increasing * 10) && enable_lz4)

module _ (enable_lz4 : Bool) (compress : DataSection → Bytes) where
  unfoldable pub finalize : IntColBuilder → (name : Bytes) (present : Option Bytes) → Result Column
  unfolding new_boxed
  finalize builder name present =
      new_boxed enable_lz4 compress name builder.values builder.min builder.max
        (delta_encoded enable_lz4 builder) present
