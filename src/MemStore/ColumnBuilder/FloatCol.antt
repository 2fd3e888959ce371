-- ===== src/MemStore/ColumnBuilder/FloatCol.antt =====
-- src/mem_store/column_builder.rs: the builder of columns of floats. An f64 is its 64 bits.
use locust_db.Prelude.{ℕ, Bool, Option, none, some, List, [], ◌∷◌, ◌++◌}
use locust_db.Errors.{Result}
use locust_db.Stringpack.{Bytes}
use locust_db.MemStore.Column.{DataSection, Column}
use locust_db.MemStore.Floats.{new_boxed}

pub record FloatColBuilder : Type 0 where
  pub values : List ℕ

abbrev pub default : FloatColBuilder
default = record { values = [] }

-- `elem.unwrap_or(0.0)`, whose bits are 0
abbrev pub unwrap_or_zero : Option ℕ → ℕ
unwrap_or_zero none = 0
unwrap_or_zero (some x) = x

unfoldable pub push : FloatColBuilder → Option ℕ → FloatColBuilder
push builder elem = record { values = builder.values ++ unwrap_or_zero elem ∷ [] }

-- A loop of `push`, as `MixedCol::finalize` makes it.
unfoldable pub push_all : FloatColBuilder → List (Option ℕ) → FloatColBuilder
unfolding push
push_all builder [] = builder
push_all builder (elem ∷ elems) = push_all (push builder elem) elems

module _ (enable_lz4 : Bool) (compress : DataSection → Bytes) where
  unfoldable pub finalize :
      FloatColBuilder → (name : Bytes) (present : Option Bytes) → Result Column
  unfolding new_boxed
  finalize builder name present = new_boxed enable_lz4 compress name builder.values present
