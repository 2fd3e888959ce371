-- ===== src/Syntax/Expression.antt =====
-- src/syntax/expression.rs and src/syntax/limit.rs: the expressions of a query.
use locust_db.Prelude.{ℕ, List, ◌∷◌}
use locust_db.Stringpack.{Bytes}
use locust_db.Ingest.RawCol.{RawVal}
use locust_db.Engine.Operators.MergeAggregate.{Aggregator}

pub data Func2Type : Type 0 where
  equals not_equals lt lte gt gte and or add subtract multiply divide modulo : Func2Type
  regex_match like not_like : Func2Type

pub data Func1Type : Type 0 where
  negate to_year not is_null is_not_null length : Func1Type

pub data Expr : Type 0 where
  col_name : Bytes → Expr
  const : RawVal → Expr
  func1 : Func1Type → Expr → Expr
  func2 : Func2Type → Expr → Expr → Expr
  aggregate : Aggregator → Expr → Expr

-- The set of names is the list of those that were inserted.
unfoldable pub add_colnames : Expr → (result : List Bytes) → List Bytes
add_colnames (col_name name) result = name ∷ result
add_colnames (func2 t expr1 expr2) result = add_colnames expr2 (add_colnames expr1 result)
add_colnames (func1 t expr) result = add_colnames expr result
add_colnames (aggregate a expr) result = add_colnames expr result
add_colnames (const v) result = result

pub record LimitClause : Type 0 where
  pub limit : ℕ
  pub offset : ℕ
