-- ===== src/Tests/Planning.antt =====
-- Runs of src/engine/planning/query.rs: `SELECT sum(x) + 1 FROM t ORDER BY y`.
use locust_db.Prelude.{ℕ, ◌+◌, ◌≡◌, refl, true, false, none, some, [], ◌∷◌, if◌then◌else◌}
use locust_db.Prelude.Int.{pos}
use locust_db.Prelude.Decimal.{decimal}
use locust_db.Errors.{ok, err, type_error}
use locust_db.Stringpack.{Bytes}
use locust_db.Ingest.RawCol.{RawVal}
use locust_db.Engine.Operators.DictLookup.{bytes_eq}
use locust_db.Engine.Operators.MergeAggregate.{Aggregator}
use locust_db.Syntax.Expression.{Expr, Func2Type, LimitClause}
use locust_db.Engine.Planning.Query.{
  Query, NormalFormQuery, aggregate_name, select_name, normalize, is_select_star,
  find_referenced_cols,
}
use locust_db.Engine.Planning.Query.Nesting.{Refuses, normalize-Refuses}
use locust_db.Engine.Planning.Query.Meaning.{Interpretation, column_values, order_values}
use locust_db.Engine.Planning.Query.FinalPass.{normalize-value}
use locust_db.Engine.Planning.Query.Replacement.{ReplacesAll}
use locust_db.Engine.Planning.Query.NormalForm.{IsNormal, IsFinal, Keeps, normalize-IsNormal}

abbrev x : Expr
x = Expr.col_name (b'x' ∷ [])

abbrev y : Expr
y = Expr.col_name (b'y' ∷ [])

abbrev one : Expr
one = Expr.const (RawVal.int (pos 1))

abbrev limit : LimitClause
limit = record { limit = 10; offset = 0 }

abbrev query : Query
query = record {
  select =
      record {
        expr = Expr.func2 Func2Type.add (Expr.aggregate Aggregator.sum_i64 x) one;
        name = none;
      }
      ∷ [];
  table = b't' ∷ [];
  filter = one;
  order_by = (y, true) ∷ [];
  limit = limit;
}

abbrev first : NormalFormQuery
first = record {
  projection = record { expr = y; name = none } ∷ [];
  filter = one;
  aggregate = (Aggregator.sum_i64, record { expr = x; name = none }) ∷ [];
  order_by = [];
  limit = record { limit = 18446744073709551615; offset = 0 };
}

abbrev final : NormalFormQuery
final = record {
  projection =
      record { expr = Expr.func2 Func2Type.add (Expr.col_name (aggregate_name 0)) one; name = none }
      ∷ [];
  filter = one;
  aggregate = [];
  order_by = (Expr.col_name (select_name 0), true) ∷ [];
  limit = limit;
}

normalized : normalize query ≡ ok (first, some final)
unfolding normalize
normalized = refl

-- `sum(count(x))`
nested :
    normalize (record query {
      select =
          record {
            expr = Expr.aggregate Aggregator.sum_i64 (Expr.aggregate Aggregator.count x);
            name = none;
          }
          ∷ [];
    })
    ≡ err type_error
unfolding normalize
nested = refl

star :
    is_select_star
      (record query { select = record { expr = Expr.col_name (b'*' ∷ []); name = none } ∷ [] })
    ≡ true
unfolding is_select_star
star = refl

referenced : find_referenced_cols query ≡ (b'y' ∷ []) ∷ (b'x' ∷ []) ∷ []
unfolding find_referenced_cols
referenced = refl

-- A group whose sum of `x` is 7 and whose `y` is 9.
abbrev column : Bytes → ℕ
column name = if bytes_eq name (aggregate_name 0) then 7 else 9

abbrev numbers : Interpretation ℕ
numbers = record {
  column = column;
  literal = λ v. 1;
  apply1 = λ t a. a;
  apply2 = λ t a b. a + b;
  over_group = λ a e. 7;
}

holds_sum : column (aggregate_name 0) ≡ 7
unfolding bytes_eq decimal
holds_sum = refl

holds_y : column (select_name 0) ≡ column (b'y' ∷ [])
unfolding bytes_eq decimal
holds_y = refl

normalize-value_example :
    (column_values numbers final.projection ≡ column_values numbers query.select)
    × (order_values numbers final.order_by ≡ order_values numbers query.order_by)
    × ReplacesAll (λ info. info.expr) 1 query.select final.projection
    × ReplacesAll (λ term. term.0) 1 query.order_by final.order_by
normalize-value_example =
    normalize-value numbers query first final normalized (holds_sum, tt) (holds_y, tt)

normalize-Refuses_example : Refuses false (normalize query)
normalize-Refuses_example = normalize-Refuses query

normalize-IsNormal_example : IsNormal first × IsFinal (some final) × Keeps query first
normalize-IsNormal_example = normalize-IsNormal query first (some final) normalized
