-- ===== src/Engine/Planning/Query.antt =====
-- src/engine/planning/query.rs: queries, and normalizing them into a pass over the partitions and,
-- where it is needed, a final pass over the result.
pub mod Meaning
pub mod FinalPass
pub mod NormalForm
pub mod Replacement
pub mod Nesting
use locust_db.Prelude.{
  ℕ, ◌-◌, ◌^◌, Bool, true, false, ◌&&◌, ◌||◌, Option, none, some, List, [], ◌∷◌, ◌++◌, length,
}
use locust_db.Prelude.Decimal.{decimal}
use locust_db.Errors.{Result, ok, err, panic, type_error, ◌>>=◌}
use locust_db.Stringpack.{Bytes}
use locust_db.Ingest.RawCol.{RawVal}
use locust_db.Engine.Operators.DictLookup.{bytes_eq}
use locust_db.Engine.Operators.MergeAggregate.{Aggregator}
use locust_db.Syntax.Expression.{Expr, LimitClause, add_colnames}
use locust_db.Prelude.Int.{pos}

pub record ColumnInfo : Type 0 where
  pub expr : Expr
  pub name : Option Bytes

pub record NormalFormQuery : Type 0 where
  pub projection : List ColumnInfo
  pub filter : Expr
  pub aggregate : List (Aggregator × ColumnInfo)
  pub order_by : List (Expr × Bool)
  pub limit : LimitClause

pub record Query : Type 0 where
  pub select : List ColumnInfo
  pub table : Bytes
  pub filter : Expr
  pub order_by : List (Expr × Bool)
  pub limit : LimitClause

-- `format!("_ca{}", n)` and `format!("_cs{}", n)`
abbrev pub aggregate_name : ℕ → Bytes
aggregate_name n = b'_' ∷ b'c' ∷ b'a' ∷ decimal n

abbrev pub select_name : ℕ → Bytes
select_name n = b'_' ∷ b'c' ∷ b's' ∷ decimal n

unfoldable pub ensure_no_aggregates : Expr → Result (Unit {0})
ensure_no_aggregates (Expr.aggregate a expr) = err type_error
ensure_no_aggregates (Expr.func1 t expr) = ensure_no_aggregates expr
ensure_no_aggregates (Expr.func2 t expr1 expr2) =
    ensure_no_aggregates expr1 >>= λ _. ensure_no_aggregates expr2
ensure_no_aggregates (Expr.const v) = ok tt
ensure_no_aggregates (Expr.col_name name) = ok tt

-- What `extract_aggregators` returns, with the names that it has added to.
pub record Extracted : Type 0 where
  pub expr : Expr
  pub aggregates : List (Aggregator × ColumnInfo)
  pub column_names : List Bytes

unfoldable pub extract_aggregators :
    Expr → (column_names : List Bytes) (alias : Option Bytes) → Result Extracted
unfolding ensure_no_aggregates
extract_aggregators (Expr.aggregate aggregator expr) column_names alias =
    let column_name = aggregate_name (length column_names) in
    ensure_no_aggregates expr >>= λ _. ok (record {
      expr = Expr.col_name column_name;
      aggregates = (aggregator, record { expr = expr; name = alias }) ∷ [];
      column_names = column_names ++ column_name ∷ [];
    })
extract_aggregators (Expr.func1 t expr) column_names alias =
    extract_aggregators expr column_names alias >>= λ e.
    ok (record e { expr = Expr.func1 t e.expr })
extract_aggregators (Expr.func2 t expr1 expr2) column_names alias =
    extract_aggregators expr1 column_names alias >>= λ e1.
    extract_aggregators expr2 e1.column_names alias >>= λ e2. ok (record {
      expr = Expr.func2 t e1.expr e2.expr;
      aggregates = e1.aggregates ++ e2.aggregates;
      column_names = e2.column_names;
    })
extract_aggregators (Expr.const v) column_names alias =
    ok (record { expr = Expr.const v; aggregates = []; column_names = column_names })
extract_aggregators (Expr.col_name name) column_names alias =
    ok (record { expr = Expr.col_name name; aggregates = []; column_names = column_names })

-- The variables of `normalize`.
pub record Normalizing : Type 0 where
  pub final_projection : List ColumnInfo
  pub select : List ColumnInfo
  pub aggregate : List (Aggregator × ColumnInfo)
  pub aggregate_colnames : List Bytes
  pub select_colnames : List Bytes
  pub final_order_by : List (Expr × Bool)

-- One column of the select clause, after its aggregates are extracted.
unfoldable pub add_select : ColumnInfo → Normalizing → Extracted → Normalizing
add_select col_info s e = elim e.aggregates [
  | [] ↦
      let column_name = select_name (length s.select_colnames) in
      record s {
        aggregate_colnames = e.column_names;
        select_colnames = s.select_colnames ++ column_name ∷ [];
        select = s.select ++ record { expr = e.expr; name = col_info.name } ∷ [];
        final_projection =
            s.final_projection
            ++ record { expr = Expr.col_name column_name; name = col_info.name } ∷ [];
      }
  | first ∷ rest ↦ record s {
    aggregate_colnames = e.column_names;
    aggregate = s.aggregate ++ (first ∷ rest);
    final_projection = s.final_projection ++ record { expr = e.expr; name = col_info.name } ∷ [];
  }
]

unfoldable pub select_loop : List ColumnInfo → Normalizing → Result Normalizing
unfolding extract_aggregators add_select
select_loop [] s = ok s
select_loop (col_info ∷ columns) s =
    extract_aggregators col_info.expr s.aggregate_colnames col_info.name >>= λ e.
    select_loop columns (add_select col_info s e)

unfoldable pub add_order : Bool → Normalizing → Extracted → Normalizing
add_order desc s e = elim e.aggregates [
  | [] ↦
      let column_name = select_name (length s.select_colnames) in
      record s {
        aggregate_colnames = e.column_names;
        select_colnames = s.select_colnames ++ column_name ∷ [];
        select = s.select ++ record { expr = e.expr; name = none } ∷ [];
        final_order_by = s.final_order_by ++ (Expr.col_name column_name, desc) ∷ [];
      }
  | first ∷ rest ↦ record s {
    aggregate_colnames = e.column_names;
    aggregate = s.aggregate ++ (first ∷ rest);
    final_order_by = s.final_order_by ++ (e.expr, desc) ∷ [];
  }
]

unfoldable pub order_loop : List (Expr × Bool) → Normalizing → Result Normalizing
unfolding extract_aggregators add_order
order_loop [] s = ok s
order_loop ((expr, desc) ∷ order_by) s = extract_aggregators expr s.aggregate_colnames none >>= λ e.
    order_loop order_by (add_order desc s e)

abbrev pub is_empty {ℓ} : {T : Type ℓ} → List T → Bool
is_empty [] = true
is_empty (x ∷ xs) = false

abbrev pub is_col_name : Expr → Bool
is_col_name (Expr.col_name name) = true
is_col_name (Expr.const v) = false
is_col_name (Expr.func1 t expr) = false
is_col_name (Expr.func2 t expr1 expr2) = false
is_col_name (Expr.aggregate a expr) = false

-- `.any(|col_info| !matches!(col_info.expr, Expr::ColName(_)))`
abbrev pub any_computed : List ColumnInfo → Bool
any_computed [] = false
any_computed (col_info ∷ columns) = elim (is_col_name col_info.expr) [
  | true ↦ any_computed columns
  | false ↦ true
]

unfoldable pub require_final_pass : Query → Normalizing → Bool
require_final_pass query s = elim (is_empty s.aggregate || is_empty query.order_by) [
  | true ↦ any_computed s.final_projection
  | false ↦ true
]

abbrev pub start : Normalizing
start = record {
  final_projection = [];
  select = [];
  aggregate = [];
  aggregate_colnames = [];
  select_colnames = [];
  final_order_by = [];
}

-- The query that one pass runs, and the first of the two passes.
abbrev pub single_pass : Query → Normalizing → NormalFormQuery
single_pass query s = record {
  projection = s.select;
  filter = query.filter;
  aggregate = s.aggregate;
  order_by = query.order_by;
  limit = query.limit;
}

abbrev pub first_pass : Query → Normalizing → NormalFormQuery
first_pass query s = record {
  projection = s.select;
  filter = query.filter;
  aggregate = s.aggregate;
  order_by = [];
  limit = record { limit = 2 ^ 64 - 1; offset = 0 };
}

abbrev pub final_pass : Query → Normalizing → NormalFormQuery
final_pass query s = record {
  projection = s.final_projection;
  filter = Expr.const (RawVal.int (pos 1));
  aggregate = [];
  order_by = s.final_order_by;
  limit = query.limit;
}

-- The branch on `require_final_pass`.
unfoldable pub passes :
    (query : Query) → Normalizing → Bool → Result (NormalFormQuery × Option NormalFormQuery)
unfolding order_loop
passes query s true =
    order_loop query.order_by s >>= λ t. ok (first_pass query t, some (final_pass query t))
passes query s false = ok (single_pass query s, none)

unfoldable pub normalize : Query → Result (NormalFormQuery × Option NormalFormQuery)
unfolding select_loop require_final_pass passes
normalize query =
    select_loop query.select start >>= λ s. passes query s (require_final_pass query s)

unfoldable pub is_select_star : Query → Bool
unfolding bytes_eq
is_select_star query = elim query.select [
  | [] ↦ false
  | col_info ∷ [] ↦ elim col_info.expr [
    | Expr.col_name colname ↦ bytes_eq colname (b'*' ∷ [])
    | _ ↦ false
  ]
  | _ ↦ false
]

abbrev add_select_colnames : List ColumnInfo → List Bytes → List Bytes
unfolding add_colnames
add_select_colnames [] colnames = colnames
add_select_colnames (col_info ∷ columns) colnames =
    add_select_colnames columns (add_colnames col_info.expr colnames)

abbrev add_order_colnames : List (Expr × Bool) → List Bytes → List Bytes
unfolding add_colnames
add_order_colnames [] colnames = colnames
add_order_colnames ((expr, desc) ∷ order_by) colnames =
    add_order_colnames order_by (add_colnames expr colnames)

unfoldable pub find_referenced_cols : Query → List Bytes
unfolding add_select_colnames add_order_colnames
find_referenced_cols query =
    add_colnames query.filter
      (add_order_colnames query.order_by (add_select_colnames query.select []))
