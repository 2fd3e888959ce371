-- ===== src/Engine/Planning/Query/NormalForm.antt =====
-- The invariants of `NormalFormQuery`.
use locust_db.Prelude.{
  ◌≡◌, refl, Bool, true, false, ◌||◌, Option, none, some, List, [], ◌∷◌, All, All-append, inl, inr,
  ◌⊎◌, arith,
}
use locust_db.Errors.{ok, bind_inv, ok-injective}
use locust_db.Stringpack.{Bytes}
use locust_db.Engine.Operators.MergeAggregate.{Aggregator}
use locust_db.Syntax.Expression.{Expr}
use locust_db.Engine.Planning.Query.{
  ColumnInfo, Query, NormalFormQuery, Extracted, Normalizing, ensure_no_aggregates,
  extract_aggregators, add_select, select_loop, add_order, order_loop, start, passes,
  require_final_pass, normalize, is_empty,
}
use locust_db.Engine.Planning.Query.Nesting.{has_aggregate}

abbrev pub Plain : Expr → Type 0
Plain e = has_aggregate e ≡ false

abbrev pub PlainColumns : List ColumnInfo → Type 0
PlainColumns = All (λ info. Plain info.expr)

abbrev pub PlainAggregates : List (Aggregator × ColumnInfo) → Type 0
PlainAggregates = All (λ a. Plain a.1.expr)

abbrev pub PlainOrder : List (Expr × Bool) → Type 0
PlainOrder = All (λ term. Plain term.0)

ensure_no_aggregates-Plain : (e : Expr) → ensure_no_aggregates e ≡ ok tt → Plain e
unfolding ensure_no_aggregates
ensure_no_aggregates-Plain (Expr.aggregate a expr) h = cc
ensure_no_aggregates-Plain (Expr.func1 t expr) h = ensure_no_aggregates-Plain expr h
ensure_no_aggregates-Plain (Expr.func2 t expr1 expr2) h =
    let (u, g, e) = bind_inv (ensure_no_aggregates expr1) _ tt h in
    ground (arith, ensure_no_aggregates-Plain expr1 g, ensure_no_aggregates-Plain expr2 e)
ensure_no_aggregates-Plain (Expr.const v) h = refl
ensure_no_aggregates-Plain (Expr.col_name name) h = refl

pub record PlainExtracted (x : Extracted) : Type 0 where
  pub expr_plain : Plain x.expr
  aggregates_plain : PlainAggregates x.aggregates

pub extract_aggregators-Plain :
    (e : Expr) (names : List Bytes) (alias : Option Bytes) (x : Extracted)
    → extract_aggregators e names alias ≡ ok x
    → PlainExtracted x
unfolding extract_aggregators
extract_aggregators-Plain (Expr.aggregate a expr) names alias x h =
    let (_, g, e) = bind_inv (ensure_no_aggregates expr) _ x h in
    rw (← ok-injective e)
      (record { expr_plain = refl; aggregates_plain = (ensure_no_aggregates-Plain expr g, tt) })
extract_aggregators-Plain (Expr.func1 t expr) names alias x h =
    let (y, g, e) = bind_inv (extract_aggregators expr names alias) _ x h in
    let ih = extract_aggregators-Plain expr names alias y g in
    rw (← ok-injective e)
      (record { expr_plain = ih.expr_plain; aggregates_plain = ih.aggregates_plain })
extract_aggregators-Plain (Expr.func2 t expr1 expr2) names alias x h =
    let (y, g, e) = bind_inv (extract_aggregators expr1 names alias) _ x h in
    let (z, k, e') = bind_inv (extract_aggregators expr2 y.column_names alias) _ x e in
    let ih = extract_aggregators-Plain expr1 names alias y g in
    let ih' = extract_aggregators-Plain expr2 y.column_names alias z k in
    rw (← ok-injective e') (record {
      expr_plain = ground (arith, ih.expr_plain, ih'.expr_plain);
      aggregates_plain =
          All-append (λ a. Plain a.1.expr) y.aggregates z.aggregates ih.aggregates_plain
            ih'.aggregates_plain;
    })
extract_aggregators-Plain (Expr.const v) names alias x h =
    rw (← ok-injective h) (record { expr_plain = refl; aggregates_plain = tt })
extract_aggregators-Plain (Expr.col_name name) names alias x h =
    rw (← ok-injective h) (record { expr_plain = refl; aggregates_plain = tt })

record PlainState (s : Normalizing) : Type 0 where
  final_projection_plain : PlainColumns s.final_projection
  select_plain : PlainColumns s.select
  aggregate_plain : PlainAggregates s.aggregate
  order_plain : PlainOrder s.final_order_by

add_select-Plain :
    (info : ColumnInfo) (s : Normalizing) (expr : Expr) (found : List (Aggregator × ColumnInfo))
    (names : List Bytes)
    → PlainState s
    → Plain expr
    → PlainAggregates found
    → PlainState
        (add_select info s (record { expr = expr; aggregates = found; column_names = names }))
unfolding add_select
add_select-Plain info s expr [] names p q r = record {
  final_projection_plain = All-append _ s.final_projection _ p.final_projection_plain (refl, tt);
  select_plain = All-append _ s.select _ p.select_plain (q, tt);
  aggregate_plain = p.aggregate_plain;
  order_plain = p.order_plain;
}
add_select-Plain info s expr (first ∷ rest) names p q r = record {
  final_projection_plain = All-append _ s.final_projection _ p.final_projection_plain (q, tt);
  select_plain = p.select_plain;
  aggregate_plain = All-append _ s.aggregate _ p.aggregate_plain r;
  order_plain = p.order_plain;
}

add_order-Plain :
    (desc : Bool) (s : Normalizing) (expr : Expr) (found : List (Aggregator × ColumnInfo))
    (names : List Bytes)
    → PlainState s
    → Plain expr
    → PlainAggregates found
    → PlainState
        (add_order desc s (record { expr = expr; aggregates = found; column_names = names }))
unfolding add_order
add_order-Plain desc s expr [] names p q r = record {
  final_projection_plain = p.final_projection_plain;
  select_plain = All-append _ s.select _ p.select_plain (q, tt);
  aggregate_plain = p.aggregate_plain;
  order_plain = All-append _ s.final_order_by _ p.order_plain (refl, tt);
}
add_order-Plain desc s expr (first ∷ rest) names p q r = record {
  final_projection_plain = p.final_projection_plain;
  select_plain = p.select_plain;
  aggregate_plain = All-append _ s.aggregate _ p.aggregate_plain r;
  order_plain = All-append _ s.final_order_by _ p.order_plain (q, tt);
}

select_loop-Plain :
    (columns : List ColumnInfo) (s t : Normalizing)
    → select_loop columns s ≡ ok t
    → PlainState s
    → PlainState t
unfolding select_loop
select_loop-Plain [] s t h p = rw (← ok-injective h) p
select_loop-Plain (info ∷ columns) s t h p =
    let (x, g, e) = bind_inv (extract_aggregators info.expr s.aggregate_colnames info.name) _ t h in
    let plain = extract_aggregators-Plain info.expr s.aggregate_colnames info.name x g in
    select_loop-Plain columns (add_select info s x) t e (
      add_select-Plain info s x.expr x.aggregates x.column_names p plain.expr_plain
        plain.aggregates_plain)

order_loop-Plain :
    (order_by : List (Expr × Bool)) (s t : Normalizing)
    → order_loop order_by s ≡ ok t
    → PlainState s
    → PlainState t
unfolding order_loop
order_loop-Plain [] s t h p = rw (← ok-injective h) p
order_loop-Plain ((expr, desc) ∷ order_by) s t h p =
    let (x, g, e) = bind_inv (extract_aggregators expr s.aggregate_colnames none) _ t h in
    let plain = extract_aggregators-Plain expr s.aggregate_colnames none x g in
    order_loop-Plain order_by (add_order desc s x) t e (
      add_order-Plain desc s x.expr x.aggregates x.column_names p plain.expr_plain
        plain.aggregates_plain)

-- A query that the engine runs: no aggregates in what is projected or aggregated, and not both
-- aggregates and an order.
pub record IsNormal (query : NormalFormQuery) : Type 0 where
  pub projection_plain : PlainColumns query.projection
  pub aggregate_plain : PlainAggregates query.aggregate
  pub one_of : (query.aggregate ≡ []) ⊎ (query.order_by ≡ [])

-- The final pass, if there is one: no aggregates at all, also not in its order and its filter.
abbrev pub IsFinal : Option NormalFormQuery → Type 0
IsFinal none = Unit
IsFinal (some query) =
    IsNormal query × (query.aggregate ≡ []) × PlainOrder query.order_by × Plain query.filter

-- The filter and the order of a first pass are those of the query, or it leaves the order to a final
-- pass.
abbrev pub Keeps : Query → NormalFormQuery → Type 0
Keeps query first =
    (first.filter ≡ query.filter) × ((first.order_by ≡ []) ⊎ (first.order_by ≡ query.order_by))

one_is_empty {ℓ κ} :
    {A : Type ℓ} {B : Type κ} (xs : List A) (ys : List B)
    → (is_empty xs || is_empty ys) ≡ true
    → (xs ≡ []) ⊎ (ys ≡ [])
one_is_empty [] ys h = inl refl
one_is_empty (x ∷ xs) [] h = inr refl
one_is_empty (x ∷ xs) (y ∷ ys) h = cc

require_final_pass-one_of :
    (query : Query) (s : Normalizing)
    → require_final_pass query s ≡ false
    → (s.aggregate ≡ []) ⊎ (query.order_by ≡ [])
unfolding require_final_pass
require_final_pass-one_of query s h = one_is_empty s.aggregate query.order_by (ground arith)

passes-IsNormal :
    (query : Query) (s : Normalizing) (b : Bool) (r : NormalFormQuery × Option NormalFormQuery)
    → PlainState s
    → (b ≡ false → (s.aggregate ≡ []) ⊎ (query.order_by ≡ []))
    → passes query s b ≡ ok r
    → IsNormal r.0 × IsFinal r.1 × Keeps query r.0
unfolding passes
passes-IsNormal query s true r p o h =
    let (t, g, e) = bind_inv (order_loop query.order_by s) _ r h in
    let plain = order_loop-Plain query.order_by s t g p in
    rw (← ok-injective e) (
      record {
        projection_plain = plain.select_plain;
        aggregate_plain = plain.aggregate_plain;
        one_of = inr refl;
      },
      (
        record {
          projection_plain = plain.final_projection_plain;
          aggregate_plain = tt;
          one_of = inl refl;
        },
        refl,
        plain.order_plain,
        refl,
      ),
      (refl, inl refl),
    )
passes-IsNormal query s false r p o h = rw (← ok-injective h) (
  record {
    projection_plain = p.select_plain;
    aggregate_plain = p.aggregate_plain;
    one_of = o refl;
  },
  tt,
  (refl, inr refl),
)

-- Of the queries that `normalize` returns: neither an expression that is projected nor one that is
-- aggregated has an aggregate in it, and one of the list of aggregates and the order is empty. If
-- there is a final pass, it has no aggregates, and its order and its filter have none in them. The
-- first pass keeps the filter of the query as it is, and its order, if it does not leave that empty.
pub normalize-IsNormal :
    (query : Query) (first : NormalFormQuery) (final : Option NormalFormQuery)
    → normalize query ≡ ok (first, final)
    → IsNormal first × IsFinal final × Keeps query first
unfolding normalize
normalize-IsNormal query first final h =
    let (s, g, e) = bind_inv (select_loop query.select start) _ (first, final) h in
    let plain = select_loop-Plain query.select start s g (record {
      final_projection_plain = tt;
      select_plain = tt;
      aggregate_plain = tt;
      order_plain = tt;
    }) in
    passes-IsNormal query s (require_final_pass query s) (first, final) plain
      (require_final_pass-one_of query s) e
