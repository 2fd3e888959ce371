-- ===== src/Engine/Planning/Query/FinalPass.antt =====
-- The values that the final pass of a normalized query computes, against those of the query.
use locust_db.Prelude.{
  ◌+◌, ◌≡◌, refl, ap, sym, ◌∙◌, Bool, true, false, none, some, some_inj, List, [], ◌∷◌, ◌++◌,
  append_assoc, append-nil, length, length-append, arith,
}
use locust_db.Errors.{ok, bind_inv, ok-injective}
use locust_db.Stringpack.{Bytes}
use locust_db.Engine.Operators.MergeAggregate.{Aggregator}
use locust_db.Syntax.Expression.{Expr}
use locust_db.Engine.Planning.Query.{
  ColumnInfo, Query, NormalFormQuery, Extracted, Normalizing, select_name, extract_aggregators,
  add_select, select_loop, add_order, order_loop, start, first_pass, final_pass, passes,
  require_final_pass, normalize,
}
use locust_db.Engine.Planning.Query.Replacement.{ReplacesAll, passes-Replaces}
use locust_db.Engine.Planning.Query.Meaning.{
  Interpretation, value, column_values, order_values, HoldsAggregates, HoldsColumns,
  HoldsAggregates-append, HoldsColumns-append, Means, extract_aggregators-Means,
}

-- The names handed out are as many as what they name.
record Counted (s : Normalizing) : Type 0 where
  aggregates : length s.aggregate_colnames ≡ length s.aggregate
  selects : length s.select_colnames ≡ length s.select

module _ {ℓ} {V : Type ℓ} (I : Interpretation V) where
  abbrev Holds : Normalizing → Type ℓ
  Holds s = HoldsAggregates I 0 s.aggregate × HoldsColumns I 0 s.select

  -- From `s` to `t`, columns with these values were added to the final pass, and terms of its order.
  record Steps (s t : Normalizing) (columns : List V) (order : List (V × Bool)) : Type ℓ where
    counted : Counted t
    before : Holds t → Holds s
    projected :
        Holds t → column_values I t.final_projection ≡ column_values I s.final_projection ++ columns
    ordered : Holds t → order_values I t.final_order_by ≡ order_values I s.final_order_by ++ order

  Steps-trans :
      (s t u : Normalizing) (c c' : List V) (o o' : List (V × Bool))
      → Steps s t c o
      → Steps t u c' o'
      → Steps s u (c ++ c') (o ++ o')
  Steps-trans s t u c c' o o' p q = record {
    counted = q.counted;
    before = λ h. p.before (q.before h);
    projected = λ h.
        q.projected h
        ∙ rw (p.projected (q.before h)) (append_assoc (column_values I s.final_projection) c c');
    ordered = λ h.
        q.ordered h
        ∙ rw (p.ordered (q.before h)) (append_assoc (order_values I s.final_order_by) o o');
  }

  column_values-append :
      (xs ys : List ColumnInfo)
      → column_values I (xs ++ ys) ≡ column_values I xs ++ column_values I ys
  column_values-append [] ys = refl
  column_values-append (x ∷ xs) ys = ap (◌∷◌ (value I x.expr)) (column_values-append xs ys)

  order_values-append :
      (xs ys : List (Expr × Bool))
      → order_values I (xs ++ ys) ≡ order_values I xs ++ order_values I ys
  order_values-append [] ys = refl
  order_values-append ((e, desc) ∷ xs) ys = ap (◌∷◌ (value I e, desc)) (order_values-append xs ys)

  -- What the names given to the last select and to the last aggregates stand for.
  named :
      (s : Normalizing) (selected : ColumnInfo)
      → Counted s
      → HoldsColumns I 0 (s.select ++ selected ∷ [])
      → I.column (select_name (length s.select_colnames)) ≡ value I selected.expr
  named s selected c h =
      let e : length s.select_colnames ≡ 0 + length s.select = omega (arith, c.selects) in
      rw e ((HoldsColumns-append I 0 s.select (selected ∷ []) h).1.0)

  held :
      (s : Normalizing) (found : List (Aggregator × ColumnInfo))
      → Counted s
      → HoldsAggregates I 0 (s.aggregate ++ found)
      → HoldsAggregates I (length s.aggregate_colnames) found
  held s found c h =
      let e : length s.aggregate_colnames ≡ 0 + length s.aggregate = omega (arith, c.aggregates) in
      rw e ((HoldsAggregates-append I 0 s.aggregate found h).1)

  add_select-Steps :
      (info : ColumnInfo) (s : Normalizing) (expr : Expr) (found : List (Aggregator × ColumnInfo))
      (names : List Bytes)
      → Counted s
      → let x : Extracted = record { expr = expr; aggregates = found; column_names = names } in
        Means I info.expr s.aggregate_colnames x
        → Steps s (add_select info s x) (value I info.expr ∷ []) []
  unfolding add_select
  add_select-Steps info s expr [] names c m =
      let name = select_name (length s.select_colnames) in
      let column : ColumnInfo = record { expr = Expr.col_name name; name = info.name } in
      let selected : ColumnInfo = record { expr = expr; name = info.name } in
      record {
        counted = record {
          aggregates = omega (arith, m.counted, c.aggregates);
          selects = omega (
            arith,
            c.selects,
            length-append s.select_colnames (name ∷ []),
            length-append s.select (selected ∷ []),
          );
        };
        before = λ h. (h.0, (HoldsColumns-append I 0 s.select (selected ∷ []) h.1).0);
        projected = λ h.
            column_values-append s.final_projection (column ∷ [])
            ∙ ap (λ v. column_values I s.final_projection ++ v ∷ [])
                (named s selected c h.1 ∙ m.same tt);
        ordered = λ h. sym (append-nil _);
      }
  add_select-Steps info s expr (first ∷ rest) names c m =
      let column : ColumnInfo = record { expr = expr; name = info.name } in
      record {
        counted = record {
          aggregates =
              omega (arith, m.counted, c.aggregates, length-append s.aggregate (first ∷ rest));
          selects = c.selects;
        };
        before = λ h. ((HoldsAggregates-append I 0 s.aggregate (first ∷ rest) h.0).0, h.1);
        projected = λ h.
            column_values-append s.final_projection (column ∷ [])
            ∙ ap (λ v. column_values I s.final_projection ++ v ∷ [])
                (m.same (held s (first ∷ rest) c h.0));
        ordered = λ h. sym (append-nil _);
      }

  add_order-Steps :
      (e : Expr) (desc : Bool) (s : Normalizing) (expr : Expr)
      (found : List (Aggregator × ColumnInfo)) (names : List Bytes)
      → Counted s
      → let x : Extracted = record { expr = expr; aggregates = found; column_names = names } in
        Means I e s.aggregate_colnames x → Steps s (add_order desc s x) [] ((value I e, desc) ∷ [])
  unfolding add_order
  add_order-Steps e desc s expr [] names c m =
      let name = select_name (length s.select_colnames) in
      let selected : ColumnInfo = record { expr = expr; name = none } in
      record {
        counted = record {
          aggregates = omega (arith, m.counted, c.aggregates);
          selects = omega (
            arith,
            c.selects,
            length-append s.select_colnames (name ∷ []),
            length-append s.select (selected ∷ []),
          );
        };
        before = λ h. (h.0, (HoldsColumns-append I 0 s.select (selected ∷ []) h.1).0);
        projected = λ h. sym (append-nil _);
        ordered = λ h.
            order_values-append s.final_order_by ((Expr.col_name name, desc) ∷ [])
            ∙ ap (λ v. order_values I s.final_order_by ++ (v, desc) ∷ [])
                (named s selected c h.1 ∙ m.same tt);
      }
  add_order-Steps e desc s expr (first ∷ rest) names c m = record {
    counted = record {
      aggregates = omega (arith, m.counted, c.aggregates, length-append s.aggregate (first ∷ rest));
      selects = c.selects;
    };
    before = λ h. ((HoldsAggregates-append I 0 s.aggregate (first ∷ rest) h.0).0, h.1);
    projected = λ h. sym (append-nil _);
    ordered = λ h.
        order_values-append s.final_order_by ((expr, desc) ∷ [])
        ∙ ap (λ v. order_values I s.final_order_by ++ (v, desc) ∷ [])
            (m.same (held s (first ∷ rest) c h.0));
  }

  Steps-refl : (s : Normalizing) → Counted s → Steps s s [] []
  Steps-refl s c = record {
    counted = c;
    before = λ h. h;
    projected = λ h. sym (append-nil _);
    ordered = λ h. sym (append-nil _);
  }

  select_loop-Steps :
      (columns : List ColumnInfo) (s t : Normalizing)
      → Counted s
      → select_loop columns s ≡ ok t
      → Steps s t (column_values I columns) []
  unfolding select_loop
  select_loop-Steps [] s t c h = rw (← ok-injective h) (Steps-refl s c)
  select_loop-Steps (info ∷ columns) s t c h =
      let (x, g, e) =
        bind_inv (extract_aggregators info.expr s.aggregate_colnames info.name) _ t h in
      let m = extract_aggregators-Means I info.expr s.aggregate_colnames info.name x g in
      let now = add_select-Steps info s x.expr x.aggregates x.column_names c m in
      Steps-trans s (add_select info s x) t (value I info.expr ∷ []) (column_values I columns) [] []
        now (select_loop-Steps columns (add_select info s x) t now.counted e)

  order_loop-Steps :
      (order_by : List (Expr × Bool)) (s t : Normalizing)
      → Counted s
      → order_loop order_by s ≡ ok t
      → Steps s t [] (order_values I order_by)
  unfolding order_loop
  order_loop-Steps [] s t c h = rw (← ok-injective h) (Steps-refl s c)
  order_loop-Steps ((expr, desc) ∷ order_by) s t c h =
      let (x, g, e) = bind_inv (extract_aggregators expr s.aggregate_colnames none) _ t h in
      let m = extract_aggregators-Means I expr s.aggregate_colnames none x g in
      let now = add_order-Steps expr desc s x.expr x.aggregates x.column_names c m in
      Steps-trans s (add_order desc s x) t [] [] ((value I expr, desc) ∷ [])
        (order_values I order_by) now
        (order_loop-Steps order_by (add_order desc s x) t now.counted e)

  passes-value :
      (query : Query) (s : Normalizing) (b : Bool) (first final : NormalFormQuery)
      → select_loop query.select start ≡ ok s
      → passes query s b ≡ ok (first, some final)
      → HoldsAggregates I 0 first.aggregate
      → HoldsColumns I 0 first.projection
      → (column_values I final.projection ≡ column_values I query.select)
        × (order_values I final.order_by ≡ order_values I query.order_by)
  unfolding passes
  passes-value query s true first final g h ha hc =
      let (t, k, e) = bind_inv (order_loop query.order_by s) _ (first, some final) h in
      let both = ok-injective e in
      let select =
        select_loop-Steps query.select start s (record { aggregates = refl; selects = refl }) g in
      let order = order_loop-Steps query.order_by s t select.counted k in
      let all =
        Steps-trans start s t (column_values I query.select) [] [] (order_values I query.order_by)
          select order in
      let is_first : first_pass query t ≡ first = ap (λ p. p.0) both in
      let is_final : final_pass query t ≡ final = some_inj (ap (λ p. p.1) both) in
      let aggregates : HoldsAggregates I 0 (first_pass query t).aggregate = rw is_first ha in
      let selects : HoldsColumns I 0 (first_pass query t).projection = rw is_first hc in
      let holds : Holds t = (aggregates, selects) in
      rw (← is_final)
        (all.projected holds ∙ append-nil (column_values I query.select), all.ordered holds)
  passes-value query s false first final g h ha hc = cc

-- When a query is normalized into two passes, and the columns that the first returns under the names
-- `_cs{i}` and `_ca{i}` hold its select expressions and aggregates: the final pass computes the
-- values of the query's select expressions, and orders by those of its order. Each of its expressions
-- is free of aggregates, and where the query's has none either, it is only the name `_cs{i}` of a
-- column that the first pass selects.
pub normalize-value {ℓ} :
    {V : Type ℓ} (I : Interpretation V) (query : Query) (first final : NormalFormQuery)
    → normalize query ≡ ok (first, some final)
    → HoldsAggregates I 0 first.aggregate
    → HoldsColumns I 0 first.projection
    → (column_values I final.projection ≡ column_values I query.select)
      × (order_values I final.order_by ≡ order_values I query.order_by)
      × ReplacesAll (λ info. info.expr) (length first.projection) query.select final.projection
      × ReplacesAll (λ term. term.0) (length first.projection) query.order_by final.order_by
unfolding normalize
normalize-value I query first final h ha hc =
    let (s, g, e) = bind_inv (select_loop query.select start) _ (first, some final) h in
    let b = require_final_pass query s in
    let (values, order) = passes-value I query s b first final g e ha hc in
    let (projected, ordered) = passes-Replaces query s b first final g e in
    (values, order, projected, ordered)
