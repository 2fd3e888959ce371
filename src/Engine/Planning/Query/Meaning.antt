-- ===== src/Engine/Planning/Query/Meaning.antt =====
-- The value of an expression, and of what `extract_aggregators` leaves of it.
use locust_db.Prelude.{
  ℕ, suc, ◌+◌, ◌≡◌, refl, ap, ap₂, Bool, Option, List, [], ◌∷◌, ◌++◌, length, length-append, arith,
}
use locust_db.Errors.{ok, bind_inv, ok-injective}
use locust_db.Stringpack.{Bytes}
use locust_db.Ingest.RawCol.{RawVal}
use locust_db.Engine.Operators.MergeAggregate.{Aggregator}
use locust_db.Syntax.Expression.{Expr, Func1Type, Func2Type}
use locust_db.Engine.Planning.Query.{
  ColumnInfo, Extracted, aggregate_name, select_name, ensure_no_aggregates, extract_aggregators,
}

-- The values of the columns, of the literals and of the functions, and of an aggregate over the
-- rows of a group.
pub record Interpretation {ℓ} (V : Type ℓ) : Type ℓ where
  pub column : Bytes → V
  pub literal : RawVal → V
  pub apply1 : Func1Type → V → V
  pub apply2 : Func2Type → V → V → V
  pub over_group : Aggregator → Expr → V

module _ {ℓ} {V : Type ℓ} (I : Interpretation V) where
  abbrev pub value : Expr → V
  value (Expr.col_name name) = I.column name
  value (Expr.const v) = I.literal v
  value (Expr.func1 t expr) = I.apply1 t (value expr)
  value (Expr.func2 t expr1 expr2) = I.apply2 t (value expr1) (value expr2)
  value (Expr.aggregate a expr) = I.over_group a expr

  abbrev pub column_values : List ColumnInfo → List V
  column_values [] = []
  column_values (info ∷ columns) = value info.expr ∷ column_values columns

  abbrev pub order_values : List (Expr × Bool) → List (V × Bool)
  order_values [] = []
  order_values ((expr, desc) ∷ order_by) = (value expr, desc) ∷ order_values order_by

  -- The columns `_ca{n}`, `_ca{n + 1}`... hold these aggregates.
  abbrev pub HoldsAggregates : ℕ → List (Aggregator × ColumnInfo) → Type ℓ
  HoldsAggregates n [] = Unit
  HoldsAggregates n ((a, info) ∷ aggregates) =
      (I.column (aggregate_name n) ≡ I.over_group a info.expr) × HoldsAggregates (n + 1) aggregates

  -- The columns `_cs{n}`, `_cs{n + 1}`... hold these expressions.
  abbrev pub HoldsColumns : ℕ → List ColumnInfo → Type ℓ
  HoldsColumns n [] = Unit
  HoldsColumns n (info ∷ columns) =
      (I.column (select_name n) ≡ value info.expr) × HoldsColumns (n + 1) columns

  pub HoldsAggregates-append :
      (n : ℕ) (xs ys : List (Aggregator × ColumnInfo))
      → HoldsAggregates n (xs ++ ys)
      → HoldsAggregates n xs × HoldsAggregates (n + length xs) ys
  HoldsAggregates-append n [] ys h = (tt, let e : n + 0 ≡ n = omega arith in rw e h)
  HoldsAggregates-append n (x ∷ xs) ys h =
      let (first, rest) = HoldsAggregates-append (n + 1) xs ys h.1 in
      let e : n + suc (length xs) ≡ n + 1 + length xs = omega arith in ((h.0, first), rw e rest)

  pub HoldsColumns-append :
      (n : ℕ) (xs ys : List ColumnInfo)
      → HoldsColumns n (xs ++ ys)
      → HoldsColumns n xs × HoldsColumns (n + length xs) ys
  HoldsColumns-append n [] ys h = (tt, let e : n + 0 ≡ n = omega arith in rw e h)
  HoldsColumns-append n (x ∷ xs) ys h =
      let (first, rest) = HoldsColumns-append (n + 1) xs ys h.1 in
      let e : n + suc (length xs) ≡ n + 1 + length xs = omega arith in ((h.0, first), rw e rest)

  pub record Means (e : Expr) (names : List Bytes) (x : Extracted) : Type ℓ where
    pub same : HoldsAggregates (length names) x.aggregates → value x.expr ≡ value e
    pub counted : length x.column_names ≡ length names + length x.aggregates

  pub extract_aggregators-Means :
      (e : Expr) (names : List Bytes) (alias : Option Bytes) (x : Extracted)
      → extract_aggregators e names alias ≡ ok x
      → Means e names x
  unfolding extract_aggregators
  extract_aggregators-Means (Expr.aggregate a expr) names alias x h =
      let (_, _, e) = bind_inv (ensure_no_aggregates expr) _ x h in
      rw (← ok-injective e) (record {
        same = λ b. b.0;
        counted = length-append names (aggregate_name (length names) ∷ []);
      })
  extract_aggregators-Means (Expr.func1 t expr) names alias x h =
      let (y, g, e) = bind_inv (extract_aggregators expr names alias) _ x h in
      let ih = extract_aggregators-Means expr names alias y g in
      rw (← ok-injective e)
        (record { same = λ b. ap (I.apply1 t) (ih.same b); counted = ih.counted })
  extract_aggregators-Means (Expr.func2 t expr1 expr2) names alias x h =
      let (y, g, e) = bind_inv (extract_aggregators expr1 names alias) _ x h in
      let (z, k, e') = bind_inv (extract_aggregators expr2 y.column_names alias) _ x e in
      let ih = extract_aggregators-Means expr1 names alias y g in
      let ih' = extract_aggregators-Means expr2 y.column_names alias z k in
      rw (← ok-injective e') (record {
        same = λ b.
            let (b1, b2) = HoldsAggregates-append (length names) y.aggregates z.aggregates b in
            ap₂ (I.apply2 t) (ih.same b1) (ih'.same (rw ih.counted b2));
        counted = omega (arith, ih.counted, ih'.counted, length-append y.aggregates z.aggregates);
      })
  extract_aggregators-Means (Expr.const v) names alias x h =
      rw (← ok-injective h) (record { same = λ _. refl; counted = omega arith })
  extract_aggregators-Means (Expr.col_name name) names alias x h =
      rw (← ok-injective h) (record { same = λ _. refl; counted = omega arith })
