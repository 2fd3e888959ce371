-- ===== src/Engine/Planning/Query/Nesting.antt =====
-- Which queries `normalize` refuses, for an aggregate inside of an aggregate.
use locust_db.Prelude.{
  ◌≡◌, refl, Bool, true, false, ◌∙◌, ◌||◌, ◌&&◌, not, List, [], ◌∷◌, ◌++◌, Option, none, length,
  arith,
}
use locust_db.Errors.{Result, ok, err, type_error, ◌>>=◌, bind_inv, ok-injective}
use locust_db.Stringpack.{Bytes}
use locust_db.Syntax.Expression.{Expr}
use locust_db.Engine.Operators.MergeAggregate.{Aggregator}
use locust_db.Engine.Planning.Query.{
  ColumnInfo, Query, Extracted, Normalizing, ensure_no_aggregates, extract_aggregators, add_select,
  select_loop, add_order, order_loop, require_final_pass, start, passes, select_name, normalize,
  is_empty, is_col_name, any_computed,
}

abbrev pub has_aggregate : Expr → Bool
has_aggregate (Expr.aggregate a expr) = true
has_aggregate (Expr.func1 t expr) = has_aggregate expr
has_aggregate (Expr.func2 t expr1 expr2) = has_aggregate expr1 || has_aggregate expr2
has_aggregate (Expr.const v) = false
has_aggregate (Expr.col_name name) = false

-- An aggregate stands inside of an aggregate.
abbrev pub is_nested : Expr → Bool
is_nested (Expr.aggregate a expr) = has_aggregate expr
is_nested (Expr.func1 t expr) = is_nested expr
is_nested (Expr.func2 t expr1 expr2) = is_nested expr1 || is_nested expr2
is_nested (Expr.const v) = false
is_nested (Expr.col_name name) = false

abbrev is_aggregate : Expr → Bool
is_aggregate (Expr.aggregate a expr) = true
is_aggregate (Expr.func1 t expr) = false
is_aggregate (Expr.func2 t expr1 expr2) = false
is_aggregate (Expr.const v) = false
is_aggregate (Expr.col_name name) = false

-- Some column has an aggregate.
abbrev pub any_aggregate : List ColumnInfo → Bool
any_aggregate [] = false
any_aggregate (col_info ∷ columns) = has_aggregate col_info.expr || any_aggregate columns

-- Some column is an expression around an aggregate.
abbrev pub any_around : List ColumnInfo → Bool
any_around [] = false
any_around (col_info ∷ columns) =
    (has_aggregate col_info.expr && not (is_aggregate col_info.expr)) || any_around columns

abbrev pub any_nested : List ColumnInfo → Bool
any_nested [] = false
any_nested (col_info ∷ columns) = is_nested col_info.expr || any_nested columns

abbrev pub any_order_nested : List (Expr × Bool) → Bool
any_order_nested [] = false
any_order_nested ((expr, desc) ∷ order_by) = is_nested expr || any_order_nested order_by

-- Either the operation returns, or it fails for the reason given.
abbrev pub Refuses {ℓ} : {A : Type ℓ} → Bool → Result A → Type ℓ
Refuses true r = r ≡ err type_error
Refuses {A = A} false r = (a : A) × (r ≡ ok a)

Refuses-bind {ℓ κ} :
    {A : Type ℓ} {B : Type κ} (b c : Bool) (r : Result A) (f : A → Result B)
    → Refuses b r
    → ((a : A) → r ≡ ok a → Refuses c (f a))
    → Refuses (b || c) (r >>= f)
Refuses-bind true c r f h k = rw h refl
Refuses-bind false c r f h k = let (a, e) = h in rw e (k a e)

ensure_no_aggregates-Refuses : (e : Expr) → Refuses (has_aggregate e) (ensure_no_aggregates e)
unfolding ensure_no_aggregates
ensure_no_aggregates-Refuses (Expr.aggregate a expr) = refl
ensure_no_aggregates-Refuses (Expr.func1 t expr) = ensure_no_aggregates-Refuses expr
ensure_no_aggregates-Refuses (Expr.func2 t expr1 expr2) =
    Refuses-bind (has_aggregate expr1) (has_aggregate expr2) (ensure_no_aggregates expr1) _
      (ensure_no_aggregates-Refuses expr1) (λ _ _. ensure_no_aggregates-Refuses expr2)
ensure_no_aggregates-Refuses (Expr.const v) = (tt, refl)
ensure_no_aggregates-Refuses (Expr.col_name name) = (tt, refl)

Refuses-map {ℓ κ} :
    {A : Type ℓ} {B : Type κ} (b : Bool) (r : Result A) (f : A → B)
    → Refuses b r
    → Refuses b (r >>= λ a. ok (f a))
Refuses-map true r f h = rw h refl
Refuses-map false r f h = let (a, e) = h in rw e (f a, refl)

extract_aggregators-Refuses :
    (e : Expr) (names : List Bytes) (alias : Option Bytes)
    → Refuses (is_nested e) (extract_aggregators e names alias)
unfolding extract_aggregators
extract_aggregators-Refuses (Expr.aggregate a expr) names alias =
    Refuses-map (has_aggregate expr) (ensure_no_aggregates expr) _
      (ensure_no_aggregates-Refuses expr)
extract_aggregators-Refuses (Expr.func1 t expr) names alias =
    Refuses-map (is_nested expr) (extract_aggregators expr names alias) _
      (extract_aggregators-Refuses expr names alias)
extract_aggregators-Refuses (Expr.func2 t expr1 expr2) names alias =
    Refuses-bind (is_nested expr1) (is_nested expr2) (extract_aggregators expr1 names alias) _
      (extract_aggregators-Refuses expr1 names alias)
      (λ e1 _.
        Refuses-map (is_nested expr2) (extract_aggregators expr2 e1.column_names alias) _
          (extract_aggregators-Refuses expr2 e1.column_names alias))
extract_aggregators-Refuses (Expr.const v) names alias = (_, refl)
extract_aggregators-Refuses (Expr.col_name name) names alias = (_, refl)

select_loop-Refuses :
    (columns : List ColumnInfo) (s : Normalizing)
    → Refuses (any_nested columns) (select_loop columns s)
unfolding select_loop
select_loop-Refuses [] s = (s, refl)
select_loop-Refuses (info ∷ columns) s =
    Refuses-bind (is_nested info.expr) (any_nested columns)
      (extract_aggregators info.expr s.aggregate_colnames info.name) _
      (extract_aggregators-Refuses info.expr s.aggregate_colnames info.name)
      (λ e _. select_loop-Refuses columns (add_select info s e))

order_loop-Refuses :
    (order_by : List (Expr × Bool)) (s : Normalizing)
    → Refuses (any_order_nested order_by) (order_loop order_by s)
unfolding order_loop
order_loop-Refuses [] s = (s, refl)
order_loop-Refuses ((expr, desc) ∷ order_by) s =
    Refuses-bind (is_nested expr) (any_order_nested order_by)
      (extract_aggregators expr s.aggregate_colnames none) _
      (extract_aggregators-Refuses expr s.aggregate_colnames none)
      (λ e _. order_loop-Refuses order_by (add_order desc s e))

is_empty-append {ℓ} :
    {T : Type ℓ} (xs ys : List T) → is_empty (xs ++ ys) ≡ (is_empty xs && is_empty ys)
is_empty-append [] ys = refl
is_empty-append (x ∷ xs) ys = refl

any_computed-push :
    (xs : List ColumnInfo) (x : ColumnInfo)
    → any_computed (xs ++ x ∷ []) ≡ (any_computed xs || not (is_col_name x.expr))
any_computed-push [] x = ground arith
any_computed-push (y ∷ xs) x = ground (arith, any_computed-push xs x)

-- What extracting finds, and what it leaves at the top.
pub record Finds (e : Expr) (x : Extracted) : Type 0 where
  pub found : is_empty x.aggregates ≡ not (has_aggregate e)
  left : has_aggregate e ≡ true → is_col_name x.expr ≡ is_aggregate e

pub extract_aggregators-Finds :
    (e : Expr) (names : List Bytes) (alias : Option Bytes) (x : Extracted)
    → extract_aggregators e names alias ≡ ok x
    → Finds e x
unfolding extract_aggregators
extract_aggregators-Finds (Expr.aggregate a expr) names alias x h =
    let (_, _, e) = bind_inv (ensure_no_aggregates expr) _ x h in
    rw (← ok-injective e) (record { found = refl; left = λ _. refl })
extract_aggregators-Finds (Expr.func1 t expr) names alias x h =
    let (y, g, e) = bind_inv (extract_aggregators expr names alias) _ x h in
    let ih = extract_aggregators-Finds expr names alias y g in
    rw (← ok-injective e) (record { found = ih.found; left = λ _. refl })
extract_aggregators-Finds (Expr.func2 t expr1 expr2) names alias x h =
    let (y, g, e) = bind_inv (extract_aggregators expr1 names alias) _ x h in
    let (z, k, e') = bind_inv (extract_aggregators expr2 y.column_names alias) _ x e in
    let ih = extract_aggregators-Finds expr1 names alias y g in
    let ih' = extract_aggregators-Finds expr2 y.column_names alias z k in
    rw (← ok-injective e') (record {
      found = is_empty-append y.aggregates z.aggregates ∙ ground (arith, ih.found, ih'.found);
      left = λ _. refl;
    })
extract_aggregators-Finds (Expr.const v) names alias x h =
    rw (← ok-injective h) (record { found = refl; left = λ g. cc })
extract_aggregators-Finds (Expr.col_name name) names alias x h =
    rw (← ok-injective h) (record { found = refl; left = λ g. cc })

add_select-Finds :
    (info : ColumnInfo) (s : Normalizing) (expr : Expr) (found : List (Aggregator × ColumnInfo))
    (names : List Bytes)
    → let x : Extracted = record { expr = expr; aggregates = found; column_names = names } in
      Finds info.expr x
      → (is_empty (add_select info s x).aggregate
          ≡ (is_empty s.aggregate && not (has_aggregate info.expr)))
        × (any_computed (add_select info s x).final_projection ≡ (
            any_computed s.final_projection
            || (has_aggregate info.expr && not (is_aggregate info.expr))))
unfolding add_select
add_select-Finds info s expr [] names f =
    let column : ColumnInfo = record {
      expr = Expr.col_name (select_name (length s.select_colnames));
      name = info.name;
    } in
    (ground (arith, f.found), ground (arith, f.found, any_computed-push s.final_projection column))
add_select-Finds info s expr (first ∷ rest) names f =
    let column : ColumnInfo = record { expr = expr; name = info.name } in
    let has : has_aggregate info.expr ≡ true = ground (arith, f.found) in
    (
      ground (arith, has, is_empty-append s.aggregate (first ∷ rest)),
      ground (arith, has, f.left has, any_computed-push s.final_projection column),
    )

select_loop-Finds :
    (columns : List ColumnInfo) (s t : Normalizing)
    → select_loop columns s ≡ ok t
    → (is_empty t.aggregate ≡ (is_empty s.aggregate && not (any_aggregate columns)))
      × (any_computed t.final_projection ≡ (any_computed s.final_projection || any_around columns))
unfolding select_loop
select_loop-Finds [] s t h = rw (← ok-injective h) (ground arith)
select_loop-Finds (info ∷ columns) s t h =
    let (x, g, e) = bind_inv (extract_aggregators info.expr s.aggregate_colnames info.name) _ t h in
    let f = extract_aggregators-Finds info.expr s.aggregate_colnames info.name x g in
    let (none_now, computed) = add_select-Finds info s x.expr x.aggregates x.column_names f in
    let (none_later, computed_later) = select_loop-Finds columns (add_select info s x) t e in
    ground (arith, none_now, computed, none_later, computed_later)

require_final_pass_lem :
    (query : Query) (s : Normalizing)
    → select_loop query.select start ≡ ok s
    → require_final_pass query s
      ≡ ((any_aggregate query.select && not (is_empty query.order_by)) || any_around query.select)
unfolding require_final_pass
require_final_pass_lem query s h =
    let (none_found, computed) = select_loop-Finds query.select start s h in
    ground (arith, none_found, computed)

passes-Refuses :
    (query : Query) (s : Normalizing) (final : Bool)
    → Refuses (final && any_order_nested query.order_by) (passes query s final)
unfolding passes
passes-Refuses query s true =
    Refuses-map (any_order_nested query.order_by) (order_loop query.order_by s) _
      (order_loop-Refuses query.order_by s)
passes-Refuses query s false = (_, refl)

-- `normalize` fails exactly when an aggregate is nested inside of an aggregate in the select clause,
-- or in the order of a query whose select clause has an aggregate, and thus needs the final pass. The
-- failure is a type error; otherwise it returns, whatever is nested in the filter, or in the order of
-- a query whose select clause has no aggregate.
pub normalize-Refuses :
    (query : Query)
    → Refuses
        (any_nested query.select
          || (((any_aggregate query.select && not (is_empty query.order_by))
                || any_around query.select)
              && any_order_nested query.order_by))
        (normalize query)
unfolding normalize
normalize-Refuses query =
    Refuses-bind (any_nested query.select) _ (select_loop query.select start) _
      (select_loop-Refuses query.select start)
      (λ s h.
        rw (← require_final_pass_lem query s h)
          (passes-Refuses query s (require_final_pass query s)))
