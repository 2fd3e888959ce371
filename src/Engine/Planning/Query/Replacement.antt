-- ===== src/Engine/Planning/Query/Replacement.antt =====
-- src/engine/planning/query.rs: what stands in the final pass for the expressions of a query.
use locust_db.Prelude.{
  ◌+◌, ℕ, ◌≤◌, ◌<◌, ◌≡◌, refl, ap, sym, ◌∙◌, Bool, true, false, not, none, some, some_inj, List, [],
  ◌∷◌, ◌++◌, append_assoc, append-nil, length, length-append, arith,
}
use locust_db.Errors.{ok, bind_inv, ok-injective}
use locust_db.Stringpack.{Bytes}
use locust_db.Engine.Operators.MergeAggregate.{Aggregator}
use locust_db.Syntax.Expression.{Expr}
use locust_db.Engine.Planning.Query.{
  Query, NormalFormQuery, start, first_pass, final_pass, passes, ColumnInfo, Extracted, Normalizing,
  select_name, extract_aggregators, add_select, select_loop, add_order, order_loop, is_empty,
}
use locust_db.Engine.Planning.Query.Nesting.{has_aggregate, extract_aggregators-Finds}
use locust_db.Engine.Planning.Query.NormalForm.{Plain, extract_aggregators-Plain}

-- `after` stands for `before` in a final pass: it has no aggregate, and if `before` has none, it is
-- the name of one of the `n` columns that the first pass selects.
abbrev pub Replaces : (n : ℕ) (before after : Expr) → Type 0
Replaces n before after =
    (has_aggregate after ≡ false)
    × (has_aggregate before ≡ false → (i : ℕ) × (i < n) × (after ≡ Expr.col_name (select_name i)))

-- One by one.
abbrev pub ReplacesAll {ℓ} :
    {A : Type ℓ} (expr : A → Expr) (n : ℕ) → (before after : List A) → Type 0
ReplacesAll expr n [] [] = Unit
ReplacesAll expr n [] (y ∷ ys) = ⊥
ReplacesAll expr n (x ∷ xs) [] = ⊥
ReplacesAll expr n (x ∷ xs) (y ∷ ys) = Replaces n (expr x) (expr y) × ReplacesAll expr n xs ys

Replaces-more : (m n : ℕ) (e e' : Expr) → m ≤ n → Replaces m e e' → Replaces n e e'
Replaces-more m n e e' h (plain, r) =
    (plain, λ k. let (i, lt, same) = r k in (i, omega arith, same))

-- The next name of a selected column.
Replaces-name :
    (names : List Bytes) (name : Bytes) (e : Expr)
    → Replaces (length (names ++ name ∷ [])) e (Expr.col_name (select_name (length names)))
Replaces-name names name e =
    (refl, λ _. (length names, omega (arith, length-append names (name ∷ [])), refl))

-- From `s` to `t`, these columns were added to the final pass, and these terms to its order.
record Adds (s t : Normalizing) (columns : List ColumnInfo) (order : List (Expr × Bool))
    : Type 0 where
  projected : t.final_projection ≡ s.final_projection ++ columns
  ordered : t.final_order_by ≡ s.final_order_by ++ order
  more : length s.select_colnames ≤ length t.select_colnames
  named : length t.select_colnames + length s.select ≡ length s.select_colnames + length t.select

Adds-trans :
    (s t u : Normalizing) (c c' : List ColumnInfo) (o o' : List (Expr × Bool))
    → Adds s t c o
    → Adds t u c' o'
    → Adds s u (c ++ c') (o ++ o')
Adds-trans s t u c c' o o' p q = record {
  projected = q.projected ∙ rw p.projected (append_assoc s.final_projection c c');
  ordered = q.ordered ∙ rw p.ordered (append_assoc s.final_order_by o o');
  more = omega (arith, p.more, q.more);
  named = omega (arith, p.named, q.named);
}

Adds-refl : (s : Normalizing) → Adds s s [] []
Adds-refl s = record {
  projected = sym (append-nil s.final_projection);
  ordered = sym (append-nil s.final_order_by);
  more = omega arith;
  named = omega arith;
}

add_select-Adds :
    (info : ColumnInfo) (s : Normalizing) (expr : Expr) (found : List (Aggregator × ColumnInfo))
    (names : List Bytes)
    → is_empty found ≡ not (has_aggregate info.expr)
    → Plain expr
    → (let x : Extracted = record { expr = expr; aggregates = found; column_names = names } in
        let t = add_select info s x in
        (column : ColumnInfo) × Adds s t (column ∷ []) []
        × Replaces (length t.select_colnames) info.expr column.expr)
unfolding add_select
add_select-Adds info s expr [] names h plain = (
  _,
  record {
    projected = refl;
    ordered = sym (append-nil s.final_order_by);
    more =
        omega
          (arith, length-append s.select_colnames (select_name (length s.select_colnames) ∷ []));
    named = omega (
      arith,
      length-append s.select_colnames (select_name (length s.select_colnames) ∷ []),
      length-append s.select (record { expr = expr; name = info.name } ∷ []),
    );
  },
  Replaces-name s.select_colnames (select_name (length s.select_colnames)) info.expr,
)
add_select-Adds info s expr (first ∷ rest) names h plain = (
  _,
  record {
    projected = refl;
    ordered = sym (append-nil s.final_order_by);
    more = omega arith;
    named = omega arith;
  },
  (plain, λ k. ground (arith, h)),
)

add_order-Adds :
    (e : Expr) (desc : Bool) (s : Normalizing) (expr : Expr)
    (found : List (Aggregator × ColumnInfo)) (names : List Bytes)
    → is_empty found ≡ not (has_aggregate e)
    → Plain expr
    → (let x : Extracted = record { expr = expr; aggregates = found; column_names = names } in
        let t = add_order desc s x in
        (term : Expr × Bool) × Adds s t [] (term ∷ [])
        × Replaces (length t.select_colnames) e term.0)
unfolding add_order
add_order-Adds e desc s expr [] names h plain = (
  _,
  record {
    projected = sym (append-nil s.final_projection);
    ordered = refl;
    more =
        omega
          (arith, length-append s.select_colnames (select_name (length s.select_colnames) ∷ []));
    named = omega (
      arith,
      length-append s.select_colnames (select_name (length s.select_colnames) ∷ []),
      length-append s.select (record { expr = expr; name = none } ∷ []),
    );
  },
  Replaces-name s.select_colnames (select_name (length s.select_colnames)) e,
)
add_order-Adds e desc s expr (first ∷ rest) names h plain = (
  _,
  record {
    projected = sym (append-nil s.final_projection);
    ordered = refl;
    more = omega arith;
    named = omega arith;
  },
  (plain, λ k. ground (arith, h)),
)

select_loop-Replaces :
    (columns : List ColumnInfo) (s t : Normalizing)
    → select_loop columns s ≡ ok t
    → (added : List ColumnInfo) × Adds s t added []
      × ReplacesAll (λ info. info.expr) (length t.select_colnames) columns added
unfolding select_loop
select_loop-Replaces [] s t h = rw (← ok-injective h) ([], Adds-refl s, tt)
select_loop-Replaces (info ∷ columns) s t h =
    let (x, g, e) = bind_inv (extract_aggregators info.expr s.aggregate_colnames info.name) _ t h in
    let finds = extract_aggregators-Finds info.expr s.aggregate_colnames info.name x g in
    let plain = extract_aggregators-Plain info.expr s.aggregate_colnames info.name x g in
    let (column, adds, now) =
      add_select-Adds info s x.expr x.aggregates x.column_names finds.found plain.expr_plain in
    let (added, later, rest) = select_loop-Replaces columns (add_select info s x) t e in
    (
      column ∷ added,
      Adds-trans s (add_select info s x) t (column ∷ []) added [] [] adds later,
      (Replaces-more _ _ info.expr column.expr later.more now, rest),
    )

order_loop-Replaces :
    (order_by : List (Expr × Bool)) (s t : Normalizing)
    → order_loop order_by s ≡ ok t
    → (added : List (Expr × Bool)) × Adds s t [] added
      × ReplacesAll (λ term. term.0) (length t.select_colnames) order_by added
unfolding order_loop
order_loop-Replaces [] s t h = rw (← ok-injective h) ([], Adds-refl s, tt)
order_loop-Replaces ((expr, desc) ∷ order_by) s t h =
    let (x, g, e) = bind_inv (extract_aggregators expr s.aggregate_colnames none) _ t h in
    let finds = extract_aggregators-Finds expr s.aggregate_colnames none x g in
    let plain = extract_aggregators-Plain expr s.aggregate_colnames none x g in
    let (term, adds, now) =
      add_order-Adds expr desc s x.expr x.aggregates x.column_names finds.found plain.expr_plain in
    let (added, later, rest) = order_loop-Replaces order_by (add_order desc s x) t e in
    (
      term ∷ added,
      Adds-trans s (add_order desc s x) t [] [] (term ∷ []) added adds later,
      (Replaces-more _ _ expr term.0 later.more now, rest),
    )

ReplacesAll-more {ℓ} :
    {A : Type ℓ} (expr : A → Expr) (m n : ℕ) (xs ys : List A)
    → m ≤ n
    → ReplacesAll expr m xs ys
    → ReplacesAll expr n xs ys
ReplacesAll-more expr m n [] [] h r = tt
ReplacesAll-more expr m n [] (y ∷ ys) h r = r
ReplacesAll-more expr m n (x ∷ xs) [] h r = r
ReplacesAll-more expr m n (x ∷ xs) (y ∷ ys) h (r, rs) =
    (Replaces-more m n (expr x) (expr y) h r, ReplacesAll-more expr m n xs ys h rs)

-- The final pass, if there is one.
pub passes-Replaces :
    (query : Query) (s : Normalizing) (b : Bool) (first final : NormalFormQuery)
    → select_loop query.select start ≡ ok s
    → passes query s b ≡ ok (first, some final)
    → ReplacesAll (λ info. info.expr) (length first.projection) query.select final.projection
      × ReplacesAll (λ term. term.0) (length first.projection) query.order_by final.order_by
unfolding passes
passes-Replaces query s true first final g h =
    let (t, k, e) = bind_inv (order_loop query.order_by s) _ (first, some final) h in
    let both = ok-injective e in
    let (columns, adds, selected) = select_loop-Replaces query.select start s g in
    let (terms, then_adds, ordered) = order_loop-Replaces query.order_by s t k in
    let is_first : first_pass query t ≡ first = ap (λ p. p.0) both in
    let is_final : final_pass query t ≡ final = some_inj (ap (λ p. p.1) both) in
    let projected : t.final_projection ≡ columns =
      then_adds.projected ∙ append-nil s.final_projection ∙ adds.projected in
    let order : t.final_order_by ≡ terms = then_adds.ordered ∙ ap (λ l. l ++ terms) adds.ordered in
    let names : length t.select_colnames ≡ length t.select =
      omega (arith, adds.named, then_adds.named) in
    rw (← is_first, ← is_final, projected, order, ← names)
      (
        ReplacesAll-more (λ info. info.expr) (length s.select_colnames) (length t.select_colnames)
            query.select columns then_adds.more selected,
        ordered,
      )
passes-Replaces query s false first final g h = cc
