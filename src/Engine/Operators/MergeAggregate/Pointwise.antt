-- ===== src/Engine/Operators/MergeAggregate/Pointwise.antt =====
-- The union of two sorted maps, key by key.
use locust_db.Prelude.{
  ◌≡◌, refl, ap, sym, subst, ◌∙◌, true, false, inl, inr, Bool-cases, Option, none, some, List, [],
  ◌∷◌, Ord, arith, length, if◌then◌else◌,
}
use locust_db.Errors.{Result, ok, err, panic, ok-injective, bind_inv}
use locust_db.Engine.Operators.MergeDeduplicate.{merge_deduplicate}
use locust_db.Engine.Operators.MergeAggregate.{Aggregator, Combinable, merge_aggregate}
use locust_db.Engine.Operators.MergeAggregate.Union.{
  Groups, keys, aggregates, cons_ok, Above, IsStrict, union_keys, union,
}
use locust_db.Engine.Operators.MergeAggregate.Refines.{
  union_left, union_right, union_both, merge_aggregate-union, length-keys,
}

module _ {ℓ} {K : Type ℓ} ⦃o : Ord K⦄ where
  Above-trans : (k j : K) (ks : List K) → o.lt k j ≡ true → Above j ks → Above k ks
  Above-trans k j [] h a = tt
  Above-trans k j (x ∷ ks) h a = (o.lt_trans k j x h a.0, Above-trans k j ks h a.1)

  Above-union_keys : (k : K) (ls rs : List K) → Above k ls → Above k rs → Above k (union_keys ls rs)
  unfolding union_keys
  Above-union_keys k [] rs h g = g
  Above-union_keys k (x ∷ ls) [] h g = h
  Above-union_keys k (x ∷ ls) (y ∷ rs) h g = elim (Bool-cases (o.lt x y)) [
    | inl lt ↦ rw (lt, union_keys) (h.0, Above-union_keys k ls (y ∷ rs) h.1 g)
    | inr nlt ↦ elim (Bool-cases (o.lt y x)) [
      | inl gt ↦ rw (nlt, gt, union_keys) (g.0, Above-union_keys k (x ∷ ls) rs h g.1)
      | inr ngt ↦ rw (nlt, ngt, union_keys) (h.0, Above-union_keys k ls rs h.1 g.1)
    ]
  ]

  union_keys-IsStrict : (ls rs : List K) → IsStrict ls → IsStrict rs → IsStrict (union_keys ls rs)
  unfolding union_keys
  union_keys-IsStrict [] rs h g = g
  union_keys-IsStrict (x ∷ ls) [] h g = h
  union_keys-IsStrict (x ∷ ls) (y ∷ rs) h g = elim (Bool-cases (o.lt x y)) [
    | inl lt ↦
        rw (lt, union_keys)
          (
            Above-union_keys x ls (y ∷ rs) h.0 (lt, Above-trans x y rs lt g.0),
            union_keys-IsStrict ls (y ∷ rs) h.1 g,
          )
    | inr nlt ↦ elim (Bool-cases (o.lt y x)) [
      | inl gt ↦
          rw (nlt, gt, union_keys)
            (
              Above-union_keys y (x ∷ ls) rs (gt, Above-trans y x ls gt h.0) g.0,
              union_keys-IsStrict (x ∷ ls) rs h g.1,
            )
      | inr ngt ↦
          rw (nlt, ngt, union_keys)
            (
              Above-union_keys x ls rs h.0 (rw (o.lt_connected x y nlt ngt) g.0),
              union_keys-IsStrict ls rs h.1 g.1,
            )
    ]
  ]

  gt_ne : (i k : K) → o.lt i k ≡ true → o.eq k i ≡ false
  gt_ne i k h = elim (Bool-cases (o.eq k i)) [
    | inr e ↦ e
    | inl e ↦ ground (arith, (o.eq_iff k i).0 e, o.lt_irrefl k)
  ]

module _ {ℓ} {K V : Type ℓ} ⦃o : Ord K⦄ where
  -- The aggregate of a key.
  abbrev pub value_at : K → Groups K V → Option V
  value_at i [] = none
  value_at i ((k, v) ∷ rows) = if o.eq k i then some v else value_at i rows

  value_at-Above : (i : K) (rows : Groups K V) → Above i (keys rows) → value_at i rows ≡ none
  value_at-Above i [] h = refl
  value_at-Above i ((k, v) ∷ rows) h = rw (gt_ne i k h.0) (value_at-Above i rows h.1)

cons_ok_inv {ℓ} :
    {K V : Type ℓ} (row : K × V) (rest : Result (Groups K V)) (rows : Groups K V)
    → cons_ok row rest ≡ ok rows
    → (tail : Groups K V) × (rest ≡ ok tail) × (row ∷ tail ≡ rows)
cons_ok_inv row (ok tail) rows h = (tail, refl, ok-injective h)
cons_ok_inv row (err e) rows h = cc
cons_ok_inv row panic rows h = cc

module _ {ℓ} {V : Type ℓ} ⦃c : Combinable V⦄ (aggregator : Aggregator) where
  -- The aggregate of a key of the union, from those of the two sides.
  abbrev pub Merged : Option V → Option V → Option V → Type ℓ
  Merged none w u = u ≡ w
  Merged (some v) none u = u ≡ some v
  Merged (some v) (some w) u = (x : V) × (c.combine aggregator v w ≡ ok x) × (u ≡ some x)

  Merged-none_right : (v u : Option V) → u ≡ v → Merged v none u
  Merged-none_right none u h = h
  Merged-none_right (some v) u h = h

module _ {ℓ} {K V : Type ℓ} ⦃o : Ord K⦄ ⦃c : Combinable V⦄ (aggregator : Aggregator) where
  -- What a key of the left side alone adds.
  head_left :
      (i k : K) (v : V) (ls rs rows : Groups K V)
      → value_at k rs ≡ none
      → Merged aggregator (value_at i ls) (value_at i rs) (value_at i rows)
      → Merged aggregator (value_at i ((k, v) ∷ ls)) (value_at i rs) (value_at i ((k, v) ∷ rows))
  head_left i k v ls rs rows h m = elim (Bool-cases (o.eq k i)) [
    | inr ne ↦ rw ne m
    | inl e ↦
        let absent : value_at i rs ≡ none =
          ap (λ k. value_at k rs) (sym ((o.eq_iff k i).0 e)) ∙ h in
        rw (e, absent) refl
  ]

  head_right :
      (i j : K) (w : V) (ls rs rows : Groups K V)
      → value_at j ls ≡ none
      → Merged aggregator (value_at i ls) (value_at i rs) (value_at i rows)
      → Merged aggregator (value_at i ls) (value_at i ((j, w) ∷ rs)) (value_at i ((j, w) ∷ rows))
  head_right i j w ls rs rows h m = elim (Bool-cases (o.eq j i)) [
    | inr ne ↦ rw ne m
    | inl e ↦
        let absent : value_at i ls ≡ none =
          ap (λ k. value_at k ls) (sym ((o.eq_iff j i).0 e)) ∙ h in
        rw (e, absent) refl
  ]

  head_both :
      (i k : K) (v w u : V) (ls rs rows : Groups K V)
      → c.combine aggregator v w ≡ ok u
      → Merged aggregator (value_at i ls) (value_at i rs) (value_at i rows)
      → Merged aggregator
          (value_at i ((k, v) ∷ ls))
          (value_at i ((k, w) ∷ rs))
          (value_at i ((k, u) ∷ rows))
  head_both i k v w u ls rs rows h m = elim (Bool-cases (o.eq k i)) [
    | inr ne ↦ rw ne m
    | inl e ↦ rw e (u, h, refl)
  ]

  value_at-below :
      (i k : K) (v : V) (rows : Groups K V)
      → o.lt i k ≡ true
      → Above k (keys rows)
      → value_at i ((k, v) ∷ rows) ≡ none
  value_at-below i k v rows h a =
      value_at-Above i ((k, v) ∷ rows) (h, Above-trans i k (keys rows) h a)

  union-value_at :
      (ls rs rows : Groups K V) (i : K)
      → IsStrict (keys ls)
      → IsStrict (keys rs)
      → union aggregator ls rs ≡ ok rows
      → Merged aggregator (value_at i ls) (value_at i rs) (value_at i rows)
  unfolding union
  union-value_at [] rs rows i sl sr h = ap (value_at i) (sym (ok-injective h))
  union-value_at ((k, v) ∷ ls) [] rows i sl sr h =
      Merged-none_right aggregator (value_at i ((k, v) ∷ ls)) (value_at i rows)
        (ap (value_at i) (sym (ok-injective h)))
  union-value_at ((k, v) ∷ ls) ((j, w) ∷ rs) rows i sl sr h = elim (Bool-cases (o.lt k j)) [
    | inl lt ↦
        let (tail, e, f) =
          cons_ok_inv (k, v) (union aggregator ls ((j, w) ∷ rs)) rows
            (sym (union_left aggregator k j v w ls rs lt) ∙ h) in
        rw (sym f) (
          head_left i k v ls ((j, w) ∷ rs) tail (value_at-below k j w rs lt sr.0)
            (union-value_at ls ((j, w) ∷ rs) tail i sl.1 sr e))
    | inr nlt ↦ elim (Bool-cases (o.lt j k)) [
      | inl gt ↦
          let (tail, e, f) =
            cons_ok_inv (j, w) (union aggregator ((k, v) ∷ ls) rs) rows
              (sym (union_right aggregator k j v w ls rs nlt gt) ∙ h) in
          rw (sym f) (
            head_right i j w ((k, v) ∷ ls) rs tail (value_at-below j k v ls gt sl.0)
              (union-value_at ((k, v) ∷ ls) rs tail i sl sr.1 e))
      | inr ngt ↦
          let (u, d, g) =
            bind_inv (c.combine aggregator v w) (λ u. cons_ok (k, u) (union aggregator ls rs)) rows
              (sym (union_both aggregator k j v w ls rs nlt ngt) ∙ h) in
          let (tail, e, f) = cons_ok_inv (k, u) (union aggregator ls rs) rows g in
          rw (sym f, sym (o.lt_connected k j nlt ngt))
            (head_both i k v w u ls rs tail d (union-value_at ls rs tail i sl.1 sr.1 e))
    ]
  ]

  union-keys :
      (ls rs rows : Groups K V)
      → union aggregator ls rs ≡ ok rows
      → keys rows ≡ union_keys (keys ls) (keys rs)
  unfolding union union_keys
  union-keys [] rs rows h = ap keys (sym (ok-injective h))
  union-keys ((k, v) ∷ ls) [] rows h = ap keys (sym (ok-injective h))
  union-keys ((k, v) ∷ ls) ((j, w) ∷ rs) rows h = elim (Bool-cases (o.lt k j)) [
    | inl lt ↦
        let (tail, e, f) =
          cons_ok_inv (k, v) (union aggregator ls ((j, w) ∷ rs)) rows
            (sym (union_left aggregator k j v w ls rs lt) ∙ h) in
        rw (lt, union_keys, sym f) (ap (◌∷◌ k) (union-keys ls ((j, w) ∷ rs) tail e))
    | inr nlt ↦ elim (Bool-cases (o.lt j k)) [
      | inl gt ↦
          let (tail, e, f) =
            cons_ok_inv (j, w) (union aggregator ((k, v) ∷ ls) rs) rows
              (sym (union_right aggregator k j v w ls rs nlt gt) ∙ h) in
          rw (nlt, gt, union_keys, sym f) (ap (◌∷◌ j) (union-keys ((k, v) ∷ ls) rs tail e))
      | inr ngt ↦
          let (u, d, g) =
            bind_inv (c.combine aggregator v w) (λ u. cons_ok (k, u) (union aggregator ls rs)) rows
              (sym (union_both aggregator k j v w ls rs nlt ngt) ∙ h) in
          let (tail, e, f) = cons_ok_inv (k, u) (union aggregator ls rs) rows g in
          rw (nlt, ngt, union_keys, sym f) (ap (◌∷◌ k) (union-keys ls rs tail e))
    ]
  ]

-- Two columns as groups.
abbrev pub zip {ℓ} : {K V : Type ℓ} → List K → List V → Groups K V
zip [] vs = []
zip (k ∷ ks) [] = []
zip (k ∷ ks) (v ∷ vs) = (k, v) ∷ zip ks vs

zip-keys {ℓ} : {K V : Type ℓ} (rows : Groups K V) → zip (keys rows) (aggregates rows) ≡ rows
zip-keys [] = refl
zip-keys ((k, v) ∷ rows) = ap (◌∷◌ (k, v)) (zip-keys rows)

module _ {ℓ} {K V : Type ℓ} ⦃o : Ord K⦄ ⦃c : Combinable V⦄ (aggregator : Aggregator) where
  -- When merging two batches of sorted, distinct group keys returns, the merged keys are sorted and
  -- distinct, there is one aggregate for each, and the aggregate of every key is that of the batch
  -- that has it, or the two aggregates combined where both have it; a key of neither is in neither.
  pub merge_aggregate-value_at :
      (left right : Groups K V) (result : List V) (i : K)
      → IsStrict (keys left)
      → IsStrict (keys right)
      → merge_aggregate
          (merge_deduplicate (keys left) (keys right)).1
          (aggregates left)
          (aggregates right)
          aggregator
        ≡ ok result
      → IsStrict (merge_deduplicate (keys left) (keys right)).0
        × (length (merge_deduplicate (keys left) (keys right)).0 ≡ length result)
        × Merged aggregator
            (value_at i left)
            (value_at i right)
            (value_at i (zip (merge_deduplicate (keys left) (keys right)).0 result))
  merge_aggregate-value_at left right result i sl sr h =
      let (merged, values) = merge_aggregate-union aggregator left right sl sr in
      let (rows, e, f) =
        bind_inv (union aggregator left right) (λ rows. ok (aggregates rows)) result
          (sym values ∙ h) in
      let ks = merged ∙ sym (union-keys aggregator left right rows e) in
      rw (ks, sym (ok-injective f), zip-keys rows)
        (
          subst IsStrict (sym (union-keys aggregator left right rows e))
              (union_keys-IsStrict (keys left) (keys right) sl sr),
          length-keys rows,
          union-value_at aggregator left right rows i sl sr e,
        )
