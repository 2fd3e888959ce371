-- ===== src/Engine/Operators/MergeAggregate/Union.antt =====
-- What merging two aggregated batches promises: the union of two maps that are sorted by their
-- keys, with the aggregates of a key of both combined.
use locust_db.Prelude.{◌≡◌, true, false, List, [], ◌∷◌, All, Ord}
use locust_db.Errors.{Result, ok, ◌>>=◌}
use locust_db.Engine.Operators.MergeAggregate.{Aggregator, Combinable}

-- The groups of a batch: the keys, and for each its aggregate.
abbrev pub Groups {ℓ} : Type ℓ → Type ℓ → Type ℓ
Groups K V = List (K × V)

module _ {ℓ} {K V : Type ℓ} where
  abbrev pub keys : Groups K V → List K
  keys [] = []
  keys ((k, v) ∷ rows) = k ∷ keys rows

  abbrev pub aggregates : Groups K V → List V
  aggregates [] = []
  aggregates ((k, v) ∷ rows) = v ∷ aggregates rows

  abbrev pub cons_ok : K × V → Result (Groups K V) → Result (Groups K V)
  cons_ok row rest = rest >>= λ rows. ok (row ∷ rows)

module _ {ℓ} {K : Type ℓ} ⦃o : Ord K⦄ where
  abbrev pub Above : K → List K → Type 0
  Above k ks = All (λ j. o.lt k j ≡ true) ks

  -- Sorted, and without duplicates.
  abbrev pub IsStrict : List K → Type 0
  IsStrict [] = Unit
  IsStrict (k ∷ ks) = Above k ks × IsStrict ks

  unfoldable pub union_keys : (ls rs : List K) → List K
  union_keys [] rs = rs
  union_keys (k ∷ ls) [] = k ∷ ls
  union_keys (k ∷ ls) (j ∷ rs) = elim (o.lt k j) [
    | true ↦ k ∷ union_keys ls (j ∷ rs)
    | false ↦ elim (o.lt j k) [ true ↦ j ∷ union_keys (k ∷ ls) rs | false ↦ k ∷ union_keys ls rs ]
  ]

module _ {ℓ} {K V : Type ℓ} ⦃o : Ord K⦄ ⦃c : Combinable V⦄ (aggregator : Aggregator) where
  unfoldable pub union : (ls rs : Groups K V) → Result (Groups K V)
  union [] rs = ok rs
  union ((k, v) ∷ ls) [] = ok ((k, v) ∷ ls)
  union ((k, v) ∷ ls) ((j, w) ∷ rs) = elim (o.lt k j) [
    | true ↦ cons_ok (k, v) (union ls ((j, w) ∷ rs))
    | false ↦ elim (o.lt j k) [
      | true ↦ cons_ok (j, w) (union ((k, v) ∷ ls) rs)
      | false ↦ c.combine aggregator v w >>= λ u. cons_ok (k, u) (union ls rs)
    ]
  ]
