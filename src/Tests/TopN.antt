-- ===== src/Tests/TopN.antt =====
-- Runs of src/engine/operators/top_n.rs, its own unit test among them.
use locust_db.Prelude.{ℕ, ◌≡◌, refl, none, some, List, [], ◌∷◌, nat_ord, arith}
use locust_db.Prelude.Arrays.{zip}
use locust_db.Engine.Operators.Comparator.{
  ElementType, Comparator, cmp_less_than, cmp_greater_than, less_than-IsOrder, less_than_flag,
}
use locust_db.Engine.Operators.TopN.{
  TopN, heap_replace, execute, execute_all, init, sort_order, finalize, fill, execute_rest,
}
use locust_db.Engine.Operators.TopN.Best.{concat, Best, execute_all-Best}

abbrev greater : Comparator ℕ
greater = cmp_greater_than ElementType.u32

abbrev keys : List ℕ
keys = 10 ∷ 20 ∷ 10 ∷ 20 ∷ 30 ∷ 15 ∷ 10 ∷ 30 ∷ []

abbrev indices : List ℕ
indices = 0 ∷ 1 ∷ 5 ∷ 2 ∷ 3 ∷ 4 ∷ 6 ∷ 7 ∷ []

replaced_root :
    (heap_replace greater keys indices 3 10 0).0 ≡ 3 ∷ 20 ∷ 10 ∷ 20 ∷ 30 ∷ 15 ∷ 10 ∷ 30 ∷ []
unfolding heap_replace
replaced_root = refl

sifted_down :
    (heap_replace greater (3 ∷ 20 ∷ 10 ∷ 20 ∷ 30 ∷ 15 ∷ 10 ∷ 30 ∷ []) indices 25 10 0).0
    ≡ 10 ∷ 20 ∷ 10 ∷ 20 ∷ 30 ∷ 15 ∷ 25 ∷ 30 ∷ []
unfolding heap_replace
sifted_down = refl

abbrev batches : List (List ℕ)
batches = (5 ∷ 9 ∷ []) ∷ (2 ∷ 7 ∷ 1 ∷ []) ∷ []

abbrev less : Comparator ℕ
less = cmp_less_than ElementType.u32

least_three :
    execute_all less (init 3) batches
    ≡ some (record { n = 3; last_index = 5; indices = 0 ∷ 4 ∷ 2 ∷ []; keys = 5 ∷ 1 ∷ 2 ∷ [] })
unfolding execute_all execute fill execute_rest less_than_flag
least_three = refl

in_order :
    finalize less
      (record { n = 3; last_index = 5; indices = 0 ∷ 4 ∷ 2 ∷ []; keys = 5 ∷ 1 ∷ 2 ∷ [] })
    ≡ 4 ∷ 2 ∷ 0 ∷ []
unfolding finalize less_than_flag
in_order = refl

-- `LIMIT 0`
no_limit : execute less (init 0) (5 ∷ []) ≡ none
unfolding execute fill execute_rest
no_limit = refl

abbrev less_u64 : Comparator ℕ
less_u64 = cmp_less_than ElementType.u64

-- The element types whose flag says that they are sorted in ascending order.
unsorted_u64 :
    execute_all less_u64 (init 2) ((1 ∷ 5 ∷ []) ∷ (3 ∷ []) ∷ [])
    ≡ some (record { n = 2; last_index = 3; indices = 0 ∷ 1 ∷ []; keys = 1 ∷ 5 ∷ [] })
unfolding execute_all execute fill execute_rest less_than_flag
unsorted_u64 = refl

sorted_against : (a b : ℕ) → sort_order less a b ≡ less.cmp b a
unfolding less_than_flag
sorted_against a b = refl

execute_all-Best_example :
    (op : TopN ℕ) × (execute_all less (init 3) batches ≡ some op)
    × Best less
        (less_than-IsOrder ElementType.u32)
        sorted_against
        3
        (zip op.keys op.indices)
        (concat batches)
execute_all-Best_example =
    execute_all-Best less (less_than-IsOrder ElementType.u32) sorted_against 3 batches (omega arith)
