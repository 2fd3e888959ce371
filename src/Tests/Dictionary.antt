-- ===== src/Tests/Dictionary.antt =====
-- Runs of src/engine/operators/dict_lookup.rs.
use locust_db.Prelude.{◌≡◌, ◌≢◌, ◌⊎◌, ℕ, true, some, List, [], ◌∷◌, All, get_elem?, arith}
use locust_db.Prelude.Int.{ℤ, pos, negsuc}
use locust_db.Stringpack.{Bytes}
use locust_db.Engine.Operators.DictLookup.{execute, execute_inverse}
use locust_db.Engine.Operators.DictLookup.Dictionary.{
  words, store, execute_lem, execute_inverse_lem,
}

abbrev dictionary : List Bytes
dictionary = (97 ∷ []) ∷ (98 ∷ 99 ∷ []) ∷ []

execute_lem_example :
    execute true (words dictionary) (store dictionary) (1 ∷ 0 ∷ 1 ∷ []) ((7 ∷ []) ∷ [])
    ≡ some ((98 ∷ 99 ∷ []) ∷ (97 ∷ []) ∷ (98 ∷ 99 ∷ []) ∷ [])
execute_lem_example = execute_lem true dictionary (1 ∷ 0 ∷ 1 ∷ []) ((7 ∷ []) ∷ []) (ground arith)

execute_inverse_lem_example :
    (r : ℤ) × (execute_inverse (words dictionary) (store dictionary) (98 ∷ 99 ∷ []) ≡ some r)
    × (((k : ℕ) × (r ≡ pos k) × (get_elem? dictionary k ≡ some (98 ∷ 99 ∷ [])))
        ⊎ ((r ≡ negsuc 0) × All (λ t. t ≢ (98 ∷ 99 ∷ [])) dictionary))
execute_inverse_lem_example = execute_inverse_lem dictionary (98 ∷ 99 ∷ []) (ground arith)
