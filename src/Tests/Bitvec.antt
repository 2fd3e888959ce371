-- ===== src/Tests/Bitvec.antt =====
-- Runs of src/bitvec.rs.
use locust_db.Prelude.{◌<◌, ◌≡◌, refl, true, [], ◌∷◌, All, length, arith}
use locust_db.Bitvec.{set, is_set}
use locust_db.Bitvec.Laws.{set_lem}

set_10 : set [] 10 ≡ 0 ∷ 4 ∷ []
unfolding set
set_10 = refl

set_lem_example :
    (is_set (set (1 ∷ []) 10) 0 ≡ true)
    × All (λ b. b < 256) (set (1 ∷ []) 10)
    × (length (set (1 ∷ []) 10) ≡ 2)
unfolding is_set
set_lem_example = set_lem (1 ∷ []) 10 0 (omega arith, tt)
