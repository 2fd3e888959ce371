-- ===== src/Engine/Operators/IsNull.antt =====
-- src/engine/operators/is_null.rs: which rows of a nullable column are null, as bytes. A loop over
-- the rows from `i` on returns what it pushes.
pub mod Partition
use locust_db.Prelude.{ℕ, zero, suc, ◌+◌, Bool, List, [], ◌∷◌, ◌++◌, if◌then◌else◌}
use locust_db.Bitvec

unfoldable pub is_null_loop : (present : List ℕ) (i rows : ℕ) → List ℕ
is_null_loop present i zero = []
is_null_loop present i (suc rows) =
    (if Bitvec.is_set present i then 0 else 1) ∷ is_null_loop present (i + 1) rows

-- `IsNull::execute`
unfoldable pub is_null : (stream : Bool) (len : ℕ) (present is_null : List ℕ) → List ℕ
unfolding is_null_loop
is_null stream len present out = (if stream then [] else out) ++ is_null_loop present 0 len

unfoldable pub is_not_null_loop : (present : List ℕ) (i rows : ℕ) → List ℕ
is_not_null_loop present i zero = []
is_not_null_loop present i (suc rows) =
    (if Bitvec.is_set present i then 1 else 0) ∷ is_not_null_loop present (i + 1) rows

-- `IsNotNull::execute`
unfoldable pub is_not_null : (stream : Bool) (len : ℕ) (present is_not_null : List ℕ) → List ℕ
unfolding is_not_null_loop
is_not_null stream len present out = (if stream then [] else out) ++ is_not_null_loop present 0 len
