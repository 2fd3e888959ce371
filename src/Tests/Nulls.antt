-- ===== src/Tests/Nulls.antt =====
-- Runs of src/engine/operators/fuse_nulls.rs and is_null.rs, on columns of three rows, the second
-- null.
use mathlib.Core.List.{Perm}
use locust_db.Prelude.{ℕ, ◌≡◌, refl, true, List, [], ◌∷◌, ◌++◌, arith}
use locust_db.Prelude.Int.{ℤ, pos, negsuc}
use locust_db.Bitvec
use locust_db.Stringpack.{Bytes}
use locust_db.Engine.Operators.FuseNulls.{
  i64_null, fuse_i64, unfuse_i64, fuse_str, unfuse_str, fuse_int, unfuse_int,
}
use locust_db.Engine.Operators.FuseNulls.Rows.{rows}
use locust_db.Engine.Operators.FuseNulls.Roundtrip.{unfuse_int-fuse_int}
use locust_db.Engine.Operators.Filtering.{filter}
use locust_db.Engine.Operators.IsNull.{is_null, is_not_null}
use locust_db.Engine.Operators.IsNull.Partition.{values, is_null-filter}

abbrev present : List ℕ
present = 5 ∷ []

abbrev ints : List ℤ
ints = pos 3 ∷ pos 0 ∷ negsuc 6 ∷ []

fused_i64 : fuse_i64 true ints present [] ≡ pos 3 ∷ i64_null ∷ negsuc 6 ∷ []
unfolding fuse_i64 Bitvec.is_set
fused_i64 = refl

unfused_i64 : unfuse_i64 (fuse_i64 true ints present []) ≡ present
unfolding fuse_i64 unfuse_i64 Bitvec.is_set Bitvec.set
unfused_i64 = refl

abbrev strings : List Bytes
strings = (97 ∷ []) ∷ (98 ∷ []) ∷ [] ∷ []

unfused_str :
    unfuse_str true (fuse_str true strings present []) [] ≡ ((97 ∷ []) ∷ [] ∷ [] ∷ [], present)
unfolding fuse_str unfuse_str Bitvec.is_set Bitvec.set
unfused_str = refl

abbrev small : List ℕ
small = 3 ∷ 0 ∷ 254 ∷ []

fused_int : fuse_int 8 1 true small present [] ≡ 4 ∷ 0 ∷ 255 ∷ []
unfolding fuse_int Bitvec.is_set
fused_int = refl

unfuse_int-fuse_int_example :
    let (unfused, bits) = unfuse_int 8 1 true (fuse_int 8 1 true small present []) [] in
    rows bits 0 unfused ≡ rows present 0 small
unfuse_int-fuse_int_example = unfuse_int-fuse_int 8 1 small present [] [] (
  λ _. (omega arith, omega arith),
  (λ _. (omega arith, omega arith), (λ _. (omega arith, omega arith), tt)),
)

nulls : is_null true 3 present [] ≡ 0 ∷ 1 ∷ 0 ∷ []
unfolding is_null Bitvec.is_set
nulls = refl

is_null-filter_example :
    let kept = filter true small (is_not_null true 3 present []) [] in
    let dropped = filter true small (is_null true 3 present []) [] in
    (kept ≡ values (rows present 0 small)) × Perm (dropped ++ kept) small
is_null-filter_example = is_null-filter small present [] [] [] []
