-- ===== src/Tests/Stringpack.antt =====
-- Runs of src/stringpack.rs.
use locust_db.Prelude.{
  ◌^◌, ◌≤◌, ◌≡◌, ◌≢◌, refl, some, List, [], ◌∷◌, ℕ, length, length-replicate, replicate, arith,
}
use locust_db.Stringpack.{Bytes, from_slice}
use locust_db.Stringpack.PackedStrings
use locust_db.Stringpack.PackedBytes
use locust_db.Stringpack.PackedBytes.Equivalence.{packers_agree}
use locust_db.Stringpack.IndexedPackedStrings.{default, push_all, iter, len}
use locust_db.Stringpack.IndexedPackedStrings.Roundtrip.{iter-push_all}
use locust_db.Stringpack.IndexedPackedStrings.Overflow.{push_all_long}
use locust_db.Engine.Operators.UnpackStrings.{UnpackStrings}

-- "ab", "", "c"
abbrev strings : List Bytes
strings = (97 ∷ 98 ∷ []) ∷ [] ∷ (99 ∷ []) ∷ []

packed : (PackedStrings.from_iterator strings).bytes ≡ 2 ∷ 97 ∷ 98 ∷ 0 ∷ 1 ∷ 99 ∷ []
unfolding PackedStrings.from_iterator
packed = refl

packers_agree_example :
    ((PackedBytes.from_iterator strings).bytes ≡ (PackedStrings.from_iterator strings).bytes)
    × (PackedBytes.next (from_slice (1 ∷ 97 ∷ [])) ≡ PackedStrings.next (from_slice (1 ∷ 97 ∷ [])))
packers_agree_example = packers_agree strings (from_slice (1 ∷ 97 ∷ []))

iter-push_all_example :
    (iter (push_all default strings) ≡ some strings) × (len (push_all default strings) ≡ 3)
iter-push_all_example = iter-push_all strings (ground arith)

unfoldable long_string : ℕ → Bytes
long_string n = replicate n 0

long_string_lem : (n : ℕ) → n ≤ length (long_string n)
unfolding long_string
long_string_lem n = omega (arith, length-replicate {A = ℕ} n 0)

push_all_long_example :
    iter (push_all default (long_string (2 ^ 24) ∷ [])) ≢ some (long_string (2 ^ 24) ∷ [])
push_all_long_example =
    push_all_long (long_string (2 ^ 24) ∷ []) 0 (long_string (2 ^ 24)) refl
      (long_string_lem (2 ^ 24))
