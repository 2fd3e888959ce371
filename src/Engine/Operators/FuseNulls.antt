-- ===== src/Engine/Operators/FuseNulls.antt =====
-- src/engine/operators/fuse_nulls.rs: a nullable column as one of plain values, and back. A loop
-- returns what it pushes. `FuseIntNulls` is modelled for the unsigned types, of `w` bits.
pub mod Rows
pub mod Roundtrip
use locust_db.Prelude.{
  ℕ, ◌+◌, ◌-◌, ◌%◌, ◌^◌, Bool, Option, none, some, List, [], ◌∷◌, ◌++◌, ◌/◌, ◌==◌, if◌then◌else◌,
  length, replicate,
}
use locust_db.Prelude.Int.{ℤ, negsuc, eq_ℤ}
use locust_db.Bitvec
use locust_db.Stringpack.{Bytes}

-- `if stream { v.clear(); }`
abbrev pub start {ℓ} : {T : Type ℓ} → Bool → List T → List T
start stream v = if stream then [] else v

abbrev pub i64_null : ℤ
i64_null = negsuc (2 ^ 63 - 1)

-- `vec![0u8; len / 8 + 1]`
abbrev pub no_bits : (len : ℕ) → List ℕ
no_bits len = replicate (len / 8 + 1) 0

unfoldable pub fuse_i64_loop : (present : List ℕ) (i : ℕ) → List ℤ → List ℤ
fuse_i64_loop present i [] = []
fuse_i64_loop present i (x ∷ input) =
    (if Bitvec.is_set present i then x else i64_null) ∷ fuse_i64_loop present (i + 1) input

-- `FuseNullsI64`
unfoldable pub fuse_i64 :
    (stream : Bool) (input : List ℤ) (present : List ℕ) (fused : List ℤ) → List ℤ
unfolding fuse_i64_loop
fuse_i64 stream input present fused = start stream fused ++ fuse_i64_loop present 0 input

unfoldable pub unfuse_i64_loop : (i : ℕ) (present : List ℕ) → List ℤ → List ℕ
unfuse_i64_loop i present [] = present
unfuse_i64_loop i present (x ∷ fused) =
    unfuse_i64_loop (i + 1) (if eq_ℤ x i64_null then present else Bitvec.set present i) fused

-- `UnfuseNullsI64`, which writes the present bits; the values stay where they are
unfoldable pub unfuse_i64 : (fused : List ℤ) → List ℕ
unfolding unfuse_i64_loop
unfuse_i64 fused = unfuse_i64_loop 0 (no_bits (length fused)) fused

unfoldable pub fuse_str_loop : (present : List ℕ) (i : ℕ) → List Bytes → List (Option Bytes)
fuse_str_loop present i [] = []
fuse_str_loop present i (x ∷ input) =
    (if Bitvec.is_set present i then some x else none) ∷ fuse_str_loop present (i + 1) input

-- `FuseNullsStr`
unfoldable pub fuse_str :
    (stream : Bool) (input : List Bytes) (present : List ℕ) (fused : List (Option Bytes))
    → List (Option Bytes)
unfolding fuse_str_loop
fuse_str stream input present fused = start stream fused ++ fuse_str_loop present 0 input

unfoldable pub unfuse_str_loop :
    (i : ℕ) (present : List ℕ) → List (Option Bytes) → List Bytes × List ℕ
unfuse_str_loop i present [] = ([], present)
unfuse_str_loop i present (none ∷ fused) =
    let (values, bits) = unfuse_str_loop (i + 1) present fused in ([] ∷ values, bits)
unfuse_str_loop i present (some s ∷ fused) =
    let (values, bits) = unfuse_str_loop (i + 1) (Bitvec.set present i) fused in (s ∷ values, bits)

-- `UnfuseNullsStr`: the values, with "" for a null, and the present bits
unfoldable pub unfuse_str :
    (stream : Bool) (fused : List (Option Bytes)) (values : List Bytes) → List Bytes × List ℕ
unfolding unfuse_str_loop
unfuse_str stream fused values =
    let (pushed, bits) = unfuse_str_loop 0 (no_bits (length fused)) fused in
    (start stream values ++ pushed, bits)

module _ (w offset : ℕ) where
  unfoldable pub fuse_int_loop : (present : List ℕ) (i : ℕ) → List ℕ → List ℕ
  fuse_int_loop present i [] = []
  fuse_int_loop present i (x ∷ input) =
      (if Bitvec.is_set present i then (x + offset) % 2 ^ w else 0)
      ∷ fuse_int_loop present (i + 1) input

  -- `FuseIntNulls`
  unfoldable pub fuse_int : (stream : Bool) (input present fused : List ℕ) → List ℕ
  unfolding fuse_int_loop
  fuse_int stream input present fused = start stream fused ++ fuse_int_loop present 0 input

  unfoldable pub unfuse_int_loop : (i : ℕ) (present : List ℕ) → List ℕ → List ℕ × List ℕ
  unfuse_int_loop i present [] = ([], present)
  unfuse_int_loop i present (x ∷ fused) =
      let (values, bits) =
        unfuse_int_loop (i + 1) (if x == 0 then present else Bitvec.set present i) fused in
      ((if x == 0 then 0 else (x + 2 ^ w - offset) % 2 ^ w) ∷ values, bits)

  -- `UnfuseIntNulls`: the values, with 0 for a null, and the present bits
  unfoldable pub unfuse_int : (stream : Bool) (fused values : List ℕ) → List ℕ × List ℕ
  unfolding unfuse_int_loop
  unfuse_int stream fused values =
      let (pushed, bits) = unfuse_int_loop 0 (no_bits (length fused)) fused in
      (start stream values ++ pushed, bits)
