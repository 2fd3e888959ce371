-- ===== src/Engine/Operators/FuseNulls/Roundtrip.antt =====
-- Fusing the nulls of a column and unfusing them again.
use locust_db.Prelude.{
  ℕ, ◌+◌, ◌-◌, ◌%◌, ◌^◌, ◌<◌, ◌≡◌, ◌≢◌, refl, ap, ◌∙◌, Bool, true, false, inl, inr, Bool-cases, not,
  Option, none, some, List, [], ◌∷◌, ◌==◌, length, if◌then◌else◌, map, arith,
}
use locust_db.Prelude.Int.{ℤ, eq_ℤ, eq_ℤ_iff}
use native.Mathlib.Nat.{mod-eq_of_lt, add-mod_right}
use locust_db.Bitvec
use locust_db.Stringpack.{Bytes}
use locust_db.Engine.Operators.FuseNulls.{
  i64_null, no_bits, fuse_i64_loop, fuse_i64, unfuse_i64_loop, unfuse_i64, fuse_str_loop, fuse_str,
  unfuse_str_loop, unfuse_str, fuse_int_loop, fuse_int, unfuse_int_loop, unfuse_int,
}
use locust_db.Engine.Operators.FuseNulls.Rows.{mark, rows, zip_rows, rows-mark, PresentAll}

abbrev is_value : ℤ → Bool
is_value x = not (eq_ℤ x i64_null)

unfuse_i64_loop-mark :
    (i : ℕ) (present : List ℕ) (fused : List ℤ)
    → unfuse_i64_loop i present fused ≡ mark i present (map is_value fused)
unfolding unfuse_i64_loop
unfuse_i64_loop-mark i present [] = refl
unfuse_i64_loop-mark i present (x ∷ fused) = elim (Bool-cases (eq_ℤ x i64_null)) [
  | inl e ↦ rw e (unfuse_i64_loop-mark (i + 1) present fused)
  | inr e ↦ rw e (unfuse_i64_loop-mark (i + 1) (Bitvec.set present i) fused)
]

fuse_i64_loop-rows :
    (present : List ℕ) (i : ℕ) (input : List ℤ)
    → PresentAll (λ x. x ≢ i64_null) present i input
    → zip_rows (map is_value (fuse_i64_loop present i input)) (fuse_i64_loop present i input)
      ≡ rows present i input
unfolding fuse_i64_loop
fuse_i64_loop-rows present i [] h = refl
fuse_i64_loop-rows present i (x ∷ input) h = elim (Bool-cases (Bitvec.is_set present i)) [
  | inl e ↦
      rw e
        (ground (arith, h.0 e, eq_ℤ_iff x i64_null, fuse_i64_loop-rows present (i + 1) input h.1))
  | inr e ↦ rw e (ground (arith, fuse_i64_loop-rows present (i + 1) input h.1))
]

-- A nullable column of i64 without `i64::MIN` among its values holds the same rows after its nulls
-- are fused, streaming, and unfused again.
pub unfuse_i64-fuse_i64 :
    (input : List ℤ) (present : List ℕ) (fused : List ℤ)
    → PresentAll (λ x. x ≢ i64_null) present 0 input
    → rows (unfuse_i64 (fuse_i64 true input present fused)) 0 (fuse_i64 true input present fused)
      ≡ rows present 0 input
unfolding fuse_i64 unfuse_i64
unfuse_i64-fuse_i64 input present fused h =
    let out = fuse_i64_loop present 0 input in
    ap (λ bits. rows bits 0 out) (unfuse_i64_loop-mark 0 (no_bits (length out)) out)
    ∙ rows-mark out (map is_value out) (length out)
    ∙ fuse_i64_loop-rows present 0 input h

abbrev is_some : Option Bytes → Bool
is_some none = false
is_some (some s) = true

abbrev or_empty : Option Bytes → Bytes
or_empty none = []
or_empty (some s) = s

unfuse_str_loop-mark :
    (i : ℕ) (present : List ℕ) (fused : List (Option Bytes))
    → unfuse_str_loop i present fused ≡ (map or_empty fused, mark i present (map is_some fused))
unfolding unfuse_str_loop
unfuse_str_loop-mark i present [] = refl
unfuse_str_loop-mark i present (none ∷ fused) = rw (unfuse_str_loop-mark (i + 1) present fused) refl
unfuse_str_loop-mark i present (some s ∷ fused) =
    rw (unfuse_str_loop-mark (i + 1) (Bitvec.set present i) fused) refl

fuse_str_loop-rows :
    (present : List ℕ) (i : ℕ) (input : List Bytes)
    → zip_rows
        (map is_some (fuse_str_loop present i input))
        (map or_empty (fuse_str_loop present i input))
      ≡ rows present i input
unfolding fuse_str_loop
fuse_str_loop-rows present i [] = refl
fuse_str_loop-rows present i (x ∷ input) = elim (Bool-cases (Bitvec.is_set present i)) [
  | inl e ↦ rw e (ap (◌∷◌ (some x)) (fuse_str_loop-rows present (i + 1) input))
  | inr e ↦ rw e (ap (◌∷◌ none) (fuse_str_loop-rows present (i + 1) input))
]

-- A nullable column of strings holds the same rows after its nulls are fused and unfused again,
-- both operators streaming.
pub unfuse_str-fuse_str :
    (input : List Bytes) (present : List ℕ) (fused : List (Option Bytes)) (values : List Bytes)
    → let (unfused, bits) = unfuse_str true (fuse_str true input present fused) values in
      rows bits 0 unfused ≡ rows present 0 input
unfolding fuse_str unfuse_str
unfuse_str-fuse_str input present fused values =
    let out = fuse_str_loop present 0 input in
    ap (λ r. rows r.1 0 r.0) (unfuse_str_loop-mark 0 (no_bits (length out)) out)
    ∙ rows-mark (map or_empty out) (map is_some out) (length out)
    ∙ fuse_str_loop-rows present 0 input

nonzero : ℕ → Bool
nonzero x = not (x == 0)

module _ (w offset : ℕ) where
  abbrev value_of : ℕ → ℕ
  value_of x = if x == 0 then 0 else (x + 2 ^ w - offset) % 2 ^ w

  -- The shifted value is not the null, and fits the type.
  abbrev pub Fits : ℕ → Type 0
  Fits x = (0 < x + offset) × (x + offset < 2 ^ w)

  shifted :
      (x : ℕ)
      → Fits x
      → (((x + offset) % 2 ^ w == 0) ≡ false)
        × (((x + offset) % 2 ^ w + 2 ^ w - offset) % 2 ^ w ≡ x)
  shifted x h =
      let small = mod-eq_of_lt h.1 in
      let test : (x + offset == 0) ≡ false = ground (arith, h.0) in
      let back : x + offset + 2 ^ w - offset ≡ x + 2 ^ w = omega arith in
      rw small (test, rw back (add-mod_right x (2 ^ w) ∙ mod-eq_of_lt (omega (arith, h.1))))

  unfuse_int_loop-mark :
      (i : ℕ) (present fused : List ℕ)
      → unfuse_int_loop w offset i present fused
        ≡ (map value_of fused, mark i present (map nonzero fused))
  unfolding unfuse_int_loop nonzero
  unfuse_int_loop-mark i present [] = refl
  unfuse_int_loop-mark i present (x ∷ fused) = elim (Bool-cases (x == 0)) [
    | inl e ↦ rw (e, unfuse_int_loop-mark (i + 1) present fused) refl
    | inr e ↦ rw (e, unfuse_int_loop-mark (i + 1) (Bitvec.set present i) fused) refl
  ]

  fuse_int_loop-rows :
      (present : List ℕ) (i : ℕ) (input : List ℕ)
      → PresentAll Fits present i input
      → zip_rows
          (map nonzero (fuse_int_loop w offset present i input))
          (map value_of (fuse_int_loop w offset present i input))
        ≡ rows present i input
  unfolding fuse_int_loop nonzero
  fuse_int_loop-rows present i [] h = refl
  fuse_int_loop-rows present i (x ∷ input) h = elim (Bool-cases (Bitvec.is_set present i)) [
    | inl e ↦
        let (test, back) = shifted x (h.0 e) in
        rw (e, test, back) (ap (◌∷◌ (some x)) (fuse_int_loop-rows present (i + 1) input h.1))
    | inr e ↦ rw e (ap (◌∷◌ none) (fuse_int_loop-rows present (i + 1) input h.1))
  ]

  -- A nullable column of unsigned numbers whose values, shifted by the offset, are neither 0 nor
  -- past the type holds the same rows after its nulls are fused and unfused again, both operators
  -- streaming.
  pub unfuse_int-fuse_int :
      (input present fused values : List ℕ)
      → PresentAll Fits present 0 input
      → let (unfused, bits) =
          unfuse_int w offset true (fuse_int w offset true input present fused) values in
        rows bits 0 unfused ≡ rows present 0 input
  unfolding fuse_int unfuse_int
  unfuse_int-fuse_int input present fused values h =
      let out = fuse_int_loop w offset present 0 input in
      ap (λ r. rows r.1 0 r.0) (unfuse_int_loop-mark 0 (no_bits (length out)) out)
      ∙ rows-mark (map value_of out) (map nonzero out) (length out)
      ∙ fuse_int_loop-rows present 0 input h
