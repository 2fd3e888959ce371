-- ===== src/Ingest/RawCol/Typed.antt =====
-- src/mem_store/raw_col.rs: the flags of a column in memory, against its values.
use locust_db.Prelude.{
  ℕ, ◌≡◌, refl, true, List, [], ◌∷◌, ◌++◌, map, replicate, All, All-append, All-imp, arith, zero,
  suc,
}
use locust_db.Prelude.Int.{ℤ}
use locust_db.Stringpack.{Bytes}
use locust_db.Ingest.RawCol.{
  RawVal, int, float, str, null, ColType, MixedCol, bitor, determine, int_type, float_type,
  string_type, null_type, nothing, push, push_ints, push_floats, push_strings, push_nulls,
  with_nulls,
}

-- The flag of a value's type is set.
abbrev pub Covers : ColType → RawVal → Type 0
Covers types (int i) = types.contains_int ≡ true
Covers types (float f) = types.contains_float ≡ true
Covers types (str s) = types.contains_string ≡ true
Covers types null = types.contains_null ≡ true

abbrev pub IsTyped : MixedCol → Type 0
IsTyped col = All (Covers col.types) col.values

Covers-determine : (v : RawVal) → Covers (determine v) v
Covers-determine (int i) = refl
Covers-determine (float f) = refl
Covers-determine (str s) = refl
Covers-determine null = refl

Covers-bitor_left : (s t : ColType) (v : RawVal) → Covers s v → Covers (bitor s t) v
Covers-bitor_left s t (int i) h = rw h refl
Covers-bitor_left s t (float f) h = rw h refl
Covers-bitor_left s t (str b) h = rw h refl
Covers-bitor_left s t null h = rw h refl

Covers-bitor_right : (s t : ColType) (v : RawVal) → Covers t v → Covers (bitor s t) v
Covers-bitor_right s t (int i) h = ground (arith, h)
Covers-bitor_right s t (float f) h = ground (arith, h)
Covers-bitor_right s t (str b) h = ground (arith, h)
Covers-bitor_right s t null h = ground (arith, h)

-- Values of another type are added, and its flags with them.
grow :
    (col : MixedCol) (t : ColType) (values : List RawVal)
    → IsTyped col
    → All (Covers t) values
    → All (Covers (bitor col.types t)) (col.values ++ values)
grow col t values h k =
    All-append _ col.values values (All-imp _ _ col.values (Covers-bitor_left col.types t) h)
      (All-imp _ _ values (Covers-bitor_right col.types t) k)

All-map_const {ℓ} :
    {A : Type ℓ} (t : ColType) (f : A → RawVal) (xs : List A)
    → ((x : A) → Covers t (f x))
    → All (Covers t) (map f xs)
All-map_const t f [] h = tt
All-map_const t f (x ∷ xs) h = (h x, All-map_const t f xs h)

All-replicate_null : (n : ℕ) → All (Covers null_type) (replicate n null)
All-replicate_null zero = tt
All-replicate_null (suc n) = (refl, All-replicate_null n)

pub push-IsTyped : (col : MixedCol) (v : RawVal) → IsTyped col → IsTyped (push col v)
unfolding push
push-IsTyped col v h = grow col (determine v) (v ∷ []) h (Covers-determine v, tt)

pub push_ints-IsTyped :
    (col : MixedCol) (ints : List ℤ) → IsTyped col → IsTyped (push_ints col ints)
unfolding push_ints
push_ints-IsTyped col ints h = grow col int_type _ h (All-map_const int_type int ints (λ i. refl))

pub push_floats-IsTyped :
    (col : MixedCol) (floats : List ℕ) → IsTyped col → IsTyped (push_floats col floats)
unfolding push_floats
push_floats-IsTyped col floats h =
    grow col float_type _ h (All-map_const float_type float floats (λ f. refl))

pub push_strings-IsTyped :
    (col : MixedCol) (strs : List Bytes) → IsTyped col → IsTyped (push_strings col strs)
unfolding push_strings
push_strings-IsTyped col strs h =
    grow col string_type _ h (All-map_const string_type str strs (λ s. refl))

pub push_nulls-IsTyped : (col : MixedCol) (n : ℕ) → IsTyped col → IsTyped (push_nulls col n)
unfolding push_nulls
push_nulls-IsTyped col n h = grow col null_type _ h (All-replicate_null n)

pub with_nulls-IsTyped : (n : ℕ) → IsTyped (with_nulls n)
unfolding with_nulls
with_nulls-IsTyped n = push_nulls-IsTyped (record { types = nothing; values = [] }) n tt
