-- ===== src/MemStore/RawCol/Builders.antt =====
-- src/mem_store/raw_col.rs: what the loops of `MixedCol::finalize` push to the builders.
use locust_db.Prelude.{
  ℕ, ◌+◌, ◌^◌, ◌<◌, ◌≡◌, refl, sym, ap, ◌∙◌, Bool, true, false, ◌&&◌, Option, some, none, List, [],
  ◌∷◌, ◌++◌, append_assoc, append-nil, map, length, All, arith,
}
use locust_db.Prelude.Int.{ℤ, pos, IsI64}
use locust_db.Errors.{ok}
use locust_db.Stringpack.{Bytes}
use locust_db.Stringpack.IndexedPackedStrings
use locust_db.MemStore.ColumnBuilder
use locust_db.MemStore.ColumnBuilder.Bounds.{IsElem}
use locust_db.MemStore.ColumnBuilder.StringCol
use locust_db.MemStore.ColumnBuilder.FloatCol
use locust_db.MemStore.Strings.{packs_hex}
use locust_db.MemStore.Strings.Sizes.{IsShort, total}
use locust_db.Ingest.RawCol.{RawVal, int, float, str, null}
use locust_db.Ingest.RawCol.{ColType}
use locust_db.Ingest.RawCol.Typed.{Covers}
use locust_db.MemStore.RawCol.{int_elem, push_ints, float_elem, push_floats, text_of, push_texts}

abbrev pub all : (Bytes → Bool) → List Bytes → Bool
all p [] = true
all p (s ∷ ss) = p s && all p ss

-- Strings that fit the packed mapping and do not look like hex.
pub record Stores (ss : List Bytes) : Type 0 where
  pub short : IsShort ss
  pub bytes : total ss < 2 ^ 40
  pub rows : length ss < 2 ^ 32
  pub not_hex :
      packs_hex
        (all StringCol.is_lowercase_hex ss)
        (all StringCol.is_uppercase_hex ss)
        (total ss)
        (length ss)
      ≡ false

-- What an integer column has of a value, and a float column.
abbrev pub int_of : RawVal → Option ℤ
int_of (int i) = some i
int_of _ = none

abbrev pub float_of : (int_to_float : ℤ → ℕ) → RawVal → ℕ
float_of int_to_float (int i) = int_to_float i
float_of int_to_float (float f) = f
float_of int_to_float _ = 0

abbrev pub IsNumber : RawVal → Type 0
IsNumber (int i) = IsI64 i
IsNumber _ = Unit

pub push_ints_lem :
    (types : ColType) (values : List RawVal) (builder : ColumnBuilder.IntColBuilder)
    → types.contains_string ≡ false
    → types.contains_float ≡ false
    → All (Covers types) values
    → push_ints values builder ≡ ok (ColumnBuilder.push_all builder (map int_of values))
unfolding push_ints ColumnBuilder.push_all int_elem
push_ints_lem types [] builder h k c = refl
push_ints_lem types (int i ∷ values) builder h k c =
    push_ints_lem types values (ColumnBuilder.push builder (some i)) h k c.1
push_ints_lem types (null ∷ values) builder h k c =
    push_ints_lem types values (ColumnBuilder.push builder none) h k c.1
push_ints_lem types (float f ∷ values) builder h k c = cc (c.0, k)
push_ints_lem types (str s ∷ values) builder h k c = cc (c.0, h)

pub push_floats_lem :
    (int_to_float : ℤ → ℕ) (types : ColType) (values : List RawVal)
    (builder : FloatCol.FloatColBuilder)
    → types.contains_string ≡ false
    → All (Covers types) values
    → push_floats int_to_float values builder
      ≡ ok (record { values = builder.values ++ map (float_of int_to_float) values })
unfolding push_floats float_elem FloatCol.push
push_floats_lem int_to_float types [] builder h c =
    ap (λ values. ok (record { values = values })) (sym (append-nil builder.values))
push_floats_lem int_to_float types (int i ∷ values) builder h c =
    push_floats_lem int_to_float types values _ h c.1
    ∙ ap (λ values. ok (record { values = values })) (append_assoc builder.values _ _)
push_floats_lem int_to_float types (null ∷ values) builder h c =
    push_floats_lem int_to_float types values _ h c.1
    ∙ ap (λ values. ok (record { values = values })) (append_assoc builder.values _ _)
push_floats_lem int_to_float types (float f ∷ values) builder h c =
    push_floats_lem int_to_float types values _ h c.1
    ∙ ap (λ values. ok (record { values = values })) (append_assoc builder.values _ _)
push_floats_lem int_to_float types (str s ∷ values) builder h c = cc (c.0, h)

-- What the builder of strings has counted.
pub record Counted (before after : StringCol.StringColBuilder) (ss : List Bytes) : Type 0 where
  pub packed : after.values ≡ IndexedPackedStrings.push_all before.values ss
  pub lower : after.lhex ≡ before.lhex && all StringCol.is_lowercase_hex ss
  pub upper : after.uhex ≡ before.uhex && all StringCol.is_uppercase_hex ss
  pub bytes : after.string_bytes ≡ before.string_bytes + total ss

and_assoc : (a b c : Bool) → ((a && b) && c) ≡ (a && (b && c))
and_assoc true b c = refl
and_assoc false b c = refl

pub push_texts-Counted :
    (float_to_string : ℕ → Bytes) (values : List RawVal) (builder : StringCol.StringColBuilder)
    → Counted builder
        (push_texts float_to_string values builder)
        (map (text_of float_to_string) values)
unfolding push_texts StringCol.push IndexedPackedStrings.push_all
push_texts-Counted float_to_string [] builder = record {
  packed = refl;
  lower = ground arith;
  upper = ground arith;
  bytes = omega arith;
}
push_texts-Counted float_to_string (v ∷ values) builder =
    let s = text_of float_to_string v in
    let rest = push_texts-Counted float_to_string values (StringCol.push builder s) in
    record {
      packed = rest.packed;
      lower = rest.lower ∙ and_assoc builder.lhex (StringCol.is_lowercase_hex s) _;
      upper = rest.upper ∙ and_assoc builder.uhex (StringCol.is_uppercase_hex s) _;
      bytes = omega (arith, rest.bytes);
    }

pub plus_zero : (n : ℕ) → 0 + n ≡ n
plus_zero n = omega arith

zero-IsI64 : IsI64 (pos 0)
zero-IsI64 = record { above = omega arith; below = omega arith }

pub map-map {ℓ κ μ} :
    {A : Type ℓ} {B : Type κ} {C : Type μ} (g : B → C) (f : A → B) (xs : List A)
    → map g (map f xs) ≡ map (λ x. g (f x)) xs
map-map g f [] = refl
map-map g f (x ∷ xs) = ap (◌∷◌ (g (f x))) (map-map g f xs)

pub map-int_of : (values : List RawVal) → All IsNumber values → All IsElem (map int_of values)
map-int_of [] h = tt
map-int_of (int i ∷ values) h = (h.0, map-int_of values h.1)
map-int_of (float f ∷ values) h = (zero-IsI64, map-int_of values h.1)
map-int_of (str s ∷ values) h = (zero-IsI64, map-int_of values h.1)
map-int_of (null ∷ values) h = (zero-IsI64, map-int_of values h.1)
