-- ===== src/MemStore/Integers/Stored.antt =====
-- The values that are stored with delta encoding, their bounds, and that `DeltaDecode` restores the
-- column.
use locust_db.Prelude.{
  ◌≡◌, refl, ap, ◌∙◌, Bool, true, false, inl, inr, Bool-cases, List, [], ◌∷◌, All, if◌then◌else◌,
  arith,
}
use locust_db.Prelude.Int.{
  ℤ, pos, ◌+ℤ◌, ◌-ℤ◌, ◌≤ℤ◌, ltb_ℤ, wrap_i64, IsI64, eq_of_parts, wrap_i64_self, wrap_i64-sub_add,
  wrap_i64-IsI64,
}
use locust_db.Engine.Operators.DeltaDecode.{delta_loop, execute}
use locust_db.Engine.Operators.DeltaDecode.Batches.{delta_loop_prefix}
use locust_db.MemStore.Integers.{delta_encode_loop, delta_encode_values}
use locust_db.MemStore.Integers.Fits.{Within}

-- The stored values lie within the bounds that come with them, which lie around the given ones.
record Bounded (min max : ℤ) (result : List ℤ × ℤ × ℤ) : Type 0 where
  values : All (Within result.1 result.2) result.0
  least : IsI64 result.1
  greatest : IsI64 result.2
  below : result.1 ≤ℤ min
  above : max ≤ℤ result.2

≤ℤ_trans : (a b c : ℤ) → a ≤ℤ b → b ≤ℤ c → a ≤ℤ c
≤ℤ_trans a b c h k = omega arith

abbrev lesser : ℤ → ℤ → ℤ
lesser curr min = if ltb_ℤ curr min then curr else min

abbrev greater : ℤ → ℤ → ℤ
greater curr max = if ltb_ℤ max curr then curr else max

lesser_lem :
    (curr min : ℤ)
    → IsI64 curr
    → IsI64 min
    → (lesser curr min ≤ℤ curr) × (lesser curr min ≤ℤ min) × IsI64 (lesser curr min)
lesser_lem curr min h k = elim (Bool-cases (ltb_ℤ curr min)) [
  | inl t ↦ rw t (ground arith, ground arith, h)
  | inr t ↦ rw t (ground arith, ground arith, k)
]

greater_lem :
    (curr max : ℤ)
    → IsI64 curr
    → IsI64 max
    → (curr ≤ℤ greater curr max) × (max ≤ℤ greater curr max) × IsI64 (greater curr max)
greater_lem curr max h k = elim (Bool-cases (ltb_ℤ max curr)) [
  | inl t ↦ rw t (ground arith, ground arith, h)
  | inr t ↦ rw t (ground arith, ground arith, k)
]

loop-Bounded :
    (previous : ℤ) (values : List ℤ) (min max : ℤ)
    → IsI64 min
    → IsI64 max
    → Bounded min max (delta_encode_loop previous values min max)
unfolding delta_encode_loop
loop-Bounded previous [] min max hmin hmax = record {
  values = tt;
  least = hmin;
  greatest = hmax;
  below = omega arith;
  above = omega arith;
}
loop-Bounded previous (tmp ∷ values) min max hmin hmax =
    let curr = wrap_i64 (tmp -ℤ previous) in
    let i64 = wrap_i64-IsI64 (tmp -ℤ previous) in
    let (low, low_min, low64) = lesser_lem curr min i64 hmin in
    let (high, high_max, high64) = greater_lem curr max i64 hmax in
    let rest = loop-Bounded tmp values (lesser curr min) (greater curr max) low64 high64 in
    let result = delta_encode_loop tmp values (lesser curr min) (greater curr max) in
    record {
      values = (
        record {
          i64 = i64;
          at_least = ≤ℤ_trans result.1 (lesser curr min) curr rest.below low;
          at_most = ≤ℤ_trans curr (greater curr max) result.2 high rest.above;
        },
        rest.values,
      );
      least = rest.least;
      greatest = rest.greatest;
      below = ≤ℤ_trans result.1 (lesser curr min) min rest.below low_min;
      above = ≤ℤ_trans max (greater curr max) result.2 high_max rest.above;
    }

-- The values that are stored, and the bounds that the width is chosen by.
pub delta_encode_values-Within :
    (delta_encode : Bool) (values : List ℤ) (min max : ℤ)
    → IsI64 min
    → IsI64 max
    → All (Within min max) values
    → (let (stored, least, greatest) = delta_encode_values delta_encode values min max in
        All (Within least greatest) stored × IsI64 least × IsI64 greatest)
unfolding delta_encode_values
delta_encode_values-Within delta_encode [] min max hmin hmax h = (tt, hmin, hmax)
delta_encode_values-Within false (v ∷ values) min max hmin hmax h = (h, hmin, hmax)
delta_encode_values-Within true (v ∷ values) min max hmin hmax h =
    let rest = loop-Bounded v values v v h.0.i64 h.0.i64 in
    (
      (record { i64 = h.0.i64; at_least = rest.below; at_most = rest.above }, rest.values),
      rest.least,
      rest.greatest,
    )

-- `DeltaDecode`, behind the value before the first.
loop-decoded :
    (previous : ℤ) (values : List ℤ) (min max : ℤ)
    → IsI64 previous
    → All IsI64 values
    → (delta_loop
        (delta_encode_loop previous values min max).0
        (record { decoded = []; previous = previous })).decoded
      ≡ values
unfolding delta_encode_loop delta_loop
loop-decoded previous [] min max h k = refl
loop-decoded previous (tmp ∷ values) min max h (k, ks) =
    let curr = wrap_i64 (tmp -ℤ previous) in
    let stored = (delta_encode_loop tmp values (lesser curr min) (greater curr max)).0 in
    ap (λ p. (delta_loop stored (record { decoded = p ∷ []; previous = p })).decoded)
      (wrap_i64-sub_add tmp previous k h)
    ∙ ap (λ r. r.decoded) (delta_loop_prefix stored (tmp ∷ []) tmp)
    ∙ ap (◌∷◌ tmp) (loop-decoded tmp values (lesser curr min) (greater curr max) k ks)

plus_zero : (v : ℤ) → IsI64 v → wrap_i64 (v +ℤ pos 0) ≡ v
unfolding ◌+ℤ◌
plus_zero v h = ap wrap_i64 (eq_of_parts (v +ℤ pos 0) v (ground arith)) ∙ wrap_i64_self v h

-- Delta encoding, then `DeltaDecode` from 0, is the identity on columns of i64.
pub execute-delta_encode_values :
    (values : List ℤ) (min max : ℤ)
    → All IsI64 values
    → (execute true
        (delta_encode_values true values min max).0
        (record { decoded = []; previous = pos 0 })).decoded
      ≡ values
unfolding delta_encode_values execute delta_loop
execute-delta_encode_values [] min max h = refl
execute-delta_encode_values (v ∷ values) min max (k, ks) =
    let stored = (delta_encode_loop v values v v).0 in
    ap (λ p. (delta_loop stored (record { decoded = p ∷ []; previous = p })).decoded)
      (plus_zero v k)
    ∙ ap (λ r. r.decoded) (delta_loop_prefix stored (v ∷ []) v)
    ∙ ap (◌∷◌ v) (loop-decoded v values v v k ks)
