-- ===== src/Engine/Operators/UnpackStrings.antt =====
-- src/engine/operators/unpack_strings.rs: decoding a packed string column batch by batch.
pub mod Batches
use locust_db.Prelude.{
  ℕ, zero, suc, Bool, true, false, Option, none, some, List, [], ◌∷◌, ◌++◌, ◌==◌, if◌then◌else◌,
  length,
}
use locust_db.Stringpack.{Bytes, PackedIterator, from_slice}
use locust_db.Stringpack.PackedStrings.{next}

-- The operator's own state, with the vector `unpacked` of the scratchpad and its capacity.
pub record UnpackStrings : Type 0 where
  pub iterator : PackedIterator
  pub has_more : Bool
  pub decoded : List Bytes
  pub capacity : ℕ

-- `init`, on the bytes that the buffer `packed` pins, with the capacity that `Vec::with_capacity`
-- gives, at least the batch size; the planner starts with `has_more: true`
unfoldable pub init : (capacity : ℕ) (encoded : Bytes) → UnpackStrings
unfolding from_slice
init capacity encoded = record {
  iterator = from_slice encoded;
  has_more = true;
  decoded = [];
  capacity = capacity;
}

-- The capacity behind a push: a full vector grows, by as much as the allocator chooses.
abbrev pub pushed_capacity : (grow : ℕ → ℕ) → UnpackStrings → ℕ
pushed_capacity grow op = if length op.decoded == op.capacity then grow op.capacity else op.capacity

-- `execute` without streaming; nothing takes the strings of an earlier call out of the vector. The
-- loop ends since each string takes a byte: the fuel bounds its rounds, and running out of fuel is
-- `none`, as a panic of the iterator is.
unfoldable pub execute : (grow : ℕ → ℕ) → ℕ → UnpackStrings → Option UnpackStrings
execute grow zero op = none
execute grow (suc fuel) op = elim (next op.iterator) [
  | none ↦ none
  | some (none, it) ↦ some (record op { iterator = it; has_more = false })
  | some (some elem, it) ↦
      let decoded = op.decoded ++ elem ∷ [] in
      let capacity = pushed_capacity grow op in
      let op' = record op { iterator = it; decoded = decoded; capacity = capacity } in
      let rest = execute grow fuel op' in if capacity == length decoded then some op' else rest
]
