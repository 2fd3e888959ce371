-- ===== src/MemStore/Codec.antt =====
-- src/mem_store/codec.rs: the operations that decode a column, as a program for a stack machine. A
-- vector that is popped at its end is held with that end first.
pub mod Split
pub mod Metadata
pub mod Decode
pub mod FixedWidth
use mathlib.Core.List.{reverse}
use locust_db.Prelude.{
  ℕ, zero, suc, ◌+◌, ◌-◌, Bool, true, false, ◌==◌, Option, none, some, List, [], ◌∷◌, ◌++◌, set,
  get_elem?, if◌then◌else◌,
}
use locust_db.Prelude.Int.{ℤ, pos, ◌-ℤ◌, eq_ℤ}
use locust_db.Errors.{Result, ok, err, panic, unwrap, ◌>>=◌}
use locust_db.Stringpack.{Bytes}
use locust_db.Engine.DataTypes.Types.{
  EncodingType, BasicType, is_nullable, nullable, cast_to_basic, to_encoded,
}

pub data CodecOp : Type 0 where
  nullable_op : CodecOp
  add : EncodingType → ℤ → CodecOp
  delta to_i64 : EncodingType → CodecOp
  push_data_section : ℕ → CodecOp
  dict_lookup : EncodingType → CodecOp
  lz4 : EncodingType → ℕ → CodecOp
  unpack_strings : CodecOp
  unhexpack_strings : Bool → ℕ → CodecOp
  unknown : CodecOp

unfoldable pub is_summation_preserving_op : CodecOp → Result Bool
is_summation_preserving_op nullable_op = ok false
is_summation_preserving_op (add t x) = ok (eq_ℤ x (pos 0))
is_summation_preserving_op (delta t) = ok false
is_summation_preserving_op (to_i64 t) = ok true
is_summation_preserving_op (push_data_section i) = ok true
is_summation_preserving_op (dict_lookup t) = ok false
is_summation_preserving_op (lz4 t n) = ok false
is_summation_preserving_op unpack_strings = ok false
is_summation_preserving_op (unhexpack_strings u n) = ok false
is_summation_preserving_op unknown = panic

unfoldable pub is_order_preserving_op : CodecOp → Result Bool
is_order_preserving_op nullable_op = ok false
is_order_preserving_op (add t x) = ok true
is_order_preserving_op (delta t) = ok false
is_order_preserving_op (to_i64 t) = ok true
is_order_preserving_op (push_data_section i) = ok true
is_order_preserving_op (dict_lookup t) = ok true
is_order_preserving_op (lz4 t n) = ok false
is_order_preserving_op unpack_strings = ok false
is_order_preserving_op (unhexpack_strings u n) = ok false
is_order_preserving_op unknown = panic

unfoldable pub is_elementwise_decodable_op : CodecOp → Result Bool
is_elementwise_decodable_op nullable_op = ok false
is_elementwise_decodable_op (add t x) = ok true
is_elementwise_decodable_op (delta t) = ok false
is_elementwise_decodable_op (to_i64 t) = ok true
is_elementwise_decodable_op (push_data_section i) = ok true
is_elementwise_decodable_op (dict_lookup t) = ok true
is_elementwise_decodable_op (lz4 t n) = ok false
is_elementwise_decodable_op unpack_strings = ok false
is_elementwise_decodable_op (unhexpack_strings u n) = ok false
is_elementwise_decodable_op unknown = panic

unfoldable pub arg_count : CodecOp → Result ℕ
arg_count nullable_op = ok 0
arg_count (add t x) = ok 1
arg_count (delta t) = ok 1
arg_count (to_i64 t) = ok 1
arg_count (push_data_section i) = ok 0
arg_count (dict_lookup t) = ok 3
arg_count (lz4 t n) = ok 1
arg_count unpack_strings = ok 1
arg_count (unhexpack_strings u n) = ok 1
arg_count unknown = panic

-- `has_property`, with its calls of `pop`: the count is that of the calls that are still to be
-- made, those of the loop and of the recursion together. A call on an empty vector does nothing.
unfoldable pub has_property_loop : (p : CodecOp → Result Bool) → ℕ → List CodecOp → Result Bool
has_property_loop p calls [] = ok true
has_property_loop p zero (op ∷ ops) = do
  holds ← p op
  elim holds [ false ↦ ok false | true ↦ arg_count op >>= λ k. has_property_loop p (k - 1) ops ]
has_property_loop p (suc calls) (op ∷ ops) =
    arg_count op >>= λ k. has_property_loop p (k + calls) ops

unfoldable pub has_property : List CodecOp → (CodecOp → Result Bool) → Result Bool
unfolding has_property_loop
has_property ops p = has_property_loop p 0 (reverse ops)

-- `ensure_property`, with its calls of `pop_push` in the same way.
unfoldable pub ensure_property_loop :
    (p : CodecOp → Result Bool)
    → ℕ
    → (ops property_preserving : List CodecOp) → Result (List CodecOp × List CodecOp)
ensure_property_loop p calls [] property_preserving = ok ([], property_preserving)
ensure_property_loop p zero (op ∷ ops) property_preserving = do
  holds ← p op
  elim holds [
    | false ↦ ok (reverse (op ∷ ops), reverse property_preserving)
    | true ↦
        arg_count op >>= λ k. ensure_property_loop p (k - 1) ops (property_preserving ++ op ∷ [])
  ]
ensure_property_loop p (suc calls) (op ∷ ops) property_preserving =
    arg_count op >>= λ k. ensure_property_loop p (k + calls) ops (property_preserving ++ op ∷ [])

unfoldable pub ensure_property :
    List CodecOp → (CodecOp → Result Bool) → Result (List CodecOp × List CodecOp)
unfolding ensure_property_loop
ensure_property ops p = ensure_property_loop p 0 (reverse ops) []
