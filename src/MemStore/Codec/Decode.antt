-- ===== src/MemStore/Codec/Decode.antt =====
-- src/mem_store/codec.rs: turning a codec into the plan that decodes a column.
use locust_db.Prelude.{ℕ, Bool, List, [], ◌∷◌, get_elem?}
use locust_db.Prelude.Int.{ℤ}
use locust_db.Errors.{Result, ok, panic, unwrap, ◌>>=◌}
use locust_db.Stringpack.{Bytes}
use locust_db.Engine.DataTypes.Types.{EncodingType}
use locust_db.MemStore.Codec.{
  CodecOp, nullable_op, add, delta, to_i64, push_data_section, dict_lookup, lz4, unpack_strings,
  unhexpack_strings, is_elementwise_decodable_op, ensure_property,
}
use locust_db.MemStore.Codec.Metadata.{Codec, new, identity}

-- What `decode_ops` calls of `QueryPlanner` (src/engine/planning/planner.rs). A buffer reference
-- stands for the plan that fills the buffer; `as_u8` and `as_u64` panic on another type.
pub record Planner {ℓ} (Buffer : Type ℓ) : Type ℓ where
  pub as_u8 : Buffer → Result Buffer
  pub as_u64 : Buffer → Result Buffer
  pub assemble_nullable : (column present : Buffer) → Buffer
  pub scalar_i64 : ℤ → Buffer
  pub add_plan : (lhs rhs : Buffer) → Buffer
  pub delta_decode : Buffer → Buffer
  pub cast : Buffer → EncodingType → Buffer
  pub column_section : (name : Bytes) (section : ℕ) → EncodingType → Buffer
  pub lookup : (indices dict_indices dict_data : Buffer) → Buffer
  pub lz4_decode : Buffer → (decoded_length : ℕ) → EncodingType → Buffer
  pub unpack : Buffer → Buffer
  pub unhexpack : Buffer → (uppercase : Bool) (total_bytes : ℕ) → Buffer

module _ {ℓ} {Buffer : Type ℓ} (planner : Planner Buffer) (column_name : Bytes)
    (section_types : List EncodingType) where
  -- One round of the loop, on the stack with its top first.
  unfoldable pub decode_step : CodecOp → List Buffer → Result (List Buffer)
  decode_step nullable_op (present ∷ column ∷ stack) = do
    present ← planner.as_u8 present
    ok (planner.assemble_nullable column present ∷ stack)
  decode_step (add _ x) (lhs ∷ stack) = ok (planner.add_plan lhs (planner.scalar_i64 x) ∷ stack)
  decode_step (delta _) (plan ∷ stack) = ok (planner.delta_decode plan ∷ stack)
  decode_step (to_i64 _) (plan ∷ stack) = ok (planner.cast plan EncodingType.i64 ∷ stack)
  decode_step (push_data_section i) stack = do
    t ← unwrap (get_elem? section_types i)
    ok (planner.column_section column_name i t ∷ stack)
  decode_step (dict_lookup _) (dict_data ∷ dict_indices ∷ indices ∷ stack) = do
    dict_indices ← planner.as_u64 dict_indices
    dict_data ← planner.as_u8 dict_data
    ok (planner.lookup indices dict_indices dict_data ∷ stack)
  decode_step (lz4 t decoded_length) (plan ∷ stack) = do
    plan ← planner.as_u8 plan
    ok (planner.lz4_decode plan decoded_length t ∷ stack)
  decode_step unpack_strings (plan ∷ stack) = do
    plan ← planner.as_u8 plan
    ok (planner.unpack plan ∷ stack)
  decode_step (unhexpack_strings upper total_bytes) (plan ∷ stack) = do
    plan ← planner.as_u8 plan
    ok (planner.unhexpack plan upper total_bytes ∷ stack)
  decode_step _ _ = panic

  unfoldable pub decode_loop : List CodecOp → List Buffer → Result (List Buffer)
  unfolding decode_step
  decode_loop [] stack = ok stack
  decode_loop (op ∷ ops) stack = decode_step op stack >>= λ stack. decode_loop ops stack

-- `assert_eq!(stack.len(), 1)`, then the element
abbrev pub single {ℓ} : {Buffer : Type ℓ} → List Buffer → Result Buffer
single (plan ∷ []) = ok plan
single _ = panic

module _ {ℓ} {Buffer : Type ℓ} (planner : Planner Buffer) (codec : Codec) where
  unfoldable pub decode_ops : List CodecOp → Buffer → Result Buffer
  unfolding decode_loop
  decode_ops ops plan =
      decode_loop planner codec.column_name codec.section_types ops (plan ∷ []) >>= λ stack.
      single stack

  unfoldable pub decode : Buffer → Result Buffer
  unfolding decode_ops
  decode plan = decode_ops codec.ops plan

  unfoldable pub ensure_fixed_width : Buffer → Result (Codec × Buffer)
  unfolding decode_ops ensure_property new identity
  ensure_fixed_width plan = do
    split ← ensure_property codec.ops is_elementwise_decodable_op
    new_codec ← elim split.1 [
      | [] ↦ ok (identity codec.decoded_type)
      | op ∷ rest ↦ new (op ∷ rest) codec.section_types
    ]
    fixed_width ← decode_ops split.0 plan
    ok (record new_codec { column_name = codec.column_name }, fixed_width)
