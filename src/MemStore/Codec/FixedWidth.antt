-- ===== src/MemStore/Codec/FixedWidth.antt =====
-- Decoding a column in two parts, as `ensure_fixed_width` plans it.
use mathlib.Core.Path.{fun_ext}
use locust_db.Prelude.{◌≡◌, refl, ap, ap₂, sym, ◌∙◌, false, List, [], ◌∷◌, ◌++◌}
use locust_db.Errors.{Result, ok, err, panic, ◌>>=◌, ok-injective, bind_inv}
use locust_db.Stringpack.{Bytes}
use locust_db.Engine.DataTypes.Types.{EncodingType}
use locust_db.MemStore.Codec.{
  CodecOp, is_summation_preserving_op, is_order_preserving_op, is_elementwise_decodable_op,
  has_property,
}
use locust_db.MemStore.Codec.Split.{ensure_property-has_property}
use locust_db.MemStore.Codec.Metadata.{Codec, new, identity, output_type}
use locust_db.MemStore.Codec.Decode.{
  Planner, decode_step, decode_loop, single, decode_ops, decode, ensure_fixed_width,
}

-- Two steps that follow one another are one step.
bind_assoc {ℓ} :
    {T U V : Type ℓ} (result : Result T) (first : T → Result U) (second : U → Result V)
    → (result >>= first >>= second) ≡ (result >>= λ value. first value >>= second)
bind_assoc panic first second = refl
bind_assoc (err error) first second = refl
bind_assoc (ok value) first second = refl

pub new_inv :
    (ops : List CodecOp) (sections : List EncodingType) (c : Codec)
    → new ops sections ≡ ok c
    → (ops ≡ c.ops) × (sections ≡ c.section_types)
unfolding new
new_inv ops sections c h =
    let (t, e0, h0) = bind_inv (output_type ops sections) _ c h in
    let (s, e1, h1) = bind_inv (has_property ops is_summation_preserving_op) _ c h0 in
    let (o, e2, h2) = bind_inv (has_property ops is_order_preserving_op) _ c h1 in
    let (w, e3, h3) = bind_inv (has_property ops is_elementwise_decodable_op) _ c h2 in
    (ap (λ c. c.ops) (ok-injective h3), ap (λ c. c.section_types) (ok-injective h3))

single_inv {ℓ} :
    {Buffer : Type ℓ} (stack : List Buffer) (plan : Buffer)
    → single stack ≡ ok plan
    → stack ≡ plan ∷ []
single_inv [] plan h = cc
single_inv (x ∷ []) plan h = ap (λ x. x ∷ []) (ok-injective h)
single_inv (x ∷ y ∷ stack) plan h = cc

module _ {ℓ} {Buffer : Type ℓ} (planner : Planner Buffer) where
  decode_loop-append :
      (name : Bytes) (sections : List EncodingType) (first second : List CodecOp)
      (stack : List Buffer)
      → decode_loop planner name sections (first ++ second) stack ≡ (
          decode_loop planner name sections first stack >>= λ stack.
          decode_loop planner name sections second stack)
  unfolding decode_loop
  decode_loop-append name sections [] second stack = refl
  decode_loop-append name sections (op ∷ first) second stack =
      ap (λ f. decode_step planner name sections op stack >>= f)
        (fun_ext λ stack. decode_loop-append name sections first second stack)
      ∙ sym (
          bind_assoc (decode_step planner name sections op stack)
            (decode_loop planner name sections first) (decode_loop planner name sections second))

  -- Decoding the first part and then the second is decoding the whole.
  decode_ops-append :
      (codec : Codec) (first second : List CodecOp) (plan middle : Buffer)
      → decode_ops planner codec first plan ≡ ok middle
      → decode_ops planner codec (first ++ second) plan ≡ decode_ops planner codec second middle
  unfolding decode_ops
  decode_ops-append codec first second plan middle h =
      let (stack, e, f) =
        bind_inv (decode_loop planner codec.column_name codec.section_types first (plan ∷ [])) _
          middle h in
      rw
        (
          decode_loop-append codec.column_name codec.section_types first second (plan ∷ []),
          e,
          single_inv stack middle f,
        )
        refl

  -- The codec for the second part decodes as the whole codec does behind the first part.
  decode_rest :
      (codec : Codec) (rest : List CodecOp) (c : Codec) (plan : Buffer)
      → (elim rest [
        | [] ↦ ok (identity codec.decoded_type)
        | op ∷ rest ↦ new (op ∷ rest) codec.section_types
      ])
        ≡ ok c
      → decode planner (record c { column_name = codec.column_name }) plan
        ≡ decode_ops planner codec rest plan
  unfolding decode decode_ops identity decode_loop
  decode_rest codec [] c plan h = rw (sym (ok-injective h)) refl
  decode_rest codec (op ∷ rest) c plan h =
      let (e, f) = new_inv (op ∷ rest) codec.section_types c h in
      ap₂
        (λ ops sections.
          decode_loop planner codec.column_name sections ops (plan ∷ []) >>= λ stack. single stack)
        (sym e) (sym f)

  -- For any planner, of a codec that is not elementwise decodable: when `ensure_fixed_width` returns
  -- a codec and a plan, decoding that plan with that codec is decoding the column with the whole
  -- codec.
  pub ensure_fixed_width-decode :
      (codec : Codec) (plan : Buffer) (c : Codec) (fixed_width : Buffer)
      → has_property codec.ops is_elementwise_decodable_op ≡ ok false
      → ensure_fixed_width planner codec plan ≡ ok (c, fixed_width)
      → decode planner c fixed_width ≡ decode planner codec plan
  unfolding ensure_fixed_width decode
  ensure_fixed_width-decode codec plan c fixed_width h k =
      let (fixed, op, rest, split, e, violates, keeps) =
        ensure_property-has_property is_elementwise_decodable_op codec.ops h in
      let (d, e1, h1) =
        bind_inv
          (elim rest [
            | [] ↦ ok (identity codec.decoded_type)
            | op ∷ rest ↦ new (op ∷ rest) codec.section_types
          ])
          _ (c, fixed_width) (rw split at k) in
      let (middle, e2, h2) =
        bind_inv (decode_ops planner codec (fixed ++ op ∷ []) plan) _ (c, fixed_width) h1 in
      let pair = ok-injective h2 in
      ap₂ (λ c plan. decode planner c plan) (sym (ap (λ r. r.0) pair)) (sym (ap (λ r. r.1) pair))
      ∙ decode_rest codec rest d middle e1
      ∙ sym (decode_ops-append codec (fixed ++ op ∷ []) rest plan middle e2)
      ∙ ap (λ ops. decode_ops planner codec ops plan) (sym e)
