-- ===== src/MemStore/Codec/Split.antt =====
-- How `ensure_property` splits a codec.
use mathlib.Core.List.{reverse, reverse-cons, reverse-append, reverse-reverse}
use locust_db.Prelude.{
  ℕ, zero, suc, ◌+◌, ◌-◌, ◌≡◌, refl, ap, sym, ◌∙◌, Bool, true, false, List, [], ◌∷◌, ◌++◌,
  append_assoc, append-nil,
}
use locust_db.Errors.{Result, ok, ◌>>=◌, bind_inv}
use locust_db.MemStore.Codec.{
  CodecOp, arg_count, has_property_loop, has_property, ensure_property_loop, ensure_property,
}

module _ (p : CodecOp → Result Bool) where
  -- Where the loop stops: `consumed` was passed on, `op` violates `p`, `below` was not looked at.
  abbrev Stops : ℕ → (ops property_preserving : List CodecOp) → Type 0
  Stops calls ops pp =
      (op : CodecOp) × (consumed : List CodecOp) × (below : List CodecOp) × (ops
        ≡ consumed ++ op ∷ below)
      × (p op ≡ ok false)
      × (has_property_loop p calls consumed ≡ ok true)
      × (ensure_property_loop p calls ops pp ≡ ok (reverse (op ∷ below), reverse (pp ++ consumed)))

  pass_on :
      (calls next : ℕ) (op : CodecOp) (ops pp : List CodecOp)
      → ((more : List CodecOp)
          → has_property_loop p calls (op ∷ more) ≡ has_property_loop p next more)
      → (ensure_property_loop p calls (op ∷ ops) pp
          ≡ ensure_property_loop p next ops (pp ++ op ∷ []))
      → Stops next ops (pp ++ op ∷ [])
      → Stops calls (op ∷ ops) pp
  pass_on calls next op ops pp f g (stop, consumed, below, e, violates, passes, run) = (
    stop,
    op ∷ consumed,
    below,
    ap (◌∷◌ op) e,
    violates,
    f consumed ∙ passes,
    g
        ∙ run
        ∙ ap (λ rest. ok (reverse (stop ∷ below), reverse rest))
            (append_assoc pp (op ∷ []) consumed),
  )

  Stops-at :
      (holds : Bool) (op : CodecOp) (ops pp : List CodecOp)
      → ((calls : ℕ) (pp : List CodecOp)
          → has_property_loop p calls ops ≡ ok false
          → Stops calls ops pp)
      → p op ≡ ok holds
      → elim holds [
        | false ↦ ok false
        | true ↦ arg_count op >>= λ k. has_property_loop p (k - 1) ops
      ]
        ≡ ok false
      → Stops zero (op ∷ ops) pp
  unfolding has_property_loop ensure_property_loop
  Stops-at false op ops pp later e f = (
    op,
    [],
    ops,
    refl,
    e,
    refl,
    rw e (ap (λ rest. ok (reverse (op ∷ ops), reverse rest)) (sym (append-nil pp))),
  )
  Stops-at true op ops pp later e f =
      let (k, d, g) = bind_inv (arg_count op) (λ k. has_property_loop p (k - 1) ops) false f in
      pass_on zero (k - 1) op ops pp (λ more. rw (e, d) refl) (rw (e, d) refl)
        (later (k - 1) (pp ++ op ∷ []) g)

  stops :
      (calls : ℕ) (ops pp : List CodecOp)
      → has_property_loop p calls ops ≡ ok false
      → Stops calls ops pp
  unfolding has_property_loop ensure_property_loop
  stops calls [] pp h = cc
  stops zero (op ∷ ops) pp h =
      let (holds, e, f) =
        bind_inv (p op)
          (λ holds. elim holds [
            | false ↦ ok false
            | true ↦ arg_count op >>= λ k. has_property_loop p (k - 1) ops
          ])
          false h in
      Stops-at holds op ops pp (λ calls pp. stops calls ops pp) e f
  stops (suc calls) (op ∷ ops) pp h =
      let (k, d, g) = bind_inv (arg_count op) (λ k. has_property_loop p (k + calls) ops) false h in
      pass_on (suc calls) (k + calls) op ops pp (λ more. rw d refl) (rw d refl)
        (stops (k + calls) ops (pp ++ op ∷ []) g)

pub ensure_property-has_property :
    (p : CodecOp → Result Bool) (ops : List CodecOp)
    → has_property ops p ≡ ok false
    → (fixed : List CodecOp) × (op : CodecOp) × (rest : List CodecOp) × (ensure_property ops p
        ≡ ok (fixed ++ op ∷ [], rest))
      × (ops ≡ fixed ++ op ∷ [] ++ rest)
      × (p op ≡ ok false)
      × (has_property rest p ≡ ok true)
unfolding has_property ensure_property
ensure_property-has_property p ops h =
    let (op, consumed, below, e, violates, passes, run) = stops p 0 (reverse ops) [] h in
    (
      reverse below,
      op,
      reverse consumed,
      run ∙ ap (λ fixed. ok (fixed, reverse consumed)) (reverse-cons op below),
      sym (reverse-reverse ops)
          ∙ ap reverse e
          ∙ reverse-append consumed (op ∷ below)
          ∙ ap (λ l. l ++ reverse consumed) (reverse-cons op below),
      violates,
      ap (has_property_loop p 0) (reverse-reverse consumed) ∙ passes,
    )
