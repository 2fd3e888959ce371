-- ===== src/Engine/Operators/UnpackStrings/Batches.antt =====
-- What the batches of `UnpackStrings` hold, on the bytes that `PackedStrings` wrote.
use locust_db.Prelude.{
  ◌==◌, ℕ, zero, suc, ◌+◌, ◌<◌, ◌≡◌, refl, subst, ◌∙◌, sym, Bool, true, false, some, none, List, [],
  ◌∷◌, ◌++◌, append_assoc, append-nil, arith, leb, if◌then◌else◌, length, take, drop, length-append,
}
use locust_db.Stringpack.{Bytes, PackedIterator}
use locust_db.Stringpack.PackedStrings.{next, from_iterator, into_vec}
use locust_db.Stringpack.PackedStrings.Roundtrip.{
  encode, encode_all, next_lem, next_end, from_iterator_lem,
}
use locust_db.Engine.Operators.UnpackStrings.{UnpackStrings, init, pushed_capacity, execute}

-- The iterator behind `pre` with these strings left to read.
abbrev at : (pre : Bytes) → List Bytes → PackedIterator
at pre ss = record { bytes = pre ++ encode_all ss; curr_index = length pre }

next_cons :
    (pre s : Bytes) (ss : List Bytes)
    → next (at pre (s ∷ ss)) ≡ some (some s, at (pre ++ encode s) ss)
next_cons pre s ss =
    subst
      (λ b.
        next (record { bytes = b; curr_index = length pre })
        ≡ some (some s, at (pre ++ encode s) ss))
      (append_assoc pre (encode s) (encode_all ss)) (next_lem pre s (encode_all ss))

next_nil : (pre : Bytes) → next (at pre []) ≡ some (none, at pre [])
next_nil pre =
    subst
      (λ b.
        next (record { bytes = b; curr_index = length pre })
        ≡ some (none, record { bytes = b; curr_index = length pre }))
      (sym (append-nil pre)) (next_end pre)

abbrev state : Bytes → List Bytes → Bool → List Bytes → ℕ → UnpackStrings
state pre ss more decoded capacity = record {
  iterator = at pre ss;
  has_more = more;
  decoded = decoded;
  capacity = capacity;
}

module _ (grow : ℕ → ℕ) where
  execute_end :
      (fuel : ℕ) (op : UnpackStrings) (it : PackedIterator)
      → next op.iterator ≡ some (none, it)
      → execute grow (suc fuel) op ≡ some (record op { iterator = it; has_more = false })
  unfolding execute
  execute_end fuel op it e = ground arith

  -- A push that fills the vector.
  execute_full :
      (fuel : ℕ) (op : UnpackStrings) (it : PackedIterator) (s : Bytes) (capacity : ℕ)
      → next op.iterator ≡ some (some s, it)
      → pushed_capacity grow op ≡ capacity
      → length op.decoded + 1 ≡ capacity
      → execute grow (suc fuel) op
        ≡ some (record op { iterator = it; decoded = op.decoded ++ s ∷ []; capacity = capacity })
  unfolding execute
  execute_full fuel op it s capacity e c h =
      let long = length-append op.decoded (s ∷ []) in
      let test : (capacity == length (op.decoded ++ s ∷ [])) ≡ true = ground arith in
      rw (e, c, test, execute) refl

  -- A push that leaves room.
  execute-next :
      (fuel : ℕ) (op : UnpackStrings) (it : PackedIterator) (s : Bytes) (capacity : ℕ)
      → next op.iterator ≡ some (some s, it)
      → pushed_capacity grow op ≡ capacity
      → length op.decoded + 1 < capacity
      → execute grow (suc fuel) op
        ≡ execute grow fuel
            (record op { iterator = it; decoded = op.decoded ++ s ∷ []; capacity = capacity })
  unfolding execute
  execute-next fuel op it s capacity e c h =
      let long = length-append op.decoded (s ∷ []) in
      let test : (capacity == length (op.decoded ++ s ∷ [])) ≡ false = ground arith in
      rw (e, c, test, execute) refl

  execute_loop :
      (fuel room : ℕ) (pre : Bytes) (ss : List Bytes) (more : Bool) (decoded : List Bytes)
      (capacity : ℕ)
      → length decoded + suc room ≡ capacity
      → length ss < fuel
      → execute grow fuel (state pre ss more decoded capacity)
        ≡ some (
            state
              (pre ++ encode_all (take (suc room) ss))
              (drop (suc room) ss)
              (if leb (suc room) (length ss) then more else false)
              (decoded ++ take (suc room) ss)
              capacity)
  execute_loop zero room pre ss more decoded capacity e h = absurd (omega arith)
  execute_loop (suc fuel) room pre [] more decoded capacity e h =
      execute_end fuel (state pre [] more decoded capacity) _ (next_nil pre)
      ∙ ground (arith, append-nil pre, append-nil decoded)
  execute_loop (suc fuel) zero pre (s ∷ ss) more decoded capacity e h =
      execute_full fuel (state pre (s ∷ ss) more decoded capacity) _ s capacity (next_cons pre s ss)
        (ground arith) (omega arith)
      ∙ ground (arith, append-nil (encode s))
  execute_loop (suc fuel) (suc room) pre (s ∷ ss) more decoded capacity e h =
      execute-next fuel (state pre (s ∷ ss) more decoded capacity) _ s capacity (next_cons pre s ss)
        (ground arith) (omega arith)
      ∙ execute_loop fuel room (pre ++ encode s) ss more (decoded ++ s ∷ []) capacity
          (omega (arith, length-append decoded (s ∷ []))) (omega arith)
      ∙ ground (
        arith,
        append_assoc pre (encode s) (encode_all (take (suc room) ss)),
        append_assoc decoded (s ∷ []) (take (suc room) ss),
      )

  -- What a call makes of a vector that is full: the strings that there is room for once it has
  -- grown, and `has_more`.
  record Appends (fuel room : ℕ) (pre : Bytes) (ss : List Bytes) (decoded : List Bytes) (n : ℕ)
      : Type 0 where
    op : UnpackStrings
    run : execute grow fuel (state pre ss true decoded n) ≡ some op
    strings : op.decoded ≡ decoded ++ take (suc room) ss
    more : op.has_more ≡ leb (suc room) (length ss)

  -- The first call.
  pub execute-init :
      (fuel n : ℕ) (ss : List Bytes)
      → 0 < n
      → length ss < fuel
      → execute grow fuel (init n (into_vec (from_iterator ss)))
        ≡ some (
            state
              (encode_all (take n ss))
              (drop n ss)
              (if leb n (length ss) then true else false)
              (take n ss)
              n)
  unfolding init into_vec
  execute-init fuel zero ss p h = absurd (omega arith)
  execute-init fuel (suc n) ss p h =
      rw (from_iterator_lem ss) (execute_loop fuel n [] ss true [] (suc n) (omega arith) h)
