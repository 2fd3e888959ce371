-- ===== src/Engine/Operators/DeltaDecode.antt =====
-- src/engine/operators/delta_decode.rs: from differences to values, batch by batch.
pub mod Batches
use locust_db.Prelude.{Bool, List, [], ◌∷◌, ◌++◌, if◌then◌else◌}
use locust_db.Prelude.Int.{ℤ, ◌+ℤ◌, wrap_i64}

-- The operator's own state, with the vector `decoded` of the scratchpad.
pub record DeltaDecode : Type 0 where
  pub decoded : List ℤ
  pub previous : ℤ

-- `for e in encoded.iter()`; the sum of two i64 wraps
unfoldable pub delta_loop : (encoded : List ℤ) → DeltaDecode → DeltaDecode
unfolding ◌+ℤ◌ wrap_i64
delta_loop [] op = op
delta_loop (e ∷ encoded) op =
    let current = wrap_i64 (e +ℤ op.previous) in
    delta_loop encoded (record { decoded = op.decoded ++ current ∷ []; previous = current })

unfoldable pub execute : (streaming : Bool) (encoded : List ℤ) → DeltaDecode → DeltaDecode
unfolding delta_loop
execute streaming encoded op =
    delta_loop encoded (record op { decoded = if streaming then [] else op.decoded })
