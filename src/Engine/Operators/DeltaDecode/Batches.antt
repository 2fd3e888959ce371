-- ===== src/Engine/Operators/DeltaDecode/Batches.antt =====
-- Decoding a column of differences in two batches.
use locust_db.Prelude.{◌≡◌, refl, ap, sym, ◌∙◌, true, List, [], ◌∷◌, ◌++◌, append_assoc, append-nil}
use locust_db.Prelude.Int.{ℤ, ◌+ℤ◌, wrap_i64}
use locust_db.Engine.Operators.DeltaDecode.{DeltaDecode, delta_loop, execute}

-- What is decoded already only stands in front.
pub delta_loop_prefix :
    (encoded : List ℤ) (front : List ℤ) (p : ℤ)
    → delta_loop encoded (record { decoded = front; previous = p }) ≡ record {
      decoded = front ++ (delta_loop encoded (record { decoded = []; previous = p })).decoded;
      previous = (delta_loop encoded (record { decoded = []; previous = p })).previous;
    }
unfolding delta_loop
delta_loop_prefix [] front p =
    ap (λ d. record { decoded = d; previous = p }) (sym (append-nil front))
delta_loop_prefix (e ∷ encoded) front p =
    let current = wrap_i64 (e +ℤ p) in
    let rest = delta_loop encoded (record { decoded = []; previous = current }) in
    delta_loop_prefix encoded (front ++ current ∷ []) current
    ∙ ap (λ d. record { decoded = d; previous = rest.previous })
        (append_assoc front (current ∷ []) rest.decoded)
    ∙ ap (λ r. record { decoded = front ++ r.decoded; previous = r.previous })
        (sym (delta_loop_prefix encoded (current ∷ []) current))

delta_loop-append :
    (first second : List ℤ) (op : DeltaDecode)
    → delta_loop (first ++ second) op ≡ delta_loop second (delta_loop first op)
unfolding delta_loop
delta_loop-append [] second op = refl
delta_loop-append (e ∷ first) second op =
    let current = wrap_i64 (e +ℤ op.previous) in
    delta_loop-append first second
      (record { decoded = op.decoded ++ current ∷ []; previous = current })

-- Streaming two batches through the operator, the output taken away in between, is decoding both
-- at once: the two outputs are its output, and the operator is left with the same last value.
pub execute-streaming :
    (first second : List ℤ) (op : DeltaDecode)
    → ((execute true first op).decoded ++ (execute true second (execute true first op)).decoded
        ≡ (execute true (first ++ second) op).decoded)
      × ((execute true second (execute true first op)).previous
          ≡ (execute true (first ++ second) op).previous)
unfolding execute
execute-streaming first second op =
    let start : DeltaDecode = record { decoded = []; previous = op.previous } in
    let middle = delta_loop first start in
    let both =
      delta_loop-append first second start
      ∙ delta_loop_prefix second middle.decoded middle.previous in
    (sym (ap (λ r. r.decoded) both), sym (ap (λ r. r.previous) both))
