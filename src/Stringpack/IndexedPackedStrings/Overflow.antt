-- ===== src/Stringpack/IndexedPackedStrings/Overflow.antt =====
-- Where the fields of `IndexedPackedStrings` overflow (`TODO(34)` in src/stringpack.rs).
use locust_db.Prelude.{
  ℕ, zero, suc, All, subst, get_elem?, Option-cases, some_inj, inl, inr, ◌+◌, ◌-◌, ◌/◌, ◌%◌, ◌^◌,
  ◌<◌, ◌≤◌, ◌≡◌, ◌≢◌, some, List, [], ◌∷◌, arith, length, length-take, drop,
}
use locust_db.Stringpack.Base.{Bytes, slice}
use locust_db.Stringpack.IndexedPackedStrings.{default, read_word, push_all, read_all, iter}

slice_short : (l s : Bytes) (from to : ℕ) → slice l from to ≡ some s → length s ≤ to - from
unfolding slice
slice_short l s from to h = ground (arith, length-take (to - from) (drop from l))

read_word_short : (store s : Bytes) (w : ℕ) → read_word store w ≡ some s → length s < 2 ^ 24
unfolding read_word
read_word_short store s w h =
    omega (arith, slice_short store s (w / 2 ^ 24) (w / 2 ^ 24 + w % 2 ^ 24) h)

read_all_short :
    (store : Bytes) (ws : List ℕ) (ss : List Bytes)
    → read_all store ws ≡ some ss
    → All (λ s. length s < 2 ^ 24) ss
unfolding read_all
read_all_short store [] ss h = subst (All (λ s. length s < 2 ^ 24)) (some_inj h) tt
read_all_short store (w ∷ ws) ss h = elim (Option-cases (read_word store w)) [
  | inl e ↦ absurd (ground arith)
  | inr (s, e) ↦ elim (Option-cases (read_all store ws)) [
    | inl f ↦ absurd (ground arith)
    | inr (rest, f) ↦
        subst (All (λ s. length s < 2 ^ 24)) {x = s ∷ rest} (ground arith)
          (read_word_short store s w e, read_all_short store ws rest f)
  ]
]

get_elem?-All :
    (ss : List Bytes) (i : ℕ) (s : Bytes)
    → get_elem? ss i ≡ some s
    → All (λ s. length s < 2 ^ 24) ss
    → length s < 2 ^ 24
get_elem?-All [] i s h a = cc
get_elem?-All (t ∷ ss) zero s h a = subst (λ s. length s < 2 ^ 24) (some_inj h) a.0
get_elem?-All (t ∷ ss) (suc i) s h a = get_elem?-All ss i s h a.1

-- Strings of which one has 2^24 bytes or more are not yielded again after they are pushed.
pub push_all_long :
    (ss : List Bytes) (i : ℕ) (s : Bytes)
    → get_elem? ss i ≡ some s
    → 2 ^ 24 ≤ length s
    → iter (push_all default ss) ≢ some ss
unfolding iter
push_all_long ss i s at h e =
    let short =
      get_elem?-All ss i s at
        (read_all_short (push_all default ss).backing_store (push_all default ss).words ss e) in
    absurd (omega arith)
