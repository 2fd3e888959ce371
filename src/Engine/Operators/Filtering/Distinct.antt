-- ===== src/Engine/Operators/Filtering/Distinct.antt =====
-- `Exists` and then `NonzeroIndices`: the distinct values of a column, in order.
use locust_db.Prelude.{
  ℕ, zero, suc, ◌+◌, ◌-◌, ◌≤◌, ◌<◌, ◌≡◌, refl, ◌∙◌, Bool, true, false, ◌||◌, ◌==◌, inl, inr,
  Bool-cases, some, List, [], ◌∷◌, ◌++◌, append_assoc, append-nil, ltb, length, length-set,
  length-replicate, set, replicate, All, All-imp, nat_ord, arith,
}
use locust_db.Engine.Operators.MergeAggregate.Union.{Above, IsStrict}
use locust_db.Engine.Operators.Filtering.{
  nonzero_indices_loop, nonzero_indices, exists_loop, exists,
}

abbrev pub contains : List ℕ → ℕ → Bool
contains [] i = false
contains (x ∷ xs) i = x == i || contains xs i

abbrev mark_at : List ℕ → ℕ → Bool
mark_at [] i = false
mark_at (m ∷ marks) zero = ltb 0 m
mark_at (m ∷ marks) (suc i) = mark_at marks i

mark_at-set :
    (marks : List ℕ) (v i : ℕ)
    → v < length marks
    → mark_at (set marks v 1) i ≡ (v == i || mark_at marks i)
mark_at-set [] v i h = absurd (omega arith)
mark_at-set (m ∷ marks) zero zero h = refl
mark_at-set (m ∷ marks) zero (suc i) h = ground arith
mark_at-set (m ∷ marks) (suc v) zero h = ground arith
mark_at-set (m ∷ marks) (suc v) (suc i) h = mark_at-set marks v i (omega arith) ∙ ground arith

mark_at-replicate : (n i : ℕ) → mark_at (replicate n 0) i ≡ false
mark_at-replicate zero i = refl
mark_at-replicate (suc n) zero = refl
mark_at-replicate (suc n) (suc i) = mark_at-replicate n i

exists_loop_lem :
    (values marks : List ℕ)
    → All (λ v. v < length marks) values
    → (after : List ℕ) × (exists_loop values marks ≡ some after)
      × (length after ≡ length marks)
      × ((i : ℕ) → mark_at after i ≡ (contains values i || mark_at marks i))
unfolding exists_loop
exists_loop_lem [] marks h = (marks, refl, refl, λ i. refl)
exists_loop_lem (v ∷ values) marks h =
    let same = length-set marks v 1 in
    let (after, run, as_long, marked) = exists_loop_lem values (set marks v 1) (
      All-imp (λ v. v < length marks) (λ w. w < length (set marks v 1)) values (λ w lt. omega arith)
        h.1) in
    (
      after,
      rw (run, exists_loop) (ground (arith, h.0)),
      as_long ∙ same,
      λ i. ground (arith, marked i, mark_at-set marks v i h.0),
    )

-- The indices that are pushed, from `index` on.
nonzero_from : List ℕ → ℕ → List ℕ
nonzero_from [] index = []
nonzero_from (n ∷ counts) index = elim (ltb 0 n) [
  | true ↦ index ∷ nonzero_from counts (index + 1)
  | false ↦ nonzero_from counts (index + 1)
]

nonzero_indices_loop-nonzero_from :
    (max_value : ℕ) (counts : List ℕ) (index : ℕ) (unique : List ℕ)
    → index + length counts ≤ max_value + 1
    → nonzero_indices_loop max_value counts index unique
      ≡ some (unique ++ nonzero_from counts index)
unfolding nonzero_indices_loop nonzero_from
nonzero_indices_loop-nonzero_from max_value [] index unique h = rw (append-nil unique) refl
nonzero_indices_loop-nonzero_from max_value (n ∷ counts) index unique h = ground (
  arith,
  nonzero_indices_loop-nonzero_from max_value counts (index + 1) (unique ++ index ∷ [])
      (omega arith),
  nonzero_indices_loop-nonzero_from max_value counts (index + 1) unique (omega arith),
  append_assoc unique (index ∷ []) (nonzero_from counts (index + 1)),
)

nonzero_from-Above :
    (counts : List ℕ) (index k : ℕ) → k < index → Above k (nonzero_from counts index)
unfolding nonzero_from
nonzero_from-Above [] index k h = tt
nonzero_from-Above (n ∷ counts) index k h = elim (Bool-cases (ltb 0 n)) [
  | inl t ↦
      rw (t, nonzero_from) (ground arith, nonzero_from-Above counts (index + 1) k (omega arith))
  | inr t ↦ rw (t, nonzero_from) (nonzero_from-Above counts (index + 1) k (omega arith))
]

nonzero_from-IsStrict : (counts : List ℕ) (index : ℕ) → IsStrict (nonzero_from counts index)
unfolding nonzero_from
nonzero_from-IsStrict [] index = tt
nonzero_from-IsStrict (n ∷ counts) index = elim (Bool-cases (ltb 0 n)) [
  | inl t ↦
      rw (t, nonzero_from)
        (
          nonzero_from-Above counts (index + 1) index (omega arith),
          nonzero_from-IsStrict counts (index + 1),
        )
  | inr t ↦ rw (t, nonzero_from) (nonzero_from-IsStrict counts (index + 1))
]

contains-Above : (k : ℕ) (xs : List ℕ) → Above k xs → contains xs k ≡ false
contains-Above k [] h = refl
contains-Above k (x ∷ xs) h = ground (arith, h.0, contains-Above k xs h.1)

contains-nonzero_from :
    (counts : List ℕ) (index i k : ℕ)
    → index + k ≡ i
    → contains (nonzero_from counts index) i ≡ mark_at counts k
unfolding nonzero_from
contains-nonzero_from [] index i k e = refl
contains-nonzero_from (n ∷ counts) index i zero e = elim (Bool-cases (ltb 0 n)) [
  | inl t ↦ rw (t, nonzero_from) (ground arith)
  | inr t ↦
      rw (t, nonzero_from)
        (contains-Above i (nonzero_from counts (index + 1))
          (nonzero_from-Above counts (index + 1) i (omega arith)))
]
contains-nonzero_from (n ∷ counts) index i (suc k) e =
    let later = contains-nonzero_from counts (index + 1) i k (omega arith) in
    elim (Bool-cases (ltb 0 n)) [
      | inl t ↦ rw (t, nonzero_from) (ground (arith, later))
      | inr t ↦ rw (t, nonzero_from) later
    ]

-- Of a column whose values are at most `max_index`, which the type of the output holds: `Exists` marks
-- without running out of range, and the indices that `NonzeroIndices` collects from the marks,
-- without a panic, are sorted, without duplicates, and are the values of the column.
pub nonzero_indices-exists :
    (values : List ℕ) (max_index max_value : ℕ)
    → All (λ v. v ≤ max_index) values
    → max_index ≤ max_value
    → (marks unique : List ℕ) × (exists values max_index [] ≡ some marks)
      × (nonzero_indices max_value marks ≡ some unique)
      × IsStrict unique
      × ((i : ℕ) → contains unique i ≡ contains values i)
unfolding exists nonzero_indices
nonzero_indices-exists values max_index max_value h fits =
    let fresh = replicate (max_index + 1) 0 in
    let rows = length-replicate {A = ℕ} (max_index + 1) 0 in
    let (marks, run, as_long, marked) =
      exists_loop_lem values fresh
        (All-imp (λ v. v ≤ max_index) (λ v. v < length fresh) values (λ v le. omega arith) h) in
    let test : ltb 0 (max_index + 1) ≡ true = ground arith in
    let all_fresh : max_index + 1 - 0 ≡ max_index + 1 = omega arith in
    (
      marks,
      nonzero_from marks 0,
      rw (test, all_fresh) run,
      nonzero_indices_loop-nonzero_from max_value marks 0 [] (omega arith),
      nonzero_from-IsStrict marks 0,
      λ i.
          contains-nonzero_from marks 0 i i (omega arith)
          ∙ marked i
          ∙ ground (arith, mark_at-replicate (max_index + 1) i),
    )
