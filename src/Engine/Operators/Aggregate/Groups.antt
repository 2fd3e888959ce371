-- ===== src/Engine/Operators/Aggregate/Groups.antt =====
-- src/engine/operators/aggregate.rs: the accumulator of each group.
use locust_db.Prelude.{
  ◌+◌, ◌-◌, ◌%◌, ◌^◌, max, ltb, ◌++◌, replicate, length-append, length-replicate, ℕ, zero, suc, ◌<◌,
  ◌≡◌, refl, ap, ◌∙◌, inl, inr, Bool-cases, some, List, [], ◌∷◌, length, length-set, set, get_elem?,
  ◌==◌, ==_iff, if◌then◌else◌, All, All-imp, arith,
}
use locust_db.Prelude.Int.{ℤ}
use locust_db.Prelude.Arrays.{get_or, get_or-set}
use locust_db.MemStore.Integers.{as_u64}
use locust_db.Errors.{Result, ok}
use locust_db.Engine.Operators.Aggregate.{Aggregator, resize, aggregate, execute}

-- What one group accumulates, row by row.
abbrev pub group_fold {ℓ κ} :
    {T : Type ℓ} {Acc : Type κ}
    → (Acc → T → Acc)
    → (g : ℕ) (grouping : List ℕ) (nums : List T) → Acc
    → Acc
group_fold accumulate g [] nums acc = acc
group_fold accumulate g (i ∷ grouping) [] acc = acc
group_fold accumulate g (i ∷ grouping) (n ∷ nums) acc =
    group_fold accumulate g grouping nums (if i == g then accumulate acc n else acc)

pub get_elem?-get_or {ℓ} :
    {A : Type ℓ} (xs : List A) (i : ℕ) (d : A)
    → i < length xs
    → get_elem? xs i ≡ some (get_or xs i d)
get_elem?-get_or [] i d h = absurd (omega arith)
get_elem?-get_or (x ∷ xs) zero d h = refl
get_elem?-get_or (x ∷ xs) (suc i) d h = get_elem?-get_or xs i d (omega arith)

module _ {ℓ} {A : Type ℓ} where
  get_or-replicate : (n g : ℕ) (d : A) → get_or (replicate n d) g d ≡ d
  get_or-replicate zero g d = refl
  get_or-replicate (suc n) zero d = refl
  get_or-replicate (suc n) (suc g) d = get_or-replicate n g d

  get_or-append_replicate :
      (xs : List A) (n g : ℕ) (d : A) → get_or (xs ++ replicate n d) g d ≡ get_or xs g d
  get_or-append_replicate [] n g d = get_or-replicate n g d
  get_or-append_replicate (x ∷ xs) n zero d = refl
  get_or-append_replicate (x ∷ xs) n (suc g) d = get_or-append_replicate xs n g d

  length-resize :
      (d : A) (max_index : ℤ) (xs : List A)
      → length (resize d max_index xs) ≡ max (length xs) ((as_u64 max_index + 1) % 2 ^ 64)
  unfolding resize
  length-resize d max_index xs =
      let len = (as_u64 max_index + 1) % 2 ^ 64 in
      elim (Bool-cases (ltb (length xs) len)) [
        | inl t ↦ rw t (
            ground (
              arith,
              length-append xs (replicate (len - length xs) d),
              length-replicate (len - length xs) d,
            ))
        | inr t ↦ rw t (ground (arith, t))
      ]

  get_or-resize :
      (d : A) (max_index : ℤ) (xs : List A) (g : ℕ)
      → get_or (resize d max_index xs) g d ≡ get_or xs g d
  unfolding resize
  get_or-resize d max_index xs g =
      let len = (as_u64 max_index + 1) % 2 ^ 64 in
      elim (Bool-cases (ltb (length xs) len)) [
        | inl t ↦ rw t (get_or-append_replicate xs (len - length xs) g d)
        | inr t ↦ rw t refl
      ]

module _ {ℓ κ} {T : Type ℓ} {Acc : Type κ} (a : Aggregator T Acc) where
  -- A result of `n` accumulators, and what each of them has become, from the one that there was, or
  -- from the unit behind the last.
  pub record Accumulates (n : ℕ) (grouping : List ℕ) (nums : List T) (accs : List Acc)
      (r : Result (List Acc)) : Type κ where
    pub result : List Acc
    pub run : r ≡ ok result
    pub groups : length result ≡ n
    pub each :
        (g : ℕ)
        → g < n
        → get_or result g a.unit ≡ group_fold a.accumulate g grouping nums (get_or accs g a.unit)

  at_group :
      (i g : ℕ) (n : T) (accs : List Acc)
      → (if i == g then a.accumulate (get_or accs i a.unit) n else get_or accs g a.unit)
        ≡ (if i == g then a.accumulate (get_or accs g a.unit) n else get_or accs g a.unit)
  at_group i g n accs = elim (Bool-cases (i == g)) [
    | inl t ↦
        let e = (==_iff i g).0 t in
        ap (λ k. if i == g then a.accumulate (get_or accs k a.unit) n else get_or accs g a.unit) e
    | inr f ↦ rw f refl
  ]

  aggregate-cons :
      (i : ℕ) (grouping : List ℕ) (n : T) (nums : List T) (accs : List Acc) (acc : Acc)
      → get_elem? accs i ≡ some acc
      → aggregate a (i ∷ grouping) (n ∷ nums) accs
        ≡ aggregate a grouping nums (set accs i (a.accumulate acc n))
  unfolding aggregate
  aggregate-cons i grouping n nums accs acc h = rw (h, aggregate) refl

  pub aggregate-Accumulates :
      (grouping : List ℕ) (nums : List T) (accs : List Acc)
      → All (λ i. i < length accs) grouping
      → Accumulates (length accs) grouping nums accs (aggregate a grouping nums accs)
  unfolding aggregate
  aggregate-Accumulates [] nums accs h = record {
    result = accs;
    run = refl;
    groups = refl;
    each = λ g k. refl;
  }
  aggregate-Accumulates (i ∷ grouping) [] accs h = record {
    result = accs;
    run = refl;
    groups = refl;
    each = λ g k. refl;
  }
  aggregate-Accumulates (i ∷ grouping) (n ∷ nums) accs h =
      let acc = get_or accs i a.unit in
      let accs' = set accs i (a.accumulate acc n) in
      let same = length-set accs i (a.accumulate acc n) in
      let rest =
        aggregate-Accumulates grouping nums accs'
          (All-imp _ _ grouping (λ j k. omega (arith, same, k)) h.1) in
      let found = get_elem?-get_or accs i a.unit h.0 in
      record {
        result = rest.result;
        run = aggregate-cons i grouping n nums accs acc found ∙ rest.run;
        groups = rest.groups ∙ same;
        each = λ g k.
            rest.each g (omega (arith, same, k))
            ∙ ap (group_fold a.accumulate g grouping nums)
                (get_or-set accs i g (a.accumulate acc n) a.unit h.0 ∙ at_group i g n accs);
      }

  -- If every group index is below the number of accumulators that there are, or that `max_index` asks
  -- for, `Aggregate` returns as many as the greater of the two, and each holds what its group
  -- accumulates row by row, from its former value, or from the unit if it is new.
  pub execute-Accumulates :
      (max_index : ℤ) (grouping : List ℕ) (nums : List T) (accs : List Acc)
      → (let n = max (length accs) ((as_u64 max_index + 1) % 2 ^ 64) in
          All (λ i. i < n) grouping
          → Accumulates n grouping nums accs (execute a max_index grouping nums accs))
  unfolding execute
  execute-Accumulates max_index grouping nums accs h =
      let all = length-resize a.unit max_index accs in
      let grown =
        aggregate-Accumulates grouping nums (resize a.unit max_index accs)
          (All-imp _ _ grouping (λ i k. omega (arith, all, k)) h) in
      record {
        result = grown.result;
        run = grown.run;
        groups = grown.groups ∙ all;
        each = λ g k.
            grown.each g (omega (arith, all, k))
            ∙ ap (group_fold a.accumulate g grouping nums) (get_or-resize a.unit max_index accs g);
      }
