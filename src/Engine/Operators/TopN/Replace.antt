-- ===== src/Engine/Operators/TopN/Replace.antt =====
-- What `replace_all` keeps, once the vectors are full.
use locust_db.Prelude.{
  ℕ, zero, suc, ◌+◌, ◌-◌, ◌/◌, ◌<◌, ◌≡◌, refl, Bool, true, false, inl, inr, Bool-cases, some, List,
  [], ◌∷◌, length, All, All-imp, arith,
}
use locust_db.Prelude.Arrays.{get_or, get_or-cong, count, zip, count_zero_imp, range_from, one}
use locust_db.Engine.Operators.Comparator.{Comparator, IsOrder}
use locust_db.Engine.Operators.TopN.{heap_replace, replace_all}
use locust_db.Engine.Operators.TopN.Heap.{
  asym, not_trans, IsHeap, HasHole, Replaces, heap_loop-IsHeap, heap_loop-Replaces,
}

module _ {ℓ} {T : Type ℓ} (C : Comparator T) (law : IsOrder C) where
  -- A row comes after none of the others.
  abbrev pub after : T × ℕ → T × ℕ → Bool
  after row kept = C.cmp row.0 kept.0

  -- No row that was dropped comes before one that is kept.
  abbrev pub Beaten : List (T × ℕ) → List (T × ℕ) → Type 0
  Beaten dropped kept = All (λ row. count (after row) kept ≡ 0) dropped

  root_last :
      (keys : List T) (d : T) (fuel i : ℕ)
      → IsHeap C law keys d
      → i < fuel
      → i < length keys
      → C.cmp (get_or keys 0 d) (get_or keys i d) ≡ false
  root_last keys d zero i h p q = absurd (omega arith)
  root_last keys d (suc fuel) zero h p q = law.irrefl (get_or keys 0 d)
  root_last keys d (suc fuel) (suc i) h p q =
      not_trans C law (get_or keys 0 d) (get_or keys ((suc i - 1) / 2) d) (get_or keys (suc i) d)
        (root_last keys d fuel ((suc i - 1) / 2) h (omega arith) (omega arith))
        (h (suc i) (omega arith) q)

  none_after :
      (a d : T) (keys : List T) (values : List ℕ)
      → ((i : ℕ) → i < length keys → C.cmp a (get_or keys i d) ≡ false)
      → count (λ kept. C.cmp a kept.0) (zip keys values) ≡ 0
  none_after a d [] values h = refl
  none_after a d (k ∷ keys) [] h = refl
  none_after a d (k ∷ keys) (v ∷ values) h =
      let rest = none_after a d keys values (λ i p. h (suc i) (omega arith)) in
      let first = h 0 (omega arith) in ground (arith, first, rest)

  -- Full vectors, with the rows that were dropped so far.
  pub record Full (keys : List T) (values : List ℕ) (n : ℕ) (dropped : List (T × ℕ)) : Type ℓ where
    pub keys_length : length keys ≡ n
    pub values_length : length values ≡ n
    pub heap : (d : T) → IsHeap C law keys d
    pub beaten : Beaten dropped (zip keys values)

  IsHeap-default : (keys : List T) (d e : T) → IsHeap C law keys d → IsHeap C law keys e
  IsHeap-default keys d e h c p q =
      ground
        (arith, h c p q, get_or-cong keys c d e q, get_or-cong keys ((c - 1) / 2) d e (omega arith))

  hole :
      (root : T) (keys : List T) (key : T)
      → IsHeap C law (root ∷ keys) key
      → HasHole C law (root ∷ keys) key 0
  hole root keys key h = record {
    inside = omega arith;
    others = λ c p q ne up. h c p q;
    across = λ c pos p q e. absurd (omega arith);
    above = λ pos. absurd (omega arith);
  }

  -- One row of the input: what is kept and dropped after it.
  record Next (keys : List T) (values : List ℕ) (n : ℕ) (dropped : List (T × ℕ)) (row : T × ℕ)
      (r : List T × List ℕ) : Type ℓ where
    dropped_now : List (T × ℕ)
    full : Full r.0 r.1 n dropped_now
    contents :
        (p : T × ℕ → Bool)
        → count p (zip r.0 r.1) + count p dropped_now
          ≡ count p (zip keys values) + count p dropped + one (p row)

  module _ (root : T) (keys : List T) (v : ℕ) (values : List ℕ) (n : ℕ) (dropped : List (T × ℕ))
      (key : T) (index : ℕ) (f : Full (root ∷ keys) (v ∷ values) n dropped) where
    after_root :
        (a : T)
        → C.cmp a root ≡ false
        → count (after (a, index)) (zip (root ∷ keys) (v ∷ values)) ≡ 0
    after_root a h =
        count_zero_imp (after (root, v)) (after (a, index)) (zip (root ∷ keys) (v ∷ values))
          (λ kept. not_trans C law a root kept.0 h)
          (none_after root root (root ∷ keys) (v ∷ values)
            (λ i p. root_last (root ∷ keys) root (suc i) i (f.heap root) (omega arith) p))

    keep_heap :
        C.cmp key root ≡ false
        → Next (root ∷ keys) (v ∷ values) n dropped (key, index) (root ∷ keys, v ∷ values)
    keep_heap h = record {
      dropped_now = (key, index) ∷ dropped;
      full = record {
        keys_length = f.keys_length;
        values_length = f.values_length;
        heap = f.heap;
        beaten = (after_root key h, f.beaten);
      };
      contents = λ p. omega arith;
    }

    module _ (r : List T × List ℕ) (put : Replaces C law (root ∷ keys) (v ∷ values) key index 0 r)
        (first : C.cmp key root ≡ true) where
      still :
          (row : T × ℕ)
          → count (after row) (zip (root ∷ keys) (v ∷ values)) ≡ 0
          → count (after row) (zip r.0 r.1) ≡ 0
      still row h =
          let before_root : C.cmp row.0 root ≡ false = ground arith in
          let before_key = not_trans C law row.0 root key before_root (asym C law key root first) in
          ground (arith, put.contents (after row), before_key)

      put_root :
          ((d : T) → IsHeap C law r.0 d) → Next (root ∷ keys) (v ∷ values) n dropped (key, index) r
      put_root heap = record {
        dropped_now = (root, v) ∷ dropped;
        full = record {
          keys_length = omega (arith, put.keys_length, f.keys_length);
          values_length = omega (arith, put.values_length, f.values_length);
          heap = heap;
          beaten = (
            still (root, v) (after_root root (law.irrefl root)),
            All-imp (λ row. count (after row) (zip (root ∷ keys) (v ∷ values)) ≡ 0)
                (λ row. count (after row) (zip r.0 r.1) ≡ 0) dropped still f.beaten,
          );
        };
        contents = λ p. omega (arith, put.contents p);
      }

    replace_root :
        C.cmp key root ≡ true
        → Next
            (root ∷ keys)
            (v ∷ values)
            n
            dropped
            (key, index)
            (heap_replace C (root ∷ keys) (v ∷ values) key index 0)
    unfolding heap_replace
    replace_root h =
        put_root _
          (heap_loop-Replaces C law (length (root ∷ keys)) (root ∷ keys) (v ∷ values) key index 0
            (omega arith) (omega (arith, f.keys_length, f.values_length)))
          h
          (λ d. IsHeap-default _ key d (
            heap_loop-IsHeap C law (length (root ∷ keys)) (root ∷ keys) (v ∷ values) key index 0
              (hole root keys key (f.heap key)) (omega arith)))

  -- The rest of a batch: all rows are kept or dropped, and the vectors are still full.
  pub record Replaced (keys : List T) (values : List ℕ) (n : ℕ) (dropped : List (T × ℕ)) (index : ℕ)
      (input : List T) (r : List T × List ℕ) : Type ℓ where
    pub dropped_now : List (T × ℕ)
    pub full : Full r.0 r.1 n dropped_now
    pub contents :
        (p : T × ℕ → Bool)
        → count p (zip r.0 r.1) + count p dropped_now
          ≡ count p (zip keys values)
            + count p dropped
            + count p (zip input (range_from index (length input)))

  then_rest :
      (keys : List T) (values : List ℕ) (n : ℕ) (dropped : List (T × ℕ)) (index : ℕ) (key : T)
      (input : List T) (s r : List T × List ℕ) (next : Next keys values n dropped (key, index) s)
      → Replaced s.0 s.1 n next.dropped_now (index + 1) input r
      → Replaced keys values n dropped index (key ∷ input) r
  then_rest keys values n dropped index key input s r next rest = record {
    dropped_now = rest.dropped_now;
    full = rest.full;
    contents = λ p. omega (arith, next.contents p, rest.contents p);
  }

  pub replace_all_lem :
      (keys : List T) (values : List ℕ) (n : ℕ) (dropped : List (T × ℕ)) (index : ℕ)
      (input : List T)
      → 0 < n
      → Full keys values n dropped
      → (r : List T × List ℕ) × (replace_all C keys values index input ≡ some r)
        × Replaced keys values n dropped index input r
  unfolding replace_all
  replace_all_lem keys values n dropped index [] pos f = (
    (keys, values),
    refl,
    record { dropped_now = dropped; full = f; contents = λ p. omega arith },
  )
  replace_all_lem [] values n dropped index (key ∷ input) pos f =
      absurd (omega (arith, f.keys_length))
  replace_all_lem (root ∷ keys) [] n dropped index (key ∷ input) pos f =
      absurd (omega (arith, f.values_length))
  replace_all_lem (root ∷ keys) (v ∷ values) n dropped index (key ∷ input) pos f =
      elim (Bool-cases (C.cmp key root)) [
        | inl c ↦
            let s = heap_replace C (root ∷ keys) (v ∷ values) key index 0 in
            let next = replace_root root keys v values n dropped key index f c in
            let (r, runs, rest) =
              replace_all_lem s.0 s.1 n next.dropped_now (index + 1) input pos next.full in
            rw c (r, runs, then_rest _ _ n dropped index key input s r next rest)
        | inr c ↦
            let next = keep_heap root keys v values n dropped key index f c in
            let (r, runs, rest) =
              replace_all_lem (root ∷ keys) (v ∷ values) n next.dropped_now (index + 1) input pos
                next.full in
            rw c (
              r,
              runs,
              then_rest _ _ n dropped index key input (root ∷ keys, v ∷ values) r next rest,
            )
      ]
