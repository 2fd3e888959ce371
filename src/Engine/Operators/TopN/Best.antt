-- ===== src/Engine/Operators/TopN/Best.antt =====
-- `TopN` over the batches of a column, against the rows of the column.
use locust_db.Prelude.{
  ℕ, zero, suc, ◌+◌, ◌-◌, ◌<◌, ◌≤◌, ◌≡◌, ◌⊎◌, refl, sym, ap, ◌∙◌, min, Bool, true, false, inl, inr,
  Bool-cases, Option, some, List, [], ◌∷◌, ◌++◌, append_assoc, append-nil, length, length-append,
  length-take, take, drop, take_all, take-append-drop, ltb, lt→ltb, le→ltb, ◌==◌, ==_iff, Ord,
  arith,
}
use locust_db.Prelude.Arrays.{count, zip, range_from, length-range_from, length-zip}
use locust_db.Engine.Operators.Comparator.{Comparator, IsOrder}
use locust_db.Engine.Operators.TopN.{
  TopN, sort_order, sort_full, fill, execute_rest, execute, execute_all, init,
}
use locust_db.Engine.Operators.TopN.Replace.{Beaten}
use locust_db.Engine.Operators.TopN.Fill.{
  rows, count_all, Filling, Filled, holding, Filling-holding, sort_full-Filled, execute_rest-Filled,
  filled_up, sort_full-n,
}

abbrev pub concat {ℓ} : {T : Type ℓ} → List (List T) → List T
concat [] = []
concat (batch ∷ batches) = batch ++ concat batches

module _ {ℓ} {T : Type ℓ} ⦃o : Ord T⦄ (C : Comparator T) (law : IsOrder C)
    (agrees : (a b : T) → sort_order C a b ≡ C.cmp b a) where
  -- The operator after some batches.
  abbrev After : TopN T → List T → Type ℓ
  After op seen = Filling C law agrees op seen ⊎ Filled C law agrees op seen

  -- What a batch leads to.
  abbrev Leads : (n : ℕ) → Option (TopN T) → List T → Type ℓ
  Leads n returned seen = (op : TopN T) × (returned ≡ some op) × (op.n ≡ n) × After op seen

  full_now :
      (n k : ℕ) (seen input : List T)
      → 0 < n
      → length (seen ++ take k input) ≡ n
      → Leads n
          (execute_rest C
            (sort_full C (holding C law agrees n (seen ++ take k input)))
            (drop k input))
          (seen ++ input)
  full_now n k seen input pos e =
      let now = sort_full C (holding C law agrees n (seen ++ take k input)) in
      let same = sort_full-n C law agrees n (seen ++ take k input) in
      let (op, runs, kept, f) =
        execute_rest-Filled C law agrees now (seen ++ take k input) (drop k input)
          (omega (arith, same)) (sort_full-Filled C law agrees n (seen ++ take k input) e pos) in
      let whole : (seen ++ take k input) ++ drop k input ≡ seen ++ input =
        append_assoc seen (take k input) (drop k input)
        ∙ ap (λ l. seen ++ l) (take-append-drop k input) in
      (op, runs, kept ∙ same, inr (rw whole at f))

  still_filling :
      (n : ℕ) (seen input : List T)
      → length (seen ++ input) < n
      → Leads n (execute_rest C (holding C law agrees n (seen ++ input)) []) (seen ++ input)
  unfolding execute_rest
  still_filling n seen input h = (
    record (holding C law agrees n (seen ++ input)) { last_index = length (seen ++ input) + 0 },
    refl,
    refl,
    inl record { keys_seen = refl; indices_seen = refl; last_index = omega arith; room = h },
  )

  execute_filling :
      (n : ℕ) (seen input : List T)
      → length seen < n
      → execute C (holding C law agrees n seen) input
        ≡ execute_rest C
            (fill C (holding C law agrees n seen) (min (n - length seen) (length input)) input)
            (drop (min (n - length seen) (length input)) input)
  unfolding execute
  execute_filling n seen input room = rw (length-range_from 0 (length seen), lt→ltb _ _ room) refl

  drop_all : (k : ℕ) (xs : List T) → length xs ≤ k → drop k xs ≡ []
  drop_all zero [] h = refl
  drop_all zero (x ∷ xs) h = absurd (omega arith)
  drop_all (suc k) [] h = refl
  drop_all (suc k) (x ∷ xs) h = drop_all k xs (omega arith)

  execute-holding :
      (n : ℕ) (seen input : List T)
      → 0 < n
      → length seen < n
      → Leads n (execute C (holding C law agrees n seen) input) (seen ++ input)
  execute-holding n seen input pos room =
      let k = min (n - length seen) (length input) in
      let small : k ≤ length input = omega arith in
      let size : length (seen ++ take k input) ≡ length seen + k =
        omega (arith, length-append seen (take k input), length-take k input) in
      rw (execute_filling n seen input room, filled_up C law agrees n k seen input small)
        (elim (Bool-cases (length seen + k == n)) [
          | inl e ↦ rw e (full_now n k seen input pos (size ∙ (==_iff _ _).0 e))
          | inr e ↦
              let all : length input ≤ k = ground arith in
              let taken = take_all k input all in
              rw (e, drop_all k input all, taken)
                (still_filling n seen input
                  (ground (arith, size, ap length taken, length-append seen input)))
        ])

  execute-After :
      (op : TopN T) (seen input : List T)
      → 0 < op.n
      → After op seen
      → (op' : TopN T) × (execute C op input ≡ some op')
        × (op'.n ≡ op.n)
        × After op' (seen ++ input)
  unfolding execute
  execute-After op seen input pos (inr f) =
      let (op', runs, same, g) = execute_rest-Filled C law agrees op seen input pos f in
      let full : ltb (length op.indices) op.n ≡ false =
        le→ltb _ _ (omega (arith, f.full.values_length)) in
      (op', rw full runs, same, inr g)
  execute-After op seen input pos (inl f) =
      rw (Filling-holding C law agrees op seen f) (execute-holding op.n seen input pos f.room)

  execute_all-After :
      (op : TopN T) (seen : List T) (batches : List (List T))
      → 0 < op.n
      → After op seen
      → Leads op.n (execute_all C op batches) (seen ++ concat batches)
  unfolding execute_all
  execute_all-After op seen [] pos a = (op, refl, refl, rw (append-nil seen) a)
  execute_all-After op seen (batch ∷ batches) pos a =
      let (op', runs, same, a') = execute-After op seen batch pos a in
      let (op'', runs', same', a'') =
        execute_all-After op' (seen ++ batch) batches (omega (arith, same)) a' in
      (
        op'',
        rw (runs, execute_all) runs',
        same' ∙ same,
        rw (append_assoc seen batch (concat batches)) at a'',
      )

  -- Kept and dropped rows.
  pub record Best (n : ℕ) (kept : List (T × ℕ)) (seen : List T) : Type ℓ where
    pub dropped : List (T × ℕ)
    pub size : length kept ≡ min n (length seen)
    pub all_rows : (p : T × ℕ → Bool) → count p kept + count p dropped ≡ count p (rows seen)
    pub beaten : Beaten C law dropped kept

  After-Best :
      (op : TopN T) (seen : List T) → After op seen → Best op.n (zip op.keys op.indices) seen
  After-Best op seen (inl f) =
      let rows_kept : zip op.keys op.indices ≡ rows seen = rw (f.keys_seen, f.indices_seen) refl in
      let same : length seen ≡ length (range_from 0 (length seen)) =
        sym (length-range_from 0 (length seen)) in
      rw rows_kept record {
        dropped = [];
        size = omega (arith, f.room, length-zip seen (range_from 0 (length seen)) same);
        all_rows = λ p. omega arith;
        beaten = tt;
      }
  After-Best op seen (inr f) =
      let all = f.contents (λ _. true) in
      let kept = length-zip op.keys op.indices (f.full.keys_length ∙ sym f.full.values_length) in
      let seen_length =
        length-zip seen (range_from 0 (length seen)) (sym (length-range_from 0 (length seen))) in
      record {
        dropped = f.dropped;
        size = omega (
          arith,
          all,
          kept,
          f.full.keys_length,
          seen_length,
          count_all (zip op.keys op.indices),
          count_all f.dropped,
          count_all (rows seen),
        );
        all_rows = f.contents;
        beaten = f.full.beaten;
      }

  -- For any batches of a column, whose elements the comparator orders totally, `n` at least 1, and a
  -- comparator by whose `is_less_than` the vectors are sorted against its order: `TopN` does not
  -- panic; the keys and indices that it keeps are rows of the column, as many as there are up to `n`,
  -- each row being kept or dropped once; and no dropped row comes before one that is kept.
  pub execute_all-Best :
      (n : ℕ) (batches : List (List T))
      → 0 < n
      → (op : TopN T) × (execute_all C (init n) batches ≡ some op)
        × Best n (zip op.keys op.indices) (concat batches)
  execute_all-Best n batches pos =
      let (op, runs, same, a) =
        execute_all-After (init n) [] batches pos
          (inl record { keys_seen = refl; indices_seen = refl; last_index = refl; room = pos }) in
      (op, runs, rw same at (After-Best op (concat batches) a))
