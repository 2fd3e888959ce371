-- ===== src/Engine/Operators/TopN/Fill.antt =====
-- The vectors of `TopN` while they fill up, and when they are full and sorted.
use locust_db.Prelude.{
  ℕ, ◌+◌, ◌-◌, ◌/◌, ◌<◌, ◌≤◌, ◌≡◌, refl, sym, ap, ◌∙◌, Bool, true, some, List, [], ◌∷◌, ◌++◌, map,
  length, length-append, length-take, take, ◌==◌, if◌then◌else◌, Ord, arith,
}
use locust_db.Prelude.Arrays.{
  get_or, count, count-map, count-zip_append, zip, zip-map_self, range_from, range_from-append,
  length-range_from, read_all,
}
use locust_db.Prelude.Sort.{
  sort_by, sort_by-map, count-sort_by, length-sort_by, IsWeak, IsOrdered-get, sort_by-IsOrdered,
}
use locust_db.Engine.Operators.Comparator.{Comparator, IsOrder}
use locust_db.Engine.Operators.TopN.{TopN, sort_order, sort_full, fill, execute_rest}
use locust_db.Engine.Operators.TopN.Heap.{asym, not_trans, IsHeap}
use locust_db.Engine.Operators.TopN.Replace.{Full, replace_all_lem}

-- The rows of a column, with their indices.
abbrev pub rows {ℓ} : {T : Type ℓ} → List T → List (T × ℕ)
rows seen = zip seen (range_from 0 (length seen))

pub count_all {ℓ} : {A : Type ℓ} (xs : List A) → count (λ _. true) xs ≡ length xs
count_all [] = refl
count_all (x ∷ xs) = omega (arith, count_all xs)

count-rows_append {ℓ} :
    {T : Type ℓ} (p : T × ℕ → Bool) (seen input : List T)
    → count p (rows (seen ++ input))
      ≡ count p (rows seen) + count p (zip input (range_from (length seen) (length input)))
count-rows_append p seen input =
    let e : 0 + length seen ≡ length seen = omega arith in
    rw (length-append seen input, ← range_from-append 0 (length seen) (length input), e)
      (count-zip_append p seen input (range_from 0 (length seen))
        (range_from (length seen) (length input)) (sym (length-range_from 0 (length seen))))

module _ {ℓ} {T : Type ℓ} ⦃o : Ord T⦄ (C : Comparator T) (law : IsOrder C)
    (agrees : (a b : T) → sort_order C a b ≡ C.cmp b a) where
  -- All rows so far are kept, in their order, or the vectors are full.
  pub record Filling (op : TopN T) (seen : List T) : Type ℓ where
    pub keys_seen : op.keys ≡ seen
    pub indices_seen : op.indices ≡ range_from 0 (length seen)
    pub last_index : op.last_index ≡ length seen
    pub room : length seen < op.n

  pub record Filled (op : TopN T) (seen : List T) : Type ℓ where
    pub dropped : List (T × ℕ)
    pub full : Full C law op.keys op.indices op.n dropped
    pub last_index : op.last_index ≡ length seen
    pub contents :
        (p : T × ℕ → Bool)
        → count p (zip op.keys op.indices) + count p dropped ≡ count p (rows seen)

  weak : IsWeak (sort_order C)
  weak = record {
    asym = λ a b h. agrees b a ∙ asym C law b a (sym (agrees a b) ∙ h);
    not_trans = λ a b c h k.
        agrees c a ∙ not_trans C law a b c (sym (agrees b a) ∙ h) (sym (agrees c b) ∙ k);
  }

  sorted-IsHeap : (keys : List T) (d : T) → IsHeap C law (sort_by (sort_order C) keys) d
  sorted-IsHeap keys d c p q =
      let sorted = sort_by (sort_order C) keys in
      sym (agrees (get_or sorted c d) (get_or sorted ((c - 1) / 2) d))
      ∙ IsOrdered-get (sort_order C) weak sorted ((c - 1) / 2) c d
          (sort_by-IsOrdered (sort_order C) weak keys) (omega arith) q

  -- Sorting the indices by their keys, and the keys, keeps the rows together.
  count-sorted :
      (p : T × ℕ → Bool) (keys : List T) (d : T)
      → count p (
          zip (sort_by (sort_order C) keys) (
            sort_by
              (λ i j. sort_order C (get_or keys i d) (get_or keys j d))
              (range_from 0 (length keys))))
        ≡ count p (rows keys)
  count-sorted p keys d =
      let key = λ (i : ℕ). get_or keys i d in
      let order = λ (i j : ℕ). sort_order C (key i) (key j) in
      let indices = range_from 0 (length keys) in
      let row : ℕ → T × ℕ = λ i. (key i, i) in
      let sorted : sort_by (sort_order C) keys ≡ map key (sort_by order indices) =
        ap (sort_by (sort_order C)) (sym (read_all keys d))
        ∙ sort_by-map (sort_order C) key indices in
      let before : rows keys ≡ map row indices =
        ap (λ ks. zip ks indices) (sym (read_all keys d)) ∙ zip-map_self key indices in
      rw
        (
          sorted,
          before,
          zip-map_self key (sort_by order indices),
          count-map p row indices,
          count-map p row (sort_by order indices),
        )
        (count-sort_by order (λ i. p (row i)) indices)

  -- The operator whose vectors hold all rows so far.
  abbrev pub holding : (n : ℕ) → List T → TopN T
  holding n seen = record {
    n = n;
    last_index = length seen;
    indices = range_from 0 (length seen);
    keys = seen;
  }

  pub Filling-holding : (op : TopN T) (seen : List T) → Filling op seen → op ≡ holding op.n seen
  Filling-holding op seen f = ground (arith, f.keys_seen, f.indices_seen, f.last_index)

  pub sort_full-Filled :
      (n : ℕ) (seen : List T) → length seen ≡ n → 0 < n → Filled (sort_full C (holding n seen)) seen
  unfolding sort_full
  sort_full-Filled n [] e pos = absurd (omega arith)
  sort_full-Filled n (x ∷ seen) e pos =
      let keys = x ∷ seen in
      let indices = range_from 0 (length keys) in
      let order = λ (i j : ℕ). sort_order C (get_or keys i x) (get_or keys j x) in
      record {
        dropped = [];
        full = record {
          keys_length = length-sort_by (sort_order C) keys ∙ e;
          values_length = length-sort_by order indices ∙ length-range_from 0 (length keys) ∙ e;
          heap = sorted-IsHeap keys;
          beaten = tt;
        };
        last_index = refl;
        contents = λ p. omega (arith, count-sorted p keys x);
      }

  pub execute_rest-Filled :
      (op : TopN T) (seen input : List T)
      → 0 < op.n
      → Filled op seen
      → (op' : TopN T) × (execute_rest C op input ≡ some op')
        × (op'.n ≡ op.n)
        × Filled op' (seen ++ input)
  unfolding execute_rest
  execute_rest-Filled op seen input pos f =
      let (r, runs, rest) =
        replace_all_lem C law op.keys op.indices op.n f.dropped op.last_index input pos f.full in
      (
        record op { keys = r.0; indices = r.1; last_index = op.last_index + length input },
        rw (runs, execute_rest) refl,
        refl,
        record {
          dropped = rest.dropped_now;
          full = rest.full;
          last_index = omega (arith, f.last_index, length-append seen input);
          contents = λ p.
              let there = rest.contents p in
              let now = f.contents p in
              let all = count-rows_append p seen input in
              let at = ap (λ i. count p (zip input (range_from i (length input)))) f.last_index in
              omega (arith, there, now, all, at);
        },
      )

  pub filled_up :
      (n k : ℕ) (seen input : List T)
      → k ≤ length input
      → fill C (holding n seen) k input ≡ (
          if length seen + k == n
          then sort_full C (holding n (seen ++ take k input))
          else holding n (seen ++ take k input))
  unfolding fill
  filled_up n k seen input h =
      let size : length (take k input) ≡ k = omega (arith, length-take k input) in
      let all : length (seen ++ take k input) ≡ length seen + k =
        omega (arith, length-append seen (take k input), size) in
      let e : 0 + length seen ≡ length seen = omega arith in
      let indices : range_from 0 (length seen) ++ range_from (length seen) k
          ≡ range_from 0 (length seen + k) =
        rw e at (range_from-append 0 (length seen) k) in
      let filled : TopN T = record {
        n = n;
        last_index = length seen + k;
        indices = range_from 0 (length seen) ++ range_from (length seen) k;
        keys = seen ++ take k input;
      } in
      let whole : filled ≡ holding n (seen ++ take k input) = ground (arith, indices, all) in
      ap (λ (f : TopN T). if length f.indices == n then sort_full C f else f) whole
      ∙ ap
          (λ size.
            if size == n
            then sort_full C (holding n (seen ++ take k input))
            else holding n (seen ++ take k input))
          (length-range_from 0 (length (seen ++ take k input)) ∙ all)

  pub sort_full-n : (n : ℕ) (seen : List T) → (sort_full C (holding n seen)).n ≡ n
  unfolding sort_full
  sort_full-n n [] = refl
  sort_full-n n (x ∷ seen) = refl
