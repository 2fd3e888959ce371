-- ===== src/Engine/Operators/Filtering/InPlace.antt =====
-- Compacting a column in place, against filtering into a new vector.
use locust_db.Prelude.{
  ℕ, zero, suc, ◌+◌, ◌≤◌, ◌≡◌, refl, ap, ap₂, sym, ◌∙◌, true, inl, inr, Bool-cases, some, List, [],
  ◌∷◌, ◌++◌, append_assoc, ltb, length, length-append, get_elem?, get_elem?-append_length,
  set-append_length, take, length-take, take-append_self, arith,
}
use locust_db.Engine.Operators.Filtering.{
  filter_loop, filter, copy, compact_loop, compact, nonzero_compact_loop, nonzero_compact,
}

module _ {ℓ} {T : Type ℓ} where
  -- The vector is the kept rows, then stale ones, then the rows that are not read yet.
  abbrev layout : List T → List T → List T → List T
  layout kept stale rows = kept ++ (stale ++ rows)

  read_row :
      (kept stale rows : List T) (d : T) (i : ℕ)
      → length kept + length stale ≡ i
      → get_elem? (layout kept stale (d ∷ rows)) i ≡ some d
  read_row kept stale rows d i e =
      ap₂ get_elem? (sym (append_assoc kept stale (d ∷ rows)))
        (sym e ∙ sym (length-append kept stale))
      ∙ get_elem?-append_length (kept ++ stale) rows d

  -- A kept row moves to the end of the kept rows; where it was, a stale row stays.
  write_row :
      (kept stale rows : List T) (d : T) (i j : ℕ)
      → length kept ≡ j
      → length kept + length stale ≡ i
      → (stale' : List T) × (copy (layout kept stale (d ∷ rows)) i j
          ≡ layout (kept ++ d ∷ []) stale' rows)
        × (length stale' ≡ length stale)
  write_row kept [] rows d i j hj hi = (
    [],
    rw (read_row kept [] rows d i hi, sym hj, copy)
        (set-append_length kept rows d d ∙ sym (append_assoc kept (d ∷ []) rows)),
    refl,
  )
  write_row kept (z ∷ stale) rows d i j hj hi = (
    stale ++ d ∷ [],
    rw (read_row kept (z ∷ stale) rows d i hi, sym hj, copy)
        (set-append_length kept (stale ++ d ∷ rows) z d
          ∙ sym (append_assoc kept (d ∷ []) (stale ++ d ∷ rows))
          ∙ ap (λ rest. kept ++ d ∷ [] ++ rest) (sym (append_assoc stale (d ∷ []) rows))),
    omega (arith, length-append stale (d ∷ [])),
  )

  skip_row :
      (kept stale rows : List T) (d : T)
      → layout kept stale (d ∷ rows) ≡ layout kept (stale ++ d ∷ []) rows
  skip_row kept stale rows d = ap (λ rest. kept ++ rest) (sym (append_assoc stale (d ∷ []) rows))

  filter_loop-nil : (rows filtered : List T) → filter_loop rows [] filtered ≡ filtered
  unfolding filter_loop
  filter_loop-nil [] filtered = refl
  filter_loop-nil (d ∷ rows) filtered = refl

  filter_loop-take :
      (values : List T) (select : List ℕ) (filtered : List T)
      → filter_loop values (take (length values) select) filtered
        ≡ filter_loop values select filtered
  unfolding filter_loop
  filter_loop-take [] select filtered = refl
  filter_loop-take (d ∷ values) [] filtered = refl
  filter_loop-take (d ∷ values) (s ∷ select) filtered = filter_loop-take values select _

  compact_loop-filter_loop :
      (kept stale rows : List T) (select : List ℕ) (i j : ℕ)
      → length kept ≡ j
      → length kept + length stale ≡ i
      → length select ≤ length rows
      → compact_loop (layout kept stale rows) select i j ≡ filter_loop rows select kept
  unfolding compact_loop filter_loop
  compact_loop-filter_loop kept stale rows [] i j hj hi hs =
      rw (sym hj) (take-append_self kept (stale ++ rows)) ∙ sym (filter_loop-nil rows kept)
  compact_loop-filter_loop kept stale [] (s ∷ select) i j hj hi hs = absurd (omega arith)
  compact_loop-filter_loop kept stale (d ∷ rows) (s ∷ select) i j hj hi hs =
      elim (Bool-cases (ltb 0 s)) [
        | inl t ↦
            let (stale', moved, same) = write_row kept stale rows d i j hj hi in
            let longer = length-append kept (d ∷ []) in
            rw (t, moved, compact_loop, filter_loop)
              (compact_loop-filter_loop (kept ++ d ∷ []) stale' rows select (i + 1) (j + 1)
                (omega arith) (omega arith) (omega arith))
        | inr t ↦
            let longer = length-append stale (d ∷ []) in
            rw (t, skip_row kept stale rows d, compact_loop, filter_loop)
              (compact_loop-filter_loop kept (stale ++ d ∷ []) rows select (i + 1) j hj
                (omega arith) (omega arith))
      ]

  -- For any column and any selection, of any lengths: compacting in place and truncating returns the
  -- rows that `filter` writes to a new vector, in their order.
  pub compact-filter :
      (values : List T) (select : List ℕ) (filtered : List T)
      → compact values select ≡ filter true values select filtered
  unfolding compact filter
  compact-filter values select filtered =
      let short = length-take (length values) select in
      compact_loop-filter_loop [] [] values (take (length values) select) 0 0 refl refl
        (omega arith)
      ∙ filter_loop-take values select []

-- Compacting by the column itself reads each row before it is overwritten.
nonzero_compact_loop-filter_loop :
    (rounds : ℕ) (kept stale rows : List ℕ) (i j : ℕ)
    → length kept ≡ j
    → length kept + length stale ≡ i
    → rounds ≡ length rows
    → nonzero_compact_loop rounds (layout kept stale rows) i j ≡ filter_loop rows rows kept
unfolding nonzero_compact_loop filter_loop
nonzero_compact_loop-filter_loop zero kept stale [] i j hj hi hr =
    rw (sym hj) (take-append_self kept (stale ++ []))
nonzero_compact_loop-filter_loop zero kept stale (d ∷ rows) i j hj hi hr = absurd (omega arith)
nonzero_compact_loop-filter_loop (suc rounds) kept stale [] i j hj hi hr = absurd (omega arith)
nonzero_compact_loop-filter_loop (suc rounds) kept stale (d ∷ rows) i j hj hi hr =
    elim (Bool-cases (ltb 0 d)) [
      | inl t ↦
          let (stale', moved, same) = write_row kept stale rows d i j hj hi in
          let longer = length-append kept (d ∷ []) in
          rw (read_row kept stale rows d i hi, t, moved, nonzero_compact_loop, filter_loop)
            (nonzero_compact_loop-filter_loop rounds (kept ++ d ∷ []) stale' rows (i + 1) (j + 1)
              (omega arith) (omega arith) (omega arith))
      | inr t ↦
          let longer = length-append stale (d ∷ []) in
          rw
            (
              read_row kept stale rows d i hi,
              t,
              skip_row kept stale rows d,
              nonzero_compact_loop,
              filter_loop,
            )
            (nonzero_compact_loop-filter_loop rounds kept (stale ++ d ∷ []) rows (i + 1) j hj
              (omega arith) (omega arith))
    ]

-- Compacting a column in place by itself returns its nonzero rows, as `filter` by the column does.
pub nonzero_compact-filter :
    (values filtered : List ℕ) → nonzero_compact values ≡ filter true values values filtered
unfolding nonzero_compact filter
nonzero_compact-filter values filtered =
    nonzero_compact_loop-filter_loop (length values) [] [] values 0 0 refl refl refl
