-- ===== src/Engine/Operators/IsNull/Partition.antt =====
-- Filtering a nullable column by `IsNull` and by `IsNotNull`.
use mathlib.Core.List.{Perm, perm_middle}
use mathlib.Core.List.Perm
use locust_db.Prelude.{
  ℕ, ◌+◌, ◌≡◌, sym, ◌∙◌, true, inl, inr, Bool-cases, Option, none, some, List, [], ◌∷◌, ◌++◌,
  append_assoc, append-nil, length, if◌then◌else◌,
}
use locust_db.Bitvec
use locust_db.Engine.Operators.Filtering.{filter_loop, filter}
use locust_db.Engine.Operators.FuseNulls.Rows.{rows}
use locust_db.Engine.Operators.IsNull.{is_null_loop, is_null, is_not_null_loop, is_not_null}

module _ {ℓ} {T : Type ℓ} where
  -- The values of the rows that are not null.
  abbrev pub values : List (Option T) → List T
  values [] = []
  values (none ∷ rs) = values rs
  values (some x ∷ rs) = x ∷ values rs

  filter_loop-is_not_null :
      (xs : List T) (present : List ℕ) (i : ℕ) (out : List T)
      → filter_loop xs (is_not_null_loop present i (length xs)) out
        ≡ out ++ values (rows present i xs)
  unfolding filter_loop is_not_null_loop
  filter_loop-is_not_null [] present i out = sym (append-nil out)
  filter_loop-is_not_null (x ∷ xs) present i out = elim (Bool-cases (Bitvec.is_set present i)) [
    | inl e ↦ rw e (
        filter_loop-is_not_null xs present (i + 1) (out ++ x ∷ [])
        ∙ append_assoc out (x ∷ []) (values (rows present (i + 1) xs)))
    | inr e ↦ rw e (filter_loop-is_not_null xs present (i + 1) out)
  ]

  absent : (present : List ℕ) (i : ℕ) → List T → List T
  absent present i [] = []
  absent present i (x ∷ xs) =
      let rest = absent present (i + 1) xs in if Bitvec.is_set present i then rest else x ∷ rest

  filter_loop-is_null :
      (xs : List T) (present : List ℕ) (i : ℕ) (out : List T)
      → filter_loop xs (is_null_loop present i (length xs)) out ≡ out ++ absent present i xs
  unfolding filter_loop is_null_loop absent
  filter_loop-is_null [] present i out = sym (append-nil out)
  filter_loop-is_null (x ∷ xs) present i out = elim (Bool-cases (Bitvec.is_set present i)) [
    | inl e ↦ rw e (filter_loop-is_null xs present (i + 1) out)
    | inr e ↦ rw e (
        filter_loop-is_null xs present (i + 1) (out ++ x ∷ [])
        ∙ append_assoc out (x ∷ []) (absent present (i + 1) xs))
  ]

  absent-values :
      (xs : List T) (present : List ℕ) (i : ℕ)
      → Perm (absent present i xs ++ values (rows present i xs)) xs
  unfolding absent
  absent-values [] present i = Perm.rfl
  absent-values (x ∷ xs) present i = elim (Bool-cases (Bitvec.is_set present i)) [
    | inl e ↦ rw e (
        Perm.trans (perm_middle (absent present (i + 1) xs) (values (rows present (i + 1) xs)))
          (Perm.cons x (absent-values xs present (i + 1))))
    | inr e ↦ rw e (Perm.cons x (absent-values xs present (i + 1)))
  ]

  -- Filtering a nullable column by `IsNotNull` returns the values of its rows that are not null, in
  -- order; with what filtering by `IsNull` returns, they are all values of the column, each once.
  pub is_null-filter :
      (xs : List T) (present out out' : List ℕ) (filtered filtered' : List T)
      → let kept = filter true xs (is_not_null true (length xs) present out) filtered in
        let dropped = filter true xs (is_null true (length xs) present out') filtered' in
        (kept ≡ values (rows present 0 xs)) × Perm (dropped ++ kept) xs
  unfolding filter is_null is_not_null
  is_null-filter xs present out out' filtered filtered' =
      let kept = filter_loop-is_not_null xs present 0 [] in
      let dropped = filter_loop-is_null xs present 0 [] in
      (kept, rw (dropped, kept) (absent-values xs present 0))
