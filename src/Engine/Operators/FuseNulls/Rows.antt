-- ===== src/Engine/Operators/FuseNulls/Rows.antt =====
-- A nullable column by rows, and the present bits that setting them one by one makes.
use locust_db.Prelude.{
  ℕ, suc, ◌+◌, ◌-◌, ◌/◌, ◌<◌, ◌≡◌, refl, Bool, true, false, ◌&&◌, ◌||◌, inl, inr, Bool-cases,
  Option, none, some, List, [], ◌∷◌, ◌==◌, leb, if◌then◌else◌, All, arith,
}
use locust_db.Bitvec
use locust_db.Bitvec.Laws.{set_lem, is_set-zeros, replicate-All}
use locust_db.Engine.Operators.MergeKeep.Nullable.{bit_at}
use locust_db.Engine.Operators.FuseNulls.{no_bits}

-- Setting the bits of the rows from `i` on that are true.
abbrev pub mark : ℕ → List ℕ → List Bool → List ℕ
mark i present [] = present
mark i present (b ∷ bs) = mark (i + 1) (if b then Bitvec.set present i else present) bs

mark_if :
    (i k : ℕ) (present : List ℕ) (b : Bool)
    → All (λ b. b < 256) present
    → (Bitvec.is_set (if b then Bitvec.set present i else present) k
        ≡ ((i == k && b) || Bitvec.is_set present k))
      × All (λ b. b < 256) (if b then Bitvec.set present i else present)
mark_if i k present true h =
    let (bit, bytes, len) = set_lem present i k h in (ground (arith, bit), bytes)
mark_if i k present false h = (ground arith, h)

bit_at-skip :
    (b : Bool) (bs : List Bool) (i k : ℕ)
    → ((leb (i + 1) k && bit_at bs (k - (i + 1))) || (i == k && b))
      ≡ (leb i k && bit_at (b ∷ bs) (k - i))
bit_at-skip b bs i k = elim (Bool-cases (leb (i + 1) k)) [
  | inl e ↦ let d : k - i ≡ suc (k - (i + 1)) = ground arith in rw d (ground arith)
  | inr e ↦ elim (Bool-cases (i == k)) [
    | inl f ↦ let d : k - i ≡ 0 = ground arith in rw d (ground arith)
    | inr f ↦ ground arith
  ]
]

is_set-mark :
    (bs : List Bool) (i k : ℕ) (present : List ℕ)
    → All (λ b. b < 256) present
    → Bitvec.is_set (mark i present bs) k
      ≡ ((leb i k && bit_at bs (k - i)) || Bitvec.is_set present k)
is_set-mark [] i k present h = ground arith
is_set-mark (b ∷ bs) i k present h =
    let (bit, bytes) = mark_if i k present b h in
    ground (arith, is_set-mark bs (i + 1) k _ bytes, bit_at-skip b bs i k, bit)

is_set-mark_new : (bs : List Bool) (n k : ℕ) → Bitvec.is_set (mark 0 (no_bits n) bs) k ≡ bit_at bs k
is_set-mark_new bs n k =
    let zeros : Bitvec.is_set (no_bits n) k ≡ false = is_set-zeros (n / 8 + 1) k in
    ground (arith, is_set-mark bs 0 k (no_bits n) (replicate-All _), zeros)

module _ {ℓ} {T : Type ℓ} where
  -- What a nullable column holds, from row `i` on.
  abbrev pub rows : (present : List ℕ) (i : ℕ) → List T → List (Option T)
  rows present i [] = []
  rows present i (x ∷ xs) =
      (if Bitvec.is_set present i then some x else none) ∷ rows present (i + 1) xs

  abbrev pub zip_rows : List Bool → List T → List (Option T)
  zip_rows bs [] = []
  zip_rows [] (x ∷ xs) = none ∷ zip_rows [] xs
  zip_rows (b ∷ bs) (x ∷ xs) = (if b then some x else none) ∷ zip_rows bs xs

  rows-zip_rows :
      (xs : List T) (bs : List Bool) (present : List ℕ) (i : ℕ)
      → ((k : ℕ) → Bitvec.is_set present (i + k) ≡ bit_at bs k)
      → rows present i xs ≡ zip_rows bs xs
  rows-zip_rows [] bs present i h = refl
  rows-zip_rows (x ∷ xs) [] present i h =
      ground (arith, h 0, rows-zip_rows xs [] present (i + 1) (λ k. ground (arith, h (suc k))))
  rows-zip_rows (x ∷ xs) (b ∷ bs) present i h =
      ground (arith, h 0, rows-zip_rows xs bs present (i + 1) (λ k. ground (arith, h (suc k))))

  pub rows-mark :
      (xs : List T) (bs : List Bool) (n : ℕ) → rows (mark 0 (no_bits n) bs) 0 xs ≡ zip_rows bs xs
  rows-mark xs bs n =
      rows-zip_rows xs bs (mark 0 (no_bits n) bs) 0 (λ k. ground (arith, is_set-mark_new bs n k))

  -- `P` holds of the values that are not null, from row `i` on.
  abbrev pub PresentAll : (P : T → Type 0) (present : List ℕ) (i : ℕ) → List T → Type 0
  PresentAll P present i [] = Unit
  PresentAll P present i (x ∷ xs) =
      (Bitvec.is_set present i ≡ true → P x) × PresentAll P present (i + 1) xs
