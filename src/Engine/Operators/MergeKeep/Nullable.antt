-- ===== src/Engine/Operators/MergeKeep/Nullable.antt =====
-- The present bits of a merged nullable column.
use locust_db.Prelude.{
  ℕ, zero, suc, ◌+◌, ◌<◌, ◌≡◌, refl, Bool, true, false, ◌||◌, ◌&&◌, ◌==◌, inl, inr, Bool-cases,
  Option, none, some, List, [], ◌∷◌, ◌++◌, length, length-append, All, arith,
}
use locust_db.Bitvec
use locust_db.Bitvec.Laws.{set_lem}
use locust_db.Engine.Operators.MergeKeep.{
  keep_loop, merge_keep, copy_bit, keep_nullable_loop, merge_keep_nullable,
}

-- The present bits of a column, from row `i` on.
abbrev pub flags {ℓ} : {T : Type ℓ} → List ℕ → ℕ → List T → List Bool
flags present i [] = []
flags present i (x ∷ xs) = Bitvec.is_set present i ∷ flags present (i + 1) xs

-- A bit past the end is not set.
abbrev pub bit_at : List Bool → ℕ → Bool
bit_at [] k = false
bit_at (b ∷ bs) zero = b
bit_at (b ∷ bs) (suc k) = bit_at bs k

bit_at-push :
    (bs : List Bool) (b : Bool) (k : ℕ)
    → bit_at (bs ++ b ∷ []) k ≡ ((length bs == k && b) || bit_at bs k)
bit_at-push [] true zero = refl
bit_at-push [] false zero = refl
bit_at-push [] b (suc k) = ground arith
bit_at-push (c ∷ bs) b zero = ground arith
bit_at-push (c ∷ bs) b (suc k) = ground (arith, bit_at-push bs b k)

is_set-nil : (k : ℕ) → Bitvec.is_set [] k ≡ false
unfolding Bitvec.is_set
is_set-nil k = ground arith

-- A bit vector holds these bits.
record Holds (present : List ℕ) (bs : List Bool) : Type 0 where
  bytes : All (λ b. b < 256) present
  agree : (k : ℕ) → Bitvec.is_set present k ≡ bit_at bs k

copy_bit-Holds :
    (from : List ℕ) (i : ℕ) (present : List ℕ) (bs : List Bool) (at : ℕ)
    → Holds present bs
    → length bs ≡ at
    → Holds (copy_bit from i present at) (bs ++ Bitvec.is_set from i ∷ [])
copy_bit-Holds from i present bs at h e = elim (Bool-cases (Bitvec.is_set from i)) [
  | inl s ↦
      let (bit, bytes, len) = set_lem present at at h.bytes in
      rw s record {
        bytes = bytes;
        agree = λ k. ground (arith, set_lem present at k h.bytes, bit_at-push bs true k, h.agree k);
      }
  | inr s ↦
      rw s
        record { bytes = h.bytes; agree = λ k. ground (arith, bit_at-push bs false k, h.agree k) }
]

length-push_bit :
    (bs : List Bool) (b : Bool) (n m : ℕ) → length bs ≡ n → n + 1 ≡ m → length (bs ++ b ∷ []) ≡ m
length-push_bit bs b n m e f = omega (arith, length-append bs (b ∷ []))

-- Values and present bits, merged each on their own, and the merged nullable column.
pub data Agrees {ℓ} {T : Type ℓ}
    : Option (List T) → Option (List Bool) → Option (List T × List ℕ) → Type ℓ where
  out_of_range : Agrees none none none
  aligned :
      (values : List T) (bs : List Bool) (present : List ℕ)
      → ((k : ℕ) → Bitvec.is_set present k ≡ bit_at bs k)
      → Agrees (some values) (some bs) (some (values, present))

module _ {ℓ} {T : Type ℓ} where
  keep_nullable_loop-Agrees :
      (ops : List ℕ) (l r : List T) (lp rp : List ℕ) (i j : ℕ) (result : List T) (present : List ℕ)
      (bs : List Bool)
      → Holds present bs
      → length bs ≡ i + j
      → Agrees
          (keep_loop ops l r result)
          (keep_loop ops (flags lp i l) (flags rp j r) bs)
          (keep_nullable_loop ops l r lp rp i j result present)
  unfolding keep_loop keep_nullable_loop
  keep_nullable_loop-Agrees [] l r lp rp i j result present bs h e =
      aligned result bs present h.agree
  keep_nullable_loop-Agrees (op ∷ ops) [] [] lp rp i j result present bs h e =
      elim (Bool-cases (op == 1)) [
        | inl t ↦ rw (t, keep_loop, keep_nullable_loop) (out_of_range)
        | inr t ↦ rw (t, keep_loop, keep_nullable_loop) (out_of_range)
      ]
  keep_nullable_loop-Agrees (op ∷ ops) [] (y ∷ r) lp rp i j result present bs h e =
      elim (Bool-cases (op == 1)) [
        | inl t ↦ rw (t, keep_loop, keep_nullable_loop) (out_of_range)
        | inr t ↦
            rw (t, keep_loop, keep_nullable_loop)
              (keep_nullable_loop-Agrees ops [] r lp rp i (j + 1) (result ++ y ∷ [])
                (copy_bit rp j present (i + j)) (bs ++ Bitvec.is_set rp j ∷ [])
                (copy_bit-Holds rp j present bs (i + j) h e)
                (length-push_bit bs (Bitvec.is_set rp j) (i + j) (i + (j + 1)) e (omega arith)))
      ]
  keep_nullable_loop-Agrees (op ∷ ops) (x ∷ l) [] lp rp i j result present bs h e =
      elim (Bool-cases (op == 1)) [
        | inl t ↦
            rw (t, keep_loop, keep_nullable_loop)
              (keep_nullable_loop-Agrees ops l [] lp rp (i + 1) j (result ++ x ∷ [])
                (copy_bit lp i present (i + j)) (bs ++ Bitvec.is_set lp i ∷ [])
                (copy_bit-Holds lp i present bs (i + j) h e)
                (length-push_bit bs (Bitvec.is_set lp i) (i + j) (i + 1 + j) e (omega arith)))
        | inr t ↦ rw (t, keep_loop, keep_nullable_loop) (out_of_range)
      ]
  keep_nullable_loop-Agrees (op ∷ ops) (x ∷ l) (y ∷ r) lp rp i j result present bs h e =
      elim (Bool-cases (op == 1)) [
        | inl t ↦
            rw (t, keep_loop, keep_nullable_loop)
              (keep_nullable_loop-Agrees ops l (y ∷ r) lp rp (i + 1) j (result ++ x ∷ [])
                (copy_bit lp i present (i + j)) (bs ++ Bitvec.is_set lp i ∷ [])
                (copy_bit-Holds lp i present bs (i + j) h e)
                (length-push_bit bs (Bitvec.is_set lp i) (i + j) (i + 1 + j) e (omega arith)))
        | inr t ↦
            rw (t, keep_loop, keep_nullable_loop)
              (keep_nullable_loop-Agrees ops (x ∷ l) r lp rp i (j + 1) (result ++ y ∷ [])
                (copy_bit rp j present (i + j)) (bs ++ Bitvec.is_set rp j ∷ [])
                (copy_bit-Holds rp j present bs (i + j) h e)
                (length-push_bit bs (Bitvec.is_set rp j) (i + j) (i + (j + 1)) e (omega arith)))
      ]

  -- For any ops: `merge_keep_nullable` returns the values that `merge_keep` returns, and a bit
  -- vector of exactly the bits that `merge_keep` returns for the two columns of present bits. It
  -- reads out of range where `merge_keep` does.
  pub merge_keep_nullable-merge_keep :
      (ops : List ℕ) (left right : List T) (left_present right_present : List ℕ)
      → Agrees
          (merge_keep ops left right)
          (merge_keep ops (flags left_present 0 left) (flags right_present 0 right))
          (merge_keep_nullable ops left right left_present right_present)
  unfolding merge_keep merge_keep_nullable
  merge_keep_nullable-merge_keep ops left right lp rp =
      keep_nullable_loop-Agrees ops left right lp rp 0 0 [] [] []
        record { bytes = tt; agree = is_set-nil } refl
