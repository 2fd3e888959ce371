-- ===== src/Stringpack/PackedBytes.antt =====
-- src/stringpack.rs: `PackedBytes` and `PackedBytesIterator`.
pub mod Equivalence
use locust_db.Prelude.{
  ℕ, ◌+◌, ◌-◌, ◌%◌, ◌<◌, Acc, dec_lt, dite, ◌==◌, arith, Bool, Option, none, some, List, [], ◌∷◌,
  ◌++◌, lt_wf, ltb, if◌then◌else◌, length, drop,
}
use locust_db.Stringpack.Base.{Bytes, PackedIterator, slice}

pub record PackedBytes : Type 0 where
  pub bytes : Bytes

-- The inner loop of `from_iterator`, and the last byte of the length.
unfoldable pub push_len : (dst : Bytes) (len : ℕ) → Acc ◌<◌ len → Bytes
unfolding dec_lt
push_len dst len (Acc.intro _ below) =
    dite (dec_lt 254 len)
      (λ h. push_len (dst ++ 255 ∷ []) (len - 255) (below (len - 255) (omega arith)))
      (λ _. dst ++ (len % 256) ∷ [])

-- The loop of `from_iterator`, with its vector so far.
pub push_all : Bytes → List Bytes → Bytes
unfolding push_len lt_wf
push_all dst [] = dst
push_all dst (b ∷ bs) = push_all (push_len dst (length b) (lt_wf.apply (length b)) ++ b) bs

unfoldable pub from_iterator : List Bytes → PackedBytes
unfolding push_all
from_iterator bytes = record { bytes = push_all [] bytes }

unfoldable pub has_more : PackedIterator → Bool
has_more it = ltb it.curr_index (length it.bytes)

-- The loop of `next`, on the data from `index` on, and the last byte of the length: the length, and
-- the index behind it.
unfoldable pub read_len : (rest : Bytes) (len index : ℕ) → Option (ℕ × ℕ)
read_len [] len index = none
read_len (b ∷ rest) len index =
    if b == 255 then read_len rest (len + 255) (index + 1) else some (len + b, index + 1)

-- `PackedBytesIterator::next`: outside, `none` is a panic; inside, it is the end.
unfoldable pub next : PackedIterator → Option (Option Bytes × PackedIterator)
unfolding has_more read_len slice
next it =
    if has_more it
    then elim (read_len (drop it.curr_index it.bytes) 0 it.curr_index) [
      | none ↦ none
      | some (len, index) ↦ elim (slice it.bytes index (index + len)) [
        | none ↦ none
        | some result ↦ some (some result, record it { curr_index = index + len })
      ]
    ]
    else some (none, it)
