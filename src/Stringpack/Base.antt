-- ===== src/Stringpack/Base.antt =====
-- src/stringpack.rs: what `PackedStrings` and `PackedBytes` share. Each string is its length, as
-- bytes of 255 and a last byte below 255, and then its bytes. The loops of the two iterators walk
-- the suffix of the data at the index.
use locust_db.Prelude.{
  ℕ, ◌+◌, ◌-◌, ◌%◌, ◌<◌, Option, none, some, List, [], ◌∷◌, ◌++◌, Acc, dec_lt, dite, arith, leb,
  ◌==◌, if◌then◌else◌, length, take, drop,
}

abbrev pub Bytes : Type 0
Bytes = List ℕ

-- `while len > 254 { data.push(255); len -= 255; } data.push(len as u8)`
unfoldable pub push_len : (dst : Bytes) (len : ℕ) → Acc ◌<◌ len → Bytes
unfolding dec_lt
push_len dst len (Acc.intro _ below) =
    dite (dec_lt 254 len)
      (λ h. push_len (dst ++ 255 ∷ []) (len - 255) (below (len - 255) (omega arith)))
      (λ _. dst ++ (len % 256) ∷ [])

-- The fields of `StringPackerIterator` and of `PackedBytesIterator`.
pub record PackedIterator : Type 0 where
  pub bytes : Bytes
  pub curr_index : ℕ

unfoldable pub from_slice : Bytes → PackedIterator
from_slice bytes = record { bytes = bytes; curr_index = 0 }

-- The loop over the bytes of 255 and the last byte: the length, and the index behind it.
unfoldable pub read_len : (rest : Bytes) (len index : ℕ) → Option (ℕ × ℕ)
read_len [] len index = none
read_len (b ∷ rest) len index =
    if b == 255 then read_len rest (len + 255) (index + 1) else some (len + b, index + 1)

-- `&l[from..to]`
unfoldable pub slice {ℓ} : {A : Type ℓ} → List A → ℕ → ℕ → Option (List A)
slice l from to =
    if leb from to
    then if leb to (length l) then some (take (to - from) (drop from l)) else none
    else none
