-- ===== src/MemStore/Strings/Sizes.antt =====
-- src/mem_store/strings.rs: the distinct strings of a column, packed, are no longer than the column.
use locust_db.Prelude.{
  ℕ, ◌+◌, ◌^◌, ◌≤◌, ◌<◌, ◌≡◌, Bool-cases, inl, inr, some, List, [], ◌∷◌, All, arith, length,
}
use locust_db.Prelude.Arrays.{sum}
use locust_db.Prelude.Sort.{sort_by, sum-sort_by, sort_by-All}
use locust_db.Stringpack.{Bytes}
use locust_db.Stringpack.IndexedPackedStrings.Roundtrip.{Fits}
use locust_db.Engine.Operators.DictLookup.{bytes_eq}
use locust_db.MemStore.Strings.{insert_set, unique_loop, bytes_lt}
use locust_db.MemStore.Strings.Dictionary.{unique_loop-cases}

-- Strings of a length that a word of the packed strings holds.
abbrev pub IsShort : List Bytes → Type 0
IsShort ss = All (λ s. length s < 2 ^ 24) ss

abbrev pub total : List Bytes → ℕ
total ss = sum length ss

insert_set-IsShort :
    (s : Bytes) (ts : List Bytes) → length s < 2 ^ 24 → IsShort ts → IsShort (insert_set s ts)
unfolding insert_set
insert_set-IsShort s [] h k = (h, tt)
insert_set-IsShort s (t ∷ ts) h k = elim (Bool-cases (bytes_eq t s)) [
  | inl e ↦ rw e k
  | inr e ↦ rw e (k.0, insert_set-IsShort s ts h k.1)
]

total-insert_set : (s : Bytes) (ts : List Bytes) → total (insert_set s ts) ≤ length s + total ts
unfolding insert_set
total-insert_set s [] = omega arith
total-insert_set s (t ∷ ts) = ground (arith, total-insert_set s ts)

length-insert_set : (s : Bytes) (ts : List Bytes) → length (insert_set s ts) ≤ 1 + length ts
unfolding insert_set
length-insert_set s [] = omega arith
length-insert_set s (t ∷ ts) = ground (arith, length-insert_set s ts)

unique_loop-Bounds :
    (strings unique : List Bytes) (limit : ℕ) (r : List Bytes)
    → unique_loop strings unique limit ≡ some r
    → IsShort strings
    → IsShort unique
    → IsShort r
      × (total r ≤ total strings + total unique)
      × (length r ≤ length strings + length unique)
unfolding unique_loop
unique_loop-Bounds [] unique limit r h k l = ground arith
unique_loop-Bounds (s ∷ strings) unique limit r h k l =
    let (short, bytes, rows) =
      unique_loop-Bounds strings (insert_set s unique) limit r
        (unique_loop-cases s strings unique limit r h) k.1 (insert_set-IsShort s unique k.0 l) in
    (
      short,
      omega (arith, bytes, total-insert_set s unique),
      omega (arith, rows, length-insert_set s unique),
    )

pub IsShort-Fits :
    (offset : ℕ) (ss : List Bytes) → IsShort ss → offset + total ss < 2 ^ 40 → Fits offset ss
IsShort-Fits offset [] h k = tt
IsShort-Fits offset (s ∷ ss) h k =
    (h.0, omega arith, IsShort-Fits (offset + length s) ss h.1 (omega arith))

-- The sorted distinct strings can be packed, and there are no more of them than strings.
pub mapping-Fits :
    (strings : List Bytes) (limit : ℕ) (unique : List Bytes)
    → unique_loop strings [] limit ≡ some unique
    → IsShort strings
    → total strings < 2 ^ 40
    → Fits 0 (sort_by bytes_lt unique) × (length unique ≤ length strings)
mapping-Fits strings limit unique h k l =
    let (short, bytes, rows) = unique_loop-Bounds strings [] limit unique h k tt in
    (
      IsShort-Fits 0 (sort_by bytes_lt unique) (sort_by-All bytes_lt _ unique short)
          (omega (arith, bytes, l, sum-sort_by bytes_lt length unique)),
      omega (arith, rows),
    )
