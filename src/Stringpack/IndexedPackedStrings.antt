-- ===== src/Stringpack/IndexedPackedStrings.antt =====
-- src/stringpack.rs: `IndexedPackedStrings`, one word per string with its offset and its length.
-- usize and u64 have 64 bits: `<<` drops what leaves the word, `+` wraps.
pub mod Roundtrip
pub mod Overflow
use locust_db.Prelude.{ℕ, ◌+◌, ◌*◌, ◌/◌, ◌%◌, ◌^◌, Option, none, some, List, [], ◌∷◌, ◌++◌, length}
use locust_db.Stringpack.Base.{Bytes, slice}

pub record IndexedPackedStrings : Type 0 where
  pub words : List ℕ
  pub backing_store : Bytes

abbrev pub default : IndexedPackedStrings
default = record { words = []; backing_store = [] }

-- `((offset << 24) + len) as u64`
unfoldable pub pack_word : (offset len : ℕ) → ℕ
pack_word offset len = ((offset * 2 ^ 24) % 2 ^ 64 + len) % 2 ^ 64

-- `&backing_store[offset..(offset + len)]` for `offset_len >> 24` and `offset_len & 0x00ff_ffff`
unfoldable pub read_word : (backing_store : Bytes) (offset_len : ℕ) → Option Bytes
unfolding slice
read_word backing_store offset_len =
    slice backing_store (offset_len / 2 ^ 24) (offset_len / 2 ^ 24 + offset_len % 2 ^ 24)

unfoldable pub push : IndexedPackedStrings → Bytes → IndexedPackedStrings
unfolding pack_word
push ps elem = record {
  words = ps.words ++ pack_word (length ps.backing_store) (length elem) ∷ [];
  backing_store = ps.backing_store ++ elem;
}

-- A loop of `push`, as `fast_build_string_column` and `StringColBuilder` make it.
unfoldable pub push_all : IndexedPackedStrings → List Bytes → IndexedPackedStrings
push_all ps [] = ps
push_all ps (s ∷ ss) = push_all (push ps s) ss

unfoldable pub clear : IndexedPackedStrings → IndexedPackedStrings
clear ps = record { words = []; backing_store = [] }

-- What `iter` yields when it is run to its end; `none` is a panic.
unfoldable pub read_all : (backing_store : Bytes) → List ℕ → Option (List Bytes)
read_all backing_store [] = some []
read_all backing_store (w ∷ ws) = elim (read_word backing_store w) [
  | none ↦ none
  | some s ↦ elim (read_all backing_store ws) [ none ↦ none | some ss ↦ some (s ∷ ss) ]
]

unfoldable pub iter : IndexedPackedStrings → Option (List Bytes)
unfolding read_all
iter ps = read_all ps.backing_store ps.words

unfoldable pub len : IndexedPackedStrings → ℕ
len ps = length ps.words

unfoldable pub into_parts : IndexedPackedStrings → List ℕ × Bytes
into_parts ps = (ps.words, ps.backing_store)
