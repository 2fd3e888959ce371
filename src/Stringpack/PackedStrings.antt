-- ===== src/Stringpack/PackedStrings.antt =====
-- src/stringpack.rs: `PackedStrings` and `StringPackerIterator`.
pub mod Roundtrip
use locust_db.Prelude.{
  ◌+◌, Option, none, some, List, [], ◌∷◌, ◌++◌, lt_wf, leb, if◌then◌else◌, length, drop,
}
use locust_db.Stringpack.Base.{Bytes, PackedIterator, push_len, read_len, slice}

pub record PackedStrings : Type 0 where
  pub bytes : Bytes

unfoldable pub push : PackedStrings → Bytes → PackedStrings
unfolding push_len lt_wf
push sp string = record {
  bytes = push_len sp.bytes (length string) (lt_wf.apply (length string)) ++ string;
}

unfoldable pub push_all : PackedStrings → List Bytes → PackedStrings
push_all sp [] = sp
push_all sp (s ∷ ss) = push_all (push sp s) ss

unfoldable pub into_vec : PackedStrings → Bytes
into_vec sp = sp.bytes

unfoldable pub from_iterator : List Bytes → PackedStrings
unfolding push_all push
from_iterator strings = push_all (record { bytes = [] }) strings

-- `StringPackerIterator::next`: outside, `none` is a panic; inside, it is the end.
unfoldable pub next : PackedIterator → Option (Option Bytes × PackedIterator)
unfolding read_len slice
next it =
    if leb (length it.bytes) it.curr_index
    then some (none, it)
    else elim (read_len (drop it.curr_index it.bytes) 0 it.curr_index) [
      | none ↦ none
      | some (len, index) ↦ elim (slice it.bytes index (index + len)) [
        | none ↦ none
        | some result ↦ some (some result, record it { curr_index = index + len })
      ]
    ]
