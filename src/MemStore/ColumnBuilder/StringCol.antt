-- ===== src/MemStore/ColumnBuilder/StringCol.antt =====
-- src/mem_store/column_builder.rs: the builder of columns of strings.
use locust_db.Prelude.{
  ℕ, ◌+◌, ◌%◌, Bool, true, ◌&&◌, ◌||◌, Option, List, [], ◌∷◌, length, leb, ◌==◌,
}
use locust_db.Errors.{Result, unwrap, ◌>>=◌}
use locust_db.Stringpack.{Bytes}
use locust_db.Stringpack.IndexedPackedStrings
use locust_db.Stringpack.IndexedPackedStrings.{IndexedPackedStrings}
use locust_db.MemStore.Column.{DataSection, Column}
use locust_db.MemStore.Strings.{fast_build_string_column}

-- `string.chars().all(…)`; a byte of a longer character is no hex digit
unfoldable pub all_in : (digit : ℕ → Bool) → Bytes → Bool
all_in digit [] = true
all_in digit (c ∷ cs) = digit c && all_in digit cs

abbrev pub between : (least greatest c : ℕ) → Bool
between least greatest c = leb least c && leb c greatest

unfoldable pub is_lowercase_hex : Bytes → Bool
unfolding all_in
is_lowercase_hex string =
    length string % 2 == 0 && all_in (λ c. between b'0' b'9' c || between b'a' b'f' c) string

unfoldable pub is_uppercase_hex : Bytes → Bool
unfolding all_in
is_uppercase_hex string =
    length string % 2 == 0 && all_in (λ c. between b'0' b'9' c || between b'A' b'F' c) string

pub record StringColBuilder : Type 0 where
  pub values : IndexedPackedStrings
  pub lhex : Bool
  pub uhex : Bool
  pub string_bytes : ℕ

abbrev pub default : StringColBuilder
default = record {
  values = IndexedPackedStrings.default;
  lhex = true;
  uhex = true;
  string_bytes = 0;
}

unfoldable pub push : StringColBuilder → Bytes → StringColBuilder
unfolding is_lowercase_hex is_uppercase_hex IndexedPackedStrings.push
push builder elem = record {
  lhex = builder.lhex && is_lowercase_hex elem;
  uhex = builder.uhex && is_uppercase_hex elem;
  string_bytes = builder.string_bytes + length elem;
  values = IndexedPackedStrings.push builder.values elem;
}

-- A loop of `push`, as `MixedCol::finalize` makes it.
unfoldable pub push_all : StringColBuilder → List Bytes → StringColBuilder
unfolding push
push_all builder [] = builder
push_all builder (elem ∷ elems) = push_all (push builder elem) elems

module _ (enable_lz4 : Bool) (compress : DataSection → Bytes)
    (decode_hex : Bytes → Option Bytes) where
  unfoldable pub finalize :
      StringColBuilder → (name : Bytes) (present : Option Bytes) → Result Column
  unfolding fast_build_string_column IndexedPackedStrings.iter IndexedPackedStrings.len
  finalize builder name present = unwrap (IndexedPackedStrings.iter builder.values) >>= λ strings.
      fast_build_string_column enable_lz4 compress decode_hex name strings
        (IndexedPackedStrings.len builder.values) builder.lhex builder.uhex builder.string_bytes
        present
