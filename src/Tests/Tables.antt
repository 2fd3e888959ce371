-- ===== src/Tests/Tables.antt =====
-- Runs of src/mem_store: columns of strings and floats, tables and their partitions.
use locust_db.Prelude.{
  ℕ, ◌<◌, ◌≡◌, refl, Bool, true, false, ◌&&◌, ◌||◌, not, Option, none, some, List, [], ◌∷◌, arith,
  All,
}
use locust_db.Prelude.Int.{ℤ, pos}
use locust_db.Errors.{ok, panic}
use locust_db.Stringpack.{Bytes}
use locust_db.Engine.Operators.DictLookup.{bytes_eq}
use locust_db.Ingest.RawCol.{RawVal, int, null, MixedCol, int_type, null_type, bitor}
use locust_db.Ingest.Buffer.{Buffer, empty, push_row}
use locust_db.MemStore.Column.{Column, null_column}
use locust_db.MemStore.Column.Decoding.{strings, floats}
use locust_db.MemStore.Column.Build.{Yields}
use locust_db.MemStore.Floats.{new_boxed}
use locust_db.MemStore.Floats.Roundtrip.{new_boxed-decode_floats}
use locust_db.MemStore.Strings.{index_width, unique_loop, packs_hex, fast_build_string_column}
use locust_db.MemStore.Strings.Roundtrip.{fast_build_string_column-decode_column}
use locust_db.MemStore.Lru.{ColumnKey, LruCache, key_eq}
use locust_db.MemStore.Partition.{Partition, ColumnHandle, name, from_buffer, restore, evict}
use locust_db.MemStore.Partition.Contents.{make, Holds, from_buffer-Holds}
use locust_db.MemStore.Partition.Residency.{HasDistinctColumns, AllKnown, restore-evict-AllKnown}
use locust_db.MemStore.Table.{
  Table, new, ingest, ingest_heterogeneous, meta_queries, batch_size_override,
}
use locust_db.MemStore.Table.Steps.{rows, IsValid, created, ingested}
use locust_db.MemStore.Table.Rows.{Reachable-rows, ingest-Batched}
use locust_db.Tests.Compression.{compress, decompress, decompress-compress, IsI64-small}
use locust_db.MemStore.RawCol.{finalize, int_to_string}

-- What `1` and `-120` print.
printed : (int_to_string (pos 120) ≡ b'1' ∷ b'2' ∷ b'0' ∷ [])
unfolding int_to_string
printed = refl

overridden : batch_size_override 100 meta_queries ≡ 10
unfolding batch_size_override
overridden = refl

abbrev no_hex : Bytes → Option Bytes
no_hex s = none

abbrev a : Bytes
a = b'a' ∷ []

abbrev b : Bytes
b = b'b' ∷ []

abbrev ss : List Bytes
ss = b ∷ a ∷ b ∷ b ∷ a ∷ b ∷ []

-- Two distinct strings of six, below half of the rows: the column has a dictionary.
hex : packs_hex false false 6 6 ≡ false
unfolding packs_hex
hex = refl

fast_build_string_column-decode_column_example :
    Yields true compress decompress
      (fast_build_string_column true compress no_hex (b'c' ∷ []) ss 6 false false 6 none)
      (strings ss)
      6
unfolding unique_loop index_width
fast_build_string_column-decode_column_example =
    fast_build_string_column-decode_column true compress decompress decompress-compress no_hex
      (b'c' ∷ []) ss false false 6 none hex
      (omega arith, (omega arith, (omega arith, (omega arith, (omega arith, (omega arith, tt))))))
      (omega arith) (omega arith)

-- Which of these strings are packed, and which have a dictionary.
with_dictionary : unique_loop ss [] 3 ≡ some (b ∷ a ∷ [])
unfolding unique_loop
with_dictionary = refl

packed : unique_loop (b ∷ a ∷ b ∷ b ∷ []) [] 2 ≡ none
unfolding unique_loop
packed = refl

new_boxed-decode_floats_example :
    Yields false compress decompress
      (new_boxed false compress a (7 ∷ 9 ∷ []) none)
      (floats (7 ∷ 9 ∷ []))
      2
    × ((present : Bytes) → new_boxed false compress a (7 ∷ 9 ∷ []) (some present) ≡ panic)
unfolding new_boxed
new_boxed-decode_floats_example = new_boxed-decode_floats false compress decompress a (7 ∷ 9 ∷ [])

-- A cache, as the set of its keys.
abbrev Cache : Type 0
Cache = ColumnKey → Bool

abbrev lru : LruCache Cache
lru = record {
  unbounded = λ key. false;
  get = λ cache key. cache;
  put = λ cache key other. key_eq key other || cache other;
  pop = λ cache key other. not (key_eq key other) && cache other;
  pop_lru = λ cache. none;
  contains = λ cache key. cache key;
  contains-put = λ cache key other. refl;
  contains-pop = λ cache key other. refl;
}

abbrev size : Column → ℕ
size column = column.len

abbrev to_float : ℤ → ℕ
to_float i = 0

abbrev to_string : ℕ → Bytes
to_string f = []

abbrev row : List (Bytes × RawVal)
row = (a, int (pos 1)) ∷ []

abbrev fresh : Table Cache
fresh = new 100 a (λ key. false)

abbrev after_row : Table Cache
after_row = record fresh { buffer = push_row empty row }

inserted :
    ingest lru size (finalize true compress no_hex to_float to_string) fresh row ≡ ok after_row
unfolding ingest new batch_size_override push_row
inserted = refl

Reachable-rows_example : (rows after_row ≡ 1) × IsValid after_row
Reachable-rows_example =
    Reachable-rows lru size true compress no_hex to_float to_string after_row 1
      (ingested (created 100 a (λ key. false)) row after_row (refl, tt) inserted)

hundred : 0 < fresh.batch_size
unfolding new batch_size_override
hundred = omega arith

ingest-Batched_example :
    ((row : List (Bytes × RawVal))
      → ingest lru size (finalize true compress no_hex to_float to_string) fresh row ≡ ok after_row
      → after_row.buffer.length < fresh.batch_size)
    × ((columns : List (Bytes × List RawVal))
        → ingest_heterogeneous lru size
            (finalize true compress no_hex to_float to_string)
            fresh
            columns
          ≡ ok after_row
        → after_row.buffer.length < fresh.batch_size)
ingest-Batched_example =
    ingest-Batched lru size (finalize true compress no_hex to_float to_string) fresh after_row
      hundred

abbrev number_col : MixedCol
number_col = record { types = bitor int_type null_type; values = int (pos 1) ∷ null ∷ [] }

abbrev number_buffer : Buffer
number_buffer = record { cols = (a, number_col) ∷ []; length = 2 }

from_buffer-Holds_example :
    (made : Partition × List ColumnKey) × (from_buffer size
        (make to_float to_string true compress decompress decompress-compress no_hex size)
        7
        number_buffer
      ≡ ok made)
    × Holds to_float to_string true compress decompress decompress-compress no_hex size
        number_buffer.cols made.0.cols
    × (made.0.len ≡ 2)
from_buffer-Holds_example =
    from_buffer-Holds to_float to_string true compress decompress decompress-compress no_hex size 7
      number_buffer (a, number_col) [] refl
      (
        record {
          typed = (refl, (refl, tt));
          numbers = (IsI64-small 1 (omega arith), (tt, tt));
          stores = λ e. cc;
          plain = λ e f. cc;
        },
        tt,
      )

-- A partition of two columns, one of them resident.
abbrev handles : List ColumnHandle
handles =
    record {
      key = (0, a);
      size_bytes = 8;
      resident = true;
      load_scheduled = false;
      col = some (null_column a 3);
    }
    ∷ record { key = (0, b); size_bytes = 8; resident = false; load_scheduled = true; col = none }
    ∷ []

abbrev cache : Cache
cache key = key_eq (0, a) key

names : HasDistinctColumns handles
unfolding bytes_eq
names = ((refl, tt), (tt, tt))

known : AllKnown lru cache handles
unfolding bytes_eq null_column
known = (record { held = refl; cached = λ e. refl }, (record { held = refl; cached = λ e. cc }, tt))

restore-evict-AllKnown_example :
    ((col : Column)
      → AllKnown lru (restore lru col handles cache).1 (restore lru col handles cache).0
        × All
            (λ h. bytes_eq (name h) col.name ≡ true → h.col ≡ some col)
            (restore lru col handles cache).0)
    × ((col : Bytes)
        → AllKnown lru (evict lru col handles cache).1 (evict lru col handles cache).0
          × All (λ h. bytes_eq (name h) col ≡ true → h.col ≡ none) (evict lru col handles cache).0)
restore-evict-AllKnown_example = restore-evict-AllKnown lru handles cache names known

-- Every batch makes handles and cache keys for partition 0, whatever number it gets afterwards.
batch_keys :
    (made : Partition × List ColumnKey) × (from_buffer size
        (λ col name. ok (null_column name 1))
        0
        number_buffer
      ≡ ok made)
    × (made.1 ≡ (0, a) ∷ [])
unfolding from_buffer null_column
batch_keys = (_, refl, refl)
