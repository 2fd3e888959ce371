-- ===== src/MemStore/Partition.antt =====
-- src/mem_store/partition.rs: the columns of a batch of rows, each resident in memory or not. The
-- locks and atomics of a handle are its fields; a set of names is a list of them. How many bytes a
-- column takes, and what a column in memory is finalized to, are parameters of the section.
pub mod Residency
pub mod Contents
use locust_db.Prelude.{
  ℕ, ◌+◌, Bool, true, false, ◌&&◌, ◌||◌, not, Option, none, some, List, [], ◌∷◌, map, get_elem?,
  if◌then◌else◌,
}
use locust_db.Errors.{Result, ok, unwrap, ◌>>=◌}
use locust_db.Stringpack.{Bytes}
use locust_db.Engine.Operators.DictLookup.{bytes_eq}
use locust_db.Ingest.RawCol.{MixedCol}
use locust_db.Ingest.Buffer.{Buffer}
use locust_db.MemStore.Column.{Column}
use locust_db.MemStore.Lru.{ColumnKey, LruCache}
use locust_db.MemStore.Lru

pub record ColumnHandle : Type 0 where
  pub key : ColumnKey
  pub size_bytes : ℕ
  pub resident : Bool
  pub load_scheduled : Bool
  pub col : Option Column

abbrev pub name : ColumnHandle → Bytes
name handle = handle.key.1

-- `ColumnMetadata` (src/disk_store/interface.rs)
pub record ColumnMetadata : Type 0 where
  pub name : Bytes
  pub size_bytes : ℕ

unfoldable pub non_resident : (id : ℕ) → ColumnMetadata → ColumnHandle
non_resident id c = record {
  key = (id, c.name);
  size_bytes = c.size_bytes;
  resident = false;
  load_scheduled = false;
  col = none;
}

unfoldable pub heap_size_of_handle : ColumnHandle → ℕ
heap_size_of_handle handle = if handle.resident then handle.size_bytes else 0

pub record Partition : Type 0 where
  pub id : ℕ
  pub len : ℕ
  pub cols : List ColumnHandle

unfoldable pub nonresident : (id len : ℕ) (cols : List ColumnMetadata) → Partition
unfolding non_resident
nonresident id len cols = record { id = id; len = len; cols = map (non_resident id) cols }

unfoldable pub col_names : Partition → List Bytes
col_names partition = map name partition.cols

-- `HashSet::contains`
unfoldable pub contains : List Bytes → Bytes → Bool
unfolding bytes_eq
contains [] s = false
contains (t ∷ ts) s = bytes_eq t s || contains ts s

unfoldable pub non_residents : (cols : List Bytes) → List ColumnHandle → List Bytes
unfolding contains
non_residents cols [] = []
non_residents cols (handle ∷ handles) =
    let rest = non_residents cols handles in
    if not handle.resident && contains cols (name handle) then name handle ∷ rest else rest

unfoldable pub nonresidents_match : (nonresidents eligible : List Bytes) → List ColumnHandle → Bool
unfolding contains
nonresidents_match nonresidents eligible [] = true
nonresidents_match nonresidents eligible (handle ∷ handles) =
    let rest = nonresidents_match nonresidents eligible handles in
    if handle.resident
    then (if contains nonresidents (name handle) then false else rest)
    else if contains eligible (name handle) && not (contains nonresidents (name handle))
    then false
    else rest

-- The handles with their loads scheduled, and the bytes to load.
unfoldable pub promise_load : (cols : List Bytes) → List ColumnHandle → List ColumnHandle × ℕ
unfolding contains
promise_load cols [] = ([], 0)
promise_load cols (handle ∷ handles) =
    let (rest, total_size) = promise_load cols handles in
    if contains cols (name handle)
    then (record handle { load_scheduled = true } ∷ rest, handle.size_bytes + total_size)
    else (handle ∷ rest, total_size)

-- What `restore` makes of a handle of the column's name.
unfoldable pub load_handle : ColumnHandle → Column → ColumnHandle
load_handle handle col = record handle { col = some col; resident = true; load_scheduled = false }

-- What `evict` makes of a handle.
unfoldable pub unload_handle : ColumnHandle → ColumnHandle
unload_handle handle = record handle { col = none; resident = false }

module _ {ℓ} {Cache : Type ℓ} (lru : LruCache Cache) where
  unfoldable pub restore : Column → List ColumnHandle → Cache → List ColumnHandle × Cache
  unfolding bytes_eq load_handle Lru.put
  restore col [] cache = ([], cache)
  restore col (handle ∷ handles) cache =
      let cache' : Cache = elim handle.col [
        | none ↦ Lru.put lru cache handle.key
        | some _ ↦ cache
      ] in
      let (found, after) = restore col handles cache' in
      let (missed, later) = restore col handles cache in
      if bytes_eq (name handle) col.name
      then (load_handle handle col ∷ found, after)
      else (handle ∷ missed, later)

  -- The first handle of this name, and the bytes that it held.
  unfoldable pub evict : (col : Bytes) → List ColumnHandle → Cache → List ColumnHandle × Cache × ℕ
  unfolding bytes_eq unload_handle heap_size_of_handle Lru.remove
  evict col [] cache = ([], cache, 0)
  evict col (handle ∷ handles) cache =
      let (rest, later, size) = evict col handles cache in
      if bytes_eq (name handle) col
      then (
        unload_handle handle ∷ handles,
        Lru.remove lru cache handle.key,
        heap_size_of_handle handle,
      )
      else (handle ∷ rest, later, size)

module _ (heap_size : Column → ℕ) where
  unfoldable pub resident : (id : ℕ) → Column → ColumnHandle
  resident id col = record {
    key = (id, col.name);
    size_bytes = heap_size col;
    resident = true;
    load_scheduled = false;
    col = some col;
  }

  unfoldable pub new : (id : ℕ) (cols : List Column) → Result (Partition × List ColumnKey)
  unfolding resident
  new id cols = do
    first ← unwrap (get_elem? cols 0)
    ok (
      record { id = id; len = first.len; cols = map (resident id) cols },
      map (λ col. (id, col.name)) cols,
    )

  module _ (finalize : MixedCol → Bytes → Result Column) where
    -- `raw_col.finalize(&name)` of every column
    unfoldable pub finalize_all : List (Bytes × MixedCol) → Result (List Column)
    finalize_all [] = ok []
    finalize_all ((name, raw_col) ∷ cols) = do
      col ← finalize raw_col name
      rest ← finalize_all cols
      ok (col ∷ rest)

    unfoldable pub from_buffer : (id : ℕ) → Buffer → Result (Partition × List ColumnKey)
    unfolding finalize_all new
    from_buffer id buffer = finalize_all buffer.cols >>= λ cols. new id cols
