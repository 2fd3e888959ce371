-- ===== src/MemStore/Table.antt =====
-- src/mem_store/table.rs: a table, its buffer of new rows and its partitions. The locks are fields;
-- what an operation does under a lock is one step. The map of partitions is an association list.
pub mod Partitions
pub mod Steps
pub mod Rows
use locust_db.Prelude.{
  ℕ, ◌+◌, ◌-◌, ◌^◌, Bool, true, false, Option, none, some, List, [], ◌∷◌, ◌++◌, map, length, ltb,
  ◌==◌, max, if◌then◌else◌,
}
use locust_db.Prelude.Int.{ℤ}
use locust_db.Errors.{Result, ok, err, panic, unwrap, ◌>>=◌}
use locust_db.Stringpack.{Bytes}
use locust_db.Engine.Operators.DictLookup.{bytes_eq}
use locust_db.Ingest.RawCol.{RawVal, MixedCol}
use locust_db.Ingest.Buffer.{
  Buffer, InputColumn, empty, push_row, push_typed_cols, push_untyped_cols,
}
use locust_db.MemStore.Column.{Column}
use locust_db.MemStore.Lru.{ColumnKey, LruCache}
use locust_db.MemStore.Lru
use locust_db.MemStore.Partition.{Partition, ColumnMetadata, nonresident, from_buffer}
use locust_db.MemStore.Partition

-- A table, with the cache that it shares.
pub record Table {ℓ} (Cache : Type ℓ) : Type ℓ where
  pub name : Bytes
  pub batch_size : ℕ
  pub partitions : List (ℕ × Partition)
  pub buffer : Buffer
  pub cache : Cache

-- "_meta_tables" and "_meta_queries"
abbrev pub meta_tables : Bytes
meta_tables = b'_' ∷ b'm' ∷ b'e' ∷ b't' ∷ b'a' ∷ b'_' ∷ b't' ∷ b'a' ∷ b'b' ∷ b'l' ∷ b'e' ∷ b's' ∷ []

abbrev pub meta_queries : Bytes
meta_queries =
    b'_' ∷ b'm' ∷ b'e' ∷ b't' ∷ b'a' ∷ b'_' ∷ b'q' ∷ b'u' ∷ b'e' ∷ b'r' ∷ b'i' ∷ b'e' ∷ b's' ∷ []

unfoldable pub batch_size_override : (batch_size : ℕ) (tablename : Bytes) → ℕ
unfolding bytes_eq
batch_size_override batch_size tablename =
    if bytes_eq tablename meta_tables
    then 1
    else if bytes_eq tablename meta_queries
    then 10
    else batch_size

-- `HashMap::insert` and `get`
unfoldable pub insert : (id : ℕ) → Partition → List (ℕ × Partition) → List (ℕ × Partition)
insert id partition [] = (id, partition) ∷ []
insert id partition ((k, p) ∷ partitions) =
    if k == id then (k, partition) ∷ partitions else (k, p) ∷ insert id partition partitions

unfoldable pub get : (id : ℕ) → List (ℕ × Partition) → Option Partition
get id [] = none
get id ((k, p) ∷ partitions) = if k == id then some p else get id partitions

-- `partitions.keys().max().cloned().unwrap_or(0)`
unfoldable pub max_partition_id : List (ℕ × Partition) → ℕ
max_partition_id [] = 0
max_partition_id ((k, p) ∷ partitions) = max k (max_partition_id partitions)

module _ {ℓ} {Cache : Type ℓ} where
  unfoldable pub new : (batch_size : ℕ) (name : Bytes) → Cache → Table Cache
  unfolding batch_size_override
  new batch_size name cache = record {
    name = name;
    batch_size = batch_size_override batch_size name;
    partitions = [];
    buffer = empty;
    cache = cache;
  }

  unfoldable pub insert_nonresident_partition :
      Table Cache → (id len : ℕ) (columns : List ColumnMetadata) → Table Cache
  unfolding insert nonresident
  insert_nonresident_partition table id len columns = record table {
    partitions = insert id (nonresident id len columns) table.partitions;
  }

  unfoldable pub load_partition : Table Cache → Partition → Table Cache
  unfolding insert
  load_partition table partition = record table {
    partitions = insert partition.id partition table.partitions;
  }

  unfoldable pub ingest_homogeneous : Table Cache → List (Bytes × InputColumn) → Table Cache
  unfolding push_typed_cols
  ingest_homogeneous table columns = record table { buffer = push_typed_cols table.buffer columns }

  module _ (lru : LruCache Cache) where
    unfoldable pub restore : Table Cache → (id : ℕ) → Column → Result (Table Cache)
    unfolding get insert Partition.restore
    restore table id col = do
      partition ← unwrap (get id table.partitions)
      ok (
          let (cols, cache) = Partition.restore lru col partition.cols table.cache in
          record table {
            partitions = insert id (record partition { cols = cols }) table.partitions;
            cache = cache;
          })

    unfoldable pub evict : Table Cache → ColumnKey → Table Cache × ℕ
    unfolding get insert Partition.evict
    evict table key = elim (get key.0 table.partitions) [
      | none ↦ (table, 0)
      | some partition ↦
          let (cols, cache, size) = Partition.evict lru key.1 partition.cols table.cache in
          (
            record table {
              partitions = insert key.0 (record partition { cols = cols }) table.partitions;
              cache = cache;
            },
            size,
          )
    ]

    -- `for key in keys { self.lru.put(key); }`
    unfoldable pub put_all : Cache → List ColumnKey → Cache
    unfolding Lru.put
    put_all cache [] = cache
    put_all cache (key ∷ keys) = put_all (Lru.put lru cache key) keys

    module _ (heap_size : Column → ℕ) (finalize : MixedCol → Bytes → Result Column) where
      unfoldable pub snapshot : Table Cache → Result (List Partition)
      unfolding from_buffer
      snapshot table =
          let partitions = map (λ (entry : ℕ × Partition). entry.1) table.partitions in
          if ltb 0 table.buffer.length
          then (from_buffer heap_size finalize (2 ^ 64 - 1) table.buffer >>= λ made.
              ok (partitions ++ made.0 ∷ []))
          else ok partitions

      unfoldable pub batch : Table Cache → Result (Table Cache)
      unfolding insert put_all from_buffer
      batch table = do
        made ← from_buffer heap_size finalize 0 table.buffer
        ok (
            let id = length table.partitions in
            record table {
              buffer = empty;
              partitions = insert id (record (made.0) { id = id }) table.partitions;
              cache = put_all table.cache made.1;
            })

      unfoldable pub batch_if_needed : Table Cache → Result (Table Cache)
      unfolding batch
      batch_if_needed table =
          if ltb table.buffer.length table.batch_size then ok table else batch table

      unfoldable pub ingest : Table Cache → List (Bytes × RawVal) → Result (Table Cache)
      unfolding push_row batch_if_needed
      ingest table row = batch_if_needed (record table { buffer = push_row table.buffer row })

      unfoldable pub ingest_heterogeneous :
          Table Cache → List (Bytes × List RawVal) → Result (Table Cache)
      unfolding push_untyped_cols batch_if_needed
      ingest_heterogeneous table columns =
          batch_if_needed (record table { buffer = push_untyped_cols table.buffer columns })
