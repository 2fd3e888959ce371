-- ===== src/MemStore/Table/Rows.antt =====
-- src/mem_store/table.rs: how many rows a table holds, and when rows leave the buffer.
use locust_db.Prelude.{ℕ, ◌<◌, ◌≡◌, sym, Bool, inl, inr, Bool-cases, Option, List, ltb, arith}
use locust_db.Prelude.Int.{ℤ}
use locust_db.Errors.{Result, ok, ok-injective, bind_inv}
use locust_db.Stringpack.{Bytes}
use locust_db.Ingest.RawCol.{RawVal, MixedCol}
use locust_db.Ingest.Buffer.{push_row, push_untyped_cols}
use locust_db.MemStore.Column.{DataSection, Column}
use locust_db.MemStore.Lru.{LruCache}
use locust_db.MemStore.Partition.{from_buffer}
use locust_db.MemStore.RawCol.{finalize}
use locust_db.MemStore.RawCol.Rows.{finalize-HasRows}
use locust_db.MemStore.Table.{Table, ingest, ingest_heterogeneous, batch, batch_if_needed}
use locust_db.MemStore.Table.Steps.{rows, IsValid, Reachable, reachable-IsValid}

module _ {ℓ} {Cache : Type ℓ} (lru : LruCache Cache) (heap_size : Column → ℕ) where
  -- Whatever sequence of inserts (of rows with distinct names, and of hash maps of at least one
  -- column), evictions and restores a new table goes through without a panic, the number of rows in
  -- its partitions and its buffer together is the number inserted, which is one for a row, and the
  -- length of the longest column for a hash map of columns; its partitions are numbered from 0
  -- without a gap, so that a new one never replaces another; and the columns of its buffer are of
  -- one length.
  pub Reachable-rows :
      (enable_lz4 : Bool) (compress : DataSection → Bytes) (decode_hex : Bytes → Option Bytes)
      (int_to_float : ℤ → ℕ) (float_to_string : ℕ → Bytes) (table : Table Cache) (n : ℕ)
      → Reachable lru heap_size
          (finalize enable_lz4 compress decode_hex int_to_float float_to_string)
          table
          n
      → (rows table ≡ n) × IsValid table
  Reachable-rows enable_lz4 compress decode_hex int_to_float float_to_string table n past =
      let (valid, total) =
        reachable-IsValid lru heap_size
          (finalize enable_lz4 compress decode_hex int_to_float float_to_string)
          (finalize-HasRows enable_lz4 compress decode_hex int_to_float float_to_string) table n
          past in
      (total, valid)

  module _ (make : MixedCol → Bytes → Result Column) where
    batch_if_needed-Batched :
        (table next : Table Cache)
        → 0 < table.batch_size
        → batch_if_needed lru heap_size make table ≡ ok next
        → next.buffer.length < table.batch_size
    unfolding batch_if_needed batch
    batch_if_needed-Batched table next h run =
        elim (Bool-cases (ltb table.buffer.length table.batch_size)) [
          | inl t ↦ let e : table ≡ next = ok-injective (rw t at run) in rw (sym e) (ground arith)
          | inr f ↦
              let (made, _, e) =
                bind_inv (from_buffer heap_size make 0 table.buffer) _ next (rw f at run) in
              rw (sym (ok-injective e)) h
        ]

    -- An insert of a row or of untyped columns that returns leaves fewer rows in the buffer than the
    -- size of a batch, if that is not 0.
    pub ingest-Batched :
        (table next : Table Cache)
        → 0 < table.batch_size
        → ((row : List (Bytes × RawVal))
            → ingest lru heap_size make table row ≡ ok next
            → next.buffer.length < table.batch_size)
          × ((columns : List (Bytes × List RawVal))
              → ingest_heterogeneous lru heap_size make table columns ≡ ok next
              → next.buffer.length < table.batch_size)
    unfolding ingest ingest_heterogeneous
    ingest-Batched table next h = (
      λ row run.
          batch_if_needed-Batched (record table { buffer = push_row table.buffer row }) next h run,
      λ columns run.
          batch_if_needed-Batched (record table { buffer = push_untyped_cols table.buffer columns })
            next h run,
    )
