-- ===== src/MemStore/Table/Steps.antt =====
-- src/mem_store/table.rs: the states that a table reaches by its operations.
use locust_db.Prelude.{
  ℕ, ◌+◌, ◌≡◌, refl, sym, ap, ◌∙◌, inl, inr, Bool-cases, Option, none, some, Option-cases, List,
  ◌∷◌, length, ltb, arith,
}
use locust_db.Prelude.Arrays.{range_from}
use locust_db.Errors.{Result, ok, unwrap, ok-injective, bind_inv}
use locust_db.Stringpack.{Bytes}
use locust_db.Ingest.RawCol.{RawVal, MixedCol}
use locust_db.Ingest.RawCol
use locust_db.Ingest.Buffer.{InputColumn, empty, lookup, push_row, push_untyped_cols}
use locust_db.Ingest.Buffer.Rows.{IsAligned, HasDistinctNames, push_row-values_at}
use locust_db.Ingest.Buffer.Pushed.{
  HasDistinctKeys, longest, input_rows, push_typed_cols-longest, push_untyped_cols-longest,
}
use locust_db.Ingest.Buffer.Aligned.{push_typed_cols-IsAligned, push_untyped_cols-IsAligned}
use locust_db.MemStore.Column.{Column}
use locust_db.MemStore.Lru.{ColumnKey, LruCache}
use locust_db.MemStore.Partition.{Partition, from_buffer}
use locust_db.MemStore.Partition
use locust_db.MemStore.RawCol.Columns.{HasRows}
use locust_db.MemStore.Table.{
  Table, get, new, ingest, ingest_homogeneous, ingest_heterogeneous, batch, batch_if_needed,
  restore, evict,
}
use locust_db.MemStore.Table.Partitions.{
  ids, partition_rows, ids-insert, replace_lem, from_buffer-len,
}

none_some {ℓ} : {A : Type ℓ} {a : A} → none ≡ some a → ⊥
none_some h = cc

empty-IsAligned : IsAligned empty
unfolding lookup
empty-IsAligned = record { aligned = λ name col e. absurd (none_some e) }

unwrap_inv {ℓ} : {A : Type ℓ} (o : Option A) (a : A) → unwrap o ≡ ok a → o ≡ some a
unwrap_inv none a h = cc
unwrap_inv (some b) a h = ap some (ok-injective h)

module _ {ℓ} {Cache : Type ℓ} where
  -- The rows of the partitions and of the buffer.
  abbrev pub rows : Table Cache → ℕ
  rows table = partition_rows table.partitions + table.buffer.length

  pub record IsValid (table : Table Cache) : Type ℓ where
    pub numbered : ids table.partitions ≡ range_from 0 (length table.partitions)
    pub aligned : IsAligned table.buffer

module _ {ℓ} {Cache : Type ℓ} (lru : LruCache Cache) (heap_size : Column → ℕ)
    (finalize : MixedCol → Bytes → Result Column) where
  -- The tables that are reached from a new one, with the number of rows they were given: one for a
  -- row, and as many as the longest column has for a hash map of columns.
  pub data Reachable : Table Cache → ℕ → Type ℓ where
    created :
        (batch_size : ℕ) (name : Bytes) (cache : Cache) → Reachable (new batch_size name cache) 0
    ingested :
        {table : Table Cache} {n : ℕ}
        → Reachable table n
        → (row : List (Bytes × RawVal)) (next : Table Cache) → HasDistinctNames row
        → ingest lru heap_size finalize table row ≡ ok next
        → Reachable next (n + 1)
    ingested_heterogeneous :
        {table : Table Cache} {n : ℕ}
        → Reachable table n
        → (column : Bytes × List RawVal) (columns : List (Bytes × List RawVal)) (next : Table Cache)
        → HasDistinctKeys (column ∷ columns)
        → ingest_heterogeneous lru heap_size finalize table (column ∷ columns) ≡ ok next
        → Reachable next (n + longest length (column ∷ columns))
    ingested_homogeneous :
        {table : Table Cache} {n : ℕ}
        → Reachable table n
        → (column : Bytes × InputColumn) (columns : List (Bytes × InputColumn))
        → HasDistinctKeys (column ∷ columns)
        → Reachable
            (ingest_homogeneous table (column ∷ columns))
            (n + longest input_rows (column ∷ columns))
    restored :
        {table : Table Cache} {n : ℕ}
        → Reachable table n
        → (id : ℕ) (col : Column) (next : Table Cache) → restore lru table id col ≡ ok next
        → Reachable next n
    evicted :
        {table : Table Cache} {n : ℕ}
        → Reachable table n
        → (key : ColumnKey) → Reachable (evict lru table key).0 n

  module _
      (keeps : (col : MixedCol) (name : Bytes) → HasRows (finalize col name) (RawCol.len col)) where
    -- Batching, as it is needed, moves the rows of the buffer to a partition.
    batch_if_needed-IsValid :
        (table next : Table Cache)
        → batch_if_needed lru heap_size finalize table ≡ ok next
        → IsValid table
        → IsValid next × (rows next ≡ rows table)
    unfolding batch_if_needed batch
    batch_if_needed-IsValid table next h valid =
        elim (Bool-cases (ltb table.buffer.length table.batch_size)) [
          | inl t ↦ let e : table ≡ next = ok-injective (rw t at h) in rw (sym e) (valid, refl)
          | inr f ↦
              let (made, run, e) =
                bind_inv (from_buffer heap_size finalize 0 table.buffer) _ next (rw f at h) in
              let len =
                from_buffer-len heap_size finalize keeps 0 table.buffer made run valid.aligned in
              let (numbered, total) =
                ids-insert (record (made.0) { id = length table.partitions }) table.partitions
                  valid.numbered in
              rw (sym (ok-injective e)) (
                record { numbered = numbered; aligned = empty-IsAligned },
                omega (arith, total, len),
              )
        ]

    restore-IsValid :
        (table next : Table Cache) (id : ℕ) (col : Column)
        → restore lru table id col ≡ ok next
        → IsValid table
        → IsValid next × (rows next ≡ rows table)
    unfolding restore
    restore-IsValid table next id col h valid =
        let (partition, e, f) = bind_inv (unwrap (get id table.partitions)) _ next h in
        let made = Partition.restore lru col partition.cols table.cache in
        let (same, l, total) =
          replace_lem id partition (record partition { cols = made.0 }) table.partitions
            (unwrap_inv (get id table.partitions) partition e) refl in
        rw (sym (ok-injective f)) (
          record {
            numbered = same ∙ valid.numbered ∙ ap (range_from 0) (sym l);
            aligned = valid.aligned;
          },
          ap (λ n. n + table.buffer.length) total,
        )

    evict-IsValid :
        (table : Table Cache) (key : ColumnKey)
        → IsValid table
        → IsValid (evict lru table key).0 × (rows (evict lru table key).0 ≡ rows table)
    unfolding evict
    evict-IsValid table key valid = elim (Option-cases (get key.0 table.partitions)) [
      | inl e ↦ rw (e, evict) (valid, refl)
      | inr (partition, e) ↦
          let made = Partition.evict lru key.1 partition.cols table.cache in
          let (same, l, total) =
            replace_lem key.0 partition (record partition { cols = made.0 }) table.partitions e
              refl in
          rw (e, evict)
            (
              record {
                numbered = same ∙ valid.numbered ∙ ap (range_from 0) (sym l);
                aligned = valid.aligned;
              },
              ap (λ n. n + table.buffer.length) total,
            )
    ]

    pub reachable-IsValid :
        (table : Table Cache) (n : ℕ) → Reachable table n → IsValid table × (rows table ≡ n)
    unfolding new ingest ingest_heterogeneous ingest_homogeneous
    reachable-IsValid _ _ (created batch_size name cache) =
        (record { numbered = refl; aligned = empty-IsAligned }, omega arith)
    reachable-IsValid _ _ (ingested {table} {n} past row next distinct run) =
        let (valid, total) = reachable-IsValid table n past in
        let (aligned, l, _) = push_row-values_at table.buffer row valid.aligned distinct in
        let (next_valid, same) =
          batch_if_needed-IsValid (record table { buffer = push_row table.buffer row }) next run
            (record { numbered = valid.numbered; aligned = aligned }) in
        (next_valid, omega (arith, same, l, total))
    reachable-IsValid _ _ (ingested_heterogeneous {table} {n} past column columns next d run) =
        let (valid, total) = reachable-IsValid table n past in
        let (next_valid, same) =
          batch_if_needed-IsValid
            (record table { buffer = push_untyped_cols table.buffer (column ∷ columns) }) next run
            (record {
              numbered = valid.numbered;
              aligned = push_untyped_cols-IsAligned table.buffer column columns valid.aligned;
            }) in
        (
          next_valid,
          omega (
            arith,
            same,
            total,
            push_untyped_cols-longest table.buffer column columns valid.aligned d,
          ),
        )
    reachable-IsValid _ _ (ingested_homogeneous {table} {n} past column columns d) =
        let (valid, total) = reachable-IsValid table n past in
        (
          record {
            numbered = valid.numbered;
            aligned = push_typed_cols-IsAligned table.buffer column columns valid.aligned;
          },
          omega (arith, total, push_typed_cols-longest table.buffer column columns valid.aligned d),
        )
    reachable-IsValid _ _ (restored {table} {n} past id col next run) =
        let (valid, total) = reachable-IsValid table n past in
        let (next_valid, same) = restore-IsValid table next id col run valid in
        (next_valid, same ∙ total)
    reachable-IsValid _ _ (evicted {table} {n} past key) =
        let (valid, total) = reachable-IsValid table n past in
        let (next_valid, same) = evict-IsValid table key valid in (next_valid, same ∙ total)
