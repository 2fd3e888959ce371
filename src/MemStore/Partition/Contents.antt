-- ===== src/MemStore/Partition/Contents.antt =====
-- src/mem_store/partition.rs: what a partition that is made of a buffer holds.
use locust_db.Prelude.{
  ℕ, ◌≡◌, refl, subst, Bool, true, false, Option, some, List, [], ◌∷◌, map, length, All,
}
use locust_db.Prelude.Int.{ℤ}
use locust_db.Errors.{Result, ok, ◌>>=◌}
use locust_db.Stringpack.{Bytes}
use locust_db.Engine.DataTypes.Types.{EncodingType}
use locust_db.Ingest.RawCol.{MixedCol}
use locust_db.Ingest.RawCol.Typed.{IsTyped}
use locust_db.Ingest.Buffer.{Buffer}
use locust_db.MemStore.Column.{DataSection, len, encoding_type, Column}
use locust_db.MemStore.Column.Decoding.{decode_column}
use locust_db.MemStore.Lru.{ColumnKey}
use locust_db.MemStore.Partition.{Partition, ColumnHandle, resident, new, finalize_all, from_buffer}
use locust_db.MemStore.RawCol.{text_of, finalize}
use locust_db.MemStore.Floats.Roundtrip.{is_compressed}
use locust_db.MemStore.RawCol.Builders.{IsNumber, Stores, float_of}
use locust_db.MemStore.RawCol.Finalize.{shown, finalize-decode_column}

module _ (int_to_float : ℤ → ℕ) (float_to_string : ℕ → Bytes) (enable_lz4 : Bool)
    (compress : DataSection → Bytes) where
  -- A column in memory that can be finalized, and then decoded.
  pub record IsReady (col : MixedCol) : Type 0 where
    pub typed : IsTyped col
    pub numbers : All IsNumber col.values
    pub stores :
        col.types.contains_string ≡ true → Stores (map (text_of float_to_string) col.values)
    pub plain :
        col.types.contains_string ≡ false
        → col.types.contains_float ≡ true
        → is_compressed enable_lz4 compress (map (float_of int_to_float) col.values) ≡ false

  abbrev pub AllReady : List (Bytes × MixedCol) → Type 0
  AllReady cols = All (λ entry. IsReady entry.1) cols

  module _ (decompress : Bytes → EncodingType → ℕ → DataSection)
      (hl : (section : DataSection)
        → decompress (compress section) (encoding_type section) (len section) ≡ section)
      (decode_hex : Bytes → Option Bytes) (heap_size : Column → ℕ) where
    -- A resident handle, whose column decodes to what the column in memory shows.
    pub record IsHolder (raw_col : MixedCol) (handle : ColumnHandle) : Type 0 where
      pub column : Column
      pub held : handle.col ≡ some column
      pub decoded :
          decode_column decompress column ≡ ok (shown int_to_float float_to_string raw_col)
      pub rows : column.len ≡ length raw_col.values
      pub marked : handle.resident ≡ true

    abbrev pub Holds : List (Bytes × MixedCol) → List ColumnHandle → Type 0
    Holds [] [] = Unit
    Holds [] (handle ∷ handles) = ⊥
    Holds (entry ∷ cols) [] = ⊥
    Holds (entry ∷ cols) (handle ∷ handles) = IsHolder entry.1 handle × Holds cols handles

    abbrev pub make : MixedCol → Bytes → Result Column
    make = finalize enable_lz4 compress decode_hex int_to_float float_to_string

    finalize_all-Holds :
        (id : ℕ) (cols : List (Bytes × MixedCol))
        → AllReady cols
        → (columns : List Column) × (finalize_all heap_size make cols ≡ ok columns)
          × Holds cols (map (resident heap_size id) columns)
    unfolding finalize_all resident
    finalize_all-Holds id [] h = ([], refl, tt)
    finalize_all-Holds id ((name, raw_col) ∷ cols) h =
        let (column, e, decoded, rows) =
          finalize-decode_column int_to_float float_to_string enable_lz4 compress decompress hl
            decode_hex raw_col name h.0.typed h.0.numbers h.0.stores h.0.plain in
        let (columns, f, holds) = finalize_all-Holds id cols h.1 in
        (
          column ∷ columns,
          rw (e, f) refl,
          (
            record { column = column; held = refl; decoded = decoded; rows = rows; marked = refl },
            holds,
          ),
        )

    of_columns :
        (id : ℕ) (first : Bytes × MixedCol) (rest : List (Bytes × MixedCol))
        → AllReady (first ∷ rest)
        → (made : Partition × List ColumnKey) × ((finalize_all heap_size make (first ∷ rest)
              >>= λ cols. new heap_size id cols)
            ≡ ok made)
          × Holds (first ∷ rest) made.0.cols
          × (made.0.len ≡ length first.1.values)
    unfolding new finalize_all resident
    of_columns id (name, raw_col) rest ready =
        let (column, e, decoded, rows) =
          finalize-decode_column int_to_float float_to_string enable_lz4 compress decompress hl
            decode_hex raw_col name ready.0.typed ready.0.numbers ready.0.stores ready.0.plain in
        let (columns, f, holds) = finalize_all-Holds id rest ready.1 in
        (
          (
            record {
              id = id;
              len = column.len;
              cols = resident heap_size id column ∷ map (resident heap_size id) columns;
            },
            (id, column.name) ∷ map (λ col. (id, col.name)) columns,
          ),
          rw (e, f) refl,
          (
            record { column = column; held = refl; decoded = decoded; rows = rows; marked = refl },
            holds,
          ),
          rows,
        )

    -- With any compressor of sections that a decompressor undoes: a buffer of at least one column,
    -- whose columns have flags that cover their values, integers that are i64, strings that fit the
    -- packed formats and are not packed as hex, and floats that lz4 does not compress, becomes a
    -- partition without a panic. Its handles are resident and hold, in the order of the buffer,
    -- columns of as many rows. Each decodes to the values as strings if it has met a string, else as
    -- floats if it has met a float, else as integers, with the default of the type for a null, since
    -- no null map is written; and to nulls if it has met nothing else.
    pub from_buffer-Holds :
        (id : ℕ) (buffer : Buffer) (first : Bytes × MixedCol) (rest : List (Bytes × MixedCol))
        → buffer.cols ≡ first ∷ rest
        → AllReady buffer.cols
        → (made : Partition × List ColumnKey) × (from_buffer heap_size make id buffer ≡ ok made)
          × Holds buffer.cols made.0.cols
          × (made.0.len ≡ length first.1.values)
    unfolding from_buffer
    from_buffer-Holds id buffer first rest e ready =
        rw e (of_columns id first rest (subst (λ cols. AllReady cols) e ready))
