-- ===== src/Lib.antt =====
-- LocustDB, an analytics database that keeps its tables in memory as compressed columns: a model of
-- its core data structures and of the operators that queries run.
--
-- Rows arrive in the buffer of a table (src/ingest/buffer.rs), are batched into columns
-- (src/mem_store) and compressed there; a query reads the sections of a column, decodes them by the
-- program that the codec of the column holds, runs vector operators on them (src/engine/operators),
-- batch by batch, and merges the results of the partitions. The modules are named for the files:
--
--   Prelude, Prelude/*   names of the libraries, Boolean tests, vectors as lists (Lists, Arrays), i64 and
--                        i128 values (Int), decimal numerals (Decimal), a stable sort (Sort), and the
--                        interface of generic order and equality (Order).
--   Errors               src/errors.rs: QueryError, and Result: a value, an error or a panic.
--   Bitvec               src/bitvec.rs: BitVecMut::set, BitVec::is_set.
--   Stringpack/*         src/stringpack.rs: PackedStrings and its StringPackerIterator, PackedBytes
--                        and its PackedBytesIterator, IndexedPackedStrings with push, get and iter.
--                        What is common to them stands in Stringpack/Base, the two loops over the
--                        length of a string twice, as in the code.
--   Ingest/RawCol        src/ingest/raw_val.rs and src/mem_store/raw_col.rs: RawVal, MixedCol, ColType.
--   Ingest/Buffer        src/ingest/buffer.rs: push_row, the pushes of typed and untyped columns, and
--                        extending every column to the common length.
--   Syntax/Expression    src/syntax/expression.rs, src/syntax/limit.rs: Expr, add_colnames, LimitClause.
--   MemStore/Codec/*     src/mem_store/codec.rs: CodecOp (Codec), the record Codec with what is
--                        computed once from its ops, ensure_property, ensure_fixed_width, with_lz4
--                        (Codec/Metadata), and decode (Codec/Decode), which calls the query planner.
--                        The planner is the record Planner, an interface with one field for each call.
--   MemStore/Column/*    src/mem_store/column.rs: DataSection, Column, lz4_encode. Column/Decoding
--                        fills the interface Planner with what the planned operators compute on the
--                        sections of a column, so that a codec can be run. An operator that the
--                        executor refuses for the types of its buffers, as AssembleNullable and
--                        LZ4Decode do, gives `other`, which is no column.
--   MemStore/Integers    src/mem_store/integers.rs: IntegerColumn::new_boxed, encode, create_col.
--   MemStore/Strings     src/mem_store/strings.rs: fast_build_string_column, with a dictionary or packed.
--   MemStore/Floats      src/mem_store/floats.rs: FloatColumn::new_boxed.
--   MemStore/ColumnBuilder   src/mem_store/column_builder.rs: IntColBuilder, push and finalize;
--                        StringCol and FloatCol beside it hold the two other builders.
--   MemStore/RawCol      src/mem_store/raw_col.rs: MixedCol::finalize.
--   MemStore/Lru         src/mem_store/lru.rs: the cache of column keys, on the interface LruCache.
--   MemStore/Partition   src/mem_store/partition.rs: ColumnHandle, Partition, new, from_buffer, restore,
--                        evict, non_residents, nonresidents_match, promise_load.
--   MemStore/Table       src/mem_store/table.rs: Table, the three inserts, batch, snapshot, restore, evict.
--                        Table/Steps has the tables that are reached by these operations.
--   Engine/DataTypes/Types   src/engine/data_types/types.rs: EncodingType, BasicType.
--   Engine/Operators/*   src/engine/operators, a module for each operator: its loop is a recursive
--                        function, an operator that keeps state between batches takes and returns it.
--                        Filtering holds the six short operators that keep some rows of a column,
--                        FuseNulls the three pairs of fuse_nulls.rs, TopN the heap of top_n.rs,
--                        Aggregate the four operators of aggregate.rs.
--   Engine/Planning/Query    src/engine/planning/query.rs: extract_aggregators, ensure_no_aggregates,
--                        normalize, find_referenced_cols and is_select_star of Query.
--   Tests/*              runs at concrete inputs, those of the repository's unit tests among them.
--
-- A table holds a buffer and partitions; `ingest` pushes a row to the buffer, and `batch` finalizes the
-- columns of the buffer, one builder for each, to the handles of a new partition.
--
-- An operator of one file is used by others as in the code: `merge`, `merge_partitioned` and
-- `merge_deduplicate` return ops that `merge_keep`, `merge_drop` and `merge_aggregate` replay on other
-- columns; `partition` returns the groups that `merge_partitioned` and `merge_deduplicate_partitioned`
-- merge within; the dictionary lookups read what `IndexedPackedStrings` wrote; the columns of integers
-- hold codecs, and `DeltaDecode` undoes the encoding that their constructor chose.
--
-- Representation. A vector is a list, and where a loop only moves an index forward through a vector,
-- the model has the suffix at the index. usize, u8, u32 and u64 are native natural numbers, i64 and
-- i128 are integers; where the code's arithmetic wraps, the model has the remainder by the power of
-- two, or `wrap_i64`; `checked_add` returns an Option. An index out of range and an unwrap of nothing
-- are `none`, or `panic` where there are errors besides. An f64 is its 64 bits. A type parameter of
-- the code is one of the model; `Ord` and `PartialEq` are the instance argument `Ord`, which holds
-- that the tests describe one total order, so that floats, which break it at NaN, are not an
-- instance. The order of a merge is an argument, the record Comparator, as in comparator.rs.
--
-- Termination. Most loops recur on the suffix that is left. `push_len` recurs on accessibility of
-- its number. The loop of UnpackStrings runs on fuel that bounds its rounds; each takes a string, which
-- has at least one byte in the data, so that any fuel above the number of strings is enough.
-- `heap_loop` of TopN runs on the number of keys; each round goes down by at least one index. Decimal
-- numerals run on the number itself, which each digit divides by ten. The loops of `partition` run on as
-- much fuel as there are elements on both sides; each round takes at least one.
--
-- A hash set or a hash map is a list, whose order the code does not use; the vectors of TopN have the
-- capacity n that is asked for; that of UnpackStrings has any, and grows as a parameter says; an unstable sort is a stable one.
--
-- Parameters. The hex crate, the conversion of an i64 to f64, the decimal form of an f64, the memory
-- that a column takes, and the cache of the lru crate, with what is documented of its keys. The lz4
-- crate (src/mem_store/lz4.rs calls it) is a pair of functions to bytes and back, with the hypothesis,
-- where a theorem needs it, that decompression restores what was compressed.
--
-- Not modelled: arithmetic on f64, for which the language has no IEEE numbers; compiling expressions to
-- plans and the dynamic typing of buffers (src/engine/planning, src/engine/execution), whose calls are
-- interfaces here; the scheduler and its threads (src/scheduler); the statistics of tables, and loading
-- their metadata from disk (src/mem_store/table.rs); reading hex-packed strings back
-- (src/engine/operators/unhexpack_strings.rs); the parser (src/syntax/parser.rs), which translates the
-- trees of another crate; disk storage (src/disk_store), which calls RocksDB and generated code; the
-- server, the clients and the macros, which have no logic of the database.
pub mod Prelude
pub mod Stringpack
pub mod Bitvec
pub mod Errors
pub mod Engine
pub mod Ingest
pub mod MemStore
pub mod Syntax
pub mod Tests
