-- ===== src/Engine/Operators.antt =====
-- src/engine/operators: one module for each operator, named as its file there.
pub mod UnpackStrings
pub mod DeltaDecode
pub mod DictLookup
pub mod Comparator
pub mod Merge
pub mod MergeKeep
pub mod MergeDeduplicate
pub mod Filtering
pub mod Partition
pub mod MergeDeduplicatePartitioned
pub mod MergeDrop
pub mod MergeAggregate
pub mod FuseNulls
pub mod IsNull
pub mod MergePartitioned
pub mod TopN
pub mod Aggregate
