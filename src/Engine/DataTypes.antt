-- ===== src/Engine/DataTypes.antt =====
-- src/engine/data_types: the types of columns.
pub mod Types
