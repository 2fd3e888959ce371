-- ===== src/Syntax.antt =====
-- src/syntax: queries as the parser leaves them.
pub mod Expression
