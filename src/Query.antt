-- ===== src/Query.antt =====
-- The package `internal/query`: the classification of SQL texts, the row bound and the result.
pub mod Keyword
pub mod Output
pub mod Scanner
pub mod Bound
pub mod Shape
pub mod Types
pub mod Serialize
