-- ===== src/Tools.antt =====
-- The package `internal/tools`: the five tools, over a driver that is a parameter.
pub mod Limit
pub mod Driver
pub mod Ensures
pub mod RunQuery
pub mod RunStatement
pub mod ListDatabases
pub mod ListTables
pub mod Ping
