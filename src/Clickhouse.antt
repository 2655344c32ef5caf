-- ===== src/Clickhouse.antt =====
-- internal/clickhouse: table names, and the server as the program's statements see it.
pub mod Names
pub mod Server
pub mod Instance
pub mod Fdhs
pub mod Columns
pub mod Insert
pub mod Summary
