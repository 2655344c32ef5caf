-- ===== src/Streams.antt =====
-- The streams of deprecated/internal/streams, which the retired program builds its tables from.
pub mod Items
pub mod Raw
pub mod Connections
pub mod BatchWriter
pub mod Parallel
pub mod Ingester
pub mod Compressed
pub mod Full
pub mod Lite
pub mod Parquet
mod Tests
mod ParallelTests
mod ParquetTests
