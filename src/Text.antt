-- ===== src/Text.antt =====
-- The texts that the program builds for other readers: SQL literals and names, shell words, numbers.
pub mod Replace
pub mod Sql
pub mod Shell
pub mod Decimal
pub mod Split
pub mod Group
mod Tests
