-- ===== src/Fies.antt =====
-- internal/fies: the fies2a capture files, their filter, their cut, their rows and their merge.
pub mod File
pub mod Window
pub mod Row
pub mod Filter
pub mod Source
pub mod Layout
pub mod Verify
pub mod Merge
mod Tests
mod SourceTests
mod MergeTests
mod VerifyTests
