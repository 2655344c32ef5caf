-- ===== src/Cmd.antt =====
-- cmd/fie-importer: the commands.
pub mod Error
pub mod Table
pub mod Upload
pub mod Transfer
pub mod UploadFies
pub mod Fdhs
pub mod PdStats
pub mod UploadPds
pub mod Merge
pub mod Watch
pub mod Log
pub mod Snapshot
mod Tests
mod PdTests
mod FdhTests
mod DirectoryTests
mod DryRunTests
mod MergeTests
