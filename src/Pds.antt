-- ===== src/Pds.antt =====
-- internal/pds: the probing directives of a JSONL file.
pub mod Parse
pub mod Reader
pub mod Tests
