-- ===== src/Diagnostics.antt =====
-- core/diagnostics: the writer of a log, the migration of its history, the files that a migration
-- goes through, and the migration of former streams.
pub mod Writer
pub mod Migration
pub mod Disk
pub mod Legacy
