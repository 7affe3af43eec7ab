-- ===== src/Tests.antt =====
-- Runs on concrete inputs, and the theorems applied to them.
mod Packs
mod Documents
mod Indexing
mod Pooling
mod CodeTables
mod Unsaved
mod Searching
mod Extraction
