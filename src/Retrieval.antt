-- ===== src/Retrieval.antt =====
-- src/internal/coderetrieval: context.go (Merge, Pack) and manifest.go (Manifest).
pub mod Merge
pub mod Pack
pub mod Manifest
