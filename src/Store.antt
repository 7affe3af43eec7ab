-- ===== src/Store.antt =====
-- src/internal/store: split.go (Paras), frontmatter.go (Frontmatter, TagList), store.go (Db, Upsert, Query, Search).
pub mod Paras
pub mod Frontmatter
pub mod Db
pub mod Upsert
pub mod Query
pub mod TagList
pub mod Search
