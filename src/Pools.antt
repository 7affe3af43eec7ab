-- ===== src/Pools.antt =====
-- src/cmd/ragrep/resource_pool.go: the pool of language servers and the embedding pool.
pub mod Lsp
pub mod Embedding
pub mod Clients
