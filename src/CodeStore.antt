-- ===== src/CodeStore.antt =====
-- src/internal/codestore: symbols.go.
pub mod Tables
pub mod Upsert
pub mod LiveKeys
pub mod LiveFiles
pub mod Edges
pub mod Lookups
pub mod Reachable
pub mod LiveSearch
pub mod Ranking
pub mod Search
use ragrep.Common.{ℕ, Bool, Text}

-- A search result. `F` is the type of the floating-point scores.
pub record SymbolHit (F : Type 0) : Type 0 where
  pub key : Text
  pub kind : Text
  pub name : Text
  pub qualified_name : Text
  pub signature : Text
  pub path : Text
  pub start_line : ℕ
  pub end_line : ℕ
  pub fts_rank : ℕ
  pub vec_rank : ℕ
  pub exact_match : Bool
  pub score : F
  pub live : Bool
  pub generation : ℕ
  pub content_hash : Text

-- `ErrNotFound`, `ErrStaleLiveKey`, or an error of the database.
pub data StoreError : Type 0 where
  not_found stale_live_key : StoreError
  database : Text → StoreError
