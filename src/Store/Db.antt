-- ===== src/Store/Db.antt =====
-- store.go: the tables of the document database, and the rows that belong to one document.
pub mod Purge
pub mod Find
pub mod Lookup
use ragrep.Common.{
  ℕ, Text, text_eq, Bool, true, false, not, ◌||◌, ◌==◌, List, [], ◌∷◌, ◌++◌, map, select, find,
  Option, none, some, if◌then◌else◌,
}

pub record Document : Type 0 where
  pub id : ℕ
  pub path : Text
  pub content : Text
  pub mtime : ℕ
  pub hash : Text

pub record ParaRow : Type 0 where
  pub id : ℕ
  pub doc_id : ℕ
  pub seq : ℕ
  pub start_line : ℕ
  pub end_line : ℕ
  pub text : Text
  pub heading : Text

pub record TagRow : Type 0 where
  pub doc_id : ℕ
  pub tag : Text

pub record FtsRow : Type 0 where
  pub rowid : ℕ
  pub text : Text

-- `Blob` is the serialized embedding.
pub record VecRow (Blob : Type 0) : Type 0 where
  pub rowid : ℕ
  pub embedding : Blob

pub record Db (Blob : Type 0) : Type 0 where
  pub documents : List Document
  pub paragraphs : List ParaRow
  pub doc_tags : List TagRow
  pub fts : List FtsRow
  pub vec : List (VecRow Blob)

-- `WHERE path=?`.
unfoldable pub find_doc : Text → List Document → Option Document
find_doc path = find (λ d. text_eq d.path path)

unfoldable pub member : ℕ → List ℕ → Bool
member n [] = false
member n (m ∷ ms) = n == m || member n ms

-- `SELECT id FROM paragraphs WHERE doc_id=?`.
unfoldable pub para_ids : ℕ → List ParaRow → List ℕ
para_ids doc rows = map (λ p. p.id) (select (λ p. p.doc_id == doc) rows)

module _ {Blob : Type 0} where
  -- The four deletions for a document, in their order.
  unfoldable pub delete_fts : ℕ → Db Blob → Db Blob
  unfolding para_ids member
  delete_fts doc db = record db {
    fts = select (λ r. not (member r.rowid (para_ids doc db.paragraphs))) db.fts;
  }

  unfoldable pub delete_vec : ℕ → Db Blob → Db Blob
  unfolding para_ids member
  delete_vec doc db = record db {
    vec = select (λ r. not (member r.rowid (para_ids doc db.paragraphs))) db.vec;
  }

  unfoldable pub delete_paragraphs : ℕ → Db Blob → Db Blob
  delete_paragraphs doc db = record db {
    paragraphs = select (λ p. not (p.doc_id == doc)) db.paragraphs;
  }

  unfoldable pub delete_doc_tags : ℕ → Db Blob → Db Blob
  delete_doc_tags doc db = record db { doc_tags = select (λ t. not (t.doc_id == doc)) db.doc_tags }

  unfoldable pub purge : ℕ → Db Blob → Db Blob
  unfolding delete_fts delete_vec delete_paragraphs delete_doc_tags
  purge doc db = delete_doc_tags doc (delete_paragraphs doc (delete_vec doc (delete_fts doc db)))

-- `UPDATE documents SET content=?, mtime=?, hash=? WHERE id=?`.
unfoldable pub update_doc : ℕ → Text → ℕ → Text → Document → Document
update_doc id content mtime hash d =
    if d.id == id then record d { content = content; mtime = mtime; hash = hash } else d

-- `UPDATE documents SET mtime=? WHERE id=?`.
unfoldable pub update_mtime : ℕ → ℕ → Document → Document
update_mtime id mtime d = if d.id == id then record d { mtime = mtime } else d
