-- ===== src/Store/Upsert.antt =====
-- store.go: the transactions that index and delete a document, with every error on their way.
pub mod Rows
pub mod Paragraphs
pub mod Tags
pub mod Content
pub mod Outcome
pub mod Consistent
pub mod Stored
pub mod Removed
pub mod Progress
use ragrep.Common.{
  ℕ, Text, text_eq, codes, Bool, true, false, not, ◌==◌, List, [], ◌∷◌, ◌++◌, map, select, Option,
  none, some, if◌then◌else◌, is_empty, Result, ok, err, ◌>>=◌,
}
use ragrep.Store.Paras.{Para}
use ragrep.Store.Frontmatter.{indexed_paras, parse_tags, auto_tags, contains}
use ragrep.Store.Db.{
  Document, ParaRow, Db, find_doc, delete_fts, delete_vec, delete_paragraphs, delete_doc_tags,
  update_doc, update_mtime,
}

-- `failed` is an error of the driver, of the serialization or of the context.
pub data DocError (E : Type 0) : Type 0 where
  not_found : DocError E
  embed_failed : Text → ℕ → E → DocError E
  failed : E → DocError E

-- What the store uses of the driver, the context, the embedder and `unicode`.
pub record Env (E Vector Blob : Type 0) : Type 0 where
  -- The error with which a statement on these tables is answered.
  pub fault : Db Blob → Option E
  -- The `INTEGER PRIMARY KEY` of a new row next to those in use.
  pub new_rowid : List ℕ → ℕ
  pub embed : Text → Result E Vector
  pub serialize : Vector → Result E Blob
  -- `ctx.Err()` before the commit.
  pub canceled : Option E
  pub commit_fault : Db Blob → Option E
  pub lower : ℕ → ℕ

unfoldable pub embed_text : Para → Text
embed_text p =
    codes "title: "
    ++ (if is_empty p.heading then codes "none" else p.heading)
    ++ codes " | text: "
    ++ p.text

unfoldable pub para_row : ℕ → ℕ → Para → ParaRow
para_row id doc p = record {
  id = id;
  doc_id = doc;
  seq = p.seq;
  start_line = p.start_line;
  end_line = p.end_line;
  text = p.text;
  heading = p.heading;
}

-- The `INSERT` statements of the loops.
module _ {Blob : Type 0} where
  abbrev pub put_para : ParaRow → Db Blob → Db Blob
  put_para row db = record db { paragraphs = db.paragraphs ++ row ∷ [] }

  abbrev pub put_fts : ℕ → Text → Db Blob → Db Blob
  put_fts id text db = record db { fts = db.fts ++ record { rowid = id; text = text } ∷ [] }

  abbrev pub put_vec : ℕ → Blob → Db Blob → Db Blob
  put_vec id blob db = record db { vec = db.vec ++ record { rowid = id; embedding = blob } ∷ [] }

  abbrev pub put_tag : ℕ → Text → Db Blob → Db Blob
  put_tag doc tag db = record db {
    doc_tags = db.doc_tags ++ record { doc_id = doc; tag = tag } ∷ [];
  }

  abbrev pub put_doc : Document → Db Blob → Db Blob
  put_doc row db = record db { documents = db.documents ++ row ∷ [] }

  abbrev pub drop_doc : ℕ → Db Blob → Db Blob
  drop_doc id db = record db { documents = select (λ d. not (d.id == id)) db.documents }

  unfoldable pub set_doc : ℕ → Text → ℕ → Text → Db Blob → Db Blob
  unfolding update_doc
  set_doc id content mtime hash db = record db {
    documents = map (update_doc id content mtime hash) db.documents;
  }

module _ {E Vector Blob : Type 0} (env : Env E Vector Blob) where
  abbrev Tx : Type 0
  Tx = Result (DocError E) (Db Blob)

  -- `tx.ExecContext`, and what it changes.
  unfoldable pub exec : (Db Blob → Db Blob) → Db Blob → Tx
  exec statement db = elim (env.fault db) [
    | some e ↦ err (DocError.failed e)
    | none ↦ ok (statement db)
  ]

  unfoldable pub embed_para : Text → Para → Result (DocError E) Blob
  unfolding embed_text
  embed_para path p = elim (env.embed (embed_text p)) [
    | err e ↦ err (DocError.embed_failed path p.seq e)
    | ok v ↦ elim (env.serialize v) [ err e ↦ err (DocError.failed e) | ok blob ↦ ok blob ]
  ]

  -- The body of the loop over the paragraphs.
  unfoldable pub insert_para : ℕ → Text → Para → Db Blob → Tx
  unfolding exec embed_para para_row
  insert_para doc path p db =
      let id = env.new_rowid (map (λ row. row.id) db.paragraphs) in
      exec (put_para (para_row id doc p)) db
      >>= exec (put_fts id p.text)
      >>= (λ t. embed_para path p >>= (λ blob. exec (put_vec id blob) t))

  unfoldable pub insert_paras : ℕ → Text → List Para → Db Blob → Tx
  unfolding insert_para
  insert_paras doc path [] db = ok db
  insert_paras doc path (p ∷ ps) db = insert_para doc path p db >>= insert_paras doc path ps

  -- The loop over the tags; `seen` is `seenTags`.
  unfoldable pub insert_tags : ℕ → List Text → List Text → Db Blob → Tx
  unfolding exec contains
  insert_tags doc seen [] db = ok db
  insert_tags doc seen (t ∷ tags) db = elim (contains t seen) [
    | true ↦ insert_tags doc seen tags db
    | false ↦ exec (put_tag doc t) db >>= insert_tags doc (t ∷ seen) tags
  ]

  unfoldable pub commit : Db Blob → Tx
  commit db = elim (env.commit_fault db) [ some e ↦ err (DocError.failed e) | none ↦ ok db ]

  unfoldable pub check_context : Db Blob → Tx
  check_context db = elim env.canceled [ some e ↦ err (DocError.failed e) | none ↦ ok db ]

  -- The rows of a document whose row stands.
  unfoldable pub index_content : ℕ → Text → Text → Db Blob → Tx
  unfolding insert_paras insert_tags commit check_context
  index_content doc path content db =
      insert_paras doc path (indexed_paras content) db
      >>= insert_tags doc [] (parse_tags env.lower content ++ auto_tags env.lower path)
      >>= check_context
      >>= commit

  -- The four deletions for a document, in their order.
  unfoldable pub purge_rows : ℕ → Db Blob → Tx
  unfolding exec delete_fts delete_vec delete_paragraphs delete_doc_tags
  purge_rows doc db =
      exec (delete_fts doc) db
      >>= exec (delete_vec doc)
      >>= exec (delete_paragraphs doc)
      >>= exec (delete_doc_tags doc)

  unfoldable pub replace_doc : ℕ → Text → Text → ℕ → Text → Db Blob → Tx
  unfolding exec purge_rows index_content set_doc
  replace_doc doc path content mtime hash db =
      exec (λ t. t) db
      >>= purge_rows doc
      >>= exec (set_doc doc content mtime hash)
      >>= index_content doc path content

  unfoldable pub insert_doc : Text → Text → ℕ → Text → Db Blob → Tx
  unfolding exec index_content
  insert_doc path content mtime hash db =
      let id = env.new_rowid (map (λ d. d.id) db.documents) in
      exec (λ t. t) db
      >>= exec
          (put_doc record { id = id; path = path; content = content; mtime = mtime; hash = hash })
      >>= index_content id path content

  -- What is left when a function returns: the rollback restores the tables before the transaction.
  unfoldable pub settle : {A : Type 0} → A → Db Blob → Tx → Db Blob × Result (DocError E) A
  settle answer db (ok t) = (t, ok answer)
  settle answer db (err e) = (db, err e)

  -- The content is the one that is indexed: only the mtime may have moved.
  unfoldable pub refresh : Document → ℕ → Db Blob → Db Blob × Result (DocError E) Bool
  unfolding exec settle update_mtime
  refresh d mtime db =
      if d.mtime == mtime
      then (db, ok false)
      else settle false db
          (exec (λ t. record t { documents = map (update_mtime d.id mtime) t.documents }) db)

  unfoldable pub upsert_doc_with_hash :
      Text → Text → ℕ → Text → Db Blob → Db Blob × Result (DocError E) Bool
  unfolding refresh settle replace_doc insert_doc find_doc
  upsert_doc_with_hash path content mtime hash db = elim (env.fault db) [
    | some e ↦ (db, err (DocError.failed e))
    | none ↦ elim (find_doc path db.documents) [
      | none ↦ settle true db (insert_doc path content mtime hash db)
      | some d ↦
          if text_eq d.hash hash
          then refresh d mtime db
          else settle true db (replace_doc d.id path content mtime hash db)
    ]
  ]

  unfoldable pub delete_doc : Text → Db Blob → Db Blob × Result {0, 0} (DocError E) Unit
  unfolding exec purge_rows settle find_doc commit
  delete_doc path db = elim (env.fault db) [
    | some e ↦ (db, err (DocError.failed e))
    | none ↦ elim (find_doc path db.documents) [
      | none ↦ (db, err DocError.not_found)
      | some d ↦
          settle tt db (exec (λ t. t) db >>= purge_rows d.id >>= exec (drop_doc d.id) >>= commit)
    ]
  ]
