-- ===== src/Store/Upsert/Progress.antt =====
-- store.go: an upsert whose statements, embedder and context raise no error.
use ragrep.Common.{
  if◌then◌else◌, ℕ, ◌≡◌, ◌≢◌, refl, Text, text_eq, Bool, true, Bool-cases, inl, inr, Option, none,
  some, List, [], ◌∷◌, ◌++◌, Result, ok, err, ◌>>=◌,
}
use ragrep.Store.Paras.{Para}
use ragrep.Store.Frontmatter.{indexed_paras, parse_tags, auto_tags, contains}
use ragrep.Store.Db.{
  Document, Db, find_doc, delete_fts, delete_vec, delete_paragraphs, delete_doc_tags,
}
use ragrep.Store.Db.Lookup.{text_eq-false}
use ragrep.Store.Db.Purge.{ids_of}
use ragrep.Store.Upsert.{
  DocError, Env, embed_text, exec, embed_para, para_row, put_para, put_fts, put_vec, put_tag,
  put_doc, set_doc, insert_para, insert_paras, insert_tags, commit, check_context, index_content,
  purge_rows, replace_doc, insert_doc, settle, refresh, upsert_doc_with_hash,
}
use ragrep.Store.Upsert.Outcome.{new_doc}

module _ {E Vector Blob : Type 0} (env : Env E Vector Blob) where
  pub record IsQuiet : Type 0 where
    pub fault : (db : Db Blob) → env.fault db ≡ none
    pub embed : (text : Text) → (v : Vector) × (env.embed text ≡ ok v)
    pub serialize : (v : Vector) → (blob : Blob) × (env.serialize v ≡ ok blob)
    pub canceled : env.canceled ≡ none
    pub commit_fault : (db : Db Blob) → env.commit_fault db ≡ none

  abbrev Succeeds : {A : Type 0} → Result (DocError E) A → Type 0
  Succeeds {A} r = (a : A) × (r ≡ ok a)

  then-Succeeds :
      {A B : Type 0} (r : Result (DocError E) A) (f : A → Result (DocError E) B)
      → Succeeds r
      → ((a : A) → Succeeds (f a))
      → Succeeds (r >>= f)
  then-Succeeds (ok a) f s g = g a
  then-Succeeds (err e) f s g = cc (s.1)

  module _ (quiet : IsQuiet) where
    exec-Succeeds :
        (statement : Db Blob → Db Blob) (db : Db Blob) → Succeeds (exec env statement db)
    unfolding exec
    exec-Succeeds statement db = (statement db, rw (quiet.fault db, exec) refl)

    then-exec :
        (r : Result (DocError E) (Db Blob)) (statement : Db Blob → Db Blob)
        → Succeeds r
        → Succeeds (r >>= exec env statement)
    then-exec r statement s =
        then-Succeeds r (exec env statement) s (λ t. exec-Succeeds statement t)

    embed_para-Succeeds : (path : Text) (p : Para) → Succeeds (embed_para env path p)
    unfolding embed_para
    embed_para-Succeeds path p =
        let v = quiet.embed (embed_text p) in
        let b = quiet.serialize v.0 in (b.0, rw (v.1, embed_para, b.1) refl)

    insert_para-Succeeds :
        (doc : ℕ) (path : Text) (p : Para) (db : Db Blob) → Succeeds (insert_para env doc path p db)
    unfolding insert_para
    insert_para-Succeeds doc path p db =
        let id = env.new_rowid (ids_of db.paragraphs) in
        then-Succeeds (exec env (put_para (para_row id doc p)) db >>= exec env (put_fts id p.text))
          (λ t. embed_para env path p >>= (λ blob. exec env (put_vec id blob) t))
          (then-exec (exec env (put_para (para_row id doc p)) db) (put_fts id p.text)
            (exec-Succeeds (put_para (para_row id doc p)) db))
          (λ t.
            then-Succeeds (embed_para env path p) (λ blob. exec env (put_vec id blob) t)
              (embed_para-Succeeds path p) (λ blob. exec-Succeeds (put_vec id blob) t))

    insert_paras-Succeeds :
        (doc : ℕ) (path : Text) (ps : List Para) (db : Db Blob)
        → Succeeds (insert_paras env doc path ps db)
    unfolding insert_paras
    insert_paras-Succeeds doc path [] db = (db, refl)
    insert_paras-Succeeds doc path (p ∷ ps) db =
        then-Succeeds (insert_para env doc path p db) (insert_paras env doc path ps)
          (insert_para-Succeeds doc path p db) (λ t. insert_paras-Succeeds doc path ps t)

    insert_tags-Succeeds :
        (doc : ℕ) (seen tags : List Text) (db : Db Blob)
        → Succeeds (insert_tags env doc seen tags db)
    unfolding insert_tags
    insert_tags-Succeeds doc seen [] db = (db, refl)
    insert_tags-Succeeds doc seen (t ∷ tags) db = elim (Bool-cases (contains t seen)) [
      | inl e ↦ rw (e, insert_tags) (insert_tags-Succeeds doc seen tags db)
      | inr e ↦
          rw (e, insert_tags)
            (then-Succeeds (exec env (put_tag doc t) db) (insert_tags env doc (t ∷ seen) tags)
              (exec-Succeeds (put_tag doc t) db) (λ u. insert_tags-Succeeds doc (t ∷ seen) tags u))
    ]

    finish-Succeeds : (db : Db Blob) → Succeeds (check_context env db) × Succeeds (commit env db)
    unfolding check_context commit
    finish-Succeeds db = (
      (db, rw (quiet.canceled, check_context) refl),
      (db, rw (quiet.commit_fault db, commit) refl),
    )

    index_content-Succeeds :
        (doc : ℕ) (path content : Text) (db : Db Blob)
        → Succeeds (index_content env doc path content db)
    unfolding index_content
    index_content-Succeeds doc path content db =
        let paras = insert_paras env doc path (indexed_paras content) db in
        let tags =
          insert_tags env doc [] (parse_tags env.lower content ++ auto_tags env.lower path) in
        then-Succeeds (paras >>= tags >>= check_context env) (commit env)
          (then-Succeeds (paras >>= tags) (check_context env)
            (then-Succeeds paras tags (insert_paras-Succeeds doc path (indexed_paras content) db)
              (λ t. insert_tags-Succeeds doc [] _ t))
            (λ t. (finish-Succeeds t).0))
          (λ t. (finish-Succeeds t).1)

    purge_rows-Succeeds : (doc : ℕ) (db : Db Blob) → Succeeds (purge_rows env doc db)
    unfolding purge_rows
    purge_rows-Succeeds doc db =
        let first = exec env (delete_fts doc) db in
        let second = first >>= exec env (delete_vec doc) in
        let third = second >>= exec env (delete_paragraphs doc) in
        then-exec third (delete_doc_tags doc) (
          then-exec second (delete_paragraphs doc)
            (then-exec first (delete_vec doc) (exec-Succeeds (delete_fts doc) db)))

    module _ (path content : Text) (mtime : ℕ) (hash : Text) (db : Db Blob) where
      insert_doc-Succeeds : Succeeds (insert_doc env path content mtime hash db)
      unfolding insert_doc
      insert_doc-Succeeds =
          let row = new_doc env path content mtime hash db in
          let begun = exec env (λ u. u) db in
          then-Succeeds (begun >>= exec env (put_doc row)) (index_content env row.id path content)
            (then-exec begun (put_doc row) (exec-Succeeds (λ u. u) db))
            (λ t. index_content-Succeeds row.id path content t)

      replace_doc-Succeeds : (doc : ℕ) → Succeeds (replace_doc env doc path content mtime hash db)
      unfolding replace_doc
      replace_doc-Succeeds doc =
          let set = set_doc doc content mtime hash in
          let begun = exec env (λ u. u) db in
          then-Succeeds (begun >>= purge_rows env doc >>= exec env set)
            (index_content env doc path content)
            (then-exec (begun >>= purge_rows env doc) set (
              then-Succeeds begun (purge_rows env doc) (exec-Succeeds (λ u. u) db)
                (λ t. purge_rows-Succeeds doc t)))
            (λ t. index_content-Succeeds doc path content t)

      settle-true :
          (r : Result (DocError E) (Db Blob)) → Succeeds r → (settle env true db r).1 ≡ ok true
      unfolding settle
      settle-true (ok t) s = refl
      settle-true (err e) s = cc (s.1)

      abbrev Changed : Db Blob × Result (DocError E) Bool → Type 0
      Changed r = r.1 ≡ ok true

      changes :
          (f : Option Document)
          → find_doc path db.documents ≡ f
          → ((d : Document) → find_doc path db.documents ≡ some d → d.hash ≢ hash)
          → Changed (elim f [
            | none ↦ settle env true db (insert_doc env path content mtime hash db)
            | some d ↦
                if text_eq d.hash hash
                then refresh env d mtime db
                else settle env true db (replace_doc env d.id path content mtime hash db)
          ])
      changes none found new = settle-true _ insert_doc-Succeeds
      changes (some d) found new =
          rw (text_eq-false d.hash hash (new d found)) (settle-true _ (replace_doc-Succeeds d.id))

      -- When no statement, embedding, serialization, context check or commit fails, an upsert of a
      -- path that is not stored with the given hash reports a change.
      pub upsert_doc_with_hash-Succeeds :
          ((d : Document) → find_doc path db.documents ≡ some d → d.hash ≢ hash)
          → (upsert_doc_with_hash env path content mtime hash db).1 ≡ ok true
      unfolding upsert_doc_with_hash
      upsert_doc_with_hash-Succeeds new =
          rw (quiet.fault db, upsert_doc_with_hash) (changes (find_doc path db.documents) refl new)
