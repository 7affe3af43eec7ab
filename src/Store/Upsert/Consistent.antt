-- ===== src/Store/Upsert/Consistent.antt =====
-- store.go: an upsert and the consistency of the tables.
use ragrep.Common.{
  ℕ, ◌≡◌, refl, sym, subst, inl, inr, Text, Bool, [], ◌∷◌, map, map-append, select-All, All,
  All-map, In, Any-append, IsNodup, IsNodup-snoc, Result,
}
use ragrep.Store.Db.{
  Document, Db, purge, delete_fts, delete_vec, delete_paragraphs, delete_doc_tags, update_doc,
  update_mtime,
}
use ragrep.Store.Db.Purge.{purge-IsIndexed}
use ragrep.Store.Db.Find.{
  doc_ids, doc_paths, find_doc-some, find_doc-none, In-map, map_frame, update_doc-id,
  update_doc-path, update_mtime-id, update_mtime-path,
}
use ragrep.Store.Upsert.{DocError, Env, set_doc, put_doc, upsert_doc_with_hash}
use ragrep.Store.Upsert.Rows.{IsFresh}
use ragrep.Store.Upsert.Content.{IsConsistent, IsContent-IsConsistent}
use ragrep.Store.Upsert.Outcome.{Outcome, new_doc, upsert_doc_with_hash-Outcome}

module _ {Blob : Type 0} where
  pub purge-IsConsistent : (doc : ℕ) (db : Db Blob) → IsConsistent db → IsConsistent (purge doc db)
  unfolding purge delete_fts delete_vec delete_paragraphs delete_doc_tags
  purge-IsConsistent doc db w = record {
    indexed = purge-IsIndexed doc db w.indexed;
    doc_ids = w.doc_ids;
    doc_paths = w.doc_paths;
    para_owners = select-All _ _ db.paragraphs w.para_owners;
    tag_owners = select-All _ _ db.doc_tags w.tag_owners;
  }

  -- A change of the rows of documents that keeps their ids and paths.
  pub framed-IsConsistent :
      (f : Document → Document) (db : Db Blob)
      → ((d : Document) → (f d).id ≡ d.id)
      → ((d : Document) → (f d).path ≡ d.path)
      → IsConsistent db
      → IsConsistent (record db { documents = map f db.documents })
  framed-IsConsistent f db ids paths w =
      let same = sym (map_frame (λ d. d.id) f db.documents ids) in
      record {
        indexed = record {
          same_fts = w.indexed.same_fts;
          same_vec = w.indexed.same_vec;
          nodup = w.indexed.nodup;
        };
        doc_ids = subst IsNodup same w.doc_ids;
        doc_paths = subst IsNodup (sym (map_frame (λ d. d.path) f db.documents paths)) w.doc_paths;
        para_owners = subst (λ l. All (λ p. In p.doc_id l) db.paragraphs) same w.para_owners;
        tag_owners = subst (λ l. All (λ p. In p.doc_id l) db.doc_tags) same w.tag_owners;
      }

  pub put_doc-IsConsistent :
      (d : Document) (db : Db Blob)
      → ¬ (In d.id (doc_ids db.documents))
      → ¬ (In d.path (doc_paths db.documents))
      → IsConsistent db
      → IsConsistent (put_doc d db)
  put_doc-IsConsistent d db new_id new_path w =
      let ids = sym (map-append (λ e. e.id) db.documents (d ∷ [])) in
      let wider = λ (n : ℕ) (i : In n (doc_ids db.documents)).
        subst (In n) ids ((Any-append (λ x. x ≡ n) (doc_ids db.documents) (d.id ∷ [])).1 (inl i)) in
      record {
        indexed = record {
          same_fts = w.indexed.same_fts;
          same_vec = w.indexed.same_vec;
          nodup = w.indexed.nodup;
        };
        doc_ids = subst IsNodup ids (IsNodup-snoc (doc_ids db.documents) d.id w.doc_ids new_id);
        doc_paths =
            subst IsNodup (sym (map-append (λ e. e.path) db.documents (d ∷ [])))
              (IsNodup-snoc (doc_paths db.documents) d.path w.doc_paths new_path);
        para_owners = All-map _ _ (λ p i. wider p.doc_id i) db.paragraphs w.para_owners;
        tag_owners = All-map _ _ (λ p i. wider p.doc_id i) db.doc_tags w.tag_owners;
      }

module _ {E Vector Blob : Type 0} (env : Env E Vector Blob) (fresh : IsFresh env.new_rowid) where
  Outcome-IsConsistent :
      (path content : Text) (mtime : ℕ) (hash : Text) (db : Db Blob)
      {r : Db Blob × Result (DocError E) Bool}
      → Outcome env path content mtime hash db r
      → IsConsistent db
      → IsConsistent r.0
  unfolding set_doc purge delete_fts delete_vec delete_paragraphs delete_doc_tags
  Outcome-IsConsistent path content mtime hash db (Outcome.rolled_back e) w = w
  Outcome-IsConsistent path content mtime hash db (Outcome.unchanged d found same_hash same_mtime)
        w =
      w
  Outcome-IsConsistent path content mtime hash db (Outcome.touched d found same) w =
      framed-IsConsistent (update_mtime d.id mtime) db (update_mtime-id d.id mtime)
        (update_mtime-path d.id mtime) w
  Outcome-IsConsistent path content mtime hash db (Outcome.inserted t found c) w =
      let row = new_doc env path content mtime hash db in
      IsContent-IsConsistent env fresh row.id path content (put_doc row db) c
        (subst (In row.id) (sym (map-append (λ e. e.id) db.documents (row ∷ [])))
          ((Any-append (λ x. x ≡ row.id) (doc_ids db.documents) (row.id ∷ [])).1 (inr (inl refl))))
        (put_doc-IsConsistent row db (fresh (doc_ids db.documents))
          (find_doc-none path db.documents found) w)
  Outcome-IsConsistent path content mtime hash db (Outcome.replaced d t found changed c) w =
      let ids = update_doc-id d.id content mtime hash in
      IsContent-IsConsistent env fresh d.id path content
        (set_doc d.id content mtime hash (purge d.id db)) c
        (subst (In d.id)
          (sym (map_frame (λ e. e.id) (update_doc d.id content mtime hash) db.documents ids))
          (In-map (λ e. e.id) d db.documents (find_doc-some path db.documents found).0))
        (framed-IsConsistent (update_doc d.id content mtime hash) (purge d.id db) ids
          (update_doc-path d.id content mtime hash) (purge-IsConsistent d.id db w))

  -- With row ids that are not in use, an upsert keeps consistent tables consistent, however it
  -- ends: text rows and vector rows stand in step with the paragraphs, ids and paths are distinct,
  -- and every paragraph and tag belongs to a document.
  pub upsert_doc_with_hash-IsConsistent :
      (path content : Text) (mtime : ℕ) (hash : Text) (db : Db Blob)
      → IsConsistent db
      → IsConsistent (upsert_doc_with_hash env path content mtime hash db).0
  upsert_doc_with_hash-IsConsistent path content mtime hash db w =
      Outcome-IsConsistent path content mtime hash db
        (upsert_doc_with_hash-Outcome env path content mtime hash db) w
