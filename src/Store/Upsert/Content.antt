-- ===== src/Store/Upsert/Content.antt =====
-- store.go: what a transaction that succeeds leaves of a document.
use ragrep.Common.{
  ℕ, ◌≡◌, sym, ap, subst, ◌∙◌, Text, Option, none, some, List, [], ◌∷◌, ◌++◌, map, All, All-append,
  All-map, In, IsNodup, Result, ok, err, ◌>>=◌, >>=-eq-ok,
}
use ragrep.Store.Frontmatter.{indexed_paras, parse_tags, auto_tags}
use ragrep.Store.Db.{Db}
use ragrep.Store.Db.Purge.{IsIndexed}
use ragrep.Store.Upsert.{
  DocError, Env, insert_paras, insert_tags, check_context, commit, index_content,
}
use ragrep.Store.Upsert.Rows.{IsFresh}
use ragrep.Store.Upsert.Paragraphs.{IsAppended, insert_paras-IsAppended, insert_paras-IsIndexed}
use ragrep.Store.Upsert.Tags.{tag_row, put_tags, IsDistinct, insert_tags-ok}

-- All ids and paths of documents are distinct, and every row belongs to a document.
pub record IsConsistent {Blob : Type 0} (db : Db Blob) : Type 0 where
  pub indexed : IsIndexed db
  pub doc_ids : IsNodup (map (λ d. d.id) db.documents)
  pub doc_paths : IsNodup (map (λ d. d.path) db.documents)
  pub para_owners : All (λ p. In p.doc_id (map (λ d. d.id) db.documents)) db.paragraphs
  pub tag_owners : All (λ t. In t.doc_id (map (λ d. d.id) db.documents)) db.doc_tags

All-tag_row :
    (doc : ℕ) (ids : List ℕ) (ts : List Text)
    → In doc ids
    → All (λ t. In t.doc_id ids) (map (tag_row doc) ts)
All-tag_row doc ids [] i = tt
All-tag_row doc ids (t ∷ ts) i = (i, All-tag_row doc ids ts i)

module _ {E Vector Blob : Type 0} (env : Env E Vector Blob) where
  pub record IsContent (doc : ℕ) (path content : Text) (db t : Db Blob) : Type 0 where
    pub middle : Db Blob
    pub appended : IsAppended env doc path (indexed_paras content) db middle
    pub tags : List Text
    pub distinct : IsDistinct [] (parse_tags env.lower content ++ auto_tags env.lower path) tags
    pub written : t ≡ put_tags doc tags middle
    pub in_step : IsFresh env.new_rowid → IsIndexed db → IsIndexed t

  guard-ok :
      (o : Option E) (u : Db Blob) {t : Db Blob}
      → ◌≡◌ {A = Result (DocError E) (Db Blob)}
          (elim o [ some e ↦ err (DocError.failed e) | none ↦ ok u ])
          (ok t)
      → ◌≡◌ {A = Result (DocError E) (Db Blob)} (ok u) (ok t)
  guard-ok none u g = g
  guard-ok (some e) u g = cc

  check_context-ok :
      (first : Result (DocError E) (Db Blob)) {t : Db Blob}
      → (first >>= check_context env) ≡ ok t
      → first ≡ ok t
  unfolding check_context
  check_context-ok (err e) h = h
  check_context-ok (ok u) h = guard-ok env.canceled u h

  pub commit-ok :
      (first : Result (DocError E) (Db Blob)) {t : Db Blob}
      → (first >>= commit env) ≡ ok t
      → first ≡ ok t
  unfolding commit
  commit-ok (err e) h = h
  commit-ok (ok u) h = guard-ok (env.commit_fault u) u h

  pub index_content-IsContent :
      (doc : ℕ) (path content : Text) (db : Db Blob) {t : Db Blob}
      → index_content env doc path content db ≡ ok t
      → IsContent doc path content db t
  unfolding index_content
  index_content-IsContent doc path content db h =
      let tags = parse_tags env.lower content ++ auto_tags env.lower path in
      let first = insert_paras env doc path (indexed_paras content) db in
      let chain =
        >>=-eq-ok first (insert_tags env doc [] tags) (check_context-ok _ (commit-ok _ h)) in
      let wrote = insert_tags-ok env doc [] tags chain.0 chain.2 in
      record {
        middle = chain.0;
        appended = insert_paras-IsAppended env doc path (indexed_paras content) db chain.1;
        tags = wrote.0;
        distinct = wrote.1;
        written = wrote.2;
        in_step = λ fresh w.
            let mid =
              insert_paras-IsIndexed env fresh doc path (indexed_paras content) db chain.1 w in
            subst IsIndexed (sym wrote.2)
              record { same_fts = mid.same_fts; same_vec = mid.same_vec; nodup = mid.nodup };
      }

  -- The rows of a document whose row stands keep the tables consistent.
  pub IsContent-IsConsistent :
      IsFresh env.new_rowid
      → (doc : ℕ) (path content : Text) (db : Db Blob) {t : Db Blob}
      → IsContent doc path content db t
      → In doc (map (λ d. d.id) db.documents)
      → IsConsistent db
      → IsConsistent t
  IsContent-IsConsistent fresh doc path content db {t} c owner w =
      let a = c.appended in
      let same = ap (λ u. u.documents) c.written ∙ a.documents in
      let rows = ap (λ u. u.paragraphs) c.written ∙ a.paragraphs in
      let tags =
        ap (λ u. u.doc_tags) c.written ∙ ap (λ l. l ++ map (tag_row doc) c.tags) a.doc_tags in
      record {
        indexed = c.in_step fresh w.indexed;
        doc_ids = subst (λ l. IsNodup (map (λ d. d.id) l)) (sym same) w.doc_ids;
        doc_paths = subst (λ l. IsNodup (map (λ d. d.path) l)) (sym same) w.doc_paths;
        para_owners =
            subst (λ l. All (λ p. In p.doc_id (map (λ d. d.id) l)) t.paragraphs) (sym same)
              (subst (All (λ p. In p.doc_id (map (λ d. d.id) db.documents))) (sym rows) (
                All-append _ db.paragraphs a.rows w.para_owners (
                  All-map _ _
                    (λ r e. subst (λ n. In n (map (λ d. d.id) db.documents)) (sym e) owner) a.rows
                    a.owned)));
        tag_owners =
            subst (λ l. All (λ p. In p.doc_id (map (λ d. d.id) l)) t.doc_tags) (sym same)
              (subst (All (λ p. In p.doc_id (map (λ d. d.id) db.documents))) (sym tags) (
                All-append _ db.doc_tags _ w.tag_owners
                  (All-tag_row doc (map (λ d. d.id) db.documents) c.tags owner)));
      }
