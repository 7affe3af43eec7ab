-- ===== src/Store/Upsert/Paragraphs.antt =====
-- store.go: the loop over the paragraphs.
use ragrep.Common.{
  ℕ, ◌≡◌, refl, sym, ap, subst, Text, ◌∙◌, List, [], ◌∷◌, ◌++◌, map, All, In, IsNodup, IsNodup-snoc,
  ok, >>=-eq-ok, append_assoc, map-append, append-nil,
}
use ragrep.Store.Paras.{Para}
use ragrep.Store.Db.{ParaRow, VecRow, Db}
use ragrep.Store.Db.Purge.{fts_row, ids_of, IsIndexed}
use ragrep.Store.Upsert.{
  Env, embed_para, para_row, put_para, put_fts, put_vec, insert_para, insert_paras,
}
use ragrep.Store.Upsert.Rows.{IsFresh, para_of, insert_para-ok, ok_inj}

put_row-IsIndexed :
    {Blob : Type 0} (row : ParaRow) (blob : Blob) (db : Db Blob)
    → ¬ (In row.id (ids_of db.paragraphs))
    → IsIndexed db
    → IsIndexed (put_vec row.id blob (put_fts row.id row.text (put_para row db)))
put_row-IsIndexed row blob db new w = record {
  same_fts =
      ap (λ l. l ++ fts_row row ∷ []) w.same_fts
      ∙ sym (map-append fts_row db.paragraphs (row ∷ []));
  same_vec =
      map-append (λ v. v.rowid) db.vec (record { rowid = row.id; embedding = blob } ∷ [])
      ∙ (ap (λ l. l ++ row.id ∷ []) w.same_vec
          ∙ sym (map-append (λ r. r.id) db.paragraphs (row ∷ [])));
  nodup =
      subst IsNodup (sym (map-append (λ r. r.id) db.paragraphs (row ∷ [])))
        (IsNodup-snoc (ids_of db.paragraphs) row.id w.nodup new);
}

module _ {E Vector Blob : Type 0} (env : Env E Vector Blob) where
  -- The tables `t` are `db` with rows for `ps` behind, each with the vector of its own text.
  pub record IsAppended (doc : ℕ) (path : Text) (ps : List Para) (db t : Db Blob) : Type 0 where
    pub rows : List ParaRow
    pub vecs : List (VecRow Blob)
    pub paragraphs : t.paragraphs ≡ db.paragraphs ++ rows
    pub vec : t.vec ≡ db.vec ++ vecs
    pub content : map para_of rows ≡ ps
    pub owned : All (λ r. r.doc_id ≡ doc) rows
    pub aligned : map (λ v. v.rowid) vecs ≡ ids_of rows
    pub embedded : map (λ v. ok v.embedding) vecs ≡ map (embed_para env path) ps
    pub documents : t.documents ≡ db.documents
    pub doc_tags : t.doc_tags ≡ db.doc_tags

  pub insert_paras-IsAppended :
      (doc : ℕ) (path : Text) (ps : List Para) (db : Db Blob) {t : Db Blob}
      → insert_paras env doc path ps db ≡ ok t
      → IsAppended doc path ps db t
  unfolding insert_paras para_row
  insert_paras-IsAppended doc path [] db h = record {
    rows = [];
    vecs = [];
    paragraphs = ap (λ u. u.paragraphs) (sym (ok_inj h)) ∙ sym (append-nil db.paragraphs);
    vec = ap (λ u. u.vec) (sym (ok_inj h)) ∙ sym (append-nil db.vec);
    content = refl;
    owned = tt;
    aligned = refl;
    embedded = refl;
    documents = ap (λ u. u.documents) (sym (ok_inj h));
    doc_tags = ap (λ u. u.doc_tags) (sym (ok_inj h));
  }
  insert_paras-IsAppended doc path (p ∷ ps) db h =
      let chain = >>=-eq-ok (insert_para env doc path p db) (insert_paras env doc path ps) h in
      let one = insert_para-ok env doc path p db chain.1 in
      let rest = insert_paras-IsAppended doc path ps chain.0 chain.2 in
      let id = env.new_rowid (ids_of db.paragraphs) in
      record {
        rows = para_row id doc p ∷ rest.rows;
        vecs = record { rowid = id; embedding = one.0 } ∷ rest.vecs;
        paragraphs =
            rest.paragraphs
            ∙ (ap (λ u. u.paragraphs ++ rest.rows) one.2
                ∙ append_assoc db.paragraphs (para_row id doc p ∷ []) rest.rows);
        vec =
            rest.vec
            ∙ (ap (λ u. u.vec ++ rest.vecs) one.2
                ∙ append_assoc db.vec (record { rowid = id; embedding = one.0 } ∷ []) rest.vecs);
        content = ap (λ l. p ∷ l) rest.content;
        owned = (refl, rest.owned);
        aligned = ap (λ l. id ∷ l) rest.aligned;
        embedded = cc (rest.embedded, one.1);
        documents = rest.documents ∙ ap (λ u. u.documents) one.2;
        doc_tags = rest.doc_tags ∙ ap (λ u. u.doc_tags) one.2;
      }

  pub insert_paras-IsIndexed :
      IsFresh env.new_rowid
      → (doc : ℕ) (path : Text) (ps : List Para) (db : Db Blob) {t : Db Blob}
      → insert_paras env doc path ps db ≡ ok t
      → IsIndexed db
      → IsIndexed t
  unfolding insert_paras para_row
  insert_paras-IsIndexed fresh doc path [] db h w = subst IsIndexed (ok_inj h) w
  insert_paras-IsIndexed fresh doc path (p ∷ ps) db h w =
      let chain = >>=-eq-ok (insert_para env doc path p db) (insert_paras env doc path ps) h in
      let one = insert_para-ok env doc path p db chain.1 in
      insert_paras-IsIndexed fresh doc path ps chain.0 chain.2 (
        subst IsIndexed (sym one.2) (
          put_row-IsIndexed (para_row (env.new_rowid (ids_of db.paragraphs)) doc p) one.0 db
            (fresh _) w))
