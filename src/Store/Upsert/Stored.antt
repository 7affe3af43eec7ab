-- ===== src/Store/Upsert/Stored.antt =====
-- What the tables hold after an upsert that reports a change.
use ragrep.Common.{
  unique_key, ℕ, ◌≡◌, ◌≢◌, refl, sym, ap, subst, ◌∙◌, Text, Bool, true, not, ◌==◌, ==_iff,
  Bool-cases, inl, inr, none, some, List, [], ◌∷◌, ◌++◌, map, select, All, All-map, In, Result, ok,
}
use ragrep.Store.Frontmatter.{indexed_paras, parse_tags, auto_tags}
use ragrep.Store.Db.{
  Document, ParaRow, VecRow, Db, find_doc, member, para_ids, purge, delete_fts, delete_vec,
  delete_paragraphs, delete_doc_tags,
}
use ragrep.Store.Db.Purge.{ids_of, fts_row, owns, select-owns, purge-IsIndexed}
use ragrep.Store.Db.Find.{doc_ids, find_doc-some}
use ragrep.Store.Db.Lookup.{
  find_doc-put, find_doc-put_other, find_doc-update, find_doc-update_other,
}
use ragrep.Store.Upsert.{DocError, Env, embed_para, set_doc, put_doc, upsert_doc_with_hash}
use ragrep.Store.Upsert.Rows.{IsFresh, para_of}
use ragrep.Store.Upsert.Tags.{tag_row, IsDistinct}
use ragrep.Store.Upsert.Content.{IsConsistent, IsContent}
use ragrep.Store.Upsert.Outcome.{Outcome, new_doc, upsert_doc_with_hash-Outcome}

select_every :
    {A : Type 0} (Q : A → Bool) (xs : List A) → All (λ x. Q x ≡ true) xs → select Q xs ≡ xs
unfolding select
select_every Q [] h = refl
select_every Q (x ∷ xs) h = rw (h.0) (ap (λ l. x ∷ l) (select_every Q xs h.1))

-- No row has an owner that is no document.
unowned :
    {A : Type 0} (owner : A → ℕ) (doc : ℕ) (ids : List ℕ) (xs : List A)
    → ¬ (In doc ids)
    → All (λ x. In (owner x) ids) xs
    → All (λ x. not (owner x == doc) ≡ true) xs
unowned owner doc ids xs new =
    All-map _ _
      (λ x i. elim (Bool-cases (owner x == doc)) [
        | inl e ↦ absurd (new (subst (λ n. In n ids) ((==_iff (owner x) doc).0 e) i))
        | inr e ↦ rw (e) refl
      ])
      xs

no_para_ids :
    (doc : ℕ) (rows : List ParaRow)
    → All (λ p. not (p.doc_id == doc) ≡ true) rows
    → para_ids doc rows ≡ []
unfolding para_ids select
no_para_ids doc [] h = refl
no_para_ids doc (p ∷ rows) h = elim (Bool-cases (p.doc_id == doc)) [
  | inl e ↦ cc (h.0, e)
  | inr e ↦ rw (e) (no_para_ids doc rows h.1)
]

untouched_vec :
    {Blob : Type 0} (doc : ℕ) (db : Db Blob)
    → All (λ p. not (p.doc_id == doc) ≡ true) db.paragraphs
    → select (λ v. not (owns doc db.paragraphs v.rowid)) db.vec ≡ db.vec
unfolding member
untouched_vec {Blob} doc db h =
    sym (select-owns (λ v. v.rowid) doc db.paragraphs db.vec) ∙ select_every _ db.vec (every db.vec)
  where
    every :
        (vs : List (VecRow Blob))
        → All (λ v. not (member v.rowid (para_ids doc db.paragraphs)) ≡ true) vs
    every [] = tt
    every (v ∷ vs) = (ap (λ l. not (member v.rowid l)) (no_para_ids doc db.paragraphs h), every vs)

module _ {E Vector Blob : Type 0} (env : Env E Vector Blob) where
  -- The document stands with its rows behind those of the others, which are as they were. The text
  -- index holds the text of every paragraph that stands, and nothing else.
  pub record IsStored (path content : Text) (mtime : ℕ) (hash : Text) (db t : Db Blob)
      : Type 0 where
    pub id : ℕ
    pub rows : List ParaRow
    pub vecs : List (VecRow Blob)
    pub tags : List Text
    pub found :
        find_doc path t.documents
        ≡ some record { id = id; path = path; content = content; mtime = mtime; hash = hash }
    pub others :
        (other : Text) → path ≢ other → find_doc other t.documents ≡ find_doc other db.documents
    pub paragraphs : t.paragraphs ≡ select (λ p. not (p.doc_id == id)) db.paragraphs ++ rows
    pub owned : All (λ r. r.doc_id ≡ id) rows
    pub split : map para_of rows ≡ indexed_paras content
    pub fts : t.fts ≡ map fts_row t.paragraphs
    pub vec : t.vec ≡ select (λ v. not (owns id db.paragraphs v.rowid)) db.vec ++ vecs
    pub aligned : map (λ v. v.rowid) vecs ≡ ids_of rows
    pub embedded :
        map (λ v. ok v.embedding) vecs ≡ map (embed_para env path) (indexed_paras content)
    pub doc_tags :
        t.doc_tags ≡ select (λ r. not (r.doc_id == id)) db.doc_tags ++ map (tag_row id) tags
    pub distinct : IsDistinct [] (parse_tags env.lower content ++ auto_tags env.lower path) tags

  replaced-IsStored :
      IsFresh env.new_rowid
      → (path content : Text) (mtime : ℕ) (hash : Text) (db t : Db Blob) (d : Document)
      → IsConsistent db
      → find_doc path db.documents ≡ some d
      → IsContent env d.id path content (set_doc d.id content mtime hash (purge d.id db)) t
      → IsStored path content mtime hash db t
  unfolding set_doc purge delete_fts delete_vec delete_paragraphs delete_doc_tags
  replaced-IsStored fresh path content mtime hash db t d w found c =
      let a = c.appended in
      let own = find_doc-some path db.documents found in
      let same = ap (λ u. u.documents) c.written ∙ a.documents in
      record {
        id = d.id;
        rows = a.rows;
        vecs = a.vecs;
        tags = c.tags;
        found =
            ap (find_doc path) same
            ∙ (find_doc-update content mtime hash path db.documents d found
                ∙ ap
                    (λ (p : Text).
                      some (record d { path = p; content = content; mtime = mtime; hash = hash }))
                    own.1);
        others = λ other apart.
            ap (find_doc other) same
            ∙ find_doc-update_other content mtime hash d.id other db.documents (
                All-map _ _ (λ x e s o. apart (sym own.1 ∙ (ap (λ y. y.path) (sym (e s)) ∙ o)))
                  db.documents (unique_key (λ y. y.id) db.documents d w.doc_ids own.0));
        paragraphs = ap (λ u. u.paragraphs) c.written ∙ a.paragraphs;
        owned = a.owned;
        split = a.content;
        fts =
            (c.in_step fresh (
              let p = purge-IsIndexed d.id db w.indexed in
              record { same_fts = p.same_fts; same_vec = p.same_vec; nodup = p.nodup })).same_fts;
        vec =
            ap (λ u. u.vec) c.written
            ∙ a.vec
            ∙ ap (λ l. l ++ a.vecs) (select-owns (λ v. v.rowid) d.id db.paragraphs db.vec);
        aligned = a.aligned;
        embedded = a.embedded;
        doc_tags =
            ap (λ u. u.doc_tags) c.written ∙ ap (λ l. l ++ map (tag_row d.id) c.tags) a.doc_tags;
        distinct = c.distinct;
      }

  inserted-IsStored :
      IsFresh env.new_rowid
      → (path content : Text) (mtime : ℕ) (hash : Text) (db t : Db Blob) → IsConsistent db
      → find_doc path db.documents ≡ none
      → (let row = new_doc env path content mtime hash db in
          IsContent env row.id path content (put_doc row db) t)
      → IsStored path content mtime hash db t
  inserted-IsStored fresh path content mtime hash db t w found c =
      let row = new_doc env path content mtime hash db in
      let new = fresh (doc_ids db.documents) in
      let a = c.appended in
      let same = ap (λ u. u.documents) c.written ∙ a.documents in
      record {
        id = row.id;
        rows = a.rows;
        vecs = a.vecs;
        tags = c.tags;
        found = ap (find_doc path) same ∙ find_doc-put path db.documents row found refl;
        others = λ other apart.
            ap (find_doc other) same ∙ find_doc-put_other other db.documents row apart;
        paragraphs =
            ap (λ u. u.paragraphs) c.written
            ∙ (a.paragraphs
                ∙ ap (λ l. l ++ a.rows)
                    (sym (
                      select_every _ db.paragraphs (
                        unowned (λ p. p.doc_id) row.id (doc_ids db.documents) db.paragraphs new
                          w.para_owners))));
        owned = a.owned;
        split = a.content;
        fts =
            (c.in_step fresh record {
              same_fts = w.indexed.same_fts;
              same_vec = w.indexed.same_vec;
              nodup = w.indexed.nodup;
            }).same_fts;
        vec =
            ap (λ u. u.vec) c.written
            ∙ (a.vec
                ∙ ap (λ l. l ++ a.vecs)
                    (sym (
                      untouched_vec row.id db (
                        unowned (λ p. p.doc_id) row.id (doc_ids db.documents) db.paragraphs new
                          w.para_owners))));
        aligned = a.aligned;
        embedded = a.embedded;
        doc_tags =
            ap (λ u. u.doc_tags) c.written
            ∙ ap (λ l. l ++ map (tag_row row.id) c.tags)
                (a.doc_tags
                  ∙ sym (
                      select_every _ db.doc_tags (
                        unowned (λ r. r.doc_id) row.id (doc_ids db.documents) db.doc_tags new
                          w.tag_owners)));
        distinct = c.distinct;
      }

  Outcome-IsStored :
      IsFresh env.new_rowid
      → (path content : Text) (mtime : ℕ) (hash : Text) (db : Db Blob)
        {r : Db Blob × Result (DocError E) Bool}
      → Outcome env path content mtime hash db r
      → IsConsistent db
      → r.1 ≡ ok true
      → IsStored path content mtime hash db r.0
  Outcome-IsStored fresh path content mtime hash db (Outcome.rolled_back e) w h = cc
  Outcome-IsStored fresh path content mtime hash db (Outcome.unchanged d found same_hash same_mtime)
        w h =
      cc
  Outcome-IsStored fresh path content mtime hash db (Outcome.touched d found same) w h = cc
  Outcome-IsStored fresh path content mtime hash db (Outcome.inserted t found c) w h =
      inserted-IsStored fresh path content mtime hash db t w found c
  Outcome-IsStored fresh path content mtime hash db (Outcome.replaced d t found changed c) w h =
      replaced-IsStored fresh path content mtime hash db t d w found c

  -- When an upsert of consistent tables, with row ids that are not in use, reports a change, the
  -- document is found under its path with the given content, mtime and hash, its paragraphs are
  -- those split from the content with the vector of each one's own text, its tags are the declared
  -- and derived ones once each, the text index holds the text of every paragraph that stands and
  -- nothing else, and the other documents, their paragraphs, vectors and tags are unchanged.
  pub upsert_doc_with_hash-IsStored :
      IsFresh env.new_rowid
      → (path content : Text) (mtime : ℕ) (hash : Text) (db : Db Blob) → IsConsistent db
      → (let r = upsert_doc_with_hash env path content mtime hash db in
          r.1 ≡ ok true → IsStored path content mtime hash db r.0)
  upsert_doc_with_hash-IsStored fresh path content mtime hash db w h =
      Outcome-IsStored fresh path content mtime hash db
        (upsert_doc_with_hash-Outcome env path content mtime hash db) w h
