-- ===== src/Store/Upsert/Outcome.antt =====
-- Every way in which an upsert can end.
use ragrep.Common.{
  ℕ, ◌≡◌, ◌≢◌, inl, inr, ==_iff, refl, sym, ap, subst, ◌∙◌, ◌==◌, Text, text_eq, text_eq_iff, Bool,
  true, false, Option, none, some, map, Result, ok, err, ◌>>=◌, >>=-eq-ok, Bool-cases, Option-cases,
  if◌then◌else◌,
}
use ragrep.Store.Db.{Document, Db, find_doc, purge, update_mtime}
use ragrep.Store.Upsert.{
  DocError, Env, exec, set_doc, put_doc, settle, purge_rows, index_content, replace_doc, insert_doc,
  refresh, upsert_doc_with_hash,
}
use ragrep.Store.Upsert.Rows.{ok_inj, exec-ok, purge_rows-ok}
use ragrep.Store.Upsert.Content.{IsContent, index_content-IsContent}

module _ {E Vector Blob : Type 0} (env : Env E Vector Blob) where
  -- The row of a new document.
  abbrev pub new_doc : Text → Text → ℕ → Text → Db Blob → Document
  new_doc path content mtime hash db = record {
    id = env.new_rowid (map (λ d. d.id) db.documents);
    path = path;
    content = content;
    mtime = mtime;
    hash = hash;
  }

  abbrev pub touch : Document → ℕ → Db Blob → Db Blob
  touch d mtime db = record db { documents = map (update_mtime d.id mtime) db.documents }

  pub data Outcome (path content : Text) (mtime : ℕ) (hash : Text) (db : Db Blob)
      : Db Blob × Result (DocError E) Bool → Type 0 where
    rolled_back : (e : DocError E) → Outcome path content mtime hash db (db, err e)
    unchanged :
        (d : Document)
        → find_doc path db.documents ≡ some d
        → d.hash ≡ hash
        → d.mtime ≡ mtime
        → Outcome path content mtime hash db (db, ok false)
    touched :
        (d : Document)
        → find_doc path db.documents ≡ some d
        → d.hash ≡ hash
        → Outcome path content mtime hash db (touch d mtime db, ok false)
    inserted :
        (t : Db Blob)
        → find_doc path db.documents ≡ none
        → (let row = new_doc path content mtime hash db in
            IsContent env row.id path content (put_doc row db) t)
        → Outcome path content mtime hash db (t, ok true)
    replaced :
        (d : Document) (t : Db Blob)
        → find_doc path db.documents ≡ some d
        → d.hash ≢ hash
        → IsContent env d.id path content (set_doc d.id content mtime hash (purge d.id db)) t
        → Outcome path content mtime hash db (t, ok true)

  insert_doc-IsContent :
      (path content : Text) (mtime : ℕ) (hash : Text) (db : Db Blob) {t : Db Blob}
      → insert_doc env path content mtime hash db ≡ ok t
      → (let row = new_doc path content mtime hash db in
          IsContent env row.id path content (put_doc row db) t)
  unfolding insert_doc
  insert_doc-IsContent path content mtime hash db {t} h =
      let row = new_doc path content mtime hash db in
      let begun = exec env (λ u. u) db in
      let chain =
        >>=-eq-ok (begun >>= exec env (put_doc row)) (index_content env row.id path content) h in
      let one = exec-ok env begun (put_doc row) chain.1 in
      let zero = exec-ok env (ok db) (λ u. u) one.1 in
      subst (λ u. IsContent env row.id path content u t)
        (one.2 ∙ ap (put_doc row) (zero.2 ∙ ok_inj (sym zero.1)))
        (index_content-IsContent env row.id path content chain.0 chain.2)

  replace_doc-IsContent :
      (doc : ℕ) (path content : Text) (mtime : ℕ) (hash : Text) (db : Db Blob) {t : Db Blob}
      → replace_doc env doc path content mtime hash db ≡ ok t
      → IsContent env doc path content (set_doc doc content mtime hash (purge doc db)) t
  unfolding replace_doc
  replace_doc-IsContent doc path content mtime hash db {t} h =
      let set = set_doc doc content mtime hash in
      let begun = exec env (λ u. u) db in
      let chain =
        >>=-eq-ok (begun >>= purge_rows env doc >>= exec env set)
          (index_content env doc path content) h in
      let two = exec-ok env (begun >>= purge_rows env doc) set chain.1 in
      let one = >>=-eq-ok begun (purge_rows env doc) two.1 in
      let zero = exec-ok env (ok db) (λ u. u) one.1 in
      subst (λ u. IsContent env doc path content u t)
        (two.2
          ∙ ap set
              (purge_rows-ok env doc one.0 one.2 ∙ ap (purge doc) (zero.2 ∙ ok_inj (sym zero.1))))
        (index_content-IsContent env doc path content chain.0 chain.2)

  module _ (path content : Text) (mtime : ℕ) (hash : Text) (db : Db Blob) where
    settle-Outcome :
        (answer : Bool) (r : Result (DocError E) (Db Blob))
        → ((t : Db Blob) → r ≡ ok t → Outcome path content mtime hash db (t, ok answer))
        → Outcome path content mtime hash db (settle env answer db r)
    unfolding settle
    settle-Outcome answer (ok t) f = f t refl
    settle-Outcome answer (err e) f = Outcome.rolled_back e

    refresh-Outcome :
        (d : Document)
        → find_doc path db.documents ≡ some d
        → d.hash ≡ hash
        → Outcome path content mtime hash db (refresh env d mtime db)
    unfolding refresh
    refresh-Outcome d found same = elim (Bool-cases (d.mtime == mtime)) [
      | inl e ↦ rw (e) (Outcome.unchanged d found same ((==_iff d.mtime mtime).0 e))
      | inr e ↦ rw (e) (
          settle-Outcome false (exec env (touch d mtime) db) (λ t h.
            let one = exec-ok env (ok db) (touch d mtime) h in
            subst (λ u. Outcome path content mtime hash db (u, ok false))
              (ap (touch d mtime) (ok_inj one.1) ∙ sym one.2) (Outcome.touched d found same)))
    ]

    found-Outcome :
        (f : Option Document)
        → find_doc path db.documents ≡ f
        → Outcome path content mtime hash db (elim f [
          | none ↦ settle env true db (insert_doc env path content mtime hash db)
          | some d ↦
              if text_eq d.hash hash
              then refresh env d mtime db
              else settle env true db (replace_doc env d.id path content mtime hash db)
        ])
    found-Outcome none found =
        settle-Outcome true _
          (λ t h. Outcome.inserted t found (insert_doc-IsContent path content mtime hash db h))
    found-Outcome (some d) found = elim (Bool-cases (text_eq d.hash hash)) [
      | inl e ↦ rw (e) (refresh-Outcome d found ((text_eq_iff d.hash hash).0 e))
      | inr e ↦ rw (e) (
          settle-Outcome true _ (λ t h.
            Outcome.replaced d t found (λ s. cc (e, (text_eq_iff d.hash hash).1 s))
              (replace_doc-IsContent d.id path content mtime hash db h)))
    ]

    -- An upsert ends in one of five ways: an error with the tables as they were; no change when
    -- the stored hash and mtime are the given ones; only the mtime set when the hash is the given
    -- one; the document inserted when its path was not found; or the document replaced after a
    -- purge of its rows when its hash was another.
    pub upsert_doc_with_hash-Outcome :
        Outcome path content mtime hash db (upsert_doc_with_hash env path content mtime hash db)
    unfolding upsert_doc_with_hash
    upsert_doc_with_hash-Outcome = elim (Option-cases (env.fault db)) [
      | inl e ↦ rw (e, upsert_doc_with_hash) (found-Outcome (find_doc path db.documents) refl)
      | inr e ↦ rw (e.1, upsert_doc_with_hash) (Outcome.rolled_back (DocError.failed e.0))
    ]
