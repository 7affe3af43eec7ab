-- ===== src/Store/Upsert/Rows.antt =====
-- What a transaction that succeeds has written for a document.
use ragrep.Common.{
  ℕ, ◌≡◌, refl, sym, ap, ◌∙◌, Text, Option, none, some, List, In, Result, ok, err, ◌>>=◌, >>=-eq-ok,
}
use ragrep.Store.Paras.{Para}
use ragrep.Store.Db.{ParaRow, Db, purge, delete_fts, delete_vec, delete_paragraphs, delete_doc_tags}
use ragrep.Store.Db.Purge.{ids_of}
use ragrep.Store.Upsert.{
  DocError, Env, exec, put_para, put_fts, put_vec, embed_para, para_row, insert_para, purge_rows,
}

-- An id that the driver gives is in no other row.
abbrev pub IsFresh : (List ℕ → ℕ) → Type 0
IsFresh new = (ids : List ℕ) → ¬ (In (new ids) ids)

abbrev pub para_of : ParaRow → Para
para_of r = record {
  seq = r.seq;
  start_line = r.start_line;
  end_line = r.end_line;
  text = r.text;
  heading = r.heading;
}

pub ok_inj : {E A : Type 0} {x y : A} → ◌≡◌ {A = Result E A} (ok x) (ok y) → x ≡ y
ok_inj h = cc

module _ {E Vector Blob : Type 0} (env : Env E Vector Blob) where
  -- The last statement of a chain that succeeds.
  pub exec-ok :
      (first : Result (DocError E) (Db Blob)) (statement : Db Blob → Db Blob) {t : Db Blob}
      → (first >>= exec env statement) ≡ ok t
      → (u : Db Blob) × (first ≡ ok u) × (t ≡ statement u)
  unfolding exec
  exec-ok (err e) statement h = cc
  exec-ok (ok db) statement {t} h = (db, refl, go (env.fault db) h)
    where
      go :
          (o : Option E)
          → elim o [ some e ↦ err (DocError.failed e) | none ↦ ok (statement db) ] ≡ ok t
          → t ≡ statement db
      go none h = cc
      go (some e) h = cc

  pub purge_rows-ok :
      (doc : ℕ) (db : Db Blob) {t : Db Blob} → purge_rows env doc db ≡ ok t → t ≡ purge doc db
  unfolding purge_rows purge
  purge_rows-ok doc db h =
      let first = exec env (delete_fts doc) db in
      let second = first >>= exec env (delete_vec doc) in
      let third = second >>= exec env (delete_paragraphs doc) in
      let d = exec-ok third (delete_doc_tags doc) h in
      let c = exec-ok second (delete_paragraphs doc) d.1 in
      let b = exec-ok first (delete_vec doc) c.1 in
      let a = exec-ok (ok db) (delete_fts doc) b.1 in cc (d.2, c.2, b.2, a.2, a.1)

  -- The tables with one more paragraph.
  pub insert_para-ok :
      (doc : ℕ) (path : Text) (p : Para) (db : Db Blob) {t : Db Blob}
      → insert_para env doc path p db ≡ ok t
      → (blob : Blob) × (embed_para env path p ≡ ok blob)
        × (t ≡ (
            let id = env.new_rowid (ids_of db.paragraphs) in
            put_vec id blob (put_fts id p.text (put_para (para_row id doc p) db))))
  unfolding insert_para
  insert_para-ok doc path p db h =
      let id = env.new_rowid (ids_of db.paragraphs) in
      let first = exec env (put_para (para_row id doc p)) db in
      let second = first >>= exec env (put_fts id p.text) in
      let d =
        >>=-eq-ok second (λ u. embed_para env path p >>= (λ blob. exec env (put_vec id blob) u))
          h in
      let c = >>=-eq-ok (embed_para env path p) (λ blob. exec env (put_vec id blob) d.0) d.2 in
      let e = exec-ok (ok d.0) (put_vec id c.0) c.2 in
      let b = exec-ok first (put_fts id p.text) d.1 in
      let a = exec-ok (ok db) (put_para (para_row id doc p)) b.1 in
      (
        c.0,
        c.1,
        e.2
            ∙ ap (put_vec id c.0) (
                ok_inj (sym e.1)
                ∙ (b.2
                    ∙ ap (put_fts id p.text)
                        (a.2 ∙ ap (put_para (para_row id doc p)) (ok_inj (sym a.1))))),
      )
