-- ===== src/CodeStore/Upsert/Steps.antt =====
-- What the writes for one symbol have done when they succeed.
use ragrep.Common.{
  ℕ, ◌≡◌, refl, sym, ap, subst, ◌∙◌, Text, Bool, true, false, inl, inr, ◌⊎◌, Option, none, some,
  Result, ok, err, ◌>>=◌, if◌then◌else◌, given, ◌>>>◌, statement-Leads, given-Leads, >>>-Leads,
}
use ragrep.CodeIndex.{Symbol}
use ragrep.CodeStore.Tables.{
  SymbolRow, CodeDb, columns, posting, fts_delete, fts_insert, vec_delete, vec_insert, edges_delete,
  row_delete, row_insert, row_update,
}
use ragrep.CodeStore.Tables.Rows.{ids_of, has}
use ragrep.CodeStore.Upsert.{
  CodeEnv, run_statement, run_unique, embed_and_store_vector, delete_symbol_row, key_taken,
  insert_symbol, same_text, refresh_vector, update_symbol,
}

module _ {Blob : Type 0} where
  -- The tables without a row and all that belongs to it.
  abbrev pub deleted : SymbolRow → CodeDb Blob → CodeDb Blob
  deleted old db =
      row_delete old.id (
        edges_delete old.symbol.key (vec_delete old.id (fts_delete old.id (posting old.symbol) db)))

  abbrev pub inserted : SymbolRow → Symbol → CodeDb Blob → CodeDb Blob
  inserted row sym db = fts_insert row.id (posting sym) (row_insert row db)

  abbrev pub updated : Text → ℕ → SymbolRow → Symbol → CodeDb Blob → CodeDb Blob
  updated file_hash run old sym db =
      fts_insert old.id (posting sym)
        (fts_delete old.id (posting old.symbol) (row_update old.id sym file_hash run db))

module _ {Vector Blob : Type 0} (env : CodeEnv Vector Blob) where
  abbrev pub new_row : Text → ℕ → Symbol → CodeDb Blob → SymbolRow
  new_row file_hash run sym db = record {
    id = env.new_rowid (ids_of db.symbols);
    symbol = columns sym;
    file_hash = file_hash;
    index_run_id = run;
  }

  abbrev pub embedding : Text → Result Text Blob
  embedding text = env.embed text >>= env.serialize

  pub run_statement-Leads :
      (change : CodeDb Blob → CodeDb Blob) (db t : CodeDb Blob)
      → run_statement env change db ≡ ok t
      → change db ≡ t
  unfolding run_statement
  run_statement-Leads change db t h = statement-Leads env.fault change db t h

  pub run_unique-Leads :
      (taken : CodeDb Blob → Bool) (change : CodeDb Blob → CodeDb Blob) (db t : CodeDb Blob)
      → run_unique env taken change db ≡ ok t
      → (taken db ≡ false) × (change db ≡ t)
  unfolding run_unique
  run_unique-Leads taken change db t = go (taken db) refl
    where
      go :
          (b : Bool)
          → taken db ≡ b
          → ◌≡◌ {A = Result Text (CodeDb Blob)}
              (if b then err env.unique_error else run_statement env change db)
              (ok t)
          → (taken db ≡ false) × (change db ≡ t)
      go true e h = cc
      go false e h = (e, run_statement-Leads change db t h)

  pub embed_and_store_vector-Leads :
      (id : ℕ) (text : Text) (db t : CodeDb Blob)
      → embed_and_store_vector env id text db ≡ ok t
      → (blob : Blob) × (embedding text ≡ ok blob)
        × (has (db.symbol_vec id) ≡ false)
        × (vec_insert id blob db ≡ t)
  unfolding embed_and_store_vector
  embed_and_store_vector-Leads id text db t h =
      let occupied : CodeDb Blob → Bool =
        λ d. elim (d.symbol_vec id) [ none ↦ false | some _ ↦ true ] in
      let store : Blob → CodeDb Blob → Result Text (CodeDb Blob) =
        λ blob. run_unique env occupied (vec_insert id blob) in
      let a = given-Leads (env.embed text) (λ v. given (env.serialize v) store) db t h in
      let b = given-Leads (env.serialize a.0) store db t a.2 in
      let c = run_unique-Leads occupied (vec_insert id b.0) db t b.2 in
      (
        b.0,
        subst (λ r. (r >>= env.serialize) ≡ ok b.0) (sym a.1) b.1,
        free (db.symbol_vec id) c.0,
        c.1,
      )
    where
      free :
          (o : Option Blob)
          → ◌≡◌ {A = Bool} (elim o [ none ↦ false | some _ ↦ true ]) false
          → has o ≡ false
      free none h = refl
      free (some b) h = h

  pub delete_symbol_row-Leads :
      (old : SymbolRow) (db t : CodeDb Blob)
      → delete_symbol_row env old db ≡ ok t
      → deleted old db ≡ t
  unfolding delete_symbol_row
  delete_symbol_row-Leads old db t h =
      let first = run_statement env (fts_delete old.id (posting old.symbol)) in
      let second = run_statement env (vec_delete old.id) in
      let third = run_statement env (edges_delete old.symbol.key) in
      let fourth = run_statement env (row_delete old.id) in
      let d = >>>-Leads (first >>> second >>> third) fourth db t h in
      let c = >>>-Leads (first >>> second) third db d.0 d.1 in
      let b = >>>-Leads first second db c.0 c.1 in
      let e1 = run_statement-Leads (fts_delete old.id (posting old.symbol)) db b.0 b.1 in
      let e2 = run_statement-Leads (vec_delete old.id) b.0 c.0 b.2 in
      let e3 = run_statement-Leads (edges_delete old.symbol.key) c.0 d.0 c.2 in
      let e4 = run_statement-Leads (row_delete old.id) d.0 t d.2 in cc (e1, e2, e3, e4)

  pub insert_symbol-Leads :
      (file_hash : Text) (run : ℕ) (sym' : Symbol) (db t : CodeDb Blob)
      → insert_symbol env file_hash run sym' db ≡ ok t
      → (blob : Blob) × (embedding sym'.embedding_text ≡ ok blob)
        × (key_taken env sym'.key db ≡ false)
        × (let row = new_row file_hash run sym' db in
            vec_insert row.id blob (inserted row sym' db) ≡ t)
  unfolding insert_symbol
  insert_symbol-Leads file_hash run sym' db t h =
      let row = new_row file_hash run sym' db in
      let first = run_unique env (key_taken env sym'.key) (row_insert row) in
      let second = run_statement env (fts_insert row.id (posting sym')) in
      let c =
        >>>-Leads (first >>> second) (embed_and_store_vector env row.id sym'.embedding_text) db t
          h in
      let b = >>>-Leads first second db c.0 c.1 in
      let e1 = run_unique-Leads (key_taken env sym'.key) (row_insert row) db b.0 b.1 in
      let e2 = run_statement-Leads (fts_insert row.id (posting sym')) b.0 c.0 b.2 in
      let v = embed_and_store_vector-Leads row.id sym'.embedding_text c.0 t c.2 in
      (
        v.0,
        v.1,
        e1.0,
        ap (vec_insert row.id v.0) (ap (fts_insert row.id (posting sym')) e1.1 ∙ e2) ∙ v.3,
      )

  pub update_symbol-Leads :
      (file_hash : Text) (run : ℕ) (old : SymbolRow) (sym' : Symbol) (db t : CodeDb Blob)
      → update_symbol env file_hash run old sym' db ≡ ok t
      → ((same_text env old sym' ≡ true) × (updated file_hash run old sym' db ≡ t))
        ⊎ ((same_text env old sym' ≡ false)
            × ((blob : Blob) × (embedding sym'.embedding_text ≡ ok blob)
                × (vec_insert old.id blob (vec_delete old.id (updated file_hash run old sym' db))
                    ≡ t)))
  unfolding update_symbol refresh_vector
  update_symbol-Leads file_hash run old sym' db t h =
      let first = run_statement env (row_update old.id sym' file_hash run) in
      let second = run_statement env (fts_delete old.id (posting old.symbol)) in
      let third = run_statement env (fts_insert old.id (posting sym')) in
      let d = >>>-Leads (first >>> second >>> third) (refresh_vector env old sym') db t h in
      let c = >>>-Leads (first >>> second) third db d.0 d.1 in
      let b = >>>-Leads first second db c.0 c.1 in
      let e1 = run_statement-Leads (row_update old.id sym' file_hash run) db b.0 b.1 in
      let e2 = run_statement-Leads (fts_delete old.id (posting old.symbol)) b.0 c.0 b.2 in
      let e3 = run_statement-Leads (fts_insert old.id (posting sym')) c.0 d.0 c.2 in
      go d.0 (cc (e1, e2, e3)) (same_text env old sym') refl d.2
    where
      go :
          (u : CodeDb Blob)
          → updated file_hash run old sym' db ≡ u
          → (b : Bool) → same_text env old sym' ≡ b
          → ◌≡◌ {A = Result Text (CodeDb Blob)}
              (if b
                then ok u
                else (run_statement env (vec_delete old.id)
                      >>> embed_and_store_vector env old.id sym'.embedding_text)
                    u)
              (ok t)
          → ((same_text env old sym' ≡ true) × (updated file_hash run old sym' db ≡ t))
            ⊎ ((same_text env old sym' ≡ false)
                × ((blob : Blob) × (embedding sym'.embedding_text ≡ ok blob)
                    × (vec_insert old.id blob
                          (vec_delete old.id (updated file_hash run old sym' db))
                        ≡ t)))
      go u e true s k = inl (s, cc (e, k))
      go u e false s k =
          let a =
            >>>-Leads (run_statement env (vec_delete old.id))
              (embed_and_store_vector env old.id sym'.embedding_text) u t k in
          let gone = run_statement-Leads (vec_delete old.id) u a.0 a.1 in
          let v = embed_and_store_vector-Leads old.id sym'.embedding_text a.0 t a.2 in
          inr (s, (v.0, v.1, ap (vec_insert old.id v.0) (ap (vec_delete old.id) e ∙ gone) ∙ v.3))
