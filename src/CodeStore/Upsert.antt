-- ===== src/CodeStore/Upsert.antt =====
-- symbols.go: UpsertSymbols and DeleteSymbolsForPath, with every error on their way.
pub mod Steps
pub mod InStep
pub mod Drops
pub mod Rounds
pub mod Sound
pub mod Distinct
pub mod Frame
use ragrep.Common.{
  ℕ, Text, text_eq, Bool, true, false, not, ◌&&◌, ◌||◌, List, [], ◌∷◌, map, select, find, Option,
  none, some, if◌then◌else◌, is_empty, Result, ok, err, Tx, statement, given, ◌>>>◌, each, finally,
}
use ragrep.CodeIndex.{Symbol}
use ragrep.CodeStore.{StoreError, not_found, stale_live_key, database}
use ragrep.CodeStore.Tables.{
  SymbolRow, Posting, CodeDb, columns, posting, find_key, existing_symbol_rows, fts_delete,
  fts_insert, vec_delete, vec_insert, edges_delete, row_delete, row_insert, row_update,
}

-- What the store uses of the driver, of the serialization of vectors and of the embedder.
pub record CodeEnv (Vector Blob : Type 0) : Type 0 where
  -- The error with which a statement on these tables is answered.
  pub fault : CodeDb Blob → Option Text
  -- The error of a statement that would break a UNIQUE constraint.
  pub unique_error : Text
  -- The `INTEGER PRIMARY KEY` of a new row next to those in use.
  pub new_rowid : List ℕ → ℕ
  pub serialize : Vector → Result Text Blob
  pub embed : Text → Result Text Vector

unfoldable pub has_key : Text → List Symbol → Bool
has_key key [] = false
has_key key (sym ∷ syms) = text_eq sym.key key || has_key key syms

-- Every row has the hash.
unfoldable pub all_same : Text → List SymbolRow → Bool
all_same hash [] = true
all_same hash (row ∷ rows) = text_eq row.file_hash hash && all_same hash rows

module _ {Vector Blob : Type 0} (env : CodeEnv Vector Blob) where
  -- `tx.Exec`.
  unfoldable pub run_statement : (CodeDb Blob → CodeDb Blob) → Tx Text (CodeDb Blob)
  unfolding statement
  run_statement = statement env.fault

  -- A statement under a UNIQUE constraint, which the test says to be broken.
  unfoldable pub run_unique :
      (CodeDb Blob → Bool) → (CodeDb Blob → CodeDb Blob) → Tx Text (CodeDb Blob)
  unfolding run_statement
  run_unique taken change db = if taken db then err env.unique_error else run_statement change db

  unfoldable pub embed_and_store_vector : ℕ → Text → Tx Text (CodeDb Blob)
  unfolding given run_unique vec_insert
  embed_and_store_vector id text = given (env.embed text) (λ v. given (env.serialize v) (λ blob.
      run_unique (λ db. elim (db.symbol_vec id) [ none ↦ false | some _ ↦ true ])
        (vec_insert id blob)))

  unfoldable pub delete_symbol_row : SymbolRow → Tx Text (CodeDb Blob)
  unfolding run_statement ◌>>>◌ fts_delete vec_delete edges_delete row_delete posting
  delete_symbol_row old =
      run_statement (fts_delete old.id (posting old.symbol))
      >>> run_statement (vec_delete old.id)
      >>> run_statement (edges_delete old.symbol.key)
      >>> run_statement (row_delete old.id)

  -- The key of a new row must be in no other row.
  unfoldable pub key_taken : Text → CodeDb Blob → Bool
  unfolding find_key
  key_taken key db = elim (find_key key db.symbols) [ none ↦ false | some _ ↦ true ]

  unfoldable pub insert_symbol : Text → ℕ → Symbol → Tx Text (CodeDb Blob)
  unfolding run_unique key_taken row_insert ◌>>>◌ fts_insert embed_and_store_vector columns posting
  insert_symbol file_hash run sym db =
      let id = env.new_rowid (map (λ row. row.id) db.symbols) in
      let row : SymbolRow = record {
        id = id;
        symbol = columns sym;
        file_hash = file_hash;
        index_run_id = run;
      } in
      (run_unique (key_taken sym.key) (row_insert row)
          >>> run_statement (fts_insert id (posting sym))
          >>> embed_and_store_vector id sym.embedding_text)
        db

  -- The vector is made again only where the documentation or the body has changed.
  unfoldable pub same_text : SymbolRow → Symbol → Bool
  same_text old sym =
      text_eq old.symbol.documentation sym.documentation
      && text_eq old.symbol.body_hash sym.body_hash

  unfoldable pub refresh_vector : SymbolRow → Symbol → Tx Text (CodeDb Blob)
  unfolding same_text ◌>>>◌ run_statement vec_delete embed_and_store_vector
  refresh_vector old sym db =
      if same_text old sym
      then ok db
      else (run_statement (vec_delete old.id) >>> embed_and_store_vector old.id sym.embedding_text)
          db

  unfoldable pub update_symbol : Text → ℕ → SymbolRow → Symbol → Tx Text (CodeDb Blob)
  unfolding run_statement ◌>>>◌ row_update fts_delete fts_insert refresh_vector posting
  update_symbol file_hash run old sym =
      run_statement (row_update old.id sym file_hash run)
      >>> run_statement (fts_delete old.id (posting old.symbol))
      >>> run_statement (fts_insert old.id (posting sym))
      >>> refresh_vector old sym

  -- The body of the loop over the stored rows: a row whose key is gone is deleted.
  unfoldable pub drop_absent : List Symbol → SymbolRow → Tx Text (CodeDb Blob)
  unfolding has_key delete_symbol_row
  drop_absent symbols old db =
      if has_key old.symbol.key symbols then ok db else delete_symbol_row old db

  -- The body of the loop over the given symbols; `existing` are the rows at the start.
  unfoldable pub write_symbol : Text → ℕ → List SymbolRow → Symbol → Tx Text (CodeDb Blob)
  unfolding find_key insert_symbol update_symbol
  write_symbol file_hash run existing sym = elim (find_key sym.key existing) [
    | none ↦ insert_symbol file_hash run sym
    | some old ↦ update_symbol file_hash run old sym
  ]

  unfoldable pub write_symbols : Text → ℕ → List SymbolRow → List Symbol → Tx Text (CodeDb Blob)
  unfolding run_statement ◌>>>◌ each drop_absent write_symbol
  write_symbols file_hash run existing symbols =
      run_statement (λ db. db)
      >>> each (drop_absent symbols) existing
      >>> each (write_symbol file_hash run existing) symbols
      >>> run_statement (λ db. db)

  unfoldable pub upsert_symbols :
      Text → Text → List Symbol → ℕ → CodeDb Blob → CodeDb Blob × Result {0, 0} StoreError Bool
  unfolding existing_symbol_rows all_same finally write_symbols
  upsert_symbols path file_hash symbols run db = elim (env.fault db) [
    | some e ↦ (db, err (database e))
    | none ↦
        let existing = existing_symbol_rows path db.symbols in
        if not (is_empty existing) && all_same file_hash existing
        then (db, ok false)
        else finally database true (write_symbols file_hash run existing symbols) db
  ]

  unfoldable pub delete_symbols_for_path :
      Text → CodeDb Blob → CodeDb Blob × Result {0, 0} StoreError Unit
  unfolding existing_symbol_rows finally run_statement ◌>>>◌ each delete_symbol_row
  delete_symbols_for_path path db = elim (env.fault db) [
    | some e ↦ (db, err (database e))
    | none ↦
        let existing = existing_symbol_rows path db.symbols in
        if is_empty existing
        then (db, ok tt)
        else finally database tt
            (run_statement (λ t. t) >>> each delete_symbol_row existing >>> run_statement (λ t. t))
            db
  ]
