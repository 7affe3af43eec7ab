-- ===== src/CodeStore/LiveFiles.antt =====
-- symbols.go: the unsaved files (live_files), and what they hide of the stored symbols.
pub mod Rows
pub mod InStep
pub mod Outcome
pub mod Removal
pub mod Tombstones
pub mod Removed
use ragrep.Common.{
  ℕ, suc, zero, ◌+◌, Text, text_eq, codes, Bool, true, false, not, ◌&&◌, ◌||◌, ◌==◌, ltb, List, [],
  ◌∷◌, ◌++◌, map, select, find, is_empty, Option, none, some, if◌then◌else◌, Result, ok, err, ◌>>=◌,
  Tx, ◌>>>◌, each, finally,
}
use ragrep.CodeIndex.{Symbol}
use ragrep.CodeIndex.Render.{render_embedding_text}
use ragrep.CodeStore.{StoreError, not_found, stale_live_key, database}
use ragrep.CodeStore.Tables.{LiveFile, SymbolRow, CodeDb, find_key, existing_symbol_rows}
use ragrep.CodeStore.Upsert.{CodeEnv, run_statement, delete_symbol_row}
use ragrep.CodeStore.LiveKeys.{live_key, parse_live_key}

-- The overlay of a path as it is listed.
pub record FileState : Type 0 where
  pub path : Text
  pub hash : Text
  pub generation : ℕ
  pub deleted : Bool

-- `path` is the primary key.
unfoldable pub find_live : Text → List LiveFile → Option LiveFile
find_live path = find (λ f. text_eq f.path path)

unfoldable pub take_out_text : Text → List Text → List Text
take_out_text s [] = []
take_out_text s (t ∷ ts) = let rest = take_out_text s ts in if text_eq s t then ts else t ∷ rest

unfoldable pub assign_path : {A : Type 0} → Text → A → (Text → A) → Text → A
assign_path path value f other = if text_eq path other then value else f other

-- `INSERT … ON CONFLICT(path) DO UPDATE`.
unfoldable pub put_live : LiveFile → List LiveFile → List LiveFile
put_live file [] = file ∷ []
put_live file (f ∷ files) =
    let rest = put_live file files in if text_eq f.path file.path then file ∷ files else f ∷ rest

module _ {Blob : Type 0} where
  unfoldable pub live_fts_delete : Text → Text → CodeDb Blob → CodeDb Blob
  unfolding take_out_text assign_path
  live_fts_delete path body db = record db {
    live_fts = assign_path path (take_out_text body (db.live_fts path)) db.live_fts;
  }

  unfoldable pub live_fts_insert : Text → Text → CodeDb Blob → CodeDb Blob
  unfolding assign_path
  live_fts_insert path body db = record db {
    live_fts = assign_path path (body ∷ db.live_fts path) db.live_fts;
  }

  unfoldable pub put_row : LiveFile → CodeDb Blob → CodeDb Blob
  unfolding put_live
  put_row file db = record db { live_files = put_live file db.live_files }

  unfoldable pub delete_live : Text → CodeDb Blob → CodeDb Blob
  delete_live path db = record db {
    live_files = select (λ f. not (text_eq f.path path)) db.live_files;
  }

  -- `DELETE FROM live_files WHERE path=? AND hash=? AND deleted`.
  unfoldable pub delete_tombstone : Text → Text → CodeDb Blob → CodeDb Blob
  delete_tombstone path hash db = record db {
    live_files =
        select (λ f. not (text_eq f.path path && (text_eq f.hash hash && f.deleted))) db.live_files;
  }

-- `to_slash` is `filepath.ToSlash`, which depends on the operating system.
module _ {Vector Blob : Type 0} (env : CodeEnv Vector Blob) (to_slash : Text → Text) where
  -- A statement that only reads, `Begin` or `Commit`.
  unfoldable pub nop : Tx Text (CodeDb Blob)
  unfolding run_statement
  nop = run_statement env (λ db. db)

  unfoldable pub forget_old : Option LiveFile → Tx Text (CodeDb Blob)
  unfolding run_statement live_fts_delete
  forget_old none db = ok db
  forget_old (some old) db =
      if old.deleted then ok db else run_statement env (live_fts_delete old.path old.body) db

  unfoldable pub index_live : LiveFile → Tx Text (CodeDb Blob)
  unfolding nop run_statement live_fts_insert ◌>>>◌
  index_live file =
      if file.deleted
      then nop
      else nop >>> run_statement env (live_fts_insert file.path file.body) >>> nop

  -- `putLiveFile` on a file whose path has slashes.
  unfoldable pub put_live_tx : LiveFile → Tx Text (CodeDb Blob)
  unfolding nop forget_old index_live run_statement put_row find_live ◌>>>◌
  put_live_tx file =
      nop
      >>> nop
      >>> (λ db. forget_old (find_live file.path db.live_files) db)
      >>> run_statement env (put_row file)
      >>> index_live file

  unfoldable pub put_live_file_row :
      LiveFile → CodeDb Blob → CodeDb Blob × Result {0, 0} StoreError Unit
  unfolding finally put_live_tx
  put_live_file_row file =
      finally database tt (put_live_tx (record file { path = to_slash file.path }))

  unfoldable pub put_live_file :
      Text → Text → Text → ℕ → CodeDb Blob → CodeDb Blob × Result {0, 0} StoreError Unit
  unfolding put_live_file_row
  put_live_file path hash body generation =
      put_live_file_row
        (record { path = path; hash = hash; body = body; generation = generation; deleted = false })

  unfoldable pub put_live_deletion :
      Text → Text → ℕ → CodeDb Blob → CodeDb Blob × Result {0, 0} StoreError Unit
  unfolding put_live_file_row
  put_live_deletion path previous_hash generation = put_live_file_row (record {
    path = path;
    hash = previous_hash;
    body = [];
    generation = generation;
    deleted = true;
  })

  -- What is read in a transaction that may still write; an error of `Begin` or of the query ends it.
  unfoldable pub decide :
      CodeDb Blob
      → (CodeDb Blob → CodeDb Blob × Result {0, 0} StoreError Bool)
      → CodeDb Blob × Result {0, 0} StoreError Bool
  unfolding nop ◌>>>◌
  decide db next = elim ((nop >>> nop) db) [ err e ↦ (db, err (database e)) | ok _ ↦ next db ]

  unfoldable pub remove_live_tx : LiveFile → Tx Text (CodeDb Blob)
  unfolding nop run_statement live_fts_delete delete_live ◌>>>◌
  remove_live_tx file =
      run_statement env (live_fts_delete file.path file.body)
      >>> run_statement env (delete_live file.path)
      >>> nop

  unfoldable pub remove_live_file_if_hash :
      Text → Text → CodeDb Blob → CodeDb Blob × Result {0, 0} StoreError Bool
  unfolding decide find_live remove_live_tx finally
  remove_live_file_if_hash file_path expected_hash db = decide db (λ t.
      elim (find_live (to_slash file_path) t.live_files) [
        | none ↦ (t, ok false)
        | some file ↦
            if not (text_eq file.hash expected_hash) || file.deleted
            then (t, ok false)
            else finally database true (remove_live_tx file) t
      ])

  unfoldable pub drop_symbols_tx : Text → Text → List SymbolRow → Tx Text (CodeDb Blob)
  unfolding nop run_statement each delete_symbol_row delete_tombstone ◌>>>◌
  drop_symbols_tx path hash existing =
      nop
      >>> each (delete_symbol_row env) existing
      >>> run_statement env (delete_tombstone path hash)
      >>> nop

  unfoldable pub delete_symbols_for_path_if_live_hash :
      Text → Text → CodeDb Blob → CodeDb Blob × Result {0, 0} StoreError Bool
  unfolding decide find_live drop_symbols_tx finally existing_symbol_rows
  delete_symbols_for_path_if_live_hash file_path expected_hash db =
      let path = to_slash file_path in
      decide db (λ t. elim (find_live path t.live_files) [
        | none ↦ (t, ok false)
        | some file ↦
            if not (text_eq file.hash expected_hash) || not file.deleted
            then (t, ok false)
            else finally database true
                (drop_symbols_tx path expected_hash (existing_symbol_rows path t.symbols)) t
      ])

  -- A query outside a transaction.
  unfoldable pub ask : {A : Type 0} → CodeDb Blob → Result StoreError A → Result StoreError A
  ask db answer = elim (env.fault db) [ some e ↦ err (database e) | none ↦ answer ]

  -- The file with its key, which a deleted one does not have.
  unfoldable pub get_live_file_by_path :
      Text → Text → CodeDb Blob → Result StoreError (Text × LiveFile)
  unfolding ask find_live live_key
  get_live_file_by_path file_path expected_hash db =
      ask db (elim (find_live (to_slash file_path) db.live_files) [
        | none ↦ err stale_live_key
        | some file ↦
            if text_eq file.hash expected_hash
            then ok
                (if file.deleted then [] else live_key file.generation file.hash file.path, file)
            else err stale_live_key
      ])

  unfoldable pub get_symbol : Text → CodeDb Blob → Result StoreError Symbol
  unfolding ask find_key render_embedding_text
  get_symbol key db = ask db (elim (find_key key db.symbols) [
    | none ↦ err not_found
    | some row ↦ ok (record row.symbol { embedding_text = render_embedding_text row.symbol })
  ])

  unfoldable pub get_visible_symbol : Text → CodeDb Blob → Result StoreError Symbol
  unfolding ask find_live get_symbol
  get_visible_symbol key db = get_symbol key db >>= (λ sym.
      ask db (elim (find_live sym.path db.live_files) [
        | none ↦ ok sym
        | some file ↦ err stale_live_key
      ]))
