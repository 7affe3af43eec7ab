-- ===== src/CodeStore/LiveFiles/Tombstones.antt =====
-- DeleteSymbolsForPathIfLiveHash: its ends, and what it keeps.
use ragrep.Common.{
  ◌≡◌, refl, sym, ap, subst, ◌∙◌, Text, text_eq, text_eq_iff, Bool, true, false, not, ◌&&◌, ◌||◌,
  List, [], select_key-IsNodup, Option, none, some, inl, inr, IsNodup, Bool-cases, if◌then◌else◌,
  Result, ok, err, ◌>>>◌, >>>-Leads, each, finally, finally-cases,
}
use ragrep.CodeStore.{StoreError, database}
use ragrep.CodeStore.Tables.{LiveFile, SymbolRow, CodeDb, existing_symbol_rows}
use ragrep.CodeStore.Tables.Rows.{IsInStep}
use ragrep.CodeStore.Upsert.{CodeEnv, run_statement, delete_symbol_row}
use ragrep.CodeStore.Upsert.Steps.{run_statement-Leads}
use ragrep.CodeStore.Upsert.Frame.{each-SameFiles, delete_symbol_row-SameFiles, pruned-IsInStep}
use ragrep.CodeStore.LiveFiles.{
  find_live, delete_tombstone, nop, drop_symbols_tx, delete_symbols_for_path_if_live_hash,
}
use ragrep.CodeStore.LiveFiles.Rows.{
  paths_of, live_posted, IsLiveInStep, find_live-delete, tombstone-select,
}
use ragrep.CodeStore.LiveFiles.Outcome.{nop-Leads}
use ragrep.CodeStore.LiveFiles.Removal.{decide-cases}

module _ {Vector Blob : Type 0} (env : CodeEnv Vector Blob) (to_slash : Text → Text) where
  drop_symbols_tx-Leads :
      (path hash : Text) (rows : List SymbolRow) (db t : CodeDb Blob)
      → drop_symbols_tx env to_slash path hash rows db ≡ ok t
      → (u : CodeDb Blob) × (each (delete_symbol_row env) rows db ≡ ok u)
        × (delete_tombstone path hash u ≡ t)
  unfolding drop_symbols_tx
  drop_symbols_tx-Leads path hash rows db t h =
      let n = nop env to_slash in
      let drop = each (delete_symbol_row env) rows in
      let last = run_statement env (delete_tombstone path hash) in
      let c = >>>-Leads (n >>> drop >>> last) n db t h in
      let b = >>>-Leads (n >>> drop) last db c.0 c.1 in
      let a = >>>-Leads n drop db b.0 b.1 in
      (
        b.0,
        subst (λ d. drop d ≡ ok b.0) (sym (nop-Leads env to_slash db a.0 a.1)) a.2,
        run_statement-Leads env (delete_tombstone path hash) b.0 c.0 b.2
            ∙ nop-Leads env to_slash c.0 t c.2,
      )

  -- The rows of the path deleted, and then its matching tombstone.
  pub delete_symbols_for_path_if_live_hash-cases :
      (file_path hash : Text) (db : CodeDb Blob)
      (P : CodeDb Blob × Result {0, 0} StoreError Bool → Type 0)
      → ((e : Text) → P (db, err (database e)))
      → P (db, ok false)
      → ((file : LiveFile) (u : CodeDb Blob)
          → find_live (to_slash file_path) db.live_files ≡ some file
          → text_eq file.hash hash ≡ true
          → file.deleted ≡ true
          → each (delete_symbol_row env) (existing_symbol_rows (to_slash file_path) db.symbols) db
            ≡ ok u
          → P (delete_tombstone (to_slash file_path) hash u, ok true))
      → P (delete_symbols_for_path_if_live_hash env to_slash file_path hash db)
  unfolding delete_symbols_for_path_if_live_hash
  delete_symbols_for_path_if_live_hash-cases file_path hash db P failed kept gone =
      decide-cases env to_slash db
        (λ t. elim (find_live path t.live_files) [
          | none ↦ (t, ok false)
          | some file ↦
              if not (text_eq file.hash hash) || not file.deleted
              then (t, ok false)
              else finally database true (drop path t) t
        ])
        P failed (go (find_live path db.live_files) refl)
    where
      path : Text
      path = to_slash file_path

      drop : Text → CodeDb Blob → CodeDb Blob → Result Text (CodeDb Blob)
      drop p t = drop_symbols_tx env to_slash p hash (existing_symbol_rows p t.symbols)

      branch :
          (file : LiveFile)
          → find_live path db.live_files ≡ some file
          → (same deleted : Bool) → text_eq file.hash hash ≡ same
          → file.deleted ≡ deleted
          → P (
              if not same || not deleted
              then (db, ok false)
              else finally database true (drop path db) db)
      branch file found false deleted s d = kept
      branch file found true false s d = kept
      branch file found true true s d =
          finally-cases database true (drop path db) db P failed (λ t h.
            let done =
              drop_symbols_tx-Leads path hash (existing_symbol_rows path db.symbols) db t h in
            subst (λ u. P (u, ok true)) done.2 (gone file done.0 found s d done.1))

      go :
          (o : Option LiveFile)
          → find_live path db.live_files ≡ o
          → P (elim o [
            | none ↦ (db, ok false)
            | some file ↦
                if not (text_eq file.hash hash) || not file.deleted
                then (db, ok false)
                else finally database true (drop path db) db
          ])
      go none e = kept
      go (some file) e = branch file e (text_eq file.hash hash) file.deleted refl refl

  -- Deleting a matching tombstone keeps the overlay in step: it has no entry in the index.
  pub tombstone-IsLiveInStep :
      (path hash : Text) (file : LiveFile) (db : CodeDb Blob)
      → IsLiveInStep db
      → find_live path db.live_files ≡ some file
      → text_eq file.hash hash ≡ true
      → file.deleted ≡ true
      → IsLiveInStep (delete_tombstone path hash db)
  unfolding delete_tombstone
  tombstone-IsLiveInStep path hash file db inv found same gone =
      let less = tombstone-select path hash file db.live_files inv.paths found same gone in
      record {
        paths =
            select_key-IsNodup (λ f. f.path)
              (λ x. not (text_eq x.path path && (text_eq x.hash hash && x.deleted))) db.live_files
              inv.paths;
        fts = λ p.
            subst (λ files. db.live_fts p ≡ live_posted (find_live p files)) (sym less)
              (elim (Bool-cases (text_eq path p)) [
                | inl k ↦
                    rw (find_live-delete path p db.live_files, k)
                      (subst (λ q. db.live_fts q ≡ []) ((text_eq_iff path p).0 k)
                        (inv.fts path ∙ ap live_posted found ∙ rw (gone) refl))
                | inr k ↦ rw (find_live-delete path p db.live_files, k) (inv.fts p)
              ]);
      }

  pub delete_symbols_for_path_if_live_hash-keeps :
      (file_path hash : Text) (db : CodeDb Blob)
      → IsInStep db × IsLiveInStep db
      → (let t = (delete_symbols_for_path_if_live_hash env to_slash file_path hash db).0 in
          IsInStep t × IsLiveInStep t)
  unfolding delete_tombstone
  delete_symbols_for_path_if_live_hash-keeps file_path hash db inv =
      delete_symbols_for_path_if_live_hash-cases file_path hash db
        (λ r. IsInStep r.0 × IsLiveInStep r.0) (λ e. inv) inv
        (λ file u found same gone h.
          let path = to_slash file_path in
          let frame =
            each-SameFiles env (delete_symbol_row env) (delete_symbol_row-SameFiles env)
              (existing_symbol_rows path db.symbols) db u h in
          let live : IsLiveInStep u = record {
            paths = subst (λ files. IsNodup (paths_of files)) (sym frame.0) inv.1.paths;
            fts = λ p.
                ap (λ f. f p) frame.1
                ∙ inv.1.fts p
                ∙ ap (λ files. live_posted (find_live p files)) (sym frame.0);
          } in
          (
            tombstoned u path hash (pruned-IsInStep env path db u inv.0 h),
            tombstone-IsLiveInStep path hash file u live (ap (find_live path) frame.0 ∙ found) same
                gone,
          ))
    where
      tombstoned :
          (u : CodeDb Blob) (path hash : Text)
          → IsInStep u
          → IsInStep (delete_tombstone path hash u)
      tombstoned u path hash i = record { ids = i.ids; keys = i.keys; fts = i.fts; vec = i.vec }
