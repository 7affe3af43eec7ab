-- ===== src/CodeStore/LiveFiles/Removal.antt =====
-- RemoveLiveFileIfHash and DeleteSymbolsForPathIfLiveHash.
use ragrep.Common.{
  ◌≡◌, ◌≢◌, refl, sym, ap, subst, ◌∙◌, ◌⊎◌, Text, text_eq, text_eq_iff, Bool, true, false, not,
  ◌||◌, Option, none, some, inl, inr, if◌then◌else◌, Result, ok, err, ◌>>>◌, >>>-Leads, finally,
  finally-cases,
}
use ragrep.CodeStore.{StoreError, database}
use ragrep.CodeStore.Tables.{LiveFile, CodeDb}
use ragrep.CodeStore.Upsert.{CodeEnv, run_statement}
use ragrep.CodeStore.Upsert.Steps.{run_statement-Leads}
use ragrep.CodeStore.LiveFiles.{
  find_live, live_fts_delete, delete_live, nop, decide, remove_live_tx, remove_live_file_if_hash,
}
use ragrep.CodeStore.LiveFiles.InStep.{removed}
use ragrep.CodeStore.LiveFiles.Outcome.{nop-Leads}

module _ {Vector Blob : Type 0} (env : CodeEnv Vector Blob) (to_slash : Text → Text) where
  abbrev pub Answer : Type 0
  Answer = CodeDb Blob × Result {0, 0} StoreError Bool

  pub decide-cases :
      (db : CodeDb Blob) (next : CodeDb Blob → CodeDb Blob × Result {0, 0} StoreError Bool)
      (P : Answer → Type 0)
      → ((e : Text) → P (db, err (database e)))
      → P (next db)
      → P (decide env to_slash db next)
  unfolding decide
  decide-cases db next P failed done = go ((nop env to_slash >>> nop env to_slash) db)
    where
      go :
          (r : Result Text (CodeDb Blob))
          → P (elim r [ err e ↦ (db, err (database e)) | ok _ ↦ next db ])
      go (err e) = failed e
      go (ok t) = done

  pub remove_live_tx-Leads :
      (file : LiveFile) (db t : CodeDb Blob)
      → remove_live_tx env to_slash file db ≡ ok t
      → removed file db ≡ t
  unfolding remove_live_tx
  remove_live_tx-Leads file db t h =
      let first = run_statement env (live_fts_delete file.path file.body) in
      let second = run_statement env (delete_live file.path) in
      let b = >>>-Leads (first >>> second) (nop env to_slash) db t h in
      let a = >>>-Leads first second db b.0 b.1 in
      ap (delete_live file.path)
        (run_statement-Leads env (live_fts_delete file.path file.body) db a.0 a.1)
      ∙ run_statement-Leads env (delete_live file.path) a.0 b.0 a.2
      ∙ nop-Leads env to_slash b.0 t b.2

  -- The ways a removal ends, with the row that is removed.
  pub remove_live_file_if_hash-cases :
      (file_path expected_hash : Text) (db : CodeDb Blob) (P : Answer → Type 0)
      → ((e : Text) → P (db, err (database e)))
      → ((o : Option LiveFile)
          → find_live (to_slash file_path) db.live_files ≡ o
          → ((file : LiveFile)
              → o ≡ some file
              → (file.hash ≢ expected_hash) ⊎ (file.deleted ≡ true))
          → P (db, ok false))
      → ((file : LiveFile)
          → find_live (to_slash file_path) db.live_files ≡ some file
          → file.hash ≡ expected_hash
          → file.deleted ≡ false
          → P (removed file db, ok true))
      → P (remove_live_file_if_hash env to_slash file_path expected_hash db)
  unfolding remove_live_file_if_hash
  remove_live_file_if_hash-cases file_path expected_hash db P failed kept gone =
      decide-cases db
        (λ t. elim (find_live (to_slash file_path) t.live_files) [
          | none ↦ (t, ok false)
          | some file ↦
              if not (text_eq file.hash expected_hash) || file.deleted
              then (t, ok false)
              else finally database true (remove_live_tx env to_slash file) t
        ])
        P failed (go (find_live (to_slash file_path) db.live_files) refl)
    where
      branch :
          (file : LiveFile)
          → find_live (to_slash file_path) db.live_files ≡ some file
          → (same deleted : Bool) → text_eq file.hash expected_hash ≡ same
          → file.deleted ≡ deleted
          → P (
              if not same || deleted
              then (db, ok false)
              else finally database true (remove_live_tx env to_slash file) db)
      branch file found false deleted s d = kept (some file) found (λ f e. inl (λ k. cc (
        s,
        (text_eq_iff file.hash expected_hash).1
            (subst (λ g. g.hash ≡ expected_hash) (sym (same_file file f e)) k),
      )))
        where
          same_file : (x y : LiveFile) → some x ≡ some y → x ≡ y
          same_file x y e = cc
      branch file found true true s d =
          kept (some file) found (λ f e. inr (subst (λ g. g.deleted ≡ true) (same_file file f e) d))
        where
          same_file : (x y : LiveFile) → some x ≡ some y → x ≡ y
          same_file x y e = cc
      branch file found true false s d =
          finally-cases database true (remove_live_tx env to_slash file) db P failed (λ t h.
            subst (λ u. P (u, ok true)) (remove_live_tx-Leads file db t h)
              (gone file found ((text_eq_iff file.hash expected_hash).0 s) d))

      go :
          (o : Option LiveFile)
          → find_live (to_slash file_path) db.live_files ≡ o
          → P (elim o [
            | none ↦ (db, ok false)
            | some file ↦
                if not (text_eq file.hash expected_hash) || file.deleted
                then (db, ok false)
                else finally database true (remove_live_tx env to_slash file) db
          ])
      go none e = kept none e (λ file k. cc)
      go (some file) e = branch file e (text_eq file.hash expected_hash) file.deleted refl refl
