-- ===== src/CodeStore/LiveFiles/Removed.antt =====
-- RemoveLiveFileIfHash as a whole.
use ragrep.Common.{
  [], Bool, ◌≡◌, ◌≢◌, refl, sym, ap, ◌∙◌, ◌⊎◌, Text, text_eq, none, some, inl, inr, true, false,
  if◌then◌else◌, ok, err,
}
use ragrep.CodeStore.{database}
use ragrep.CodeStore.Tables.{LiveFile, CodeDb}
use ragrep.CodeStore.Upsert.{CodeEnv}
use ragrep.CodeStore.LiveFiles.{find_live, live_fts_delete, delete_live, remove_live_file_if_hash}
use ragrep.CodeStore.LiveFiles.Rows.{IsLiveInStep, live_posted, find_live-delete, find_live-path}
use ragrep.CodeStore.LiveFiles.InStep.{removed, SameSymbols, removed-IsLiveInStep}
use ragrep.CodeStore.LiveFiles.Removal.{remove_live_file_if_hash-cases}

removed-fts :
    {Blob : Type 0} (path : Text) (file : LiveFile) (db : CodeDb Blob)
    → IsLiveInStep db
    → find_live path db.live_files ≡ some file
    → file.deleted ≡ false
    → (p : Text) → (removed file db).live_fts p ≡ (if text_eq path p then [] else db.live_fts p)
unfolding delete_live live_fts_delete
removed-fts path file db inv found kept p =
    (removed-IsLiveInStep path file db inv found kept).fts p
    ∙ ap live_posted (
        find_live-delete file.path p db.live_files
        ∙ ap (λ q. if text_eq q p then none else find_live p db.live_files)
            (find_live-path path db.live_files file found).1)
    ∙ by (text_eq path p)
  where
    by :
        (b : Bool)
        → live_posted (if b then none else find_live p db.live_files)
          ≡ (if b then [] else db.live_fts p)
    by true = refl
    by false = sym (inv.fts p)

module _ {Vector Blob : Type 0} (env : CodeEnv Vector Blob) (to_slash : Text → Text) where
  -- On tables whose text index is in step with the overlays: the answer `true` says that the overlay
  -- of the path had the expected hash, was no deletion, and is gone with its entry in the text index,
  -- with every other overlay and entry and all symbols, edges and runs as they were. With the answer
  -- `false` or an error the tables are as they were; `false` says that the path has no overlay of the
  -- expected hash that is not a deletion.
  pub remove_live_file_if_hash-finally :
      (file_path expected_hash : Text) (db : CodeDb Blob)
      → IsLiveInStep db
      → (let path = to_slash file_path in
          let r = remove_live_file_if_hash env to_slash file_path expected_hash db in
          ((e : Text) × (r ≡ (db, err (database e))))
          ⊎ (((r ≡ (db, ok false))
                × ((file : LiveFile)
                    → find_live path db.live_files ≡ some file
                    → (file.hash ≢ expected_hash) ⊎ (file.deleted ≡ true)))
              ⊎ ((t : CodeDb Blob) × (r ≡ (t, ok true))
                  × ((file : LiveFile) × (find_live path db.live_files ≡ some file)
                      × (file.hash ≡ expected_hash)
                      × (file.deleted ≡ false))
                  × ((p : Text)
                      → find_live p t.live_files
                        ≡ (if text_eq path p then none else find_live p db.live_files))
                  × ((p : Text) → t.live_fts p ≡ (if text_eq path p then [] else db.live_fts p))
                  × SameSymbols db t)))
  unfolding live_fts_delete delete_live
  remove_live_file_if_hash-finally file_path expected_hash db inv =
      remove_live_file_if_hash-cases env to_slash file_path expected_hash db
        (λ r.
          ((e : Text) × (r ≡ (db, err (database e))))
          ⊎ (((r ≡ (db, ok false))
                × ((file : LiveFile)
                    → find_live (to_slash file_path) db.live_files ≡ some file
                    → (file.hash ≢ expected_hash) ⊎ (file.deleted ≡ true)))
              ⊎ ((t : CodeDb Blob) × (r ≡ (t, ok true))
                  × ((file : LiveFile) × (find_live (to_slash file_path) db.live_files ≡ some file)
                      × (file.hash ≡ expected_hash)
                      × (file.deleted ≡ false))
                  × ((p : Text)
                      → find_live p t.live_files ≡ (
                          if text_eq (to_slash file_path) p
                          then none
                          else find_live p db.live_files))
                  × ((p : Text)
                      → t.live_fts p
                        ≡ (if text_eq (to_slash file_path) p then [] else db.live_fts p))
                  × SameSymbols db t)))
        (λ e. inl (e, refl)) (λ o found why. inr (inl (refl, λ file k. why file (sym found ∙ k))))
        (λ file found same kept. inr (
          inr (
            removed file db,
            refl,
            (file, found, same, kept),
            (λ p.
                find_live-delete file.path p db.live_files
                ∙ ap (λ q. if text_eq q p then none else find_live p db.live_files)
                    (find_live-path (to_slash file_path) db.live_files file found).1),
            removed-fts (to_slash file_path) file db inv found kept,
            (refl, refl, refl, refl, refl),
          )))

  pub remove_live_file_if_hash-IsLiveInStep :
      (file_path expected_hash : Text) (db : CodeDb Blob)
      → IsLiveInStep db
      → IsLiveInStep (remove_live_file_if_hash env to_slash file_path expected_hash db).0
  remove_live_file_if_hash-IsLiveInStep file_path expected_hash db inv =
      remove_live_file_if_hash-cases env to_slash file_path expected_hash db (λ r. IsLiveInStep r.0)
        (λ e. inv) (λ o found why. inv)
        (λ file found same kept. removed-IsLiveInStep (to_slash file_path) file db inv found kept)
