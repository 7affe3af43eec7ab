-- ===== src/CodeStore/LiveFiles/InStep.antt =====
-- The writes of unsaved files, and what they leave.
use ragrep.Common.{
  ◌≡◌, refl, sym, ap, subst, ◌∙◌, Text, text_eq, text_eq_iff, text_eq_refl, Bool, true, false, not,
  [], ◌∷◌, select_key-IsNodup, Option, none, some, inl, inr, IsNodup, Bool-cases, if◌then◌else◌,
}
use ragrep.CodeStore.Tables.{LiveFile, CodeDb}
use ragrep.CodeStore.LiveFiles.{
  find_live, take_out_text, assign_path, live_fts_delete, live_fts_insert, put_row, delete_live,
}
use ragrep.CodeStore.LiveFiles.Rows.{
  paths_of, live_posted, IsLiveInStep, find_live-put_live, find_live-delete, put_live-paths,
  find_live-path, take_out_text_self,
}

module _ {Blob : Type 0} where
  abbrev pub forgotten : Option LiveFile → CodeDb Blob → CodeDb Blob
  forgotten none db = db
  forgotten (some old) db = if old.deleted then db else live_fts_delete old.path old.body db

  abbrev pub indexed : Bool → LiveFile → CodeDb Blob → CodeDb Blob
  indexed true file db = db
  indexed false file db = live_fts_insert file.path file.body db

  abbrev pub stored : LiveFile → CodeDb Blob → CodeDb Blob
  stored file db =
      indexed file.deleted file (put_row file (forgotten (find_live file.path db.live_files) db))

  abbrev pub removed : LiveFile → CodeDb Blob → CodeDb Blob
  removed file db = delete_live file.path (live_fts_delete file.path file.body db)

  -- The tables without the unsaved files.
  abbrev pub SameSymbols : CodeDb Blob → CodeDb Blob → Type 0
  SameSymbols db t =
      (t.symbols ≡ db.symbols)
      × (t.symbol_fts ≡ db.symbol_fts)
      × (t.symbol_vec ≡ db.symbol_vec)
      × (t.symbol_edges ≡ db.symbol_edges)
      × (t.index_runs ≡ db.index_runs)

  forgotten-files :
      (o : Option LiveFile) (db : CodeDb Blob)
      → ((forgotten o db).live_files ≡ db.live_files) × SameSymbols db (forgotten o db)
  unfolding live_fts_delete
  forgotten-files none db = (refl, (refl, refl, refl, refl, refl))
  forgotten-files (some old) db = elim (Bool-cases old.deleted) [
    | inl e ↦ rw (e) (refl, (refl, refl, refl, refl, refl))
    | inr e ↦ rw (e) (refl, (refl, refl, refl, refl, refl))
  ]

  -- After the old entry is taken out, the index has nothing for the path, and the rest as before.
  forgotten-fts :
      (path p : Text) (db : CodeDb Blob)
      → IsLiveInStep db
      → (forgotten (find_live path db.live_files) db).live_fts p
        ≡ (if text_eq path p then [] else live_posted (find_live p db.live_files))
  unfolding live_fts_delete assign_path
  forgotten-fts path p db inv = go (find_live path db.live_files) refl
    where
      own :
          (o : Option LiveFile)
          → find_live path db.live_files ≡ o
          → text_eq path p ≡ true
          → db.live_fts p ≡ live_posted o
      own o e k =
          subst (λ q. db.live_fts q ≡ live_posted o) ((text_eq_iff path p).0 k)
            (inv.fts path ∙ ap live_posted e)

      go :
          (o : Option LiveFile)
          → find_live path db.live_files ≡ o
          → (forgotten o db).live_fts p
            ≡ (if text_eq path p then [] else live_posted (find_live p db.live_files))
      go none e = elim (Bool-cases (text_eq path p)) [
        | inl k ↦ rw (k) (own none e k)
        | inr k ↦ rw (k) (inv.fts p)
      ]
      go (some old) e = elim (Bool-cases old.deleted) [
        | inl d ↦ elim (Bool-cases (text_eq path p)) [
          | inl k ↦ rw (d, k) (own (some old) e k ∙ rw (d) refl)
          | inr k ↦ rw (d, k) (inv.fts p)
        ]
        | inr d ↦
            let same = (find_live-path path db.live_files old e).1 in
            elim (Bool-cases (text_eq path p)) [
              | inl k ↦
                  rw (d, ap (λ q. text_eq q p) same ∙ k, k)
                    (ap (take_out_text old.body) {y = old.body ∷ []} (
                        inv.fts old.path
                        ∙ ap live_posted (ap (λ q. find_live q db.live_files) same ∙ e)
                        ∙ rw (d) refl)
                      ∙ take_out_text_self old.body)
              | inr k ↦ rw (d, ap (λ q. text_eq q p) same ∙ k, k) (inv.fts p)
            ]
      ]

  indexed-files :
      (b : Bool) (file : LiveFile) (db : CodeDb Blob)
      → ((indexed b file db).live_files ≡ db.live_files) × SameSymbols db (indexed b file db)
  unfolding live_fts_insert
  indexed-files true file db = (refl, (refl, refl, refl, refl, refl))
  indexed-files false file db = (refl, (refl, refl, refl, refl, refl))

  put_row-files :
      (file : LiveFile) (db : CodeDb Blob) (p : Text)
      → find_live p (put_row file (forgotten (find_live file.path db.live_files) db)).live_files
        ≡ (if text_eq file.path p then some file else find_live p db.live_files)
  unfolding put_row
  put_row-files file db p =
      let u = forgotten (find_live file.path db.live_files) db in
      find_live-put_live file p u.live_files
      ∙ ap (λ files. if text_eq file.path p then some file else find_live p files)
          (forgotten-files (find_live file.path db.live_files) db).0

  -- A stored file is the overlay of its path, and no other overlay changes.
  pub stored-files :
      (file : LiveFile) (db : CodeDb Blob) (p : Text)
      → find_live p (stored file db).live_files
        ≡ (if text_eq file.path p then some file else find_live p db.live_files)
  stored-files file db p =
      ap (find_live p)
        (indexed-files file.deleted file
          (put_row file (forgotten (find_live file.path db.live_files) db))).0
      ∙ put_row-files file db p

  pub stored-SameSymbols : (file : LiveFile) (db : CodeDb Blob) → SameSymbols db (stored file db)
  unfolding put_row
  stored-SameSymbols file db =
      let a = forgotten-files (find_live file.path db.live_files) db in
      let b =
        indexed-files file.deleted file
          (put_row file (forgotten (find_live file.path db.live_files) db)) in
      (b.1.0 ∙ a.1.0, b.1.1 ∙ a.1.1, b.1.2 ∙ a.1.2, b.1.3 ∙ a.1.3, b.1.4 ∙ a.1.4)

  stored-fts :
      (file : LiveFile) (db : CodeDb Blob)
      → IsLiveInStep db
      → (p : Text)
      → (stored file db).live_fts p
        ≡ live_posted (if text_eq file.path p then some file else find_live p db.live_files)
  unfolding put_row live_fts_insert assign_path
  stored-fts file db inv p = go file.deleted refl
    where
      u : CodeDb Blob
      u = forgotten (find_live file.path db.live_files) db

      go :
          (b : Bool)
          → file.deleted ≡ b
          → (indexed b file (put_row file u)).live_fts p
            ≡ live_posted (if text_eq file.path p then some file else find_live p db.live_files)
      go true d =
          forgotten-fts file.path p db inv
          ∙ elim (Bool-cases (text_eq file.path p)) [ inl k ↦ rw (k, d) refl | inr k ↦ rw (k) refl ]
      go false d = elim (Bool-cases (text_eq file.path p)) [
        | inl k ↦ rw (k) (
            ap (λ more. file.body ∷ more) {y = []}
              (forgotten-fts file.path file.path db inv ∙ rw (text_eq_refl file.path) refl)
            ∙ rw (d) refl)
        | inr k ↦ rw (k) (forgotten-fts file.path p db inv ∙ rw (k) refl)
      ]

  pub stored-IsLiveInStep :
      (file : LiveFile) (db : CodeDb Blob) → IsLiveInStep db → IsLiveInStep (stored file db)
  unfolding put_row
  stored-IsLiveInStep file db inv =
      let u = forgotten (find_live file.path db.live_files) db in
      record {
        paths =
            subst (λ files. IsNodup (paths_of files))
              (sym (indexed-files file.deleted file (put_row file u)).0)
              (put_live-paths file u.live_files (
                subst (λ files. IsNodup (paths_of files))
                  (sym (forgotten-files (find_live file.path db.live_files) db).0) inv.paths));
        fts = λ p. stored-fts file db inv p ∙ ap live_posted (sym (stored-files file db p));
      }

  -- The overlay of the path is gone, with its entry in the index.
  pub removed-IsLiveInStep :
      (path : Text) (file : LiveFile) (db : CodeDb Blob)
      → IsLiveInStep db
      → find_live path db.live_files ≡ some file
      → file.deleted ≡ false
      → IsLiveInStep (removed file db)
  unfolding delete_live live_fts_delete assign_path
  removed-IsLiveInStep path file db inv found kept = record {
    paths =
        select_key-IsNodup (λ f. f.path) (λ f. not (text_eq f.path file.path)) db.live_files
          inv.paths;
    fts = λ p. elim (Bool-cases (text_eq file.path p)) [
      | inl k ↦
          rw (find_live-delete file.path p db.live_files, k)
            (ap (take_out_text file.body) {y = file.body ∷ []} (
                inv.fts file.path
                ∙ ap live_posted (
                    ap (λ q. find_live q db.live_files)
                      (find_live-path path db.live_files file found).1
                    ∙ found)
                ∙ rw (kept) refl)
              ∙ take_out_text_self file.body)
      | inr k ↦ rw (find_live-delete file.path p db.live_files, k) (inv.fts p)
    ];
  }
