-- ===== src/CodeStore/LiveFiles/Outcome.antt =====
-- The operations on unsaved files as wholes: what they leave, and what they answer.
use ragrep.Common.{
  ◌≡◌, refl, sym, ap, subst, ◌∙◌, ◌⊎◌, Text, text_eq, Bool, true, false, Option, none, some, inl,
  inr, if◌then◌else◌, Result, ok, err, ◌>>>◌, >>>-Leads, finally-cases,
}
use ragrep.CodeStore.{database}
use ragrep.CodeStore.Tables.{LiveFile, CodeDb}
use ragrep.CodeStore.Upsert.{CodeEnv, run_statement}
use ragrep.CodeStore.Upsert.Steps.{run_statement-Leads}
use ragrep.CodeStore.Upsert.Drops.{ok_injective}
use ragrep.CodeStore.LiveFiles.{
  find_live, live_fts_delete, live_fts_insert, put_row, nop, forget_old, index_live, put_live_tx,
  put_live_file_row,
}
use ragrep.CodeStore.LiveFiles.Rows.{IsLiveInStep}
use ragrep.CodeStore.LiveFiles.InStep.{
  forgotten, indexed, stored, SameSymbols, stored-files, stored-SameSymbols, stored-IsLiveInStep,
}

module _ {Vector Blob : Type 0} (env : CodeEnv Vector Blob) (to_slash : Text → Text) where
  pub nop-Leads : (db t : CodeDb Blob) → nop env to_slash db ≡ ok t → db ≡ t
  unfolding nop
  nop-Leads db t h = run_statement-Leads env (λ d. d) db t h

  forget_old-Leads :
      (o : Option LiveFile) (db t : CodeDb Blob)
      → forget_old env to_slash o db ≡ ok t
      → forgotten o db ≡ t
  unfolding forget_old
  forget_old-Leads none db t = ok_injective
  forget_old-Leads (some old) db t = go old.deleted refl
    where
      go :
          (b : Bool)
          → old.deleted ≡ b
          → ◌≡◌ {A = Result Text (CodeDb Blob)}
              (if b then ok db else run_statement env (live_fts_delete old.path old.body) db)
              (ok t)
          → (if b then db else live_fts_delete old.path old.body db) ≡ t
      go true d h = ok_injective h
      go false d h = run_statement-Leads env (live_fts_delete old.path old.body) db t h

  index_live-Leads :
      (file : LiveFile) (db t : CodeDb Blob)
      → index_live env to_slash file db ≡ ok t
      → indexed file.deleted file db ≡ t
  unfolding index_live
  index_live-Leads file db t = go file.deleted
    where
      go :
          (b : Bool)
          → ◌≡◌ {A = Result Text (CodeDb Blob)}
              ((if b
                  then nop env to_slash
                  else nop env to_slash
                    >>> run_statement env (live_fts_insert file.path file.body)
                    >>> nop env to_slash)
                db)
              (ok t)
          → indexed b file db ≡ t
      go true h = nop-Leads db t h
      go false h =
          let insert = run_statement env (live_fts_insert file.path file.body) in
          let b = >>>-Leads (nop env to_slash >>> insert) (nop env to_slash) db t h in
          let a = >>>-Leads (nop env to_slash) insert db b.0 b.1 in
          subst (λ d. live_fts_insert file.path file.body d ≡ t) (sym (nop-Leads db a.0 a.1))
            (run_statement-Leads env (live_fts_insert file.path file.body) a.0 b.0 a.2
              ∙ nop-Leads b.0 t b.2)

  pub put_live_tx-Leads :
      (file : LiveFile) (db t : CodeDb Blob)
      → put_live_tx env to_slash file db ≡ ok t
      → stored file db ≡ t
  unfolding put_live_tx
  put_live_tx-Leads file db t h =
      let forget : CodeDb Blob → Result Text (CodeDb Blob) =
        λ d. forget_old env to_slash (find_live file.path d.live_files) d in
      let n = nop env to_slash in
      let put = run_statement env (put_row file) in
      let d = >>>-Leads (n >>> n >>> forget >>> put) (index_live env to_slash file) db t h in
      let c = >>>-Leads (n >>> n >>> forget) put db d.0 d.1 in
      let b = >>>-Leads (n >>> n) forget db c.0 c.1 in
      let a = >>>-Leads n n db b.0 b.1 in
      let e1 : db ≡ b.0 = nop-Leads db a.0 a.1 ∙ nop-Leads a.0 b.0 a.2 in
      let e2 : forgotten (find_live file.path db.live_files) db ≡ c.0 =
        subst (λ u. forgotten (find_live file.path u.live_files) u ≡ c.0) (sym e1)
          (forget_old-Leads (find_live file.path b.0.live_files) b.0 c.0 b.2) in
      ap (indexed file.deleted file)
        (ap (put_row file) e2 ∙ run_statement-Leads env (put_row file) c.0 d.0 c.2)
      ∙ index_live-Leads file d.0 t d.2

  -- The file with a path of slashes.
  abbrev pub slashed : LiveFile → LiveFile
  slashed file = record file { path = to_slash file.path }

  -- A file is put as a whole: an error leaves the tables as they were, and without one the path has
  -- exactly the given overlay, every other path the overlay it had, and the symbols, their indices,
  -- the edges and the runs are untouched.
  pub put_live_file_row-finally :
      (file : LiveFile) (db : CodeDb Blob)
      → ((e : Text) × (put_live_file_row env to_slash file db ≡ (db, err (database e))))
        ⊎ ((t : CodeDb Blob) × (put_live_file_row env to_slash file db ≡ (t, ok tt))
            × ((p : Text)
                → find_live p t.live_files ≡ (
                    if text_eq (to_slash file.path) p
                    then some (slashed file)
                    else find_live p db.live_files))
            × SameSymbols db t)
  unfolding put_live_file_row
  put_live_file_row-finally file db =
      finally-cases database tt (put_live_tx env to_slash (slashed file)) db
        (λ r.
          ((e : Text) × (r ≡ (db, err (database e))))
          ⊎ ((t : CodeDb Blob) × (r ≡ (t, ok tt))
              × ((p : Text)
                  → find_live p t.live_files ≡ (
                      if text_eq (to_slash file.path) p
                      then some (slashed file)
                      else find_live p db.live_files))
              × SameSymbols db t))
        (λ e. inl (e, refl))
        (λ t h.
          let done = put_live_tx-Leads (slashed file) db t h in
          inr (
            t,
            refl,
            (λ p. ap (λ u. find_live p u.live_files) (sym done) ∙ stored-files (slashed file) db p),
            subst (SameSymbols db) done (stored-SameSymbols (slashed file) db),
          ))

  pub put_live_file_row-IsLiveInStep :
      (file : LiveFile) (db : CodeDb Blob)
      → IsLiveInStep db
      → IsLiveInStep (put_live_file_row env to_slash file db).0
  unfolding put_live_file_row
  put_live_file_row-IsLiveInStep file db inv =
      finally-cases database tt (put_live_tx env to_slash (slashed file)) db (λ r. IsLiveInStep r.0)
        (λ e. inv)
        (λ t h.
          subst IsLiveInStep (put_live_tx-Leads (slashed file) db t h)
            (stored-IsLiveInStep (slashed file) db inv))
