-- ===== src/CodeStore/Upsert/Frame.antt =====
-- symbols.go: the writes of symbols, and the tables they are not for.
use ragrep.Common.{
  ℕ, ◌≡◌, refl, sym, subst, ◌∙◌, Text, text_eq, Bool, true, false, List, [], is_empty, select-In,
  select_key-IsNodup, Option, none, some, inl, inr, if◌then◌else◌, Result, ok, err, ◌>>>◌,
  >>>-Leads, each, each-keeps, finally, finally-cases,
}
use ragrep.CodeIndex.{Symbol}
use ragrep.CodeStore.{StoreError, database}
use ragrep.CodeStore.Tables.{
  SymbolRow, CodeDb, find_key, existing_symbol_rows, fts_delete, fts_insert, vec_delete, vec_insert,
  edges_delete, row_delete, row_insert, row_update,
}
use ragrep.CodeStore.Tables.Rows.{IsInStep}
use ragrep.CodeStore.Upsert.{
  CodeEnv, run_statement, has_key, delete_symbol_row, drop_absent, insert_symbol, update_symbol,
  write_symbol, upsert_symbols, delete_symbols_for_path,
}
use ragrep.CodeStore.Upsert.Steps.{
  run_statement-Leads, delete_symbol_row-Leads, insert_symbol-Leads, update_symbol-Leads,
}
use ragrep.CodeStore.Upsert.Drops.{dropped-IsInStep, drop_absent-Leads}
use ragrep.CodeStore.Upsert.Sound.{rows-Stands, write_symbols-Leads, upsert_symbols-cases}

module _ {Blob : Type 0} where
  -- What belongs to unsaved files, and the runs, are the same.
  abbrev pub SameFiles : CodeDb Blob → CodeDb Blob → Type 0
  SameFiles db t =
      (t.live_files ≡ db.live_files) × (t.live_fts ≡ db.live_fts) × (t.index_runs ≡ db.index_runs)

  pub SameFiles-trans : (a b c : CodeDb Blob) → SameFiles a b → SameFiles b c → SameFiles a c
  SameFiles-trans a b c x y = (y.0 ∙ x.0, y.1 ∙ x.1, y.2 ∙ x.2)

module _ {Vector Blob : Type 0} (env : CodeEnv Vector Blob) where
  pub delete_symbol_row-SameFiles :
      (old : SymbolRow) (db t : CodeDb Blob) → delete_symbol_row env old db ≡ ok t → SameFiles db t
  unfolding fts_delete vec_delete edges_delete row_delete
  delete_symbol_row-SameFiles old db t h =
      subst (SameFiles db) (delete_symbol_row-Leads env old db t h) (refl, refl, refl)

  drop_absent-SameFiles :
      (symbols : List Symbol) (old : SymbolRow) (db t : CodeDb Blob)
      → drop_absent env symbols old db ≡ ok t
      → SameFiles db t
  unfolding fts_delete vec_delete edges_delete row_delete
  drop_absent-SameFiles symbols old db t h = elim (drop_absent-Leads env symbols old db t h) [
    | inl (k, e) ↦ subst (SameFiles db) e (refl, refl, refl)
    | inr (k, e) ↦ subst (SameFiles db) e (refl, refl, refl)
  ]

  write_symbol-SameFiles :
      (file_hash : Text) (run : ℕ) (existing : List SymbolRow) (s : Symbol) (db t : CodeDb Blob)
      → write_symbol env file_hash run existing s db ≡ ok t
      → SameFiles db t
  unfolding write_symbol fts_delete fts_insert vec_delete vec_insert row_insert row_update
  write_symbol-SameFiles file_hash run existing s db t = go (find_key s.key existing)
    where
      go :
          (o : Option SymbolRow)
          → ◌≡◌ {A = Result Text (CodeDb Blob)}
              ((elim o as (λ _. CodeDb Blob → Result Text (CodeDb Blob)) [
                | none ↦ insert_symbol env file_hash run s
                | some old ↦ update_symbol env file_hash run old s
              ])
                db)
              (ok t)
          → SameFiles db t
      go none h =
          subst (SameFiles db) (insert_symbol-Leads env file_hash run s db t h).3 (refl, refl, refl)
      go (some old) h = elim (update_symbol-Leads env file_hash run old s db t h) [
        | inl (k, e) ↦ subst (SameFiles db) e (refl, refl, refl)
        | inr (k, (blob, e1, e)) ↦ subst (SameFiles db) e (refl, refl, refl)
      ]

  pub each-SameFiles :
      {A : Type 0} (run : A → CodeDb Blob → Result Text (CodeDb Blob))
      → ((x : A) (db t : CodeDb Blob) → run x db ≡ ok t → SameFiles db t)
      → (xs : List A) (db t : CodeDb Blob) → each run xs db ≡ ok t
      → SameFiles db t
  each-SameFiles run keep xs db t h =
      each-keeps (SameFiles db) run (λ x u v s e. SameFiles-trans db u v s (keep x u v e)) xs db t
        (refl, refl, refl) h

  pub upsert_symbols-SameFiles :
      (path file_hash : Text) (symbols : List Symbol) (run : ℕ) (db : CodeDb Blob)
      → SameFiles db (upsert_symbols env path file_hash symbols run db).0
  upsert_symbols-SameFiles path file_hash symbols run db =
      let existing = existing_symbol_rows path db.symbols in
      upsert_symbols-cases env path file_hash symbols run db (λ r. SameFiles db r.0)
        (λ e. (refl, refl, refl)) (λ k. (refl, refl, refl))
        (λ t k h.
          let two = write_symbols-Leads env file_hash run existing symbols db t h in
          SameFiles-trans db two.0 t
            (each-SameFiles (drop_absent env symbols) (drop_absent-SameFiles symbols) existing db
              two.0 two.1)
            (each-SameFiles (write_symbol env file_hash run existing)
              (write_symbol-SameFiles file_hash run existing) symbols two.0 t two.2))

  -- The loop of a prune deletes every row, as an upsert of no symbols does.
  pub pruned-IsInStep :
      (path : Text) (db t : CodeDb Blob)
      → IsInStep db
      → each (delete_symbol_row env) (existing_symbol_rows path db.symbols) db ≡ ok t
      → IsInStep t
  unfolding existing_symbol_rows drop_absent has_key
  pruned-IsInStep path db t inv h =
      let existing = existing_symbol_rows path db.symbols in
      (dropped-IsInStep env [] existing db t inv
        (select_key-IsNodup (λ r. r.id) (λ row. text_eq row.symbol.path path) db.symbols inv.ids)
        (rows-Stands db inv existing (select-In (λ row. text_eq row.symbol.path path) db.symbols))
        h).0

  pub delete_symbols_for_path-cases :
      (path : Text) (db : CodeDb Blob) (P : CodeDb Blob × Result {0, 0} StoreError Unit → Type 0)
      → ((e : Text) → P (db, err (database e)))
      → (is_empty (existing_symbol_rows path db.symbols) ≡ true → P (db, ok tt))
      → ((t : CodeDb Blob)
          → each (delete_symbol_row env) (existing_symbol_rows path db.symbols) db ≡ ok t
          → P (t, ok tt))
      → P (delete_symbols_for_path env path db)
  unfolding delete_symbols_for_path
  delete_symbols_for_path-cases path db P failed same done = go (env.fault db)
    where
      existing : List SymbolRow
      existing = existing_symbol_rows path db.symbols

      tx : CodeDb Blob → Result Text (CodeDb Blob)
      tx =
          run_statement env (λ t. t)
          >>> each (delete_symbol_row env) existing
          >>> run_statement env (λ t. t)

      inner :
          (b : Bool)
          → is_empty existing ≡ b
          → P (if b then (db, ok tt) else finally database tt tx db)
      inner true e = same e
      inner false e = finally-cases database tt tx db P failed (λ t h.
          let nop = run_statement env (λ d. d) in
          let b = >>>-Leads (nop >>> each (delete_symbol_row env) existing) nop db t h in
          let a = >>>-Leads nop (each (delete_symbol_row env) existing) db b.0 b.1 in
          done t (
            subst (λ d. each (delete_symbol_row env) existing d ≡ ok t)
              (sym (run_statement-Leads env (λ d. d) db a.0 a.1))
              (subst (λ d. each (delete_symbol_row env) existing a.0 ≡ ok d)
                (run_statement-Leads env (λ d. d) b.0 t b.2) a.2)))

      go :
          (o : Option Text)
          → P (elim o [
            | some e ↦ (db, err (database e))
            | none ↦ if is_empty existing then (db, ok tt) else finally database tt tx db
          ])
      go (some e) = failed e
      go none = inner (is_empty existing) refl
