-- ===== src/CodeStore/Upsert/Sound.antt =====
-- UpsertSymbols and DeleteSymbolsForPath as wholes.
use ragrep.Common.{
  ℕ, ◌≡◌, refl, sym, subst, Text, text_eq, text_eq_iff, Bool, true, false, not, ◌&&◌, List, [], ◌∷◌,
  is_empty, select-In, select_key-IsNodup, find-In, Option, none, some, inl, inr, All, In, IsNodup,
  Bool-cases, if◌then◌else◌, Result, ok, err, each, ◌>>>◌, >>>-Leads, finally, finally-cases,
}
use ragrep.CodeIndex.{Symbol}
use ragrep.CodeStore.{StoreError, database}
use ragrep.CodeStore.Tables.{SymbolRow, CodeDb, find_key, existing_symbol_rows}
use ragrep.CodeStore.Tables.Rows.{IsInStep, find_id-In}
use ragrep.CodeStore.Upsert.{
  CodeEnv, run_statement, has_key, all_same, drop_absent, write_symbol, write_symbols,
  upsert_symbols,
}
use ragrep.CodeStore.Upsert.Steps.{run_statement-Leads}
use ragrep.CodeStore.Upsert.Drops.{symbol_keys, Stands, Awaits, IsFresh, dropped-IsInStep}
use ragrep.CodeStore.Upsert.Rounds.{written-IsInStep}

pub has_key_here :
    (symbols : List Symbol) (s : Symbol) → In s symbols → has_key s.key symbols ≡ true
unfolding has_key
has_key_here [] s i = absurd i
has_key_here (x ∷ xs) s (inl e) = rw (e, (text_eq_iff s.key s.key).1 refl) refl
has_key_here (x ∷ xs) s (inr i) = elim (Bool-cases (text_eq x.key s.key)) [
  | inl e ↦ rw (e) refl
  | inr e ↦ rw (e) (has_key_here xs s i)
]

module _ {Blob : Type 0} where
  -- Every row is found by its id.
  pub rows-Stands :
      (db : CodeDb Blob)
      → IsInStep db
      → (rows : List SymbolRow) → ((row : SymbolRow) → In row rows → In row db.symbols)
      → All (Stands db.symbols) rows
  rows-Stands db inv [] sub = tt
  rows-Stands db inv (r ∷ rows) sub = (
    find_id-In db.symbols r inv.ids (sub r (inl refl)),
    rows-Stands db inv rows (λ row i. sub row (inr i)),
  )

module _ {Vector Blob : Type 0} (env : CodeEnv Vector Blob) where
  pub write_symbols-Leads :
      (file_hash : Text) (run : ℕ) (existing : List SymbolRow) (symbols : List Symbol)
      (db t : CodeDb Blob)
      → write_symbols env file_hash run existing symbols db ≡ ok t
      → (u : CodeDb Blob) × (each (drop_absent env symbols) existing db ≡ ok u)
        × (each (write_symbol env file_hash run existing) symbols u ≡ ok t)
  unfolding write_symbols
  write_symbols-Leads file_hash run existing symbols db t h =
      let nop = run_statement env (λ d. d) in
      let drop = each (drop_absent env symbols) existing in
      let write = each (write_symbol env file_hash run existing) symbols in
      let c = >>>-Leads (nop >>> drop >>> write) nop db t h in
      let b = >>>-Leads (nop >>> drop) write db c.0 c.1 in
      let a = >>>-Leads nop drop db b.0 b.1 in
      let e1 = run_statement-Leads env (λ d. d) db a.0 a.1 in
      let e2 = run_statement-Leads env (λ d. d) c.0 t c.2 in
      (b.0, subst (λ d. drop d ≡ ok b.0) (sym e1) a.2, subst (λ d. write b.0 ≡ ok d) e2 b.2)

  pub write_symbols-IsInStep :
      (path file_hash : Text) (run : ℕ) (symbols : List Symbol) (db t : CodeDb Blob)
      → IsFresh env
      → IsNodup (symbol_keys symbols)
      → IsInStep db
      → write_symbols env file_hash run (existing_symbol_rows path db.symbols) symbols db ≡ ok t
      → IsInStep t
  unfolding existing_symbol_rows find_key
  write_symbols-IsInStep path file_hash run symbols db t fresh distinct inv h =
      let existing = existing_symbol_rows path db.symbols in
      let here = select-In (λ row. text_eq row.symbol.path path) db.symbols in
      let two = write_symbols-Leads file_hash run existing symbols db t h in
      let dropped =
        dropped-IsInStep env symbols existing db two.0 inv
          (select_key-IsNodup (λ r. r.id) (λ row. text_eq row.symbol.path path) db.symbols inv.ids)
          (rows-Stands db inv existing here) two.1 in
      let awaits : (s : Symbol) → In s symbols → Awaits existing two.0.symbols s = λ s i old e.
        let found = find-In (λ row. text_eq row.symbol.key s.key) existing e in
        dropped.1 old (find_id-In db.symbols old inv.ids (here old found.0)) (
          subst (λ k. has_key k symbols ≡ true) (sym ((text_eq_iff old.symbol.key s.key).0 found.1))
            (has_key_here symbols s i)) in
      written-IsInStep env file_hash run existing symbols two.0 t fresh dropped.0 distinct
        (all symbols (λ s i. i) two.0.symbols existing awaits) two.2
    where
      all :
          (rest : List Symbol)
          → ((s : Symbol) → In s rest → In s symbols)
          → (rows existing : List SymbolRow)
          → ((s : Symbol) → In s symbols → Awaits existing rows s)
          → All (Awaits existing rows) rest
      all [] sub rows existing f = tt
      all (x ∷ xs) sub rows existing f =
          (f x (sub x (inl refl)), all xs (λ s i. sub s (inr i)) rows existing f)

  abbrev pub is_current : Text → List SymbolRow → Bool
  is_current file_hash existing = not (is_empty existing) && all_same file_hash existing

  -- The three ways an upsert ends.
  pub upsert_symbols-cases :
      (path file_hash : Text) (symbols : List Symbol) (run : ℕ) (db : CodeDb Blob)
      (P : CodeDb Blob × Result {0, 0} StoreError Bool → Type 0)
      → ((e : Text) → P (db, err (database e)))
      → (is_current file_hash (existing_symbol_rows path db.symbols) ≡ true → P (db, ok false))
      → ((t : CodeDb Blob)
          → is_current file_hash (existing_symbol_rows path db.symbols) ≡ false
          → write_symbols env file_hash run (existing_symbol_rows path db.symbols) symbols db ≡ ok t
          → P (t, ok true))
      → P (upsert_symbols env path file_hash symbols run db)
  unfolding upsert_symbols
  upsert_symbols-cases path file_hash symbols run db P failed same done = go (env.fault db)
    where
      inner :
          (b : Bool)
          → is_current file_hash (existing_symbol_rows path db.symbols) ≡ b
          → P (
              if b
              then (db, ok false)
              else finally database true
                  (write_symbols env file_hash run (existing_symbol_rows path db.symbols) symbols)
                  db)
      inner true e = same e
      inner false e =
          finally-cases database true
            (write_symbols env file_hash run (existing_symbol_rows path db.symbols) symbols) db P
            failed (λ t h. done t e h)

      go :
          (o : Option Text)
          → P (elim o [
            | some e ↦ (db, err (database e))
            | none ↦
                if is_current file_hash (existing_symbol_rows path db.symbols)
                then (db, ok false)
                else finally database true
                    (write_symbols env file_hash run (existing_symbol_rows path db.symbols) symbols)
                    db
          ])
      go (some e) = failed e
      go none = inner (is_current file_hash (existing_symbol_rows path db.symbols)) refl

  -- However an upsert of symbols with distinct keys ends, ids and keys in the table stay distinct,
  -- and every row has exactly its own columns in the text index and one vector, under its id, and
  -- nothing else has either. A new rowid is one not in use.
  pub upsert_symbols-IsInStep :
      (path file_hash : Text) (symbols : List Symbol) (run : ℕ) (db : CodeDb Blob)
      → IsFresh env
      → IsNodup (symbol_keys symbols)
      → IsInStep db
      → IsInStep (upsert_symbols env path file_hash symbols run db).0
  upsert_symbols-IsInStep path file_hash symbols run db fresh distinct inv =
      upsert_symbols-cases path file_hash symbols run db (λ r. IsInStep r.0) (λ e. inv) (λ k. inv)
        (λ t k h. write_symbols-IsInStep path file_hash run symbols db t fresh distinct inv h)
