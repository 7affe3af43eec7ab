-- ===== src/CodeStore/Upsert/Rounds.antt =====
-- symbols.go: the second loop of UpsertSymbols, which writes the given symbols.
use ragrep.Common.{
  ℕ, ◌≡◌, ◌≢◌, refl, sym, ap, subst, ◌∙◌, ◌==◌, ==_iff, Text, text_eq, text_eq_iff, Bool, true,
  false, List, [], ◌∷◌, ◌++◌, find-In, find-append, some_injective, Option, none, some, inl, inr,
  All, In, IsNodup, Bool-cases, if◌then◌else◌, Result, ok, each, >>>-Leads,
}
use ragrep.CodeIndex.{Symbol}
use ragrep.CodeStore.Tables.{
  SymbolRow, CodeDb, columns, find_key, fts_delete, fts_insert, vec_delete, vec_insert, row_insert,
  row_update,
}
use ragrep.CodeStore.Tables.Rows.{find_id, has, ids_of, keys_of, IsInStep, find_key-none}
use ragrep.CodeStore.Upsert.{CodeEnv, insert_symbol, update_symbol, write_symbol, key_taken}
use ragrep.CodeStore.Upsert.Steps.{updated, new_row, insert_symbol-Leads, update_symbol-Leads}
use ragrep.CodeStore.Upsert.InStep.{
  changed_row, find_id-changed, inserted-IsInStep, updated-IsInStep, revectored-IsInStep,
}
use ragrep.CodeStore.Upsert.Drops.{symbol_keys, Stands, Awaits, IsFresh, ok_injective}

module _ {Vector Blob : Type 0} (env : CodeEnv Vector Blob) where
  -- The symbols of the further rounds keep their rows.
  pub insert-keeps :
      (file_hash : Text) (run : ℕ) (existing : List SymbolRow) (s : Symbol) (rest : List Symbol)
      (db t : CodeDb Blob)
      → IsFresh env
      → IsInStep db
      → All (Awaits existing db.symbols) rest
      → insert_symbol env file_hash run s db ≡ ok t
      → IsInStep t × All (Awaits existing t.symbols) rest
  unfolding key_taken fts_insert vec_insert row_insert columns
  insert-keeps file_hash run existing s rest db t fresh inv all h =
      let made = insert_symbol-Leads env file_hash run s db t h in
      let row = new_row env file_hash run s db in
      subst (λ u. IsInStep u × All (Awaits existing u.symbols) rest) made.3
        (
          inserted-IsInStep row s made.0 db inv (fresh (ids_of db.symbols))
              (new_key (find_key s.key db.symbols) refl made.2) refl,
          others rest all,
        )
    where
      new_key :
          (o : Option SymbolRow)
          → find_key s.key db.symbols ≡ o
          → ◌≡◌ {A = Bool} (elim o [ none ↦ false | some _ ↦ true ]) false
          → ¬ (In s.key (keys_of db.symbols))
      new_key none e k = find_key-none s.key db.symbols e
      new_key (some r) e k = cc

      others :
          (syms : List Symbol)
          → All (Awaits existing db.symbols) syms
          → All (Awaits existing (db.symbols ++ new_row env file_hash run s db ∷ [])) syms
      others [] a = tt
      others (x ∷ xs) a = (
        λ old e.
            find-append (λ r. r.id == old.id) db.symbols (new_row env file_hash run s db ∷ [])
              (a.0 old e),
        others xs a.1,
      )

  find_key-key :
      (key : Text) (rows : List SymbolRow) (row : SymbolRow)
      → find_key key rows ≡ some row
      → row.symbol.key ≡ key
  unfolding find_key
  find_key-key key rows row h =
      (text_eq_iff row.symbol.key key).0 (find-In (λ r. text_eq r.symbol.key key) rows h).1

  update-keeps :
      (file_hash : Text) (run : ℕ) (existing : List SymbolRow) (old : SymbolRow) (s : Symbol)
      (rest : List Symbol) (db t : CodeDb Blob)
      → IsInStep db
      → All (λ key. key ≢ s.key) (symbol_keys rest)
      → find_key s.key existing ≡ some old
      → Stands db.symbols old
      → All (Awaits existing db.symbols) rest
      → update_symbol env file_hash run old s db ≡ ok t
      → IsInStep t × All (Awaits existing t.symbols) rest
  unfolding fts_insert fts_delete vec_insert vec_delete row_update columns
  update-keeps file_hash run existing old s rest db t inv away mine here all h =
      let new = updated file_hash run old s db in
      let step = updated-IsInStep file_hash run old s db inv here in
      let f = changed_row s file_hash run in
      let rows : (n : ℕ)
          → find_id n new.symbols ≡ (if old.id == n then some (f old) else find_id n db.symbols) =
        λ n. find_id-changed old.id n old (f old) db.symbols here f (λ r. refl) refl in
      let others = later new.symbols rows rest away all in
      elim (update_symbol-Leads env file_hash run old s db t h) [
        | inl (k, e) ↦
            subst (λ u. IsInStep u × All (Awaits existing u.symbols) rest) e (step, others)
        | inr (k, (blob, e1, e)) ↦
            subst (λ u. IsInStep u × All (Awaits existing u.symbols) rest) e
              (
                revectored-IsInStep old.id blob new step
                    (there (old.id == old.id) ((==_iff old.id old.id).1 refl) (rows old.id)),
                others,
              )
      ]
    where
      there :
          {o : Option SymbolRow} (b : Bool)
          → b ≡ true
          → o ≡ (if b then some (changed_row s file_hash run old) else find_id old.id db.symbols)
          → has o ≡ true
      there true e h = ap has h
      there false e h = cc

      later :
          (changed : List SymbolRow)
          → ((n : ℕ)
              → find_id n changed ≡ (
                  if old.id == n
                  then some (changed_row s file_hash run old)
                  else find_id n db.symbols))
          → (syms : List Symbol) → All (λ key. key ≢ s.key) (symbol_keys syms)
          → All (Awaits existing db.symbols) syms
          → All (Awaits existing changed) syms
      later changed rows [] a w = tt
      later changed rows (x ∷ xs) a w = (
        λ other e. elim (Bool-cases (old.id == other.id)) [
          | inl k ↦
              let same : old ≡ other = some_injective (
                sym here
                ∙ ap (λ n. find_id n db.symbols) ((==_iff old.id other.id).0 k)
                ∙ w.0 other e) in
              absurd (
                a.0 (
                  sym (find_key-key x.key existing other e)
                  ∙ ap (λ r. r.symbol.key) (sym same)
                  ∙ find_key-key s.key existing old mine))
          | inr k ↦ rw (rows other.id, k) (w.0 other e)
        ],
        later changed rows xs a.1 w.1,
      )

  pub written-IsInStep :
      (file_hash : Text) (run : ℕ) (existing : List SymbolRow) (symbols : List Symbol)
      (db t : CodeDb Blob)
      → IsFresh env
      → IsInStep db
      → IsNodup (symbol_keys symbols)
      → All (Awaits existing db.symbols) symbols
      → each (write_symbol env file_hash run existing) symbols db ≡ ok t
      → IsInStep t
  unfolding each write_symbol
  written-IsInStep file_hash run existing [] db t fresh inv d all h =
      subst IsInStep (ok_injective h) inv
  written-IsInStep file_hash run existing (s ∷ rest) db t fresh inv d all h =
      let step =
        >>>-Leads (write_symbol env file_hash run existing s)
          (each (write_symbol env file_hash run existing) rest) db t h in
      let first = go step.0 (find_key s.key existing) refl step.1 in
      written-IsInStep file_hash run existing rest step.0 t fresh first.0 d.1 first.1 step.2
    where
      go :
          (u : CodeDb Blob) (o : Option SymbolRow)
          → find_key s.key existing ≡ o
          → ◌≡◌ {A = Result Text (CodeDb Blob)}
              ((elim o as (λ _. CodeDb Blob → Result Text (CodeDb Blob)) [
                | none ↦ insert_symbol env file_hash run s
                | some old ↦ update_symbol env file_hash run old s
              ])
                db)
              (ok u)
          → IsInStep u × All (Awaits existing u.symbols) rest
      go u none e k = insert-keeps file_hash run existing s rest db u fresh inv all.1 k
      go u (some old) e k =
          update-keeps file_hash run existing old s rest db u inv d.0 e (all.0 old e) all.1 k
