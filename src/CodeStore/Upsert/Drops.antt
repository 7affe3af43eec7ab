-- ===== src/CodeStore/Upsert/Drops.antt =====
-- symbols.go: the first loop of UpsertSymbols, which deletes the rows whose keys are gone.
use ragrep.Common.{
  ℕ, ◌≡◌, ◌≢◌, refl, sym, ap, subst, ◌∙◌, ◌==◌, ==_iff, Text, Bool, true, false, List, [], ◌∷◌, map,
  some_injective, some, inl, inr, ◌⊎◌, All, In, IsNodup, Bool-cases, if◌then◌else◌, Result, ok,
  each, >>>-Leads,
}
use ragrep.CodeIndex.{Symbol}
use ragrep.CodeStore.Tables.{
  SymbolRow, CodeDb, find_key, fts_delete, vec_delete, edges_delete, row_delete,
}
use ragrep.CodeStore.Tables.Rows.{find_id, ids_of, IsInStep, find_id-select}
use ragrep.CodeStore.Upsert.{CodeEnv, has_key, drop_absent, delete_symbol_row}
use ragrep.CodeStore.Upsert.Steps.{deleted, delete_symbol_row-Leads}
use ragrep.CodeStore.Upsert.InStep.{deleted-IsInStep}

abbrev pub symbol_keys : List Symbol → List Text
symbol_keys = map (λ s. s.key)

-- A row that stands in the table as it is.
abbrev pub Stands : List SymbolRow → SymbolRow → Type 0
Stands rows row = find_id row.id rows ≡ some row

-- The rows that the symbols will update still stand.
abbrev pub Awaits : List SymbolRow → List SymbolRow → Symbol → Type 0
Awaits existing rows s = (old : SymbolRow) → find_key s.key existing ≡ some old → Stands rows old

abbrev pub IsFresh : {Vector Blob : Type 0} → CodeEnv Vector Blob → Type 0
IsFresh env = (ids : List ℕ) → ¬ (In (env.new_rowid ids) ids)

-- The rows of the given keys are where they were.
abbrev pub Kept : {Blob : Type 0} → List Symbol → CodeDb Blob → CodeDb Blob → Type 0
Kept symbols db t =
    (row : SymbolRow)
    → Stands db.symbols row
    → has_key row.symbol.key symbols ≡ true
    → Stands t.symbols row

pub ok_injective : {A : Type 0} {x y : A} → ◌≡◌ {A = Result Text A} (ok x) (ok y) → x ≡ y
ok_injective h = cc

module _ {Vector Blob : Type 0} (env : CodeEnv Vector Blob) where
  past :
      (old : SymbolRow) (db : CodeDb Blob) (row : SymbolRow)
      → row.id ≢ old.id
      → Stands db.symbols row
      → Stands (deleted old db).symbols row
  unfolding fts_delete vec_delete edges_delete row_delete
  past old db row away h = elim (Bool-cases (old.id == row.id)) [
    | inl e ↦ absurd (away (sym ((==_iff old.id row.id).0 e)))
    | inr e ↦ rw (find_id-select old.id row.id db.symbols, e) h
  ]

  pub drop_absent-Leads :
      (symbols : List Symbol) (old : SymbolRow) (db t : CodeDb Blob)
      → drop_absent env symbols old db ≡ ok t
      → ((has_key old.symbol.key symbols ≡ true) × (db ≡ t))
        ⊎ ((has_key old.symbol.key symbols ≡ false) × (deleted old db ≡ t))
  unfolding drop_absent
  drop_absent-Leads symbols old db t = go (has_key old.symbol.key symbols) refl
    where
      go :
          (b : Bool)
          → has_key old.symbol.key symbols ≡ b
          → ◌≡◌ {A = Result Text (CodeDb Blob)}
              (if b then ok db else delete_symbol_row env old db)
              (ok t)
          → ((has_key old.symbol.key symbols ≡ true) × (db ≡ t))
            ⊎ ((has_key old.symbol.key symbols ≡ false) × (deleted old db ≡ t))
      go true e h = inl (e, ok_injective h)
      go false e h = inr (e, delete_symbol_row-Leads env old db t h)

  drop_absent-keeps :
      (symbols : List Symbol) (old : SymbolRow) (rest : List SymbolRow) (db t : CodeDb Blob)
      → IsInStep db
      → All (λ n. n ≢ old.id) (ids_of rest)
      → Stands db.symbols old
      → All (Stands db.symbols) rest
      → drop_absent env symbols old db ≡ ok t
      → IsInStep t × All (Stands t.symbols) rest × Kept symbols db t
  drop_absent-keeps symbols old rest db t inv away here all h =
      elim (drop_absent-Leads symbols old db t h) [
        | inl (k, e) ↦
            subst (λ u. IsInStep u × All (Stands u.symbols) rest × Kept symbols db u) e
              (inv, all, λ row s q. s)
        | inr (k, e) ↦
            subst (λ u. IsInStep u × All (Stands u.symbols) rest × Kept symbols db u) e
              (
                deleted-IsInStep old db inv here,
                others rest away all,
                λ row s q. past old db row (λ i. other row s q k i) s,
              )
      ]
    where
      others :
          (rows : List SymbolRow)
          → All (λ n. n ≢ old.id) (ids_of rows)
          → All (Stands db.symbols) rows
          → All (Stands (deleted old db).symbols) rows
      others [] a s = tt
      others (r ∷ rows) a s = (past old db r a.0 s.0, others rows a.1 s.1)

      other :
          (row : SymbolRow)
          → Stands db.symbols row
          → has_key row.symbol.key symbols ≡ true
          → has_key old.symbol.key symbols ≡ false
          → ¬ (row.id ≡ old.id)
      other row s q k i =
          let same : row ≡ old = some_injective (sym s ∙ ap (λ n. find_id n db.symbols) i ∙ here) in
          cc (same, q, k)

  pub dropped-IsInStep :
      (symbols : List Symbol) (rest : List SymbolRow) (db t : CodeDb Blob)
      → IsInStep db
      → IsNodup (ids_of rest)
      → All (Stands db.symbols) rest
      → each (drop_absent env symbols) rest db ≡ ok t
      → IsInStep t × Kept symbols db t
  unfolding each
  dropped-IsInStep symbols [] db t inv d all h =
      subst (λ u. IsInStep u × Kept symbols db u) (ok_injective h) (inv, λ row s k. s)
  dropped-IsInStep symbols (old ∷ rest) db t inv d all h =
      let step =
        >>>-Leads (drop_absent env symbols old) (each (drop_absent env symbols) rest) db t h in
      let first = drop_absent-keeps symbols old rest db step.0 inv d.0 all.0 all.1 step.1 in
      let more = dropped-IsInStep symbols rest step.0 t first.0 d.1 first.1 step.2 in
      (more.0, λ row s k. more.1 row (first.2 row s k) k)
