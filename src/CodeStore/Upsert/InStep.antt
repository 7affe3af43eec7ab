-- ===== src/CodeStore/Upsert/InStep.antt =====
-- symbols.go: each write on symbols, and the indices.
use ragrep.Common.{
  ℕ, ◌≡◌, refl, sym, ap, subst, ◌∙◌, ◌==◌, ==_iff, Text, true, not, List, [], ◌∷◌, map, map-append,
  select_key-IsNodup, Option, none, some, inl, inr, In, IsNodup, IsNodup-snoc, Bool-cases,
  if◌then◌else◌,
}
use ragrep.CodeIndex.{Symbol}
use ragrep.CodeStore.Tables.{
  SymbolRow, CodeDb, columns, posting, take_out, assign, fts_delete, fts_insert, vec_delete,
  vec_insert, edges_delete, row_delete, row_insert, row_update,
}
use ragrep.CodeStore.Tables.Rows.{
  find_id, has, ids_of, keys_of, IsInStep, find_id-select, find_id-map, find_id-snoc, find_id-none,
  take_out_self, assign_same,
}
use ragrep.CodeStore.Upsert.Steps.{deleted, inserted, updated}

pub find_id-changed :
    (k n : ℕ) (old new : SymbolRow) (rows : List SymbolRow)
    → find_id k rows ≡ some old
    → (f : SymbolRow → SymbolRow) → ((row : SymbolRow) → (f row).id ≡ row.id)
    → f old ≡ new
    → find_id n (map (λ row. if row.id == k then f row else row) rows)
      ≡ (if k == n then some new else find_id n rows)
find_id-changed k n old new rows found f same changed = elim (Bool-cases (k == n)) [
  | inl e ↦
      let here = (==_iff k n).0 e in
      rw (find_id-map k n f rows same, e)
        (subst
          (λ o.
            ◌≡◌ {A = Option SymbolRow} (elim o [ none ↦ none | some row ↦ some (f row) ])
              (some new))
          (sym (subst (λ m. find_id m rows ≡ some old) here found)) (ap some changed))
  | inr e ↦ rw (find_id-map k n f rows same, e) refl
]

-- The columns of a changed row.
abbrev pub changed_row : Symbol → Text → ℕ → SymbolRow → SymbolRow
changed_row sym' file_hash run row = record row {
  symbol = record (columns sym') { key = row.symbol.key };
  file_hash = file_hash;
  index_run_id = run;
}

map_same :
    {B : Type 0} (f : SymbolRow → B) (g : SymbolRow → SymbolRow) (k : ℕ)
    → ((row : SymbolRow) → f (g row) ≡ f row)
    → (rows : List SymbolRow)
    → map f (map (λ row. if row.id == k then g row else row) rows) ≡ map f rows
map_same f g k same [] = refl
map_same f g k same (row ∷ rows) = elim (Bool-cases (row.id == k)) [
  | inl e ↦ rw (e, same row, map_same f g k same rows) refl
  | inr e ↦ rw (e, map_same f g k same rows) refl
]

module _ {Blob : Type 0} where
  one_entry :
      (db : CodeDb Blob) (old : SymbolRow)
      → IsInStep db
      → find_id old.id db.symbols ≡ some old
      → take_out (posting old.symbol) (db.symbol_fts old.id) ≡ []
  one_entry db old inv found = rw (inv.fts old.id, found) (take_out_self (posting old.symbol))

  pub deleted-IsInStep :
      (old : SymbolRow) (db : CodeDb Blob)
      → IsInStep db
      → find_id old.id db.symbols ≡ some old
      → IsInStep (deleted old db)
  unfolding fts_delete vec_delete edges_delete row_delete assign
  deleted-IsInStep old db inv found = record {
    ids = select_key-IsNodup (λ row. row.id) (λ row. not (row.id == old.id)) db.symbols inv.ids;
    keys =
        select_key-IsNodup (λ row. row.symbol.key) (λ row. not (row.id == old.id)) db.symbols
          inv.keys;
    fts = λ n. elim (Bool-cases (old.id == n)) [
      | inl e ↦ rw (find_id-select old.id n db.symbols, e) (one_entry db old inv found)
      | inr e ↦ rw (find_id-select old.id n db.symbols, e) (inv.fts n)
    ];
    vec = λ n. elim (Bool-cases (old.id == n)) [
      | inl e ↦ rw (find_id-select old.id n db.symbols, e) refl
      | inr e ↦ rw (find_id-select old.id n db.symbols, e) (inv.vec n)
    ];
  }

  pub inserted-IsInStep :
      (row : SymbolRow) (sym' : Symbol) (blob : Blob) (db : CodeDb Blob)
      → IsInStep db
      → ¬ (In row.id (ids_of db.symbols))
      → ¬ (In row.symbol.key (keys_of db.symbols))
      → row.symbol ≡ columns sym'
      → IsInStep (vec_insert row.id blob (inserted row sym' db))
  unfolding fts_insert vec_insert row_insert assign columns posting
  inserted-IsInStep row sym' blob db inv new_id new_key same = record {
    ids =
        subst IsNodup (sym (map-append (λ r. r.id) db.symbols (row ∷ [])))
          (IsNodup-snoc (ids_of db.symbols) row.id inv.ids new_id);
    keys =
        subst IsNodup (sym (map-append (λ r. r.symbol.key) db.symbols (row ∷ [])))
          (IsNodup-snoc (keys_of db.symbols) row.symbol.key inv.keys new_key);
    fts = λ n. elim (Bool-cases (row.id == n)) [
      | inl e ↦
          rw
            (
              find_id-snoc row n db.symbols new_id,
              e,
              inv.fts row.id,
              find_id-none row.id db.symbols new_id,
            )
            (ap (λ s. posting s ∷ []) (sym same))
      | inr e ↦ rw (find_id-snoc row n db.symbols new_id, e) (inv.fts n)
    ];
    vec = λ n. elim (Bool-cases (row.id == n)) [
      | inl e ↦ rw (find_id-snoc row n db.symbols new_id, e) refl
      | inr e ↦ rw (find_id-snoc row n db.symbols new_id, e) (inv.vec n)
    ];
  }

  pub updated-IsInStep :
      (file_hash : Text) (run : ℕ) (old : SymbolRow) (sym' : Symbol) (db : CodeDb Blob)
      → IsInStep db
      → find_id old.id db.symbols ≡ some old
      → IsInStep (updated file_hash run old sym' db)
  unfolding fts_delete fts_insert row_update assign columns posting
  updated-IsInStep file_hash run old sym' db inv found =
      let rows = λ (n : ℕ).
        find_id-changed old.id n old (changed_row sym' file_hash run old) db.symbols found
          (changed_row sym' file_hash run) (λ r. refl) refl in
      record {
        ids =
            subst IsNodup
              (sym (
                map_same (λ r. r.id) (changed_row sym' file_hash run) old.id (λ r. refl)
                  db.symbols))
              inv.ids;
        keys =
            subst IsNodup
              (sym (
                map_same (λ r. r.symbol.key) (changed_row sym' file_hash run) old.id (λ r. refl)
                  db.symbols))
              inv.keys;
        fts = λ n. elim (Bool-cases (old.id == n)) [
          | inl e ↦
              rw (rows n, e)
                (ap (λ ps. posting sym' ∷ ps)
                  (assign_same old.id (take_out (posting old.symbol) (db.symbol_fts old.id))
                      db.symbol_fts
                    ∙ one_entry db old inv found))
          | inr e ↦ rw (rows n, e) (inv.fts n)
        ];
        vec = λ n. elim (Bool-cases (old.id == n)) [
          | inl e ↦
              rw (rows n, e)
                (inv.vec n
                  ∙ ap has
                      (subst (λ m. find_id m db.symbols ≡ some old) ((==_iff old.id n).0 e) found))
          | inr e ↦ rw (rows n, e) (inv.vec n)
        ];
      }

  pub revectored-IsInStep :
      (id : ℕ) (blob : Blob) (db : CodeDb Blob)
      → IsInStep db
      → has (find_id id db.symbols) ≡ true
      → IsInStep (vec_insert id blob (vec_delete id db))
  unfolding vec_delete vec_insert assign
  revectored-IsInStep id blob db inv there = record {
    ids = inv.ids;
    keys = inv.keys;
    fts = inv.fts;
    vec = λ n. elim (Bool-cases (id == n)) [
      | inl e ↦
          rw (e) (sym (subst (λ m. has (find_id m db.symbols) ≡ true) ((==_iff id n).0 e) there))
      | inr e ↦ rw (e) (inv.vec n)
    ];
  }
