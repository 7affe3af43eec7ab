-- ===== src/CodeStore/Upsert/Distinct.antt =====
-- What UpsertSymbols needs of the symbols of a file that has no rows.
use ragrep.Common.{
  ℕ, ◌≡◌, sym, ap, subst, ◌∙◌, Text, true, List, [], ◌∷◌, ◌++◌, find, map-append, append_assoc,
  append-nil, IsNodup, ok, each, >>>-Leads,
}
use ragrep.CodeIndex.{Symbol}
use ragrep.CodeStore.Tables.{
  CodeDb, existing_symbol_rows, find_key, fts_insert, vec_insert, row_insert, columns,
}
use ragrep.CodeStore.Tables.Rows.{keys_of, IsInStep}
use ragrep.CodeStore.Upsert.{CodeEnv, insert_symbol, write_symbol, write_symbols, upsert_symbols}
use ragrep.CodeStore.Upsert.Steps.{new_row, insert_symbol-Leads}
use ragrep.CodeStore.Upsert.Drops.{symbol_keys, IsFresh, ok_injective}
use ragrep.CodeStore.Upsert.Rounds.{insert-keeps}
use ragrep.CodeStore.Upsert.Sound.{write_symbols-Leads, upsert_symbols-cases}

IsNodup-suffix : {A : Type 0} (xs ys : List A) → IsNodup (xs ++ ys) → IsNodup ys
IsNodup-suffix [] ys d = d
IsNodup-suffix (x ∷ xs) ys d = IsNodup-suffix xs ys d.1

module _ {Vector Blob : Type 0} (env : CodeEnv Vector Blob) where
  insert-keys :
      (file_hash : Text) (run : ℕ) (s : Symbol) (db t : CodeDb Blob)
      → insert_symbol env file_hash run s db ≡ ok t
      → keys_of t.symbols ≡ keys_of db.symbols ++ s.key ∷ []
  unfolding fts_insert vec_insert row_insert columns
  insert-keys file_hash run s db t h =
      subst (λ u. keys_of u.symbols ≡ keys_of db.symbols ++ s.key ∷ [])
        (insert_symbol-Leads env file_hash run s db t h).3
        (map-append (λ r. r.symbol.key) db.symbols (new_row env file_hash run s db ∷ []))

  pub new-keys :
      (file_hash : Text) (run : ℕ) (symbols : List Symbol) (db t : CodeDb Blob)
      → IsFresh env
      → IsInStep db
      → each (write_symbol env file_hash run []) symbols db ≡ ok t
      → IsInStep t × (keys_of t.symbols ≡ keys_of db.symbols ++ symbol_keys symbols)
  unfolding each write_symbol find_key find
  new-keys file_hash run [] db t fresh inv h =
      subst (λ u. IsInStep u × (keys_of u.symbols ≡ keys_of db.symbols ++ [])) (ok_injective h)
        (inv, sym (append-nil (keys_of db.symbols)))
  new-keys file_hash run (s ∷ rest) db t fresh inv h =
      let step =
        >>>-Leads (insert_symbol env file_hash run s)
          (each (write_symbol env file_hash run []) rest) db t h in
      let first = insert-keeps env file_hash run [] s [] db step.0 fresh inv tt step.1 in
      let more = new-keys file_hash run rest step.0 t fresh first.0 step.2 in
      (
        more.0,
        more.1
            ∙ ap (λ ks. ks ++ symbol_keys rest) (insert-keys file_hash run s db step.0 step.1)
            ∙ append_assoc (keys_of db.symbols) (s.key ∷ []) (symbol_keys rest),
      )

  -- An upsert that writes a path without rows is given symbols with distinct keys: two symbols of a
  -- file with the same key make it fail.
  pub upsert_symbols-distinct :
      (path file_hash : Text) (symbols : List Symbol) (run : ℕ) (db : CodeDb Blob)
      → IsFresh env
      → IsInStep db
      → existing_symbol_rows path db.symbols ≡ []
      → (upsert_symbols env path file_hash symbols run db).1 ≡ ok true
      → IsNodup (symbol_keys symbols)
  unfolding each
  upsert_symbols-distinct path file_hash symbols run db fresh inv none_yet =
      upsert_symbols-cases env path file_hash symbols run db
        (λ r. r.1 ≡ ok true → IsNodup (symbol_keys symbols)) (λ e h. cc) (λ k h. cc)
        (λ t k h done.
          distinct t
            (subst (λ rows. write_symbols env file_hash run rows symbols db ≡ ok t) none_yet h))
    where
      distinct :
          (t : CodeDb Blob)
          → write_symbols env file_hash run [] symbols db ≡ ok t
          → IsNodup (symbol_keys symbols)
      distinct t h =
          let two = write_symbols-Leads env file_hash run [] symbols db t h in
          let start = ok_injective two.1 in
          let last =
            new-keys file_hash run symbols two.0 t fresh (subst IsInStep start inv) two.2 in
          IsNodup-suffix (keys_of two.0.symbols) (symbol_keys symbols)
            (subst IsNodup last.1 last.0.keys)
