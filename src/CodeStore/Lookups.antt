-- ===== src/CodeStore/Lookups.antt =====
-- symbols.go: the queries on stored symbols and on the states of files.
pub mod Innermost
use ragrep.Common.{
  ℕ, ◌-◌, Text, text_eq, Bool, true, false, not, ◌&&◌, ◌||◌, ◌==◌, ltb, leb, List, [], ◌∷◌, ◌++◌,
  map, select, find, for_each, Option, none, some, if◌then◌else◌, Result, ok, err,
}
use ragrep.CodeIndex.{Symbol}
use ragrep.CodeIndex.Render.{render_embedding_text}
use ragrep.CodeStore.{StoreError, not_found, database}
use ragrep.CodeStore.Tables.{SymbolRow, LiveFile, CodeDb, find_key, existing_symbol_rows}
use ragrep.CodeStore.Upsert.{CodeEnv}
use ragrep.CodeStore.LiveFiles.{FileState, find_live, ask}

-- The loop variables of SymbolAt.
pub record Best : Type 0 where
  pub key : Text
  pub ok : Bool
  pub span : ℕ
  pub start : ℕ

unfoldable pub narrower : Best → SymbolRow → Best
narrower best row =
    let start = row.symbol.range.start.line in
    let span = row.symbol.range.end.line - start in
    if not best.ok || (ltb span best.span || span == best.span && ltb best.start start)
    then record { key = row.symbol.key; ok = true; span = span; start = start }
    else best

-- `path=? AND start_line<=? AND end_line>=?`.
unfoldable pub covers : Text → ℕ → SymbolRow → Bool
covers path line row =
    text_eq row.symbol.path path
    && (leb row.symbol.range.start.line line && leb line row.symbol.range.end.line)

-- The order of texts by code points, which is SQLite's order of their bytes.
unfoldable pub text_lt : Text → Text → Bool
text_lt s [] = false
text_lt [] (d ∷ t) = true
text_lt (c ∷ s) (d ∷ t) = ltb c d || c == d && text_lt s t

unfoldable pub by_path : FileState → List FileState → List FileState
unfolding text_lt
by_path s [] = s ∷ []
by_path s (t ∷ states) =
    let rest = by_path s states in if text_lt t.path s.path then t ∷ rest else s ∷ t ∷ states

-- `ORDER BY path`.
unfoldable pub order_by_path : List FileState → List FileState
unfolding by_path
order_by_path [] = []
order_by_path (s ∷ states) = by_path s (order_by_path states)

unfoldable pub live_state : LiveFile → FileState
live_state f = record {
  path = f.path;
  hash = f.hash;
  generation = f.generation;
  deleted = f.deleted;
}

-- `SELECT path, MIN(file_hash), 0, false … GROUP BY path`: a row joins the group of its path.
unfoldable pub join_group : SymbolRow → List FileState → List FileState
unfolding text_lt
join_group row [] =
    record { path = row.symbol.path; hash = row.file_hash; generation = 0; deleted = false } ∷ []
join_group row (s ∷ states) =
    let rest = join_group row states in
    if text_eq s.path row.symbol.path
    then record s { hash = if text_lt row.file_hash s.hash then row.file_hash else s.hash } ∷ states
    else s ∷ rest

unfoldable pub group_by_path : List SymbolRow → List FileState
unfolding join_group
group_by_path [] = []
group_by_path (row ∷ rows) = join_group row (group_by_path rows)

-- `SELECT DISTINCT path`.
unfoldable pub distinct_paths : List SymbolRow → List Text
distinct_paths [] = []
distinct_paths (row ∷ rows) =
    row.symbol.path ∷ select (λ p. not (text_eq p row.symbol.path)) (distinct_paths rows)

module _ {Vector Blob : Type 0} (env : CodeEnv Vector Blob) (to_slash : Text → Text) where
  unfoldable pub list_paths : CodeDb Blob → Result StoreError (List Text)
  unfolding ask distinct_paths
  list_paths db = ask env to_slash db (ok (distinct_paths db.symbols))

  unfoldable pub has_symbols_for_path : Text → CodeDb Blob → Result StoreError Bool
  unfolding ask find
  has_symbols_for_path path db = ask env to_slash db (
      ok (elim (find (λ row. text_eq row.symbol.path (to_slash path)) db.symbols) [
        | none ↦ false
        | some _ ↦ true
      ]))

  unfoldable pub list_file_states : CodeDb Blob → Result StoreError (List FileState)
  unfolding ask order_by_path live_state
  list_file_states db = ask env to_slash db (ok (order_by_path (map live_state db.live_files)))

  unfoldable pub list_workspace_file_states : CodeDb Blob → Result StoreError (List FileState)
  unfolding ask order_by_path live_state group_by_path find_live
  list_workspace_file_states db = ask env to_slash db (
      let durable =
        select
          (λ row. elim (find_live row.symbol.path db.live_files) [ none ↦ true | some _ ↦ false ])
          db.symbols in
      ok (order_by_path (map live_state db.live_files ++ group_by_path durable)))

  unfoldable pub find_by_qualified_name :
      Text → Text → CodeDb Blob → Result StoreError (List Symbol)
  unfolding ask render_embedding_text
  find_by_qualified_name qualified_name path db = ask env to_slash db (
      ok (
        map (λ row. record row.symbol { embedding_text = render_embedding_text row.symbol })
          (select
            (λ row.
              text_eq row.symbol.qualified_name qualified_name && text_eq row.symbol.path path)
            db.symbols)))

  unfoldable pub symbol_file_hash : Text → CodeDb Blob → Result StoreError Text
  unfolding ask find_key
  symbol_file_hash key db =
      ask env to_slash db
        (elim (find_key key db.symbols) [ none ↦ err not_found | some row ↦ ok row.file_hash ])

  -- `none` is `ok == false`.
  unfoldable pub symbol_at : Text → ℕ → CodeDb Blob → Result StoreError (Option Text)
  unfolding ask covers narrower
  symbol_at path line db = ask env to_slash db (
      let best =
        for_each narrower (record { key = []; ok = false; span = 0; start = 0 })
          (select (covers path line) db.symbols) in
      ok (if best.ok then some best.key else none))
