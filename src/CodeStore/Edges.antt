-- ===== src/CodeStore/Edges.antt =====
-- symbols.go: the stored relations (symbol_edges) and the index runs.
pub mod Replaced
use ragrep.Common.{
  ℕ, Text, text_eq, codes, Bool, true, false, not, ◌&&◌, ◌||◌, ◌+◌, ltb, leb, List, [], ◌∷◌, ◌++◌,
  map, select, is_empty, starts_with, Option, none, some, if◌then◌else◌, Result, ok, err, Tx, ◌>>>◌,
  each, finally,
}
use ragrep.CodeIndex.{Relation, Position}
use ragrep.CodeStore.{StoreError, not_found, database}
use ragrep.CodeStore.Tables.{Edge, IndexRun, CodeDb}
use ragrep.CodeStore.Upsert.{CodeEnv, run_statement, run_unique}

unfoldable pub one_of : Text → List Text → Bool
one_of kind [] = false
one_of kind (k ∷ kinds) = text_eq kind k || one_of kind kinds

-- `UNIQUE(from_key, to_key, kind, source)`.
unfoldable pub same_edge : Edge → Edge → Bool
same_edge a b =
    text_eq a.from_key b.from_key
    && (text_eq a.to_key b.to_key && (text_eq a.kind b.kind && text_eq a.source b.source))

unfoldable pub edge_taken : Edge → List Edge → Bool
unfolding same_edge
edge_taken e [] = false
edge_taken e (x ∷ edges) = same_edge x e || edge_taken e edges

unfoldable pub edge_of : ℕ → Relation → Edge
edge_of run r = record {
  from_key = r.from_key;
  to_key = r.to_key;
  kind = r.kind;
  source = r.source;
  index_run_id = run;
}

-- `from_key=? AND kind IN (…)`.
unfoldable pub replaced : Text → List Text → Edge → Bool
unfolding one_of
replaced from_key kinds e = text_eq e.from_key from_key && one_of e.kind kinds

-- `scope LIKE 'index:%'`, which does not distinguish the case of ASCII letters.
unfoldable pub lower_ascii : ℕ → ℕ
lower_ascii c = if leb b'A' c && leb c b'Z' then c + 32 else c

unfoldable pub is_index_scope : Text → Bool
unfolding starts_with lower_ascii
is_index_scope scope = starts_with (codes "index:") (map lower_ascii scope)

-- `ORDER BY id DESC LIMIT 1`.
unfoldable pub latest : List IndexRun → Option IndexRun
latest [] = none
latest (r ∷ runs) = elim (latest runs) [
  | none ↦ some r
  | some best ↦ if ltb best.id r.id then some r else some best
]

-- An edge that is read has no location: `ToPath` and `ToPosition` are zero.
unfoldable pub relation_of : Edge → Relation
relation_of e = record {
  from_key = e.from_key;
  to_key = e.to_key;
  kind = e.kind;
  source = e.source;
  to_path = [];
  to_position = record { line = 0; character = 0 };
}

module _ {Vector Blob : Type 0} (env : CodeEnv Vector Blob) where
  unfoldable pub insert_edge : ℕ → Relation → Tx Text (CodeDb Blob)
  unfolding run_unique edge_taken edge_of
  insert_edge run r =
      run_unique env (λ db. edge_taken (edge_of run r) db.symbol_edges)
        (λ db. record db { symbol_edges = db.symbol_edges ++ edge_of run r ∷ [] })

  unfoldable pub replace_tx : ℕ → Text → List Text → List Relation → Tx Text (CodeDb Blob)
  unfolding run_statement replaced each insert_edge ◌>>>◌
  replace_tx run from_key kinds relations =
      run_statement env (λ db. db)
      >>> run_statement env (λ db. record db {
        symbol_edges = select (λ e. not (replaced from_key kinds e)) db.symbol_edges;
      })
      >>> each (insert_edge run) relations
      >>> run_statement env (λ db. db)

  unfoldable pub replace_relations :
      ℕ
      → Text
      → List Text
      → List Relation
      → CodeDb Blob
      → CodeDb Blob × Result {0, 0} StoreError Unit
  unfolding finally replace_tx
  replace_relations run from_key kinds relations db =
      if is_empty kinds
      then (db, ok tt)
      else finally database tt (replace_tx run from_key kinds relations) db

  -- `created_at` is the time in UTC, formatted.
  unfoldable pub record_index_run :
      Text
      → Text
      → Text
      → Text
      → Text
      → Text
      → Text
      → CodeDb Blob
      → CodeDb Blob × Result {0, 0} StoreError ℕ
  record_index_run scope revision language server_name server_version model_id created_at db =
      let id = env.new_rowid (map (λ r. r.id) db.index_runs) in
      let run : IndexRun = record {
        id = id;
        scope = scope;
        revision = revision;
        language = language;
        server_name = server_name;
        server_version = server_version;
        model_id = model_id;
        created_at = created_at;
      } in
      elim (env.fault db) [
        | some e ↦ (db, err (database e))
        | none ↦ (record db { index_runs = db.index_runs ++ run ∷ [] }, ok id)
      ]

  unfoldable pub latest_index_run : CodeDb Blob → Result StoreError IndexRun
  unfolding latest is_index_scope
  latest_index_run db = elim (env.fault db) [
    | some e ↦ err (database e)
    | none ↦ elim (latest (select (λ r. is_index_scope r.scope) db.index_runs)) [
      | none ↦ err not_found
      | some r ↦ ok r
    ]
  ]

  unfoldable pub relations_from : Text → CodeDb Blob → Result StoreError (List Relation)
  unfolding relation_of
  relations_from from_key db = elim (env.fault db) [
    | some e ↦ err (database e)
    | none ↦ ok (map relation_of (select (λ e. text_eq e.from_key from_key) db.symbol_edges))
  ]
