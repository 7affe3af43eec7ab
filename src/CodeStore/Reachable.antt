-- ===== src/CodeStore/Reachable.antt =====
-- symbols.go: every sequence of the calls that write to code.db.
use ragrep.Common.{
  select, ℕ, ◌≡◌, refl, sym, ap, subst, ◌∙◌, Text, List, [], ◌∷◌, ◌++◌, map, find, Option, none,
  some, IsNodup, Result, ok, err, inl, inr,
}
use ragrep.CodeIndex.{Symbol, Relation}
use ragrep.CodeStore.{StoreError, database}
use ragrep.CodeStore.Tables.{LiveFile, CodeDb, existing_symbol_rows}
use ragrep.CodeStore.Tables.Rows.{ids_of, keys_of, find_id, posted, has, IsInStep}
use ragrep.CodeStore.Upsert.{CodeEnv, delete_symbol_row, upsert_symbols, delete_symbols_for_path}
use ragrep.CodeStore.Upsert.Drops.{symbol_keys, IsFresh}
use ragrep.CodeStore.Upsert.Sound.{upsert_symbols-IsInStep}
use ragrep.CodeStore.Upsert.Frame.{
  SameFiles, delete_symbol_row-SameFiles, each-SameFiles, upsert_symbols-SameFiles, pruned-IsInStep,
  delete_symbols_for_path-cases,
}
use ragrep.CodeStore.LiveFiles.{
  find_live, put_live_file_row, remove_live_file_if_hash, delete_symbols_for_path_if_live_hash,
  live_fts_delete, delete_live,
}
use ragrep.CodeStore.LiveFiles.Rows.{paths_of, live_posted, IsLiveInStep}
use ragrep.CodeStore.LiveFiles.InStep.{SameSymbols, removed}
use ragrep.CodeStore.LiveFiles.Outcome.{put_live_file_row-finally, put_live_file_row-IsLiveInStep}
use ragrep.CodeStore.LiveFiles.Removal.{remove_live_file_if_hash-cases}
use ragrep.CodeStore.LiveFiles.Tombstones.{delete_symbols_for_path_if_live_hash-keeps}
use ragrep.CodeStore.LiveFiles.Removed.{remove_live_file_if_hash-IsLiveInStep}
use ragrep.CodeStore.Edges.{replace_relations, record_index_run}
use ragrep.CodeStore.Edges.Replaced.{row_of, replace_relations-finally}

-- The tables that createSchema makes.
unfoldable pub empty_db : {Blob : Type 0} → CodeDb Blob
empty_db = record {
  symbols = [];
  symbol_fts = λ id. [];
  symbol_vec = λ id. none;
  live_files = [];
  live_fts = λ path. [];
  symbol_edges = [];
  index_runs = [];
}

module _ {Blob : Type 0} where
  abbrev pub AllInStep : CodeDb Blob → Type 0
  AllInStep db = IsInStep db × IsLiveInStep db

  pub SameSymbols-IsInStep : (db t : CodeDb Blob) → SameSymbols db t → IsInStep db → IsInStep t
  SameSymbols-IsInStep db t same inv = record {
    ids = subst (λ rows. IsNodup (ids_of rows)) (sym same.0) inv.ids;
    keys = subst (λ rows. IsNodup (keys_of rows)) (sym same.0) inv.keys;
    fts = λ n. ap (λ f. f n) same.1 ∙ inv.fts n ∙ ap (λ rows. posted (find_id n rows)) (sym same.0);
    vec = λ n.
        ap (λ f. has (f n)) same.2 ∙ inv.vec n ∙ ap (λ rows. has (find_id n rows)) (sym same.0);
  }

  pub SameFiles-IsLiveInStep :
      (db t : CodeDb Blob) → SameFiles db t → IsLiveInStep db → IsLiveInStep t
  SameFiles-IsLiveInStep db t same inv = record {
    paths = subst (λ files. IsNodup (paths_of files)) (sym same.0) inv.paths;
    fts = λ p.
        ap (λ f. f p) same.1
        ∙ inv.fts p
        ∙ ap (λ files. live_posted (find_live p files)) (sym same.0);
  }

  -- Tables that differ in the edges and the runs only.
  indices-AllInStep :
      (db t : CodeDb Blob)
      → t.symbols ≡ db.symbols
      → t.symbol_fts ≡ db.symbol_fts
      → t.symbol_vec ≡ db.symbol_vec
      → t.live_files ≡ db.live_files
      → t.live_fts ≡ db.live_fts
      → AllInStep db
      → AllInStep t
  indices-AllInStep db t a b c d e inv = (
    record {
      ids = subst (λ rows. IsNodup (ids_of rows)) (sym a) inv.0.ids;
      keys = subst (λ rows. IsNodup (keys_of rows)) (sym a) inv.0.keys;
      fts = λ n. ap (λ f. f n) b ∙ inv.0.fts n ∙ ap (λ rows. posted (find_id n rows)) (sym a);
      vec = λ n. ap (λ f. has (f n)) c ∙ inv.0.vec n ∙ ap (λ rows. has (find_id n rows)) (sym a);
    },
    record {
      paths = subst (λ files. IsNodup (paths_of files)) (sym d) inv.1.paths;
      fts = λ p.
          ap (λ f. f p) e ∙ inv.1.fts p ∙ ap (λ files. live_posted (find_live p files)) (sym d);
    },
  )

  empty-AllInStep : AllInStep empty_db
  unfolding empty_db find find_live
  empty-AllInStep = (
    record { ids = tt; keys = tt; fts = λ n. refl; vec = λ n. refl },
    record { paths = tt; fts = λ p. refl },
  )

module _ {Vector Blob : Type 0} (env : CodeEnv Vector Blob) (to_slash : Text → Text) where
  -- Tables that calls can lead to, whether they succeed or fail.
  pub data Reachable : CodeDb Blob → Type 0 where
    created : Reachable empty_db
    upserted :
        (path file_hash : Text) (symbols : List Symbol) (run : ℕ) (db : CodeDb Blob)
        → IsNodup (symbol_keys symbols)
        → Reachable db
        → Reachable (upsert_symbols env path file_hash symbols run db).0
    pruned :
        (path : Text) (db : CodeDb Blob)
        → Reachable db
        → Reachable (delete_symbols_for_path env path db).0
    put :
        (file : LiveFile) (db : CodeDb Blob)
        → Reachable db
        → Reachable (put_live_file_row env to_slash file db).0
    saved :
        (path hash : Text) (db : CodeDb Blob)
        → Reachable db
        → Reachable (remove_live_file_if_hash env to_slash path hash db).0
    dropped :
        (path hash : Text) (db : CodeDb Blob)
        → Reachable db
        → Reachable (delete_symbols_for_path_if_live_hash env to_slash path hash db).0
    related :
        (run : ℕ) (from_key : Text) (kinds : List Text) (relations : List Relation)
        (db : CodeDb Blob)
        → Reachable db
        → Reachable (replace_relations env run from_key kinds relations db).0
    recorded :
        (scope revision language server_name server_version model_id created_at : Text)
        (db : CodeDb Blob)
        → Reachable db
        → Reachable
            (record_index_run env scope revision language server_name server_version model_id
              created_at db).0

  put-AllInStep :
      (file : LiveFile) (db : CodeDb Blob)
      → AllInStep db
      → AllInStep (put_live_file_row env to_slash file db).0
  put-AllInStep file db inv = (
    elim (put_live_file_row-finally env to_slash file db) [
      | inl (e, s) ↦ subst (λ r. IsInStep r.0) (sym s) inv.0
      | inr (t, s, files, same) ↦
          subst (λ r. IsInStep r.0) (sym s) (SameSymbols-IsInStep db t same inv.0)
    ],
    put_live_file_row-IsLiveInStep env to_slash file db inv.1,
  )

  saved-AllInStep :
      (path hash : Text) (db : CodeDb Blob)
      → AllInStep db
      → AllInStep (remove_live_file_if_hash env to_slash path hash db).0
  unfolding live_fts_delete delete_live
  saved-AllInStep path hash db inv = (
    remove_live_file_if_hash-cases env to_slash path hash db (λ r. IsInStep r.0) (λ e. inv.0)
        (λ o f w. inv.0)
        (λ file f s k.
          SameSymbols-IsInStep db (removed file db) (refl, refl, refl, refl, refl) inv.0),
    remove_live_file_if_hash-IsLiveInStep env to_slash path hash db inv.1,
  )

  pruned-AllInStep :
      (path : Text) (db : CodeDb Blob)
      → AllInStep db
      → AllInStep (delete_symbols_for_path env path db).0
  pruned-AllInStep path db inv =
      delete_symbols_for_path-cases env path db (λ r. AllInStep r.0) (λ e. inv) (λ k. inv)
        (λ t h. (
          pruned-IsInStep env path db t inv.0 h,
          SameFiles-IsLiveInStep db t
              (each-SameFiles env (delete_symbol_row env) (delete_symbol_row-SameFiles env)
                (existing_symbol_rows path db.symbols) db t h)
              inv.1,
        ))

  related-AllInStep :
      (run : ℕ) (from_key : Text) (kinds : List Text) (relations : List Relation) (db : CodeDb Blob)
      → AllInStep db
      → AllInStep (replace_relations env run from_key kinds relations db).0
  unfolding replace_relations
  related-AllInStep run from_key [] relations db inv = inv
  related-AllInStep run from_key (k ∷ kinds) relations db inv =
      elim (replace_relations-finally env run from_key (k ∷ kinds) relations db refl) [
        | inl (e, s) ↦ subst (λ r. AllInStep r.0) (sym s) inv
        | inr (stays, of_key, (new, s)) ↦
            subst (λ r. AllInStep r.0) (sym s)
              (indices-AllInStep db
                (record db {
                  symbol_edges = select stays db.symbol_edges ++ map (row_of run) relations;
                })
                refl refl refl refl refl inv)
      ]

  recorded-AllInStep :
      (scope revision language server_name server_version model_id created_at : Text)
      (db : CodeDb Blob)
      → AllInStep db
      → AllInStep
          (record_index_run env scope revision language server_name server_version model_id
            created_at db).0
  unfolding record_index_run
  recorded-AllInStep scope revision language server_name server_version model_id created_at db inv =
      go (env.fault db)
    where
      id : ℕ
      id = env.new_rowid (map (λ r. r.id) db.index_runs)

      t : CodeDb Blob
      t = record db {
        index_runs =
            db.index_runs
            ++ record {
              id = id;
              scope = scope;
              revision = revision;
              language = language;
              server_name = server_name;
              server_version = server_version;
              model_id = model_id;
              created_at = created_at;
            }
              ∷ [];
      }

      go :
          (o : Option Text)
          → AllInStep
              (elim o as (λ _. CodeDb Blob × Result {0, 0} StoreError ℕ) [
                | some e ↦ (db, err (database e))
                | none ↦ (t, ok id)
              ]).0
      go (some e) = inv
      go none = indices-AllInStep db t refl refl refl refl refl inv

  -- Whatever calls have been made, with or without success: ids, keys and paths are distinct, and the
  -- text indices and the vectors hold what the rows say and nothing else. The upserted symbols have
  -- distinct keys, and a new rowid is one not in use.
  pub Reachable-AllInStep : (db : CodeDb Blob) → IsFresh env → Reachable db → AllInStep db
  Reachable-AllInStep _ fresh Reachable.created = empty-AllInStep
  Reachable-AllInStep _ fresh (Reachable.upserted path file_hash symbols run db distinct r) =
      let inv = Reachable-AllInStep db fresh r in
      (
        upsert_symbols-IsInStep env path file_hash symbols run db fresh distinct inv.0,
        SameFiles-IsLiveInStep db (upsert_symbols env path file_hash symbols run db).0
            (upsert_symbols-SameFiles env path file_hash symbols run db) inv.1,
      )
  Reachable-AllInStep _ fresh (Reachable.pruned path db r) =
      pruned-AllInStep path db (Reachable-AllInStep db fresh r)
  Reachable-AllInStep _ fresh (Reachable.put file db r) =
      put-AllInStep file db (Reachable-AllInStep db fresh r)
  Reachable-AllInStep _ fresh (Reachable.saved path hash db r) =
      saved-AllInStep path hash db (Reachable-AllInStep db fresh r)
  Reachable-AllInStep _ fresh (Reachable.dropped path hash db r) =
      delete_symbols_for_path_if_live_hash-keeps env to_slash path hash db
        (Reachable-AllInStep db fresh r)
  Reachable-AllInStep _ fresh (Reachable.related run from_key kinds relations db r) =
      related-AllInStep run from_key kinds relations db (Reachable-AllInStep db fresh r)
  Reachable-AllInStep _ fresh (Reachable.recorded a b c d e f g db r) =
      recorded-AllInStep a b c d e f g db (Reachable-AllInStep db fresh r)
