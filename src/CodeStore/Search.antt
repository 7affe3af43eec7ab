-- ===== src/CodeStore/Search.antt =====
-- symbols.go: the searches. What the text and vector indices answer is a parameter.
pub mod Hits
pub mod Shown
use ragrep.Common.{
  ℕ, suc, zero, ◌+◌, ◌-◌, Text, text_eq, Bool, true, false, not, ◌&&◌, ◌||◌, ◌==◌, List, [], ◌∷◌,
  ◌++◌, map, select, find, take, length, is_empty, Option, none, some, if◌then◌else◌, Result, ok,
  err, ◌>>=◌,
}
use ragrep.CodeStore.{SymbolHit, StoreError, database}
use ragrep.CodeStore.Tables.{SymbolRow, LiveFile, CodeDb}
use ragrep.CodeStore.Upsert.{CodeEnv}
use ragrep.CodeStore.LiveKeys.{live_key}
use ragrep.CodeStore.LiveFiles.{find_live, ask}
use ragrep.CodeStore.LiveSearch.{live_hit, live_exact_match, fts_query}
use ragrep.CodeStore.Ranking.{
  Floats, value_at, has_id, rank_map, score_of, rrf_merge, prioritize_exact_ids,
}

-- The rows of the indices that match, the best first, and the tables of `unicode`.
pub record Indices (F Blob : Type 0) : Type 0 where
  pub symbol_matches : CodeDb Blob → Text → List ℕ
  pub nearest : CodeDb Blob → Blob → List (ℕ × F)
  pub live_matches : CodeDb Blob → Text → List Text
  pub is_letter : ℕ → Bool
  pub is_digit : ℕ → Bool

unfoldable pub row_of : ℕ → List SymbolRow → Option SymbolRow
row_of id = find (λ row. row.id == id)

-- The row is not hidden by an unsaved file.
unfoldable pub is_shown : {Blob : Type 0} → CodeDb Blob → SymbolRow → Bool
unfolding find_live
is_shown db row = elim (find_live row.symbol.path db.live_files) [ none ↦ true | some _ ↦ false ]

unfoldable pub id_shown : {Blob : Type 0} → CodeDb Blob → ℕ → Bool
unfolding row_of is_shown
id_shown db id = elim (row_of id db.symbols) [ none ↦ false | some row ↦ is_shown db row ]

module _ {F Vector Blob : Type 0} (env : CodeEnv Vector Blob) (to_slash : Text → Text)
    (floats : Floats F) (indices : Indices F Blob) where
  unfoldable pub search_symbols_text_ids : Text → ℕ → CodeDb Blob → Result StoreError (List ℕ)
  unfolding ask id_shown fts_query
  search_symbols_text_ids query k db =
      ask env to_slash db
        (ok (take k (select (id_shown db) (indices.symbol_matches db (fts_query query)))))

  -- The ids with their distances.
  unfoldable pub search_symbols_vector_ids :
      Vector → ℕ → CodeDb Blob → Result StoreError (List (ℕ × F))
  unfolding ask id_shown
  search_symbols_vector_ids vector k db = elim (env.serialize vector) [
    | err e ↦ err (database e)
    | ok blob ↦
        ask env to_slash db
          (ok (take k (select (λ entry. id_shown db entry.0) (indices.nearest db blob))))
  ]

  unfoldable pub exact_match_ids : Text → CodeDb Blob → Result StoreError (List ℕ)
  unfolding ask is_shown
  exact_match_ids query db = ask env to_slash db (
      ok (
        map (λ row. row.id)
          (select
            (λ row.
              (text_eq row.symbol.name query
                || (text_eq row.symbol.qualified_name query
                    || text_eq row.symbol.path (to_slash query)))
              && is_shown db row)
            db.symbols)))

  unfoldable pub hit_of :
      List (ℕ × ℕ) → List (ℕ × ℕ) → List ℕ → List (ℕ × F) → SymbolRow → SymbolHit F
  unfolding value_at has_id score_of
  hit_of fts_rank vec_rank exact scores row = record {
    key = row.symbol.key;
    kind = row.symbol.kind;
    name = row.symbol.name;
    qualified_name = row.symbol.qualified_name;
    signature = row.symbol.signature;
    path = row.symbol.path;
    start_line = row.symbol.range.start.line;
    end_line = row.symbol.range.end.line;
    fts_rank = value_at 0 row.id fts_rank;
    vec_rank = value_at 0 row.id vec_rank;
    exact_match = has_id row.id exact;
    score = score_of floats row.id scores;
    live = false;
    generation = 0;
    content_hash = [];
  }

  -- `no_rows` is `sql.ErrNoRows`.
  unfoldable pub symbol_hits_by_ids :
      Text
      → List (ℕ × ℕ)
      → List (ℕ × ℕ)
      → List ℕ
      → List (ℕ × F)
      → CodeDb Blob
      → List ℕ
      → Result StoreError (List (SymbolHit F))
  unfolding ask row_of hit_of
  symbol_hits_by_ids no_rows fts_rank vec_rank exact scores db [] = ok []
  symbol_hits_by_ids no_rows fts_rank vec_rank exact scores db (id ∷ ids) =
      ask env to_slash db (elim (row_of id db.symbols) [
        | none ↦ err (database no_rows)
        | some row ↦ ok (hit_of fts_rank vec_rank exact scores row)
      ])
      >>= (λ hit.
          symbol_hits_by_ids no_rows fts_rank vec_rank exact scores db ids
          >>= (λ hits. ok (hit ∷ hits)))

  -- `1.0 / float64(rank)` for every ranked id.
  unfoldable pub rank_scores : List (ℕ × ℕ) → List (ℕ × F)
  rank_scores = map (λ entry. (entry.0, floats.inverse entry.1))

  unfoldable pub search_symbols_text :
      Text → Text → ℕ → CodeDb Blob → Result StoreError (List (SymbolHit F))
  unfolding search_symbols_text_ids rank_map rank_scores symbol_hits_by_ids
  search_symbols_text no_rows query k db = search_symbols_text_ids query k db >>= (λ ids.
      let ranks = rank_map ids in symbol_hits_by_ids no_rows ranks [] [] (rank_scores ranks) db ids)

  -- `rrfFetch` is 50.
  unfoldable pub search_symbols_text_exact :
      Text → Text → ℕ → List ℕ → CodeDb Blob → Result StoreError (List (SymbolHit F))
  unfolding search_symbols_text_ids rank_map rank_scores prioritize_exact_ids symbol_hits_by_ids
  search_symbols_text_exact no_rows query k exact_ids db =
      search_symbols_text_ids query 50 db >>= (λ text_ids.
        let ranks = rank_map text_ids in
        let scores = rank_scores ranks in
        symbol_hits_by_ids no_rows ranks [] exact_ids scores db
          (prioritize_exact_ids floats exact_ids text_ids scores k))

  -- `SearchSymbolsTextExact`, which looks the exact matches up itself.
  unfoldable pub search_text_pinned :
      Text → Text → ℕ → CodeDb Blob → Result StoreError (List (SymbolHit F))
  unfolding exact_match_ids search_symbols_text_exact
  search_text_pinned no_rows query k db =
      exact_match_ids query db
      >>= (λ exact_ids. search_symbols_text_exact no_rows query k exact_ids db)

  unfoldable pub search_symbols_hybrid :
      Text → Text → Vector → ℕ → CodeDb Blob → Result StoreError (List (SymbolHit F))
  unfolding search_symbols_text_ids search_symbols_vector_ids exact_match_ids rrf_merge
      prioritize_exact_ids rank_map symbol_hits_by_ids
  search_symbols_hybrid no_rows query vector k db =
      search_symbols_text_ids query 50 db >>= (λ text_ids.
        search_symbols_vector_ids vector 50 db >>= (λ near.
          exact_match_ids query db >>= (λ exact_ids.
            let vec_ids = map (λ entry. entry.0) near in
            let fused = rrf_merge floats (text_ids ∷ vec_ids ∷ []) in
            symbol_hits_by_ids no_rows (rank_map text_ids) (rank_map vec_ids) exact_ids fused.1 db
              (prioritize_exact_ids floats exact_ids fused.0 fused.1 k))))

  -- The Boolean says whether the vector was used.
  unfoldable pub search_symbols_auto :
      Text
      → Text
      → ℕ
      → Result Text Vector
      → CodeDb Blob
      → Result StoreError (List (SymbolHit F) × Bool)
  unfolding exact_match_ids search_symbols_text_exact search_symbols_hybrid
  search_symbols_auto no_rows query k vector db = exact_match_ids query db >>= (λ exact_ids.
      if not (is_empty exact_ids)
      then search_symbols_text_exact no_rows query k exact_ids db >>= (λ hits. ok (hits, false))
      else elim vector [
        | err e ↦ err (database e)
        | ok v ↦ search_symbols_hybrid no_rows query v k db >>= (λ hits. ok (hits, true))
      ])

  unfoldable pub search_symbols_vector :
      Text → Vector → ℕ → CodeDb Blob → Result StoreError (List (SymbolHit F))
  unfolding search_symbols_vector_ids rank_map symbol_hits_by_ids
  search_symbols_vector no_rows vector k db = search_symbols_vector_ids vector k db >>= (λ near.
      let ids = map (λ entry. entry.0) near in
      symbol_hits_by_ids no_rows [] (rank_map ids) []
        (map (λ entry. (entry.0, floats.closeness entry.1)) near) db ids)

  -- An unsaved file that the text index names and that is not the one with the path asked for.
  unfoldable pub other_live : Text → CodeDb Blob → Text → Option LiveFile
  unfolding find_live
  other_live exact_path db path = elim (find_live path db.live_files) [
    | none ↦ none
    | some file ↦ if file.deleted || text_eq file.path exact_path then none else some file
  ]

  unfoldable pub live_others : Text → CodeDb Blob → List Text → List LiveFile
  unfolding other_live
  live_others exact_path db [] = []
  live_others exact_path db (path ∷ paths) =
      let rest = live_others exact_path db paths in
      elim (other_live exact_path db path) [ none ↦ rest | some file ↦ file ∷ rest ]

  unfoldable pub exact_live : Text → CodeDb Blob → Option LiveFile
  unfolding find_live
  exact_live query db = elim (find_live (to_slash query) db.live_files) [
    | none ↦ none
    | some file ↦ if file.deleted then none else some file
  ]

  unfoldable pub found_hit : Text → LiveFile → SymbolHit F
  unfolding live_hit live_key live_exact_match
  found_hit query file =
      record (live_hit floats.nought (live_key file.generation file.hash file.path) file) {
        exact_match = live_exact_match indices.is_letter indices.is_digit query file.path file.body;
      }

  unfoldable pub more_live : Text → Text → ℕ → CodeDb Blob → Result StoreError (List (SymbolHit F))
  unfolding ask live_others found_hit fts_query
  more_live query exact_path k db = ask env to_slash db (
      ok (
        map (found_hit query)
          (take k (live_others exact_path db (indices.live_matches db (fts_query query))))))

  unfoldable pub search_live_text : Text → ℕ → CodeDb Blob → Result StoreError (List (SymbolHit F))
  unfolding ask exact_live live_hit live_key more_live
  search_live_text query zero db = ok []
  search_live_text query (suc k) db = ask env to_slash db (ok (exact_live query db)) >>= (λ found.
      elim found [
        | none ↦ more_live query [] (suc k) db
        | some file ↦
            let hit =
              record (live_hit floats.nought (live_key file.generation file.hash file.path) file) {
                exact_match = true;
              } in
            if k == 0
            then ok (hit ∷ [])
            else more_live query file.path k db >>= (λ hits. ok (hit ∷ hits))
      ])
