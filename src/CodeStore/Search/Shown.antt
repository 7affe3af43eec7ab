-- ===== src/CodeStore/Search/Shown.antt =====
-- symbols.go: the answers of the searches, and the unsaved files.
use ragrep.Common.{
  ℕ, ◌≤◌, ◌≡◌, ap, subst, Text, Bool, true, false, List, [], ◌∷◌, map, length, All, Any-append, In,
  inl, inr, Result, ok, err, ◌>>=◌, >>=-eq-ok, arith, if◌then◌else◌, not, is_empty,
}
use ragrep.CodeStore.{SymbolHit, StoreError, database}
use ragrep.CodeStore.Tables.{CodeDb}
use ragrep.CodeStore.Tables.Rows.{IsInStep}
use ragrep.CodeStore.Upsert.{CodeEnv}
use ragrep.CodeStore.Ranking.{Floats, rank_map, rrf_merge, prioritize_exact_ids}
use ragrep.CodeStore.Ranking.Pinned.{rrf_merge-In, prioritize_exact_ids-exact}
use ragrep.CodeStore.Search.{
  Indices, search_symbols_text_ids, search_symbols_vector_ids, exact_match_ids, symbol_hits_by_ids,
  rank_scores, search_symbols_text_exact, search_symbols_hybrid, search_symbols_auto,
}
use ragrep.CodeStore.Search.Hits.{
  Unhidden, AllShown, ok_inj, symbol_hits_by_ids-Unhidden, text_ids-AllShown, vector_ids-AllShown,
  exact_ids-AllShown,
}

module _ {F Vector Blob : Type 0} (env : CodeEnv Vector Blob) (to_slash : Text → Text)
    (floats : Floats F) (indices : Indices F Blob) where
  -- The ids that prioritize_exact_ids gives are among those it is given.
  pinned-AllShown :
      (exact candidates : List ℕ) (scores : List (ℕ × F)) (k : ℕ) (db : CodeDb Blob)
      → AllShown db exact
      → AllShown db candidates
      → AllShown db (prioritize_exact_ids floats exact candidates scores k)
  pinned-AllShown exact candidates scores k db a b id i =
      let pin = prioritize_exact_ids-exact floats exact candidates scores k in
      elim ((Any-append (λ x. x ≡ id) pin.1.0 pin.1.1).0 (subst (In id) pin.1.2 i)) [
        | inl j ↦ a id (pin.1.3 id j)
        | inr j ↦ b id (pin.1.4 id j).1
      ]

  -- What a search may answer: at most `k` hits, none of them hidden.
  abbrev pub IsAnswer : ℕ → CodeDb Blob → List (SymbolHit F) → Type 0
  IsAnswer k db hits = All (Unhidden db) hits × (length hits ≤ k)

  pinned-IsAnswer :
      (no_rows : Text) (fts vec : List (ℕ × ℕ)) (exact candidates : List ℕ) (scores : List (ℕ × F))
      (k : ℕ) (db : CodeDb Blob) (hits : List (SymbolHit F))
      → AllShown db exact
      → AllShown db candidates
      → symbol_hits_by_ids env to_slash floats indices no_rows fts vec exact scores db
          (prioritize_exact_ids floats exact candidates scores k)
        ≡ ok hits
      → IsAnswer k db hits
  pinned-IsAnswer no_rows fts vec exact candidates scores k db hits a b h =
      let made =
        symbol_hits_by_ids-Unhidden env to_slash floats indices no_rows fts vec exact scores db
          (prioritize_exact_ids floats exact candidates scores k) hits
          (pinned-AllShown exact candidates scores k db a b) h in
      let few = (prioritize_exact_ids-exact floats exact candidates scores k).0 in
      (made.0, omega (arith, made.1, few))

  text_exact-IsAnswer :
      (no_rows query : Text) (k : ℕ) (exact : List ℕ) (db : CodeDb Blob) (hits : List (SymbolHit F))
      → AllShown db exact
      → search_symbols_text_exact env to_slash floats indices no_rows query k exact db ≡ ok hits
      → IsAnswer k db hits
  unfolding search_symbols_text_exact
  text_exact-IsAnswer no_rows query k exact db hits shown h =
      let found = search_symbols_text_ids env to_slash floats indices query 50 db in
      let a =
        >>=-eq-ok found
          (λ ids.
            symbol_hits_by_ids env to_slash floats indices no_rows (rank_map ids) [] exact
              (rank_scores env to_slash floats indices (rank_map ids)) db
              (prioritize_exact_ids floats exact ids
                (rank_scores env to_slash floats indices (rank_map ids)) k))
          h in
      pinned-IsAnswer no_rows (rank_map a.0) [] exact a.0
        (rank_scores env to_slash floats indices (rank_map a.0)) k db hits shown
        (text_ids-AllShown env to_slash floats indices query 50 db a.0 a.1) a.2

  -- A hybrid search answers at most `k` hits, and none from a file that has an unsaved version.
  search_symbols_hybrid-IsAnswer :
      (no_rows query : Text) (vector : Vector) (k : ℕ) (db : CodeDb Blob)
      (hits : List (SymbolHit F))
      → IsInStep db
      → search_symbols_hybrid env to_slash floats indices no_rows query vector k db ≡ ok hits
      → IsAnswer k db hits
  unfolding search_symbols_hybrid
  search_symbols_hybrid-IsAnswer no_rows query vector k db hits inv h =
      let last = λ (text_ids vec_ids exact : List ℕ).
        let fused = rrf_merge floats (text_ids ∷ vec_ids ∷ []) in
        symbol_hits_by_ids env to_slash floats indices no_rows (rank_map text_ids)
          (rank_map vec_ids) exact fused.1 db
          (prioritize_exact_ids floats exact fused.0 fused.1 k) in
      let with_vec = λ (text_ids : List ℕ) (near : List (ℕ × F)).
        exact_match_ids env to_slash floats indices query db
        >>= (λ exact. last text_ids (map (λ entry. entry.0) near) exact) in
      let with_text = λ (text_ids : List ℕ).
        search_symbols_vector_ids env to_slash floats indices vector 50 db >>= with_vec text_ids in
      let a =
        >>=-eq-ok (search_symbols_text_ids env to_slash floats indices query 50 db) with_text h in
      let b =
        >>=-eq-ok (search_symbols_vector_ids env to_slash floats indices vector 50 db)
          (with_vec a.0) a.2 in
      let vec_ids = map (λ entry. entry.0) b.0 in
      let c =
        >>=-eq-ok (exact_match_ids env to_slash floats indices query db) (last a.0 vec_ids) b.2 in
      let fused = rrf_merge floats (a.0 ∷ vec_ids ∷ []) in
      pinned-IsAnswer no_rows (rank_map a.0) (rank_map vec_ids) c.0 fused.0 fused.1 k db hits
        (exact_ids-AllShown env to_slash floats indices query db c.0 inv c.1)
        (λ id i. elim ((rrf_merge-In floats (a.0 ∷ vec_ids ∷ []) id).0 i) [
          | inl j ↦ text_ids-AllShown env to_slash floats indices query 50 db a.0 a.1 id j
          | inr (inl j) ↦ vector_ids-AllShown env to_slash floats indices vector 50 db b.0 b.1 id j
          | inr (inr j) ↦ absurd j
        ])
        c.2

  -- A search with SearchSymbolsAuto on tables in step that succeeds answers at most `k` hits, and
  -- none from a file that has an unsaved version, whether it uses the vector or only the text index.
  pub search_symbols_auto-IsAnswer :
      (no_rows query : Text) (k : ℕ) (vector : Result Text Vector) (db : CodeDb Blob)
      (hits : List (SymbolHit F)) (used : Bool)
      → IsInStep db
      → search_symbols_auto env to_slash floats indices no_rows query k vector db ≡ ok (hits, used)
      → IsAnswer k db hits
  unfolding search_symbols_auto
  search_symbols_auto-IsAnswer no_rows query k vector db hits used inv h =
      let a = >>=-eq-ok (exact_match_ids env to_slash floats indices query db) branches h in
      go a.0 (exact_ids-AllShown env to_slash floats indices query db a.0 inv a.1)
        (not (is_empty a.0)) vector a.2
    where
      pair : Bool → List (SymbolHit F) → Result StoreError (List (SymbolHit F) × Bool)
      pair b hs = ok (hs, b)

      semantic : Result Text Vector → Result StoreError (List (SymbolHit F) × Bool)
      semantic v = elim v [
        | err e ↦ err (database e)
        | ok v ↦
            search_symbols_hybrid env to_slash floats indices no_rows query v k db >>= pair true
      ]

      exactly : List ℕ → Result StoreError (List (SymbolHit F) × Bool)
      exactly exact =
          search_symbols_text_exact env to_slash floats indices no_rows query k exact db
          >>= pair false

      branches : List ℕ → Result StoreError (List (SymbolHit F) × Bool)
      branches exact = if not (is_empty exact) then exactly exact else semantic vector

      first : (b : Bool) (hs : List (SymbolHit F)) → pair b hs ≡ ok (hits, used) → hs ≡ hits
      first b hs e = ap (λ r. r.0) (ok_inj e)

      go :
          (exact : List ℕ)
          → AllShown db exact
          → (b : Bool) (v : Result Text Vector)
          → (if b then exactly exact else semantic v) ≡ ok (hits, used)
          → IsAnswer k db hits
      go exact shown true v e =
          let a =
            >>=-eq-ok
              (search_symbols_text_exact env to_slash floats indices no_rows query k exact db)
              (pair false) e in
          subst (IsAnswer k db) (first false a.0 a.2)
            (text_exact-IsAnswer no_rows query k exact db a.0 shown a.1)
      go exact shown false (err x) e = cc
      go exact shown false (ok v) e =
          let a =
            >>=-eq-ok (search_symbols_hybrid env to_slash floats indices no_rows query v k db)
              (pair true) e in
          subst (IsAnswer k db) (first true a.0 a.2)
            (search_symbols_hybrid-IsAnswer no_rows query v k db a.0 inv a.1)
