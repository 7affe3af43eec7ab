-- ===== src/CodeStore/Search/Hits.antt =====
-- symbols.go: the ids that the searches hand out, and their hits.
use ragrep.Common.{
  ℕ, suc, ◌≡◌, refl, sym, ap, subst, ◌∙◌, Text, text_eq, Bool, true, false, ◌&&◌, ◌||◌, List, [],
  ◌∷◌, map, select, select-In, select-passes, take, length, All, In, inl, inr, Option, none, some,
  Result, ok, err, ◌>>=◌, >>=-eq-ok, arith,
}
use ragrep.CodeStore.{SymbolHit, StoreError, database}
use ragrep.CodeStore.Tables.{SymbolRow, CodeDb}
use ragrep.CodeStore.Tables.Rows.{IsInStep, find_id-In}
use ragrep.CodeStore.Upsert.{CodeEnv}
use ragrep.CodeStore.LiveFiles.{find_live, ask}
use ragrep.CodeStore.LiveSearch.{fts_query}
use ragrep.CodeStore.Ranking.{Floats}
use ragrep.CodeStore.Ranking.Pinned.{take-In}
use ragrep.CodeStore.Search.{
  Indices, row_of, is_shown, id_shown, search_symbols_text_ids, search_symbols_vector_ids,
  exact_match_ids, hit_of, symbol_hits_by_ids,
}

-- No unsaved version hides the hit.
abbrev pub Unhidden : {F Blob : Type 0} → CodeDb Blob → SymbolHit F → Type 0
Unhidden db hit = find_live hit.path db.live_files ≡ none

abbrev pub AllShown : {Blob : Type 0} → CodeDb Blob → List ℕ → Type 0
AllShown db ids = (id : ℕ) → In id ids → id_shown db id ≡ true

pub ok_inj : {A : Type 0} {x y : A} → ◌≡◌ {A = Result StoreError A} (ok x) (ok y) → x ≡ y
ok_inj h = cc

map-In :
    {A : Type 0} (f : A → ℕ) (xs : List A) (y : ℕ) → In y (map f xs) → (x : A) × In x xs × (f x ≡ y)
map-In f [] y i = absurd i
map-In f (x ∷ xs) y (inl e) = (x, inl refl, e)
map-In f (x ∷ xs) y (inr i) = let more = map-In f xs y i in (more.0, inr more.1, more.2)

module _ {F Vector Blob : Type 0} (env : CodeEnv Vector Blob) (to_slash : Text → Text)
    (floats : Floats F) (indices : Indices F Blob) where
  ask-Leads :
      {A : Type 0} (db : CodeDb Blob) (answer : Result StoreError A) (a : A)
      → ask env to_slash db answer ≡ ok a
      → answer ≡ ok a
  unfolding ask
  ask-Leads {A = A} db answer a = go (env.fault db)
    where
      go :
          (o : Option Text)
          → ◌≡◌ {A = Result StoreError A}
              (elim o [ some e ↦ err (database e) | none ↦ answer ])
              (ok a)
          → answer ≡ ok a
      go none h = h
      go (some e) h = cc

  shown-row :
      (db : CodeDb Blob) (row : SymbolRow)
      → is_shown db row ≡ true
      → find_live row.symbol.path db.live_files ≡ none
  unfolding is_shown
  shown-row db row = go (find_live row.symbol.path db.live_files)
    where
      go :
          {A : Type 0} (o : Option A)
          → ◌≡◌ {A = Bool} (elim o [ none ↦ true | some _ ↦ false ]) true
          → o ≡ none
      go none h = refl
      go (some a) h = cc

  pub symbol_hits_by_ids-Unhidden :
      (no_rows : Text) (fts vec : List (ℕ × ℕ)) (exact : List ℕ) (scores : List (ℕ × F))
      (db : CodeDb Blob) (ids : List ℕ) (hits : List (SymbolHit F))
      → AllShown db ids
      → symbol_hits_by_ids env to_slash floats indices no_rows fts vec exact scores db ids ≡ ok hits
      → All (Unhidden db) hits × (length hits ≡ length ids)
  unfolding symbol_hits_by_ids id_shown hit_of
  symbol_hits_by_ids-Unhidden no_rows fts vec exact scores db [] hits shown h =
      subst (λ hs. All (Unhidden db) hs × (length hs ≡ 0)) (ok_inj h) (tt, refl)
  symbol_hits_by_ids-Unhidden no_rows fts vec exact scores db (id ∷ ids) hits shown h =
      let next =
        symbol_hits_by_ids env to_slash floats indices no_rows fts vec exact scores db ids in
      let answer = elim (row_of id db.symbols) as (λ _. Result StoreError (SymbolHit F)) [
        | none ↦ err (database no_rows)
        | some row ↦ ok (hit_of env to_slash floats indices fts vec exact scores row)
      ] in
      let a = >>=-eq-ok (ask env to_slash db answer) (λ hit. next >>= (λ hs. ok (hit ∷ hs))) h in
      let b = >>=-eq-ok next (λ hs. ok (a.0 ∷ hs)) a.2 in
      let more =
        symbol_hits_by_ids-Unhidden no_rows fts vec exact scores db ids b.0 (λ i j. shown i (inr j))
          b.1 in
      let first =
        one (row_of id db.symbols) a.0 (shown id (inl refl)) (ask-Leads db answer a.0 a.1) in
      subst (λ hs. All (Unhidden db) hs × (length hs ≡ suc (length ids))) (ok_inj b.2)
        ((first, more.0), ap suc more.1)
    where
      one :
          (o : Option SymbolRow) (hit : SymbolHit F)
          → ◌≡◌ {A = Bool} (elim o [ none ↦ false | some row ↦ is_shown db row ]) true
          → ◌≡◌ {A = Result StoreError (SymbolHit F)}
              (elim o [
                | none ↦ err (database no_rows)
                | some row ↦ ok (hit_of env to_slash floats indices fts vec exact scores row)
              ])
              (ok hit)
          → Unhidden db hit
      one none hit s e = cc
      one (some row) hit s e = subst (Unhidden db) (ok_inj e) (shown-row db row s)

  pub text_ids-AllShown :
      (query : Text) (k : ℕ) (db : CodeDb Blob) (ids : List ℕ)
      → search_symbols_text_ids env to_slash floats indices query k db ≡ ok ids
      → AllShown db ids
  unfolding search_symbols_text_ids
  text_ids-AllShown query k db ids h =
      let matches = select (id_shown db) (indices.symbol_matches db (fts_query query)) in
      subst (AllShown db) (ok_inj (ask-Leads db (ok (take k matches)) ids h)) (λ id i.
        select-passes (id_shown db) (indices.symbol_matches db (fts_query query)) id
          (take-In k matches id i))

  pub vector_ids-AllShown :
      (vector : Vector) (k : ℕ) (db : CodeDb Blob) (near : List (ℕ × F))
      → search_symbols_vector_ids env to_slash floats indices vector k db ≡ ok near
      → AllShown db (map (λ entry. entry.0) near)
  unfolding search_symbols_vector_ids
  vector_ids-AllShown vector k db near = go (env.serialize vector)
    where
      go :
          (r : Result Text Blob)
          → ◌≡◌ {A = Result StoreError (List (ℕ × F))}
              (elim r [
                | err e ↦ err (database e)
                | ok blob ↦
                    ask env to_slash db (
                      ok (take k (select (λ entry. id_shown db entry.0) (indices.nearest db blob))))
              ])
              (ok near)
          → AllShown db (map (λ entry. entry.0) near)
      go (err e) h = cc
      go (ok blob) h =
          let fits = select (λ entry. id_shown db entry.0) (indices.nearest db blob) in
          subst (λ es. AllShown db (map (λ entry. entry.0) es))
            (ok_inj (ask-Leads db (ok (take k fits)) near h))
            (λ id i.
              let from = map-In (λ entry. entry.0) (take k fits) id i in
              ap (id_shown db) (sym from.2)
              ∙ select-passes (λ entry. id_shown db entry.0) (indices.nearest db blob) from.0
                  (take-In k fits from.0 from.1))

  pub exact_ids-AllShown :
      (query : Text) (db : CodeDb Blob) (ids : List ℕ)
      → IsInStep db
      → exact_match_ids env to_slash floats indices query db ≡ ok ids
      → AllShown db ids
  unfolding exact_match_ids id_shown row_of
  exact_ids-AllShown query db ids inv h =
      let fits : SymbolRow → Bool = λ row.
        (text_eq row.symbol.name query
          || (text_eq row.symbol.qualified_name query || text_eq row.symbol.path (to_slash query)))
        && is_shown db row in
      subst (AllShown db)
        (ok_inj (ask-Leads db (ok (map (λ row. row.id) (select fits db.symbols))) ids h))
        (λ id i.
          let from = map-In (λ row. row.id) (select fits db.symbols) id i in
          let row = from.0 in
          let passes =
            last
              (text_eq row.symbol.name query
                || (text_eq row.symbol.qualified_name query
                    || text_eq row.symbol.path (to_slash query)))
              (is_shown db row) (select-passes fits db.symbols row from.1) in
          let found = find_id-In db.symbols row inv.ids (select-In fits db.symbols row from.1) in
          subst (λ n. id_shown db n ≡ true) from.2 (by_id row found passes))
    where
      by_id :
          (row : SymbolRow)
          → row_of row.id db.symbols ≡ some row
          → is_shown db row ≡ true
          → id_shown db row.id ≡ true
      by_id row found passes =
          subst (λ o. ◌≡◌ {A = Bool} (elim o [ none ↦ false | some r ↦ is_shown db r ]) true)
            (sym found) passes

      last : (a b : Bool) → (a && b) ≡ true → b ≡ true
      last a b h = ground arith
