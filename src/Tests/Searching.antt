-- ===== src/Tests/Searching.antt =====
-- Rankings and searches at concrete inputs.
use ragrep.Common.{
  ℕ, ◌+◌, ◌-◌, if◌then◌else◌, ◌≤◌, ◌≡◌, refl, Text, codes, text_eq, true, false, Bool-cases, ◌==◌,
  ltb, none, some, List, [], ◌∷◌, ◌++◌, length, select, find, Any, In, IsNodup, inl, inr, ◌⊎◌, ◌↔◌,
  ok,
}
use ragrep.CodeStore.{SymbolHit}
use ragrep.CodeStore.Tables.{SymbolRow, CodeDb, posting}
use ragrep.CodeStore.Tables.Rows.{IsInStep}
use ragrep.CodeStore.Upsert.{CodeEnv}
use ragrep.Store.Search.{has_all_tags}
use ragrep.Store.Search.Tagged.{has_all_tags_iff}
use ragrep.CodeStore.Ranking.{Floats, rrf_merge, prioritize_exact_ids}
use ragrep.CodeStore.Ranking.Pinned.{rrf_merge-In, prioritize_exact_ids-exact}
use ragrep.CodeStore.Search.{Indices, search_symbols_auto}
use ragrep.CodeStore.Search.Shown.{IsAnswer, search_symbols_auto-IsAnswer}

abbrev env : CodeEnv ℕ ℕ
env = record {
  fault = λ db. none;
  unique_error = [];
  new_rowid = λ ids. length ids;
  serialize = λ v. ok v;
  embed = λ text. ok (length text);
}

abbrev same_path : Text → Text
same_path path = path

-- Scores are whole numbers here: more for a better rank.
abbrev points : Floats ℕ
points = record {
  nought = 0;
  plus = λ a b. a + b;
  inverse = λ n. 1000 - n;
  closeness = λ d. 1000 - d;
  same = λ a b. a == b;
  above = λ a b. ltb b a;
}

abbrev row : SymbolRow
row = record {
  id = 7;
  symbol = record {
    key = codes "k";
    language = [];
    kind = [];
    name = codes "f";
    qualified_name = codes "f";
    signature = [];
    documentation = [];
    container = [];
    path = codes "a.go";
    range = record {
      start = record { line = 0; character = 0 };
      end = record { line = 1; character = 0 };
    };
    body = [];
    body_hash = [];
    embedding_text = [];
  };
  file_hash = [];
  index_run_id = 1;
}

abbrev one_row : CodeDb ℕ
one_row = record {
  symbols = row ∷ [];
  symbol_fts = λ n.
      if 7 == n
      then record {
        name = codes "f";
        qualified_name = codes "f";
        signature = [];
        documentation = [];
        body = [];
      }
        ∷ []
      else [];
  symbol_vec = λ n. if 7 == n then some 3 else none;
  live_files = [];
  live_fts = λ path. [];
  symbol_edges = [];
  index_runs = [];
}

abbrev answers : Indices ℕ ℕ
answers = record {
  symbol_matches = λ db query. 7 ∷ [];
  nearest = λ db blob. (7, 1) ∷ [];
  live_matches = λ db query. [];
  is_letter = λ r. ltb b'A' r;
  is_digit = λ r. false;
}

-- The id that both rankings have is first.
fused : (rrf_merge points ((1 ∷ 2 ∷ []) ∷ (2 ∷ 3 ∷ []) ∷ [])).0 ≡ 2 ∷ 1 ∷ 3 ∷ []
unfolding rrf_merge
fused = refl

rrf_merge-In_example :
    In {A = ℕ} 3 (rrf_merge points ((1 ∷ 2 ∷ []) ∷ (2 ∷ 3 ∷ []) ∷ [])).0
    ↔ Any (In {A = ℕ} 3) ((1 ∷ 2 ∷ []) ∷ (2 ∷ 3 ∷ []) ∷ [])
rrf_merge-In_example = rrf_merge-In points ((1 ∷ 2 ∷ []) ∷ (2 ∷ 3 ∷ []) ∷ []) 3

prioritize_exact_ids-exact_example :
    (let ids =
        prioritize_exact_ids points (3 ∷ []) (1 ∷ 2 ∷ 3 ∷ []) ((1, 5) ∷ (2, 4) ∷ (3, 1) ∷ []) 2 in
      (length ids ≤ 2)
      × ((front : List ℕ) × (back : List ℕ) × (ids ≡ front ++ back)
          × ((x : ℕ) → In x front → In x (3 ∷ []))
          × ((x : ℕ) → In x back → (¬ (In x (3 ∷ []))) × In x (1 ∷ 2 ∷ 3 ∷ []))
          × ((length front ≡ 2) ⊎ ((x : ℕ) → In x (3 ∷ []) → In x front))))
prioritize_exact_ids-exact_example =
    prioritize_exact_ids-exact points (3 ∷ []) (1 ∷ 2 ∷ 3 ∷ []) ((1, 5) ∷ (2, 4) ∷ (3, 1) ∷ []) 2

one_row-IsInStep : IsInStep one_row
unfolding find posting
one_row-IsInStep = record {
  ids = (tt, tt);
  keys = (tt, tt);
  fts = λ n. elim (Bool-cases (7 == n)) [ inl e ↦ rw (e) refl | inr e ↦ rw (e) refl ];
  vec = λ n. elim (Bool-cases (7 == n)) [ inl e ↦ rw (e) refl | inr e ↦ rw (e) refl ];
}

abbrev hits : List (SymbolHit ℕ)
hits =
    record {
      key = codes "k";
      kind = [];
      name = codes "f";
      qualified_name = codes "f";
      signature = [];
      path = codes "a.go";
      start_line = 0;
      end_line = 1;
      fts_rank = 1;
      vec_rank = 1;
      exact_match = false;
      score = 1878;
      live = false;
      generation = 0;
      content_hash = [];
    }
    ∷ []

-- No symbol is called g, so the vector is used.
auto_hits :
    search_symbols_auto env same_path points answers (codes "no rows") (codes "g") 5 (ok 3) one_row
    ≡ ok (hits, true)
unfolding search_symbols_auto find text_eq select
auto_hits = refl

search_symbols_auto-IsAnswer_example : IsAnswer env same_path points answers 5 one_row hits
search_symbols_auto-IsAnswer_example =
    search_symbols_auto-IsAnswer env same_path points answers (codes "no rows") (codes "g") 5 (ok 3)
      one_row hits true one_row-IsInStep auto_hits

-- A tag that is wanted twice lets nothing through.
wanted_twice : has_all_tags (codes "go" ∷ codes "go" ∷ []) (codes "go" ∷ []) ≡ false
unfolding has_all_tags text_eq select
wanted_twice = refl

has_all_tags_iff_example :
    (has_all_tags (codes "go" ∷ []) (codes "db" ∷ codes "go" ∷ []) ≡ true) ↔ (
      IsNodup (codes "go" ∷ [])
      × ((t : Text) → In t (codes "go" ∷ []) → In t (codes "db" ∷ codes "go" ∷ [])))
has_all_tags_iff_example = has_all_tags_iff (codes "go" ∷ []) (codes "db" ∷ codes "go" ∷ [])
