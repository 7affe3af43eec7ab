-- ===== src/Retrieval/Pack.antt =====
-- context.go: the budgeted context pack.
pub mod Account
mod Offered
pub mod Complete
use ragrep.Common.{
  ℕ, ◌+◌, Text, Bool, true, false, ◌≡◌, refl, Option, none, some, List, [], ◌∷◌, ◌++◌, ltb,
  if◌then◌else◌, codes, for_each, Result, ok, err, ◌>>=◌,
}
use ragrep.CodeIndex.{Position, Range, Symbol, Relation}
use ragrep.CodeStore.{SymbolHit}
use ragrep.Retrieval.Merge.{Ranged, merge_overlapping}

pub record ContextPack (F : Type 0) : Type 0 where
  pub candidates : List (SymbolHit F)
  pub symbols : List Symbol
  pub relations : List Relation
  pub budget : ℕ
  pub used_chars : ℕ
  pub truncated : Bool
  pub skipped : List Text

-- The closures of `DedupCandidates`.
abbrev pub hit_range : (F : Type 0) → Ranged (SymbolHit F)
hit_range F = record {
  path_of = λ h. h.path;
  start_of = λ h. h.start_line;
  end_of = λ h. h.end_line;
  widen = λ h s e. record h { start_line = s; end_line = e };
  path_of-widen = λ h s e. refl;
  start_of-widen = λ h s e. refl;
  end_of-widen = λ h s e. refl;
}

-- The closures of `dedupSymbols`: the characters of the range stay.
abbrev pub widen_symbol : Symbol → ℕ → ℕ → Symbol
widen_symbol s a b = record s {
  range = record {
    start = record { line = a; character = s.range.start.character };
    end = record { line = b; character = s.range.end.character };
  };
}

abbrev pub symbol_range : Ranged Symbol
symbol_range = record {
  path_of = λ s. s.path;
  start_of = λ s. s.range.start.line;
  end_of = λ s. s.range.end.line;
  widen = widen_symbol;
  path_of-widen = λ h s e. refl;
  start_of-widen = λ h s e. refl;
  end_of-widen = λ h s e. refl;
}

unfoldable pub dedup_candidates : {F : Type 0} → List (SymbolHit F) → List (SymbolHit F)
dedup_candidates {F} = merge_overlapping (hit_range F)

unfoldable pub dedup_symbols : List Symbol → List Symbol
dedup_symbols = merge_overlapping symbol_range

-- The number of bytes that `json.Marshal` writes for an item; `none` where it fails.
pub record Encoder (F : Type 0) : Type 0 where
  pub hit_size : SymbolHit F → Option ℕ
  pub symbol_size : Symbol → Option ℕ
  pub relation_size : Relation → Option ℕ

-- `SymbolGetter` and `RelationGetter`, with the type of their errors.
pub record Getters (E : Type 0) : Type 0 where
  pub get_symbol : Text → Result E Symbol
  pub get_relations : Text → Result E (List Relation)

-- The two wrapped errors: what failed, for which key, and the cause.
pub data PackError (E : Type 0) : Type 0 where
  fetch_symbol fetch_relations : Text → E → PackError E

-- `"%w"` around the error of a lookup.
unfoldable pub wrap : {A E : Type 0} → (E → PackError E) → Result E A → Result (PackError E) A
wrap f (ok a) = ok a
wrap f (err e) = err (f e)

module _ {F : Type 0} where
  -- The failing branch of `tryAdd`.
  unfoldable pub skip : ContextPack F → Text → ContextPack F
  skip p id = record p { truncated = true; skipped = p.skipped ++ id ∷ [] }

  -- `tryAdd`, over the outcome of `json.Marshal`.
  unfoldable pub try_add : ContextPack F → Option ℕ → Text → ContextPack F × Bool
  unfolding skip
  try_add p none id = (skip p id, false)
  try_add p (some cost) id =
      if ltb p.budget (p.used_chars + cost)
      then (skip p id, false)
      else (record p { used_chars = p.used_chars + cost }, true)

-- `r.FromKey + "->" + r.ToKey + ":" + r.Kind`.
abbrev pub relation_id : Relation → Text
relation_id r = r.from_key ++ (codes "->" ++ (r.to_key ++ (codes ":" ++ r.kind)))

module _ {F : Type 0} (enc : Encoder F) where
  open enc use {hit_size, symbol_size, relation_size}

  unfoldable pub add_candidate : ContextPack F → SymbolHit F → ContextPack F
  unfolding try_add
  add_candidate p c =
      let (q, fits) = try_add p (hit_size c) c.key in
      if fits then record q { candidates = q.candidates ++ c ∷ [] } else q

  unfoldable pub add_symbol : ContextPack F → Symbol → ContextPack F
  unfolding try_add
  add_symbol p s =
      let (q, fits) = try_add p (symbol_size s) s.key in
      if fits then record q { symbols = q.symbols ++ s ∷ [] } else q

  unfoldable pub add_relation : ContextPack F → Relation → ContextPack F
  unfolding try_add
  add_relation p r =
      let (q, fits) = try_add p (relation_size r) (relation_id r) in
      if fits then record q { relations = q.relations ++ r ∷ [] } else q

  -- The three stages: each candidate, the bodies of the symbols, and the relations of those.
  unfoldable pub add_candidates : ContextPack F → List (SymbolHit F) → ContextPack F
  unfolding add_candidate
  add_candidates = for_each add_candidate

  unfoldable pub add_symbols : ContextPack F → List Symbol → ContextPack F
  unfolding add_symbol
  add_symbols = for_each add_symbol

  unfoldable pub add_relations : ContextPack F → List Relation → ContextPack F
  unfolding add_relation
  add_relations = for_each add_relation

-- `fetched`: the first failing lookup ends the stage.
unfoldable pub fetch_symbols :
    {E : Type 0} → Getters E → List Text → Result (PackError E) (List Symbol)
unfolding wrap
fetch_symbols g [] = ok []
fetch_symbols g (key ∷ keys) = do
  sym ← wrap (fetch_symbol key) (g.get_symbol key)
  rest ← fetch_symbols g keys
  ok (sym ∷ rest)

-- The loop over `pack.Symbols`, which stays as it is in this stage.
unfoldable pub relate :
    {E F : Type 0}
    → Encoder F
    → Getters E
    → ContextPack F
    → List Symbol
    → Result (PackError E) (ContextPack F)
unfolding wrap add_relations
relate enc g p [] = ok p
relate enc g p (sym ∷ syms) = do
  rels ← wrap (fetch_relations sym.key) (g.get_relations sym.key)
  relate enc g (add_relations enc p rels) syms

abbrev pub empty_pack : (F : Type 0) → ℕ → ContextPack F
empty_pack F budget = record {
  candidates = [];
  symbols = [];
  relations = [];
  budget = budget;
  used_chars = 0;
  truncated = false;
  skipped = [];
}

unfoldable pub build_context_pack :
    {E F : Type 0}
    → Encoder F
    → Getters E
    → List (SymbolHit F)
    → ℕ
    → List Text
    → Result (PackError E) (ContextPack F)
unfolding dedup_candidates dedup_symbols add_candidates add_symbols fetch_symbols relate
build_context_pack {F} enc g candidates budget selected_keys = do
  let found = add_candidates enc (empty_pack F budget) (dedup_candidates candidates)
  fetched ← fetch_symbols g selected_keys
  let pack = add_symbols enc found (dedup_symbols fetched)
  relate enc g pack pack.symbols
