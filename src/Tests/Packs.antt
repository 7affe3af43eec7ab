-- ===== src/Tests/Packs.antt =====
-- Context packs, manifests and relations.
use ragrep.Common.{
  Any, ℕ, Text, text_eq, codes, true, false, ◌≡◌, refl, ◌↔◌, Option, none, some, List, [], ◌∷◌, map,
  if◌then◌else◌, ok, err, Sublist, In, IsNodup, ◌≢◌,
}
use ragrep.CodeIndex.{Symbol, Relation}
use ragrep.CodeIndex.Relations.{dedup_resolved_relations}
use ragrep.CodeIndex.Relations.Persisted.{dedup_resolved_relations_lem}
use ragrep.CodeStore.{SymbolHit, not_found}
use ragrep.Retrieval.Merge.{
  merge_overlapping, merge_from, collapse_overlaps, collapse_fuel, merge_once, merge_into, apart,
  absorb,
}
use ragrep.Retrieval.Merge.Disjoint.{IsDisjoint, merge_overlapping-IsDisjoint}
use ragrep.Retrieval.Merge.Coverage.{Covers, merge_overlapping-Covers, merge_overlapping-Sublist}
use ragrep.Retrieval.Pack.{
  hit_range, Encoder, Getters, ContextPack, build_context_pack, dedup_candidates, dedup_symbols,
}
use ragrep.Retrieval.Pack.Account.{IsAccounted, build_context_pack-IsAccounted}
use ragrep.Retrieval.Pack.Complete.{IsComplete, build_context_pack-IsComplete}
use ragrep.Retrieval.Manifest.{SymbolRef, Manifest, Finder, check_stale, resolve_ref, moved_to}
use ragrep.Retrieval.Manifest.Stale.{AllVerdicts, check_stale-verdict}
use ragrep.Retrieval.Manifest.Resolve.{Outcome, resolve_ref-Outcome}

abbrev hit : Text → ℕ → ℕ → SymbolHit ℕ
hit key first last = record {
  key = key;
  kind = codes "function";
  name = key;
  qualified_name = key;
  signature = [];
  path = codes "a.go";
  start_line = first;
  end_line = last;
  fts_rank = 0;
  vec_rank = 0;
  exact_match = false;
  score = 0;
  live = false;
  generation = 0;
  content_hash = [];
}

-- The last hit bridges the first two.
abbrev bridged : List (SymbolHit ℕ)
bridged = hit (codes "f") 0 5 ∷ hit (codes "g") 20 25 ∷ hit (codes "h") 4 22 ∷ []

bridged_merge : dedup_candidates bridged ≡ hit (codes "f") 0 25 ∷ []
unfolding dedup_candidates merge_overlapping merge_from collapse_overlaps collapse_fuel merge_once
    merge_into apart absorb text_eq
bridged_merge = refl

merge_overlapping-IsDisjoint_example :
    IsDisjoint (hit_range ℕ) (merge_overlapping (hit_range ℕ) bridged)
merge_overlapping-IsDisjoint_example = merge_overlapping-IsDisjoint (hit_range ℕ) bridged

merge_overlapping-Covers_example :
    Covers (hit_range ℕ) (codes "a.go") 15 (merge_overlapping (hit_range ℕ) bridged)
    ↔ Covers (hit_range ℕ) (codes "a.go") 15 bridged
merge_overlapping-Covers_example = merge_overlapping-Covers (hit_range ℕ) (codes "a.go") 15 bridged

merge_overlapping-Sublist_example :
    Sublist (map (λ h. h.key) (merge_overlapping (hit_range ℕ) bridged)) (map (λ h. h.key) bridged)
merge_overlapping-Sublist_example =
    merge_overlapping-Sublist (hit_range ℕ) (λ h. h.key) (λ h s e. refl) bridged

abbrev symbol : Text → Symbol
symbol key = record {
  key = key;
  language = codes "go";
  kind = codes "function";
  name = key;
  qualified_name = key;
  signature = [];
  documentation = [];
  container = [];
  path = codes "a.go";
  range = record {
    start = record { line = 1; character = 0 };
    end = record { line = 3; character = 1 };
  };
  body = [];
  body_hash = [];
  embedding_text = [];
}

-- Every candidate costs 10, every symbol 20 and every relation 5.
abbrev flat : Encoder ℕ
flat = record { hit_size = λ h. some 10; symbol_size = λ s. some 20; relation_size = λ r. some 5 }

abbrev edge : Text → Text → Relation
edge a b = record {
  from_key = a;
  to_key = b;
  kind = codes "callers";
  source = codes "gopls";
  to_path = [];
  to_position = record { line = 0; character = 0 };
}

abbrev index : Getters ℕ
index = record {
  get_symbol = λ k. ok (symbol k);
  get_relations = λ k. ok (edge k (codes "x") ∷ edge k (codes "y") ∷ []);
}

-- A budget of 36 has room for the merged candidate, the symbol and one of its two relations.
abbrev small_pack : ContextPack ℕ
small_pack = record {
  candidates = hit (codes "f") 0 25 ∷ [];
  symbols = symbol (codes "f") ∷ [];
  relations = edge (codes "f") (codes "x") ∷ [];
  budget = 36;
  used_chars = 35;
  truncated = true;
  skipped = codes "f->y:callers" ∷ [];
}

small_pack_built : build_context_pack flat index bridged 36 (codes "f" ∷ []) ≡ ok small_pack
unfolding build_context_pack dedup_candidates dedup_symbols merge_overlapping merge_from
    collapse_overlaps collapse_fuel merge_once merge_into apart absorb text_eq
small_pack_built = refl

build_context_pack-IsAccounted_example : IsAccounted flat 36 small_pack
build_context_pack-IsAccounted_example =
    build_context_pack-IsAccounted flat index bridged 36 (codes "f" ∷ []) small_pack_built

build_context_pack-IsComplete_example : IsComplete flat index bridged (codes "f" ∷ []) small_pack
build_context_pack-IsComplete_example =
    build_context_pack-IsComplete flat index bridged 36 (codes "f" ∷ []) small_pack_built

abbrev entry : Text → Text → SymbolRef
entry path hash = record {
  key = codes "k";
  qualified_name = codes "q";
  path = path;
  start_line = 1;
  end_line = 2;
  file_hash = hash;
}

abbrev manifest : Manifest
manifest = record {
  index_revision = [];
  server_name = [];
  server_version = [];
  model_id = [];
  symbols =
      entry (codes "a") (codes "1")
      ∷ entry (codes "b") (codes "1")
      ∷ entry (codes "a") (codes "2")
      ∷ [];
}

-- File `a` holds the text 1; no other file can be read. The hash of a text is the text.
abbrev disk : Text → Option Text
disk p = if text_eq p (codes "a") then some (codes "1") else none

check_stale-verdict_example :
    (let report = check_stale disk (λ b. b) manifest in
      AllVerdicts disk (λ b. b) manifest.symbols report.entries
      × ((report.stale ≡ true) ↔ Any (λ e. e.stale ≡ true) report.entries))
check_stale-verdict_example = check_stale-verdict disk (λ b. b) manifest

-- The key is gone, and the name has one match.
abbrev finder : Finder
finder = record {
  get_symbol = λ k. err not_found;
  find_symbol = λ q p. ok (symbol (codes "new") ∷ []);
}

resolve_ref_moved :
    resolve_ref finder (entry (codes "a") (codes "1"))
    ≡ ok (moved_to (entry (codes "a") (codes "1")) (symbol (codes "new")))
unfolding resolve_ref
resolve_ref_moved = refl

resolve_ref-Outcome_example :
    Outcome finder
      (entry (codes "a") (codes "1"))
      (resolve_ref finder (entry (codes "a") (codes "1")))
resolve_ref-Outcome_example = resolve_ref-Outcome finder (entry (codes "a") (codes "1"))

abbrev calls : List Relation
calls = edge (codes "f") (codes "x") ∷ edge (codes "f") [] ∷ edge (codes "f") (codes "x") ∷ []

calls_deduped : dedup_resolved_relations calls ≡ edge (codes "f") (codes "x") ∷ []
unfolding dedup_resolved_relations text_eq
calls_deduped = refl

dedup_resolved_relations_lem_example :
    ((r : Relation) → In r (dedup_resolved_relations calls) ↔ (In r calls × (r.to_key ≢ [])))
    × IsNodup (dedup_resolved_relations calls)
    × Sublist (dedup_resolved_relations calls) calls
dedup_resolved_relations_lem_example = dedup_resolved_relations_lem calls
