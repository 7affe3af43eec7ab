-- ===== src/CodeIndex/Relations.antt =====
-- src/internal/codeindex/relations.go: the relations of a symbol, from the queries of a language
-- server.
pub mod Persisted
use ragrep.Common.{
  ℕ, Text, text_eq, codes, Bool, true, false, ◌||◌, ◌&&◌, Option, none, some, List, [], ◌∷◌, ◌++◌,
  map, if◌then◌else◌, ends_with, ◌==◌,
}
use ragrep.CodeIndex.{Position, Relation}

pub record Loc : Type 0 where
  pub path : Text
  pub position : Position

abbrev pub zero_position : Position
zero_position = record { line = 0; character = 0 }

-- `Resolver`: the key of the symbol that encloses a line of a file, where there is one.
abbrev pub Resolver : Type 0
Resolver = Text → ℕ → Option Text

unfoldable pub to_relation : Text → Loc → Text → Text → Resolver → Relation
to_relation from_key loc kind source resolve = elim (resolve loc.path loc.position.line) [
  | some key ↦ record {
    from_key = from_key;
    to_key = key;
    kind = kind;
    source = source;
    to_path = [];
    to_position = zero_position;
  }
  | none ↦ record {
    from_key = from_key;
    to_key = [];
    kind = kind;
    source = source;
    to_path = loc.path;
    to_position = loc.position;
  }
]

unfoldable pub definition_relations : Text → List Loc → Text → Resolver → List Relation
unfolding to_relation
definition_relations from_key locs source resolve =
    map (λ loc. to_relation from_key loc (codes "definition") source resolve) locs

-- The kind of a reference: one from a test file is a test.
unfoldable pub reference_kind : Loc → Text
reference_kind loc =
    if ends_with (codes "_test.go") loc.path then codes "tests" else codes "references"

unfoldable pub reference_relations : Text → List Loc → Text → Resolver → List Relation
unfolding to_relation reference_kind
reference_relations from_key locs source resolve =
    map (λ loc. to_relation from_key loc (reference_kind loc) source resolve) locs

unfoldable pub caller_relations : Text → List Loc → Text → Resolver → List Relation
unfolding to_relation
caller_relations from_key callers source resolve =
    map (λ loc. to_relation from_key loc (codes "callers") source resolve) callers

unfoldable pub callee_relations : Text → List Loc → Text → Resolver → List Relation
unfolding to_relation
callee_relations from_key callees source resolve =
    map (λ loc. to_relation from_key loc (codes "callees") source resolve) callees

-- `==` on relations, which are keys of the map `seen`.
unfoldable pub relation_eq : Relation → Relation → Bool
relation_eq a b =
    text_eq a.from_key b.from_key
    && text_eq a.to_key b.to_key
    && text_eq a.kind b.kind
    && text_eq a.source b.source
    && text_eq a.to_path b.to_path
    && a.to_position.line == b.to_position.line
    && a.to_position.character == b.to_position.character

unfoldable pub seen_before : Relation → List Relation → Bool
unfolding relation_eq
seen_before r [] = false
seen_before r (s ∷ seen) = relation_eq s r || seen_before r seen

-- The loop: what was put out is what was seen.
unfoldable pub dedup_from : List Relation → List Relation → List Relation
unfolding seen_before
dedup_from out [] = out
dedup_from out (r ∷ rs) =
    dedup_from (if text_eq r.to_key [] || seen_before r out then out else out ++ r ∷ []) rs

unfoldable pub dedup_resolved_relations : List Relation → List Relation
unfolding dedup_from
dedup_resolved_relations = dedup_from []
