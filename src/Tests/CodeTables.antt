-- ===== src/Tests/CodeTables.antt =====
-- Runs of the code store on tables in memory, and the theorems about it at concrete inputs.
use ragrep.Common.{
  ◌↔◌, ℕ, ◌+◌, ◌≤◌, ◌≡◌, ◌≢◌, refl, Text, codes, text_eq, text_eq_iff, Bool, true, false, none,
  some, List, [], ◌∷◌, ◌++◌, length, map, select, find, In, IsNodup, inl, inr, ◌⊎◌, Result, ok, err,
  arith,
}
use ragrep.CodeIndex.{Symbol, Relation}
use ragrep.CodeStore.{StoreError, database}
use ragrep.CodeStore.Tables.{Edge, LiveFile, CodeDb, existing_symbol_rows}
use ragrep.CodeStore.Tables.Rows.{IsInStep}
use ragrep.CodeStore.Upsert.{CodeEnv, upsert_symbols}
use ragrep.CodeStore.Upsert.Drops.{symbol_keys, IsFresh}
use ragrep.CodeStore.Upsert.Distinct.{upsert_symbols-distinct}
use ragrep.CodeStore.LiveFiles.{put_live_file_row}
use ragrep.CodeStore.Edges.{replace_relations}
use ragrep.CodeStore.Edges.Replaced.{AllDifferent, row_of, replace_relations-finally}
use ragrep.CodeStore.Lookups.{symbol_at}
use ragrep.CodeStore.Lookups.Innermost.{IsInnermost, symbol_at-IsInnermost}
use ragrep.CodeStore.Reachable.{empty_db, AllInStep, Reachable, Reachable-AllInStep}

abbrev sum : List ℕ → ℕ
sum [] = 0
sum (n ∷ ns) = n + sum ns

In-sum : (n : ℕ) (ns : List ℕ) → In n ns → n ≤ sum ns
In-sum n [] i = absurd i
In-sum n (m ∷ ns) (inl e) = omega (arith, e)
In-sum n (m ∷ ns) (inr i) = omega (arith, In-sum n ns i)

-- The embedding of a text is its length.
abbrev env : CodeEnv ℕ ℕ
env = record {
  fault = λ db. none;
  unique_error = codes "UNIQUE constraint failed";
  new_rowid = λ ids. sum ids + 1;
  serialize = λ v. ok v;
  embed = λ text. ok (length text);
}

env-IsFresh : IsFresh env
env-IsFresh ids i = omega (arith, In-sum (sum ids + 1) ids i)

abbrev same_path : Text → Text
same_path path = path

-- A function of `a.go` with its lines.
abbrev function_at : Text → ℕ → ℕ → Symbol
function_at name start end = record {
  key = codes "k" ++ name;
  language = codes "go";
  kind = codes "function";
  name = name;
  qualified_name = name;
  signature = [];
  documentation = [];
  container = [];
  path = codes "a.go";
  range = record {
    start = record { line = start; character = 0 };
    end = record { line = end; character = 0 };
  };
  body = name;
  body_hash = name;
  embedding_text = name;
}

abbrev two_functions : List Symbol
two_functions = function_at (codes "f") 0 9 ∷ function_at (codes "g") 3 5 ∷ []

abbrev indexed_db : CodeDb ℕ
indexed_db = (upsert_symbols env (codes "a.go") (codes "h") two_functions 1 empty_db).0

apart : (a b : Text) → text_eq a b ≡ false → a ≢ b
apart a b h e = cc (h, (text_eq_iff a b).1 e)

two-distinct : IsNodup (symbol_keys two_functions)
unfolding text_eq
two-distinct = ((apart (codes "kg") (codes "kf") refl, tt), (tt, tt))

abbrev dirty : LiveFile
dirty = record {
  path = codes "a.go";
  hash = codes "x";
  body = codes "b";
  generation = 1;
  deleted = false;
}

Reachable-AllInStep_example : AllInStep (put_live_file_row env same_path dirty indexed_db).0
Reachable-AllInStep_example =
    Reachable-AllInStep env same_path (put_live_file_row env same_path dirty indexed_db).0
      env-IsFresh
      (Reachable.put dirty indexed_db (
        Reachable.upserted (codes "a.go") (codes "h") two_functions 1 empty_db two-distinct
          Reachable.created))

-- The write goes through.
two_functions_written :
    ◌≡◌ {A = Result {0, 0} StoreError Bool}
      (upsert_symbols env (codes "a.go") (codes "h") two_functions 1 empty_db).1
      (ok true)
unfolding upsert_symbols empty_db find text_eq select
two_functions_written = refl

-- Two symbols with one key, as two `init` functions have, make it fail.
two_inits_refused :
    ◌≡◌ {A = Result {0, 0} StoreError Bool}
      (upsert_symbols env
        (codes "a.go")
        (codes "h")
        (function_at (codes "init") 0 1 ∷ function_at (codes "init") 3 4 ∷ [])
        1
        empty_db).1
      (err (database (codes "UNIQUE constraint failed")))
unfolding upsert_symbols empty_db find text_eq select
two_inits_refused = refl

empty-IsInStep : IsInStep {Blob = ℕ} empty_db
unfolding empty_db find
empty-IsInStep = record { ids = tt; keys = tt; fts = λ n. refl; vec = λ n. refl }

no_rows : existing_symbol_rows (codes "a.go") (empty_db {Blob = ℕ}).symbols ≡ []
unfolding existing_symbol_rows empty_db select
no_rows = refl

inner_found : symbol_at env same_path (codes "a.go") 4 indexed_db ≡ ok (some (codes "kg"))
unfolding symbol_at upsert_symbols empty_db find text_eq select
inner_found = refl

upsert_symbols-distinct_example : IsNodup (symbol_keys two_functions)
upsert_symbols-distinct_example =
    upsert_symbols-distinct env (codes "a.go") (codes "h") two_functions 1 empty_db env-IsFresh
      empty-IsInStep no_rows two_functions_written

symbol_at-IsInnermost_example : IsInnermost (codes "a.go") 4 indexed_db.symbols (some (codes "kg"))
symbol_at-IsInnermost_example =
    symbol_at-IsInnermost env same_path (codes "a.go") 4 indexed_db (some (codes "kg")) inner_found

abbrev call : Relation
call = record {
  from_key = codes "kf";
  to_key = codes "kg";
  kind = codes "callees";
  source = codes "lsp";
  to_path = [];
  to_position = record { line = 0; character = 0 };
}

replace_relations-finally_example :
    (let r = replace_relations env 2 (codes "kf") (codes "callees" ∷ []) (call ∷ []) indexed_db in
      ((e : Text) × (r ≡ (indexed_db, err (database e))))
      ⊎ ((stays : Edge → Bool) × ((e : Edge)
            → (stays e ≡ false) ↔ ((e.from_key ≡ codes "kf") × In e.kind (codes "callees" ∷ [])))
          × (let edges = select stays indexed_db.symbol_edges in
              AllDifferent 2 edges (call ∷ [])
              × (r ≡ (
                record indexed_db { symbol_edges = edges ++ map (row_of 2) (call ∷ []) },
                ok tt,
              )))))
replace_relations-finally_example =
    replace_relations-finally env 2 (codes "kf") (codes "callees" ∷ []) (call ∷ []) indexed_db refl
