-- ===== src/CodeStore/Tables.antt =====
-- The tables of code.db (store.go's schema), and the statements of symbols.go on symbols.
pub mod Rows
use ragrep.Common.{
  ℕ, Text, text_eq, Bool, true, false, not, ◌&&◌, ◌||◌, ◌==◌, List, [], ◌∷◌, ◌++◌, map, select,
  find, Option, none, some, if◌then◌else◌,
}
use ragrep.CodeIndex.{Symbol}

-- The columns of a symbol; `embedding_text` is not among them, and is empty here.
pub record SymbolRow : Type 0 where
  pub id : ℕ
  pub symbol : Symbol
  pub file_hash : Text
  pub index_run_id : ℕ

-- What the text index holds under a rowid.
pub record Posting : Type 0 where
  pub name : Text
  pub qualified_name : Text
  pub signature : Text
  pub documentation : Text
  pub body : Text

-- A row of `live_files`.
pub record LiveFile : Type 0 where
  pub path : Text
  pub hash : Text
  pub body : Text
  pub generation : ℕ
  pub deleted : Bool

pub record Edge : Type 0 where
  pub from_key : Text
  pub to_key : Text
  pub kind : Text
  pub source : Text
  pub index_run_id : ℕ

pub record IndexRun : Type 0 where
  pub id : ℕ
  pub scope : Text
  pub revision : Text
  pub language : Text
  pub server_name : Text
  pub server_version : Text
  pub model_id : Text
  pub created_at : Text

-- The two text indices have the values inserted under a rowid and not deleted again. `live_fts` is
-- keyed by the path, which stands for the rowid of the path's row.
pub record CodeDb (Blob : Type 0) : Type 0 where
  pub symbols : List SymbolRow
  pub symbol_fts : ℕ → List Posting
  pub symbol_vec : ℕ → Option Blob
  pub live_files : List LiveFile
  pub live_fts : Text → List Text
  pub symbol_edges : List Edge
  pub index_runs : List IndexRun

-- The stored columns of a symbol.
unfoldable pub columns : Symbol → Symbol
columns sym = record sym { embedding_text = [] }

unfoldable pub posting : Symbol → Posting
posting sym = record {
  name = sym.name;
  qualified_name = sym.qualified_name;
  signature = sym.signature;
  documentation = sym.documentation;
  body = sym.body;
}

unfoldable pub posting_eq : Posting → Posting → Bool
posting_eq p q =
    text_eq p.name q.name
    && (text_eq p.qualified_name q.qualified_name
        && (text_eq p.signature q.signature
            && (text_eq p.documentation q.documentation && text_eq p.body q.body)))

-- The `delete` command of fts5 takes out one entry with exactly the given values.
unfoldable pub take_out : Posting → List Posting → List Posting
unfolding posting_eq
take_out p [] = []
take_out p (q ∷ ps) = let rest = take_out p ps in if posting_eq p q then ps else q ∷ rest

-- A function with another value at one point.
unfoldable pub assign : {A : Type 0} → ℕ → A → (ℕ → A) → ℕ → A
assign n value f m = if n == m then value else f m

unfoldable pub find_key : Text → List SymbolRow → Option SymbolRow
find_key key = find (λ row. text_eq row.symbol.key key)

-- `SELECT … FROM symbols WHERE path=?`.
unfoldable pub existing_symbol_rows : Text → List SymbolRow → List SymbolRow
existing_symbol_rows path = select (λ row. text_eq row.symbol.path path)

module _ {Blob : Type 0} where
  unfoldable pub fts_delete : ℕ → Posting → CodeDb Blob → CodeDb Blob
  unfolding assign take_out
  fts_delete id p db = record db {
    symbol_fts = assign id (take_out p (db.symbol_fts id)) db.symbol_fts;
  }

  unfoldable pub fts_insert : ℕ → Posting → CodeDb Blob → CodeDb Blob
  unfolding assign
  fts_insert id p db = record db { symbol_fts = assign id (p ∷ db.symbol_fts id) db.symbol_fts }

  unfoldable pub vec_delete : ℕ → CodeDb Blob → CodeDb Blob
  unfolding assign
  vec_delete id db = record db { symbol_vec = assign id none db.symbol_vec }

  unfoldable pub vec_insert : ℕ → Blob → CodeDb Blob → CodeDb Blob
  unfolding assign
  vec_insert id blob db = record db { symbol_vec = assign id (some blob) db.symbol_vec }

  unfoldable pub edges_delete : Text → CodeDb Blob → CodeDb Blob
  edges_delete key db = record db {
    symbol_edges = select (λ e. not (text_eq e.from_key key)) db.symbol_edges;
  }

  unfoldable pub row_delete : ℕ → CodeDb Blob → CodeDb Blob
  row_delete id db = record db { symbols = select (λ row. not (row.id == id)) db.symbols }

  unfoldable pub row_insert : SymbolRow → CodeDb Blob → CodeDb Blob
  row_insert row db = record db { symbols = db.symbols ++ row ∷ [] }

  -- Every column but `id` and `key`.
  unfoldable pub row_update : ℕ → Symbol → Text → ℕ → CodeDb Blob → CodeDb Blob
  unfolding columns
  row_update id sym file_hash run db = record db {
    symbols =
        map
          (λ row.
            if row.id == id
            then record row {
              symbol = record (columns sym) { key = row.symbol.key };
              file_hash = file_hash;
              index_run_id = run;
            }
            else row)
          db.symbols;
  }
