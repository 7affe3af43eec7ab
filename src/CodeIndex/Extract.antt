-- ===== src/CodeIndex/Extract.antt =====
-- src/internal/codeindex/extract.go: the records of a file from the symbols of its language server.
pub mod Outline
use ragrep.Common.{
  ℕ, suc, zero, ◌+◌, ◌-◌, Text, text_eq, codes, Bool, true, false, not, ◌==◌, ltb, List, [], ◌∷◌,
  ◌++◌, length, take, drop, is_empty, is_space, starts_with, trim_space, fields_func, join, Option,
  none, some, if◌then◌else◌, Result, ok, err, ◌>>=◌,
}
use ragrep.CodeIndex.{Position, Range, Symbol}
use ragrep.CodeIndex.Render.{render_embedding_text}
use ragrep.CodeIndex.Lines.{
  LineIndex, new_line_index, line_bytes, decode_rune, offset, ExtractError,
}

-- `[]lsp.DocumentSymbol`: the first symbol with its name, kind, range and children, and the others.
pub data DocumentSymbols : Type 0 where
  last : DocumentSymbols
  next : Text → ℕ → Range → DocumentSymbols → DocumentSymbols → DocumentSymbols

-- A string of the bytes, with U+FFFD for bytes that are no encoding. There are at most `fuel` bytes.
unfoldable pub runes_of : ℕ → List ℕ → Text
unfolding decode_rune
runes_of zero s = []
runes_of (suc fuel) [] = []
runes_of (suc fuel) (c ∷ s) =
    let rune = decode_rune (c ∷ s) in rune.0 ∷ runes_of fuel (drop rune.1 (c ∷ s))

unfoldable pub to_string : List ℕ → Text
unfolding runes_of
to_string s = runes_of (length s) s

-- The text in front of a code point, if it has it.
unfoldable pub before : ℕ → Text → Option Text
before c [] = none
before c (d ∷ s) =
    let rest = before c s in
    if d == c then some [] else elim rest [ none ↦ none | some front ↦ some (d ∷ front) ]

unfoldable pub decl_signature : Text → Text
unfolding before fields_func
decl_signature body =
    let head = elim (before b'{' body) as (λ _. Text) [
      | some front ↦ front
      | none ↦ elim (before b'\n' body) as (λ _. Text) [ some line ↦ line | none ↦ body ]
    ] in
    join (codes " ") (fields_func is_space head)

unfoldable pub qualified_name : List Text → Text → Text
qualified_name containers name =
    if is_empty containers then name else join (codes ".") containers ++ b'.' ∷ name

unfoldable pub immediate_container : List Text → Text
immediate_container [] = []
immediate_container (c ∷ []) = c
immediate_container (c ∷ d ∷ containers) = immediate_container (d ∷ containers)

-- LSP's symbol kinds from 1 on.
abbrev pub symbol_kind_names : List Text
symbol_kind_names =
    codes "file"
    ∷ codes "module"
    ∷ codes "namespace"
    ∷ codes "package"
    ∷ codes "class"
    ∷ codes "method"
    ∷ codes "property"
    ∷ codes "field"
    ∷ codes "constructor"
    ∷ codes "enum"
    ∷ codes "interface"
    ∷ codes "function"
    ∷ codes "variable"
    ∷ codes "constant"
    ∷ codes "string"
    ∷ codes "number"
    ∷ codes "boolean"
    ∷ codes "array"
    ∷ codes "object"
    ∷ codes "key"
    ∷ codes "null"
    ∷ codes "enum_member"
    ∷ codes "struct"
    ∷ codes "event"
    ∷ codes "operator"
    ∷ codes "type_parameter"
    ∷ []

unfoldable pub nth_name : ℕ → List Text → Text
nth_name n [] = codes "symbol"
nth_name zero (name ∷ names) = name
nth_name (suc n) (name ∷ names) = nth_name n names

unfoldable pub kind_name : ℕ → Text
unfolding nth_name
kind_name zero = codes "symbol"
kind_name (suc k) = nth_name k symbol_kind_names

-- The comment lines above a line, the nearest last.
unfoldable pub comment_lines : LineIndex → ℕ → List Text
unfolding line_bytes to_string trim_space starts_with
comment_lines li zero = []
comment_lines li (suc n) =
    let text = trim_space (to_string (line_bytes li n)) in
    let above = comment_lines li n in
    if starts_with (codes "//") text then above ++ trim_space (drop 2 text) ∷ [] else []

unfoldable pub doc_comment : LineIndex → ℕ → Text
unfolding comment_lines join
doc_comment li decl_line = join (codes "\n") (comment_lines li decl_line)

unfoldable pub extract_body : LineIndex → Range → Result ExtractError Text
unfolding offset to_string
extract_body li r = offset li r.start >>= (λ start. offset li r.end >>= (λ end.
    if ltb end start
    then err (ExtractError.end_before_start end start)
    else ok (to_string (take (end - start) (drop start li.content)))))

-- The failure of a symbol names it.
unfoldable pub named : {A : Type 0} → Text → Result ExtractError A → Result ExtractError A
named name (ok a) = ok a
named name (err e) = err (ExtractError.in_symbol name e)

-- `hash_hex_string` is the SHA-256 digest of a string in hexadecimal.
module _ (hash_hex_string : Text → Text) where
  unfoldable pub stable_key : Text → Text → Text → Text → Text → Text
  stable_key language path kind qualified signature =
      hash_hex_string (join (0 ∷ []) (language ∷ path ∷ kind ∷ qualified ∷ signature ∷ []))

  -- The record of one symbol with its body.
  unfoldable pub symbol_of : LineIndex → Text → Text → List Text → Text → ℕ → Range → Text → Symbol
  unfolding kind_name qualified_name decl_signature doc_comment immediate_container stable_key
      render_embedding_text
  symbol_of li language rel_path containers name kind range body =
      let plain : Symbol = record {
        key =
            stable_key language rel_path (kind_name kind) (qualified_name containers name)
              (decl_signature body);
        language = language;
        kind = kind_name kind;
        name = name;
        qualified_name = qualified_name containers name;
        signature = decl_signature body;
        documentation = doc_comment li range.start.line;
        container = immediate_container containers;
        path = rel_path;
        range = range;
        body = body;
        body_hash = hash_hex_string body;
        embedding_text = [];
      } in
      record plain { embedding_text = render_embedding_text plain }

  unfoldable pub flatten :
      LineIndex → Text → Text → DocumentSymbols → List Text → Result ExtractError (List Symbol)
  unfolding extract_body named symbol_of
  flatten li language rel_path DocumentSymbols.last containers = ok []
  flatten li language rel_path (DocumentSymbols.next name kind range children others) containers =
      named name (extract_body li range) >>= (λ body.
        flatten li language rel_path children (containers ++ name ∷ []) >>= (λ below.
          flatten li language rel_path others containers >>= (λ more.
            ok (symbol_of li language rel_path containers name kind range body ∷ below ++ more))))

  unfoldable pub extract :
      Text → Text → List ℕ → DocumentSymbols → Result ExtractError (List Symbol)
  unfolding new_line_index flatten
  extract language rel_path content symbols =
      flatten (new_line_index content) language rel_path symbols []
