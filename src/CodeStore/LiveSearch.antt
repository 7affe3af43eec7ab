-- ===== src/CodeStore/LiveSearch.antt =====
-- symbols.go: unsaved files as search results and as symbols.
pub mod Fetched
use ragrep.Common.{
  ℕ, suc, zero, ◌+◌, ◌-◌, Text, text_eq, codes, Bool, true, false, not, ◌&&◌, ◌||◌, ◌==◌, leb, List,
  [], ◌∷◌, ◌++◌, map, select, find, take, length, is_empty, is_space, join, trim_right, split,
  fields_func, Option, none, some, if◌then◌else◌, Result, ok, err, ◌>>=◌,
}
use ragrep.CodeIndex.{Symbol}
use ragrep.CodeIndex.Render.{render_embedding_text}
use ragrep.CodeStore.{SymbolHit, StoreError, stale_live_key, database}
use ragrep.CodeStore.Tables.{LiveFile, CodeDb}
use ragrep.CodeStore.Upsert.{CodeEnv}
use ragrep.CodeStore.LiveKeys.{live_key, parse_live_key}
use ragrep.CodeStore.LiveFiles.{find_live, ask}

-- `strings.Count(s, c)` for one code point.
unfoldable pub occurrences : ℕ → Text → ℕ
occurrences c [] = 0
occurrences c (d ∷ s) = let rest = occurrences c s in if d == c then suc rest else rest

unfoldable pub last_of : Text → List Text → Text
last_of name [] = name
last_of name (s ∷ parts) = last_of s parts

-- `path.Base`.
unfoldable pub base : Text → Text
unfolding trim_right last_of split
base file_path =
    if is_empty file_path
    then codes "."
    else let name = last_of [] (split b'/' (trim_right (λ c. c == b'/') file_path)) in
      if is_empty name then codes "/" else name

unfoldable pub double_quotes : Text → Text
double_quotes [] = []
double_quotes (c ∷ s) =
    let rest = double_quotes s in if c == b'"' then b'"' ∷ b'"' ∷ rest else c ∷ rest

unfoldable pub quoted : Text → Text
unfolding double_quotes
quoted word = b'"' ∷ (double_quotes word ++ b'"' ∷ [])

unfoldable pub fts_query : Text → Text
unfolding fields_func quoted
fts_query query =
    let words = fields_func is_space query in
    if is_empty words then codes "\"\"" else join (codes " OR ") (map quoted words)

unfoldable pub is_identifier_char : Bool → ℕ → Bool
is_identifier_char first c =
    leb c 127
    && (c == b'_'
        || (leb b'a' c && leb c b'z'
            || (leb b'A' c && leb c b'Z' || not first && (leb b'0' c && leb c b'9'))))

unfoldable pub all_identifier_chars : Bool → Text → Bool
unfolding is_identifier_char
all_identifier_chars first [] = true
all_identifier_chars first (c ∷ s) = is_identifier_char first c && all_identifier_chars false s

unfoldable pub ascii_identifier : Text → Bool
unfolding all_identifier_chars
ascii_identifier query = all_identifier_chars true query && not (is_empty query)

unfoldable pub has_text : Text → List Text → Bool
has_text s [] = false
has_text s (t ∷ ts) = text_eq t s || has_text s ts

-- `is_letter` and `is_digit` are the tables of `unicode`.
module _ (is_letter is_digit : ℕ → Bool) where
  unfoldable pub live_exact_match : Text → Text → Text → Bool
  unfolding ascii_identifier fields_func has_text
  live_exact_match query file_path body =
      text_eq query file_path
      || ascii_identifier query
        && has_text query
            (fields_func (λ r. not (r == b'_') && (not (is_letter r) && not (is_digit r))) body)

unfoldable pub live_hit : {F : Type 0} → F → Text → LiveFile → SymbolHit F
unfolding base occurrences
live_hit nought key file = record {
  key = key;
  kind = codes "file";
  name = base file.path;
  qualified_name = [];
  signature = [];
  path = file.path;
  start_line = 0;
  end_line = occurrences b'\n' file.body + 1;
  fts_rank = 0;
  vec_rank = 0;
  exact_match = false;
  score = nought;
  live = true;
  generation = file.generation;
  content_hash = file.hash;
}

unfoldable pub live_symbol : Text → LiveFile → Symbol
unfolding base occurrences render_embedding_text
live_symbol key file =
    let sym : Symbol = record {
      key = key;
      language = [];
      kind = codes "file";
      name = base file.path;
      qualified_name = file.path;
      signature = [];
      documentation = [];
      container = [];
      path = file.path;
      range = record {
        start = record { line = 0; character = 0 };
        end = record { line = occurrences b'\n' file.body + 1; character = 0 };
      };
      body = file.body;
      body_hash = file.hash;
      embedding_text = [];
    } in
    record sym { embedding_text = render_embedding_text sym }

module _ {Vector Blob : Type 0} (env : CodeEnv Vector Blob) (to_slash : Text → Text) where
  -- What GetLiveFile does with the parts of its key.
  unfoldable pub fetch_live :
      Text → CodeDb Blob → Option (ℕ × Text × Text) → Result StoreError Symbol
  unfolding ask find_live live_symbol
  fetch_live key db none = err stale_live_key
  fetch_live key db (some (generation, hash, file_path)) =
      ask env to_slash db (elim (find_live file_path db.live_files) [
        | none ↦ err stale_live_key
        | some file ↦
            if file.deleted || (not (file.generation == generation) || not (text_eq file.hash hash))
            then err stale_live_key
            else ok (live_symbol key file)
      ])

  unfoldable pub get_live_file : Text → CodeDb Blob → Result StoreError Symbol
  unfolding parse_live_key fetch_live
  get_live_file key db = fetch_live key db (parse_live_key key)
