-- ===== src/Retrieval/Manifest.antt =====
-- manifest.go: stale checks and the re-resolution of a manifest's entries.
pub mod Stale
pub mod Resolve
use ragrep.Common.{
  ℕ, Text, text_eq, Bool, true, false, ◌||◌, not, Option, none, some, List, [], ◌∷◌, ◌++◌, length,
  if◌then◌else◌, Result, ok, err,
}
use ragrep.CodeIndex.{Symbol}
use ragrep.CodeStore.{StoreError, not_found}

pub record SymbolRef : Type 0 where
  pub key : Text
  pub qualified_name : Text
  pub path : Text
  pub start_line : ℕ
  pub end_line : ℕ
  pub file_hash : Text

pub record Manifest : Type 0 where
  pub index_revision : Text
  pub server_name : Text
  pub server_version : Text
  pub model_id : Text
  pub symbols : List SymbolRef

pub record StaleEntry : Type 0 where
  pub key : Text
  pub path : Text
  pub stale : Bool

pub record StaleReport : Type 0 where
  pub entries : List StaleEntry
  pub stale : Bool

-- `cached`: the hash of a file, or that it could not be read.
pub data Cached : Type 0 where
  hashed : Text → Cached
  unread : Cached

unfoldable pub lookup : Text → List (Text × Cached) → Option Cached
lookup path [] = none
lookup path ((p, c) ∷ cache) = if text_eq p path then some c else lookup path cache

-- `c.unread || c.hash != ref.FileHash`.
unfoldable pub is_stale : Cached → Text → Bool
is_stale unread expected = true
is_stale (hashed h) expected = not (text_eq h expected)

-- The files are read once each: `read_file` is their content during the check, `none` where the
-- read fails. `file_hash` is `codeindex.FileHash`, a SHA-256 digest.
module _ {Bytes : Type 0} (read_file : Text → Option Bytes) (file_hash : Bytes → Text) where
  abbrev pub read : Text → Cached
  read path = elim (read_file path) [ none ↦ unread | some content ↦ hashed (file_hash content) ]

  -- `c, ok := cache[ref.Path]; if !ok { ... cache[ref.Path] = c }`.
  unfoldable pub fetch : Text → List (Text × Cached) → Cached × List (Text × Cached)
  unfolding lookup
  fetch path cache = elim (lookup path cache) [
    | some c ↦ (c, cache)
    | none ↦ (read path, (path, read path) ∷ cache)
  ]

  unfoldable pub check_from : List (Text × Cached) → StaleReport → List SymbolRef → StaleReport
  unfolding fetch is_stale
  check_from cache report [] = report
  check_from cache report (ref ∷ refs) =
      let (c, cache') = fetch ref.path cache in
      let stale = is_stale c ref.file_hash in
      let entry : StaleEntry = record { key = ref.key; path = ref.path; stale = stale } in
      check_from cache'
        (record { entries = report.entries ++ entry ∷ []; stale = report.stale || stale }) refs

  unfoldable pub check_stale : Manifest → StaleReport
  unfolding check_from
  check_stale m = check_from [] (record { entries = []; stale = false }) m.symbols

-- `ErrAmbiguousResolution` with the number of matches, or the error of a lookup.
pub data ResolveError : Type 0 where
  ambiguous : ℕ → ResolveError
  lookup_failed : StoreError → ResolveError

-- `SymbolGetter` and `SymbolFinder`.
pub record Finder : Type 0 where
  pub get_symbol : Text → Result StoreError Symbol
  pub find_symbol : Text → Text → Result StoreError (List Symbol)

-- The entry with the key and the lines of its only match.
unfoldable pub moved_to : SymbolRef → Symbol → SymbolRef
moved_to ref sym = record ref {
  key = sym.key;
  start_line = sym.range.start.line;
  end_line = sym.range.end.line;
}

unfoldable pub adopt : SymbolRef → Result StoreError (List Symbol) → Result ResolveError SymbolRef
unfolding moved_to
adopt ref (err e) = err (lookup_failed e)
adopt ref (ok (sym ∷ [])) = ok (moved_to ref sym)
adopt ref (ok matches) = err (ambiguous (length matches))

unfoldable pub resolve_ref : Finder → SymbolRef → Result ResolveError SymbolRef
unfolding adopt
resolve_ref f ref = elim (f.get_symbol ref.key) [
  | ok sym ↦ ok ref
  | err not_found ↦ adopt ref (f.find_symbol ref.qualified_name ref.path)
  | err e ↦ err (lookup_failed e)
]
