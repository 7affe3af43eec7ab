-- ===== src/Retrieval/Manifest/Resolve.antt =====
-- manifest.go: the re-resolution of a manifest's entry.
use ragrep.Common.{◌≡◌, ◌≢◌, refl, List, [], ◌∷◌, length, arith, Result, ok, err}
use ragrep.CodeIndex.{Symbol}
use ragrep.CodeStore.{StoreError, not_found, stale_live_key, database}
use ragrep.Retrieval.Manifest.{
  SymbolRef, Finder, ResolveError, ambiguous, lookup_failed, moved_to, adopt, resolve_ref,
}

-- The ways in which an entry can be resolved.
pub data Resolves (f : Finder) (ref : SymbolRef) : SymbolRef → Type 0 where
  unchanged : (sym : Symbol) → f.get_symbol ref.key ≡ ok sym → Resolves f ref ref
  moved :
      (sym : Symbol)
      → f.get_symbol ref.key ≡ err not_found
      → f.find_symbol ref.qualified_name ref.path ≡ ok (sym ∷ [])
      → Resolves f ref record ref {
        key = sym.key;
        start_line = sym.range.start.line;
        end_line = sym.range.end.line;
      }

-- The ways in which it cannot.
pub data Refuses (f : Finder) (ref : SymbolRef) : ResolveError → Type 0 where
  broken :
      (e : StoreError)
      → e ≢ not_found
      → f.get_symbol ref.key ≡ err e
      → Refuses f ref (lookup_failed e)
  unsearched :
      (e : StoreError)
      → f.get_symbol ref.key ≡ err not_found
      → f.find_symbol ref.qualified_name ref.path ≡ err e
      → Refuses f ref (lookup_failed e)
  unclear :
      (matches : List Symbol)
      → f.get_symbol ref.key ≡ err not_found
      → f.find_symbol ref.qualified_name ref.path ≡ ok matches
      → length matches ≢ 1
      → Refuses f ref (ambiguous (length matches))

abbrev pub Outcome : (f : Finder) (ref : SymbolRef) → Result ResolveError SymbolRef → Type 0
Outcome f ref (ok ref') = Resolves f ref ref'
Outcome f ref (err e) = Refuses f ref e

adopt-Outcome :
    (f : Finder) (ref : SymbolRef) (found : Result StoreError (List Symbol))
    → f.get_symbol ref.key ≡ err not_found
    → f.find_symbol ref.qualified_name ref.path ≡ found
    → Outcome f ref (adopt ref found)
unfolding adopt moved_to
adopt-Outcome f ref (err e) gone got = Refuses.unsearched e gone got
adopt-Outcome f ref (ok []) gone got = Refuses.unclear [] gone got (λ e. omega arith)
adopt-Outcome f ref (ok (sym ∷ [])) gone got = Resolves.moved sym gone got
adopt-Outcome f ref (ok (a ∷ b ∷ rest)) gone got =
    Refuses.unclear (a ∷ b ∷ rest) gone got (λ e. omega arith)

-- An entry comes back unchanged when its key is still there; only when the key is not found, and
-- the name has exactly one match in the file, does it take the key and the lines of that match.
-- Every other answer is an error, and it is one of the three that `Refuses` lists.
pub resolve_ref-Outcome : (f : Finder) (ref : SymbolRef) → Outcome f ref (resolve_ref f ref)
unfolding resolve_ref
resolve_ref-Outcome f ref = by (f.get_symbol ref.key) refl
  where
    by :
        (r : Result StoreError Symbol)
        → f.get_symbol ref.key ≡ r
        → Outcome f ref (resolve_ref f ref)
    by (ok sym) e = rw (e, resolve_ref) (Resolves.unchanged sym e)
    by (err not_found) e = rw (e, resolve_ref) (adopt-Outcome f ref _ e refl)
    by (err stale_live_key) e = rw (e, resolve_ref) (Refuses.broken stale_live_key (λ h. cc) e)
    by (err (database t)) e = rw (e, resolve_ref) (Refuses.broken (database t) (λ h. cc) e)
