-- ===== src/Tests/Extraction.antt =====
-- Offsets and extracted symbols at concrete inputs.
use ragrep.Common.{
  ℕ, ◌+◌, ◌≤◌, ◌≡◌, refl, Text, codes, List, [], ◌∷◌, map, length, select, trim_space, ◌⊎◌, All,
  Result, ok, err, arith,
}
use ragrep.CodeIndex.{Position, Range, Symbol}
use ragrep.CodeIndex.Lines.{new_line_index, offset, walk, ExtractError}
use ragrep.CodeIndex.Lines.Bounds.{walk-bound, offset-bound}
use ragrep.CodeIndex.Extract.{DocumentSymbols, extract}
use ragrep.CodeIndex.Extract.Outline.{outline, title_of, IsSound, extract-outline}

-- A line that ends in a rune of two UTF-16 units, in four bytes.
abbrev content : List ℕ
content = b'a' ∷ b'\n' ∷ b'b' ∷ 0xf0 ∷ 0x9f ∷ 0x98 ∷ 0x80 ∷ b'\n' ∷ []

abbrev at_end : Position
at_end = record { line = 1; character = 3 }

offset_end : offset (new_line_index content) at_end ≡ ok 7
unfolding offset new_line_index
offset_end = refl

offset-bound_example : 7 ≤ length content
offset-bound_example = offset-bound content at_end 7 offset_end

walk-bound_example :
    (let r = walk 5 3 0 0 (b'b' ∷ 0xf0 ∷ 0x9f ∷ 0x98 ∷ 0x80 ∷ []) in
      (r.1 ≤ 0 + 5) × ((3 ≤ r.0) ⊎ (r.1 ≡ 0 + 5)))
walk-bound_example = walk-bound 5 3 0 0 (b'b' ∷ 0xf0 ∷ 0x9f ∷ 0x98 ∷ 0x80 ∷ []) (omega arith)

-- The digest of a text is the text.
abbrev digest : Text → Text
digest text = text

abbrev whole : Range
whole = record {
  start = record { line = 0; character = 0 };
  end = record { line = 0; character = 1 };
}

abbrev tree : DocumentSymbols
tree =
    DocumentSymbols.next (codes "T") 23 whole
      (DocumentSymbols.next (codes "m") 6 whole DocumentSymbols.last DocumentSymbols.last)
      DocumentSymbols.last

abbrev extracted : Result ExtractError (List Symbol)
extracted = extract digest (codes "go") (codes "a.go") content tree

abbrev symbols_of : Result ExtractError (List Symbol) → List Symbol
symbols_of (ok out) = out
symbols_of (err e) = []

extracts : extract digest (codes "go") (codes "a.go") content tree ≡ ok (symbols_of extracted)
unfolding extract select trim_space
extracts = refl

-- A method has the name of its type in front.
titles :
    map title_of (symbols_of extracted)
    ≡ (codes "T", codes "T", [], whole) ∷ (codes "m", codes "T.m", codes "T", whole) ∷ []
unfolding extract select trim_space
titles = refl

extract-outline_example :
    (map title_of (symbols_of extracted) ≡ outline tree [] [])
    × All (IsSound digest (codes "go") (codes "a.go")) (symbols_of extracted)
extract-outline_example =
    extract-outline digest (codes "go") (codes "a.go") content tree (symbols_of extracted) extracts

-- Two functions with one name and one signature, as `init` has, get one key.
same_keys :
    map
      (λ s. s.key)
      (symbols_of (
        extract digest (codes "go") (codes "a.go") content (
          DocumentSymbols.next (codes "init") 12 whole DocumentSymbols.last (
            DocumentSymbols.next
              (codes "init")
              12
              whole
              DocumentSymbols.last
              DocumentSymbols.last))))
    ≡ codes "go\0a.go\0function\0init\0a" ∷ codes "go\0a.go\0function\0init\0a" ∷ []
unfolding extract select trim_space
same_keys = refl
