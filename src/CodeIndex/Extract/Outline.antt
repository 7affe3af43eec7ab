-- ===== src/CodeIndex/Extract/Outline.antt =====
-- extract.go: the records of a whole tree of symbols.
use ragrep.Common.{
  codes, join, append_assoc, ℕ, ◌≡◌, refl, sym, ap, ap₂, subst, ◌∙◌, Text, List, [], ◌∷◌, ◌++◌, map,
  map-append, All, All-append, Result, ok, ◌>>=◌, >>=-eq-ok,
}
use ragrep.CodeIndex.{Symbol, Range}
use ragrep.CodeIndex.Lines.{LineIndex, new_line_index, ExtractError}
use ragrep.CodeIndex.Extract.{
  DocumentSymbols, qualified_name, immediate_container, extract_body, named, stable_key, symbol_of,
  flatten, extract,
}

-- What a record shows of its place in the tree: the name, the dotted name, the name directly above,
-- and the range.
abbrev pub Title : Type 0
Title = Text × Text × Text × Range

-- The titles of a tree, each before those below it: `prefix` is the names above, each with a dot
-- behind it, and `parent` the nearest of them, empty at the top.
abbrev pub outline : DocumentSymbols → Text → Text → List Title
outline DocumentSymbols.last prefix parent = []
outline (DocumentSymbols.next name kind range children others) prefix parent =
    (name, prefix ++ name, parent, range) ∷ outline children (prefix ++ (name ++ codes ".")) name
    ++ outline others prefix parent

abbrev pub title_of : Symbol → Title
title_of s = (s.name, s.qualified_name, s.container, s.range)

-- The names above a symbol, each with a dot behind it.
abbrev dotted : List Text → Text
dotted [] = []
dotted (c ∷ containers) = c ++ (codes "." ++ dotted containers)

dotted-append :
    (containers : List Text) (name : Text)
    → dotted (containers ++ name ∷ []) ≡ dotted containers ++ (name ++ codes ".")
dotted-append [] name = refl
dotted-append (c ∷ containers) name =
    rw (dotted-append containers name)
      (sym (append_assoc c (codes "." ++ dotted containers) (name ++ codes ".")))

join-dotted :
    (c : Text) (containers : List Text) (name : Text)
    → join (codes ".") (c ∷ containers) ++ b'.' ∷ name ≡ dotted (c ∷ containers) ++ name
unfolding join
join-dotted c [] name = sym (append_assoc c (codes ".") name)
join-dotted c (d ∷ containers) name =
    append_assoc c (codes "." ++ join (codes ".") (d ∷ containers)) (b'.' ∷ name)
    ∙ (ap (λ t. c ++ (codes "." ++ t)) (join-dotted d containers name)
        ∙ sym (append_assoc c (codes "." ++ dotted (d ∷ containers)) name))

qualified_name-dotted :
    (containers : List Text) (name : Text)
    → qualified_name containers name ≡ dotted containers ++ name
unfolding qualified_name
qualified_name-dotted [] name = refl
qualified_name-dotted (c ∷ containers) name = join-dotted c containers name

immediate_container-append :
    (containers : List Text) (name : Text) → immediate_container (containers ++ name ∷ []) ≡ name
unfolding immediate_container
immediate_container-append [] name = refl
immediate_container-append (c ∷ []) name = refl
immediate_container-append (c ∷ d ∷ containers) name =
    immediate_container-append (d ∷ containers) name

ok_inj : {A : Type 0} {x y : A} → ◌≡◌ {A = Result ExtractError A} (ok x) (ok y) → x ≡ y
ok_inj h = cc

module _ (hash_hex_string : Text → Text) where
  -- The language and the path are the given ones, the hash is that of the body, and the key is the
  -- hash of five fields with NUL between them.
  abbrev pub IsSound : Text → Text → Symbol → Type 0
  IsSound language rel_path s =
      (s.language ≡ language)
      × (s.path ≡ rel_path)
      × (s.body_hash ≡ hash_hex_string s.body)
      × (s.key
          ≡ hash_hex_string (
              language
              ++ (codes "\0"
                  ++ (rel_path
                      ++ (codes "\0"
                          ++ (s.kind
                              ++ (codes "\0"
                                  ++ (s.qualified_name ++ (codes "\0" ++ s.signature)))))))))

  flatten-outline :
      (li : LineIndex) (language rel_path : Text) (symbols : DocumentSymbols)
      (containers : List Text) (out : List Symbol)
      → flatten hash_hex_string li language rel_path symbols containers ≡ ok out
      → (map title_of out ≡ outline symbols (dotted containers) (immediate_container containers))
        × All (IsSound language rel_path) out
  unfolding flatten symbol_of stable_key join
  flatten-outline li language rel_path DocumentSymbols.last containers out h =
      subst (λ o. (map title_of o ≡ []) × All (IsSound language rel_path) o) (ok_inj h) (refl, tt)
  flatten-outline li language rel_path (DocumentSymbols.next name kind range children others)
        containers out h =
      let inside =
        flatten hash_hex_string li language rel_path children (containers ++ name ∷ []) in
      let beside = flatten hash_hex_string li language rel_path others containers in
      let s = λ (body : Text).
        symbol_of hash_hex_string li language rel_path containers name kind range body in
      let a =
        >>=-eq-ok (named name (extract_body li range))
          (λ body. inside >>= (λ below. beside >>= (λ more. ok (s body ∷ below ++ more)))) h in
      let b = >>=-eq-ok inside (λ below. beside >>= (λ more. ok (s a.0 ∷ below ++ more))) a.2 in
      let c = >>=-eq-ok beside (λ more. ok (s a.0 ∷ b.0 ++ more)) b.2 in
      let below = flatten-outline li language rel_path children (containers ++ name ∷ []) b.0 b.1 in
      let more = flatten-outline li language rel_path others containers c.0 c.1 in
      let tree : map title_of b.0
          ≡ outline children (dotted containers ++ (name ++ codes ".")) name =
        below.0
        ∙ ap₂ (outline children) (dotted-append containers name)
            (immediate_container-append containers name) in
      subst
        (λ o.
          (map title_of o
            ≡ outline (DocumentSymbols.next name kind range children others) (dotted containers)
                (immediate_container containers))
          × All (IsSound language rel_path) o)
        (ok_inj c.2)
        (
          ap₂ (λ q titles. (name, q, immediate_container containers, range) ∷ titles)
              (qualified_name-dotted containers name)
              (map-append title_of b.0 c.0 ∙ ap₂ (λ xs ys. xs ++ ys) tree more.0),
          ((refl, refl, refl, refl), All-append (IsSound language rel_path) b.0 c.0 below.1 more.1),
        )

  -- When Extract succeeds, there is one record for each symbol of the tree, in its order, those below
  -- a symbol right behind it: with its name, the names above it and its own joined by dots, the name
  -- directly above it (empty at the top), and its range. Each record has the language and the path, the
  -- hash of its body, and as key the hash of language, path, kind, dotted name and signature.
  pub extract-outline :
      (language rel_path : Text) (content : List ℕ) (symbols : DocumentSymbols) (out : List Symbol)
      → extract hash_hex_string language rel_path content symbols ≡ ok out
      → (map title_of out ≡ outline symbols [] []) × All (IsSound language rel_path) out
  unfolding extract
  extract-outline language rel_path content symbols out h =
      flatten-outline (new_line_index content) language rel_path symbols [] out h
