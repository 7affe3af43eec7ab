-- ===== src/Store/Paras.antt =====
-- split.go: a document's paragraphs with their lines and headings.
pub mod Split
pub mod Cover
pub mod Headings
use ragrep.Common.{
  ℕ, suc, ◌+◌, ◌-◌, Text, codes, starts_with, Bool, true, false, not, ◌||◌, ◌==◌, ltb, Option, none,
  some, List, [], ◌∷◌, ◌++◌, length, take, if◌then◌else◌, trim_left, trim_space, join, lines_of,
  is_empty,
}

pub record Para : Type 0 where
  pub seq : ℕ
  pub start_line : ℕ
  pub end_line : ℕ
  pub text : Text
  pub heading : Text

unfoldable pub heading_update : List Text → Text → List Text
heading_update crumbs line =
    let rest = trim_left (λ c. c == b'#') line in
    let level = length line - length rest in
    let text = trim_space rest in
    if level == 0 || ltb 6 level || not (starts_with (codes " ") rest)
    then crumbs
    else if is_empty text
    then crumbs
    else (if ltb (level - 1) (length crumbs) then take (level - 1) crumbs else crumbs) ++ text ∷ []

-- The variables of `splitParas`; `start` is `none` for -1.
pub record Splitter : Type 0 where
  pub paras : List Para
  pub crumbs : List Text
  pub start : Option ℕ
  pub buf : List Text

unfoldable pub flush : Splitter → ℕ → Splitter
flush s end = elim s.start [
  | none ↦ s
  | some start ↦ record s {
    paras =
        s.paras
        ++ record {
          seq = length s.paras;
          start_line = start + 1;
          end_line = end;
          text = join (codes "\n") s.buf;
          heading = join (codes " > ") s.crumbs;
        }
          ∷ [];
    start = none;
    buf = [];
  }
]

-- `strings.TrimSpace(ln) == ""`.
unfoldable pub is_blank : Text → Bool
is_blank ln = is_empty (trim_space ln)

unfoldable pub take_line : Splitter → ℕ → Text → Splitter
unfolding heading_update
take_line s i ln = record s {
  start = elim s.start [ none ↦ some i | some start ↦ some start ];
  buf = s.buf ++ ln ∷ [];
  crumbs = heading_update s.crumbs ln;
}

-- The loop, from line `i` on, and the last `flush`.
unfoldable pub split_from : Splitter → ℕ → List Text → List Para
unfolding flush is_blank take_line
split_from s i [] = (flush s i).paras
split_from s i (ln ∷ lines) =
    split_from (if is_blank ln then flush s i else take_line s i ln) (i + 1) lines

abbrev pub fresh : Splitter
fresh = record { paras = []; crumbs = []; start = none; buf = [] }

unfoldable pub split_paras : Text → List Para
unfolding split_from
split_paras content = split_from fresh 0 (lines_of content)
