-- ===== src/Common/Strings.antt =====
-- The functions of Go's `strings` that the source calls, on code points.
use Prim.Native.Nat.{ℕ}
use mathlib.Core.Bool.{Bool, false, not, ◌&&◌, ◌||◌}
use mathlib.Core.List.{List, [], ◌∷◌, ◌++◌}
use ragrep.Common.Tests.{◌==◌, leb, if◌then◌else◌}
use ragrep.Common.Texts.{Text}
use ragrep.Common.Selects.{select}
use ragrep.Common.Lists.{is_empty}

-- `unicode.IsSpace`.
unfoldable pub is_space : ℕ → Bool
is_space c =
    leb 0x09 c && leb c 0x0d
    || c == 0x20
    || c == 0x85
    || c == 0xa0
    || c == 0x1680
    || leb 0x2000 c && leb c 0x200a
    || c == 0x2028
    || c == 0x2029
    || c == 0x202f
    || c == 0x205f
    || c == 0x3000

-- `strings.TrimLeftFunc` and `strings.TrimRightFunc`.
unfoldable pub trim_left : (ℕ → Bool) → Text → Text
trim_left p [] = []
trim_left p (c ∷ s) = let rest = trim_left p s in if p c then rest else c ∷ s

unfoldable pub trim_right : (ℕ → Bool) → Text → Text
trim_right p [] = []
trim_right p (c ∷ s) = elim (trim_right p s) [ [] ↦ if p c then [] else c ∷ [] | d ∷ t ↦ c ∷ d ∷ t ]

unfoldable pub trim : (ℕ → Bool) → Text → Text
unfolding trim_left trim_right
trim p s = trim_right p (trim_left p s)

unfoldable pub trim_space : Text → Text
unfolding trim is_space
trim_space = trim is_space

-- The first text grows by a code point.
unfoldable pub cons_first : ℕ → List Text → List Text
cons_first c [] = (c ∷ []) ∷ []
cons_first c (l ∷ ls) = (c ∷ l) ∷ ls

-- `strings.Split` at a separator of one code point.
unfoldable pub split : ℕ → Text → List Text
unfolding cons_first
split c [] = [] ∷ []
split c (d ∷ s) = let rest = split c s in if d == c then [] ∷ rest else cons_first d rest

-- `strings.Join`.
unfoldable pub join : Text → List Text → Text
join sep [] = []
join sep (l ∷ []) = l
join sep (l ∷ m ∷ ls) = l ++ (sep ++ join sep (m ∷ ls))

abbrev begins_line : Text → Bool
begins_line [] = false
begins_line (c ∷ s) = c == b'\n'

-- `strings.ReplaceAll(s, "\r\n", "\n")`.
unfoldable pub replace_crlf : Text → Text
replace_crlf [] = []
replace_crlf (c ∷ s) =
    let rest = replace_crlf s in if c == b'\r' && begins_line s then rest else c ∷ rest

-- `strings.Split(strings.ReplaceAll(content, "\r\n", "\n"), "\n")`.
unfoldable pub lines_of : Text → List Text
unfolding split replace_crlf
lines_of content = split b'\n' (replace_crlf content)

-- The text cut at the code points that pass the test.
unfoldable pub split_by : (ℕ → Bool) → Text → List Text
unfolding cons_first
split_by sep [] = [] ∷ []
split_by sep (c ∷ s) = let rest = split_by sep s in if sep c then [] ∷ rest else cons_first c rest

-- `strings.FieldsFunc`, and `strings.Fields` for white space.
unfoldable pub fields_func : (ℕ → Bool) → Text → List Text
unfolding split_by select
fields_func sep s = select (λ piece. not (is_empty piece)) (split_by sep s)
