-- ===== src/Store/Frontmatter.antt =====
-- frontmatter.go, and the lines of store.go that hide the frontmatter from the paragraphs.
pub mod Hidden
use ragrep.Common.{
  ℕ, zero, suc, ◌+◌, ◌-◌, Text, text_eq, codes, starts_with, Bool, true, false, ◌||◌, ◌&&◌, ◌==◌,
  ltb, Option, none, some, List, [], ◌∷◌, ◌++◌, map, length, take, drop, for_each, if◌then◌else◌,
  is_empty, trim, trim_space, split, join, lines_of,
}
use ragrep.Store.Paras.{Para, split_paras}

-- `strings.TrimSpace(line) == "---"`.
unfoldable pub is_fence : Text → Bool
is_fence line = text_eq (trim_space line) (codes "---")

-- The loop, from index `i` on.
unfoldable pub find_fence : ℕ → List Text → Option ℕ
unfolding is_fence
find_fence i [] = none
find_fence i (line ∷ lines) =
    let rest = find_fence (i + 1) lines in if is_fence line then some i else rest

-- `none` for -1.
unfoldable pub frontmatter_end : List Text → Option ℕ
unfolding find_fence
frontmatter_end [] = none
frontmatter_end (line ∷ lines) = if is_fence line then find_fence 1 lines else none

unfoldable pub frontmatter_line_count : Text → ℕ
unfolding frontmatter_end
frontmatter_line_count content = elim (frontmatter_end (lines_of content)) [
  | none ↦ 0
  | some end ↦ end + 1
]

unfoldable pub blank_first : ℕ → List Text → List Text
blank_first zero lines = lines
blank_first (suc n) [] = []
blank_first (suc n) (line ∷ lines) = [] ∷ blank_first n lines

unfoldable pub blank_lines : Text → ℕ → Text
unfolding blank_first
blank_lines content n = join (codes "\n") (blank_first n (lines_of content))

-- `paraSrc` of `upsertDocWithHashContext`, and its paragraphs.
unfoldable pub para_src : Text → Text
unfolding frontmatter_line_count blank_lines
para_src content =
    let fm_lines = frontmatter_line_count content in
    if ltb 0 fm_lines then blank_lines content fm_lines else content

unfoldable pub indexed_paras : Text → List Para
unfolding para_src
indexed_paras content = split_paras (para_src content)

-- `strings.CutPrefix`.
unfoldable pub cut_prefix : Text → Text → Option Text
cut_prefix [] s = some s
cut_prefix (c ∷ p) [] = none
cut_prefix (c ∷ p) (d ∷ s) = let rest = cut_prefix p s in if c == d then rest else none

unfoldable pub contains : Text → List Text → Bool
contains t [] = false
contains t (s ∷ ss) = text_eq s t || contains t ss

-- `lower` is `unicode.ToLower`, which `strings.ToLower` applies to each code point.
module _ (lower : ℕ → ℕ) where
  -- `strings.ToLower(strings.Trim(strings.TrimSpace(raw), "\"'"))`.
  unfoldable pub clean_tag : Text → Text
  clean_tag raw = map lower (trim (λ c. c == b'"' || c == b'\'') (trim_space raw))

  -- The closure `add`: the tags are the keys of `seen`.
  unfoldable pub add_tag : List Text → Text → List Text
  unfolding clean_tag contains
  add_tag tags raw =
      let t = clean_tag raw in if is_empty t || contains t tags then tags else tags ++ t ∷ []

  -- The block list on the lines behind `tags:`.
  unfoldable pub block_tags : List Text → List Text → List Text
  unfolding add_tag cut_prefix
  block_tags tags [] = tags
  block_tags tags (line ∷ lines) = elim (cut_prefix (codes "- ") (trim_space line)) [
    | none ↦ tags
    | some item ↦ block_tags (add_tag tags item) lines
  ]

  unfoldable pub inline_tags : Text → List Text
  unfolding add_tag
  inline_tags rest = for_each add_tag [] (split b',' (trim (λ c. c == b'[' || c == b']') rest))

  -- The first `tags:` line of the block, and what follows it up to the closing fence.
  unfoldable pub tags_of : List Text → List Text
  unfolding block_tags inline_tags cut_prefix
  tags_of [] = []
  tags_of (line ∷ lines) = elim (cut_prefix (codes "tags:") (trim_space line)) [
    | none ↦ tags_of lines
    | some rest ↦
        if is_empty (trim_space rest) then block_tags [] lines else inline_tags (trim_space rest)
  ]

  unfoldable pub parse_tags : Text → List Text
  unfolding tags_of frontmatter_end
  parse_tags content = elim (frontmatter_end (lines_of content)) [
    | none ↦ []
    | some end ↦ tags_of (take (end - 1) (drop 1 (lines_of content)))
  ]

-- `strings.LastIndexByte(name, '.')`.
pub last_dot : Text → Option ℕ
last_dot [] = none
last_dot (c ∷ s) = elim (last_dot s) [
  | some i ↦ some (suc i)
  | none ↦ if c == b'.' then some 0 else none
]

-- The tags of a file's name: its extension, if it has a name before the dot and letters behind.
pub extension_tags : (ℕ → ℕ) → Text → List Text
unfolding last_dot
extension_tags lower name = elim (last_dot name) [
  | none ↦ []
  | some i ↦ if ltb 0 i && ltb (i + 1) (length name) then map lower (drop (i + 1) name) ∷ [] else []
]

-- The loop over all segments but the last, and the tags of the last one.
pub segment_tags : (ℕ → ℕ) → List Text → List Text
unfolding extension_tags
segment_tags lower [] = []
segment_tags lower (name ∷ []) = extension_tags lower name
segment_tags lower (s ∷ t ∷ segs) =
    let rest = segment_tags lower (t ∷ segs) in if is_empty s then rest else map lower s ∷ rest

unfoldable pub auto_tags : (ℕ → ℕ) → Text → List Text
unfolding segment_tags
auto_tags lower path = segment_tags lower (split b'/' path)
