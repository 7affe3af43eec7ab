-- ===== src/Store/TagList.antt =====
-- frontmatter.go: ParseTags and the tags of a document.
use ragrep.Common.{
  split, trim, ◌==◌, ◌-◌, ℕ, ◌≡◌, refl, Text, Bool, true, false, ◌||◌, Option, none, some, List, [],
  ◌∷◌, ◌++◌, All, All-append, IsNodup, IsNodup-snoc, for_each, is_empty, if◌then◌else◌, trim_space,
  codes, lines_of, take, drop,
}
use ragrep.Store.Frontmatter.{
  clean_tag, add_tag, block_tags, inline_tags, tags_of, parse_tags, cut_prefix, contains,
  frontmatter_end,
}
use ragrep.Store.Upsert.Tags.{contains_iff}

-- Distinct texts that are not empty.
abbrev pub IsTagList : List Text → Type 0
IsTagList tags = IsNodup tags × All (λ t. is_empty t ≡ false) tags

module _ (lower : ℕ → ℕ) where
  add_tag-IsTagList :
      (tags : List Text) (raw : Text) → IsTagList tags → IsTagList (add_tag lower tags raw)
  unfolding add_tag
  add_tag-IsTagList tags raw w =
      go (is_empty (clean_tag lower raw)) refl (contains (clean_tag lower raw) tags) refl
    where
      go :
          (a : Bool)
          → is_empty (clean_tag lower raw) ≡ a
          → (b : Bool) → contains (clean_tag lower raw) tags ≡ b
          → IsTagList (if a || b then tags else tags ++ clean_tag lower raw ∷ [])
      go true e b c = w
      go false e true c = w
      go false e false c = (
        IsNodup-snoc tags (clean_tag lower raw) w.0
            (λ i. cc (c, (contains_iff (clean_tag lower raw) tags).1 i)),
        All-append _ tags (clean_tag lower raw ∷ []) w.1 (e, tt),
      )

  add_all-IsTagList :
      (items tags : List Text) → IsTagList tags → IsTagList (for_each (add_tag lower) tags items)
  add_all-IsTagList [] tags w = w
  add_all-IsTagList (raw ∷ items) tags w =
      add_all-IsTagList items (add_tag lower tags raw) (add_tag-IsTagList tags raw w)

  block_tags-IsTagList :
      (tags lines : List Text) → IsTagList tags → IsTagList (block_tags lower tags lines)
  unfolding block_tags
  block_tags-IsTagList tags [] w = w
  block_tags-IsTagList tags (line ∷ lines) w =
      go (cut_prefix (codes "- ") (trim_space line)) (λ item.
        block_tags-IsTagList (add_tag lower tags item) lines (add_tag-IsTagList tags item w))
    where
      go :
          (o : Option Text)
          → ((item : Text) → IsTagList (block_tags lower (add_tag lower tags item) lines))
          → IsTagList (elim o [
            | none ↦ tags
            | some item ↦ block_tags lower (add_tag lower tags item) lines
          ])
      go none more = w
      go (some item) more = more item

  tags_of-IsTagList : (lines : List Text) → IsTagList (tags_of lower lines)
  unfolding tags_of inline_tags
  tags_of-IsTagList [] = (tt, tt)
  tags_of-IsTagList (line ∷ lines) =
      go (cut_prefix (codes "tags:") (trim_space line)) (tags_of-IsTagList lines)
    where
      pick :
          (b : Bool) (rest : Text)
          → IsTagList (if b then block_tags lower [] lines else inline_tags lower (trim_space rest))
      pick true rest = block_tags-IsTagList [] lines (tt, tt)
      pick false rest =
          add_all-IsTagList (split b',' (trim (λ c. c == b'[' || c == b']') (trim_space rest))) []
            (tt, tt)

      go :
          (o : Option Text)
          → IsTagList (tags_of lower lines)
          → IsTagList (elim o [
            | none ↦ tags_of lower lines
            | some rest ↦
                if is_empty (trim_space rest)
                then block_tags lower [] lines
                else inline_tags lower (trim_space rest)
          ])
      go none more = more
      go (some rest) more = pick (is_empty (trim_space rest)) rest

  -- The tags that ParseTags finds in any content are distinct, and none of them is empty.
  pub parse_tags-IsTagList : (content : Text) → IsTagList (parse_tags lower content)
  unfolding parse_tags
  parse_tags-IsTagList content = go (frontmatter_end (lines_of content))
    where
      go :
          (o : Option ℕ)
          → IsTagList (elim o [
            | none ↦ []
            | some end ↦ tags_of lower (take (end - 1) (drop 1 (lines_of content)))
          ])
      go none = (tt, tt)
      go (some end) = tags_of-IsTagList _
