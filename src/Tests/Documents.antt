-- ===== src/Tests/Documents.antt =====
-- Paragraphs and frontmatter.
use ragrep.Common.{
  ℕ, ◌+◌, ◌<◌, Text, codes, false, ◌≡◌, refl, ◌↔◌, some, [], ◌∷◌, All, get_elem?, lines_of, join,
  trim_space, trim_left, starts_with, text_eq, trim, leb, ◌&&◌, if◌then◌else◌,
}
use ragrep.Store.Paras.{split_paras, is_blank}
use ragrep.Store.Paras.Split.{IsSplit, split_paras-IsSplit}
use ragrep.Store.Paras.Cover.{IsOrdered, InPara, split_paras-InPara}
use ragrep.Store.Frontmatter.{indexed_paras, parse_tags}
use ragrep.Store.TagList.{IsTagList, parse_tags-IsTagList}
use ragrep.Store.Frontmatter.Hidden.{Fronted, indexed_paras-behind}

abbrev page : Text
page = codes "# Top\r\nintro\n\n## Errors\n\nbody\nmore\n"

page_paras :
    split_paras page
    ≡ record {
      seq = 0;
      start_line = 1;
      end_line = 2;
      text = codes "# Top\nintro";
      heading = codes "Top";
    }
      ∷ record {
        seq = 1;
        start_line = 4;
        end_line = 4;
        text = codes "## Errors";
        heading = codes "Top > Errors";
      }
      ∷ record {
        seq = 2;
        start_line = 6;
        end_line = 7;
        text = codes "body\nmore";
        heading = codes "Top > Errors";
      }
      ∷ []
unfolding split_paras lines_of trim_space trim_left join starts_with
page_paras = refl

split_paras-IsSplit_example : IsSplit 0 0 [] (lines_of page) (split_paras page)
split_paras-IsSplit_example = split_paras-IsSplit page

split_paras-InPara_example :
    IsOrdered 0 (split_paras page)
    × ((i : ℕ) (ln : Text)
        → get_elem? (lines_of page) i ≡ some ln
        → (is_blank ln ≡ false) ↔ InPara (i + 1) (split_paras page))
split_paras-InPara_example = split_paras-InPara page

abbrev tagged : Text
tagged = codes "---\ntags: [\"API\", b,api]\n---\ntext\n"

tagged_paras :
    indexed_paras tagged
    ≡ record { seq = 0; start_line = 4; end_line = 4; text = codes "text"; heading = [] } ∷ []
unfolding indexed_paras split_paras lines_of trim_space trim_left join text_eq starts_with
tagged_paras = refl

-- `unicode.ToLower` on ASCII.
abbrev ascii_lower : ℕ → ℕ
ascii_lower c = if leb b'A' c && leb c b'Z' then c + 32 else c

tagged_tags : parse_tags ascii_lower tagged ≡ codes "api" ∷ codes "b" ∷ []
unfolding parse_tags lines_of trim_space trim text_eq
tagged_tags = refl

tagged-Fronted : Fronted (lines_of tagged) 3
unfolding lines_of trim_space trim_left
tagged-Fronted =
    Fronted.fenced (codes "---") (codes "tags: [\"API\", b,api]" ∷ []) (codes "---")
      (codes "text" ∷ [] ∷ []) refl ((λ e. cc), tt) refl

indexed_paras-behind_example : All (λ p. 3 < p.start_line) (indexed_paras tagged)
indexed_paras-behind_example = indexed_paras-behind tagged 3 tagged-Fronted

parse_tags-IsTagList_example : IsTagList (parse_tags ascii_lower tagged)
parse_tags-IsTagList_example = parse_tags-IsTagList ascii_lower tagged
