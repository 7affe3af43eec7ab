-- ===== src/Store/Frontmatter/Hidden.antt =====
-- store.go: the paragraphs of an indexed document and its frontmatter.
use ragrep.Common.{
  text_eq, text_eq_iff, ap, ℕ, zero, suc, ◌+◌, ◌≤◌, ◌<◌, Text, codes, true, false, none, some, List,
  [], ◌∷◌, ◌++◌, length, All, ◌≡◌, ◌≢◌, refl, sym, ◌∙◌, subst, inl, inr, arith, Bool-cases,
  Option-cases, lines_of, split, replace_crlf, join, trim_space, ltb,
}
use ragrep.Store.Paras.{Para, is_blank, split_paras}
use ragrep.Store.Paras.Split.{IsSplit, split_paras-IsSplit}
use ragrep.Store.Paras.Cover.{IsOrdered, IsSplit-IsOrdered}
use ragrep.Store.Frontmatter.{
  is_fence, find_fence, frontmatter_end, frontmatter_line_count, blank_first, blank_lines, para_src,
  indexed_paras,
}

-- The first `k` lines are there and are blank.
abbrev IsBlankPrefix : ℕ → List Text → Type 0
IsBlankPrefix zero lines = Unit {0}
IsBlankPrefix (suc k) [] = ⊥
IsBlankPrefix (suc k) (ln ∷ lines) = (is_blank ln ≡ true) × IsBlankPrefix k lines

find_fence-lt : (lines : List Text) (i e : ℕ) → find_fence i lines ≡ some e → e < i + length lines
unfolding find_fence
find_fence-lt [] i e h = cc
find_fence-lt (line ∷ lines) i e h = ground (arith, find_fence-lt lines (i + 1) e)

fence_lines : List Text → ℕ
fence_lines lines = elim (frontmatter_end lines) [ none ↦ 0 | some end ↦ end + 1 ]

fence_lines-le : (lines : List Text) → fence_lines lines ≤ length lines
unfolding fence_lines frontmatter_end
fence_lines-le [] = omega arith
fence_lines-le (line ∷ lines) = elim (Option-cases (find_fence 1 lines)) [
  | inl e ↦ ground arith
  | inr (end, e) ↦ ground (arith, find_fence-lt lines 1 end e)
]

frontmatter_line_count-le :
    (content : Text) → frontmatter_line_count content ≤ length (lines_of content)
unfolding frontmatter_line_count fence_lines
frontmatter_line_count-le content = fence_lines-le (lines_of content)

-- A text whose first lines were made empty has as many blank lines.
blank_first-IsBlankPrefix :
    (k : ℕ) (lines : List Text)
    → k ≤ length lines
    → IsBlankPrefix k (lines_of (join (codes "\n") (blank_first k lines)))
unfolding lines_of split replace_crlf join blank_first is_blank trim_space
blank_first-IsBlankPrefix zero lines h = tt
blank_first-IsBlankPrefix (suc k) [] h = absurd (omega arith)
blank_first-IsBlankPrefix (suc zero) (l ∷ []) h = (refl, tt)
blank_first-IsBlankPrefix (suc (suc k)) (l ∷ []) h = absurd (omega arith)
blank_first-IsBlankPrefix (suc zero) (l ∷ m ∷ lines) h = (refl, tt)
blank_first-IsBlankPrefix (suc (suc k)) (l ∷ m ∷ lines) h =
    (refl, blank_first-IsBlankPrefix (suc k) (m ∷ lines) (omega arith))

-- The number of lines that the frontmatter takes: a fence as the first line, the lines up to the next
-- fence, and that fence; none at all without both fences.
pub data Fronted : List Text → ℕ → Type 0 where
  fenced :
      (opener : Text) (block : List Text) (closer : Text) (rest : List Text)
      → trim_space opener ≡ codes "---"
      → All (λ line. trim_space line ≢ codes "---") block
      → trim_space closer ≡ codes "---"
      → Fronted (opener ∷ (block ++ (closer ∷ rest))) (length block + 2)
  empty : Fronted [] 0
  unopened :
      (line : Text) (rest : List Text) → trim_space line ≢ codes "---" → Fronted (line ∷ rest) 0
  unclosed :
      (line : Text) (rest : List Text)
      → All (λ line. trim_space line ≢ codes "---") rest
      → Fronted (line ∷ rest) 0

is_fence-true : (line : Text) → trim_space line ≡ codes "---" → is_fence line ≡ true
unfolding is_fence
is_fence-true line e = (text_eq_iff (trim_space line) (codes "---")).1 e

is_fence-false : (line : Text) → trim_space line ≢ codes "---" → is_fence line ≡ false
unfolding is_fence
is_fence-false line n = elim (Bool-cases (text_eq (trim_space line) (codes "---"))) [
  | inl e ↦ absurd (n ((text_eq_iff (trim_space line) (codes "---")).0 e))
  | inr e ↦ e
]

find_fence-closer :
    (i : ℕ) (block : List Text) (closer : Text) (rest : List Text)
    → All (λ line. trim_space line ≢ codes "---") block
    → trim_space closer ≡ codes "---"
    → find_fence i (block ++ (closer ∷ rest)) ≡ some (i + length block)
unfolding find_fence
find_fence-closer i [] closer rest h e = rw (is_fence-true closer e) (ap some (omega arith))
find_fence-closer i (line ∷ block) closer rest h e =
    rw (is_fence-false line h.0)
      (find_fence-closer (i + 1) block closer rest h.1 e ∙ ap some (omega arith))

find_fence-open :
    (i : ℕ) (lines : List Text)
    → All (λ line. trim_space line ≢ codes "---") lines
    → find_fence i lines ≡ none
unfolding find_fence
find_fence-open i [] h = refl
find_fence-open i (line ∷ lines) h =
    rw (is_fence-false line h.0) (find_fence-open (i + 1) lines h.1)

Fronted-fence_lines : {lines : List Text} {n : ℕ} → Fronted lines n → fence_lines lines ≡ n
unfolding fence_lines frontmatter_end
Fronted-fence_lines (Fronted.fenced opener block closer rest o h c) =
    ground (arith, is_fence-true opener o, find_fence-closer 1 block closer rest h c)
Fronted-fence_lines Fronted.empty = refl
Fronted-fence_lines (Fronted.unopened line rest n) = ground (arith, is_fence-false line n)
Fronted-fence_lines (Fronted.unclosed line rest h) = ground (arith, find_fence-open 1 rest h)

IsOrdered-All : (n : ℕ) (ps : List Para) → IsOrdered n ps → All (λ p. n < p.start_line) ps
IsOrdered-All n [] o = tt
IsOrdered-All n (p ∷ ps) o = (o.0, later ps (IsOrdered-All p.end_line ps o.2))
  where
    later :
        (qs : List Para) → All (λ q. p.end_line < q.start_line) qs → All (λ q. n < q.start_line) qs
    later [] a = tt
    later (q ∷ qs) a = (omega (arith, o.0, o.1, a.0), later qs a.1)

not-IsBlankPrefix :
    (k : ℕ) (block rest : List Text)
    → block ≢ []
    → All (λ ln. is_blank ln ≡ false) block
    → ¬ (IsBlankPrefix (suc k) (block ++ rest))
not-IsBlankPrefix k [] rest ne ub b = ne refl
not-IsBlankPrefix k (ln ∷ block) rest ne ub b = cc (sym ub.0 ∙ b.0)

IsSplit-behind :
    {seq n : ℕ} {crumbs lines : List Text} {ps : List Para}
    → IsSplit seq n crumbs lines ps
    → (k : ℕ) → IsBlankPrefix k lines
    → All (λ p. n + k < p.start_line) ps
IsSplit-behind {n} {ps} sp zero b =
    let at : n + 0 ≡ n = omega arith in
    subst (λ m. All (λ p. m < p.start_line) ps) (sym at) (IsOrdered-All n ps (IsSplit-IsOrdered sp))
IsSplit-behind IsSplit.done (suc k) b = tt
IsSplit-behind {n} (IsSplit.blank {ps} ln e sp) (suc k) b =
    let at : n + 1 + k ≡ n + suc k = omega arith in
    subst (λ m. All (λ p. m < p.start_line) ps) at (IsSplit-behind {n = n + 1} sp k b.1)
IsSplit-behind {n} (IsSplit.para block rest p eq v stop sp) (suc k) b =
    absurd (not-IsBlankPrefix k block rest v.filled v.unblank (rw eq at b))

indexed_paras-count :
    (content : Text)
    → All (λ p. frontmatter_line_count content < p.start_line) (indexed_paras content)
unfolding indexed_paras para_src blank_lines
indexed_paras-count content = elim (Bool-cases (ltb 0 (frontmatter_line_count content))) [
  | inl e ↦
      let n = frontmatter_line_count content in
      let text = blank_lines content n in
      let at : 0 + n ≡ n = omega arith in
      rw e (
        subst (λ m. All (λ p. m < p.start_line) (split_paras text)) at
          (IsSplit-behind (split_paras-IsSplit text) n
            (blank_first-IsBlankPrefix n (lines_of content) (frontmatter_line_count-le content))))
  | inr e ↦
      let nothing : frontmatter_line_count content ≡ 0 = ground arith in
      rw (e, nothing)
        (IsOrdered-All 0 (split_paras content) (IsSplit-IsOrdered (split_paras-IsSplit content)))
]

-- Every paragraph that is indexed starts behind the lines of the frontmatter, its closing fence
-- included.
pub indexed_paras-behind :
    (content : Text) (n : ℕ)
    → Fronted (lines_of content) n
    → All (λ p. n < p.start_line) (indexed_paras content)
unfolding frontmatter_line_count fence_lines
indexed_paras-behind content n front =
    subst (λ k. All (λ p. k < p.start_line) (indexed_paras content)) (Fronted-fence_lines front)
      (indexed_paras-count content)
