-- ===== src/Store/Paras/Cover.antt =====
-- The lines that the paragraphs cover.
use ragrep.Common.{
  ℕ, zero, suc, ◌+◌, ◌≤◌, ◌<◌, Text, false, some, List, [], ◌∷◌, ◌++◌, length, All, Any, get_elem?,
  ◌≡◌, ◌≢◌, refl, sym, ◌↔◌, ◌⊎◌, inl, inr, arith, lines_of, subst,
}
use ragrep.Store.Paras.{Para, is_blank, split_paras}
use ragrep.Store.Paras.Split.{IsSplit, split_paras-IsSplit}

-- Behind line `n`, each paragraph has a line, and ends before the next one starts.
abbrev pub IsOrdered : ℕ → List Para → Type 0
IsOrdered n [] = Unit {0}
IsOrdered n (p ∷ ps) = (n < p.start_line) × (p.start_line ≤ p.end_line) × IsOrdered p.end_line ps

length-pos : (ls : List Text) → ls ≢ [] → 0 < length ls
length-pos [] h = absurd (h refl)
length-pos (l ∷ ls) h = omega arith

IsOrdered-weaken : (m n : ℕ) (ps : List Para) → m ≤ n → IsOrdered n ps → IsOrdered m ps
IsOrdered-weaken m n [] h o = tt
IsOrdered-weaken m n (p ∷ ps) h o = (omega arith, o.1, o.2)

pub IsSplit-IsOrdered :
    {seq n : ℕ} {crumbs lines : List Text} {ps : List Para}
    → IsSplit seq n crumbs lines ps
    → IsOrdered n ps
IsSplit-IsOrdered IsSplit.done = tt
IsSplit-IsOrdered {n} (IsSplit.blank {ps} ln e sp) =
    IsOrdered-weaken n (n + 1) ps (omega arith) (IsSplit-IsOrdered sp)
IsSplit-IsOrdered {n} (IsSplit.para {ps} block rest p eq v stop sp) = (
  omega (arith, v.starts),
  omega (arith, v.starts, v.ends, length-pos block v.filled),
  rw v.ends (IsSplit-IsOrdered sp),
)

-- Line `m` lies in a paragraph.
abbrev pub InPara : ℕ → List Para → Type 0
InPara m = Any (λ p. (p.start_line ≤ m) × (m ≤ p.end_line))

not-InPara : (m n : ℕ) (ps : List Para) → IsOrdered n ps → m ≤ n → ¬ (InPara m ps)
not-InPara m n [] o h x = x
not-InPara m n (p ∷ ps) o h (inl x) = omega arith
not-InPara m n (p ∷ ps) o h (inr x) = not-InPara m p.end_line ps o.2 (omega arith) x

-- The line at an index of the block or of what follows it.
get_elem?-block :
    (block rest : List Text) (i : ℕ) {ln : Text}
    → All (λ l. is_blank l ≡ false) block
    → get_elem? (block ++ rest) i ≡ some ln
    → ((i < length block) × (is_blank ln ≡ false))
      ⊎ ((j : ℕ) × (i ≡ length block + j) × (get_elem? rest j ≡ some ln))
get_elem?-block [] rest i ub e = inr (i, omega arith, e)
get_elem?-block (l ∷ block) rest zero ub e = inl (omega arith, ground arith)
get_elem?-block (l ∷ block) rest (suc i) ub e = elim (get_elem?-block block rest i ub.1 e) [
  | inl (h, b) ↦ inl (omega arith, b)
  | inr (j, h, k) ↦ inr (j, omega arith, k)
]

pub IsSplit-InPara :
    {seq n : ℕ} {crumbs lines : List Text} {ps : List Para}
    → IsSplit seq n crumbs lines ps
    → (i : ℕ) {ln : Text} → get_elem? lines i ≡ some ln
    → (is_blank ln ≡ false) ↔ InPara (n + i + 1) ps
IsSplit-InPara IsSplit.done i e = cc
IsSplit-InPara {n} (IsSplit.blank {ps} ln e sp) zero h = (
  λ f. ground arith,
  λ x. absurd (not-InPara (n + 0 + 1) (n + 1) ps (IsSplit-IsOrdered sp) (omega arith) x),
)
IsSplit-InPara {n} (IsSplit.blank {ps} ln e sp) (suc i) h =
    let at : n + suc i + 1 ≡ n + 1 + i + 1 = omega arith in rw at (IsSplit-InPara sp i h)
IsSplit-InPara {n} {ps = p ∷ ps} (IsSplit.para block rest q eq v stop sp) i h =
    elim (get_elem?-block block rest i v.unblank (rw eq at h)) [
      | inl (lt, b) ↦ (λ f. inl (omega (arith, v.starts), omega (arith, v.ends)), λ x. b)
      | inr (j, e, k) ↦
          let at : n + i + 1 ≡ n + length block + j + 1 = omega arith in
          let ih = IsSplit-InPara sp j k in
          (
            λ f. inr (subst (λ m. InPara m ps) (sym at) (ih.0 f)),
            elim [
              | inl x ↦ absurd (omega (arith, v.ends))
              | inr x ↦ ih.1 (subst (λ m. InPara m ps) at x)
            ],
          )
    ]

-- A line of a text is not blank exactly when it lies in a paragraph. Paragraphs have at least one
-- line each, and stand one behind the other.
pub split_paras-InPara :
    (content : Text)
    → IsOrdered 0 (split_paras content)
      × ((i : ℕ) (ln : Text)
          → get_elem? (lines_of content) i ≡ some ln
          → (is_blank ln ≡ false) ↔ InPara (i + 1) (split_paras content))
split_paras-InPara content =
    let sp = split_paras-IsSplit content in
    (
      IsSplit-IsOrdered sp,
      λ i ln e. let at : 0 + i + 1 ≡ i + 1 = omega arith in rw at at (IsSplit-InPara sp i e),
    )
