-- ===== src/Store/Paras/Split.antt =====
-- What the loop of `splitParas` finds: the blocks of lines that are not blank, each as one
-- paragraph with its line numbers, its text, and the headings up to its end.
use mathlib.Core.List.{concat-ne-nil}
use ragrep.Common.{
  ℕ, ◌+◌, Text, codes, true, false, none, some, List, [], ◌∷◌, ◌++◌, length, length-append, All,
  All-append, for_each, for_each-append, ◌≡◌, ◌≢◌, refl, sym, ◌∙◌, inl, inr, arith, Bool-cases,
  join, lines_of, append-nil, append_assoc,
}
use ragrep.Store.Paras.{
  Para, Splitter, heading_update, is_blank, take_line, split_from, split_paras,
}
use ragrep.Store.Paras.Headings.{AllHeads, for_each-AllHeads}

-- The block of a paragraph ends at a blank line or with the document.
abbrev pub EndsBlock : List Text → Type 0
EndsBlock [] = Unit {0}
EndsBlock (ln ∷ lines) = is_blank ln ≡ true

-- Paragraph `p` is number `seq`, and is the lines of `block`, which stand behind `n` others. Its
-- heading is what the lines of the block make of the headings before it.
pub record IsPara (seq n : ℕ) (crumbs : List Text) (block : List Text) (p : Para) : Type 0 where
  pub numbered : p.seq ≡ seq
  pub starts : p.start_line ≡ n + 1
  pub ends : p.end_line ≡ n + length block
  pub text_is : p.text ≡ join (codes "\n") block
  pub heading_is : p.heading ≡ join (codes " > ") (for_each heading_update crumbs block)
  pub headings : AllHeads crumbs block (for_each heading_update crumbs block)
  pub filled : block ≢ []
  pub unblank : All (λ ln. is_blank ln ≡ false) block

-- The paragraphs of the lines behind line `n`, from number `seq` on, below the given headings.
pub data IsSplit : ℕ → ℕ → List Text → List Text → List Para → Type 0 where
  done : {seq n : ℕ} {crumbs : List Text} → IsSplit seq n crumbs [] []
  blank :
      {seq n : ℕ} {crumbs lines : List Text} {ps : List Para} (ln : Text)
      → is_blank ln ≡ true
      → IsSplit seq (n + 1) crumbs lines ps
      → IsSplit seq n crumbs (ln ∷ lines) ps
  para :
      {seq n : ℕ} {crumbs lines : List Text} {ps : List Para} (block rest : List Text) (p : Para)
      → lines ≡ block ++ rest
      → IsPara seq n crumbs block p
      → EndsBlock rest
      → IsSplit (seq + 1) (n + length block) (for_each heading_update crumbs block) rest ps
      → IsSplit seq n crumbs lines (p ∷ ps)

-- The states of the loop between two blocks, and inside a block that stands behind line `n`.
abbrev outside : List Para → List Text → Splitter
outside paras crumbs = record { paras = paras; crumbs = crumbs; start = none; buf = [] }

abbrev inside : List Para → List Text → ℕ → List Text → Splitter
inside paras crumbs n block = record {
  paras = paras;
  crumbs = for_each heading_update crumbs block;
  start = some n;
  buf = block;
}

-- The paragraph that `flush` makes of the block.
abbrev flushed : List Para → List Text → ℕ → List Text → Para
flushed paras crumbs n block = record {
  seq = length paras;
  start_line = n + 1;
  end_line = n + length block;
  text = join (codes "\n") block;
  heading = join (codes " > ") (for_each heading_update crumbs block);
}

flushed-IsPara :
    (paras : List Para) (crumbs : List Text) (seq n : ℕ) (block : List Text)
    → length paras ≡ seq
    → block ≢ []
    → All (λ ln. is_blank ln ≡ false) block
    → IsPara seq n crumbs block (flushed paras crumbs n block)
flushed-IsPara paras crumbs seq n block h ne ub = record {
  numbered = h;
  starts = refl;
  ends = refl;
  text_is = refl;
  heading_is = refl;
  headings = for_each-AllHeads crumbs block;
  filled = ne;
  unblank = ub;
}

-- What the loop returns from a state, beside the paragraphs that it has.
abbrev Splits : Splitter → ℕ → List Text → List Para → ℕ → ℕ → List Text → List Text → Type 0
Splits s i lines paras seq n crumbs all =
    (ps : List Para) × (split_from s i lines ≡ paras ++ ps) × IsSplit seq n crumbs all ps

grow_block :
    (paras : List Para) (crumbs : List Text) (n : ℕ) (block : List Text) (ln : Text)
    → take_line (inside paras crumbs n block) (n + length block) ln
      ≡ inside paras crumbs n (block ++ ln ∷ [])
unfolding take_line
grow_block paras crumbs n block ln = rw (for_each-append heading_update crumbs block (ln ∷ []))

mutual
  unfolding split_from

  outside-Splits :
      (lines : List Text) (paras : List Para) (crumbs : List Text) (seq n : ℕ)
      → length paras ≡ seq
      → Splits (outside paras crumbs) n lines paras seq n crumbs lines
  outside-Splits [] paras crumbs seq n h = ([], sym (append-nil paras), IsSplit.done)
  outside-Splits (ln ∷ lines) paras crumbs seq n h = elim (Bool-cases (is_blank ln)) [
    | inl e ↦
        let (ps, eq, sp) = outside-Splits lines paras crumbs seq (n + 1) h in
        (ps, rw e eq, IsSplit.blank ln e sp)
    | inr e ↦
        let (ps, eq, sp) = inside-Splits lines paras crumbs seq n (ln ∷ []) h (λ z. cc) (e, tt) in
        (ps, rw e eq, sp)
  ]

  inside-Splits :
      (lines : List Text) (paras : List Para) (crumbs : List Text) (seq n : ℕ) (block : List Text)
      → length paras ≡ seq
      → block ≢ []
      → All (λ ln. is_blank ln ≡ false) block
      → Splits
          (inside paras crumbs n block)
          (n + length block)
          lines
          paras
          seq
          n
          crumbs
          (block ++ lines)
  inside-Splits [] paras crumbs seq n block h ne ub =
      let p = flushed paras crumbs n block in
      (
        p ∷ [],
        refl,
        IsSplit.para block [] p refl (flushed-IsPara paras crumbs seq n block h ne ub) tt
            IsSplit.done,
      )
  inside-Splits (ln ∷ lines) paras crumbs seq n block h ne ub = elim (Bool-cases (is_blank ln)) [
    | inl e ↦
        let p = flushed paras crumbs n block in
        let now = for_each heading_update crumbs block in
        let (ps, eq, sp) =
          outside-Splits lines (paras ++ p ∷ []) now (seq + 1) (n + length block + 1)
            (omega (arith, h, length-append paras (p ∷ []))) in
        (
          p ∷ ps,
          rw e (eq ∙ append_assoc paras (p ∷ []) ps),
          IsSplit.para block (ln ∷ lines) p refl (flushed-IsPara paras crumbs seq n block h ne ub) e
              (IsSplit.blank ln e sp),
        )
    | inr e ↦
        let at : n + length block + 1 ≡ n + length (block ++ ln ∷ []) =
          omega (arith, length-append block (ln ∷ [])) in
        let (ps, eq, sp) =
          inside-Splits lines paras crumbs seq n (block ++ ln ∷ []) h (concat-ne-nil ln block)
            (All-append (λ ln. is_blank ln ≡ false) block (ln ∷ []) ub (e, tt)) in
        (ps, rw (e, grow_block paras crumbs n block ln, at) eq, rw append_assoc at sp)
  ]

-- The paragraphs of a text are its maximal blocks of lines that are not blank, numbered from 0,
-- each with its first and last line counted from 1, its lines as its text, and the headings in
-- force at its end: a heading of level 1 to 6 ends those of its own and deeper levels and comes
-- behind the others, and no other line changes them.
pub split_paras-IsSplit : (content : Text) → IsSplit 0 0 [] (lines_of content) (split_paras content)
unfolding split_paras
split_paras-IsSplit content =
    let (ps, eq, sp) = outside-Splits (lines_of content) [] [] 0 0 refl in rw eq sp
