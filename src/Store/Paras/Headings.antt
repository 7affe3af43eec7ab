-- ===== src/Store/Paras/Headings.antt =====
-- split.go: the headings in force after a line, by levels.
use ragrep.Common.{
  for_each, ℕ, zero, suc, ◌+◌, ◌-◌, ◌≤◌, Text, codes, starts_with, Bool, false, not, ◌||◌, ◌==◌,
  ltb, List, [], ◌∷◌, ◌++◌, length, take, if◌then◌else◌, trim_left, trim_space, is_empty, ◌≡◌, ◌≢◌,
  refl, sym, ap, subst, ◌∙◌, inl, inr, arith, Bool-cases,
}
use ragrep.Store.Paras.{heading_update}

abbrev pub hashes : ℕ → Text
hashes zero = []
hashes (suc k) = b'#' ∷ hashes k

-- The headings before and after a line. A heading of level 1 to 6 is as many `#`, a space, and a title
-- that is not blank; it ends those of its own and deeper levels and comes behind the others. Any other
-- line leaves them as they are.
pub data Heads (crumbs : List Text) (line : Text) : List Text → Type 0 where
  heading :
      (level : ℕ) (title : Text)
      → 1 ≤ level
      → level ≤ 6
      → line ≡ hashes level ++ (b' ' ∷ title)
      → trim_space (b' ' ∷ title) ≢ []
      → Heads crumbs line (take (level - 1) crumbs ++ trim_space (b' ' ∷ title) ∷ [])
  other :
      ((level : ℕ) (title : Text)
        → 1 ≤ level
        → level ≤ 6
        → line ≡ hashes level ++ (b' ' ∷ title)
        → trim_space (b' ' ∷ title) ≡ [])
      → Heads crumbs line crumbs

-- The headings before and after a block of lines.
abbrev pub AllHeads : List Text → List Text → List Text → Type 0
AllHeads crumbs [] after = after ≡ crumbs
AllHeads crumbs (line ∷ block) after =
    (next : List Text) × Heads crumbs line next × AllHeads next block after

abbrev is_hash : ℕ → Bool
is_hash c = c == b'#'

trim_left-hashes : (line : Text) → (k : ℕ) × (line ≡ hashes k ++ trim_left is_hash line)
unfolding trim_left
trim_left-hashes [] = (0, refl)
trim_left-hashes (c ∷ line) = elim (Bool-cases (is_hash c)) [
  | inl e ↦
      let ih = trim_left-hashes line in
      let same : c ≡ b'#' = ground (arith, e) in
      rw (e) (suc ih.0, (ap (λ d. d ∷ line) same ∙ ap (λ l. b'#' ∷ l) ih.1))
  | inr e ↦ rw (e) (0, refl)
]

trim_left-title :
    (k : ℕ) (title : Text) → trim_left is_hash (hashes k ++ (b' ' ∷ title)) ≡ b' ' ∷ title
unfolding trim_left
trim_left-title zero title = refl
trim_left-title (suc k) title = trim_left-title k title

length-hashes : (k : ℕ) (rest : Text) → length (hashes k ++ rest) ≡ k + length rest
length-hashes zero rest = omega arith
length-hashes (suc k) rest = omega (arith, length-hashes k rest)

take-all : {A : Type 0} (n : ℕ) (xs : List A) → length xs ≤ n → take n xs ≡ xs
take-all zero [] h = refl
take-all (suc n) [] h = refl
take-all zero (x ∷ xs) h = absurd (omega arith)
take-all (suc n) (x ∷ xs) h = ap (λ l. x ∷ l) (take-all n xs (omega arith))

take-cut :
    (n : ℕ) (crumbs : List Text)
    → (if ltb n (length crumbs) then take n crumbs else crumbs) ≡ take n crumbs
take-cut n crumbs = elim (Bool-cases (ltb n (length crumbs))) [
  | inl e ↦ rw (e) refl
  | inr e ↦ rw (e) (sym (take-all n crumbs (ground (arith, e))))
]

-- What `headingUpdate` does once it has counted.
abbrev update : List Text → ℕ → Text → List Text
update crumbs level rest =
    if level == 0 || ltb 6 level || not (starts_with (codes " ") rest)
    then crumbs
    else if is_empty (trim_space rest)
    then crumbs
    else (if ltb (level - 1) (length crumbs) then take (level - 1) crumbs else crumbs)
      ++ trim_space rest ∷ []

-- A line is a heading in one way only.
heading_only :
    (line rest : Text) (k : ℕ)
    → line ≡ hashes k ++ rest
    → trim_left is_hash line ≡ rest
    → (level : ℕ) (title : Text) → line ≡ hashes level ++ (b' ' ∷ title)
    → (rest ≡ b' ' ∷ title) × (k ≡ level)
heading_only line rest k e cut level title h =
    let same = sym cut ∙ ap (trim_left is_hash) h ∙ trim_left-title level title in
    let long =
      sym (length-hashes k rest) ∙ ap length (sym e ∙ h) ∙ length-hashes level (b' ' ∷ title) in
    (same, omega (arith, long, ap length same))

-- The test by which a line is no heading.
abbrev no_heading : ℕ → Text → Bool
no_heading level rest = level == 0 || ltb 6 level || not (starts_with (codes " ") rest)

no_heading-false :
    (level : ℕ) (title : Text) → 1 ≤ level → level ≤ 6 → no_heading level (b' ' ∷ title) ≡ false
unfolding starts_with
no_heading-false level title lo hi = ground (arith, lo, hi)

title_of :
    (level : ℕ) (rest : Text) → no_heading level rest ≡ false → (t : Text) × (rest ≡ b' ' ∷ t)
unfolding starts_with
title_of level [] e = absurd (ground (arith, e))
title_of level (c ∷ t) e = (t, ground (arith, e))

update-Heads :
    (crumbs : List Text) (line rest : Text) (k : ℕ)
    → line ≡ hashes k ++ rest
    → trim_left is_hash line ≡ rest
    → Heads crumbs line (update crumbs k rest)
update-Heads crumbs line rest k e cut = elim (Bool-cases (no_heading k rest)) [
  | inl b ↦ rw (b) (
      Heads.other (λ level title lo hi h.
        let (same, long) = heading_only line rest k e cut level title h in
        let off : no_heading k rest ≡ false =
          subst (λ r. no_heading k r ≡ false) (sym same)
            (subst (λ n. no_heading n (b' ' ∷ title) ≡ false) (sym long)
              (no_heading-false level title lo hi)) in
        cc (b, off)))
  | inr b ↦ rw (b) (titled (trim_space rest) refl b)
]
  where
    titled :
        (t : Text)
        → trim_space rest ≡ t
        → no_heading k rest ≡ false
        → Heads crumbs line (
            if is_empty t
            then crumbs
            else (if ltb (k - 1) (length crumbs) then take (k - 1) crumbs else crumbs) ++ t ∷ [])
    titled [] blank b = Heads.other (λ level title lo hi h.
        ap trim_space (sym (heading_only line rest k e cut level title h).0) ∙ blank)
    titled (c ∷ t) full b =
        let (title, same) = title_of k rest b in
        let text = sym (ap trim_space same) ∙ full in
        subst (λ l. Heads crumbs line (l ++ (c ∷ t) ∷ [])) (sym (take-cut (k - 1) crumbs))
          (subst (λ u. Heads crumbs line (take (k - 1) crumbs ++ u ∷ [])) text
            (Heads.heading k title (ground (arith, b)) (ground (arith, b))
              (subst (λ r. line ≡ hashes k ++ r) same e) (λ none. cc (text, none))))

pub heading_update-Heads :
    (crumbs : List Text) (line : Text) → Heads crumbs line (heading_update crumbs line)
unfolding heading_update
heading_update-Heads crumbs line =
    let (k, e) = trim_left-hashes line in
    let rest = trim_left is_hash line in
    let level : length line - length rest ≡ k = omega (arith, ap length e, length-hashes k rest) in
    subst (λ n. Heads crumbs line (update crumbs n rest)) (sym level)
      (update-Heads crumbs line rest k e refl)

pub for_each-AllHeads :
    (crumbs block : List Text) → AllHeads crumbs block (for_each heading_update crumbs block)
for_each-AllHeads crumbs [] = refl
for_each-AllHeads crumbs (line ∷ block) = (
  heading_update crumbs line,
  heading_update-Heads crumbs line,
  for_each-AllHeads (heading_update crumbs line) block,
)
