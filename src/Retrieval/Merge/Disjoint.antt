-- ===== src/Retrieval/Merge/Disjoint.antt =====
-- context.go: the end of the loops that merge.
use ragrep.Common.{
  ℕ, zero, suc, ◌≤◌, List, [], ◌∷◌, ◌++◌, length, arith, inl, inr, Text, text_eq_iff, true, ◌≡◌,
  All, All-map,
}
use ragrep.Retrieval.Merge.{
  Ranged, apart, collapse_fuel, collapse_overlaps, merge_from, merge_overlapping,
}
use ragrep.Retrieval.Merge.Steps.{AllApart, Merges, merge_once-cases, Merges-length}

module _ {T : Type 0} (r : Ranged T) where
  collapse_fuel-AllApart : (n : ℕ) (xs : List T) → length xs ≤ n → AllApart r (collapse_fuel r n xs)
  unfolding collapse_fuel
  collapse_fuel-AllApart zero [] h = tt
  collapse_fuel-AllApart zero (x ∷ xs) h = absurd (omega arith)
  collapse_fuel-AllApart (suc n) xs h = elim (merge_once-cases r xs) [
    | inl (e, d) ↦ rw (e, collapse_fuel) d
    | inr (xs', e, m) ↦
        rw (e, collapse_fuel) (collapse_fuel-AllApart n xs' (omega (arith, Merges-length r m)))
  ]

  merge_from-AllApart : (out items : List T) → AllApart r out → AllApart r (merge_from r out items)
  unfolding merge_from collapse_overlaps
  merge_from-AllApart out [] h = h
  merge_from-AllApart out (x ∷ xs) h =
      let next = out ++ x ∷ [] in
      merge_from-AllApart (collapse_overlaps r next) xs
        (collapse_fuel-AllApart (length next) next (omega arith))

  -- Line `n` of the file at `p` lies in the item.
  abbrev pub Holds : Text → ℕ → T → Type 0
  Holds p n x = (r.path_of x ≡ p) × (r.start_of x ≤ n) × (n ≤ r.end_of x)

  -- No line of any file lies in two of the items.
  abbrev pub IsDisjoint : List T → Type 0
  IsDisjoint [] = Unit {0}
  IsDisjoint (x ∷ xs) =
      All (λ y. (p : Text) (n : ℕ) → Holds p n x → ¬ (Holds p n y)) xs × IsDisjoint xs

  apart-Holds : (x y : T) → apart r x y ≡ true → (p : Text) (n : ℕ) → Holds p n x → ¬ (Holds p n y)
  unfolding apart
  apart-Holds x y e p n h k = ground (arith, text_eq_iff (r.path_of x) (r.path_of y), h, k)

  AllApart-IsDisjoint : (xs : List T) → AllApart r xs → IsDisjoint xs
  AllApart-IsDisjoint [] h = tt
  AllApart-IsDisjoint (x ∷ xs) h = (All-map _ _ (apart-Holds x) xs h.0, AllApart-IsDisjoint xs h.1)

  -- Whatever items go in, no line of any file lies in two of those that come out.
  pub merge_overlapping-IsDisjoint : (items : List T) → IsDisjoint (merge_overlapping r items)
  unfolding merge_overlapping
  merge_overlapping-IsDisjoint items = AllApart-IsDisjoint _ (merge_from-AllApart [] items tt)

  -- Induction over the loops: a relation that each merge and each new item respects.
  module _ (R : List T → List T → Type 0) (R_refl : (xs : List T) → R xs xs)
      (R_step : (xs ys zs : List T) → R ys zs → Merges r xs ys → R xs zs) where
    pub collapse_fuel-related : (n : ℕ) (xs : List T) → R xs (collapse_fuel r n xs)
    unfolding collapse_fuel
    collapse_fuel-related zero xs = R_refl xs
    collapse_fuel-related (suc n) xs = elim (merge_once-cases r xs) [
      | inl (e, d) ↦ rw (e, collapse_fuel) (R_refl xs)
      | inr (ys, e, m) ↦
          rw (e, collapse_fuel) (R_step xs ys (collapse_fuel r n ys) (collapse_fuel-related n ys) m)
    ]

    pub collapse_overlaps-related : (xs : List T) → R xs (collapse_overlaps r xs)
    unfolding collapse_overlaps
    collapse_overlaps-related xs = collapse_fuel-related (length xs) xs
