-- ===== src/Retrieval/Merge/Steps.antt =====
-- One merge as a relation between the lists before and after it.
use ragrep.Common.{
  suc, true, false, ◌≡◌, refl, none, some, List, [], ◌∷◌, length, All, Bool-cases, inl, inr, ◌⊎◌,
  ap,
}
use ragrep.Retrieval.Merge.{Ranged, apart, absorb, merge_into, merge_once}

module _ {T : Type 0} (r : Ranged T) where
  -- `x` absorbs the first item of the list that is not apart from it.
  pub data Takes (x : T) : List T → T → List T → Type 0 where
    here : {y : T} {ys : List T} → apart r x y ≡ false → Takes x (y ∷ ys) (absorb r x y) ys
    there :
        {y x' : T} {ys ys' : List T}
        → apart r x y ≡ true
        → Takes x ys x' ys'
        → Takes x (y ∷ ys) x' (y ∷ ys')

  pub data Merges : List T → List T → Type 0 where
    first : {x x' : T} {xs xs' : List T} → Takes x xs x' xs' → Merges (x ∷ xs) (x' ∷ xs')
    later : (x : T) {xs xs' : List T} → Merges xs xs' → Merges (x ∷ xs) (x ∷ xs')

  pub merge_into-cases :
      (x : T) (xs : List T)
      → ((merge_into r x xs ≡ none) × All (λ y. apart r x y ≡ true) xs)
        ⊎ ((x' : T) × (xs' : List T) × (merge_into r x xs ≡ some (x', xs')) × Takes x xs x' xs')
  unfolding merge_into
  merge_into-cases x [] = inl (refl, tt)
  merge_into-cases x (y ∷ ys) = elim (Bool-cases (apart r x y)) [
    | inl e ↦ elim (merge_into-cases x ys) [
      | inl (n, a) ↦ inl (rw (e, n), (e, a))
      | inr (x', ys', m, t) ↦ inr (x', y ∷ ys', rw (e, m), Takes.there e t)
    ]
    | inr e ↦ inr (absorb r x y, ys, rw e, Takes.here e)
  ]

  -- The loops find no pair to merge.
  abbrev pub AllApart : List T → Type 0
  AllApart [] = Unit {0}
  AllApart (x ∷ xs) = All (λ y. apart r x y ≡ true) xs × AllApart xs

  pub merge_once-cases :
      (xs : List T)
      → ((merge_once r xs ≡ none) × AllApart xs)
        ⊎ ((xs' : List T) × (merge_once r xs ≡ some xs') × Merges xs xs')
  unfolding merge_once
  merge_once-cases [] = inl (refl, tt)
  merge_once-cases (x ∷ xs) = elim (merge_into-cases x xs) [
    | inr (x', xs', m, t) ↦ inr (x' ∷ xs', rw (m, merge_once), Merges.first t)
    | inl (n, a) ↦ elim (merge_once-cases xs) [
      | inl (k, d) ↦ inl (rw (n, k, merge_once), (a, d))
      | inr (xs', k, m) ↦ inr (x ∷ xs', rw (n, k, merge_once), Merges.later x m)
    ]
  ]

  Takes-length : {x x' : T} {xs xs' : List T} → Takes x xs x' xs' → length xs ≡ suc (length xs')
  Takes-length (Takes.here e) = refl
  Takes-length (Takes.there e t) = ap suc (Takes-length t)

  pub Merges-length : {xs xs' : List T} → Merges xs xs' → length xs ≡ suc (length xs')
  Merges-length (Merges.first t) = ap suc (Takes-length t)
  Merges-length (Merges.later x m) = ap suc (Merges-length m)
