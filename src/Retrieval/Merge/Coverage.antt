-- ===== src/Retrieval/Merge/Coverage.antt =====
-- context.go: the lines that merged items cover.
use ragrep.Common.{
  ℕ, Text, text_eq_iff, false, ◌≡◌, List, [], ◌∷◌, ◌++◌, map, map-append, append-nil, append_assoc,
  Sublist-append, Any, Any-append, ◌↔◌, ◌⊎◌, inl, inr, arith, Sublist, Sublist_refl, Sublist_trans,
}
use ragrep.Retrieval.Merge.{
  Ranged, lower, upper, apart, absorb, collapse_overlaps, merge_from, merge_overlapping,
}
use ragrep.Retrieval.Merge.Steps.{Takes, Merges}
use ragrep.Retrieval.Merge.Disjoint.{Holds, collapse_overlaps-related}

module _ {T : Type 0} (r : Ranged T) where
  open r use {path_of, start_of, end_of, widen}

  abbrev pub Covers : Text → ℕ → List T → Type 0
  Covers p n = Any (Holds r p n)

  absorb_parts :
      (x y : T)
      → (path_of (absorb r x y) ≡ path_of x)
        × (start_of (absorb r x y) ≡ lower r x y)
        × (end_of (absorb r x y) ≡ upper r x y)
  unfolding absorb
  absorb_parts x y = (r.path_of-widen x _ _, r.start_of-widen x _ _, r.end_of-widen x _ _)

  -- Two items that are not apart cover one range of lines between them.
  absorb-Holds :
      (p : Text) (n : ℕ) (x y : T)
      → apart r x y ≡ false
      → Holds r p n (absorb r x y) ↔ (Holds r p n x ⊎ Holds r p n y)
  unfolding apart lower upper
  absorb-Holds p n x y e = (
    λ h. ground (arith, absorb_parts x y, text_eq_iff (path_of x) (path_of y), h),
    λ h. ground (arith, absorb_parts x y, text_eq_iff (path_of x) (path_of y), h),
  )

  Takes-Covers :
      (p : Text) (n : ℕ) {x x' : T} {xs xs' : List T}
      → Takes r x xs x' xs'
      → (Holds r p n x' ⊎ Covers p n xs') ↔ (Holds r p n x ⊎ Covers p n xs)
  Takes-Covers p n {x} (Takes.here {y} e) = ground (arith, absorb-Holds p n x y e)
  Takes-Covers p n (Takes.there e t) = ground (arith, Takes-Covers p n t)

  Merges-Covers :
      (p : Text) (n : ℕ) {xs ys : List T} → Merges r xs ys → Covers p n ys ↔ Covers p n xs
  Merges-Covers p n (Merges.first t) = Takes-Covers p n t
  Merges-Covers p n (Merges.later x m) = ground (arith, Merges-Covers p n m)

  collapse_overlaps-Covers :
      (p : Text) (n : ℕ) (xs : List T) → Covers p n (collapse_overlaps r xs) ↔ Covers p n xs
  collapse_overlaps-Covers p n =
      collapse_overlaps-related r (λ xs ys. Covers p n ys ↔ Covers p n xs) (λ xs. (λ h. h, λ h. h))
        (λ xs ys zs h m. ground (arith, Merges-Covers p n m))

  merge_from-Covers :
      (p : Text) (n : ℕ) (out items : List T)
      → Covers p n (merge_from r out items) ↔ (Covers p n out ⊎ Covers p n items)
  unfolding merge_from
  merge_from-Covers p n out [] = (inl, elim [ inl h ↦ h | inr h ↦ absurd h ])
  merge_from-Covers p n out (x ∷ xs) =
      let next = out ++ x ∷ [] in
      ground (
        arith,
        merge_from-Covers p n (collapse_overlaps r next) xs,
        collapse_overlaps-Covers p n next,
        Any-append (Holds r p n) out (x ∷ []),
      )

  -- A line of a file lies in an item that comes out exactly when it lies in one that went in.
  pub merge_overlapping-Covers :
      (p : Text) (n : ℕ) (items : List T)
      → Covers p n (merge_overlapping r items) ↔ Covers p n items
  unfolding merge_overlapping
  merge_overlapping-Covers p n items = ground (arith, merge_from-Covers p n [] items)

-- What does not depend on the range is kept: the survivors are items of the input, in its order.
module _ {T K : Type 0} (r : Ranged T) (f : T → K)
    (f-widen : (x : T) (s e : ℕ) → f (r.widen x s e) ≡ f x) where
  Takes-Sublist :
      {x x' : T} {xs xs' : List T}
      → Takes r x xs x' xs'
      → (f x' ≡ f x) × Sublist (map f xs') (map f xs)
  unfolding absorb
  Takes-Sublist {x} (Takes.here {y} {ys} e) =
      (f-widen x _ _, Sublist.skip (f y) (Sublist_refl (map f ys)))
  Takes-Sublist (Takes.there {y} e t) = let ih = Takes-Sublist t in (ih.0, Sublist.keep (f y) ih.1)

  Merges-Sublist : {xs ys : List T} → Merges r xs ys → Sublist (map f ys) (map f xs)
  Merges-Sublist (Merges.first {x} t) =
      let ih = Takes-Sublist t in rw ih.0 (Sublist.keep (f x) ih.1)
  Merges-Sublist (Merges.later x m) = Sublist.keep (f x) (Merges-Sublist m)

  collapse_overlaps-Sublist : (xs : List T) → Sublist (map f (collapse_overlaps r xs)) (map f xs)
  collapse_overlaps-Sublist =
      collapse_overlaps-related r (λ xs ys. Sublist (map f ys) (map f xs))
        (λ xs. Sublist_refl (map f xs)) (λ xs ys zs h m. Sublist_trans (Merges-Sublist m) h)

  merge_from-Sublist :
      (out items : List T) → Sublist (map f (merge_from r out items)) (map f out ++ map f items)
  unfolding merge_from
  merge_from-Sublist out [] = rw append-nil (Sublist_refl (map f out))
  merge_from-Sublist out (x ∷ xs) =
      let next = out ++ x ∷ [] in
      let kept = Sublist-append (map f xs) (collapse_overlaps-Sublist next) in
      Sublist_trans (rw (map-append f out (x ∷ []), append_assoc) at kept)
        (merge_from-Sublist (collapse_overlaps r next) xs)

  pub merge_overlapping-Sublist :
      (items : List T) → Sublist (map f (merge_overlapping r items)) (map f items)
  unfolding merge_overlapping
  merge_overlapping-Sublist items = merge_from-Sublist [] items
