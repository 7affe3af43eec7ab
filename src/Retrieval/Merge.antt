-- ===== src/Retrieval/Merge.antt =====
-- context.go: `mergeOverlapping` and `collapseOverlaps`, over any type of items with a line range.
pub mod Steps
pub mod Disjoint
pub mod Coverage
use ragrep.Common.{
  ℕ, zero, suc, Text, text_eq, Bool, true, false, ◌||◌, not, ◌≡◌, Option, none, some, List, [], ◌∷◌,
  ◌++◌, length, ltb, if◌then◌else◌,
}

-- The arguments `get` and `widen`: the path and the line range of an item, and the item with a
-- range of its own. The laws are what the two pairs of closures that the callers pass satisfy.
pub record Ranged (T : Type 0) : Type 0 where
  pub path_of : T → Text
  pub start_of : T → ℕ
  pub end_of : T → ℕ
  pub widen : T → ℕ → ℕ → T
  pub path_of-widen : (x : T) (s e : ℕ) → path_of (widen x s e) ≡ path_of x
  pub start_of-widen : (x : T) (s e : ℕ) → start_of (widen x s e) ≡ s
  pub end_of-widen : (x : T) (s e : ℕ) → end_of (widen x s e) ≡ e

module _ {T : Type 0} (r : Ranged T) where
  open r use {path_of, start_of, end_of, widen}

  -- `pi != pj || si > ej || sj > ei`: the pair is passed over.
  unfoldable pub apart : T → T → Bool
  apart x y =
      not (text_eq (path_of x) (path_of y))
      || ltb (end_of y) (start_of x)
      || ltb (end_of x) (start_of y)

  -- `if sj < si { si = sj }` and `if ej > ei { ei = ej }`.
  unfoldable pub lower : T → T → ℕ
  lower x y = if ltb (start_of y) (start_of x) then start_of y else start_of x

  unfoldable pub upper : T → T → ℕ
  upper x y = if ltb (end_of x) (end_of y) then end_of y else end_of x

  -- `widen(&out[i], si, ei)`.
  unfoldable pub absorb : T → T → T
  unfolding lower upper
  absorb x y = widen x (lower x y) (upper x y)

  -- The inner loop: `x` is `out[i]`, and the list is what stands behind it. The first item that is
  -- not apart is absorbed and taken out of the list.
  unfoldable pub merge_into : T → List T → Option (T × List T)
  merge_into x [] = none
  merge_into x (y ∷ ys) =
      if apart x y
      then elim (merge_into x ys) [ none ↦ none | some (x', ys') ↦ some (x', y ∷ ys') ]
      else some (absorb x y, ys)

  -- The outer loop, up to the first merge; `none` where `mergedAny` stays false.
  unfoldable pub merge_once : List T → Option (List T)
  merge_once [] = none
  merge_once (x ∷ xs) = elim (merge_into x xs) [
    | some (x', xs') ↦ some (x' ∷ xs')
    | none ↦ elim (merge_once xs) [ none ↦ none | some xs' ↦ some (x ∷ xs') ]
  ]

  -- `for { ... }`, on fuel.
  unfoldable pub collapse_fuel : ℕ → List T → List T
  collapse_fuel zero out = out
  collapse_fuel (suc n) out = elim (merge_once out) [
    | none ↦ out
    | some out' ↦ collapse_fuel n out'
  ]

  -- A merge makes the list shorter, so its length is fuel enough.
  unfoldable pub collapse_overlaps : List T → List T
  unfolding collapse_fuel
  collapse_overlaps out = collapse_fuel (length out) out

  unfoldable pub merge_from : List T → List T → List T
  merge_from out [] = out
  merge_from out (item ∷ items) = merge_from (collapse_overlaps (out ++ item ∷ [])) items

  unfoldable pub merge_overlapping : List T → List T
  unfolding merge_from
  merge_overlapping items = merge_from [] items
