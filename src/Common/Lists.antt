-- ===== src/Common/Lists.antt =====
-- Lists measured by native numbers, and predicates on lists by recursion.
use Prim.Native.Nat.{ℕ, zero, suc, ◌+◌}
use mathlib.Core.Path.{◌≡◌, refl, sym, ◌∙◌}
use mathlib.Core.Logic.{◌⊎◌, inl, inr, ◌↔◌, ◌≢◌}
use mathlib.Core.List.{List, [], ◌∷◌, ◌++◌}
use mathlib.Core.Bool.{Bool, true, false}
use mathlib.Core.Option.{Option, none, some}
use native.Mathlib.Omega.{arith}

module _ {ℓ} {A : Type ℓ} where
  abbrev pub length : List A → ℕ
  length [] = 0
  length (x ∷ xs) = suc (length xs)

  pub length-append : (xs ys : List A) → length (xs ++ ys) ≡ length xs + length ys
  length-append [] ys = omega arith
  length-append (x ∷ xs) ys = omega (arith, length-append xs ys)

  -- Every element, and some element, satisfies a predicate.
  abbrev pub All {κ} : (A → Type κ) → List A → Type κ
  All P [] = Unit
  All P (x ∷ xs) = P x × All P xs

  abbrev pub Any : (A → Type 0) → List A → Type 0
  Any P [] = ⊥
  Any P (x ∷ xs) = P x ⊎ Any P xs

  -- `for _, x := range xs { s = step(s, x) }`.
  abbrev pub for_each {κ} : {S : Type κ} → (S → A → S) → S → List A → S
  for_each step s [] = s
  for_each step s (x ∷ xs) = for_each step (step s x) xs

  abbrev pub take : ℕ → List A → List A
  take zero xs = []
  take (suc n) [] = []
  take (suc n) (x ∷ xs) = x ∷ take n xs

  abbrev pub drop : ℕ → List A → List A
  drop zero xs = xs
  drop (suc n) [] = []
  drop (suc n) (x ∷ xs) = drop n xs

  abbrev pub is_empty : List A → Bool
  is_empty [] = true
  is_empty (x ∷ xs) = false

  abbrev pub get_elem? : List A → ℕ → Option A
  get_elem? [] i = none
  get_elem? (x ∷ xs) zero = some x
  get_elem? (x ∷ xs) (suc i) = get_elem? xs i

module _ {ℓ} {A : Type ℓ} where
  -- The elements of the first list stand in the second, in the same order.
  pub data Sublist : List A → List A → Type ℓ where
    nil : Sublist [] []
    skip : {xs ys : List A} (y : A) → Sublist xs ys → Sublist xs (y ∷ ys)
    keep : {xs ys : List A} (y : A) → Sublist xs ys → Sublist (y ∷ xs) (y ∷ ys)

  -- The items of the third list, in order, dealt out to the first two.
  pub data Dealt : List A → List A → List A → Type ℓ where
    none_left : Dealt [] [] []
    to_first : {xs ys zs : List A} (z : A) → Dealt xs ys zs → Dealt (z ∷ xs) ys (z ∷ zs)
    to_second : {xs ys zs : List A} (z : A) → Dealt xs ys zs → Dealt xs (z ∷ ys) (z ∷ zs)

  pub Dealt-append :
      {xs ys zs us vs ws : List A}
      → Dealt xs ys zs
      → Dealt us vs ws
      → Dealt (xs ++ us) (ys ++ vs) (zs ++ ws)
  Dealt-append Dealt.none_left t = t
  Dealt-append (Dealt.to_first z s) t = Dealt.to_first z (Dealt-append s t)
  Dealt-append (Dealt.to_second z s) t = Dealt.to_second z (Dealt-append s t)

  pub Sublist_refl : (xs : List A) → Sublist xs xs
  Sublist_refl [] = Sublist.nil
  Sublist_refl (x ∷ xs) = Sublist.keep x (Sublist_refl xs)

  pub Sublist_trans :
      {ys zs : List A} → Sublist ys zs → {xs : List A} → Sublist xs ys → Sublist xs zs
  Sublist_trans Sublist.nil s = s
  Sublist_trans (Sublist.skip y t) s = Sublist.skip y (Sublist_trans t s)
  Sublist_trans (Sublist.keep y t) (Sublist.skip _ s) = Sublist.skip y (Sublist_trans t s)
  Sublist_trans (Sublist.keep y t) (Sublist.keep _ s) = Sublist.keep y (Sublist_trans t s)

  pub Sublist-append :
      {xs ys : List A} (zs : List A) → Sublist xs ys → Sublist (xs ++ zs) (ys ++ zs)
  Sublist-append zs Sublist.nil = Sublist_refl zs
  Sublist-append zs (Sublist.skip y s) = Sublist.skip y (Sublist-append zs s)
  Sublist-append zs (Sublist.keep y s) = Sublist.keep y (Sublist-append zs s)

  pub Sublist_both :
      {xs ys zs ws : List A} → Sublist xs ys → Sublist zs ws → Sublist (xs ++ zs) (ys ++ ws)
  Sublist_both Sublist.nil t = t
  Sublist_both (Sublist.skip y s) t = Sublist.skip y (Sublist_both s t)
  Sublist_both (Sublist.keep y s) t = Sublist.keep y (Sublist_both s t)

  pub for_each-append {κ} :
      {S : Type κ} (step : S → A → S) (s : S) (xs ys : List A)
      → for_each step s (xs ++ ys) ≡ for_each step (for_each step s xs) ys
  for_each-append step s [] ys = refl
  for_each-append step s (x ∷ xs) ys = for_each-append step (step s x) xs ys

  pub Sublist_nil : (xs : List A) → Sublist [] xs
  Sublist_nil [] = Sublist.nil
  Sublist_nil (x ∷ xs) = Sublist.skip x (Sublist_nil xs)

  pub Sublist_prefix : (xs ys : List A) → Sublist xs (xs ++ ys)
  Sublist_prefix [] ys = Sublist_nil ys
  Sublist_prefix (x ∷ xs) ys = Sublist.keep x (Sublist_prefix xs ys)

  -- What every step leaves alone, the loop leaves alone.
  pub for_each_frame {κ μ} :
      {S : Type κ} {B : Type μ} (f : S → B) (step : S → A → S)
      → ((s : S) (a : A) → f (step s a) ≡ f s)
      → (s : S) (xs : List A) → f (for_each step s xs) ≡ f s
  for_each_frame f step same s [] = refl
  for_each_frame f step same s (x ∷ xs) = for_each_frame f step same (step s x) xs ∙ same s x

  pub All-append {κ} :
      (Fits : A → Type κ) (front back : List A)
      → All Fits front
      → All Fits back
      → All Fits (front ++ back)
  All-append Fits [] back f b = b
  All-append Fits (a ∷ front) back f b = (f.0, All-append Fits front back f.1 b)

  pub All-map {κ μ} :
      (P : A → Type κ) (Q : A → Type μ) (f : (a : A) → P a → Q a) (xs : List A)
      → All P xs
      → All Q xs
  All-map P Q f [] h = tt
  All-map P Q f (x ∷ xs) h = (f x h.0, All-map P Q f xs h.1)

  pub Any-append : (P : A → Type 0) (xs ys : List A) → Any P (xs ++ ys) ↔ (Any P xs ⊎ Any P ys)
  Any-append P [] ys = (inr, elim [ inl h ↦ absurd h | inr h ↦ h ])
  Any-append P (x ∷ xs) ys =
      let ih = Any-append P xs ys in
      (
        elim [
          | inl h ↦ inl (inl h)
          | inr h ↦ elim (ih.0 h) [ inl g ↦ inl (inr g) | inr g ↦ inr g ]
        ],
        elim [
          | inl (inl h) ↦ inl h
          | inl (inr h) ↦ inr (ih.1 (inl h))
          | inr h ↦ inr (ih.1 (inr h))
        ],
      )

  -- Membership, and lists with no element twice.
  abbrev pub IsNodup : List A → Type ℓ
  IsNodup [] = Unit
  IsNodup (x ∷ xs) = All (λ y. y ≢ x) xs × IsNodup xs

module _ {A : Type 0} where
  abbrev pub In : A → List A → Type 0
  In a = Any (λ x. x ≡ a)

  pub IsNodup-snoc : (xs : List A) (a : A) → IsNodup xs → ¬ (In a xs) → IsNodup (xs ++ a ∷ [])
  IsNodup-snoc [] a d new = (tt, tt)
  IsNodup-snoc (x ∷ xs) a d new = (
    All-append (λ y. y ≢ x) xs (a ∷ []) d.0 (λ e. new (inl (sym e)), tt),
    IsNodup-snoc xs a d.1 (λ h. new (inr h)),
  )
