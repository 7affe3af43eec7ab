-- ===== src/Common/Selects.antt =====
-- The rows of a table that a test selects.
use mathlib.Core.Path.{◌≡◌, refl, sym, ap, subst, ◌∙◌}
use mathlib.Core.Logic.{◌≢◌, inl, inr}
use mathlib.Core.List.{List, [], ◌∷◌, ◌++◌, map}
use mathlib.Core.Bool.{Bool, true}
use mathlib.Core.Option.{Option, none, some}
use native.Mathlib.Omega.{arith}
use ragrep.Common.Tests.{if◌then◌else◌, Bool-cases}
use ragrep.Common.Lists.{All, In, IsNodup}

module _ {A : Type 0} where
  unfoldable pub select : (A → Bool) → List A → List A
  select test [] = []
  select test (x ∷ xs) = let rest = select test xs in if test x then x ∷ rest else rest

  -- The first of them.
  unfoldable pub find : (A → Bool) → List A → Option A
  find test [] = none
  find test (x ∷ xs) = let rest = find test xs in if test x then some x else rest

  pub select-congr :
      (P Q : A → Bool) (xs : List A) → All (λ x. P x ≡ Q x) xs → select P xs ≡ select Q xs
  unfolding select
  select-congr P Q [] h = refl
  select-congr P Q (x ∷ xs) h = ground (arith, select-congr P Q xs h.1)

  pub select-All : (P : A → Type 0) (Q : A → Bool) (xs : List A) → All P xs → All P (select Q xs)
  unfolding select
  select-All P Q [] h = tt
  select-All P Q (x ∷ xs) h = elim (Bool-cases (Q x)) [
    | inl e ↦ rw (e) (h.0, select-All P Q xs h.1)
    | inr e ↦ rw (e) (select-All P Q xs h.1)
  ]

module _ {A B : Type 0} where
  pub select-map :
      (P : B → Bool) (f : A → B) (xs : List A)
      → select P (map f xs) ≡ map f (select (λ x. P (f x)) xs)
  unfolding select
  select-map P f [] = refl
  select-map P f (x ∷ xs) = elim (Bool-cases (P (f x))) [
    | inl e ↦ rw (e, select-map P f xs) refl
    | inr e ↦ rw (e, select-map P f xs) refl
  ]

module _ {A B : Type 0} (key : A → B) where
  pub select_key-IsNodup :
      (Q : A → Bool) (docs : List A) → IsNodup (map key docs) → IsNodup (map key (select Q docs))
  unfolding select
  select_key-IsNodup Q [] = λ h. tt
  select_key-IsNodup Q (x ∷ docs) = elim (Bool-cases (Q x)) [
    | inl e ↦ rw (e) (λ h. (under docs h.0, select_key-IsNodup Q docs h.1))
    | inr e ↦ rw (e) (λ h. select_key-IsNodup Q docs h.1)
  ]
    where
      under :
          (xs : List A)
          → All (λ y. y ≢ key x) (map key xs)
          → All (λ y. y ≢ key x) (map key (select Q xs))
      under [] = λ a. tt
      under (y ∷ ys) = elim (Bool-cases (Q y)) [
        | inl e ↦ rw (e) (λ a. (a.0, under ys a.1))
        | inr e ↦ rw (e) (λ a. under ys a.1)
      ]

pub some_injective : {A : Type 0} {x y : A} → some x ≡ some y → x ≡ y
some_injective h = cc

pub find-In :
    {A : Type 0} (Q : A → Bool) (xs : List A) {x : A} → find Q xs ≡ some x → In x xs × (Q x ≡ true)
unfolding find
find-In Q [] = λ h. cc
find-In Q (y ∷ ys) = elim (Bool-cases (Q y)) [
  | inl e ↦ rw (e) (λ h. (inl (some_injective h), subst (λ z. Q z ≡ true) (some_injective h) e))
  | inr e ↦ rw (e) (λ h. let rest = find-In Q ys h in (inr rest.0, rest.1))
]

-- Under a key that is never the same twice, a row with the key of `d` is `d`.
module _ {A B : Type 0} (key : A → B) where
  pub unique_key :
      (docs : List A) (d : A)
      → IsNodup (map key docs)
      → In d docs
      → All (λ x. key x ≡ key d → x ≡ d) docs
  unique_key [] d n i = tt
  unique_key (x ∷ docs) d n (inl e) = (λ s. e, above docs n.0)
    where
      above :
          (xs : List A) → All (λ y. y ≢ key x) (map key xs) → All (λ y. key y ≡ key d → y ≡ d) xs
      above [] a = tt
      above (y ∷ ys) a = (λ s. absurd (a.0 (s ∙ ap key (sym e))), above ys a.1)
  unique_key (x ∷ docs) d n (inr i) = (λ s. absurd (within docs n.0 i s), unique_key docs d n.1 i)
    where
      within : (xs : List A) → All (λ y. y ≢ key x) (map key xs) → In d xs → ¬ (key x ≡ key d)
      within [] a i s = i
      within (y ∷ ys) a (inl e) s = a.0 (ap key e ∙ sym s)
      within (y ∷ ys) a (inr i) s = within ys a.1 i s

module _ {A : Type 0} (Q : A → Bool) where
  pub find-append : (xs ys : List A) {x : A} → find Q xs ≡ some x → find Q (xs ++ ys) ≡ some x
  unfolding find
  find-append [] ys = λ h. cc
  find-append (y ∷ xs) ys = elim (Bool-cases (Q y)) [
    | inl e ↦ rw (e) (λ h. h)
    | inr e ↦ rw (e) (λ h. find-append xs ys h)
  ]

  pub find-snoc :
      (xs : List A) (x : A) → find Q xs ≡ none → Q x ≡ true → find Q (xs ++ x ∷ []) ≡ some x
  unfolding find
  find-snoc [] x = λ h t. rw (t) refl
  find-snoc (y ∷ xs) x = elim (Bool-cases (Q y)) [
    | inl e ↦ rw (e) (λ h t. cc)
    | inr e ↦ rw (e) (λ h t. find-snoc xs x h t)
  ]

  -- A change that the test does not see.
  pub find-map :
      (f : A → A) (xs : List A) {x : A}
      → ((y : A) → Q (f y) ≡ Q y)
      → find Q xs ≡ some x
      → find Q (map f xs) ≡ some (f x)
  unfolding find
  find-map f [] same = λ h. cc
  find-map f (y ∷ xs) same = elim (Bool-cases (Q y)) [
    | inl e ↦ rw (e, same y ∙ e) (λ h. ap some (ap f (some_injective h)))
    | inr e ↦ rw (e, same y ∙ e) (λ h. find-map f xs same h)
  ]

  -- A change that leaves the found element alone, and makes no other pass the test.
  pub find_past-map :
      (f : A → A) (xs : List A) (x : A)
      → f x ≡ x
      → All (λ y. Q (f y) ≡ true → f y ≡ y) xs
      → find Q xs ≡ some x
      → find Q (map f xs) ≡ some x
  unfolding find
  find_past-map f [] x own = λ a h. cc
  find_past-map f (y ∷ xs) x own = elim (Bool-cases (Q y)) [
    | inl e ↦ rw (e) (λ a h.
        let s = some_injective h in
        let same = ap f s ∙ (own ∙ sym s) in rw (ap Q same ∙ e) (ap some (same ∙ s)))
    | inr e ↦ rw (e) (λ a h. elim (Bool-cases (Q (f y))) [
      | inl k ↦ cc (k, e, a.0 k)
      | inr k ↦ rw (k) (find_past-map f xs x own a.1 h)
    ])
  ]

  pub select-In : (xs : List A) (x : A) → In x (select Q xs) → In x xs
  unfolding select
  select-In [] x = λ i. i
  select-In (y ∷ ys) x = elim (Bool-cases (Q y)) [
    | inl e ↦ rw (e) (λ i. elim i [ inl s ↦ inl s | inr j ↦ inr (select-In ys x j) ])
    | inr e ↦ rw (e) (λ j. inr (select-In ys x j))
  ]

  -- What is selected passes the test.
  pub select-passes : (xs : List A) (x : A) → In x (select Q xs) → Q x ≡ true
  unfolding select
  select-passes [] x = λ i. absurd i
  select-passes (y ∷ ys) x = elim (Bool-cases (Q y)) [
    | inl e ↦ rw (e) (λ i. elim i [ inl s ↦ ap Q (sym s) ∙ e | inr j ↦ select-passes ys x j ])
    | inr e ↦ rw (e) (λ j. select-passes ys x j)
  ]

  -- What passes the test is selected.
  pub In-select : (xs : List A) (x : A) → In x xs → Q x ≡ true → In x (select Q xs)
  unfolding select
  In-select [] x i h = absurd i
  In-select (y ∷ ys) x i h = elim (Bool-cases (Q y)) [
    | inl e ↦ rw (e) (elim i [ inl s ↦ inl s | inr j ↦ inr (In-select ys x j h) ])
    | inr e ↦ rw (e) (elim i [ inl s ↦ cc (e, h, ap Q s) | inr j ↦ In-select ys x j h ])
  ]
