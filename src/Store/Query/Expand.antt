-- ===== src/Store/Query/Expand.antt =====
-- The bodies of the expanded hits.
use ragrep.Common.{
  ℕ, suc, zero, ◌+◌, ◌-◌, ◌≤◌, ◌≡◌, refl, ap, subst, Text, Bool, true, false, ltb, inl, inr, ◌⊎◌,
  List, [], ◌∷◌, map, take, length, All, All-map, Any, if◌then◌else◌, Result, ok, err, ◌>>=◌,
  >>=-eq-ok, arith,
}
use ragrep.Store.Db.{Db}
use ragrep.Store.Upsert.{Env}
use ragrep.Store.Query.{Hit, get_paras, expand_from, expand_hit_bodies}

module _ {E F : Type 0} (get : Text → ℕ → Result {0, 0} E Text) where
  -- The hit without its body.
  abbrev pub bare : Hit F → Hit F
  bare h = record h { body = []; body_truncated = false }

  abbrev pub body_sum : List (Hit F) → ℕ
  body_sum [] = 0
  body_sum (h ∷ hits) = length h.body + body_sum hits

  -- The body is empty, or the paragraph's whole text, or a marked prefix of it.
  abbrev pub HasBody : Hit F → Type 0
  HasBody h =
      (h.body ≡ [])
      ⊎ (get h.doc h.para ≡ ok h.body)
      ⊎ ((h.body_truncated ≡ true)
          × ((n : ℕ) × (text : Text) × (get h.doc h.para ≡ ok text) × (h.body ≡ take n text)))

  abbrev pub IsExpanded : ℕ → ℕ → List (Hit F) → List (Hit F) → Type 0
  IsExpanded top budget hits out =
      (body_sum out ≤ budget)
      × (map bare out ≡ map bare hits)
      × All HasBody out
      × (All (λ h. get h.doc h.para ≡ ok h.body) (take top out)
          ⊎ Any (λ h. h.body_truncated ≡ true) out)

length-take : {A : Type 0} (n : ℕ) (xs : List A) → length (take n xs) ≤ n
length-take zero xs = omega arith
length-take (suc n) [] = omega arith
length-take (suc n) (x ∷ xs) = omega (arith, length-take n xs)

injective : {E A : Type 0} {x y : A} → ◌≡◌ {A = Result E A} (ok x) (ok y) → x ≡ y
injective h = cc

module _ {E F : Type 0} (get : Text → ℕ → Result {0, 0} E Text) where
  unexpanded :
      (budget : ℕ) (hits : List (Hit F))
      → All (λ h. h.body ≡ []) hits
      → IsExpanded get 0 budget hits hits
  unexpanded budget hits a = (at_most hits a, refl, All-map _ _ (λ h e. inl e) hits a, inl tt)
    where
      at_most : (hs : List (Hit F)) → All (λ h. h.body ≡ []) hs → body_sum get hs ≤ budget
      at_most [] b = omega arith
      at_most (h ∷ hs) b = rw (b.0) (omega (arith, at_most hs b.1))

  expand_from-IsExpanded :
      (top budget used : ℕ) (hits : List (Hit F)) {out : List (Hit F)}
      → used ≤ budget
      → All (λ h. h.body ≡ []) hits
      → expand_from get top budget used hits ≡ ok out
      → IsExpanded get top (budget - used) hits out
  unfolding expand_from
  expand_from-IsExpanded zero budget used hits {out} fits a h =
      subst (IsExpanded get 0 (budget - used) hits) (injective h)
        (unexpanded (budget - used) hits a)
  expand_from-IsExpanded (suc top) budget used [] {out} fits a h =
      subst (IsExpanded get (suc top) (budget - used) []) (injective h)
        (omega arith, refl, tt, inl tt)
  expand_from-IsExpanded (suc top) budget used (hit ∷ hits) {out} fits a h =
      go (get hit.doc hit.para) refl h (λ body more fewer e.
        expand_from-IsExpanded top budget (used + length body) hits fewer a.1 e)
    where
      go :
          (r : Result {0, 0} E Text)
          → get hit.doc hit.para ≡ r
          → ◌≡◌ {A = Result {0, 0} E (List (Hit F))}
              (elim r [
                | err e ↦ err e
                | ok body ↦
                    let rest = expand_from get top budget (used + length body) hits in
                    if ltb (budget - used) (length body)
                    then ok (
                        record hit { body = take (budget - used) body; body_truncated = true }
                        ∷ hits)
                    else rest >>= (λ more. ok (record hit { body = body } ∷ more))
              ])
              (ok out)
          → ((body : Text) (more : List (Hit F))
              → used + length body ≤ budget
              → expand_from get top budget (used + length body) hits ≡ ok more
              → IsExpanded get top (budget - (used + length body)) hits more)
          → IsExpanded get (suc top) (budget - used) (hit ∷ hits) out
      go (err e) at g step = cc (g)
      go (ok body) at g step = decide (ltb (budget - used) (length body)) refl g
        where
          decide :
              (b : Bool)
              → ltb (budget - used) (length body) ≡ b
              → ◌≡◌ {A = Result {0, 0} E (List (Hit F))}
                  (if b
                    then ok (
                        record hit { body = take (budget - used) body; body_truncated = true }
                        ∷ hits)
                    else expand_from get top budget (used + length body) hits
                      >>= (λ more. ok (record hit { body = body } ∷ more)))
                  (ok out)
              → IsExpanded get (suc top) (budget - used) (hit ∷ hits) out
          decide true over k =
              let rest = unexpanded 0 hits a.1 in
              subst (IsExpanded get (suc top) (budget - used) (hit ∷ hits)) (injective k) (
                omega (arith, length-take (budget - used) body, rest.0),
                refl,
                (inr (inr (refl, (budget - used, body, at, refl))), rest.2),
                inr (inl refl),
              )
          decide false over k =
              let within : length body ≤ budget - used = ground (arith, over) in
              let chain =
                >>=-eq-ok (expand_from get top budget (used + length body) hits)
                  (λ more. ok (record hit { body = body } ∷ more)) k in
              let rest = step body chain.0 (omega (arith, within, fits)) chain.1 in
              subst (IsExpanded get (suc top) (budget - used) (hit ∷ hits)) (injective chain.2) (
                omega (arith, rest.0, within),
                ap (λ l. bare get hit ∷ l) rest.1,
                (inr (inl at), rest.2),
                elim rest.3 [ inl full ↦ inl (at, full) | inr cut ↦ inr (inr cut) ],
              )

-- When ExpandHitBodies succeeds on hits without bodies, the bodies it puts in have together at most
-- as many runes as the budget; each is empty, the whole text that GetParas returns for its hit, or a
-- prefix of it that is marked as truncated; every one of the first `top` hits has the whole text
-- unless a body was truncated; and nothing else of the hits has changed.
pub expand_hit_bodies-IsExpanded :
    {E F Vector Blob : Type 0} (env : Env E Vector Blob) (db : Db Blob) (hits : List (Hit F))
    (top budget : ℕ) {out : List (Hit F)}
    → All (λ h. h.body ≡ []) hits
    → expand_hit_bodies env db hits top budget ≡ ok out
    → IsExpanded (λ doc para. get_paras env doc para 0 db) top budget hits out
unfolding expand_hit_bodies
expand_hit_bodies-IsExpanded env db hits top budget {out} a h =
    subst (λ n. IsExpanded (λ doc para. get_paras env doc para 0 db) top n hits out) (omega arith)
      (expand_from-IsExpanded (λ doc para. get_paras env doc para 0 db) top budget 0 hits
        (omega arith) a h)
