-- ===== src/Retrieval/Pack/Offered.antt =====
-- One item, or a list of items, that is offered to a pack: held, in its order, or skipped.
use ragrep.Common.{
  ℕ, ◌+◌, Text, true, false, ◌≡◌, refl, sym, ◌∙◌, ◌⊎◌, ltb, Option, none, some, List, [], ◌∷◌, ◌++◌,
  arith, for_each, ◌≤◌, ◌<◌, map, map-append, All, All-map, All-append, Dealt, Dealt-append,
  append-nil, append_assoc, Bool-cases, inl, inr,
}
use ragrep.CodeIndex.{Symbol, Relation}
use ragrep.CodeStore.{SymbolHit}
use ragrep.Retrieval.Pack.{
  ContextPack, Encoder, skip, try_add, add_candidate, add_symbol, add_relation, relation_id,
}

-- An item that has no size, or too great a one for what is left of the budget.
abbrev pub Lacks : {F A : Type 0} → (A → Option ℕ) → ContextPack F → A → Type 0
Lacks size q x = (size x ≡ none) ⊎ ((n : ℕ) × (size x ≡ some n) × (q.budget < q.used_chars + n))

pub Lacks-later :
    {F A : Type 0} (size : A → Option ℕ) (p q : ContextPack F) (xs : List A)
    → q.budget ≡ p.budget
    → p.used_chars ≤ q.used_chars
    → All (Lacks size p) xs
    → All (Lacks size q) xs
Lacks-later size p q xs same grows =
    All-map _ _
      (λ x. elim [ inl e ↦ inl e | inr h ↦ inr (h.0, h.1, omega (arith, same, grows, h.2)) ]) xs

-- From a pack, on being offered items, to a pack that holds some more: what one list of the pack
-- gained, that each other item is among the skipped by its name, and that it does not fit.
module _ {F A : Type 0} (held : ContextPack F → List A) (name : A → Text)
    (size : A → Option ℕ) where
  pub record Offered (p : ContextPack F) (xs : List A) (q : ContextPack F) : Type 0 where
    pub kept : List A
    pub left : List A
    pub gained : held q ≡ held p ++ kept
    pub dealt : Dealt kept left xs
    pub reported : q.skipped ≡ p.skipped ++ map name left
    pub same_budget : q.budget ≡ p.budget
    pub grows : p.used_chars ≤ q.used_chars
    pub lacking : All (Lacks size q) left

  pub Offered-none : (p : ContextPack F) → Offered p [] p
  Offered-none p = record {
    kept = [];
    left = [];
    gained = rw append-nil;
    dealt = Dealt.none_left;
    reported = rw append-nil;
    same_budget = refl;
    grows = omega arith;
    lacking = tt;
  }

  pub Offered-trans :
      (p q t : ContextPack F) (xs ys : List A)
      → Offered p xs q
      → Offered q ys t
      → Offered p (xs ++ ys) t
  Offered-trans p q t xs ys a b = record {
    kept = a.kept ++ b.kept;
    left = a.left ++ b.left;
    gained = rw (b.gained, a.gained, append_assoc);
    dealt = Dealt-append a.dealt b.dealt;
    reported = rw (b.reported, a.reported, append_assoc, map-append);
    same_budget = b.same_budget ∙ a.same_budget;
    grows = omega (arith, a.grows, b.grows);
    lacking =
        All-append _ a.left b.left (Lacks-later size q t a.left b.same_budget b.grows a.lacking)
          b.lacking;
  }

  -- The loop over a step that keeps its item or reports it.
  pub for_each-Offered :
      (step : ContextPack F → A → ContextPack F)
      → ((p : ContextPack F) (a : A) → Offered p (a ∷ []) (step p a))
      → (p : ContextPack F) (xs : List A) → Offered p xs (for_each step p xs)
  for_each-Offered step one p [] = Offered-none p
  for_each-Offered step one p (x ∷ xs) =
      Offered-trans p (step p x) (for_each step (step p x) xs) (x ∷ []) xs (one p x)
        (for_each-Offered step one (step p x) xs)

  Offered-kept :
      (p q : ContextPack F) (x : A)
      → held q ≡ held p ++ x ∷ []
      → q.skipped ≡ p.skipped
      → q.budget ≡ p.budget
      → p.used_chars ≤ q.used_chars
      → Offered p (x ∷ []) q
  Offered-kept p q x h e same grows = record {
    kept = x ∷ [];
    left = [];
    gained = h;
    dealt = Dealt.to_first x Dealt.none_left;
    reported = e ∙ sym (append-nil p.skipped);
    same_budget = same;
    grows = grows;
    lacking = tt;
  }

  Offered-skipped :
      (p q : ContextPack F) (x : A)
      → held q ≡ held p
      → q.skipped ≡ p.skipped ++ name x ∷ []
      → q.budget ≡ p.budget
      → p.used_chars ≤ q.used_chars
      → Lacks size q x
      → Offered p (x ∷ []) q
  Offered-skipped p q x h e same grows lacks = record {
    kept = [];
    left = x ∷ [];
    gained = h ∙ sym (append-nil (held p));
    dealt = Dealt.to_second x Dealt.none_left;
    reported = e;
    same_budget = same;
    grows = grows;
    lacking = (lacks, tt);
  }

-- What `tryAdd` does: the item has no size or is too large and is skipped, or it is charged for.
try_add-cases :
    {F : Type 0} (p : ContextPack F) (cost : Option ℕ) (id : Text)
    → ((try_add p cost id ≡ (skip p id, false))
        × ((cost ≡ none) ⊎ ((n : ℕ) × (cost ≡ some n) × (p.budget < p.used_chars + n))))
      ⊎ ((n : ℕ) × (try_add p cost id ≡ (record p { used_chars = p.used_chars + n }, true)))
unfolding try_add
try_add-cases p none id = inl (refl, inl refl)
try_add-cases p (some cost) id = elim (Bool-cases (ltb p.budget (p.used_chars + cost))) [
  | inl e ↦ inl (rw e, inr (cost, refl, ground arith))
  | inr e ↦ inr (cost, rw e)
]

module _ {F : Type 0} (enc : Encoder F) where
  pub add_candidate-Offered :
      (p : ContextPack F) (x : SymbolHit F)
      → Offered (λ q. q.candidates) (λ c. c.key) enc.hit_size p (x ∷ []) (add_candidate enc p x)
  unfolding add_candidate skip
  add_candidate-Offered p x = elim (try_add-cases p (enc.hit_size x) x.key) [
    | inl (e, lacks) ↦
        rw (e, add_candidate)
          (Offered-skipped (λ q. q.candidates) (λ c. c.key) enc.hit_size p _ x refl refl refl
            (omega arith) lacks)
    | inr (n, e) ↦
        rw (e, add_candidate)
          (Offered-kept (λ q. q.candidates) (λ c. c.key) enc.hit_size p _ x refl refl refl
            (omega arith))
  ]

  pub add_symbol-Offered :
      (p : ContextPack F) (x : Symbol)
      → Offered (λ q. q.symbols) (λ s. s.key) enc.symbol_size p (x ∷ []) (add_symbol enc p x)
  unfolding add_symbol skip
  add_symbol-Offered p x = elim (try_add-cases p (enc.symbol_size x) x.key) [
    | inl (e, lacks) ↦
        rw (e, add_symbol)
          (Offered-skipped (λ q. q.symbols) (λ s. s.key) enc.symbol_size p _ x refl refl refl
            (omega arith) lacks)
    | inr (n, e) ↦
        rw (e, add_symbol)
          (Offered-kept (λ q. q.symbols) (λ s. s.key) enc.symbol_size p _ x refl refl refl
            (omega arith))
  ]

  pub add_relation-Offered :
      (p : ContextPack F) (x : Relation)
      → Offered (λ q. q.relations) relation_id enc.relation_size p (x ∷ []) (add_relation enc p x)
  unfolding add_relation skip
  add_relation-Offered p x = elim (try_add-cases p (enc.relation_size x) (relation_id x)) [
    | inl (e, lacks) ↦
        rw (e, add_relation)
          (Offered-skipped (λ q. q.relations) relation_id enc.relation_size p _ x refl refl refl
            (omega arith) lacks)
    | inr (n, e) ↦
        rw (e, add_relation)
          (Offered-kept (λ q. q.relations) relation_id enc.relation_size p _ x refl refl refl
            (omega arith))
  ]
