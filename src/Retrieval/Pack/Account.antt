-- ===== src/Retrieval/Pack/Account.antt =====
-- The account that a pack keeps of what it holds and of what it left out.
use ragrep.Common.{
  ℕ, ◌+◌, ◌≤◌, Text, false, not, ◌≡◌, refl, Option, none, some, List, [], ◌∷◌, ◌++◌, arith, ok,
  >>=-eq-ok, for_each, is_empty,
}
use ragrep.CodeIndex.{Symbol, Relation}
use ragrep.CodeStore.{SymbolHit}
use ragrep.Retrieval.Pack.{
  ContextPack, Encoder, Getters, fetch_relations, add_candidate, add_symbol, add_relation,
  relation_id, add_candidates, add_symbols, add_relations, fetch_symbols, relate, dedup_candidates,
  dedup_symbols, build_context_pack, empty_pack, wrap,
}

-- The bytes of the items that were encoded.
abbrev pub total : {A : Type 0} → (A → Option ℕ) → List A → ℕ
total size [] = 0
total size (x ∷ xs) = (elim (size x) [ none ↦ 0 | some n ↦ n ]) + total size xs

total-append :
    {A : Type 0} (size : A → Option ℕ) (xs ys : List A)
    → total size (xs ++ ys) ≡ total size xs + total size ys
total-append size [] ys = omega arith
total-append size (x ∷ xs) ys = omega (arith, total-append size xs ys)

is_empty-append : {A : Type 0} (xs : List A) (x : A) → is_empty (xs ++ x ∷ []) ≡ false
is_empty-append [] x = refl
is_empty-append (y ∷ ys) x = refl

module _ {F : Type 0} (enc : Encoder F) where
  open enc use {hit_size, symbol_size, relation_size}

  -- What the pack holds fits the budget, and `truncated` says whether something was left out.
  pub record IsAccounted (budget : ℕ) (p : ContextPack F) : Type 0 where
    pub limit : p.budget ≡ budget
    pub bounded : p.used_chars ≤ budget
    pub spent :
        p.used_chars
        ≡ total hit_size p.candidates
          + total symbol_size p.symbols
          + total relation_size p.relations
    pub reported : p.truncated ≡ not (is_empty p.skipped)

  add_candidate-IsAccounted :
      (budget : ℕ) (p : ContextPack F) (c : SymbolHit F)
      → IsAccounted budget p
      → IsAccounted budget (add_candidate enc p c)
  unfolding add_candidate
  add_candidate-IsAccounted budget p c v =
      ground (arith, total-append hit_size p.candidates (c ∷ []), is_empty-append p.skipped c.key)

  add_symbol-IsAccounted :
      (budget : ℕ) (p : ContextPack F) (s : Symbol)
      → IsAccounted budget p
      → IsAccounted budget (add_symbol enc p s)
  unfolding add_symbol
  add_symbol-IsAccounted budget p s v =
      ground (arith, total-append symbol_size p.symbols (s ∷ []), is_empty-append p.skipped s.key)

  add_relation-IsAccounted :
      (budget : ℕ) (p : ContextPack F) (r : Relation)
      → IsAccounted budget p
      → IsAccounted budget (add_relation enc p r)
  unfolding add_relation
  add_relation-IsAccounted budget p r v = ground (
    arith,
    total-append relation_size p.relations (r ∷ []),
    is_empty-append p.skipped (relation_id r),
  )

  for_each-IsAccounted :
      {A : Type 0} (budget : ℕ) (step : ContextPack F → A → ContextPack F)
      → ((p : ContextPack F) (a : A) → IsAccounted budget p → IsAccounted budget (step p a))
      → (p : ContextPack F) (xs : List A) → IsAccounted budget p
      → IsAccounted budget (for_each step p xs)
  for_each-IsAccounted budget step keep p [] v = v
  for_each-IsAccounted budget step keep p (x ∷ xs) v =
      for_each-IsAccounted budget step keep (step p x) xs (keep p x v)

  relate-IsAccounted :
      {E : Type 0} (budget : ℕ) (g : Getters E) (syms : List Symbol) (p : ContextPack F)
      {q : ContextPack F}
      → IsAccounted budget p
      → relate enc g p syms ≡ ok q
      → IsAccounted budget q
  unfolding relate
  relate-IsAccounted budget g [] p v e = ground arith
  relate-IsAccounted budget g (sym ∷ syms) p v e =
      let (rels, _, rest) =
        >>=-eq-ok (wrap (fetch_relations sym.key) (g.get_relations sym.key))
          (λ rels. relate enc g (add_relations enc p rels) syms) e in
      relate-IsAccounted budget g syms (add_relations enc p rels)
        (unfold add_relations in
          for_each-IsAccounted budget (add_relation enc) (add_relation-IsAccounted budget) p rels v)
        rest

  -- A pack that is built never holds more than the budget, counts exactly what its items cost,
  -- and is marked as truncated exactly when something was skipped.
  pub build_context_pack-IsAccounted :
      {E : Type 0} (g : Getters E) (hits : List (SymbolHit F)) (budget : ℕ) (keys : List Text)
      {pack : ContextPack F}
      → build_context_pack enc g hits budget keys ≡ ok pack
      → IsAccounted budget pack
  unfolding build_context_pack
  build_context_pack-IsAccounted g hits budget keys e =
      let start = empty_pack F budget in
      let found = add_candidates enc start (dedup_candidates hits) in
      let (fetched, _, rest) =
        >>=-eq-ok (fetch_symbols g keys)
          (λ fetched.
            let pack = add_symbols enc found (dedup_symbols fetched) in
            relate enc g pack pack.symbols)
          e in
      let v =
        for_each-IsAccounted budget (add_candidate enc) (add_candidate-IsAccounted budget) start
          (dedup_candidates hits) (ground arith) in
      let w =
        for_each-IsAccounted budget (add_symbol enc) (add_symbol-IsAccounted budget) found
          (dedup_symbols fetched) v in
      relate-IsAccounted budget g _ _ w rest
