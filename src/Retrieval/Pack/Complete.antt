-- ===== src/Retrieval/Pack/Complete.antt =====
-- context.go: what is offered to a pack, and what becomes of it.
use ragrep.Common.{
  ℕ, Text, ◌≡◌, refl, ◌∙◌, subst, ap, List, [], ◌∷◌, ◌++◌, arith, Result, ok, ◌>>=◌, >>=-eq-ok,
  Dealt, All, map, codes, append_assoc, for_each_frame,
}
use ragrep.CodeIndex.{Symbol, Relation}
use ragrep.CodeStore.{SymbolHit}
use ragrep.Retrieval.Pack.Offered.{
  Lacks, Lacks-later, Offered, Offered-none, Offered-trans, for_each-Offered, add_candidate-Offered,
  add_symbol-Offered, add_relation-Offered,
}
use ragrep.Retrieval.Pack.{
  ContextPack, Encoder, Getters, PackError, fetch_relations, add_candidate, add_symbol,
  add_relation, add_candidates, add_symbols, add_relations, fetch_symbols, relate, dedup_candidates,
  dedup_symbols, build_context_pack, empty_pack, wrap, relation_id,
}

-- All the relations that the symbols of a pack have, in the order of the symbols.
abbrev pub relations_of :
    {E : Type 0} → Getters E → List Symbol → Result (PackError E) (List Relation)
relations_of g [] = ok []
relations_of g (sym ∷ syms) = do
  rels ← wrap (fetch_relations sym.key) (g.get_relations sym.key)
  rest ← relations_of g syms
  ok (rels ++ rest)

-- What the offers to a pack were and what became of them. Each of the three lists of offers is dealt
-- out to the pack and to what is left; `skipped` names what is left, the relations as
-- `from->to:kind`; and what is left has no size, or is too large for the rest of the budget.
pub record IsComplete {E F : Type 0} (enc : Encoder F) (g : Getters E) (hits : List (SymbolHit F))
    (keys : List Text) (pack : ContextPack F) : Type 0 where
  pub fetched : List Symbol
  pub related : List Relation
  pub fetches : fetch_symbols g keys ≡ ok fetched
  pub relates : relations_of g pack.symbols ≡ ok related
  pub candidates_left : List (SymbolHit F)
  pub symbols_left : List Symbol
  pub relations_left : List Relation
  pub candidates_dealt : Dealt pack.candidates candidates_left (dedup_candidates hits)
  pub symbols_dealt : Dealt pack.symbols symbols_left (dedup_symbols fetched)
  pub relations_dealt : Dealt pack.relations relations_left related
  pub reported :
      pack.skipped
      ≡ map (λ c. c.key) candidates_left
        ++ (map (λ s. s.key) symbols_left
            ++ map
                (λ r. r.from_key ++ (codes "->" ++ (r.to_key ++ (codes ":" ++ r.kind))))
                relations_left)
  pub candidates_lack : All (Lacks enc.hit_size pack) candidates_left
  pub symbols_lack : All (Lacks enc.symbol_size pack) symbols_left
  pub relations_lack : All (Lacks enc.relation_size pack) relations_left

module _ {E F : Type 0} (enc : Encoder F) (g : Getters E) where
  -- The stages leave the lists of the other stages alone.
  add_candidate_frame :
      (p : ContextPack F) (c : SymbolHit F)
      → ((add_candidate enc p c).symbols ≡ p.symbols)
        × ((add_candidate enc p c).relations ≡ p.relations)
  unfolding add_candidate
  add_candidate_frame p c = ground arith

  add_symbol_frame :
      (p : ContextPack F) (s : Symbol)
      → ((add_symbol enc p s).candidates ≡ p.candidates)
        × ((add_symbol enc p s).relations ≡ p.relations)
  unfolding add_symbol
  add_symbol_frame p s = ground arith

  add_relation_frame :
      (p : ContextPack F) (r : Relation)
      → ((add_relation enc p r).candidates ≡ p.candidates)
        × ((add_relation enc p r).symbols ≡ p.symbols)
  unfolding add_relation
  add_relation_frame p r = ground arith

  record Related (p : ContextPack F) (syms : List Symbol) (q : ContextPack F) : Type 0 where
    rels : List Relation
    found : relations_of g syms ≡ ok rels
    offered : Offered (λ t. t.relations) relation_id enc.relation_size p rels q
    same_candidates : q.candidates ≡ p.candidates
    same_symbols : q.symbols ≡ p.symbols

  relate-Related :
      (syms : List Symbol) (p : ContextPack F) {q : ContextPack F}
      → relate enc g p syms ≡ ok q
      → Related p syms q
  unfolding relate
  relate-Related [] p {q} e =
      let same : p ≡ q = ground arith in
      subst (Related p []) same (record {
        rels = [];
        found = refl;
        offered = Offered-none (λ t. t.relations) relation_id enc.relation_size p;
        same_candidates = refl;
        same_symbols = refl;
      })
  relate-Related (sym ∷ syms) p {q} e =
      let (rels, got, rest) =
        >>=-eq-ok (wrap (fetch_relations sym.key) (g.get_relations sym.key))
          (λ rels. relate enc g (add_relations enc p rels) syms) e in
      let mid = add_relations enc p rels in
      let later = relate-Related syms mid rest in
      record {
        rels = rels ++ later.rels;
        found = rw (got, later.found);
        offered =
            Offered-trans (λ t. t.relations) relation_id enc.relation_size p mid q rels later.rels
              (unfold add_relations in
                for_each-Offered (λ t. t.relations) relation_id enc.relation_size (add_relation enc)
                  (add_relation-Offered enc) p rels)
              later.offered;
        same_candidates =
            later.same_candidates
            ∙ (unfold add_relations in
                for_each_frame (λ t. t.candidates) (add_relation enc)
                  (λ t r. (add_relation_frame t r).0) p rels);
        same_symbols =
            later.same_symbols
            ∙ (unfold add_relations in
                for_each_frame (λ t. t.symbols) (add_relation enc)
                  (λ t r. (add_relation_frame t r).1) p rels);
      }

  -- The three stages, put together.
  IsComplete-stages :
      (hits : List (SymbolHit F)) (budget : ℕ) (keys : List Text) (fetched : List Symbol)
      (found filled pack : ContextPack F)
      → fetch_symbols g keys ≡ ok fetched
      → Offered
          (λ t. t.candidates)
          (λ c. c.key)
          enc.hit_size
          (empty_pack F budget)
          (dedup_candidates hits)
          found
      → (found.symbols ≡ []) × (found.relations ≡ [])
      → Offered (λ t. t.symbols) (λ s. s.key) enc.symbol_size found (dedup_symbols fetched) filled
      → (filled.candidates ≡ found.candidates) × (filled.relations ≡ found.relations)
      → Related filled filled.symbols pack
      → IsComplete enc g hits keys pack
  IsComplete-stages hits budget keys fetched found filled pack got one none_yet two unmoved three =
      let cs : pack.candidates ≡ one.kept = three.same_candidates ∙ unmoved.0 ∙ one.gained in
      let ss : pack.symbols ≡ two.kept = three.same_symbols ∙ two.gained ∙ rw none_yet.0 in
      let rs : pack.relations ≡ three.offered.kept =
        three.offered.gained ∙ rw (unmoved.1, none_yet.1) in
      let last = three.offered in
      record {
        fetched = fetched;
        related = three.rels;
        fetches = got;
        relates = ap (relations_of g) three.same_symbols ∙ three.found;
        candidates_left = one.left;
        symbols_left = two.left;
        relations_left = three.offered.left;
        candidates_dealt = rw cs one.dealt;
        symbols_dealt = rw ss two.dealt;
        relations_dealt = rw rs last.dealt;
        reported =
            rw (three.offered.reported, two.reported, one.reported)
              (append_assoc (map (λ c. c.key) one.left) (map (λ s. s.key) two.left)
                (map relation_id three.offered.left));
        candidates_lack =
            Lacks-later enc.hit_size found pack one.left (last.same_budget ∙ two.same_budget)
              (omega (arith, two.grows, last.grows)) one.lacking;
        symbols_lack =
            Lacks-later enc.symbol_size filled pack two.left last.same_budget last.grows
              two.lacking;
        relations_lack = last.lacking;
      }

  -- A pack that is built holds candidates of the merged hits, symbols of the merged selection and
  -- relations of the symbols it holds, each in its order. `skipped` names every other one of these, in
  -- order and nothing else, and each of those has no size or one that exceeds what is left of the
  -- budget.
  pub build_context_pack-IsComplete :
      (hits : List (SymbolHit F)) (budget : ℕ) (keys : List Text) {pack : ContextPack F}
      → build_context_pack enc g hits budget keys ≡ ok pack
      → IsComplete enc g hits keys pack
  unfolding build_context_pack add_candidates add_symbols
  build_context_pack-IsComplete hits budget keys {pack} e =
      let start = empty_pack F budget in
      let cs = dedup_candidates hits in
      let found = add_candidates enc start cs in
      let (fetched, got, rest) =
        >>=-eq-ok (fetch_symbols g keys)
          (λ fetched.
            let filled = add_symbols enc found (dedup_symbols fetched) in
            relate enc g filled filled.symbols)
          e in
      let syms = dedup_symbols fetched in
      let filled = add_symbols enc found syms in
      IsComplete-stages hits budget keys fetched found filled pack got
        (for_each-Offered (λ t. t.candidates) (λ c. c.key) enc.hit_size (add_candidate enc)
          (add_candidate-Offered enc) start cs)
        (
          for_each_frame (λ t. t.symbols) (add_candidate enc) (λ t c. (add_candidate_frame t c).0)
              start cs,
          for_each_frame (λ t. t.relations) (add_candidate enc) (λ t c. (add_candidate_frame t c).1)
              start cs,
        )
        (for_each-Offered (λ t. t.symbols) (λ s. s.key) enc.symbol_size (add_symbol enc)
          (add_symbol-Offered enc) found syms)
        (
          for_each_frame (λ t. t.candidates) (add_symbol enc) (λ t c. (add_symbol_frame t c).0)
              found syms,
          for_each_frame (λ t. t.relations) (add_symbol enc) (λ t c. (add_symbol_frame t c).1) found
              syms,
        )
        (relate-Related filled.symbols filled rest)
