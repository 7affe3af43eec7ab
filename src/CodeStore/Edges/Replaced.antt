-- ===== src/CodeStore/Edges/Replaced.antt =====
-- symbols.go: ReplaceRelations as a whole.
use ragrep.Common.{
  ℕ, ◌≡◌, refl, sym, ap, subst, ◌∙◌, ◌⊎◌, inl, inr, Text, text_eq_iff, Bool, true, false, Any, In,
  ◌↔◌, arith, not, List, [], ◌∷◌, ◌++◌, map, append-nil, append_assoc, select, is_empty, ok, err,
  ◌>>>◌, >>>-Leads, each, finally-cases,
}
use ragrep.CodeIndex.{Relation}
use ragrep.CodeStore.{database}
use ragrep.CodeStore.Tables.{Edge, CodeDb}
use ragrep.CodeStore.Upsert.{CodeEnv, run_statement}
use ragrep.CodeStore.Upsert.Steps.{run_statement-Leads, run_unique-Leads}
use ragrep.CodeStore.Upsert.Drops.{ok_injective}
use ragrep.CodeStore.Edges.{
  same_edge, one_of, edge_taken, edge_of, replaced, insert_edge, replace_tx, replace_relations,
}

module _ {Blob : Type 0} where
  abbrev with_edges : List Edge → CodeDb Blob → CodeDb Blob
  with_edges edges db = record db { symbol_edges = edges }

  abbrev kept_edges : Text → List Text → CodeDb Blob → List Edge
  kept_edges from_key kinds db = select (λ e. not (replaced from_key kinds e)) db.symbol_edges

-- No edge is given twice, nor among those already there.
abbrev AllNew : ℕ → List Edge → List Relation → Type 0
AllNew run edges [] = Unit
AllNew run edges (r ∷ relations) =
    (edge_taken (edge_of run r) edges ≡ false) × AllNew run (edges ++ edge_of run r ∷ []) relations

-- The row that a relation should become.
abbrev pub row_of : ℕ → Relation → Edge
row_of run r = record {
  from_key = r.from_key;
  to_key = r.to_key;
  kind = r.kind;
  source = r.source;
  index_run_id = run;
}

-- What an edge has in common with a relation that may not be stored beside it.
abbrev pub Collides : Relation → Edge → Type 0
Collides r e =
    (e.from_key ≡ r.from_key) × (e.to_key ≡ r.to_key) × (e.kind ≡ r.kind) × (e.source ≡ r.source)

-- No relation collides with an edge that is there, nor with one before it.
abbrev pub AllDifferent : ℕ → List Edge → List Relation → Type 0
AllDifferent run edges [] = Unit
AllDifferent run edges (r ∷ relations) =
    (¬ (Any (Collides r) edges)) × AllDifferent run (edges ++ row_of run r ∷ []) relations

Collides-taken :
    (run : ℕ) (r : Relation) (edges : List Edge)
    → Any (Collides r) edges
    → edge_taken (edge_of run r) edges ≡ true
unfolding edge_taken same_edge edge_of
Collides-taken run r [] h = absurd h
Collides-taken run r (e ∷ edges) (inl h) = ground (
  arith,
  text_eq_iff e.from_key r.from_key,
  text_eq_iff e.to_key r.to_key,
  text_eq_iff e.kind r.kind,
  text_eq_iff e.source r.source,
  h,
)
Collides-taken run r (e ∷ edges) (inr h) = ground (arith, Collides-taken run r edges h)

AllNew-AllDifferent :
    (run : ℕ) (edges : List Edge) (relations : List Relation)
    → AllNew run edges relations
    → AllDifferent run edges relations
unfolding edge_of
AllNew-AllDifferent run edges [] h = tt
AllNew-AllDifferent run edges (r ∷ relations) h = (
  λ c. cc (h.0, Collides-taken run r edges c),
  AllNew-AllDifferent run (edges ++ edge_of run r ∷ []) relations h.1,
)

one_of_iff : (kind : Text) (kinds : List Text) → (one_of kind kinds ≡ true) ↔ In kind kinds
unfolding one_of
one_of_iff kind [] = (λ h. cc, λ h. absurd h)
one_of_iff kind (k ∷ kinds) = ground (arith, text_eq_iff kind k, one_of_iff kind kinds)

not-replaced :
    (from_key : Text) (kinds : List Text) (e : Edge)
    → (not (replaced from_key kinds e) ≡ false) ↔ ((e.from_key ≡ from_key) × In e.kind kinds)
unfolding replaced
not-replaced from_key kinds e =
    ground (arith, text_eq_iff e.from_key from_key, one_of_iff e.kind kinds)

module _ {Vector Blob : Type 0} (env : CodeEnv Vector Blob) where
  inserts :
      (run : ℕ) (relations : List Relation) (db t : CodeDb Blob)
      → each (insert_edge env run) relations db ≡ ok t
      → AllNew run db.symbol_edges relations
        × (with_edges (db.symbol_edges ++ map (edge_of run) relations) db ≡ t)
  unfolding each insert_edge
  inserts run [] db t h =
      (tt, ap (λ edges. with_edges edges db) (append-nil db.symbol_edges) ∙ ok_injective h)
  inserts run (r ∷ relations) db t h =
      let step = >>>-Leads (insert_edge env run r) (each (insert_edge env run) relations) db t h in
      let first =
        run_unique-Leads env (λ d. edge_taken (edge_of run r) d.symbol_edges)
          (λ d. with_edges (d.symbol_edges ++ edge_of run r ∷ []) d) db step.0 step.1 in
      let u = with_edges (db.symbol_edges ++ edge_of run r ∷ []) db in
      let more =
        inserts run relations u t
          (subst (λ d. each (insert_edge env run) relations d ≡ ok t) (sym first.1) step.2) in
      (
        (first.0, more.0),
        ap (λ edges. with_edges edges db)
              (sym
                (append_assoc db.symbol_edges (edge_of run r ∷ []) (map (edge_of run) relations)))
            ∙ more.1,
      )

  replace_tx-Leads :
      (run : ℕ) (from_key : Text) (kinds : List Text) (relations : List Relation)
      (db t : CodeDb Blob)
      → replace_tx env run from_key kinds relations db ≡ ok t
      → AllNew run (kept_edges from_key kinds db) relations
        × (with_edges (kept_edges from_key kinds db ++ map (edge_of run) relations) db ≡ t)
  unfolding replace_tx
  replace_tx-Leads run from_key kinds relations db t h =
      let nop = run_statement env (λ d. d) in
      let cut : CodeDb Blob → CodeDb Blob = λ d. with_edges (kept_edges from_key kinds d) d in
      let put = each (insert_edge env run) relations in
      let c = >>>-Leads (nop >>> run_statement env cut >>> put) nop db t h in
      let b = >>>-Leads (nop >>> run_statement env cut) put db c.0 c.1 in
      let a = >>>-Leads nop (run_statement env cut) db b.0 b.1 in
      let e1 = run_statement-Leads env (λ d. d) db a.0 a.1 in
      let e2 = ap cut e1 ∙ run_statement-Leads env cut a.0 b.0 a.2 in
      let more = inserts run relations (cut db) c.0 (subst (λ d. put d ≡ ok c.0) (sym e2) b.2) in
      (more.0, more.1 ∙ run_statement-Leads env (λ d. d) c.0 t c.2)

  replace_relations-cases :
      (run : ℕ) (from_key : Text) (kinds : List Text) (relations : List Relation) (db : CodeDb Blob)
      → is_empty kinds ≡ false
      → ((e : Text) × (replace_relations env run from_key kinds relations db
            ≡ (db, err (database e))))
        ⊎ (AllNew run (kept_edges from_key kinds db) relations
            × (replace_relations env run from_key kinds relations db ≡ (
              with_edges (kept_edges from_key kinds db ++ map (edge_of run) relations) db,
              ok tt,
            )))
  unfolding replace_relations
  replace_relations-cases run from_key kinds relations db some_kind = rw (some_kind) (
      finally-cases database tt (replace_tx env run from_key kinds relations) db
        (λ r.
          ((e : Text) × (r ≡ (db, err (database e))))
          ⊎ (AllNew run (kept_edges from_key kinds db) relations
              × (r ≡ (
                with_edges (kept_edges from_key kinds db ++ map (edge_of run) relations) db,
                ok tt,
              ))))
        (λ e. inl (e, refl))
        (λ t h.
          let done = replace_tx-Leads run from_key kinds relations db t h in
          inr (done.0, ap (λ u. (u, ok tt)) (sym done.1))))

  -- The relations of a key and one or more kinds are replaced as a whole: an error leaves the tables as
  -- they were. Without one, the edges are those that do not have both this key and one of these kinds,
  -- in their order, followed by the given relations with the run, and nothing else has changed; and no
  -- given relation agrees in key, target, kind and source with another one or with an edge that stayed.
  pub replace_relations-finally :
      (run : ℕ) (from_key : Text) (kinds : List Text) (relations : List Relation) (db : CodeDb Blob)
      → is_empty kinds ≡ false
      → (let r = replace_relations env run from_key kinds relations db in
          ((e : Text) × (r ≡ (db, err (database e))))
          ⊎ ((stays : Edge → Bool) × ((e : Edge)
                → (stays e ≡ false) ↔ ((e.from_key ≡ from_key) × In e.kind kinds))
              × (let edges = select stays db.symbol_edges in
                  AllDifferent run edges relations
                  × (r ≡ (
                    record db { symbol_edges = edges ++ map (row_of run) relations },
                    ok tt,
                  )))))
  unfolding edge_of
  replace_relations-finally run from_key kinds relations db some_kind =
      elim (replace_relations-cases run from_key kinds relations db some_kind) [
        | inl h ↦ inl h
        | inr h ↦ inr (
          (λ e. not (replaced from_key kinds e)),
          not-replaced from_key kinds,
          (AllNew-AllDifferent run (kept_edges from_key kinds db) relations h.0, h.1),
        )
      ]
