-- ===== src/CodeIndex/Relations/Persisted.antt =====
-- relations.go: what is kept of the relations of a query.
use ragrep.Common.{
  text_eq, text_eq_iff, true, false, ◌||◌, ◌≡◌, ◌≢◌, sym, ap, subst, ◌∙◌, ◌↔◌, ◌⊎◌, inl, inr, List,
  [], ◌∷◌, ◌++◌, Any-append, Sublist, Sublist_refl, Sublist_prefix, Sublist_trans, Sublist-append,
  append-nil, append_assoc, Bool-cases, arith, if◌then◌else◌, IsNodup, IsNodup-snoc, In,
}
use ragrep.CodeIndex.{Relation}
use ragrep.CodeIndex.Relations.{relation_eq, seen_before, dedup_from, dedup_resolved_relations}

relation_eq_iff : (a b : Relation) → (relation_eq a b ≡ true) ↔ (a ≡ b)
unfolding relation_eq
relation_eq_iff a b = ground (
  arith,
  text_eq_iff a.from_key b.from_key,
  text_eq_iff a.to_key b.to_key,
  text_eq_iff a.kind b.kind,
  text_eq_iff a.source b.source,
  text_eq_iff a.to_path b.to_path,
)

seen_before_iff : (r : Relation) (seen : List Relation) → (seen_before r seen ≡ true) ↔ In r seen
unfolding seen_before
seen_before_iff r [] = ground arith
seen_before_iff r (s ∷ seen) = ground (arith, relation_eq_iff s r, seen_before_iff r seen)

-- What is put out after one more relation.
abbrev next : List Relation → Relation → List Relation
next out r = if text_eq r.to_key [] || seen_before r out then out else out ++ r ∷ []

next-In :
    (r s : Relation) (out : List Relation)
    → In r (next out s) ↔ (In r out ⊎ ((s ≡ r) × (r.to_key ≢ [])))
next-In r s out = elim (Bool-cases (text_eq s.to_key [] || seen_before s out)) [
  | inl e ↦ rw e (inl, elim [ inl h ↦ h | inr (p, ne) ↦ known e p ne ])
  | inr e ↦ rw e (
    λ h. elim ((Any-append (λ x. x ≡ r) out (s ∷ [])).0 h) [
      | inl old ↦ inl old
      | inr (inl p) ↦ inr (p, λ z. fresh e (ap (λ (t : Relation). t.to_key) p ∙ z))
      | inr (inr none) ↦ absurd none
    ],
    λ h.
        (Any-append (λ x. x ≡ r) out (s ∷ [])).1
          (elim h [ inl old ↦ inl old | inr (p, ne) ↦ inr (inl p) ]),
  )
]
  where
    known : (text_eq s.to_key [] || seen_before s out) ≡ true → s ≡ r → r.to_key ≢ [] → In r out
    known e p ne =
        let resolved : s.to_key ≢ [] = λ z. ne (ap (λ (t : Relation). t.to_key) (sym p) ∙ z) in
        subst (λ t. In t out) p (ground (arith, text_eq_iff s.to_key [], seen_before_iff s out))

    fresh : (text_eq s.to_key [] || seen_before s out) ≡ false → s.to_key ≢ []
    fresh e = ground (arith, text_eq_iff s.to_key [])

next-IsNodup : (r : Relation) (out : List Relation) → IsNodup out → IsNodup (next out r)
next-IsNodup r out d = elim (Bool-cases (text_eq r.to_key [] || seen_before r out)) [
  | inl e ↦ rw e d
  | inr e ↦ rw e (IsNodup-snoc out r d (ground (arith, seen_before_iff r out)))
]

next-Sublist : (r : Relation) (out : List Relation) → Sublist (next out r) (out ++ r ∷ [])
next-Sublist r out = elim (Bool-cases (text_eq r.to_key [] || seen_before r out)) [
  | inl e ↦ rw e (Sublist_prefix out (r ∷ []))
  | inr e ↦ rw e (Sublist_refl (out ++ r ∷ []))
]

dedup_from-In :
    (r : Relation) (out rs : List Relation)
    → In r (dedup_from out rs) ↔ (In r out ⊎ (In r rs × (r.to_key ≢ [])))
unfolding dedup_from
dedup_from-In r out [] = (inl, elim [ inl h ↦ h | inr (h, ne) ↦ absurd h ])
dedup_from-In r out (s ∷ rs) =
    let step = next-In r s out in
    let ih = dedup_from-In r (next out s) rs in
    (
      λ h. elim (ih.0 h) [
        | inl g ↦ elim (step.0 g) [ inl old ↦ inl old | inr (p, ne) ↦ inr (inl p, ne) ]
        | inr (g, ne) ↦ inr (inr g, ne)
      ],
      elim [
        | inl old ↦ ih.1 (inl (step.1 (inl old)))
        | inr (inl p, ne) ↦ ih.1 (inl (step.1 (inr (p, ne))))
        | inr (inr g, ne) ↦ ih.1 (inr (g, ne))
      ],
    )

dedup_from-IsNodup : (out rs : List Relation) → IsNodup out → IsNodup (dedup_from out rs)
unfolding dedup_from
dedup_from-IsNodup out [] d = d
dedup_from-IsNodup out (r ∷ rs) d = dedup_from-IsNodup (next out r) rs (next-IsNodup r out d)

dedup_from-Sublist : (out rs : List Relation) → Sublist (dedup_from out rs) (out ++ rs)
unfolding dedup_from
dedup_from-Sublist out [] = rw append-nil (Sublist_refl out)
dedup_from-Sublist out (r ∷ rs) =
    let grown = Sublist-append rs (next-Sublist r out) in
    Sublist_trans (rw append_assoc at grown) (dedup_from-Sublist (next out r) rs)

-- The relations that are kept are exactly the given ones with a key to point to; none is kept
-- twice, and they keep their order.
pub dedup_resolved_relations_lem :
    (rs : List Relation)
    → ((r : Relation) → In r (dedup_resolved_relations rs) ↔ (In r rs × (r.to_key ≢ [])))
      × IsNodup (dedup_resolved_relations rs)
      × Sublist (dedup_resolved_relations rs) rs
unfolding dedup_resolved_relations
dedup_resolved_relations_lem rs = (
  λ r.
      let h = dedup_from-In r [] rs in
      (λ g. elim (h.0 g) [ inl bad ↦ absurd bad | inr k ↦ k ], λ k. h.1 (inr k)),
  dedup_from-IsNodup [] rs tt,
  dedup_from-Sublist [] rs,
)
